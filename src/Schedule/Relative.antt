-- ===== src/Schedule/Relative.antt =====
-- The relative entries of fbo_schedule.c and the wall clock.
use kfsw_services.Common.{ℕ, suc, ◌≡◌, refl, Option, none, List, [], ◌∷◌, arith, All}
use kfsw_services.Common.Words.{sat_inc}
use kfsw_services.Schedule.{Slot, State, Clock, time_relative}
use kfsw_services.Schedule.Sweep.{turn, due_now, marked, count_overdue, candidate, better, examine}

abbrev pub IsRelative : Slot → Type 0
IsRelative sl = sl.entry.kind ≡ time_relative

due_now-utc :
    (utc : Option ℕ) (clock : Clock) (sl : Slot)
    → IsRelative sl
    → due_now (record clock { utc = utc }) sl ≡ due_now clock sl
unfolding due_now
due_now-utc utc clock sl h = ground (arith, h)

turn-utc :
    (utc : Option ℕ) (clock : Clock) (latency_s : ℕ) (sl : Slot)
    → IsRelative sl
    → turn (record clock { utc = utc }) latency_s sl ≡ turn clock latency_s sl
unfolding turn
turn-utc utc clock latency_s sl h = rw (turn, due_now-utc utc clock sl h) refl

marked-utc :
    (utc : Option ℕ) (clock : Clock) (latency_s : ℕ) (slots : List Slot)
    → All IsRelative slots
    → marked (record clock { utc = utc }) latency_s slots ≡ marked clock latency_s slots
unfolding marked
marked-utc utc clock latency_s [] h = refl
marked-utc utc clock latency_s (sl ∷ sls) h =
    let now = turn-utc utc clock latency_s sl h.0 in
    let rest = marked-utc utc clock latency_s sls h.1 in ground (arith, now, rest)

count_overdue-utc :
    (utc : Option ℕ) (clock : Clock) (latency_s overdues : ℕ) (slots : List Slot)
    → All IsRelative slots
    → count_overdue (record clock { utc = utc }) latency_s overdues slots
      ≡ count_overdue clock latency_s overdues slots
unfolding count_overdue
count_overdue-utc utc clock latency_s overdues [] h = refl
count_overdue-utc utc clock latency_s overdues (sl ∷ sls) h =
    let one = count_overdue-utc utc clock latency_s overdues sls h.1 in
    let more = count_overdue-utc utc clock latency_s (sat_inc overdues) sls h.1 in
    let now = turn-utc utc clock latency_s sl h.0 in ground (arith, now, one, more)

candidate-utc :
    (utc : Option ℕ) (clock : Clock) (latency_s i : ℕ) (so_far : Option (ℕ × ℕ)) (slots : List Slot)
    → All IsRelative slots
    → candidate (record clock { utc = utc }) latency_s i so_far slots
      ≡ candidate clock latency_s i so_far slots
unfolding candidate
candidate-utc utc clock latency_s i so_far [] h = refl
candidate-utc utc clock latency_s i so_far (sl ∷ sls) h =
    rw (turn-utc utc clock latency_s sl h.0) (
      candidate-utc utc clock latency_s (suc i) (better i (turn clock latency_s sl) so_far) sls h.1)

-- The wall clock does not touch relative entries: while all entries are relative, a pass of the sweep
-- marks and chooses the same whatever the wall clock reads, or if it has not been set.
pub examine-utc :
    (utc : Option ℕ) (clock : Clock) (s : State)
    → All IsRelative s.slots
    → examine (record clock { utc = utc }) s ≡ examine clock s
unfolding examine
examine-utc utc clock s h =
    rw
      (
        marked-utc utc clock s.latency_s s.slots h,
        count_overdue-utc utc clock s.latency_s s.overdues s.slots h,
        candidate-utc utc clock s.latency_s 0 none s.slots h,
      )
      refl
