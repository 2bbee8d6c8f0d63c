-- ===== src/Schedule/Candidate.antt =====
-- The entry that a pass of fbo_schedule.c's sweep chooses.
use kfsw_services.Common.{
  ℕ, zero, suc, ◌+◌, ◌≤◌, ◌<◌, ◌≡◌, refl, ◌⊎◌, ap, sym, inl, inr, true, Option, none, some, List,
  [], ◌∷◌, arith, get_elem?, Option-cases, Bool-cases,
}
use kfsw_services.Schedule.{Slot, State, Clock, waits}
use kfsw_services.Schedule.Sweep.{turn, Turn, ready, marked, candidate, better, due_now, examine}

-- An entry whose time has come, by a lateness that the buffer still allows.
pub record IsDue (clock : Clock) (latency_s : ℕ) (sl : Slot) (lateness : ℕ) : Type 0 where
  pub waiting : waits sl ≡ true
  pub due : due_now clock sl ≡ some lateness
  pub in_time : lateness ≤ latency_s

pub turn-ready :
    (clock : Clock) (latency_s : ℕ) (sl : Slot) (lateness : ℕ)
    → turn clock latency_s sl ≡ ready lateness
    → IsDue clock latency_s sl lateness
unfolding turn
turn-ready clock latency_s sl lateness h = elim (Bool-cases (waits sl)) [
  | inl w ↦ elim (Option-cases (due_now clock sl)) [
    | inl e ↦ absurd (ground (arith, h, w, e))
    | inr (l, e) ↦ record {
      waiting = w;
      due = ground (arith, h, w, e);
      in_time = ground (arith, h, w, e);
    }
  ]
  | inr w ↦ absurd (ground (arith, h, w))
]

-- Where a candidate comes from.
pub record Found (clock : Clock) (latency_s i : ℕ) (slots : List Slot) (j lateness : ℕ)
    : Type 0 where
  pub offset : ℕ
  pub slot : Slot
  pub place : j ≡ i + offset
  pub at : get_elem? slots offset ≡ some slot
  pub turns : turn clock latency_s slot ≡ ready lateness

Found-later :
    (clock : Clock) (latency_s i : ℕ) (sl : Slot) (slots : List Slot) (j lateness : ℕ)
    → Found clock latency_s (suc i) slots j lateness
    → Found clock latency_s i (sl ∷ slots) j lateness
Found-later clock latency_s i sl slots j lateness f = record {
  offset = suc f.offset;
  slot = f.slot;
  place = omega (arith, f.place);
  at = f.at;
  turns = f.turns;
}

better_found :
    (i : ℕ) (t : Turn) (so_far : Option (ℕ × ℕ)) (j lateness : ℕ)
    → better i t so_far ≡ some (j, lateness)
    → (so_far ≡ some (j, lateness)) ⊎ ((j ≡ i) × (t ≡ ready lateness))
unfolding better
better_found i t so_far j lateness h = ground (arith, h)

candidate-Found :
    (clock : Clock) (latency_s i : ℕ) (so_far : Option (ℕ × ℕ)) (slots : List Slot) (j lateness : ℕ)
    → candidate clock latency_s i so_far slots ≡ some (j, lateness)
    → (so_far ≡ some (j, lateness)) ⊎ Found clock latency_s i slots j lateness
unfolding candidate
candidate-Found clock latency_s i so_far [] j lateness h = inl h
candidate-Found clock latency_s i so_far (sl ∷ sls) j lateness h =
    let t = turn clock latency_s sl in
    elim (candidate-Found clock latency_s (suc i) (better i t so_far) sls j lateness h) [
      | inr f ↦ inr (Found-later clock latency_s i sl sls j lateness f)
      | inl e ↦ elim (better_found i t so_far j lateness e) [
        | inl before ↦ inl before
        | inr (here, turns) ↦ inr (record {
          offset = 0;
          slot = sl;
          place = omega (arith, here);
          at = refl;
          turns = turns;
        })
      ]
    ]

-- A candidate's rank grows with its lateness, and is 0 for none.
abbrev pub rank : Option (ℕ × ℕ) → ℕ
rank none = 0
rank (some found) = suc found.1

better-rank : (i : ℕ) (t : Turn) (so_far : Option (ℕ × ℕ)) → rank so_far ≤ rank (better i t so_far)
unfolding better
better-rank i t so_far = ground arith

better-rank_ready :
    (i lateness : ℕ) (so_far : Option (ℕ × ℕ)) → lateness < rank (better i (ready lateness) so_far)
unfolding better
better-rank_ready i lateness so_far = ground arith

candidate-rank :
    (clock : Clock) (latency_s i : ℕ) (so_far : Option (ℕ × ℕ)) (slots : List Slot)
    → rank so_far ≤ rank (candidate clock latency_s i so_far slots)
unfolding candidate
candidate-rank clock latency_s i so_far [] = omega arith
candidate-rank clock latency_s i so_far (sl ∷ sls) =
    let t = turn clock latency_s sl in
    omega (
      arith,
      better-rank i t so_far,
      candidate-rank clock latency_s (suc i) (better i t so_far) sls,
    )

-- No entry that is due is later than the candidate.
pub candidate-rank_ready :
    (clock : Clock) (latency_s i : ℕ) (so_far : Option (ℕ × ℕ)) (slots : List Slot) (k : ℕ)
    (sl : Slot) (lateness : ℕ)
    → get_elem? slots k ≡ some sl
    → turn clock latency_s sl ≡ ready lateness
    → lateness < rank (candidate clock latency_s i so_far slots)
unfolding candidate
candidate-rank_ready clock latency_s i so_far [] k sl lateness h t = cc
candidate-rank_ready clock latency_s i so_far (s ∷ ss) zero sl lateness h t =
    let same : s ≡ sl = cc in
    let now : turn clock latency_s s ≡ ready lateness = rw same t in
    rw now (
      let one = better-rank_ready i lateness so_far in
      let rest = candidate-rank clock latency_s (suc i) (better i (ready lateness) so_far) ss in
      omega (arith, one, rest))
candidate-rank_ready clock latency_s i so_far (s ∷ ss) (suc k) sl lateness h t =
    candidate-rank_ready clock latency_s (suc i) (better i (turn clock latency_s s) so_far) ss k sl
      lateness h t

pub IsDue-turn :
    (clock : Clock) (latency_s : ℕ) (sl : Slot) (lateness : ℕ)
    → IsDue clock latency_s sl lateness
    → turn clock latency_s sl ≡ ready lateness
unfolding turn
IsDue-turn clock latency_s sl lateness d = rw (turn, d.waiting, d.due) (ground (arith, d.in_time))

-- What a pass has to choose.
pub record Choice (clock : Clock) (s : State) (i : ℕ) : Type 0 where
  pub slot : Slot
  pub lateness : ℕ
  pub at : get_elem? s.slots i ≡ some slot
  pub is_due : IsDue clock s.latency_s slot lateness
  pub latest :
      (k : ℕ) (other : Slot) (later : ℕ)
      → get_elem? s.slots k ≡ some other
      → IsDue clock s.latency_s other later
      → later ≤ lateness

chosen :
    (clock : Clock) (s : State) (i lateness : ℕ)
    → candidate clock s.latency_s 0 none s.slots ≡ some (i, lateness)
    → Choice clock s i
chosen clock s i lateness h = elim (candidate-Found clock s.latency_s 0 none s.slots i lateness h) [
  | inl e ↦ absurd (ground (arith, e))
  | inr f ↦
      let here : f.offset ≡ i = omega (arith, f.place) in
      record {
        slot = f.slot;
        lateness = lateness;
        at = rw (sym here) f.at;
        is_due = turn-ready clock s.latency_s f.slot lateness f.turns;
        latest = λ k other later at due.
            let turns = IsDue-turn clock s.latency_s other later due in
            let above =
              candidate-rank_ready clock s.latency_s 0 none s.slots k other later at turns in
            omega (arith, above, ap rank h);
      }
]

pub examine-Choice :
    (clock : Clock) (s : State) (i : ℕ) → (examine clock s).1 ≡ some i → Choice clock s i
unfolding examine
examine-Choice clock s i h = elim (Option-cases (candidate clock s.latency_s 0 none s.slots)) [
  | inl e ↦ absurd (ground (arith, h, e))
  | inr (found, e) ↦
      let here : found.0 ≡ i = ground (arith, h, e) in
      rw (sym here) (chosen clock s found.0 found.1 e)
]

-- A pass of the sweep chooses an entry whenever one is due inside the latency buffer.
pub examine-some :
    (clock : Clock) (s : State) (k : ℕ) (sl : Slot) (lateness : ℕ)
    → get_elem? s.slots k ≡ some sl
    → IsDue clock s.latency_s sl lateness
    → (i : ℕ) × ((examine clock s).1 ≡ some i)
unfolding examine
examine-some clock s k sl lateness at due =
    let turns = IsDue-turn clock s.latency_s sl lateness due in
    let above = candidate-rank_ready clock s.latency_s 0 none s.slots k sl lateness at turns in
    elim (Option-cases (candidate clock s.latency_s 0 none s.slots)) [
      | inl e ↦ absurd (omega (arith, above, ap rank e))
      | inr (found, e) ↦ (found.0, rw (examine, e) refl)
    ]

-- The pass leaves a slot that it does not mark as it was.
pub marked-ready :
    (clock : Clock) (latency_s : ℕ) (slots : List Slot) (k : ℕ) (sl : Slot) (lateness : ℕ)
    → get_elem? slots k ≡ some sl
    → turn clock latency_s sl ≡ ready lateness
    → get_elem? (marked clock latency_s slots) k ≡ some sl
unfolding marked
marked-ready clock latency_s [] k sl lateness h t = cc
marked-ready clock latency_s (s ∷ ss) zero sl lateness h t =
    let same : s ≡ sl = cc in
    let now : turn clock latency_s s ≡ ready lateness = rw same t in rw (marked, now) h
marked-ready clock latency_s (s ∷ ss) (suc k) sl lateness h t =
    let rest = marked-ready clock latency_s ss k sl lateness h t in
    ground (arith, rest, turn clock latency_s s)

-- The pass leaves the chosen entry as it was.
pub examine-at :
    (clock : Clock) (s : State) (i : ℕ) (c : Choice clock s i)
    → get_elem? (examine clock s).0.slots i ≡ some c.slot
unfolding examine
examine-at clock s i c =
    marked-ready clock s.latency_s s.slots i c.slot c.lateness c.at
      (IsDue-turn clock s.latency_s c.slot c.lateness c.is_due)
