-- ===== src/Gndwdt/Race.antt =====
-- `gndwdt_work_handler` gives the lock up three times. Here other threads may come between its
-- sections.
use kfsw_services.Common.{ℕ, ◌/◌, ◌≤◌, ◌≡◌, Bool, true, false, List, ◌==◌, if◌then◌else◌, arith}
use kfsw_services.Common.Words.{sub_u64}
use kfsw_services.Common.Codes.{success, eagain, etimedout}
use kfsw_services.Gndwdt.{
  State, start, stop, ground_wtd, evaluate, decide_reset, schedule_reset, rearm_check, feed_word,
}

-- Where the handler stands: before `kfsw_gndwdt_evaluate`, behind an expiry, behind the decision, or
-- at its last section.
pub data Phase : Type 0 where
  waiting : Phase
  expired : Phase
  decided : Phase
  rearming : Phase

-- One section of the handler, or one call of another thread.
pub data Step : State → Phase → State → Phase → Type 0 where
  evaluates :
      (s : State) (now : ℕ) (p : Phase)
      → p ≡ (if (evaluate s now).1 == etimedout then expired else rearming)
      → Step s waiting (evaluate s now).0 p
  decides :
      (s : State) (p : Phase)
      → p ≡ (if (decide_reset s).1 then decided else rearming)
      → Step s expired (decide_reset s).0 p
  schedules : (s : State) → Step s decided (schedule_reset s) rearming
  rearms : (s : State) → Step s rearming (rearm_check s) waiting
  stops : (s : State) (p : Phase) → Step s p (stop s).0 p
  starts : (s : State) (p : Phase) (now : ℕ) → Step s p (start s now).0 p
  commands :
      (s : State) (p : Phase) (text : List ℕ) (via_csp : Bool) (node now : ℕ)
      → Step s p (ground_wtd s text via_csp node now).0 p

pub data Reach (s : State) (p : Phase) : State → Phase → Type 0 where
  here : Reach s p s p
  next : {t u : State} {q r : Phase} → Reach s p t q → Step t q u r → Reach s p u r

-- The bug: `kfsw_gndwdt_stop` is meant to call off a decided reset, but a stop that falls between
-- the check's expiry and the handler's decision does not. From every running, enabled service whose
-- timeout has passed, there is an order of sections and one stop, which succeeds, behind which the
-- service is stopped, the reset is decided and the reset work is scheduled. Started again, the
-- service refuses every feed.
pub stop_too_early :
    (s : State) (now later node : ℕ)
    → s.running ≡ true
    → s.enabled ≡ true
    → s.resetting ≡ false
    → s.timeout_s ≤ sub_u64 now s.last_contact_ms / 1000
    → (t : State) × Reach s waiting t waiting
      × ((stop (evaluate s now).0).1 ≡ success)
      × (t.running ≡ false)
      × (t.resetting ≡ true)
      × (t.reset_scheduled ≡ true)
      × ((ground_wtd (start t later).0 feed_word true node later).1 ≡ eagain)
unfolding evaluate stop decide_reset schedule_reset rearm_check start ground_wtd
stop_too_early s now later node a b d t =
    let e = (evaluate s now).0 in
    let stopped = (stop e).0 in
    let first : Step s waiting e expired = evaluates s now expired (ground arith) in
    let second : Step e expired stopped expired = stops e expired in
    let third : Step stopped expired (decide_reset stopped).0 decided =
      decides stopped decided (ground arith) in
    let fourth = schedules (decide_reset stopped).0 in
    (
      rearm_check (schedule_reset (decide_reset stopped).0),
      next (next (next (next (next here first) second) third) fourth) (rearms _),
      ground arith,
      ground arith,
      ground arith,
      ground arith,
      ground arith,
    )
