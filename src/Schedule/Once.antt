-- ===== src/Schedule/Once.antt =====
-- How often an entry of fbo_schedule.c's queue is released. An entry is told by its content hash: an
-- addition whose hash a live entry has is refused.
use kfsw_services.Common.{
  ℕ, zero, suc, ◌+◌, ◌≤◌, ◌≡◌, refl, ap, ◌∙◌, inl, inr, true, false, Option, none, some, List, [],
  ◌∷◌, ◌++◌, arith, get_elem?, ◌==◌, All, Option-cases,
}
use kfsw_services.Common.Codes.{Code}
use kfsw_services.Schedule.{Entry, Slot, State, Config, Clock, waits}
use kfsw_services.Schedule.Queue.{Request, serve, serve_all}
use kfsw_services.Schedule.Sweep.{
  Surroundings, Swept, examine, started, reported, has_failed, begin, finish, copied, answer_of,
  release, sweep_from, check_step,
}
use kfsw_services.Schedule.Waiting
use kfsw_services.Schedule.Waiting.{one_if, waits_as, waiting, accepted, accepted_all}
use kfsw_services.Schedule.Updating.{get_elem?-update_self}
use kfsw_services.Schedule.Candidate.{examine-Choice, examine-at}

-- No other thread takes the lock between a choice and the start of its release.
abbrev pub Undisturbed : (ℕ → Surroundings) → Type 0
Undisturbed env = (n : ℕ) → (env n).before ≡ []

waits-reported : (answer : Code × ℕ) (sl : Slot) → waits (reported answer sl) ≡ false
waits-reported answer sl = ground (arith, has_failed answer)

waiting-examine :
    (h : ℕ) (clock : Clock) (s : State) → waiting h (examine clock s).0.slots ≤ waiting h s.slots
unfolding examine
waiting-examine h clock s = Waiting.waiting-marked h clock s.latency_s s.slots

waiting-begin :
    (h : ℕ) (utc : Option ℕ) (i : ℕ) (s : State) (sl : Slot)
    → get_elem? s.slots i ≡ some sl
    → waiting h (begin utc i s).slots + one_if (waits_as h sl) ≡ waiting h s.slots
unfolding begin
waiting-begin h utc i s sl at =
    let one = Waiting.waiting-update h (started utc) i s.slots sl at in
    let runs : one_if (waits_as h (started utc sl)) ≡ 0 = ground arith in omega (arith, one, runs)

waiting-finish :
    (h i : ℕ) (answer : Code × ℕ) (s : State)
    → waiting h (finish i answer s).slots ≤ waiting h s.slots
unfolding finish
waiting-finish h i answer s =
    Waiting.waiting-update_done h (reported answer) (waits-reported answer) i s.slots

-- The entries with the hash `h` of a list.
unfoldable pub count : ℕ → List Entry → ℕ
count h [] = 0
count h (e ∷ es) = let rest = count h es in one_if (e.content_hash == h) + rest

count-append : (h : ℕ) (xs ys : List Entry) → count h (xs ++ ys) ≡ count h xs + count h ys
unfolding count
count-append h [] ys = omega arith
count-append h (x ∷ xs) ys = omega (arith, count-append h xs ys)

-- The copy that is invoked is of the entry that was chosen.
count-copied :
    (h : ℕ) (utc : Option ℕ) (i : ℕ) (s : State) (sl : Slot)
    → get_elem? s.slots i ≡ some sl
    → waits sl ≡ true
    → count h (copied (begin utc i s) i) ≡ one_if (waits_as h sl)
unfolding count begin
count-copied h utc i s sl at w =
    let there = get_elem?-update_self (started utc) i s.slots sl at in
    let copy : copied (begin utc i s) i ≡ (started utc sl).entry ∷ [] = ground (arith, there) in
    ap (count h) copy ∙ ground (arith, w)

module _ (h : ℕ) (crc_update : ℕ → List ℕ → ℕ) (cfg : Config) where
  -- The additions that are accepted while a release of a sweep runs.
  unfoldable pub sweep_accepted : ℕ → (ℕ → Surroundings) → Clock → State → ℕ
  sweep_accepted zero env clock s = 0
  sweep_accepted (suc left) env clock s =
      let seen = examine clock s in
      elim seen.1 [
        | none ↦ 0
        | some i ↦
            let s1 = serve_all crc_update cfg (env left).before seen.0 in
            let one = release crc_update cfg (env left) clock.utc i s1 in
            let more = sweep_accepted left env clock one.state in
            accepted_all h crc_update cfg (env left).meanwhile (begin clock.utc i s1) + more
      ]

  release-waiting :
      (env : Surroundings) (utc : Option ℕ) (i : ℕ) (s : State) (sl : Slot)
      → get_elem? s.slots i ≡ some sl
      → waits sl ≡ true
      → let r = release crc_update cfg env utc i s in
        count h r.invoked + waiting h r.state.slots
        ≤ waiting h s.slots + accepted_all h crc_update cfg env.meanwhile (begin utc i s)
  unfolding release
  release-waiting env utc i s sl at w =
      let s1 = begin utc i s in
      let s2 = serve_all crc_update cfg env.meanwhile s1 in
      let answer = answer_of crc_update cfg env (copied s1 i) in
      omega (
        arith,
        waiting-begin h utc i s sl at,
        count-copied h utc i s sl at w,
        Waiting.waiting-serve_all h crc_update cfg env.meanwhile s1,
        waiting-finish h i answer s2,
      )

  quiet : (rs : List Request) (s : State) → rs ≡ [] → serve_all crc_update cfg rs s ≡ s
  unfolding serve_all
  quiet rs s none_come = rw none_come refl

  pub sweep_from-waiting :
      (left : ℕ) (env : ℕ → Surroundings) (clock : Clock) (s : State)
      → Undisturbed env
      → let r = sweep_from crc_update cfg left env clock s in
        count h r.invoked + waiting h r.state.slots
        ≤ waiting h s.slots + sweep_accepted left env clock s
  unfolding sweep_from sweep_accepted count
  sweep_from-waiting zero env clock s calm = omega arith
  sweep_from-waiting (suc left) env clock s calm = elim (Option-cases (examine clock s).1) [
    | inl e ↦ rw (sweep_from, sweep_accepted, e) (omega (arith, waiting-examine h clock s))
    | inr (i, e) ↦
        let s1 = (examine clock s).0 in
        let c = examine-Choice clock s i e in
        let one = release crc_update cfg (env left) clock.utc i s1 in
        let more = sweep_from crc_update cfg left env clock one.state in
        rw (sweep_from, sweep_accepted, e, quiet (env left).before s1 (calm left))
          (omega (
            arith,
            waiting-examine h clock s,
            count-append h one.invoked more.invoked,
            release-waiting (env left) clock.utc i s1 c.slot (examine-at clock s i c)
                c.is_due.waiting,
            sweep_from-waiting left env clock one.state calm,
          ))
  ]

  -- A step of the queue: a call by a thread, or a turn of the release thread.
  pub data Step : Type 0 where
    called : Request → Step
    turned : (ℕ → Surroundings) → Clock → Step

  -- The loop of `schedule_thread`: the clock check, then the sweep.
  unfoldable pub thread_turn : (ℕ → Surroundings) → Clock → State → Swept
  thread_turn env clock s =
      let (s1, steps) = check_step cfg clock s in
      let swept = sweep_from crc_update cfg cfg.burst env clock s1 in
      record swept { notes = steps ++ swept.notes }

  unfoldable pub step : Step → State → State
  step (called r) s = serve crc_update cfg r s
  step (turned env clock) s = (thread_turn env clock s).state

  -- The entries with the hash `h` that a step invokes, and the additions with it that are accepted in
  -- the step.
  unfoldable pub step_invoked : Step → State → ℕ
  step_invoked (called r) s = 0
  step_invoked (turned env clock) s = count h (thread_turn env clock s).invoked

  unfoldable pub step_accepted : Step → State → ℕ
  step_accepted (called r) s = accepted h crc_update cfg r s
  step_accepted (turned env clock) s = sweep_accepted cfg.burst env clock (check_step cfg clock s).0

  unfoldable pub run_invoked : List Step → State → ℕ
  run_invoked [] s = 0
  run_invoked (t ∷ ts) s = let rest = run_invoked ts (step t s) in step_invoked t s + rest

  unfoldable pub run_accepted : List Step → State → ℕ
  run_accepted [] s = 0
  run_accepted (t ∷ ts) s = let rest = run_accepted ts (step t s) in step_accepted t s + rest

  unfoldable pub run : List Step → State → State
  run [] s = s
  run (t ∷ ts) s = run ts (step t s)

  abbrev pub IsUndisturbed : Step → Type 0
  IsUndisturbed (called r) = Unit
  IsUndisturbed (turned env clock) = Undisturbed env

  check_step-slots : (clock : Clock) (s : State) → (check_step cfg clock s).0.slots ≡ s.slots
  unfolding check_step
  check_step-slots clock s = ground arith

  step-waiting :
      (t : Step) (s : State)
      → IsUndisturbed t
      → step_invoked t s + waiting h (step t s).slots ≤ waiting h s.slots + step_accepted t s
  unfolding step step_invoked step_accepted thread_turn
  step-waiting (called r) s calm = omega (arith, Waiting.waiting-serve h crc_update cfg r s)
  step-waiting (turned env clock) s calm =
      let s1 = (check_step cfg clock s).0 in
      let same : waiting h s1.slots ≡ waiting h s.slots =
        ap (waiting h) (check_step-slots clock s) in
      omega (arith, same, sweep_from-waiting cfg.burst env clock s1 calm)

  -- An entry is released at most once for each addition that was accepted: for any content hash, over
  -- any sequence of calls, clock readings and turns of the release thread, with any calls while a
  -- command runs but none between the choice of an entry and the start of its release, the entries
  -- with that hash that are invoked and those that still wait at the end are together at most those
  -- that waited at the start and the additions with that hash accepted since.
  pub run_invoked_at_most_once :
      (ts : List Step) (s : State)
      → All IsUndisturbed ts
      → run_invoked ts s + waiting h (run ts s).slots ≤ waiting h s.slots + run_accepted ts s
  unfolding run_invoked run_accepted run
  run_invoked_at_most_once [] s calm = omega arith
  run_invoked_at_most_once (t ∷ ts) s calm =
      omega (arith, step-waiting t s calm.0, run_invoked_at_most_once ts (step t s) calm.1)
