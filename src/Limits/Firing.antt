-- ===== src/Limits/Firing.antt =====
-- How often a rule of limits.c fires over a sequence of sweeps.
use kfsw_services.Common.{
  ℕ, ◌+◌, ◌≤◌, ◌<◌, ◌≡◌, refl, sym, ◌∙◌, ap, ap₂, inl, inr, Bool, true, Option, none, some, List,
  [], ◌∷◌, arith, length, min, leb, if◌then◌else◌, All,
}
use kfsw_services.Common.Codes.{Code, ok, err, success, Result-cases}
use kfsw_services.Event
use kfsw_services.Limits.{
  Floats, Rule, Status, Surroundings, crosses, evaluate, note_failure, judge, release,
}

module _ (floats : Floats) where
  -- A rule over a sequence of evaluations: the rule that they leave, and how many of them emitted a
  -- release's event.
  pub record Ran : Type 0 where
    pub rule : Rule
    pub releases : ℕ

  abbrev pub released : Option Event.Emission → ℕ
  released e = elim e [ none ↦ 0 | some x ↦ 1 ]

  unfoldable pub run : List Surroundings → Status → Rule → Ran
  run [] st rule = record { rule = rule; releases = 0 }
  run (env ∷ envs) st rule =
      let one = evaluate floats env st rule in
      let rest = run envs one.status one.rule in
      record { rule = rest.rule; releases = released one.event + rest.releases }

  -- A reading that ends a run of crossings.
  abbrev breaks : Rule → Surroundings → ℕ
  breaks rule env = elim env.param_get [
    | err e ↦ 0
    | ok scalar ↦ if crosses floats rule scalar then 0 else 1
  ]

  unfoldable pub run_breaks : Rule → List Surroundings → ℕ
  run_breaks rule [] = 0
  run_breaks rule (env ∷ envs) = let rest = run_breaks rule envs in breaks rule env + rest

  -- A reading that crosses, with a scheduler that takes the action.
  pub record Crosses (rule : Rule) (env : Surroundings) : Type 0 where
    pub scalar : ℕ
    pub reading : env.param_get ≡ ok scalar
    pub crossing : crosses floats rule scalar ≡ true
    pub takes : env.schedule_add ≡ success

  -- What an evaluation keeps of a rule.
  judge_keeps :
      (env : Surroundings) (st : Status) (rule : Rule) (crossing : Bool)
      → let after = (judge env st rule crossing).rule in
        (after.cmp ≡ rule.cmp) × (after.type ≡ rule.type) × (after.bound ≡ rule.bound)
  unfolding judge
  judge_keeps env st rule crossing = ground arith

  judge-crosses :
      (env : Surroundings) (st : Status) (rule : Rule) (crossing : Bool) (scalar : ℕ)
      → crosses floats (judge env st rule crossing).rule scalar ≡ crosses floats rule scalar
  unfolding crosses
  judge-crosses env st rule crossing scalar =
      let (cmp, type, bound) = judge_keeps env st rule crossing in rw (cmp, type, bound) refl

  abbrev pub unlatched : Rule → ℕ
  unlatched rule = if rule.latched then 0 else 1

  judge_releases :
      (env : Surroundings) (st : Status) (rule : Rule) (crossing : Bool)
      → let one = judge env st rule crossing in
        released one.event + unlatched one.rule ≤ unlatched rule + (if crossing then 0 else 1)
  unfolding judge release
  judge_releases env st rule crossing = ground arith

  -- An evaluation that crosses, when the scheduler takes the action.
  judge-true :
      (env : Surroundings) (st : Status) (rule : Rule)
      → env.schedule_add ≡ success
      → rule.streak ≤ 255
      → 0 < rule.dwell
      → rule.dwell ≤ 255
      → rule.latched ≡ leb rule.dwell rule.streak
      → let one = judge env st rule true in
        (one.rule.streak ≡ min (rule.streak + 1) 255)
        × (one.rule.latched ≡ leb rule.dwell one.rule.streak)
        × (one.rule.dwell ≡ rule.dwell)
        × (released one.event + unlatched one.rule ≡ unlatched rule)
  unfolding judge release
  judge-true env st rule c a b d e = ground arith

  breaks-judge :
      (env : Surroundings) (st : Status) (rule : Rule) (crossing : Bool) (e : Surroundings)
      → breaks (judge env st rule crossing).rule e ≡ breaks rule e
  breaks-judge env st rule crossing e = elim (Result-cases e.param_get) [
    | inl (code, p) ↦ rw p refl
    | inr (scalar, p) ↦ rw (p, judge-crosses env st rule crossing scalar) refl
  ]

  run_breaks-judge :
      (envs : List Surroundings) (env : Surroundings) (st : Status) (rule : Rule) (crossing : Bool)
      → run_breaks (judge env st rule crossing).rule envs ≡ run_breaks rule envs
  unfolding run_breaks
  run_breaks-judge [] env st rule crossing = refl
  run_breaks-judge (e ∷ envs) env st rule crossing =
      ap₂ (λ a b. a + b) (breaks-judge env st rule crossing e)
        (run_breaks-judge envs env st rule crossing)

  pub evaluate-err :
      (env : Surroundings) (st : Status) (rule : Rule) {code : Code}
      → env.param_get ≡ err code
      → (evaluate floats env st rule
          ≡ record { rule = rule; status = note_failure st; event = none })
        × (breaks rule env ≡ 0)
  unfolding evaluate
  evaluate-err env st rule p = (rw p refl, rw p refl)

  pub evaluate-ok :
      (env : Surroundings) (st : Status) (rule : Rule) {scalar : ℕ}
      → env.param_get ≡ ok scalar
      → (evaluate floats env st rule ≡ judge env st rule (crosses floats rule scalar))
        × (breaks rule env ≡ (if crosses floats rule scalar then 0 else 1))
  unfolding evaluate
  evaluate-ok env st rule p = (rw p refl, rw p refl)

  -- A rule releases its action once for each run of crossings: over any sequence of readings, failed
  -- readings and refused releases included, the releases are at most one more than the readings at
  -- which the comparison does not hold, and at most as many if the rule was latched before.
  pub run_releases :
      (envs : List Surroundings) (st : Status) (rule : Rule)
      → (run envs st rule).releases ≤ unlatched rule + run_breaks rule envs
  unfolding run run_breaks
  run_releases [] st rule = omega arith
  run_releases (env ∷ envs) st rule = elim (Result-cases env.param_get) [
    | inl (code, p) ↦
        let (goes, none_breaks) = evaluate-err env st rule p in
        let rest = run_releases envs (note_failure st) rule in
        rw goes (omega (arith, rest, none_breaks))
    | inr (scalar, p) ↦
        let (goes, breaks_now) = evaluate-ok env st rule p in
        let c = crosses floats rule scalar in
        let one = judge env st rule c in
        let now = judge_releases env st rule c in
        let rest = run_releases envs one.status one.rule in
        let same = run_breaks-judge envs env st rule c in
        rw goes (omega (arith, now, rest, same, breaks_now))
  ]

  Crosses-judge :
      (envs : List Surroundings) (env : Surroundings) (st : Status) (rule : Rule)
      → All (Crosses rule) envs
      → All (Crosses (judge env st rule true).rule) envs
  Crosses-judge [] env st rule cs = tt
  Crosses-judge (e ∷ envs) env st rule (c, cs) = (
    record {
      scalar = c.scalar;
      reading = c.reading;
      crossing = judge-crosses env st rule true c.scalar ∙ c.crossing;
      takes = c.takes;
    },
    Crosses-judge envs env st rule cs,
  )

  evaluate-Crosses :
      (env : Surroundings) (st : Status) (rule : Rule)
      → Crosses rule env
      → evaluate floats env st rule ≡ judge env st rule true
  evaluate-Crosses env st rule c =
      (evaluate-ok env st rule c.reading).0 ∙ ap (judge env st rule) c.crossing

  -- A rule with a dwell of 1 to 255, over readings that all cross, while the scheduler takes the
  -- action: each adds one to the streak, which stops at 255, and behind them the rule is latched
  -- exactly if the streak has reached the dwell, and has released its action exactly once if it was
  -- not latched before and is now, and else not at all. The rule starts with a streak of at most 255
  -- and latched exactly if its streak has reached the dwell, as a loaded rule is, with no streak.
  pub run-Crosses :
      (envs : List Surroundings) (st : Status) (rule : Rule)
      → All (Crosses rule) envs
      → rule.streak ≤ 255
      → 0 < rule.dwell
      → rule.dwell ≤ 255
      → rule.latched ≡ leb rule.dwell rule.streak
      → let after = run envs st rule in
        (after.rule.streak ≡ min (rule.streak + length envs) 255)
        × (after.rule.latched ≡ leb rule.dwell after.rule.streak)
        × (after.releases + unlatched after.rule ≡ unlatched rule)
  unfolding run
  run-Crosses [] st rule cs a b d e = ground arith
  run-Crosses (env ∷ envs) st rule (c, cs) a b d e =
      let one = judge env st rule true in
      let (streak, latched, dwell, released) = judge-true env st rule c.takes a b d e in
      let (end, last, count) =
        run-Crosses envs one.status one.rule (Crosses-judge envs env st rule cs) (omega arith)
          (omega arith) (omega arith) (latched ∙ ap (λ n. leb n one.rule.streak) (sym dwell)) in
      rw (evaluate-Crosses env st rule c) (
        omega (arith, end, streak),
        last ∙ ap (λ n. leb n (run envs one.status one.rule).rule.streak) dwell,
        omega (arith, count, released),
      )
