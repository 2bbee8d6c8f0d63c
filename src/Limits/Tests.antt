-- ===== src/Limits/Tests.antt =====
-- The theorems about limits.c at concrete inputs: a battery parameter of 16 bits that must not fall
-- below 3000 for three sweeps.
use kfsw_services.Common.{
  ℕ, ◌+◌, ◌≤◌, ◌≡◌, ◌↔◌, refl, true, false, List, [], ◌∷◌, arith, ltb, leb, ◌==◌, none, some,
}
use kfsw_services.Common.Codes.{eacces, ok, err, eio, enospc, success}
use kfsw_services.Common.Int.{pos}
use kfsw_services.Event
use kfsw_services.Limits.{
  Floats, Rule, Status, Surroundings, lt, u16_type, crosses, evaluate, judge, release, sweep,
  fired_event, holds, order, widen,
}
use kfsw_services.Limits.Disabled.{disabled_sweep_restarts}
use kfsw_services.Limits.Firing.{Crosses, run, run_breaks, unlatched, run_releases, run-Crosses}
use kfsw_services.Limits.Comparing.{u16_is, Meets, crosses-Meets}
use kfsw_services.Limits.Events.{release_event_lost}

-- Numbers in place of doubles; 7 is not a number.
abbrev floats : Floats
floats = record { Double = ℕ; is_nan = λ n. n == 7; less = ltb; of_f32 = λ n. n; of_f64 = λ n. n }

abbrev battery : Rule
battery = record {
  index = 4;
  parameter = 98 ∷ [];
  type = u16_type;
  cmp = lt;
  bound = 3000;
  bound_text = [];
  dwell = 3;
  streak = 0;
  latched = false;
  node = 0;
  action = 97 ∷ [];
}

abbrev fresh : Status
fresh = record { sweeps = 0; fires = 0; failures = 0; last_fired_index = 255; last_fired_ms = 0 }

abbrev reads : ℕ → Surroundings
reads n = record { param_get = ok n; schedule_add = success; now = 5000 }

abbrev fails : Surroundings
fails = record { param_get = err eio; schedule_add = enospc; now = 5000 }

low : Crosses floats battery (reads 2900)
unfolding crosses order widen holds
low = record { scalar = 2900; reading = refl; crossing = refl; takes = refl }

-- Two fires: the good reading between them ends the first run.
abbrev mixed : List Surroundings
mixed = reads 2900 ∷ fails ∷ reads 2900 ∷ reads 2900 ∷ reads 3100 ∷ reads 1 ∷ reads 1 ∷ reads 1 ∷ []

run-mixed : (run floats mixed fresh battery).releases ≡ 2
unfolding run evaluate crosses order widen holds judge release
run-mixed = refl

run_releases_example :
    (run floats mixed fresh battery).releases
    ≤ unlatched floats battery + run_breaks floats battery mixed
run_releases_example = run_releases floats mixed fresh battery

run-Crosses_test :
    let after = run floats (reads 2900 ∷ reads 2900 ∷ reads 2900 ∷ reads 2900 ∷ []) fresh battery in
    (after.rule.streak ≡ 4)
    × (after.rule.latched ≡ leb 3 after.rule.streak)
    × (after.releases + unlatched floats after.rule ≡ 1)
run-Crosses_test =
    run-Crosses floats (reads 2900 ∷ reads 2900 ∷ reads 2900 ∷ reads 2900 ∷ []) fresh battery
      (low, (low, (low, (low, tt)))) (omega arith) (omega arith) (omega arith) refl

crosses-Meets_example : (crosses floats battery 2900 ≡ true) ↔ Meets lt (pos 2900) (pos 3000)
crosses-Meets_example = crosses-Meets floats battery 2900 u16_is

abbrev due : Rule
due = record battery { streak = 2 }

due_fires : (evaluate floats (reads 2900) fresh due).event ≡ some (fired_event due)
unfolding evaluate crosses order widen holds judge release
due_fires = refl

-- An empty ring of one record.
abbrev ring : Event.State
ring = record {
  ring = Event.zero_record ∷ [];
  next_sequence = 0;
  recorded_count = 0;
  rejected_count = 0;
  overwritten_count = 0;
  held_count = 0;
  oldest_index = 0;
}

release_event_lost_example :
    Event.emit ring (fired_event due) 9 ≡ (record ring { rejected_count = 1 }, none)
release_event_lost_example =
    release_event_lost floats (reads 2900) fresh due (fired_event due) due_fires ring 9

-- Two low readings, a disabled sweep, and two more: the rule does not fire.
disabled_sweep_restarts_test :
    ((sweep floats false (λ r. fails) fresh (due ∷ [])).1 ≡ fresh)
    × ((sweep floats false (λ r. fails) fresh (due ∷ [])).2 ≡ err eacces)
    × ((run floats (reads 2900 ∷ reads 2900 ∷ []) fresh battery).releases ≡ 0)
unfolding sweep
disabled_sweep_restarts_test =
    disabled_sweep_restarts floats (λ r. fails) fresh (due ∷ []) 0 battery
      (reads 2900 ∷ reads 2900 ∷ []) refl refl (omega arith) (omega arith) (low, (low, tt))
      (omega arith)
