-- ===== src/Health/Tests.antt =====
-- The theorems about health.c at concrete inputs.
use kfsw_services.Common.{
  ℕ, ◌≤◌, ◌<◌, ◌≡◌, ◌≢◌, ◌↔◌, ◌⊎◌, refl, true, false, none, List, [], ◌∷◌, arith, length, All,
  list_eq,
}
use kfsw_services.Common.Codes.{ok, err, success, eexist, etimedout}
use kfsw_services.Health.{
  Entry, State, Mode, working, faulted, stopped, Watchdog, unused, registered, first_free, register,
  same_prefix, has_name,
}
use kfsw_services.Health.Supervise.{evaluate, start, set_interval_ms, timeout_in_force}
use kfsw_services.Health.Table.{IsWellFormed, reports, step, step-IsWellFormed}
use kfsw_services.Health.Deadlines.{
  MeetsDeadline, evaluate_feeds, ReportsOnce, evaluate-ReportsOnce, evaluate-start,
  evaluate-register_silent, set_interval_ms_bounds,
}
use kfsw_services.Health.Names.{register_again}

abbrev dog : Watchdog
dog = record {
  configured_timeout_ms = 8000;
  info_timeout_ms = none;
  feed_interval_ms = λ t. 2000;
  release_result = 0;
  feed_result = 0;
}

abbrev radio : List ℕ
radio = b'r' ∷ b'a' ∷ b'd' ∷ b'i' ∷ b'o' ∷ []

abbrev radio_entry : Entry
radio_entry = registered radio 5000 100

-- A service that watches one component, started or not yet.
abbrev watching : Mode → State
watching mode = record {
  interval_ms = 1000;
  entries = radio_entry ∷ unused ∷ [];
  mode = mode;
  count = 1;
  feeding = false;
  faults = 0;
  feeds = 0;
  faulted_by = [];
  scheduled = false;
}

abbrev empty_table : State
empty_table = record (watching working) { entries = unused ∷ unused ∷ []; count = 0 }

watching-IsWellFormed : IsWellFormed (watching working)
watching-IsWellFormed = ground arith

empty_table-IsWellFormed : IsWellFormed empty_table
empty_table-IsWellFormed = ground arith

step-IsWellFormed_example : IsWellFormed (step dog (watching working) 200 (reports 0))
step-IsWellFormed_example =
    step-IsWellFormed dog (watching working) 200 (reports 0) watching-IsWellFormed

evaluate_feeds_example :
    (((evaluate dog (watching working) 9000).1.fed ≡ true)
      ↔ All (MeetsDeadline 9000) (watching working).entries)
    × (((evaluate dog (watching working) 9000).1.code ≡ success)
        ↔ All (MeetsDeadline 9000) (watching working).entries)
    × (((evaluate dog (watching working) 9000).1.fed ≡ true)
        ⊎ (((evaluate dog (watching working) 9000).1.code ≡ etimedout)
            × ((evaluate dog (watching working) 9000).0.mode ≡ faulted)
            × ((evaluate dog (watching working) 9000).0.feeding ≡ false)))
evaluate_feeds_example =
    evaluate_feeds dog (watching working) 9000 refl (omega arith) (ground arith)

evaluate-ReportsOnce_test :
    ReportsOnce
      (watching working)
      (evaluate dog (watching working) 9000).0
      (evaluate dog (watching working) 9000).1.event
evaluate-ReportsOnce_test = evaluate-ReportsOnce dog (watching working) 9000

evaluate-start_test : (evaluate dog (start dog (watching stopped) 9000).0 9000).1.fed ≡ true
unfolding start
evaluate-start_test = evaluate-start dog (watching stopped) _ 9000 refl

evaluate-register_silent_test :
    (evaluate dog (register empty_table radio 5000 100).0 9000).1.fed ≡ false
unfolding register first_free has_name
evaluate-register_silent_test =
    evaluate-register_silent dog empty_table _ radio 5000 100 9000 0 refl refl (omega arith)
      (omega arith) (omega arith)

set_interval_ms_bounds_test :
    let (t, code) = set_interval_ms dog (watching working) 1500 in
    ((code ≡ success)
      × (t.interval_ms ≡ 1500)
      × (0 < 1500)
      × ((timeout_in_force dog ≡ 0) ⊎ (1500 ≤ 2000)))
    ⊎ ((code ≢ success) × (t ≡ watching working))
set_interval_ms_bounds_test = set_interval_ms_bounds dog (watching working) 1500

-- A name of 17 bytes, one more than the field holds.
abbrev long_name : List ℕ
long_name = 97 ∷ 97 ∷ 97 ∷ 97 ∷ 97 ∷ 97 ∷ 97 ∷ 97 ∷ 97 ∷ 97 ∷ 97 ∷ 97 ∷ 97 ∷ 97 ∷ 97 ∷ 97 ∷ 97 ∷ []

register_again_test :
    let t = (register empty_table long_name 5000 100).0 in
    (length long_name ≤ 15 → (register t long_name 5000 200).1 ≡ err eexist)
    × (16 ≤ length long_name → (register t long_name 5000 200).1 ≢ err eexist)
unfolding register first_free has_name
register_again_test =
    register_again empty_table _ long_name 5000 100 5000 200 0 empty_table-IsWellFormed refl
      (omega arith)

-- Registered twice: two entries of one name.
registered_twice :
    (register (register empty_table long_name 5000 100).0 long_name 5000 200).1 ≡ ok 1
unfolding register first_free has_name same_prefix list_eq
registered_twice = refl
