-- ===== src/Gndwdt/Tests.antt =====
-- The theorems about gndwdt.c at concrete inputs.
use kfsw_services.Common.{ℕ, ◌≡◌, ◌↔◌, refl, true, false, List, [], ◌∷◌, some, arith, list_eq}
use kfsw_services.Common.Codes.{success, eagain, etimedout}
use kfsw_services.Event
use kfsw_services.Gndwdt.{
  Config, State, set_timeout_s, start, stop, ground_wtd, evaluate, work_handler, get_status,
  feed_word, expiry_event,
}
use kfsw_services.Gndwdt.Contact.{
  IsConsistent, Call, commands, works, sets_timeout, step, run, step-IsConsistent, run_never_resets,
  status-evaluate, silence_resets,
}
use kfsw_services.Gndwdt.Race.{Reach, waiting, stop_too_early}

abbrev config : Config
config = record { timeout_min_s = 7200; timeout_max_s = 432000 }

abbrev armed : State
armed = record {
  last_contact_ms = 1000;
  contacts = 0;
  last_node = 0;
  timeout_s = 7200;
  expiries = 0;
  enabled = true;
  running = true;
  resetting = false;
  check_scheduled = true;
  reset_scheduled = false;
}

-- A feed an hour after the last one, checks before and after it, and a refused timeout.
abbrev pass : List (ℕ × Call)
pass =
    (2000000, works)
    ∷ (3601000, commands feed_word true 5)
    ∷ (7300000, works)
    ∷ (7400000, sets_timeout 10)
    ∷ (9000000, works)
    ∷ []

pass_ends : (run config armed pass).timeout_s ≡ 7200
unfolding run step ground_wtd work_handler set_timeout_s
pass_ends = refl

step-IsConsistent_test : IsConsistent config (step config armed 9000000 works)
step-IsConsistent_test = step-IsConsistent config {s = armed} 9000000 works (ground arith)

run_never_resets_example :
    ((run config armed pass).resetting ≡ false)
    × ((run config armed pass).reset_scheduled ≡ false)
    × ((run config armed pass).expiries ≡ 0)
unfolding list_eq
run_never_resets_example =
    run_never_resets config pass {s = armed} {last = 1000} {previous = 1000} (ground arith)
      (ground arith)

status-evaluate_test :
    ((get_status armed 9000000).remaining_s ≡ 0) ↔ ((evaluate armed 9000000).1 ≡ etimedout)
status-evaluate_test = status-evaluate armed 9000000 refl refl refl (omega arith)

silence_resets_test :
    ((work_handler armed 9000000).resetting ≡ true)
    × ((work_handler armed 9000000).reset_scheduled ≡ true)
    × ((evaluate armed 9000000).2 ≡ some (expiry_event 7200))
    × (Event.is_refused (expiry_event 7200) ≡ false)
silence_resets_test = silence_resets armed 9000000 refl refl (omega arith) refl

stop_too_early_example :
    (t : State) × Reach armed waiting t waiting
    × ((stop (evaluate armed 9000000).0).1 ≡ success)
    × (t.running ≡ false)
    × (t.resetting ≡ true)
    × (t.reset_scheduled ≡ true)
    × ((ground_wtd (start t 9100000).0 feed_word true 5 9100000).1 ≡ eagain)
stop_too_early_example = stop_too_early armed 9000000 9100000 5 refl refl refl (omega arith)
