-- ===== src/Registry/Tests.antt =====
-- The theorems about command.c at concrete inputs: a command "p" without arguments and a command "q"
-- with one number.
use kfsw_services.Common.{
  ◌+◌, ◌≡◌, refl, ◌↔◌, true, false, Option, none, some, List, [], ◌∷◌, ◌++◌, subst, arith, list_eq,
}
use kfsw_services.Common.Words.{u32}
use kfsw_services.Common.Codes.{Code, success, einval}
use kfsw_services.Command.{Arg, u32_arg}
use kfsw_services.Command.Retry.{Outcome, status_ok}
use kfsw_services.Registry.{
  Source, Definition, DefinitionSet, Registry, init, register_sets, register_all, register,
  validate_definition, check_definition, find_by_id, find_by_name,
}
use kfsw_services.Registry.Dispatch.{
  exclusive, shared, State, dispatch, admitted, admit, admit_to, complete, check_arguments,
  check_types, check_claim, count_outcome, local,
}
use kfsw_services.Registry.Unique.{IsRegistry, definitions_of, init-IsRegistry, find-registered}
use kfsw_services.Registry.Running.{
  Conforms, MayRun, Ran, check_arguments-Conforms, admit-MayRun, dispatch-Ran, dispatch-counters,
}
use kfsw_services.Registry.Steps.{
  Step, World, acquiring, releasing, invoking, invoking_id, handling, run, run_handled,
}
use kfsw_services.Registry.Claims.{Shuts, run-Shuts}

abbrev ping_handler : List Arg → Source → Code × Outcome
ping_handler args source = (success, record { status = 0; detail = 111 ∷ 107 ∷ [] })

abbrev ping : Definition
ping = record {
  id = 3;
  name = some (112 ∷ []);
  help = none;
  flags = 0;
  arg_count = 0;
  arg_types = none;
  handler = some ping_handler;
}

-- It fails without a status.
abbrev quit_handler : List Arg → Source → Code × Outcome
quit_handler args source = (einval, record { status = 0; detail = [] })

abbrev quit : Definition
quit = record {
  id = 4;
  name = some (113 ∷ []);
  help = none;
  flags = 1;
  arg_count = 1;
  arg_types = some (1 ∷ []);
  handler = some quit_handler;
}

abbrev sets : List (Option DefinitionSet)
sets =
    some (record { commands = some (ping ∷ []); count = 1 })
    ∷ some (record { commands = none; count = 0 })
    ∷ some (record { commands = some (quit ∷ []); count = 1 })
    ∷ []

abbrev down : Registry
down = record { registry = []; ready = false }

init-IsRegistry_example :
    let after = init 8 (some sets) 3 down in
    IsRegistry 8 after.0.registry
    × ((after.0.ready ≡ true) ↔ (after.1 ≡ success))
    × (after.1 ≡ success → after.0.registry ≡ definitions_of sets)
init-IsRegistry_example = init-IsRegistry 8 sets 3 down

starts : (init 8 (some sets) 3 down).0.registry ≡ ping ∷ quit ∷ []
unfolding init register_sets register_all register validate_definition check_definition find_by_id
    find_by_name list_eq
starts = refl

-- The same definition twice is refused.
refuses_twice : (init 8 (some (sets ++ sets)) 6 down).1 ≡ 17
unfolding init register_sets register_all register validate_definition check_definition find_by_id
    find_by_name list_eq
refuses_twice = refl

both_registered : IsRegistry 8 (ping ∷ quit ∷ [])
both_registered = subst (λ ds. IsRegistry 8 ds) starts (init-IsRegistry 8 sets 3 down).0

find-registered_test :
    (find_by_id 4 (ping ∷ quit ∷ []) ≡ some quit)
    × (find_by_name (113 ∷ []) (ping ∷ quit ∷ []) ≡ some quit)
find-registered_test = find-registered 8 (ping ∷ quit ∷ []) 1 quit both_registered refl

-- Thread 7 holds the claim exclusively.
abbrev claimed : State
claimed = record {
  registry = record { registry = ping ∷ quit ∷ []; ready = true };
  claim = record {
    owner = 7;
    mode = exclusive;
    name = 102 ∷ [];
    intrusions = 0;
    refusals = 0;
    held = true;
  };
  stats = record { invoked = 5; failed = 0; unknown = 0; rejected = 0 };
}

abbrev one_number : List Arg
one_number = u32_arg 9 ∷ []

quit_checks : check_arguments quit one_number ≡ status_ok
unfolding check_arguments check_types
quit_checks = refl

conforms : Conforms quit one_number
conforms = (check_arguments-Conforms quit one_number).0 quit_checks

check_arguments-Conforms_example :
    (check_arguments quit one_number ≡ status_ok) ↔ Conforms quit one_number
check_arguments-Conforms_example = check_arguments-Conforms quit one_number

holder_passes : admit 7 (some quit) one_number local claimed ≡ admitted quit claimed
unfolding admit admit_to check_arguments check_types check_claim
holder_passes = refl

admit-MayRun_example : MayRun 7 (some quit) quit one_number claimed
admit-MayRun_example =
    admit-MayRun 7 (some quit) one_number local claimed claimed quit holder_passes

dispatch-Ran_test :
    Ran quit_handler one_number local (dispatch 7 (some quit) one_number local claimed)
dispatch-Ran_test =
    dispatch-Ran 7 quit one_number local claimed quit_handler refl refl conforms refl

-- A wrong number of arguments.
dispatch-counters_example :
    let r = dispatch 7 (some quit) [] local claimed in
    (r.state.stats.invoked ≡ u32 (5 + 1)) × (r.ran ≡ none → r.state.stats.rejected ≡ 0)
dispatch-counters_example = dispatch-counters 7 (some quit) [] local claimed refl

counts_as_failed : (dispatch 7 (some quit) [] local claimed).state.stats.failed ≡ 1
unfolding dispatch admit admit_to complete check_arguments count_outcome
counts_as_failed = refl

-- A dispatch of thread 9 waits for its handler.
abbrev busy_world : World
busy_world = record {
  state = claimed;
  pending = record { thread = 9; definition = quit; args = one_number; source = local } ∷ [];
}

abbrev intruders : List Step
intruders =
    invoking 8 (112 ∷ []) []
    ∷ releasing 8
    ∷ acquiring 9 shared (some (120 ∷ []))
    ∷ handling 0
    ∷ invoking_id 9 4 one_number none
    ∷ []

run-Shuts_example : Shuts 7 busy_world (run intruders busy_world) (run_handled intruders busy_world)
run-Shuts_example =
    run-Shuts 7 intruders busy_world (record { held = refl; owner = refl; mode = refl })
      (
        (λ e. ground (arith, e)),
        (
          (λ e. ground (arith, e)),
          ((λ e. ground (arith, e)), (tt, ((λ e. ground (arith, e)), tt))),
        ),
      )
