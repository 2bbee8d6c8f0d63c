-- ===== src/Registry/Steps.antt =====
-- The threads of command.c in steps: each takes or gives up the claim, goes through the part of a
-- dispatch before its handler, or runs a handler that waits.
use kfsw_services.Common.{ℕ, zero, suc, ◌≢◌, Option, none, some, List, [], ◌∷◌, ◌++◌, get_elem?}
use kfsw_services.Command.{Arg}
use kfsw_services.Registry.{Source, Definition, find_by_name, find_by_id}
use kfsw_services.Registry.Dispatch.{
  ClaimMode, State, stopped, admitted, admit, claim_acquire, claim_release, run_handler, local,
}

-- A dispatch that has passed the test of the claim and has not called its handler.
pub record Pending : Type 0 where
  pub thread : ℕ
  pub definition : Definition
  pub args : List Arg
  pub source : Source

-- The service, and the dispatches that wait for `command_lock`.
pub record World : Type 0 where
  pub state : State
  pub pending : List Pending

-- A step: a thread acquires or releases the claim, or goes through the first part of a dispatch, by
-- name or by identifier; or the waiting dispatch of an index takes `command_lock` and runs its handler.
pub data Step : Type 0 where
  acquiring : ℕ → ClaimMode → Option (List ℕ) → Step
  releasing : ℕ → Step
  invoking : ℕ → List ℕ → List Arg → Step
  invoking_id : ℕ → ℕ → List Arg → Option Source → Step
  handling : ℕ → Step

-- The step is none of the thread's own calls; any waiting dispatch may go on.
abbrev pub IsOfOthers : ℕ → Step → Type 0
IsOfOthers holder (acquiring thread mode owner) = thread ≢ holder
IsOfOthers holder (releasing thread) = thread ≢ holder
IsOfOthers holder (invoking thread name args) = thread ≢ holder
IsOfOthers holder (invoking_id thread id args source) = thread ≢ holder
IsOfOthers holder (handling i) = Unit

unfoldable pub remove : ℕ → List Pending → List Pending
remove i [] = []
remove zero (p ∷ ps) = ps
remove (suc i) (p ∷ ps) = p ∷ remove i ps

unfoldable pub enter : ℕ → Option Definition → List Arg → Source → World → World
enter thread found args source w = elim (admit thread found args source w.state) [
  | stopped r ↦ record w { state = r.state }
  | admitted d s ↦ record {
    state = s;
    pending = record { thread = thread; definition = d; args = args; source = source } ∷ w.pending;
  }
]

unfoldable pub step : Step → World → World
step (acquiring thread mode owner) w = record w {
  state = record (w.state) { claim = (claim_acquire thread mode owner w.state.claim).0 };
}
step (releasing thread) w = record w {
  state = record (w.state) { claim = (claim_release thread w.state.claim).0 };
}
step (invoking thread name args) w =
    enter thread (find_by_name name w.state.registry.registry) args local w
step (invoking_id thread id args source) w =
    let from : Source = elim source [ none ↦ local | some given ↦ given ] in
    enter thread (find_by_id id w.state.registry.registry) args from w
step (handling i) w = elim (get_elem? w.pending i) [
  | none ↦ w
  | some p ↦ record {
    state = (run_handler p.definition p.args p.source w.state).state;
    pending = remove i w.pending;
  }
]

-- The dispatches whose handlers a step runs.
unfoldable pub handled : Step → World → List Pending
handled (handling i) w = elim (get_elem? w.pending i) [ none ↦ [] | some p ↦ p ∷ [] ]
handled _ w = []

unfoldable pub run : List Step → World → World
run [] w = w
run (t ∷ ts) w = run ts (step t w)

unfoldable pub run_handled : List Step → World → List Pending
run_handled [] w = []
run_handled (t ∷ ts) w = let rest = run_handled ts (step t w) in handled t w ++ rest
