-- ===== src/Schedule/Tests.antt =====
-- The theorems about fbo_schedule.c at concrete inputs: a queue of two slots, a command "p" without
-- arguments and a command "q" with one number.
use kfsw_services.Common.{
  ℕ, ◌+◌, ◌≤◌, ◌≡◌, refl, true, false, Option, none, some, List, [], ◌∷◌, arith, length, take,
  get_elem?, subst, list_eq, if◌then◌else◌, All,
}
use kfsw_services.Common.Int.{pos}
use kfsw_services.Common.Codes.{Code, ok, err, success, enoent, eexist}
use kfsw_services.Command.{Arg, u32_arg}
use kfsw_services.Schedule.{
  Slot, State, Info, Commands, Config, Clock, cleared_slot, tokenise, build, token, skip_blanks,
  behind_token, parse_all, build_from, content_hash, hash_from,
}
use kfsw_services.Schedule.Queue.{
  Addition, add_request, cancel_request, clear_request, add, admit, place, check_time, find_live,
  find_free, filled, cancel,
}
use kfsw_services.Schedule.Sweep.{
  Surroundings, due_now, turn, candidate, better, examine, release, started, reported, invoke,
}
use kfsw_services.Schedule.Report.{
  Summary, get_status, count_slots, count_status, count_scheduled, remaining,
}
use kfsw_services.Schedule.Waiting.{waiting, hash_of}
use kfsw_services.Schedule.Candidate.{IsDue, examine-some}
use kfsw_services.Schedule.Once.{
  Step, called, turned, run, run_invoked, run_accepted, run_invoked_at_most_once,
}
use kfsw_services.Schedule.Flight.{release-reported, cancel-release}
use kfsw_services.Schedule.Adding.{Took, add-Took, add-repeated}
use kfsw_services.Schedule.Tally.{total, get_status-total}
use kfsw_services.Schedule.Relative.{examine-utc}
use kfsw_services.Schedule.Local.{commands_of, build-runs}
use kfsw_services.Registry
use kfsw_services.Registry.Dispatch
use kfsw_services.Registry.Unique.{IsRegistry, init-IsRegistry}
use kfsw_services.Registry.Running.{Ran}
use kfsw_services.Command.Retry.{Outcome}
use kfsw_services.Schedule.Tokens.{IsWord, join, tokenise-join, tokenise-IsWord}

-- A checksum in place of the CRC: the sum of the bytes.
abbrev sum : ℕ → List ℕ → ℕ
sum start [] = start
sum start (b ∷ bs) = sum (start + b) bs

abbrev ping : Info
ping = record { id = 3; name = 112 ∷ []; arg_count = 0; arg_types = [] }

abbrev commands : Commands
commands = record {
  find = λ name. if list_eq name (112 ∷ []) then ok ping else err enoent;
  parse_arg = λ text type. ok (u32_arg 1);
  invoke = λ name args. (success, 0);
  invoke_remote = λ node name args. (success, 0);
}

abbrev config : Config
config = record { command_csp = true; timeout_ms = 5000; burst = 1; step_ms = 2000 }

abbrev empty : State
empty = record {
  slots = cleared_slot ∷ cleared_slot ∷ [];
  latency_s = 60;
  releases = 0;
  refusals = 0;
  overdues = 0;
  clock_steps = 0;
  last_error = 0;
  last_utc = 0;
  last_mono = 0;
  have_last = false;
}

abbrev unset : ℕ → Clock
unset mono = record { utc = none; mono = mono }

-- "p" in ten seconds.
abbrev in_ten : Addition
in_ten = record { kind = 0; when = pos 10; node = 0; line = some (112 ∷ []); has_index = true }

ping_builds : build commands (112 ∷ []) ≡ ok (ping, [])
unfolding build build_from tokenise token skip_blanks behind_token parse_all list_eq
ping_builds = refl

accepted_in_ten : (add sum config commands (unset 500) in_ten empty).code ≡ success
unfolding add admit check_time place find_live find_free build build_from tokenise token skip_blanks
    behind_token parse_all list_eq
accepted_in_ten = refl

add-Took_example :
    Took in_ten ping
      (content_hash sum 0 10 0 (112 ∷ []))
      500
      empty
      (add sum config commands (unset 500) in_ten empty)
add-Took_example =
    add-Took sum config commands in_ten (unset 500) empty (ping, []) ping_builds accepted_in_ten

add-repeated_example :
    let r = add sum config commands (unset 500) in_ten empty in
    add sum config commands (unset 900) in_ten r.state
    ≡ record { state = r.state; code = eexist; index = r.index }
add-repeated_example =
    add-repeated sum config commands in_ten (unset 500) 900 empty (ping, []) ping_builds
      accepted_in_ten

-- The queue with that entry.
abbrev queued_slot : Slot
queued_slot = filled in_ten ping 133 500 0

abbrev queued : State
queued = record empty { slots = queued_slot ∷ cleared_slot ∷ [] }

is_due : IsDue (unset 12000) 60 queued_slot 1
unfolding due_now
is_due = record { waiting = refl; due = refl; in_time = omega arith }

chooses : (examine (unset 12000) queued).1 ≡ some 0
unfolding examine candidate better turn due_now
chooses = refl

examine-some_test : (i : ℕ) × ((examine (unset 12000) queued).1 ≡ some i)
examine-some_test = examine-some (unset 12000) queued 0 queued_slot 1 refl is_due

-- While the command runs, its entry is asked to be cancelled and the queue to be cleared.
abbrev busy : Surroundings
busy = record {
  commands = commands;
  before = [];
  meanwhile = cancel_request 0 ∷ clear_request ∷ [];
}

-- The hash of the addition.
abbrev the_hash : ℕ
the_hash = hash_of sum in_ten

abbrev steps : List (Step the_hash sum config)
steps =
    called (add_request commands (unset 500) in_ten)
    ∷ called (add_request commands (unset 600) in_ten)
    ∷ turned (λ n. busy) (unset 12000)
    ∷ turned (λ n. busy) (unset 13000)
    ∷ []

run_invoked_at_most_once_example :
    run_invoked the_hash sum config steps empty
      + waiting the_hash (run the_hash sum config steps empty).slots
    ≤ waiting the_hash empty.slots + run_accepted the_hash sum config steps empty
run_invoked_at_most_once_example =
    run_invoked_at_most_once the_hash sum config steps empty
      (tt, (tt, ((λ n. refl), ((λ n. refl), tt))))

release-reported_example :
    get_elem? (release sum config busy none 0 queued).state.slots 0
    ≡ some (
        reported
          (invoke config commands (started none queued_slot).entry)
          (started none queued_slot))
release-reported_example = release-reported sum config busy none 0 queued queued_slot refl refl

cancel-release_example :
    let seen = (examine (unset 12000) queued).0 in
    ((cancel 0 seen).1 ≡ success)
    × ((sl : Slot) × (get_elem? seen.slots 0 ≡ some sl)
        × ((release sum config busy none 0 (cancel 0 seen).0).invoked
            ≡ (started none sl).entry ∷ []))
cancel-release_example = cancel-release sum config busy (unset 12000) queued 0 chooses

abbrev report : Summary
report = record {
  hash = 133;
  releases = 0;
  refusals = 0;
  overdues = 0;
  clock_steps = 0;
  latency_s = 60;
  next_due_utc = 0;
  next_due_s = 10;
  capacity = 2;
  entries = 1;
  scheduled = 1;
  running = 0;
  completed = 0;
  failed = 0;
  overdue = 0;
  cancelled = 0;
  clock_set = false;
  last_error = 0;
}

reports : get_status sum true (unset 500) queued ≡ ok report
unfolding get_status count_slots count_status count_scheduled remaining hash_from
reports = refl

get_status-total_test : (total report ≡ report.entries) × (report.entries ≤ length queued.slots)
get_status-total_test = get_status-total sum (unset 500) queued report (omega arith) reports

examine-utc_example :
    examine (record { utc = some 1000; mono = 12000 }) queued ≡ examine (unset 12000) queued
examine-utc_example = examine-utc (some 1000) (unset 12000) queued (refl, (refl, tt))

-- "p" and "12".
abbrev words : List (List ℕ)
words = (112 ∷ []) ∷ (49 ∷ 50 ∷ []) ∷ []

are_words : All IsWord words
are_words = (
  record { plain = (refl, tt); nonempty = λ e. ground (arith, e) },
  (record { plain = (refl, (refl, tt)); nonempty = λ e. ground (arith, e) }, tt),
)

tokenise-join_example : tokenise 6 (join words) ≡ take 6 words
tokenise-join_example = tokenise-join 6 words are_words

tokenise-IsWord_test :
    All IsWord (tokenise 1 (32 ∷ 112 ∷ 9 ∷ 49 ∷ []))
    × (length (tokenise 1 (32 ∷ 112 ∷ 9 ∷ 49 ∷ [])) ≤ 1)
tokenise-IsWord_test = tokenise-IsWord 1 (32 ∷ 112 ∷ 9 ∷ 49 ∷ [])

-- A node on which "p" is registered.
abbrev ping_definition : Registry.Definition
ping_definition = record {
  id = 3;
  name = some (112 ∷ []);
  help = none;
  flags = 0;
  arg_count = 0;
  arg_types = none;
  handler = some (λ args source. (success, record { status = 0; detail = [] }));
}

abbrev node : Dispatch.State
node = record {
  registry = record { registry = ping_definition ∷ []; ready = true };
  claim = record {
    owner = 0;
    mode = Dispatch.shared;
    name = [];
    intrusions = 0;
    refusals = 0;
    held = false;
  };
  stats = record { invoked = 0; failed = 0; unknown = 0; rejected = 0 };
}

-- Every number is 1.
abbrev numbers : Registry.Numbers
numbers = record {
  strtoul = λ text. record { value = 1; consumed = length text; out_of_range = false };
  strtol = λ text. record { value = pos 1; consumed = length text; out_of_range = false };
}

abbrev node_commands : Commands
node_commands = commands_of numbers (λ node name args. (success, 0)) 1 node

node_builds : build node_commands (112 ∷ []) ≡ ok (ping, [])
unfolding build build_from tokenise token skip_blanks behind_token parse_all list_eq Registry.find
    Registry.find_by_name
node_builds = refl

abbrev one_set : List (Option Registry.DefinitionSet)
one_set = some (record { commands = some (ping_definition ∷ []); count = 1 }) ∷ []

node_starts :
    (Registry.init 4 (some one_set) 1 (record { registry = []; ready = false })).0.registry
    ≡ ping_definition ∷ []
unfolding Registry.init Registry.register_sets Registry.register_all Registry.register
    Registry.validate_definition Registry.check_definition Registry.find_by_id Registry.find_by_name
    list_eq
node_starts = refl

node_IsRegistry : IsRegistry 4 (ping_definition ∷ [])
node_IsRegistry =
    subst (λ ds. IsRegistry 4 ds) node_starts
      (init-IsRegistry 4 one_set 1 (record { registry = []; ready = false })).0

build-runs_example :
    (d : Registry.Definition) × (handler : List Arg → Registry.Source → Code × Outcome)
    × (Registry.find_by_name (112 ∷ []) node.registry.registry ≡ some d)
    × (d.handler ≡ some handler)
    × Ran handler [] Dispatch.local (Dispatch.invoke 1 (112 ∷ []) [] node)
build-runs_example =
    build-runs numbers (λ node name args. (success, 0)) 1 node 4 (112 ∷ []) ping [] node_IsRegistry
      node_builds refl
