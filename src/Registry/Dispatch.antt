-- ===== src/Registry/Dispatch.antt =====
-- src/command/command.c: the claim, the dispatch of a command to its handler, and the counters. A
-- thread is a number. A dispatch has two parts, since it gives up the lock of the claim before it
-- takes the lock of the handlers: `admit` and `run_handler`.
use kfsw_services.Common.{
  ℕ, ◌+◌, Bool, true, false, not, ◌&&◌, ◌||◌, Option, none, some, List, [], ◌∷◌, ◌++◌, ltb, leb,
  ◌==◌, if◌then◌else◌, length, get_or, take, drop,
}
use kfsw_services.Common.Words.{u8, u32, sat_inc, put_be16}
use kfsw_services.Common.Codes.{Code, success, einval, eacces, enoent, ebusy, eperm, erange}
use kfsw_services.Event.{Emission, bytes_of, is_null}
use kfsw_services.Command.{Arg, text_arg, type_byte}
use kfsw_services.Command.Retry.{
  Outcome, status_ok, status_invalid, status_busy, status_unavailable,
}
use kfsw_services.Registry.{Source, Definition, Registry, name_of, find_by_id, find_by_name}

abbrev pub status_unknown : ℕ
status_unknown = 1

abbrev pub status_denied : ℕ
status_denied = 3

abbrev pub status_failed : ℕ
status_failed = 5

-- KFSW_COMMAND_MAX_DETAIL_SIZE and KFSW_COMMAND_CLAIM_NAME_MAX.
abbrev max_detail_size : ℕ
max_detail_size = 96

abbrev claim_name_max : ℕ
claim_name_max = 32

-- `enum kfsw_command_claim_mode`.
pub data ClaimMode : Type 0 where
  shared : ClaimMode
  exclusive : ClaimMode

abbrev pub is_exclusive : ClaimMode → Bool
is_exclusive shared = false
is_exclusive exclusive = true

-- `claim`. The owner counts only while the claim is held.
pub record Claim : Type 0 where
  pub owner : ℕ
  pub mode : ClaimMode
  pub name : List ℕ
  pub intrusions : ℕ
  pub refusals : ℕ
  pub held : Bool

-- The lifetime totals. An `atomic_t` is read as a uint32_t.
pub record Stats : Type 0 where
  pub invoked : ℕ
  pub failed : ℕ
  pub unknown : ℕ
  pub rejected : ℕ

-- The file's static variables, without the timeout and the echo.
pub record State : Type 0 where
  pub registry : Registry
  pub claim : Claim
  pub stats : Stats

-- The claim is held by another thread.
abbrev pub is_held_against : ℕ → Claim → Bool
is_held_against thread c = c.held && not (c.owner == thread)

-- `check_arguments`, over the arguments that are left, with the types from theirs on.
unfoldable pub check_types : List Arg → List ℕ → ℕ
check_types [] types = status_ok
check_types (a ∷ rest_args) types =
    let rest = check_types rest_args (drop 1 types) in
    if not (type_byte a == get_or types 0 0)
    then status_invalid
    else elim a [ text_arg none ↦ status_invalid | _ ↦ rest ]

unfoldable pub check_arguments : Definition → List Arg → ℕ
check_arguments d args =
    if not (length args == d.arg_count)
    then status_invalid
    else check_types args (bytes_of d.arg_types)

-- The counters behind `record_outcome`.
unfoldable pub count_outcome : ℕ → Stats → Stats
count_outcome status t =
    if status == status_unknown
    then record t { invoked = u32 (t.invoked + 1); unknown = u32 (t.unknown + 1) }
    else if status == status_denied
    then record t { invoked = u32 (t.invoked + 1); rejected = u32 (t.rejected + 1) }
    else if not (status == status_ok)
    then record t { invoked = u32 (t.invoked + 1); failed = u32 (t.failed + 1) }
    else record t { invoked = u32 (t.invoked + 1) }

-- The event of `record_outcome`: KFSW_EVENT_SOURCE_COMMAND is 2.
abbrev pub outcome_event : ℕ → ℕ → Source → ℕ → Emission
outcome_event event_id command_id source status = record {
  source = 2;
  id = event_id;
  severity = if status == status_ok then 0 else 1;
  payload = some (put_be16 command_id ++ (put_be16 source.node ++ (u8 status ∷ [])));
  payload_size = 5;
}

-- " refused while " and " runs".
abbrev refused_while : List ℕ
refused_while =
    32 ∷ 114 ∷ 101 ∷ 102 ∷ 117 ∷ 115 ∷ 101 ∷ 100 ∷ 32 ∷ 119 ∷ 104 ∷ 105 ∷ 108 ∷ 101 ∷ 32 ∷ []

abbrev runs : List ℕ
runs = 32 ∷ 114 ∷ 117 ∷ 110 ∷ 115 ∷ []

-- The detail of a refusal, as snprintf cuts it.
abbrev pub refusal_detail : Definition → Claim → List ℕ
refusal_detail d c = take 95 (name_of d ++ (refused_while ++ (c.name ++ runs)))

-- `check_claim`: the claim behind it, and whether it refuses.
unfoldable pub check_claim : ℕ → Claim → Claim × Bool
check_claim thread c =
    if is_held_against thread c
    then if is_exclusive c.mode
      then (record c { refusals = sat_inc c.refusals }, true)
      else (record c { intrusions = sat_inc c.intrusions }, false)
    else (c, false)

-- `kfsw_command_claim_acquire`; an owner that is `none` is a null pointer.
unfoldable pub claim_acquire : ℕ → ClaimMode → Option (List ℕ) → Claim → Claim × Code
claim_acquire thread mode owner c =
    if is_null owner
      || (length (bytes_of owner) == 0)
      || leb claim_name_max (length (bytes_of owner))
    then (c, einval)
    else if is_held_against thread c
    then (c, ebusy)
    else (
      record {
        owner = thread;
        mode = mode;
        name = bytes_of owner;
        intrusions = if c.held then c.intrusions else 0;
        refusals = if c.held then c.refusals else 0;
        held = true;
      },
      success,
    )

-- `kfsw_command_claim_release`; the null owner is thread 0.
unfoldable pub claim_release : ℕ → Claim → Claim × Code
claim_release thread c =
    if is_held_against thread c then (c, eperm) else (record c { held = false; owner = 0 }, success)

-- What a dispatch leaves: the state, the code and `*result`, its event, and the arguments of the
-- handler, if it has called it.
pub record Dispatched : Type 0 where
  pub state : State
  pub code : Code
  pub result : Outcome
  pub event : Option Emission
  pub ran : Option (List Arg)

abbrev pub recorded : State → ℕ → State
recorded s status = record s { stats = count_outcome status s.stats }

-- `dispatch` before it has found its command.
abbrev pub not_found : Source → State → Dispatched
not_found source s = record {
  state = recorded s status_unknown;
  code = enoent;
  result = record { status = status_unknown; detail = [] };
  event = some (outcome_event 2 0 source status_unknown);
  ran = none;
}

-- A command that is refused before its handler.
abbrev pub rejected_with : Definition → Source → State → ℕ → Code → List ℕ → Dispatched
rejected_with d source s status code detail = record {
  state = recorded s status;
  code = code;
  result = record { status = status; detail = detail };
  event = some (outcome_event 3 d.id source status);
  ran = none;
}

-- The status at the end: FAILED when a handler returns an error without a status of its own.
abbrev pub final_status : Code → ℕ → ℕ
final_status code status =
    if not (code == success) && (status == status_ok) then status_failed else status

-- The handler's call. A definition of the registry has a handler.
unfoldable pub run_handler : Definition → List Arg → Source → State → Dispatched
run_handler d args source s = elim d.handler [
  | none ↦ rejected_with d source s status_unavailable eacces []
  | some handler ↦
      let (code, result) = handler args source in
      let status = final_status code result.status in
      record {
        state = recorded s status;
        code = code;
        result = record result { status = status };
        event = some (outcome_event 1 d.id source status);
        ran = some args;
      }
]

-- What `dispatch` has come to when it has given up `claim_lock`: it has refused the command, or it is
-- about to take `command_lock` for the handler of a definition.
pub data Admission : Type 0 where
  stopped : Dispatched → Admission
  admitted : Definition → State → Admission

-- The first part of `dispatch`, up to the end of its `check_claim`, behind the test of the definition.
unfoldable pub admit_to : ℕ → Definition → List Arg → Source → State → Admission
admit_to thread d args source s =
    let status = check_arguments d args in
    if not (status == status_ok)
    then stopped (rejected_with d source s status einval [])
    else let (claim, refuses) = check_claim thread s.claim in
      let s1 = record s { claim = claim } in
      if refuses
      then stopped (rejected_with d source s1 status_busy ebusy (refusal_detail d s.claim))
      else admitted d s1

-- The first part of `dispatch`. The handler is called, and `record_outcome` counts, in `run_handler`,
-- in the state that other threads have left by then.
unfoldable pub admit : ℕ → Option Definition → List Arg → Source → State → Admission
admit thread definition args source s =
    if not s.registry.ready
    then stopped (record {
      state = s;
      code = eacces;
      result = record { status = status_unavailable; detail = [] };
      event = none;
      ran = none;
    })
    else elim definition [
      | none ↦ stopped (not_found source s)
      | some d ↦ admit_to thread d args source s
    ]

-- The second part of `dispatch` at once behind the first.
unfoldable pub complete : List Arg → Source → Admission → Dispatched
complete args source (stopped r) = r
complete args source (admitted d s) = run_handler d args source s

-- `dispatch` when no other thread comes between its two parts.
unfoldable pub dispatch : ℕ → Option Definition → List Arg → Source → State → Dispatched
dispatch thread definition args source s =
    complete args source (admit thread definition args source s)

abbrev pub local : Source
local = record { node = 0; authenticated = false; via_csp = false }

-- `kfsw_command_invoke` and `kfsw_command_invoke_id`, with a name and a result that are given, and
-- no other thread between the two parts of `dispatch`.
unfoldable pub invoke : ℕ → List ℕ → List Arg → State → Dispatched
invoke thread name args s = dispatch thread (find_by_name name s.registry.registry) args local s

unfoldable pub invoke_id : ℕ → ℕ → List Arg → Option Source → State → Dispatched
invoke_id thread id args source s =
    let from : Source = elim source [ none ↦ local | some given ↦ given ] in
    dispatch thread (find_by_id id s.registry.registry) args from s

-- KFSW_COMMAND_TIMEOUT_MIN_MS and KFSW_COMMAND_TIMEOUT_MAX_MS: `kfsw_command_check_timeout_ms`.
abbrev pub check_timeout_ms : ℕ → Code
check_timeout_ms timeout_ms =
    if ltb timeout_ms 1000 || ltb 120000 timeout_ms then erange else success

-- `kfsw_command_set_timeout_ms`, on the timeout that is stored.
abbrev pub set_timeout_ms : ℕ → ℕ → ℕ × Code
set_timeout_ms timeout_ms stored =
    if check_timeout_ms timeout_ms == success
    then (timeout_ms, success)
    else (stored, check_timeout_ms timeout_ms)
