-- ===== src/Gndwdt.antt =====
-- src/gndwdt/gndwdt.c: the ground watchdog. The static variables are a record; the time that
-- kfsw_time_monotonic_ms() returns is the argument `now`. The two delayable work items are seen as
-- scheduled or not: k_work_reschedule schedules one and k_work_cancel_delayable takes it back.
pub mod Contact
pub mod Race
mod Tests
use kfsw_services.Common.{
  ℕ, ◌+◌, ◌-◌, ◌*◌, ◌/◌, ◌%◌, ◌≤◌, ◌<◌, ◌≡◌, Bool, true, false, not, ◌&&◌, ◌||◌, Option, none, some,
  List, [], ◌∷◌, ltb, leb, ◌==◌, if◌then◌else◌, list_eq, min,
}
use kfsw_services.Common.Words.{u16, u32, u32_max, sub_u64, sat_inc, put_be32}
use kfsw_services.Common.Codes.{Code, success, einval, eacces, eagain, erange, ealready, etimedout}
use kfsw_services.Event.{Emission}

-- CONFIG_KFSW_GNDWDT_TIMEOUT_MIN_S and _MAX_S.
pub record Config : Type 0 where
  pub timeout_min_s : ℕ
  pub timeout_max_s : ℕ

pub record State : Type 0 where
  pub last_contact_ms : ℕ
  pub contacts : ℕ
  pub last_node : ℕ
  pub timeout_s : ℕ
  pub expiries : ℕ
  pub enabled : Bool
  pub running : Bool
  pub resetting : Bool
  pub check_scheduled : Bool
  pub reset_scheduled : Bool

-- `kfsw_gndwdt_start`.
unfoldable pub start : State → ℕ → State × Code
start s now =
    if s.running
    then (s, ealready)
    else (record s { running = true; last_contact_ms = now; check_scheduled = true }, success)

-- `kfsw_gndwdt_stop`.
unfoldable pub stop : State → State × Code
stop s =
    if s.running
    then (
      record s {
        running = false;
        resetting = false;
        reset_scheduled = false;
        check_scheduled = false;
      },
      success,
    )
    else (s, ealready)

-- `struct kfsw_gndwdt_status`.
pub record Status : Type 0 where
  pub timeout_s : ℕ
  pub since_contact_s : ℕ
  pub remaining_s : ℕ
  pub contacts : ℕ
  pub expiries : ℕ
  pub last_node : ℕ
  pub enabled : Bool
  pub running : Bool

abbrev pub since_contact : State → ℕ → ℕ
since_contact s now = min (sub_u64 now s.last_contact_ms / 1000) u32_max

-- `kfsw_gndwdt_get_status`.
unfoldable pub get_status : State → ℕ → Status
get_status s now = record {
  timeout_s = s.timeout_s;
  since_contact_s = since_contact s now;
  remaining_s =
      if not s.running || s.resetting || leb s.timeout_s (since_contact s now)
      then 0
      else s.timeout_s - since_contact s now;
  contacts = s.contacts;
  expiries = s.expiries;
  last_node = s.last_node;
  enabled = s.enabled;
  running = s.running;
}

-- The command's result: its status, and the two numbers that the reply text prints
-- (ground_wtd_cnt and ground_wtd_timeout).
pub record Reply : Type 0 where
  pub status : ℕ
  pub detail : Option (ℕ × ℕ)

-- KFSW_COMMAND_OK, KFSW_COMMAND_DENIED, KFSW_COMMAND_UNAVAILABLE.
abbrev pub command_ok : ℕ
command_ok = 0

abbrev pub command_denied : ℕ
command_denied = 3

abbrev pub command_unavailable : ℕ
command_unavailable = 6

ground_wtd_reply : State → ℕ → Reply
unfolding get_status
ground_wtd_reply s now = record {
  status = command_ok;
  detail = some ((get_status s now).remaining_s, s.timeout_s);
}

-- "get" and KFSW_GNDWDT_FEED_WORD, "KFSWWSFK".
abbrev pub get_word : List ℕ
get_word = b'g' ∷ b'e' ∷ b't' ∷ []

abbrev pub feed_word : List ℕ
feed_word = b'K' ∷ b'F' ∷ b'S' ∷ b'W' ∷ b'W' ∷ b'S' ∷ b'F' ∷ b'K' ∷ []

-- The handler of the `ground_wtd` command. `text` is its argument, `via_csp` and `node` its source;
-- the result is as the dispatcher gives it (no detail), with the fields that the handler sets.
unfoldable pub ground_wtd : State → List ℕ → Bool → ℕ → ℕ → State × Code × Reply
unfolding ground_wtd_reply list_eq
ground_wtd s text via_csp node now =
    if list_eq text get_word
    then (s, success, ground_wtd_reply s now)
    else if not via_csp || not (list_eq text feed_word)
    then (s, eacces, record { status = command_denied; detail = none })
    else if not s.running || s.resetting
    then (s, eagain, record { status = command_unavailable; detail = none })
    else let fed : State = record s {
      last_contact_ms = now;
      last_node = node;
      contacts = sat_inc s.contacts;
    } in
      (fed, success, ground_wtd_reply fed now)

-- The event of an expiry: KFSW_EVENT_SOURCE_GNDWDT, KFSW_EVENT_GNDWDT_EXPIRED, critical.
abbrev pub expiry_event : ℕ → Emission
expiry_event allowed_s = record {
  source = 6;
  id = 1;
  severity = 3;
  payload = some (put_be32 allowed_s);
  payload_size = 4;
}

abbrev pub is_expired : State → ℕ → Bool
is_expired s now = not (ltb (sub_u64 now s.last_contact_ms / 1000) s.timeout_s)

-- `kfsw_gndwdt_evaluate`, with the event that it emits.
unfoldable pub evaluate : State → ℕ → State × Code × Option Emission
evaluate s now =
    if not s.running || not s.enabled || s.resetting
    then (s, success, none)
    else if not (is_expired s now)
    then (s, success, none)
    else (
      record s { expiries = sat_inc s.expiries; last_contact_ms = now },
      etimedout,
      some (expiry_event s.timeout_s),
    )

-- `kfsw_gndwdt_set_timeout_s`.
unfoldable pub set_timeout_s : Config → State → ℕ → State × Code
set_timeout_s c s value =
    if ltb value c.timeout_min_s || ltb c.timeout_max_s value
    then (s, erange)
    else (record s { timeout_s = value }, success)

-- `kfsw_gndwdt_set_enabled`.
unfoldable pub set_enabled : State → Bool → State
set_enabled s value = record s { enabled = value }

-- The sections of `gndwdt_work_handler` behind `kfsw_gndwdt_evaluate`: between any two of them
-- the lock is free. The first marks the reset as decided and answers whether this call did it.
unfoldable pub decide_reset : State → State × Bool
decide_reset s = if s.resetting then (s, false) else (record s { resetting = true }, true)

unfoldable pub schedule_reset : State → State
schedule_reset s = record s { reset_scheduled = true }

unfoldable pub rearm_check : State → State
rearm_check s = if s.running then record s { check_scheduled = true } else s

-- What `gndwdt_work_handler` does behind an evaluation with the given code.
unfoldable pub after_evaluate : State → Code → State
unfolding decide_reset schedule_reset rearm_check
after_evaluate s code = rearm_check (
    if code == etimedout
    then (if (decide_reset s).1 then schedule_reset (decide_reset s).0 else (decide_reset s).0)
    else s)

-- `gndwdt_work_handler` if no other thread comes between its sections. The kernel has taken the
-- work item off the schedule when it runs.
unfoldable pub work_handler : State → ℕ → State
unfolding evaluate after_evaluate
work_handler s now =
    let run : State = record s { check_scheduled = false } in
    after_evaluate (evaluate run now).0 (evaluate run now).1
