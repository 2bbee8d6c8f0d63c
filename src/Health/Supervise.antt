-- ===== src/Health/Supervise.antt =====
-- src/health/health.c: the evaluation of the deadlines, the watchdog's feed, the start of supervision,
-- its interval, and the status of a component.
use kfsw_services.Common.{
  ℕ, ◌+◌, ◌*◌, ◌/◌, Bool, true, false, not, ◌&&◌, Option, none, some, List, [], ◌∷◌, map, ltb, leb,
  ◌==◌, if◌then◌else◌, length, take, min,
}
use kfsw_services.Common.Words.{u32, sub_u64, sat_inc}
use kfsw_services.Common.Codes.{
  Code, Result, ok, err, success, einval, enoent, ealready, erange, etimedout,
}
use kfsw_services.Event.{Emission}
use kfsw_services.Health.{Entry, Mode, State, Watchdog, used_entry, working, faulted, stopped}

abbrev pub elapsed_ms : ℕ → Entry → ℕ
elapsed_ms now e = u32 (sub_u64 now e.last_report_ms)

abbrev pub is_overdue : ℕ → Entry → Bool
is_overdue now e = e.used && ltb e.deadline_ms (elapsed_ms now e)

-- The warning flag of an entry that is not overdue. The products are 32-bit.
abbrev pub next_warned : ℕ → Entry → Bool
next_warned now e =
    if ltb (u32 (e.deadline_ms * 3) / 4) (elapsed_ms now e) && not e.warned
    then true
    else if leb (elapsed_ms now e) (e.deadline_ms / 2)
    then false
    else e.warned

-- The loop of `kfsw_health_evaluate`: the table that it leaves, and the entry at which it stops.
unfoldable pub scan : ℕ → List Entry → List Entry × Option Entry
scan now [] = ([], none)
scan now (e ∷ es) =
    let rest = scan now es in
    if is_overdue now e
    then (e ∷ es, some e)
    else ((if e.used then record e { warned = next_warned now e } else e) ∷ rest.0, rest.1)

-- What `kfsw_health_evaluate` does to the last words note.
pub data Note : Type 0 where
  untouched : Note
  withdrawn : Note
  starved : ℕ → ℕ → Note

-- What `kfsw_health_evaluate` returns, and what it does outside: `fed` is its call of
-- kfsw_platform_watchdog_feed.
pub record Verdict : Type 0 where
  pub code : Code
  pub fed : Bool
  pub note : Note
  pub event : Option Emission

abbrev pub is_working : Mode → Bool
is_working working = true
is_working _ = false

abbrev pub is_stopped : Mode → Bool
is_stopped stopped = true
is_stopped _ = false

-- KFSW_EVENT_SOURCE_APP, KFSW_EVENT_HEALTH_FAULT, critical; the payload is the name.
abbrev pub fault_event : Entry → Emission
fault_event e = record {
  source = 4;
  id = 1;
  severity = 3;
  payload = some (take 15 e.name);
  payload_size = min 15 (length e.name);
}

-- Every component reports: what the branch of `kfsw_health_evaluate` that feeds the watchdog does
-- before it gives up the lock.
unfoldable pub all_met : State → List Entry → State × Verdict
all_met s table = (
  record s { entries = table; mode = working; faulted_by = [] },
  record {
    code = success;
    fed = true;
    note = if is_working s.mode then untouched else withdrawn;
    event = none;
  },
)

-- What it does when it has fed the watchdog and has the lock again.
unfoldable pub count_feed : Watchdog → State → State
count_feed w s =
    if w.feed_result == success then record s { feeds = sat_inc s.feeds; feeding = true } else s

-- A component is overdue: the branch that withholds the feed.
unfoldable pub one_missed : State → List Entry → Entry → ℕ → State × Verdict
one_missed s table e now = (
  record s {
    entries = table;
    mode = faulted;
    feeding = false;
    faulted_by = take 15 e.name;
    faults = if is_working s.mode then u32 (s.faults + 1) else s.faults;
  },
  record {
    code = etimedout;
    fed = false;
    note =
        if is_working s.mode
        then starved (u32 (sub_u64 now e.last_report_ms)) (u32 now)
        else untouched;
    event = if is_working s.mode then some (fault_event e) else none;
  },
)

-- `kfsw_health_evaluate` up to the feed of the watchdog, or, without one, to its end.
unfoldable pub judge : State → ℕ → State × Verdict
unfolding scan all_met one_missed
judge s now =
    if is_stopped s.mode
    then (s, record { code = einval; fed = false; note = untouched; event = none })
    else elim (scan now s.entries).1 [
      | none ↦ all_met s (scan now s.entries).0
      | some e ↦ one_missed s (scan now s.entries).0 e now
    ]

-- `kfsw_health_evaluate` when no other thread comes between its two sections under the lock, as when
-- the work handler is its only caller and the table stays as it is during the feed.
unfoldable pub evaluate : Watchdog → State → ℕ → State × Verdict
unfolding judge count_feed
evaluate w s now =
    let (after, verdict) = judge s now in
    (if verdict.fed then count_feed w after else after, verdict)

-- The timeout that `kfsw_health_check_interval_ms` measures an interval against.
abbrev pub timeout_in_force : Watchdog → ℕ
timeout_in_force w = elim w.info_timeout_ms [
  | none ↦ w.configured_timeout_ms
  | some t ↦ if t == 0 then w.configured_timeout_ms else t
]

-- `kfsw_health_check_interval_ms`.
unfoldable pub check_interval_ms : Watchdog → ℕ → Code
check_interval_ms w interval_ms =
    if interval_ms == 0
    then einval
    else if timeout_in_force w == 0
    then success
    else if ltb (w.feed_interval_ms (timeout_in_force w)) interval_ms
    then erange
    else success

-- `kfsw_health_set_interval_ms`.
unfoldable pub set_interval_ms : Watchdog → State → ℕ → State × Code
unfolding check_interval_ms
set_interval_ms w s interval_ms =
    let result = check_interval_ms w interval_ms in
    if result == success
    then (
      record s {
        interval_ms = interval_ms;
        scheduled = if is_stopped s.mode then s.scheduled else true;
      },
      success,
    )
    else (s, result)

abbrev pub just_reported : ℕ → Entry → Entry
just_reported now e = if e.used then record e { last_report_ms = now } else e

-- `kfsw_health_start`.
unfoldable pub start : Watchdog → State → ℕ → State × Code
unfolding check_interval_ms
start w s now =
    if not (is_stopped s.mode)
    then (s, ealready)
    else if not (check_interval_ms w s.interval_ms == success)
    then (s, check_interval_ms w s.interval_ms)
    else if not (w.release_result == success)
    then (s, w.release_result)
    else (
      record s { entries = map (just_reported now) s.entries; mode = working; scheduled = true },
      success,
    )

-- `health_work_handler`.
unfoldable pub work_handler : Watchdog → State → ℕ → State
unfolding evaluate
work_handler w s now = record (evaluate w s now).0 { scheduled = true }

-- `struct kfsw_health_component`.
pub record Component : Type 0 where
  pub name : List ℕ
  pub deadline_ms : ℕ
  pub since_report_ms : ℕ
  pub reports : ℕ
  pub overdue : Bool

-- `kfsw_health_get_component`.
unfoldable pub get_component : State → ℕ → ℕ → Result Component
unfolding used_entry
get_component s index now = elim (used_entry s index) [
  | none ↦ err enoent
  | some e ↦ ok (record {
    name = take 15 e.name;
    deadline_ms = e.deadline_ms;
    since_report_ms = elapsed_ms now e;
    reports = e.reports;
    overdue = ltb e.deadline_ms (elapsed_ms now e);
  })
]
