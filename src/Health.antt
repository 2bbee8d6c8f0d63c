-- ===== src/Health.antt =====
-- src/health/health.c: component deadlines and the watchdog. The static variables are a record, and
-- the time that kfsw_time_monotonic_ms() returns is the argument `now`. A C string is the list of
-- its bytes up to the terminator. The calls of the platform's watchdog are a parameter; what the
-- code tells the outside (the feed, the last words note, the event) is part of the result. The log
-- lines are left out. Here are the table and its handles; the evaluation, the start and the interval
-- are in `Supervise`.
pub mod Supervise
pub mod Table
pub mod Deadlines
pub mod Names
mod Tests
use kfsw_services.Common.{
  ℕ, zero, suc, ◌+◌, ◌-◌, ◌*◌, ◌/◌, ◌%◌, ◌≤◌, ◌<◌, ◌≡◌, Bool, true, false, not, ◌&&◌, ◌||◌, Option,
  none, some, List, [], ◌∷◌, map, ltb, leb, ◌==◌, if◌then◌else◌, list_eq, length, take, replicate,
  get_elem?, set, min,
}
use kfsw_services.Common.Words.{u8, u16, u32, u32_max, sub_u64, sat_inc}
use kfsw_services.Common.Codes.{
  Code, Result, ok, err, success, einval, enoent, eexist, enospc, ealready, erange, etimedout,
}
use kfsw_services.Event.{Emission}

abbrev pub name_size : ℕ
name_size = 16

-- `struct health_entry`.
pub record Entry : Type 0 where
  pub name : List ℕ
  pub deadline_ms : ℕ
  pub last_report_ms : ℕ
  pub reports : ℕ
  pub used : Bool
  pub warned : Bool

-- `enum kfsw_health_state`.
pub data Mode : Type 0 where
  working : Mode
  faulted : Mode
  stopped : Mode

-- The static variables: the interval, the table, `health_state`, and whether the work item is
-- scheduled. The length of `entries` is KFSW_HEALTH_MAX_COMPONENTS.
pub record State : Type 0 where
  pub interval_ms : ℕ
  pub entries : List Entry
  pub mode : Mode
  pub count : ℕ
  pub feeding : Bool
  pub faults : ℕ
  pub feeds : ℕ
  pub faulted_by : List ℕ
  pub scheduled : Bool

abbrev pub unused : Entry
unused = record {
  name = [];
  deadline_ms = 0;
  last_report_ms = 0;
  reports = 0;
  used = false;
  warned = false;
}

-- The platform's watchdog: kfsw_platform_watchdog_configured_timeout_ms, the timeout that
-- kfsw_platform_watchdog_get_info gives if it succeeds, kfsw_platform_watchdog_feed_interval_ms,
-- and what kfsw_platform_watchdog_release and kfsw_platform_watchdog_feed return.
pub record Watchdog : Type 0 where
  pub configured_timeout_ms : ℕ
  pub info_timeout_ms : Option ℕ
  pub feed_interval_ms : ℕ → ℕ
  pub release_result : Code
  pub feed_result : Code

-- strncmp(a, b, n) == 0 for two C strings.
unfoldable pub same_prefix : ℕ → List ℕ → List ℕ → Bool
same_prefix n a b = list_eq (take n a) (take n b)

-- `find_by_name(name) != NULL`.
unfoldable pub has_name : List ℕ → List Entry → Bool
has_name name [] = false
has_name name (e ∷ es) = (e.used && same_prefix name_size e.name name) || has_name name es

-- The first entry that is not in use.
unfoldable pub first_free : List Entry → Option ℕ
first_free [] = none
first_free (e ∷ es) =
    if e.used then elim (first_free es) [ none ↦ none | some i ↦ some (suc i) ] else some 0

abbrev pub registered : List ℕ → ℕ → ℕ → Entry
registered name deadline_ms now = record {
  name = take 15 name;
  deadline_ms = deadline_ms;
  last_report_ms = now;
  reports = 0;
  used = true;
  warned = false;
}

abbrev pub is_empty : List ℕ → Bool
is_empty [] = true
is_empty (c ∷ cs) = false

-- `kfsw_health_register`; the name is not null, and on success the result is the handle.
unfoldable pub register : State → List ℕ → ℕ → ℕ → State × Result ℕ
register s name deadline_ms now =
    if is_empty name || (deadline_ms == 0)
    then (s, err einval)
    else if has_name name s.entries
    then (s, err eexist)
    else elim (first_free s.entries) [
      | none ↦ (s, err enospc)
      | some index ↦ (
        record s {
          entries = set s.entries index (registered name deadline_ms now);
          count = u8 (s.count + 1);
        },
        ok index,
      )
    ]

-- The entry behind a handle, if the handle is in the table and in use.
unfoldable pub used_entry : State → ℕ → Option Entry
used_entry s handle = elim (get_elem? s.entries handle) [
  | none ↦ none
  | some e ↦ if e.used then some e else none
]

-- `kfsw_health_unregister`. `uint8_t` arithmetic: the count wraps.
unfoldable pub unregister : State → ℕ → State × Code
unfolding used_entry
unregister s handle = elim (used_entry s handle) [
  | none ↦ (s, einval)
  | some e ↦ (
    record s {
      faulted_by = if same_prefix name_size s.faulted_by e.name then [] else s.faulted_by;
      entries = set s.entries handle (record e { used = false; name = [] });
      count = u8 (s.count + 255);
    },
    success,
  )
]

-- `kfsw_health_report`.
unfoldable pub report : State → ℕ → ℕ → State × Code
unfolding used_entry
report s handle now = elim (used_entry s handle) [
  | none ↦ (s, einval)
  | some e ↦ (
    record s {
      entries =
          set s.entries handle (record e { last_report_ms = now; reports = sat_inc e.reports });
    },
    success,
  )
]
