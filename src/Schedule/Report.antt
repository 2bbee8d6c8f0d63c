-- ===== src/Schedule/Report.antt =====
-- src/fbo/fbo_schedule.c: what the queue tells of itself, one entry and the whole of it.
use kfsw_services.Common.{
  ℕ, ◌+◌, ◌-◌, ◌/◌, Bool, not, ◌||◌, none, some, List, [], ◌∷◌, ltb, ◌==◌, if◌then◌else◌, length,
  get_elem?,
}
use kfsw_services.Common.Words.{u16, u32}
use kfsw_services.Common.Codes.{Code, Result, ok, err, einval, enoent}
use kfsw_services.Event.{is_null}
use kfsw_services.Schedule.{
  Entry, EntryStatus, entry_scheduled, entry_running, entry_completed, entry_failed, entry_overdue,
  entry_cancelled, Slot, State, Clock, time_relative, time_absolute, is_scheduled, queue_hash,
}

-- `remaining`. A difference that is not positive is 0.
unfoldable pub remaining : Clock → Slot → ℕ
remaining clock sl =
    if not (is_scheduled sl.entry.status)
    then 0
    else if sl.entry.kind == time_relative
    then u32 ((sl.due_uptime_ms - clock.mono + 999) / 1000)
    else elim clock.utc [ none ↦ 0 | some utc ↦ u32 (sl.entry.due_utc - utc) ]

-- `kfsw_fbo_schedule_get_entry`; `has_entry` is that the destination is not null.
unfoldable pub get_entry : Bool → Clock → ℕ → State → Result Entry
get_entry has_entry clock i s = if not has_entry then err einval else elim (get_elem? s.slots i) [
  | none ↦ err enoent
  | some sl ↦
      if not sl.used
      then err enoent
      else ok (record (sl.entry) { remaining_s = remaining clock sl })
]

-- `struct kfsw_fbo_schedule_status`.
pub record Summary : Type 0 where
  pub hash : ℕ
  pub releases : ℕ
  pub refusals : ℕ
  pub overdues : ℕ
  pub clock_steps : ℕ
  pub latency_s : ℕ
  pub next_due_utc : ℕ
  pub next_due_s : ℕ
  pub capacity : ℕ
  pub entries : ℕ
  pub scheduled : ℕ
  pub running : ℕ
  pub completed : ℕ
  pub failed : ℕ
  pub overdue : ℕ
  pub cancelled : ℕ
  pub clock_set : Bool
  pub last_error : Code

-- `(*next == 0) || (value < *next)`: the smaller of the two, with 0 for none yet.
abbrev pub next_of : ℕ → ℕ → ℕ
next_of next value = if (next == 0) || ltb value next then value else next

-- A scheduled entry in the loop of `kfsw_fbo_schedule_get_status`.
unfoldable pub count_scheduled : Clock → Slot → Summary → Summary
count_scheduled clock sl t =
    if sl.entry.kind == time_absolute
    then record t {
      scheduled = u16 (t.scheduled + 1);
      next_due_utc = next_of t.next_due_utc sl.entry.due_utc;
    }
    else record t {
      scheduled = u16 (t.scheduled + 1);
      next_due_s = next_of t.next_due_s (remaining clock sl);
    }

-- The `switch` of that loop.
unfoldable pub count_status : Clock → Slot → EntryStatus → Summary → Summary
count_status clock sl entry_scheduled t = count_scheduled clock sl t
count_status clock sl entry_running t = record t { running = u16 (t.running + 1) }
count_status clock sl entry_completed t = record t { completed = u16 (t.completed + 1) }
count_status clock sl entry_failed t = record t { failed = u16 (t.failed + 1) }
count_status clock sl entry_overdue t = record t { overdue = u16 (t.overdue + 1) }
count_status clock sl entry_cancelled t = record t { cancelled = u16 (t.cancelled + 1) }

unfoldable pub count_slots : Clock → List Slot → Summary → Summary
count_slots clock [] t = t
count_slots clock (sl ∷ sls) t =
    let counted = record t { entries = u16 (t.entries + 1) } in
    count_slots clock sls (if sl.used then count_status clock sl sl.entry.status counted else t)

abbrev pub empty_summary : (ℕ → List ℕ → ℕ) → Clock → State → Summary
empty_summary crc_update clock s = record {
  hash = queue_hash crc_update s.slots;
  releases = s.releases;
  refusals = s.refusals;
  overdues = s.overdues;
  clock_steps = s.clock_steps;
  latency_s = s.latency_s;
  next_due_utc = 0;
  next_due_s = 0;
  capacity = u16 (length s.slots);
  entries = 0;
  scheduled = 0;
  running = 0;
  completed = 0;
  failed = 0;
  overdue = 0;
  cancelled = 0;
  clock_set = not (is_null clock.utc);
  last_error = s.last_error;
}

-- `kfsw_fbo_schedule_get_status`; `has_status` is that the destination is not null.
unfoldable pub get_status : (ℕ → List ℕ → ℕ) → Bool → Clock → State → Result Summary
get_status crc_update has_status clock s =
    if not has_status
    then err einval
    else ok (count_slots clock s.slots (empty_summary crc_update clock s))
