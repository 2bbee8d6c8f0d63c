-- ===== src/Event.antt =====
-- src/event/event.c: the RAM ring of events. A function that changes the file's static variables
-- takes them as a record and returns the new record. Each function holds the ring's spinlock for
-- its whole change of state; `visit`, which takes the lock once for each record, is given the
-- state that it finds each time.
pub mod Window
pub mod Invariant
pub mod Store
pub mod History
pub mod Counting
pub mod Reading
mod Tests
use kfsw_services.Common.{
  ℕ, zero, suc, ◌+◌, ◌-◌, ◌%◌, Bool, true, false, not, ◌&&◌, ◌||◌, Option, none, some, List, [],
  ◌∷◌, ◌++◌, ltb, leb, ◌==◌, if◌then◌else◌, length, get_elem?, get_or, set, take, replicate,
}
use kfsw_services.Common.Words.{u8, u16, u32}
use kfsw_services.Common.Codes.{Result, ok, err, enoent}

-- `struct kfsw_event_record`.
pub record Record : Type 0 where
  pub monotonic_us : ℕ
  pub sequence : ℕ
  pub source : ℕ
  pub id : ℕ
  pub severity : ℕ
  pub payload_size : ℕ
  pub payload : List ℕ

-- The static variables. `ARRAY_SIZE(ring)` is the length of `ring`.
pub record State : Type 0 where
  pub ring : List Record
  pub next_sequence : ℕ
  pub recorded_count : ℕ
  pub rejected_count : ℕ
  pub overwritten_count : ℕ
  pub held_count : ℕ
  pub oldest_index : ℕ

abbrev pub depth : State → ℕ
depth s = length s.ring

abbrev pub max_payload_size : ℕ
max_payload_size = 16

-- `enum kfsw_event_source` by its numbers.
abbrev pub source_table : ℕ
source_table = 8

abbrev pub source_scrub : ℕ
source_scrub = 9

abbrev pub source_limits : ℕ
source_limits = 10

-- BOOT = 1, COMMAND = 2, FTP = 3, APP = 4, FBO = 5, GNDWDT = 6, RESMON = 7.
unfoldable pub source_is_known : ℕ → Bool
source_is_known source =
    (source == 1)
    || (source == 2)
    || (source == 3)
    || (source == 4)
    || (source == 5)
    || (source == 6)
    || (source == 7)

abbrev pub zero_record : Record
zero_record = record {
  monotonic_us = 0;
  sequence = 0;
  source = 0;
  id = 0;
  severity = 0;
  payload_size = 0;
  payload = replicate max_payload_size 0;
}

-- The arguments of `kfsw_event_emit`. A payload that is `none` is a null pointer; otherwise the
-- bytes that can be read there.
pub record Emission : Type 0 where
  pub source : ℕ
  pub id : ℕ
  pub severity : ℕ
  pub payload : Option (List ℕ)
  pub payload_size : ℕ

abbrev pub is_null {ℓ} : {A : Type ℓ} → Option A → Bool
is_null none = true
is_null (some a) = false

abbrev pub bytes_of : Option (List ℕ) → List ℕ
bytes_of none = []
bytes_of (some b) = b

-- The test at the top of `kfsw_event_emit`: KFSW_EVENT_INFO is 0, KFSW_EVENT_CRITICAL is 3.
unfoldable pub is_refused : Emission → Bool
unfolding source_is_known
is_refused e =
    not (source_is_known e.source)
    || ltb e.severity 0
    || ltb 3 e.severity
    || ltb max_payload_size e.payload_size
    || (not (e.payload_size == 0) && is_null e.payload)

-- The slot as `kfsw_event_emit` leaves it, with the sequence number `next_sequence`: the payload is
-- copied and the rest of the field zeroed.
pub filled_slot : ℕ → Emission → ℕ → Record
filled_slot next_sequence e now = record {
  monotonic_us = now;
  sequence = next_sequence;
  source = u16 e.source;
  id = e.id;
  severity = u8 e.severity;
  payload_size = u8 e.payload_size;
  payload =
      take e.payload_size (bytes_of e.payload) ++ replicate (max_payload_size - e.payload_size) 0;
}

abbrev pub write_index : State → ℕ
write_index s = u16 ((s.oldest_index + s.held_count) % depth s)

-- The part of `kfsw_event_emit` behind the refusals.
pub store : State → Emission → ℕ → State
store s e now =
    if s.held_count == depth s
    then record s {
      ring = set s.ring (write_index s) (filled_slot s.next_sequence e now);
      overwritten_count = u32 (s.overwritten_count + 1);
      oldest_index = u16 ((s.oldest_index + 1) % depth s);
      next_sequence = u32 (s.next_sequence + 1);
      recorded_count = u32 (s.recorded_count + 1);
    }
    else record s {
      ring = set s.ring (write_index s) (filled_slot s.next_sequence e now);
      held_count = u16 (s.held_count + 1);
      next_sequence = u32 (s.next_sequence + 1);
      recorded_count = u32 (s.recorded_count + 1);
    }

-- `kfsw_event_emit` at the time `now`: the new state, and the copy that goes to
-- `kfsw_journal_submit` in a build with the journal.
pub emit : State → Emission → ℕ → State × Option Record
unfolding is_refused store
emit s e now =
    if is_refused e
    then (record s { rejected_count = u32 (s.rejected_count + 1) }, none)
    else (store s e now, some (filled_slot s.next_sequence e now))

-- `kfsw_event_get`; the caller's pointer is not null. -ENOENT is `err enoent`.
pub get : State → ℕ → Result Record
get s age =
    if leb s.held_count age
    then err enoent
    else ok (get_or s.ring ((s.oldest_index + s.held_count - 1 - age) % depth s) zero_record)

-- One round of the loop of `kfsw_event_visit`: the record at `index`, if the ring has one.
pub visit_copy : State → ℕ → Option Record
visit_copy s index =
    if leb s.held_count index
    then none
    else some (get_or s.ring ((s.oldest_index + index) % depth s) zero_record)

-- `kfsw_event_visit`. `states k` is the ring that round `k` finds under the lock. The result is
-- the context that the visitor has built; `none` means that the fuel ran out.
module _ {ℓ} {Context : Type ℓ} (visitor : Record → Context → Context × Bool) where
  pub visit_from : ℕ → (ℕ → State) → ℕ → Context → Option Context
  unfolding visit_copy
  visit_from zero states index context = none
  visit_from (suc fuel) states index context = elim (visit_copy (states index) index) [
    | none ↦ some context
    | some copy ↦
        let (context', more) = visitor copy context in
        let rest = visit_from fuel states (u16 (index + 1)) context' in
        if more then rest else some context'
  ]

  pub visit : ℕ → (ℕ → State) → Context → Option Context
  unfolding visit_from
  visit fuel states context = visit_from fuel states 0 context

-- `struct kfsw_event_stats`, as `kfsw_event_get_stats` fills it.
pub record Stats : Type 0 where
  pub recorded : ℕ
  pub rejected : ℕ
  pub overwritten : ℕ
  pub held : ℕ
  pub capacity : ℕ

pub get_stats : State → Stats
get_stats s = record {
  recorded = s.recorded_count;
  rejected = s.rejected_count;
  overwritten = s.overwritten_count;
  held = s.held_count;
  capacity = u16 (depth s);
}

-- `kfsw_event_clear`: the counters stay.
pub clear : State → State
clear s = record s { held_count = 0; oldest_index = 0 }

-- The static variables at boot, for a ring of `n` records.
pub boot : ℕ → State
boot n = record {
  ring = replicate n zero_record;
  next_sequence = 0;
  recorded_count = 0;
  rejected_count = 0;
  overwritten_count = 0;
  held_count = 0;
  oldest_index = 0;
}
