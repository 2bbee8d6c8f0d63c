-- ===== src/Journal.antt =====
-- src/journal/journal_store.c: the ring of event records in a file. The file behind its header is the
-- list of the cells that have been written, each the bytes of one record; what the file system
-- answers to the calls of an operation is an argument, and so are the CRC and the capacity.
pub mod Codec
pub mod Loading
pub mod Durable
pub mod Reopen
mod Tests
use kfsw_services.Common.{
  ℕ, zero, suc, ◌+◌, ◌-◌, ◌%◌, Bool, true, false, not, ◌&&◌, ◌||◌, Option, none, some, List, [],
  ◌∷◌, ◌++◌, ltb, leb, ◌==◌, if◌then◌else◌, length, take, drop, set, get_or, get_elem?, replicate,
  list_eq,
}
use kfsw_services.Common.Words.{put_be16, put_be32, put_be64, byte_at, get_be16, get_be32, get_be64}
use kfsw_services.Common.Codes.{
  Code, Result, ok, err, success, ebadmsg, enodev, einval, eoverflow, estale, enoent, eio,
}
use kfsw_services.Event
use kfsw_services.Event.{max_payload_size}

-- `struct kfsw_journal_record`; the UTC seconds are their 64-bit pattern.
pub record Record : Type 0 where
  pub sequence : ℕ
  pub boot : ℕ
  pub utc_seconds : ℕ
  pub utc_valid : Bool
  pub event : Event.Record

-- KFSW_JOURNAL_RECORD_SIZE and UINT64_MAX.
abbrev pub record_size : ℕ
record_size = 72

abbrev pub u64_max : ℕ
u64_max = 0xffff_ffff_ffff_ffff

-- The payload's field: its bytes, and zeros behind them.
abbrev pub padded : ℕ → List ℕ → List ℕ
padded size bytes = take size bytes ++ replicate (max_payload_size - size) 0

-- The first 52 bytes of a record: the magic "KFE1" and the fields.
abbrev pub fields : Record → List ℕ
fields r =
    75
    ∷ 70
    ∷ 69
    ∷ 49
    ∷ 1
    ∷ (if r.utc_valid then 1 else 0)
    ∷ (put_be16 record_size
        ++ (put_be64 r.sequence
            ++ (put_be64 r.boot
                ++ (put_be64 r.event.monotonic_us
                    ++ (put_be64 r.utc_seconds
                        ++ (put_be32 r.event.sequence
                            ++ (put_be16 r.event.source
                                ++ (put_be16 r.event.id
                                    ++ (r.event.severity ∷ r.event.payload_size ∷ 0 ∷ 0
                                        ∷ [])))))))))

-- What the CRC covers.
unfoldable pub body : Record → List ℕ
body r = fields r ++ padded r.event.payload_size r.event.payload

-- The record that `decode` fills in.
abbrev pub parsed : List ℕ → Record
parsed b = record {
  sequence = get_be64 b 8;
  boot = get_be64 b 16;
  utc_seconds = get_be64 b 32;
  utc_valid = not (byte_at b 5 == 0);
  event = record {
    monotonic_us = get_be64 b 24;
    sequence = get_be32 b 40;
    source = get_be16 b 44;
    id = get_be16 b 46;
    severity = byte_at b 48;
    payload_size = byte_at b 49;
    payload = padded (byte_at b 49) (drop 52 b);
  };
}

-- The second guard of `decode`.
abbrev pub is_out_of_range : Record → Bool
is_out_of_range r =
    (r.sequence == 0) || (r.sequence == u64_max) || (r.boot == 0) || (r.boot == u64_max)

module _ (crc : List ℕ → ℕ) where
  -- `encode`.
  unfoldable pub encode : Record → List ℕ
  encode r = body r ++ put_be32 (crc (body r))

  -- The guard of `decode`.
  unfoldable pub is_malformed : List ℕ → Bool
  is_malformed b =
      not (list_eq (take 4 b) (75 ∷ 70 ∷ 69 ∷ 49 ∷ []))
      || not (byte_at b 4 == 1)
      || ltb 1 (byte_at b 5)
      || not (get_be16 b 6 == record_size)
      || not (get_be32 b 68 == crc (take 68 b))
      || ltb (get_be16 b 44) 1
      || ltb 7 (get_be16 b 44)
      || ltb 3 (byte_at b 48)
      || ltb max_payload_size (byte_at b 49)
      || not (byte_at b 50 == 0)
      || not (byte_at b 51 == 0)

  -- `decode`.
  unfoldable pub decode : List ℕ → Result Record
  decode b =
      if is_malformed b
      then err ebadmsg
      else if is_out_of_range (parsed b)
      then err ebadmsg
      else ok (parsed b)

-- `struct kfsw_journal_store`; `ARRAY_SIZE(store->sequences)` is the length of `sequences`.
pub record Store : Type 0 where
  pub sequences : List ℕ
  pub next_sequence : ℕ
  pub highest_boot : ℕ
  pub held : ℕ
  pub corrupt : ℕ
  pub ready : Bool

abbrev pub max_of : ℕ → ℕ → ℕ
max_of a b = if ltb a b then b else a

-- What the file system answers: to fs_open; to the seek, the writes, the sync and the close, the first
-- error of them; and the bytes of the record that have reached the file.
pub record Answers : Type 0 where
  pub open_result : Code
  pub io_result : Code
  pub written : ℕ

-- The bytes of a cell behind a write of `bytes` to it, of which the first `written` arrive.
abbrev pub arrived : List ℕ → List ℕ → ℕ → List ℕ
arrived bytes old written = take written bytes ++ drop written old

-- The file behind that write to the cell of a slot. A write beyond the end of the file is not modelled: it
-- leaves the cells as they are here.
unfoldable pub write_cell : ℕ → List ℕ → ℕ → List (List ℕ) → List (List ℕ)
write_cell slot bytes written cells = elim (get_elem? cells slot) [
  | some old ↦ set cells slot (arrived bytes old written)
  | none ↦ if slot == length cells then cells ++ (arrived bytes [] written ∷ []) else cells
]

-- What `kfsw_journal_store_append` leaves: the store, the file, the record, and the code.
pub record Appended : Type 0 where
  pub store : Store
  pub cells : List (List ℕ)
  pub given : Record
  pub code : Code

abbrev pub slot_of : ℕ → ℕ → ℕ
slot_of capacity sequence = (sequence - 1) % capacity

abbrev pub failed : Store → List (List ℕ) → Record → Code → Appended
failed s cells r code = record { store = s; cells = cells; given = r; code = code }

-- The store behind a record that has been written.
abbrev pub kept : Store → Record → ℕ → Store
kept s r slot = record s {
  held = if get_or s.sequences slot 0 == 0 then s.held + 1 else s.held;
  sequences = set s.sequences slot r.sequence;
  next_sequence = max_of s.next_sequence (r.sequence + 1);
  highest_boot = max_of s.highest_boot r.boot;
}

-- What the loop of `kfsw_journal_store_open` does with a slot: it counts a corrupt one, or enters the record.
abbrev pub entered : ℕ → Option Record → Store → Store
entered i none s = record s { corrupt = s.corrupt + 1 }
entered i (some r) s = record s {
  sequences = set s.sequences i r.sequence;
  next_sequence = max_of s.next_sequence (r.sequence + 1);
  highest_boot = max_of s.highest_boot r.boot;
  held = s.held + 1;
}

-- The store at the start of an open.
abbrev pub blank : ℕ → Store
blank capacity = record {
  sequences = replicate capacity 0;
  next_sequence = 1;
  highest_boot = 0;
  held = 0;
  corrupt = 0;
  ready = false;
}

module _ (crc : List ℕ → ℕ) where
  -- The end of `kfsw_journal_store_append`, from its call of `encode` on.
  unfoldable pub write_record : Answers → Store → List (List ℕ) → Record → Appended
  write_record a s cells r =
      let slot = slot_of (length s.sequences) r.sequence in
      let after = write_cell slot (encode crc r) a.written cells in
      let down = record s { ready = false } in
      if not (a.open_result == success)
      then failed down cells r a.open_result
      else if not (a.io_result == success)
      then failed down after r a.io_result
      else failed (kept s r slot) after r success

  -- `kfsw_journal_store_append`; `storage_ready` is what kfsw_storage_is_ready answers.
  unfoldable pub append : Bool → Answers → Store → List (List ℕ) → Record → Appended
  append storage_ready a s cells r =
      let numbered = record r {
        sequence = if r.sequence == 0 then s.next_sequence else r.sequence;
      } in
      let slot = slot_of (length s.sequences) numbered.sequence in
      if not s.ready || not storage_ready
      then failed s cells r enodev
      else if (r.boot == 0)
          || (r.boot == u64_max)
          || ltb max_payload_size r.event.payload_size
          || ltb 3 r.event.severity
      then failed s cells r einval
      else if (numbered.sequence == u64_max) || ltb s.next_sequence numbered.sequence
      then failed s cells numbered eoverflow
      else if ltb numbered.sequence (get_or s.sequences slot 0)
      then failed s cells numbered estale
      else write_record a s cells numbered

  -- One cell in that loop: the record that it holds in its place.
  unfoldable pub found_at : ℕ → ℕ → List ℕ → Option Record
  found_at capacity i cell = elim (decode crc cell) [
    | err code ↦ none
    | ok r ↦ if slot_of capacity r.sequence == i then some r else none
  ]

  -- The loop of `kfsw_journal_store_open`, over the slots that are left and the cells that are left. A read that gives nothing is
  -- the end of the file, a short one is counted as corrupt and ends the loop.
  unfoldable pub load : ℕ → ℕ → ℕ → List (List ℕ) → Store → Store
  load capacity i zero cells s = s
  load capacity i (suc left) [] s = s
  load capacity i (suc left) (cell ∷ cells) s =
      let next = load capacity (suc i) left cells (entered i (found_at capacity i cell) s) in
      if length cell == 0
      then s
      else if not (length cell == record_size)
      then record s { corrupt = s.corrupt + 1 }
      else next

  -- `kfsw_journal_store_open` on a file with a header of this capacity, every call of the file system
  -- answered with success.
  unfoldable pub reopen : ℕ → List (List ℕ) → Store
  reopen capacity cells =
      let loaded = load capacity 0 capacity cells (blank capacity) in record loaded { ready = true }
