-- ===== src/Journal/Tests.antt =====
-- Runs of the theorems on the journal at concrete inputs.
use kfsw_services.Common.{
  ℕ, ◌<◌, ◌≡◌, ◌∷◌, refl, true, false, List, [], arith, length, replicate, list_eq,
}
use kfsw_services.Common.Codes.{ok, success, eoverflow, estale, eio}
use kfsw_services.Journal.{
  Record, Store, Answers, encode, decode, append, reopen, found_at, load, write_record, write_cell,
  body, is_malformed,
}
use kfsw_services.Journal.Codec.{IsRecord, record_decode-encode}
use kfsw_services.Journal.Reopen.{Agrees, working, reopen-Agrees, reopen-append}

abbrev sum : List ℕ → ℕ
sum b = 7

sum_bounded : (b : List ℕ) → sum b < 0x1_0000_0000
sum_bounded b = omega arith

-- A record of boot 3 without a number, and with a payload of two bytes.
abbrev new_record : Record
new_record = record {
  sequence = 0;
  boot = 3;
  utc_seconds = 1000;
  utc_valid = true;
  event = record {
    monotonic_us = 5000000;
    sequence = 9;
    source = 4;
    id = 258;
    severity = 2;
    payload_size = 2;
    payload = 170 ∷ 85 ∷ replicate 14 0;
  };
}

abbrev first_record : Record
first_record = record new_record { sequence = 1 }

first_record-IsRecord : IsRecord first_record
first_record-IsRecord = record {
  sequence = omega arith;
  numbered = omega arith;
  boot = omega arith;
  booted = omega arith;
  utc_seconds = omega arith;
  monotonic_us = omega arith;
  event_sequence = omega arith;
  first_source = omega arith;
  last_source = omega arith;
  id = omega arith;
  severity = omega arith;
  payload_size = omega arith;
  payload = refl;
  payload_length = refl;
}

record_decode-encode_example : decode sum (encode sum first_record) ≡ ok first_record
record_decode-encode_example =
    record_decode-encode sum sum_bounded first_record first_record-IsRecord

abbrev empty_store : Store
empty_store = reopen sum 2 []

reopen-append_example :
    let t = append sum true working empty_store [] new_record in
    let again = reopen sum 2 t.cells in
    Agrees sum 2 t.store t.cells
    × (again.sequences ≡ t.store.sequences)
    × (again.next_sequence ≡ t.store.next_sequence)
    × (again.held ≡ t.store.held)
unfolding reopen load append write_record
reopen-append_example =
    reopen-append sum sum_bounded 2 empty_store [] new_record (omega arith)
      (reopen-Agrees sum sum_bounded 2 [] tt (omega arith)) first_record-IsRecord (omega arith) refl

-- The file with that record.
abbrev one_cell : List (List ℕ)
one_cell = encode sum first_record ∷ []

reopen_test : (reopen sum 2 one_cell).sequences ≡ 1 ∷ 0 ∷ []
unfolding append write_record write_cell reopen load encode body found_at decode is_malformed
    list_eq
reopen_test = refl

-- A third record takes the place of the first.
third_test :
    let second = append sum true working (reopen sum 2 one_cell) one_cell new_record in
    let third = append sum true working second.store second.cells new_record in
    (third.store.sequences ≡ 3 ∷ 2 ∷ []) × (third.store.held ≡ 2) × (length third.cells ≡ 2)
unfolding append write_record write_cell reopen load encode body found_at decode is_malformed
    list_eq
third_test = (refl, refl, refl)

-- A number that is behind the one in its slot is stale, and one ahead of the next is out of range.
stale_test :
    let store : Store = record empty_store { sequences = 3 ∷ 2 ∷ []; next_sequence = 4 } in
    (append sum true working store one_cell first_record).code ≡ estale
unfolding append write_record write_cell reopen load encode body found_at decode is_malformed
    list_eq
stale_test = refl

ahead_test :
    (append sum true working empty_store [] (record new_record { sequence = 2 })).code ≡ eoverflow
unfolding append write_record write_cell reopen load encode body found_at decode is_malformed
    list_eq
ahead_test = refl

-- A write that fails leaves the store not ready, and a torn cell is counted at the next open.
torn_test :
    let a : Answers = record { open_result = success; io_result = eio; written = 40 } in
    let t = append sum true a empty_store [] new_record in
    (t.store.ready ≡ false) × (t.code ≡ eio) × ((reopen sum 2 t.cells).corrupt ≡ 1)
unfolding append write_record write_cell reopen load encode body found_at decode is_malformed
    list_eq
torn_test = (refl, refl, refl)
