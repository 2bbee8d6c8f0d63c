-- ===== src/Journal/Reopen.antt =====
-- What journal_store.c finds when it opens a file that it has appended to.
use kfsw_services.Common.{
  ℕ, ◌+◌, ◌-◌, ◌<◌, ◌≤◌, ◌≡◌, ◌≢◌, refl, sym, ap, subst, ◌∙◌, inl, inr, true, List, [], arith,
  length, set, get_or, All, ltb, ◌==◌, if◌then◌else◌, Bool-cases,
}
use native.Mathlib.Nat
use kfsw_services.Common.Codes.{success}
use kfsw_services.Journal.{
  Record, Store, Answers, max_of, record_size, encode, found_at, slot_of, write_cell, write_record,
  append, reopen, blank, kept,
}
use kfsw_services.Journal.Codec.{IsRecord, record_decode-encode, length-encode}
use kfsw_services.Journal.Loading.{above, in_use, IsWhole, column, load-Loads}
use kfsw_services.Journal.Durable.{
  write_cell-Written, above-set, in_use-set, length-column, number_at,
}

-- Every call of the file system succeeds, and the whole record arrives.
abbrev pub working : Answers
working = record { open_result = success; io_result = success; written = record_size }

-- The record with the number that an append gives it.
abbrev pub numbered : Store → Record → Record
numbered s r = record r { sequence = if r.sequence == 0 then s.next_sequence else r.sequence }

-- The store knows the numbers of the file's slots, the next number and the slots in use; the file has
-- whole cells.
pub record Agrees (crc : List ℕ → ℕ) (capacity : ℕ) (s : Store) (cells : List (List ℕ))
    : Type 0 where
  pub whole : All IsWhole cells
  pub fits : length cells ≤ capacity
  pub sequences : s.sequences ≡ column crc capacity 0 capacity cells
  pub next_sequence : s.next_sequence ≡ above 1 s.sequences
  pub held : s.held ≡ in_use s.sequences

module _ (crc : List ℕ → ℕ) (bounded : (b : List ℕ) → crc b < 0x1_0000_0000) (capacity : ℕ) where
  -- Opening a file of whole cells gives a store that agrees with it.
  pub reopen-Agrees :
      (cells : List (List ℕ))
      → All IsWhole cells
      → length cells ≤ capacity
      → Agrees crc capacity (reopen crc capacity cells) cells
  unfolding reopen
  reopen-Agrees cells whole fits =
      let l = load-Loads crc capacity 0 capacity cells [] (blank capacity) whole refl refl in
      record {
        whole = whole;
        fits = fits;
        sequences = l.sequences;
        next_sequence = l.next_sequence ∙ ap (above 1) (sym l.sequences);
        held = let used = ap in_use l.sequences in omega (arith, l.held, used);
      }

  append_written :
      (s : Store) (cells : List (List ℕ)) (r : Record)
      → (append crc true working s cells r).code ≡ success
      → (append crc true working s cells r ≡ write_record crc working s cells (numbered s r))
        × (get_or s.sequences (slot_of (length s.sequences) (numbered s r).sequence) 0
            ≤ (numbered s r).sequence)
  unfolding append
  append_written s cells r h =
      let fresh = s.next_sequence in
      let next = numbered s r in
      let slot = slot_of (length s.sequences) next.sequence in
      elim (Bool-cases (ltb next.sequence (get_or s.sequences slot 0))) [
        | inl stale ↦ absurd (ground (arith, h, stale))
        | inr newer ↦ (ground (arith, h, newer), ground (arith, newer))
      ]

  write_record_done :
      (s : Store) (cells : List (List ℕ)) (r : Record)
      → let slot = slot_of (length s.sequences) r.sequence in
        write_record crc working s cells r ≡ record {
          store = kept s r slot;
          cells = write_cell slot (encode crc r) record_size cells;
          given = r;
          code = success;
        }
  unfolding write_record
  write_record_done s cells r = refl

  -- The number in the cell of a record that has been encoded.
  number-encode :
      (r : Record)
      → IsRecord r
      → number_at crc capacity (slot_of capacity r.sequence) (encode crc r) ≡ r.sequence
  unfolding found_at
  number-encode r w =
      let read = record_decode-encode crc bounded r w in
      let here : (slot_of capacity r.sequence == slot_of capacity r.sequence) ≡ true =
        ground arith in
      rw (found_at, read, here) refl

  kept-Agrees :
      (s : Store) (cells : List (List ℕ)) (r : Record)
      → 0 < capacity
      → Agrees crc capacity s cells
      → IsRecord r
      → slot_of capacity r.sequence ≤ length cells
      → get_or s.sequences (slot_of capacity r.sequence) 0 ≤ r.sequence
      → let slot = slot_of capacity r.sequence in
        Agrees crc capacity (kept s r slot) (write_cell slot (encode crc r) record_size cells)
  kept-Agrees s cells r positive a w near old =
      let slot = slot_of capacity r.sequence in
      let below : slot < capacity = Nat.mod-lt (r.sequence - 1) positive in
      let size = length-encode crc bounded r w in
      let f =
        write_cell-Written crc capacity slot (encode crc r) cells a.whole a.fits size near below in
      let long : length s.sequences ≡ capacity =
        ap length a.sequences ∙ length-column crc capacity 0 capacity cells in
      let inside : slot < length s.sequences = omega (arith, below, long) in
      let not_zero : r.sequence ≢ 0 =
        λ e. let positive_number = w.numbered in omega (arith, e, positive_number) in
      record {
        whole = f.whole;
        fits = f.fits;
        sequences =
            ap (λ l. set l slot r.sequence) a.sequences
            ∙ ap (set (column crc capacity 0 capacity cells) slot) (sym (number-encode r w))
            ∙ sym f.numbers;
        next_sequence =
            ap (λ n. max_of n (r.sequence + 1)) a.next_sequence
            ∙ sym (above-set 1 slot r.sequence s.sequences inside old not_zero);
        held =
            let used = in_use-set slot r.sequence s.sequences inside not_zero in
            let h = a.held in ground (arith, used, h);
      }

  append-Agrees :
      (s : Store) (cells : List (List ℕ)) (r : Record)
      → 0 < capacity
      → Agrees crc capacity s cells
      → IsRecord (numbered s r)
      → slot_of capacity (numbered s r).sequence ≤ length cells
      → let t = append crc true working s cells r in
        t.code ≡ success → Agrees crc capacity t.store t.cells
  append-Agrees s cells r positive a w near h =
      let (done, old) = append_written s cells r h in
      let long : length s.sequences ≡ capacity =
        ap length a.sequences ∙ length-column crc capacity 0 capacity cells in
      let next = numbered s r in
      let stored = λ (c : ℕ).
        let slot = slot_of c next.sequence in
        Agrees crc capacity (kept s next slot)
          (write_cell slot (encode crc next) record_size cells) in
      let newer : get_or s.sequences (slot_of capacity next.sequence) 0 ≤ next.sequence =
        subst (λ c. get_or s.sequences (slot_of c next.sequence) 0 ≤ next.sequence) long old in
      let agrees = kept-Agrees s cells next positive a w near newer in
      subst (λ t. Agrees crc capacity t.store t.cells) (sym (done ∙ write_record_done s cells next))
        (subst stored (sym long) agrees)

  -- A store agrees with a file when the file's cells are whole and no more than the capacity, and the
  -- store knows the numbers of the records that the slots hold, one more than the largest as the next
  -- number, and the count of the slots in use. When the capacity is positive, the store agrees with the
  -- file, the file system answers every call with success and takes the whole record, the record under
  -- the number that it is given is in range, its slot is not beyond the end of the file, and
  -- `kfsw_journal_store_append` returns success, then the store that it leaves agrees with the file that
  -- it leaves, and opening that file gives a store with the same numbers, the same next number and the
  -- same count of the slots in use. The CRC is a function into the 32-bit numbers.
  pub reopen-append :
      (s : Store) (cells : List (List ℕ)) (r : Record)
      → 0 < capacity
      → Agrees crc capacity s cells
      → IsRecord (numbered s r)
      → slot_of capacity (numbered s r).sequence ≤ length cells
      → (append crc true working s cells r).code ≡ success
      → let t = append crc true working s cells r in
        let again = reopen crc capacity t.cells in
        Agrees crc capacity t.store t.cells
        × (again.sequences ≡ t.store.sequences)
        × (again.next_sequence ≡ t.store.next_sequence)
        × (again.held ≡ t.store.held)
  reopen-append s cells r positive a w near h =
      let t = append crc true working s cells r in
      let here = append-Agrees s cells r positive a w near h in
      let again = reopen-Agrees t.cells here.whole here.fits in
      let same = again.sequences ∙ sym here.sequences in
      (
        here,
        same,
        again.next_sequence ∙ ap (above 1) same ∙ sym here.next_sequence,
        again.held ∙ ap in_use same ∙ sym here.held,
      )
