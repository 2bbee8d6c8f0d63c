-- ===== src/Journal/Loading.antt =====
-- What journal_store.c's open finds in a file of whole cells.
use kfsw_services.Common.{
  ℕ, zero, suc, ◌+◌, ◌≡◌, ◌≢◌, refl, sym, ap, ◌∙◌, inl, inr, true, false, Option, none, some, List,
  [], ◌∷◌, ◌++◌, append_assoc, arith, length, length-append, set, replicate, All, ◌==◌,
  if◌then◌else◌, Option-cases, Bool-cases,
}
use kfsw_services.Common.Codes.{ok, Result-cases}
use kfsw_services.Journal.{
  Record, Store, max_of, record_size, decode, parsed, is_out_of_range, found_at, entered, load,
}

-- The number in a slot, or 0.
abbrev pub number_of : Option Record → ℕ
number_of none = 0
number_of (some r) = r.sequence

-- The next number behind those of a list of slots.
unfoldable pub above : ℕ → List ℕ → ℕ
above n [] = n
above n (q ∷ qs) = above (if q == 0 then n else max_of n (q + 1)) qs

-- The slots that are in use.
unfoldable pub in_use : List ℕ → ℕ
in_use [] = 0
in_use (q ∷ qs) = let rest = in_use qs in (if q == 0 then 0 else 1) + rest

abbrev pub IsWhole : List ℕ → Type 0
IsWhole cell = length cell ≡ record_size

set-append :
    (xs ys : List ℕ) (i y v : ℕ) → i ≡ length xs → set (xs ++ (y ∷ ys)) i v ≡ xs ++ (v ∷ ys)
set-append [] ys zero y v e = refl
set-append [] ys (suc i) y v e = absurd (omega (arith, e))
set-append (x ∷ xs) ys zero y v e = absurd (omega (arith, e))
set-append (x ∷ xs) ys (suc i) y v e = ap (◌∷◌ x) (set-append xs ys i y v (omega (arith, e)))

decode-numbered :
    (crc : List ℕ → ℕ) (b : List ℕ) (r : Record) → decode crc b ≡ ok r → r.sequence ≢ 0
unfolding decode
decode-numbered crc b r h e = elim (Bool-cases (is_out_of_range (parsed b))) [
  | inl out ↦ ground (arith, h, out)
  | inr within ↦
      let same : parsed b ≡ r = ground (arith, h, within) in
      let number : (parsed b).sequence ≡ 0 = ap (λ x. x.sequence) same ∙ e in
      ground (arith, within, number)
]

above-zeros : (n k : ℕ) → above n (replicate k 0) ≡ n
unfolding above
above-zeros n zero = refl
above-zeros n (suc k) = above-zeros n k

in_use-zeros : (k : ℕ) → in_use (replicate k 0) ≡ 0
unfolding in_use
in_use-zeros zero = refl
in_use-zeros (suc k) = omega (arith, in_use-zeros k)

-- What a loop over whole cells leaves.
pub record Loads (before numbers : List ℕ) (s t : Store) : Type 0 where
  pub sequences : t.sequences ≡ before ++ numbers
  pub next_sequence : t.next_sequence ≡ above s.next_sequence numbers
  pub held : t.held ≡ s.held + in_use numbers

-- The store behind one slot, of the number `q`.
record Entered (before : List ℕ) (left q : ℕ) (s t : Store) : Type 0 where
  sequences : t.sequences ≡ before ++ (q ∷ replicate left 0)
  next_sequence :
      t.next_sequence ≡ (if q == 0 then s.next_sequence else max_of s.next_sequence (q + 1))
  held : t.held ≡ s.held + (if q == 0 then 0 else 1)

Loads-cons :
    (before numbers : List ℕ) (left q : ℕ) (s s1 t : Store)
    → Entered before left q s s1
    → Loads (before ++ (q ∷ [])) numbers s1 t
    → Loads before (q ∷ numbers) s t
unfolding above in_use
Loads-cons before numbers left q s s1 t e l = record {
  sequences = l.sequences ∙ append_assoc before (q ∷ []) numbers;
  next_sequence = l.next_sequence ∙ ap (λ n. above n numbers) e.next_sequence;
  held = omega (arith, l.held, e.held);
}

module _ (crc : List ℕ → ℕ) (capacity : ℕ) where
  -- The numbers that the slots of a file hold, in order.
  unfoldable pub column : ℕ → ℕ → List (List ℕ) → List ℕ
  column i zero cells = []
  column i (suc left) [] = let rest = column (suc i) left [] in 0 ∷ rest
  column i (suc left) (cell ∷ cells) =
      let rest = column (suc i) left cells in number_of (found_at crc capacity i cell) ∷ rest

  -- A record that is found has a number.
  pub found_at-numbered :
      (i : ℕ) (cell : List ℕ) (r : Record) → found_at crc capacity i cell ≡ some r → r.sequence ≢ 0
  unfolding found_at
  found_at-numbered i cell r h e = elim (Result-cases (decode crc cell)) [
    | inl (code, f) ↦ absurd (ground (arith, h, f))
    | inr (found, f) ↦
        let same : found ≡ r = ground (arith, h, f) in
        decode-numbered crc cell found f (ap (λ x. x.sequence) same ∙ e)
  ]

  column-end : (i left : ℕ) → column i left [] ≡ replicate left 0
  unfolding column
  column-end i zero = refl
  column-end i (suc left) = ap (◌∷◌ 0) (column-end (suc i) left)

  entered-Entered :
      (i left : ℕ) (cell before : List ℕ) (s : Store)
      → i ≡ length before
      → s.sequences ≡ before ++ (0 ∷ replicate left 0)
      → let found = found_at crc capacity i cell in
        Entered before left (number_of found) s (entered i found s)
  entered-Entered i left cell before s at blanks =
      elim (Option-cases (found_at crc capacity i cell)) [
        | inl e ↦ rw e (record { sequences = blanks; next_sequence = refl; held = omega arith })
        | inr (r, e) ↦
            let numbered = found_at-numbered i cell r e in
            let written =
              ap (λ l. set l i r.sequence) blanks
              ∙ set-append before (replicate left 0) i 0 r.sequence at in
            rw e (record {
              sequences = written;
              next_sequence = ground (arith, numbered);
              held = ground (arith, numbered);
            })
      ]

  pub load-Loads :
      (i left : ℕ) (cells : List (List ℕ)) (before : List ℕ) (s : Store)
      → All IsWhole cells
      → i ≡ length before
      → s.sequences ≡ before ++ replicate left 0
      → Loads before (column i left cells) s (load crc capacity i left cells s)
  unfolding load column above in_use
  load-Loads i zero cells before s whole at blanks = record {
    sequences = blanks;
    next_sequence = refl;
    held = omega arith;
  }
  load-Loads i (suc left) [] before s whole at blanks = record {
    sequences = blanks ∙ ap (λ l. before ++ (0 ∷ l)) (sym (column-end (suc i) left));
    next_sequence = sym (
        ap (above s.next_sequence) (column-end i (suc left))
        ∙ above-zeros s.next_sequence (suc left));
    held =
        let none_used = ap in_use (column-end i (suc left)) ∙ in_use-zeros (suc left) in
        omega (arith, none_used);
  }
  load-Loads i (suc left) (cell ∷ cells) before s whole at blanks =
      let found = found_at crc capacity i cell in
      let s1 = entered i found s in
      let one = entered-Entered i left cell before s at blanks in
      let q = number_of found in
      let rest =
        load-Loads (suc i) left cells (before ++ (q ∷ [])) s1 whole.1
          (omega (arith, at, length-append before (q ∷ [])))
          (one.sequences ∙ sym (append_assoc before (q ∷ []) (replicate left 0))) in
      let some_bytes : (length cell == 0) ≡ false = ground (arith, whole.0) in
      let all_bytes : (length cell == record_size) ≡ true = ground (arith, whole.0) in
      rw (load, some_bytes, all_bytes)
        (Loads-cons before (column (suc i) left cells) left q s s1
          (load crc capacity (suc i) left cells s1) one rest)
