-- ===== src/Journal/Durable.antt =====
-- The numbers in the slots of journal_store.c's file, and what the write of a record does to them.
use kfsw_services.Common.{
  ℕ, zero, suc, ◌+◌, ◌<◌, ◌≤◌, ◌≡◌, ◌≢◌, refl, sym, ap, ◌∙◌, inl, inr, true, none, some, List, [],
  ◌∷◌, ◌++◌, append-nil, arith, length, length-append, length-set, set, get_or, get_elem?, take_all,
  drop, All, ◌==◌, if◌then◌else◌, Option-cases,
}
use kfsw_services.Journal.{max_of, record_size, found_at, write_cell, arrived}
use kfsw_services.Journal.Loading.{above, in_use, number_of, IsWhole, column}

-- A number joins those that are there.
abbrev pub joined : ℕ → ℕ → ℕ
joined n q = if q == 0 then n else max_of n (q + 1)

joined-max : (n m q : ℕ) → joined (max_of n m) q ≡ max_of (joined n q) m
joined-max n m q = ground arith

above-max : (n m : ℕ) (col : List ℕ) → above (max_of n m) col ≡ max_of (above n col) m
unfolding above
above-max n m [] = refl
above-max n m (q ∷ qs) = ap (λ k. above k qs) (joined-max n m q) ∙ above-max (joined n q) m qs

-- A number that is not below the one that it replaces.
pub above-set :
    (n k v : ℕ) (col : List ℕ)
    → k < length col
    → get_or col k 0 ≤ v
    → v ≢ 0
    → above n (set col k v) ≡ max_of (above n col) (v + 1)
unfolding above
above-set n k v [] h old v0 = absurd (omega (arith, h))
above-set n zero v (q ∷ qs) h old v0 =
    let new : joined n v ≡ max_of (joined n q) (v + 1) = ground (arith, old, v0) in
    ap (λ k. above k qs) new ∙ above-max (joined n q) (v + 1) qs
above-set n (suc k) v (q ∷ qs) h old v0 = above-set (joined n q) k v qs (omega (arith, h)) old v0

pub in_use-set :
    (k v : ℕ) (col : List ℕ)
    → k < length col
    → v ≢ 0
    → in_use (set col k v) ≡ (if get_or col k 0 == 0 then in_use col + 1 else in_use col)
unfolding in_use
in_use-set k v [] h v0 = absurd (omega (arith, h))
in_use-set zero v (q ∷ qs) h v0 = ground (arith, v0)
in_use-set (suc k) v (q ∷ qs) h v0 =
    let rest = in_use-set k v qs (omega (arith, h)) v0 in ground (arith, rest)

module _ (crc : List ℕ → ℕ) (capacity : ℕ) where
  pub length-column :
      (i left : ℕ) (cells : List (List ℕ)) → length (column crc capacity i left cells) ≡ left
  unfolding column
  length-column i zero cells = refl
  length-column i (suc left) [] = ap suc (length-column (suc i) left [])
  length-column i (suc left) (cell ∷ cells) = ap suc (length-column (suc i) left cells)

  abbrev pub number_at : ℕ → List ℕ → ℕ
  number_at i cell = number_of (found_at crc capacity i cell)

  column-set :
      (i left k : ℕ) (cell : List ℕ) (cells : List (List ℕ))
      → k < length cells
      → column crc capacity i left (set cells k cell)
        ≡ set (column crc capacity i left cells) k (number_at (i + k) cell)
  unfolding column
  column-set i zero k cell cells h = refl
  column-set i (suc left) k cell [] h = absurd (omega (arith, h))
  column-set i (suc left) zero cell (c ∷ cs) h =
      let here : i ≡ i + 0 = omega arith in
      ap (λ n. number_at n cell ∷ column crc capacity (suc i) left cs) here
  column-set i (suc left) (suc k) cell (c ∷ cs) h =
      let there : suc i + k ≡ i + suc k = omega arith in
      ap (◌∷◌ (number_at i c)) (
        column-set (suc i) left k cell cs (omega (arith, h))
        ∙ ap (λ n. set (column crc capacity (suc i) left cs) k (number_at n cell)) there)

  column-snoc :
      (i left : ℕ) (cell : List ℕ) (cells : List (List ℕ))
      → length cells < left
      → column crc capacity i left (cells ++ (cell ∷ []))
        ≡ set (column crc capacity i left cells) (length cells) (number_at (i + length cells) cell)
  unfolding column
  column-snoc i zero cell cells h = absurd (omega (arith, h))
  column-snoc i (suc left) cell [] h =
      let here : i ≡ i + 0 = omega arith in
      ap (λ n. number_at n cell ∷ column crc capacity (suc i) left []) here
  column-snoc i (suc left) cell (c ∷ cs) h =
      let there : suc i + length cs ≡ i + suc (length cs) = omega arith in
      ap (◌∷◌ (number_at i c)) (
        column-snoc (suc i) left cell cs (omega (arith, h))
        ∙ ap (λ n. set (column crc capacity (suc i) left cs) (length cs) (number_at n cell)) there)

drop_all : (n : ℕ) (xs : List ℕ) → length xs ≤ n → drop n xs ≡ []
drop_all zero [] h = refl
drop_all zero (x ∷ xs) h = absurd (omega (arith, h))
drop_all (suc n) [] h = refl
drop_all (suc n) (x ∷ xs) h = drop_all n xs (omega (arith, h))

arrived_all :
    (bytes old : List ℕ)
    → IsWhole bytes
    → length old ≤ record_size
    → arrived bytes old record_size ≡ bytes
arrived_all bytes old whole short =
    ap (λ l. l ++ drop record_size old) (take_all bytes record_size (omega (arith, whole)))
    ∙ ap (λ l. bytes ++ l) (drop_all record_size old short)
    ∙ append-nil bytes

get_elem?-none : (cells : List (List ℕ)) (k : ℕ) → get_elem? cells k ≡ none → length cells ≤ k
get_elem?-none [] k h = omega arith
get_elem?-none (c ∷ cs) zero h = absurd (ground (arith, h))
get_elem?-none (c ∷ cs) (suc k) h = omega (arith, get_elem?-none cs k h)

get_elem?-IsWhole :
    (cells : List (List ℕ)) (k : ℕ) (cell : List ℕ)
    → get_elem? cells k ≡ some cell
    → All IsWhole cells
    → (k < length cells) × IsWhole cell
get_elem?-IsWhole [] k cell h w = absurd (ground (arith, h))
get_elem?-IsWhole (c ∷ cs) zero cell h w =
    let same : c ≡ cell = cc in (omega arith, rw (sym same) w.0)
get_elem?-IsWhole (c ∷ cs) (suc k) cell h w =
    let (inside, whole) = get_elem?-IsWhole cs k cell h w.1 in (omega (arith, inside), whole)

All-set :
    (cells : List (List ℕ)) (k : ℕ) (cell : List ℕ)
    → All IsWhole cells
    → IsWhole cell
    → All IsWhole (set cells k cell)
All-set [] k cell w h = tt
All-set (c ∷ cs) zero cell w h = (h, w.1)
All-set (c ∷ cs) (suc k) cell w h = (w.0, All-set cs k cell w.1 h)

All-append :
    (cells : List (List ℕ)) (cell : List ℕ)
    → All IsWhole cells
    → IsWhole cell
    → All IsWhole (cells ++ (cell ∷ []))
All-append [] cell w h = (h, tt)
All-append (c ∷ cs) cell w h = (w.0, All-append cs cell w.1 h)

-- What a write of a whole record leaves of the file.
pub record Written (crc : List ℕ → ℕ) (capacity slot : ℕ) (cell : List ℕ) (old new : List (List ℕ))
    : Type 0 where
  pub whole : All IsWhole new
  pub fits : length new ≤ capacity
  pub numbers :
      column crc capacity 0 capacity new
      ≡ set (column crc capacity 0 capacity old) slot (number_at crc capacity slot cell)

pub write_cell-Written :
    (crc : List ℕ → ℕ) (capacity slot : ℕ) (cell : List ℕ) (cells : List (List ℕ))
    → All IsWhole cells
    → length cells ≤ capacity
    → IsWhole cell
    → slot ≤ length cells
    → slot < capacity
    → Written crc capacity slot cell cells (write_cell slot cell record_size cells)
unfolding write_cell
write_cell-Written crc capacity slot cell cells w fits whole near below =
    let old_numbers = column crc capacity 0 capacity cells in
    let at_slot : ℕ → List ℕ = λ n. set old_numbers slot (number_at crc capacity n cell) in
    let here : 0 + slot ≡ slot = omega arith in
    elim (Option-cases (get_elem? cells slot)) [
      | inr (old, e) ↦
          let (inside, old_whole) = get_elem?-IsWhole cells slot old e w in
          let stored = arrived_all cell old whole (omega (arith, old_whole)) in
          rw (write_cell, e, stored)
            (record {
              whole = All-set cells slot cell w whole;
              fits = omega (arith, length-set cells slot cell, fits);
              numbers = column-set crc capacity 0 capacity slot cell cells inside ∙ ap at_slot here;
            })
      | inl e ↦
          let beyond = get_elem?-none cells slot e in
          let last : slot ≡ length cells = omega (arith, beyond, near) in
          let at_end : (slot == length cells) ≡ true = ground (arith, last) in
          let stored = arrived_all cell [] whole (omega arith) in
          rw (write_cell, e, at_end, stored)
            (record {
              whole = All-append cells cell w whole;
              fits = omega (arith, length-append cells (cell ∷ []), last, below);
              numbers =
                  column-snoc crc capacity 0 capacity cell cells (omega (arith, last, below))
                  ∙ ap (λ k. set old_numbers k (number_at crc capacity (0 + k) cell)) (sym last)
                  ∙ ap at_slot here;
            })
    ]
