-- ===== src/Event/Window.antt =====
-- What the ring holds, oldest first, and how a write changes it.
use native.Mathlib.Nat.{mod-add-mod}
use kfsw_services.Common.{
  ℕ, zero, suc, ◌+◌, ◌%◌, ◌≤◌, ◌<◌, ◌≡◌, ◌≢◌, refl, sym, ap, ◌∙◌, List, [], ◌∷◌, ◌++◌, arith, some,
  length, get_or, get_elem?, set, get_or-set_self, get_or-set_ne,
}
use kfsw_services.Event.{Record, State, zero_record, depth}

-- One step round the ring and `i` more.
round-suc : (size start i : ℕ) → ((start + 1) % size + i) % size ≡ (start + suc i) % size
round-suc size start i =
    let same : start + 1 + i ≡ start + suc i = omega arith in
    rw (mod-add-mod (start + 1) size i, same) refl

-- Fewer steps than the ring is long do not come back to where they began.
round_ne : (size start i : ℕ) → start < size → suc i < size → (start + suc i) % size ≢ start
round_ne size start i inside fewer = grind arith

-- The records of `count` places from `start` on, going round at `size`.
module _ (ring : List Record) (size : ℕ) where
  abbrev pub window : ℕ → ℕ → List Record
  window start zero = []
  window start (suc count) = get_or ring start zero_record ∷ window ((start + 1) % size) count

  pub length-window : (start count : ℕ) → length (window start count) ≡ count
  length-window start zero = refl
  length-window start (suc count) = ap suc (length-window ((start + 1) % size) count)

  -- The record at place `i` of the window.
  pub get_elem?-window :
      (start count i : ℕ)
      → start < size
      → i < count
      → get_elem? (window start count) i ≡ some (get_or ring ((start + i) % size) zero_record)
  get_elem?-window start zero i inside few = absurd (omega arith)
  get_elem?-window start (suc count) zero inside few =
      let here : (start + 0) % size ≡ start = grind arith in rw here refl
  get_elem?-window start (suc count) (suc i) inside few =
      let there = get_elem?-window ((start + 1) % size) count i (omega arith) (omega arith) in
      rw (← round-suc size start i) there

abbrev pub contents : State → List Record
contents s = window s.ring (depth s) s.oldest_index s.held_count

pub length-contents : (s : State) → length (contents s) ≡ s.held_count
length-contents s = length-window s.ring (depth s) s.oldest_index s.held_count

-- A write to the first place behind a window makes the window longer by that record.
pub window-set :
    (ring : List Record) (size : ℕ) (r : Record) (count start i : ℕ)
    → size ≤ length ring
    → start < size
    → count < size
    → i ≡ (start + count) % size
    → window (set ring i r) size start (suc count) ≡ window ring size start count ++ r ∷ []
window-set ring size r zero start i whole inside free place =
    let here : i ≡ start = grind arith in
    rw (here, get_or-set_self ring start r zero_record (omega arith))
window-set ring size r (suc count) start i whole inside free place =
    let apart : i ≢ start = rw place (round_ne size start count inside free) in
    let rest =
      window-set ring size r count ((start + 1) % size) i whole (omega arith) (omega arith)
        (place ∙ sym (round-suc size start count)) in
    rw (get_or-set_ne ring {i = i} {j = start} r zero_record apart, rest) refl
