-- ===== src/Event/Store.antt =====
-- What one store leaves in the ring.
use native.Mathlib.Nat.{mod-add-mod}
use kfsw_services.Common.{
  ℕ, zero, suc, ◌+◌, ◌-◌, ◌%◌, ◌≤◌, ◌<◌, ◌≡◌, refl, ap, sym, ◌∙◌, List, [], ◌∷◌, ◌++◌, arith, true,
  false, length, length-set, drop, length-append, length-drop, ◌==◌, inl, inr, Bool-cases, ==_iff,
  ==_false→ne,
}
use kfsw_services.Event.{Record, State, Emission, depth, store, filled_slot, write_index}
use kfsw_services.Event.Window.{window, contents, window-set, length-contents}
use kfsw_services.Event.Invariant.{IsValid}

-- The last `n` of a list.
abbrev pub last_n {ℓ} : {A : Type ℓ} → ℕ → List A → List A
last_n n xs = drop (length xs - n) xs

module _ {ℓ} {A : Type ℓ} where
  pub drop-append_le :
      (k : ℕ) (xs ys : List A) → k ≤ length xs → drop k (xs ++ ys) ≡ drop k xs ++ ys
  drop-append_le zero xs ys h = refl
  drop-append_le (suc k) [] ys h = absurd (omega arith)
  drop-append_le (suc k) (x ∷ xs) ys h = drop-append_le k xs ys (omega arith)

  pub drop-nil : (j : ℕ) → drop {A = A} j [] ≡ []
  drop-nil zero = refl
  drop-nil (suc j) = refl

  drop-drop : (j k : ℕ) (xs : List A) → drop j (drop k xs) ≡ drop (k + j) xs
  drop-drop j zero xs = ap (λ m. drop m xs) (omega arith)
  drop-drop j (suc k) [] = drop-nil j ∙ sym (drop-nil (suc k + j))
  drop-drop j (suc k) (x ∷ xs) =
      let e : suc (k + j) ≡ suc k + j = omega arith in
      drop-drop j k xs ∙ ap (λ m. drop m (x ∷ xs)) e

  -- To forget early and to forget late is the same.
  pub last_n-append-last_n :
      (n : ℕ) (xs ys : List A) → last_n n (last_n n xs ++ ys) ≡ last_n n (xs ++ ys)
  last_n-append-last_n n xs ys =
      ap (drop _) (sym (drop-append_le (length xs - n) xs ys (omega arith)))
      ∙ drop-drop _ (length xs - n) (xs ++ ys)
      ∙ ap (λ m. drop m (xs ++ ys))
          (omega (
            arith,
            length-append (drop (length xs - n) xs) ys,
            length-append xs ys,
            length-drop (length xs - n) xs,
          ))

  pub last_n_all : (n : ℕ) (xs : List A) → length xs ≤ n → last_n n xs ≡ xs
  last_n_all n xs h = let e : length xs - n ≡ 0 = omega arith in ap (λ k. drop k xs) e

-- A whole turn of the ring comes back.
whole_turn : (start size : ℕ) → start < size → (start + size) % size ≡ start
whole_turn start size inside = grind arith

-- The last slot before `h`, going round, is one short of a whole turn from the slot after it.
next_slot : (cap h : ℕ) → h < cap → h ≡ ((h + 1) % cap + (cap - 1)) % cap
next_slot cap h hh =
    sym (mod-add-mod (h + 1) cap (cap - 1) ∙ ap (λ k. k % cap) (omega arith) ∙ whole_turn h cap hh)

pred_window :
    (ring : List Record) (cap h n : ℕ)
    → 0 < n
    → drop 1 (window ring cap h n) ≡ window ring cap ((h + 1) % cap) (n - 1)
pred_window ring cap h zero p = absurd (omega arith)
pred_window ring cap h (suc n) p = ap (window ring cap ((h + 1) % cap)) (omega arith)

-- What a store leaves in the ring, on each branch.
pub store_room :
    (s : State) (e : Emission) (now : ℕ)
    → IsValid s
    → (s.held_count == depth s) ≡ false
    → contents (store s e now) ≡ contents s ++ filled_slot s.next_sequence e now ∷ []
unfolding store
store_room s e now v h =
    let at : write_index s ≡ (s.oldest_index + s.held_count) % depth s = grind arith in
    ground (
      arith,
      length-set s.ring (write_index s) (filled_slot s.next_sequence e now),
      window-set s.ring (depth s) (filled_slot s.next_sequence e now) s.held_count s.oldest_index
          (write_index s),
    )

pub store_full :
    (s : State) (e : Emission) (now : ℕ)
    → IsValid s
    → (s.held_count == depth s) ≡ true
    → contents (store s e now) ≡ drop 1 (contents s) ++ filled_slot s.next_sequence e now ∷ []
unfolding store
store_full s e now v h =
    let at : write_index s ≡ s.oldest_index = grind (arith, whole_turn) in
    ground (
      arith,
      length-set s.ring (write_index s) (filled_slot s.next_sequence e now),
      pred_window s.ring (depth s) s.oldest_index s.held_count,
      window-set s.ring (depth s) (filled_slot s.next_sequence e now) (s.held_count - 1)
          ((s.oldest_index + 1) % depth s) (write_index s),
      next_slot (depth s) s.oldest_index,
    )

-- A store keeps the last records that fit.
pub contents-store :
    (s : State) (e : Emission) (now : ℕ)
    → IsValid s
    → contents (store s e now)
      ≡ last_n (depth s) (contents s ++ filled_slot s.next_sequence e now ∷ [])
contents-store s e now v = elim (Bool-cases (s.held_count == depth s)) [
  | inl full ↦
      let held : s.held_count ≡ depth s = (==_iff _ _).0 full in
      let one : 1 ≡ length (contents s ++ slot ∷ []) - depth s =
        omega (arith, length-contents s, length-append (contents s) (slot ∷ [])) in
      store_full s e now v full
      ∙ sym (drop-append_le 1 (contents s) (slot ∷ []) (omega (arith, length-contents s)))
      ∙ ap (λ k. drop k (contents s ++ slot ∷ [])) one
  | inr room ↦
      let fits : length (contents s ++ slot ∷ []) ≤ depth s = omega (
        arith,
        length-contents s,
        length-append (contents s) (slot ∷ []),
        ==_false→ne s.held_count (depth s) room,
      ) in
      store_room s e now v room ∙ sym (last_n_all (depth s) _ fits)
]
  where
    slot : Record
    slot = filled_slot s.next_sequence e now
