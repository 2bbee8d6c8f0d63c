-- ===== src/Common/Lists.antt =====
-- C arrays and byte buffers as lists with native indices, under the library's names.
use Prim.Native.Nat.{ℕ, zero, suc, ◌+◌, ◌-◌, ◌≤◌, ◌<◌, min}
use mathlib.Core.Path.{◌≡◌, refl, ap}
use mathlib.Core.Logic.{◌≢◌}
use mathlib.Core.List.{List, [], ◌∷◌, ◌++◌}
use mathlib.Core.Option.{Option, none, some}
use native.Mathlib.Omega.{arith}

module _ {ℓ} {A : Type ℓ} where
  abbrev pub length : List A → ℕ
  length [] = 0
  length (x ∷ xs) = suc (length xs)

  abbrev pub get_elem? : List A → ℕ → Option A
  get_elem? [] i = none
  get_elem? (x ∷ xs) zero = some x
  get_elem? (x ∷ xs) (suc i) = get_elem? xs i

  abbrev pub get_or : List A → ℕ → A → A
  get_or [] i d = d
  get_or (x ∷ xs) zero d = x
  get_or (x ∷ xs) (suc i) d = get_or xs i d

  -- A write out of bounds changes nothing.
  abbrev pub set : List A → ℕ → A → List A
  set [] i v = []
  set (x ∷ xs) zero v = v ∷ xs
  set (x ∷ xs) (suc i) v = x ∷ set xs i v

  abbrev pub take : ℕ → List A → List A
  take zero xs = []
  take (suc n) [] = []
  take (suc n) (x ∷ xs) = x ∷ take n xs

  abbrev pub drop : ℕ → List A → List A
  drop zero xs = xs
  drop (suc n) [] = []
  drop (suc n) (x ∷ xs) = drop n xs

  abbrev pub replicate : ℕ → A → List A
  replicate zero a = []
  replicate (suc n) a = a ∷ replicate n a

  abbrev pub All {κ} : (A → Type κ) → List A → Type κ
  All P [] = Unit
  All P (x ∷ xs) = P x × All P xs

  pub length-append : (xs ys : List A) → length (xs ++ ys) ≡ length xs + length ys
  length-append [] ys = omega arith
  length-append (x ∷ xs) ys = omega (arith, length-append xs ys)

  pub length-set : (xs : List A) (i : ℕ) (v : A) → length (set xs i v) ≡ length xs
  length-set [] i v = refl
  length-set (x ∷ xs) zero v = refl
  length-set (x ∷ xs) (suc i) v = ap suc (length-set xs i v)

  pub get_or-set_self :
      (xs : List A) (i : ℕ) (v d : A) → i < length xs → get_or (set xs i v) i d ≡ v
  get_or-set_self [] i v d h = absurd (omega arith)
  get_or-set_self (x ∷ xs) zero v d h = refl
  get_or-set_self (x ∷ xs) (suc i) v d h = get_or-set_self xs i v d (omega arith)

  pub get_or-set_ne :
      (xs : List A) {i j : ℕ} (v d : A) → i ≢ j → get_or (set xs i v) j d ≡ get_or xs j d
  get_or-set_ne [] v d h = refl
  get_or-set_ne (x ∷ xs) {i = zero} {j = zero} v d h = absurd (h refl)
  get_or-set_ne (x ∷ xs) {i = zero} {j = suc j} v d h = refl
  get_or-set_ne (x ∷ xs) {i = suc i} {j = zero} v d h = refl
  get_or-set_ne (x ∷ xs) {i = suc i} {j = suc j} v d h = get_or-set_ne xs v d (λ e. h (ap suc e))

  pub get_elem?-set_self :
      (xs : List A) (i : ℕ) (v : A) → i < length xs → get_elem? (set xs i v) i ≡ some v
  get_elem?-set_self [] i v h = absurd (omega arith)
  get_elem?-set_self (x ∷ xs) zero v h = refl
  get_elem?-set_self (x ∷ xs) (suc i) v h = get_elem?-set_self xs i v (omega arith)

  pub get_elem?-set-some :
      (xs : List A) (i : ℕ) (old v : A)
      → get_elem? xs i ≡ some old
      → get_elem? (set xs i v) i ≡ some v
  get_elem?-set-some [] i old v h = cc
  get_elem?-set-some (x ∷ xs) zero old v h = refl
  get_elem?-set-some (x ∷ xs) (suc i) old v h = get_elem?-set-some xs i old v h

  pub get_elem?-eq-get_or :
      (xs : List A) (i : ℕ) (d : A) → i < length xs → get_elem? xs i ≡ some (get_or xs i d)
  get_elem?-eq-get_or [] i d h = absurd (omega arith)
  get_elem?-eq-get_or (x ∷ xs) zero d h = refl
  get_elem?-eq-get_or (x ∷ xs) (suc i) d h = get_elem?-eq-get_or xs i d (omega arith)

  pub length-take : (n : ℕ) (xs : List A) → length (take n xs) ≡ min n (length xs)
  length-take zero xs = omega arith
  length-take (suc n) [] = omega arith
  length-take (suc n) (x ∷ xs) = omega (arith, length-take n xs)

  pub length-drop : (n : ℕ) (xs : List A) → length (drop n xs) ≡ length xs - n
  length-drop zero xs = omega arith
  length-drop (suc n) [] = omega arith
  length-drop (suc n) (x ∷ xs) = omega (arith, length-drop n xs)

  pub length-replicate : (n : ℕ) (a : A) → length (replicate n a) ≡ n
  length-replicate zero a = refl
  length-replicate (suc n) a = ap suc (length-replicate n a)

  -- Taking all of a prefix.
  pub take-append : (xs ys : List A) (n : ℕ) → n ≡ length xs → take n (xs ++ ys) ≡ xs
  take-append [] ys zero e = refl
  take-append [] ys (suc n) e = absurd (omega arith)
  take-append (x ∷ xs) ys zero e = absurd (omega arith)
  take-append (x ∷ xs) ys (suc n) e = ap (◌∷◌ x) (take-append xs ys n (omega arith))

  pub drop-append : (xs ys : List A) (n : ℕ) → n ≡ length xs → drop n (xs ++ ys) ≡ ys
  drop-append [] ys zero e = refl
  drop-append [] ys (suc n) e = absurd (omega arith)
  drop-append (x ∷ xs) ys zero e = absurd (omega arith)
  drop-append (x ∷ xs) ys (suc n) e = drop-append xs ys n (omega arith)

  pub drop-append_more :
      (xs ys : List A) (k n : ℕ) → k ≡ length xs + n → drop k (xs ++ ys) ≡ drop n ys
  drop-append_more [] ys k n e = let same : k ≡ n = omega arith in ap (λ i. drop i ys) same
  drop-append_more (x ∷ xs) ys zero n e = absurd (omega arith)
  drop-append_more (x ∷ xs) ys (suc k) n e = drop-append_more xs ys k n (omega arith)

  pub take_all : (xs : List A) (n : ℕ) → length xs ≤ n → take n xs ≡ xs
  take_all [] zero h = refl
  take_all [] (suc n) h = refl
  take_all (x ∷ xs) zero h = absurd (omega arith)
  take_all (x ∷ xs) (suc n) h = ap (◌∷◌ x) (take_all xs n (omega arith))
