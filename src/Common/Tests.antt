-- ===== src/Common/Tests.antt =====
-- Boolean tests on the native numbers, the conditional, and case splits that keep an equation.
use Prim.Native.Nat.{ℕ, ◌<◌, compare, Ordering}
use mathlib.Core.Path.{◌≡◌, refl}
use mathlib.Core.Logic.{◌≢◌, ◌↔◌, ◌⊎◌, inl, inr}
use mathlib.Core.Bool.{Bool, true, false, ◌&&◌}
use mathlib.Core.Option.{Option, none, some}
use mathlib.Core.List.{List, [], ◌∷◌}
use native.Mathlib.Omega.{arith}

abbrev pub ltb : ℕ → ℕ → Bool
ltb a b = elim (compare a b) [ Ordering.lt ↦ true | _ ↦ false ]

abbrev pub leb : ℕ → ℕ → Bool
leb a b = elim (compare a b) [ Ordering.gt ↦ false | _ ↦ true ]

infix 50 ◌==◌
abbrev pub ◌==◌ : ℕ → ℕ → Bool
a == b = elim (compare a b) [ Ordering.eq ↦ true | _ ↦ false ]

infix 1 if◌then◌else◌
abbrev pub if◌then◌else◌ {ℓ} : {A : Type ℓ} → Bool → A → A → A
if true then x else y = x
if false then x else y = y

pub lt→ltb : (a b : ℕ) → a < b → ltb a b ≡ true
lt→ltb a b h = ground arith

pub ltb→lt : (a b : ℕ) → ltb a b ≡ true → a < b
ltb→lt a b h = ground arith

pub ==_iff : (a b : ℕ) → ((a == b) ≡ true) ↔ (a ≡ b)
==_iff a b = ground arith

pub ne→==_false : (a b : ℕ) → a ≢ b → (a == b) ≡ false
ne→==_false a b h = ground arith

pub ==_false→ne : (a b : ℕ) → (a == b) ≡ false → a ≢ b
==_false→ne a b h = ground arith

pub Bool-cases : (b : Bool) → (b ≡ true) ⊎ (b ≡ false)
Bool-cases true = inl refl
Bool-cases false = inr refl

pub Option-cases {ℓ} : {A : Type ℓ} (o : Option A) → (o ≡ none) ⊎ ((a : A) × (o ≡ some a))
Option-cases none = inl refl
Option-cases (some a) = inr (a, refl)

-- Two texts or byte strings are the same: `strcmp(a, b) == 0`, `memcmp` of equal lengths.
unfoldable pub list_eq : List ℕ → List ℕ → Bool
list_eq [] [] = true
list_eq [] (y ∷ ys) = false
list_eq (x ∷ xs) [] = false
list_eq (x ∷ xs) (y ∷ ys) = (x == y) && list_eq xs ys

pub list_eq_refl : (xs : List ℕ) → list_eq xs xs ≡ true
unfolding list_eq
list_eq_refl [] = refl
list_eq_refl (x ∷ xs) = ground (arith, list_eq_refl xs)

pub list_eq_sound : (xs ys : List ℕ) → list_eq xs ys ≡ true → xs ≡ ys
unfolding list_eq
list_eq_sound [] [] h = refl
list_eq_sound [] (y ∷ ys) h = ground arith
list_eq_sound (x ∷ xs) [] h = ground arith
list_eq_sound (x ∷ xs) (y ∷ ys) h = ground (arith, list_eq_sound xs ys)
