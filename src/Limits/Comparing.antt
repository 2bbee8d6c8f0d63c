-- ===== src/Limits/Comparing.antt =====
-- `widen`, `order` and `holds` of limits.c against the order of the integers that a parameter's bytes
-- stand for.
use kfsw_services.Common.{
  ℕ, ◌+◌, ◌%◌, ◌<◌, ◌≡◌, ◌≢◌, ◌↔◌, ◌⊎◌, sym, inl, inr, refl, ap, ◌∙◌, true, false, arith, ltb,
}
use kfsw_services.Common.Int.{ℤ, pos, negsuc, pos_part, neg_part, ◌<ℤ◌, ltb_ℤ, signed}
use kfsw_services.Limits.{
  Floats, Rule, ParamType, u8_type, u16_type, u32_type, u64_type, i8_type, i16_type, i32_type,
  i64_type, x8_type, x16_type, x32_type, x64_type, float_type, double_type, Comparison, gt, ge, lt,
  le, eq, ne, widen, order, holds, crosses, by_tests,
}

-- The integer that the bytes of a scalar stand for, for the integer types.
pub data IsInteger : ParamType → (ℕ → ℤ) → Type 0 where
  u8_is : IsInteger u8_type (λ s. pos (s % 0x100))
  u16_is : IsInteger u16_type (λ s. pos (s % 0x1_0000))
  u32_is : IsInteger u32_type (λ s. pos (s % 0x1_0000_0000))
  u64_is : IsInteger u64_type (λ s. pos (s % 0x1_0000_0000_0000_0000))
  x8_is : IsInteger x8_type (λ s. pos (s % 0x100))
  x16_is : IsInteger x16_type (λ s. pos (s % 0x1_0000))
  x32_is : IsInteger x32_type (λ s. pos (s % 0x1_0000_0000))
  x64_is : IsInteger x64_type (λ s. pos (s % 0x1_0000_0000_0000_0000))
  i8_is : IsInteger i8_type (λ s. signed 0x80 (s % 0x100))
  i16_is : IsInteger i16_type (λ s. signed 0x8000 (s % 0x1_0000))
  i32_is : IsInteger i32_type (λ s. signed 0x8000_0000 (s % 0x1_0000_0000))
  i64_is : IsInteger i64_type (λ s. signed 0x8000_0000_0000_0000 (s % 0x1_0000_0000_0000_0000))

-- A comparison of integers.
abbrev pub Meets : Comparison → ℤ → ℤ → Type 0
Meets gt a b = b <ℤ a
Meets ge a b = (b <ℤ a) ⊎ (a ≡ b)
Meets lt a b = a <ℤ b
Meets le a b = (a <ℤ b) ⊎ (a ≡ b)
Meets eq a b = a ≡ b
Meets ne a b = a ≢ b

ℤ-eq : (a b : ℤ) → pos_part a + neg_part b ≡ pos_part b + neg_part a → a ≡ b
ℤ-eq (pos m) (pos n) p = let same : m ≡ n = omega arith in ap pos same
ℤ-eq (pos m) (negsuc n) p = absurd (omega arith)
ℤ-eq (negsuc m) (pos n) p = absurd (omega arith)
ℤ-eq (negsuc m) (negsuc n) p = let same : m ≡ n = omega arith in ap negsuc same

parts : {a b : ℤ} → a ≡ b → pos_part a + neg_part b ≡ pos_part b + neg_part a
parts p = rw p refl

abbrev MeetsNat : Comparison → ℕ → ℕ → Type 0
MeetsNat gt m n = n < m
MeetsNat ge m n = (n < m) ⊎ (m ≡ n)
MeetsNat lt m n = m < n
MeetsNat le m n = (m < n) ⊎ (m ≡ n)
MeetsNat eq m n = m ≡ n
MeetsNat ne m n = m ≢ n

holds-by_tests :
    (cmp : Comparison) (m n : ℕ)
    → (holds cmp (by_tests (ltb n m) (ltb m n)) ≡ true) ↔ MeetsNat cmp m n
unfolding holds
holds-by_tests gt m n = (λ h. ground arith, λ h. ground arith)
holds-by_tests ge m n = (λ h. ground arith, λ h. ground arith)
holds-by_tests lt m n = (λ h. ground arith, λ h. ground arith)
holds-by_tests le m n = (λ h. ground arith, λ h. ground arith)
holds-by_tests eq m n = (λ h. ground arith, λ h. ground arith)
holds-by_tests ne m n = (λ h. ground arith, λ h. ground arith)

Meets-MeetsNat :
    (cmp : Comparison) (a b : ℤ)
    → MeetsNat cmp (pos_part a + neg_part b) (pos_part b + neg_part a) ↔ Meets cmp a b
Meets-MeetsNat gt a b = (λ h. h, λ h. h)
Meets-MeetsNat ge a b = (
  λ h. elim h [ inl l ↦ inl l | inr e ↦ inr (ℤ-eq a b e) ],
  λ h. elim h [ inl l ↦ inl l | inr e ↦ inr (parts e) ],
)
Meets-MeetsNat lt a b = (λ h. h, λ h. h)
Meets-MeetsNat le a b = (
  λ h. elim h [ inl l ↦ inl l | inr e ↦ inr (ℤ-eq a b e) ],
  λ h. elim h [ inl l ↦ inl l | inr e ↦ inr (parts e) ],
)
Meets-MeetsNat eq a b = (ℤ-eq a b, parts)
Meets-MeetsNat ne a b = (λ h e. h (parts e), λ h e. h (ℤ-eq a b e))

pos-tests :
    (a b : ℕ)
    → by_tests (ltb b a) (ltb a b) ≡ by_tests (ltb_ℤ (pos b) (pos a)) (ltb_ℤ (pos a) (pos b))
pos-tests a b =
    let left : a + 0 ≡ a = omega arith in
    let right : b + 0 ≡ b = omega arith in rw (left, right) refl

module _ (floats : Floats) where
  order-widen :
      {t : ParamType} {value : ℕ → ℤ} (x y : ℕ)
      → IsInteger t value
      → order floats (widen floats t x) (widen floats t y)
        ≡ by_tests (ltb_ℤ (value y) (value x)) (ltb_ℤ (value x) (value y))
  unfolding order widen
  order-widen x y u8_is = pos-tests (x % 0x100) (y % 0x100)
  order-widen x y u16_is = pos-tests (x % 0x1_0000) (y % 0x1_0000)
  order-widen x y u32_is = pos-tests (x % 0x1_0000_0000) (y % 0x1_0000_0000)
  order-widen x y u64_is = pos-tests (x % 0x1_0000_0000_0000_0000) (y % 0x1_0000_0000_0000_0000)
  order-widen x y x8_is = pos-tests (x % 0x100) (y % 0x100)
  order-widen x y x16_is = pos-tests (x % 0x1_0000) (y % 0x1_0000)
  order-widen x y x32_is = pos-tests (x % 0x1_0000_0000) (y % 0x1_0000_0000)
  order-widen x y x64_is = pos-tests (x % 0x1_0000_0000_0000_0000) (y % 0x1_0000_0000_0000_0000)
  order-widen x y i8_is = refl
  order-widen x y i16_is = refl
  order-widen x y i32_is = refl
  order-widen x y i64_is = refl

  -- For every integer type of a parameter, a rule's comparison holds for a reading exactly if the
  -- integers that the reading's bytes and the bound's bytes stand for compare so.
  pub crosses-Meets :
      {value : ℕ → ℤ} (rule : Rule) (scalar : ℕ)
      → IsInteger rule.type value
      → (crosses floats rule scalar ≡ true) ↔ Meets rule.cmp (value scalar) (value rule.bound)
  unfolding crosses
  crosses-Meets {value} rule scalar i =
      let a = value scalar in
      let b = value rule.bound in
      let (sound, complete) =
        holds-by_tests rule.cmp (pos_part a + neg_part b) (pos_part b + neg_part a) in
      let (to, from) = Meets-MeetsNat rule.cmp a b in
      let same = ap (holds rule.cmp) (order-widen scalar rule.bound i) in
      (λ h. to (sound (sym same ∙ h)), λ h. same ∙ complete (from h))

  -- A reading of a float parameter that is not a number meets no comparison, whatever the bound.
  crosses-nan :
      (rule : Rule) (scalar : ℕ)
      → ((rule.type ≡ float_type) × (floats.is_nan (floats.of_f32 scalar) ≡ true))
        ⊎ ((rule.type ≡ double_type) × (floats.is_nan (floats.of_f64 scalar) ≡ true))
      → crosses floats rule scalar ≡ false
  unfolding crosses order widen holds
  crosses-nan rule scalar h = elim h [ inl (t, n) ↦ rw (t, n) refl | inr (t, n) ↦ rw (t, n) refl ]
