-- ===== src/Common/Int.antt =====
-- Signed integers over the native numbers, as far as the program needs them: two's complement
-- patterns and their order.
use Prim.Native.Nat.{ℕ, suc, ◌+◌, ◌-◌, ◌<◌}
use mathlib.Core.Bool.{Bool}
use kfsw_services.Common.Tests.{ltb, if◌then◌else◌}

-- `negsuc n` is -(n + 1).
pub data ℤ : Type 0 where
  pos : ℕ → ℤ
  negsuc : ℕ → ℤ

abbrev pub pos_part : ℤ → ℕ
pos_part (pos n) = n
pos_part (negsuc n) = 0

abbrev pub neg_part : ℤ → ℕ
neg_part (pos n) = 0
neg_part (negsuc n) = suc n

infix 4 ◌<ℤ◌
abbrev pub ◌<ℤ◌ : ℤ → ℤ → Type 0
◌<ℤ◌ a b = pos_part a + neg_part b < pos_part b + neg_part a

abbrev pub ltb_ℤ : ℤ → ℤ → Bool
ltb_ℤ a b = ltb (pos_part a + neg_part b) (pos_part b + neg_part a)

-- The integer that a pattern stands for, where `half` is 2 to the width less one.
abbrev pub signed : ℕ → ℕ → ℤ
signed half w = if ltb w half then pos w else negsuc (half + half - w - 1)
