-- ===== src/Common/Words.antt =====
-- Machine words as native numbers: wrap by `%`, saturation, and big-endian bytes.
use Prim.Native.Nat.{ℕ, suc, ◌+◌, ◌-◌, ◌*◌, ◌/◌, ◌%◌}
use mathlib.Core.List.{List, [], ◌∷◌}
use kfsw_services.Common.Tests.{ltb, if◌then◌else◌}
use kfsw_services.Common.Lists.{get_or}

abbrev pub u8 : ℕ → ℕ
u8 n = n % 0x100

abbrev pub u16 : ℕ → ℕ
u16 n = n % 0x1_0000

abbrev pub u32 : ℕ → ℕ
u32 n = n % 0x1_0000_0000

abbrev pub u64 : ℕ → ℕ
u64 n = n % 0x1_0000_0000_0000_0000

abbrev pub u32_max : ℕ
u32_max = 0xffff_ffff

-- uint32_t and uint64_t subtraction, which wraps.
abbrev pub sub_u32 : ℕ → ℕ → ℕ
sub_u32 a b = u32 (u32 a + 0x1_0000_0000 - u32 b)

abbrev pub sub_u64 : ℕ → ℕ → ℕ
sub_u64 a b = u64 (u64 a + 0x1_0000_0000_0000_0000 - u64 b)

-- `if (counter < UINT32_MAX) counter++`
abbrev pub sat_inc : ℕ → ℕ
sat_inc c = if ltb c u32_max then c + 1 else c

-- sys_put_be16, sys_put_be32, sys_put_be64: the bytes that they store, in order.
abbrev pub put_be16 : ℕ → List ℕ
put_be16 n = (n / 0x100 % 0x100) ∷ (n % 0x100) ∷ []

abbrev pub put_be32 : ℕ → List ℕ
put_be32 n =
    (n / 0x100_0000 % 0x100) ∷ (n / 0x1_0000 % 0x100) ∷ (n / 0x100 % 0x100) ∷ (n % 0x100) ∷ []

abbrev pub put_be64 : ℕ → List ℕ
put_be64 n =
    (n / 0x100_0000_0000_0000 % 0x100)
    ∷ (n / 0x1_0000_0000_0000 % 0x100)
    ∷ (n / 0x100_0000_0000 % 0x100)
    ∷ (n / 0x1_0000_0000 % 0x100)
    ∷ (n / 0x100_0000 % 0x100)
    ∷ (n / 0x1_0000 % 0x100)
    ∷ (n / 0x100 % 0x100)
    ∷ (n % 0x100)
    ∷ []

-- `buffer[i]`; every caller has checked that `i` is inside the buffer.
abbrev pub byte_at : List ℕ → ℕ → ℕ
byte_at b i = get_or b i 0

abbrev be16_of : ℕ → ℕ → ℕ
be16_of a b = a * 0x100 + b

abbrev be32_of : ℕ → ℕ → ℕ → ℕ → ℕ
be32_of a b c d = a * 0x100_0000 + b * 0x1_0000 + c * 0x100 + d

-- sys_get_be16, sys_get_be32, sys_get_be64 at an offset.
abbrev pub get_be16 : List ℕ → ℕ → ℕ
get_be16 b i = be16_of (byte_at b i) (byte_at b (suc i))

abbrev pub get_be32 : List ℕ → ℕ → ℕ
get_be32 b i =
    be32_of (byte_at b i) (byte_at b (suc i)) (byte_at b (suc (suc i)))
      (byte_at b (suc (suc (suc i))))

abbrev pub get_be64 : List ℕ → ℕ → ℕ
get_be64 b i = get_be32 b i * 0x1_0000_0000 + get_be32 b (suc (suc (suc (suc i))))
