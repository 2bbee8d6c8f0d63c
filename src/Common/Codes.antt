-- ===== src/Common/Codes.antt =====
-- Return codes. A function of the program that returns an int status returns 0 or a negative
-- errno: `Code` is its magnitude, so 0 is success and 22 stands for -EINVAL. The numbers are
-- those of errno.h. `Result` is a status with the value that a success writes through a pointer.
use Prim.Native.Nat.{ℕ}
use mathlib.Core.Path.{◌≡◌, refl}
use native.Mathlib.Omega.{arith}
use mathlib.Core.Logic.{◌⊎◌, inl, inr}

abbrev pub Code : Type 0
Code = ℕ

abbrev pub success : Code
success = 0

abbrev pub eperm : Code
eperm = 1

abbrev pub enoent : Code
enoent = 2

abbrev pub eio : Code
eio = 5

abbrev pub e2big : Code
e2big = 7

abbrev pub eagain : Code
eagain = 11

abbrev pub eacces : Code
eacces = 13

abbrev pub ebusy : Code
ebusy = 16

abbrev pub eexist : Code
eexist = 17

abbrev pub erofs : Code
erofs = 30

abbrev pub enodev : Code
enodev = 19

abbrev pub enotdir : Code
enotdir = 20

abbrev pub eisdir : Code
eisdir = 21

abbrev pub einval : Code
einval = 22

abbrev pub efbig : Code
efbig = 27

abbrev pub enospc : Code
enospc = 28

abbrev pub espipe : Code
espipe = 29

abbrev pub erange : Code
erange = 34

abbrev pub enodata : Code
enodata = 61

abbrev pub etime : Code
etime = 62

abbrev pub econnreset : Code
econnreset = 104

abbrev pub econnrefused : Code
econnrefused = 111

abbrev pub estale : Code
estale = 133

abbrev pub ebadmsg : Code
ebadmsg = 77

abbrev pub eilseq : Code
eilseq = 138

abbrev pub eoverflow : Code
eoverflow = 139

abbrev pub enotsup : Code
enotsup = 134

abbrev pub emsgsize : Code
emsgsize = 122

abbrev pub eprotonosupport : Code
eprotonosupport = 123

abbrev pub enametoolong : Code
enametoolong = 91

abbrev pub ealready : Code
ealready = 120

abbrev pub etimedout : Code
etimedout = 116

pub data Result {ℓ} (A : Type ℓ) : Type ℓ where
  ok : A → Result A
  err : Code → Result A

pub Result-cases {ℓ} :
    {A : Type ℓ} (r : Result A) → ((e : Code) × (r ≡ err e)) ⊎ ((a : A) × (r ≡ ok a))
Result-cases (ok a) = inr (a, refl)
Result-cases (err e) = inl (e, refl)

-- The rest of a function, behind a call that it returns early from on an error.
infixl 5 ◌>>=◌
abbrev pub ◌>>=◌ {ℓ κ} :
    {Found : Type ℓ} {Made : Type κ} → Result Found → (Found → Result Made) → Result Made
err code >>= after = err code
ok found >>= after = after found

-- A success behind a call is one of the call.
pub bind-ok {ℓ κ} :
    {Found : Type ℓ} {Made : Type κ} (r : Result Found) (after : Found → Result Made) (made : Made)
    → (r >>= after) ≡ ok made
    → (found : Found) × (r ≡ ok found) × (after found ≡ ok made)
bind-ok (ok found) after made h = (found, refl, h)
bind-ok (err code) after made h = absurd (ground (arith, h))
