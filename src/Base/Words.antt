-- ===== src/Base/Words.antt =====
-- The 32-bit `int` and `unsigned` of amd64, and the conversions between them: an `unsigned` is its
-- bit pattern, an `int` the number that the pattern stands for.
use Prim.Native.Nat.{ℕ, ◌-◌, ◌%◌, ◌^◌, ◌<◌}
use mathlib.Core.Path.{◌≡◌}
use mathlib.Core.Bool.{Bool, true, false}
use native.Mathlib.Omega.{arith}
use aquabsd_pkg_repo.Base.Tests.{ℤ, pos, negsuc, ltb, if◌then◌else◌}

-- `(unsigned) i`
abbrev pub u32_of_int : ℤ → ℕ
u32_of_int (pos n) = n % 2 ^ 32
u32_of_int (negsuc n) = 2 ^ 32 - 1 - n % 2 ^ 32

-- `(int) u`, for the low 32 bits of `u`
abbrev pub int_of_u32 : ℕ → ℤ
int_of_u32 u =
    if ltb (u % 2 ^ 32) (2 ^ 31) then pos (u % 2 ^ 32) else negsuc (2 ^ 32 - 1 - u % 2 ^ 32)

-- `(int) u < 0`, and so on
abbrev pub is_negative : ℤ → Bool
is_negative (pos n) = false
is_negative (negsuc n) = true

pub u32_of_int-int_of_u32 : (u : ℕ) → u32_of_int (int_of_u32 u) ≡ u % 2 ^ 32
u32_of_int-int_of_u32 u = ground arith

pub u32_of_int-lt : (i : ℤ) → u32_of_int i < 2 ^ 32
u32_of_int-lt (pos n) = omega arith
u32_of_int-lt (negsuc n) = omega arith

-- A value that fits an `int` survives the way through `unsigned`.
pub int_of_u32-pos : (n : ℕ) → n < 2 ^ 31 → int_of_u32 (u32_of_int (pos n)) ≡ pos n
int_of_u32-pos n h = ground arith

pub int_of_u32-negsuc : (n : ℕ) → n < 2 ^ 31 → int_of_u32 (u32_of_int (negsuc n)) ≡ negsuc n
int_of_u32-negsuc n h = ground arith
