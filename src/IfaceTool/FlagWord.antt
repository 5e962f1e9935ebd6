-- ===== src/IfaceTool/FlagWord.antt =====
-- The word in which the program collects the flags to add and to remove, and what becomes of it in
-- `iface_set_flags`.
use Prim.Native.Nat.{max}
use native.Mathlib.Decide.{dec_lt}
use native.Mathlib.Nat.{pow-suc, one-le-pow}
use aquabsd_pkg_repo.Base.{ℕ, zero, suc, ◌-◌, ◌/◌, ◌^◌, ◌<◌, ◌≤◌, ◌≡◌, ◌∙◌, ap, arith, bit_or}
use aquabsd_pkg_repo.Base.Bits.{
  bit, bit-lt, bit-zero, bit-bit_or, bit-complement, complement, eq_of_bits, bit_or-lt, two-pow-lt,
}
use aquabsd_pkg_repo.Base.Words.{u32_of_int, u32_of_int-lt}
use aquabsd_pkg_repo.IfaceTool.{negate}

-- Above its top bit a number has none.
bit_above : (w k x : ℕ) → w ≤ k → x < 2 ^ w → bit k x ≡ 0
bit_above zero k x h lt = let e : x ≡ 0 = omega arith in rw e (bit-zero k)
bit_above (suc w) zero x h lt = elim h [ ]
bit_above (suc w) (suc k) x h lt = bit_above w k (x / 2) (omega arith) (omega (arith, pow-suc 2 w))

u32_of_int-negate : (n : ℕ) → 0 < n → n < 2 ^ 32 → u32_of_int (negate n) ≡ complement 32 (n - 1)
u32_of_int-negate zero h lt = elim h [ ]
u32_of_int-negate (suc n) h lt = omega arith

bit-negate :
    (i k : ℕ) → i < 32 → k < 32 → bit k (u32_of_int (negate (2 ^ i))) ≡ 1 - bit k (2 ^ i - 1)
bit-negate i k h lt =
    let small = two-pow-lt i 32 h in
    rw (u32_of_int-negate (2 ^ i) (one-le-pow i 2 (omega arith)) small)
      (bit-complement 32 k (2 ^ i - 1) lt (omega (arith, small)))

low_ones : (i k : ℕ) → k < i → bit k (2 ^ i - 1) ≡ 1
low_ones i k h =
    ap (bit k) (omega arith)
    ∙ bit-complement i k 0 h (one-le-pow i 2 (omega arith))
    ∙ omega (arith, bit-zero k)

-- The bits of `-(2 ^ i)`, as a word of 32 bits, are those from `i` on.
pub bit-negate_below : (i k : ℕ) → i < 32 → k < i → bit k (u32_of_int (negate (2 ^ i))) ≡ 0
bit-negate_below i k h lt = omega (arith, bit-negate i k h (omega arith), low_ones i k lt)

pub bit-negate_above : (i k : ℕ) → i ≤ k → k < 32 → bit k (u32_of_int (negate (2 ^ i))) ≡ 1
bit-negate_above i k h lt = omega (
  arith,
  bit-negate i k (omega arith) lt,
  bit_above i k (2 ^ i - 1) h (omega (arith, one-le-pow i 2)),
)

-- Two flags to be removed: the word holds the lower one alone.
pub removals_collide :
    (i j : ℕ)
    → i ≤ j
    → j < 32
    → bit_or (u32_of_int (negate (2 ^ i))) (u32_of_int (negate (2 ^ j)))
      ≡ u32_of_int (negate (2 ^ i))
removals_collide i j h lt =
    eq_of_bits 32 _ _ (bit_or-lt 32 _ _ (u32_of_int-lt _) (u32_of_int-lt _)) (u32_of_int-lt _)
      (λ k kw. bit-bit_or k (u32_of_int (negate (2 ^ i))) (u32_of_int (negate (2 ^ j))) ∙ at k kw)
  where
    at :
        (k : ℕ)
        → k < 32
        → max (bit k (u32_of_int (negate (2 ^ i)))) (bit k (u32_of_int (negate (2 ^ j))))
          ≡ bit k (u32_of_int (negate (2 ^ i)))
    at k kw = elim (dec_lt k i) [
      | yes below ↦
          omega
            (arith, bit-negate_below i k (omega arith) below, bit-negate_below j k lt (omega arith))
      | no above ↦
          omega
            (arith, bit-negate_above i k (omega arith) kw, bit-lt k (u32_of_int (negate (2 ^ j))))
    ]
