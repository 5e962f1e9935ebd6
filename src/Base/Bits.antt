-- ===== src/Base/Bits.antt =====
-- Bits of machine words as numbers: the bit at a place, and what `&`, `|` and the complement do
-- to each bit.
use Prim.Native.Nat.{
  ℕ, zero, suc, ◌+◌, ◌-◌, ◌*◌, ◌/◌, ◌%◌, ◌^◌, ◌≤◌, ◌<◌, min, max, bit_and, bit_or, digits,
  bit_and-bitwise, bit_or-bitwise,
}
use mathlib.Core.Path.{◌≡◌, refl, sym, subst, ap, ◌∙◌}
use native.Mathlib.Nat.{pow-suc, one-le-pow, div-add-mod}
use aquabsd_pkg_repo.Base.Tests.{◌==◌, ==_iff, Bool-cases, if◌then◌else◌}
use mathlib.Core.Logic.{◌↔◌, inl, inr}
use native.Mathlib.Omega.{arith}

pub two-pow-lt : (i w : ℕ) → i < w → 2 ^ i < 2 ^ w
two-pow-lt i zero h = elim h [ ]
two-pow-lt zero (suc w) h = omega (arith, pow-suc 2 w, one-le-pow w 2)
two-pow-lt (suc i) (suc w) h = omega (arith, pow-suc 2 w, pow-suc 2 i, two-pow-lt i w (omega arith))

-- The bit of `x` at place `k`.
abbrev pub bit : ℕ → ℕ → ℕ
bit zero x = x % 2
bit (suc k) x = bit k (x / 2)

pub bit-lt : (k x : ℕ) → bit k x < 2
bit-lt zero x = omega arith
bit-lt (suc k) x = bit-lt k (x / 2)

pub bit-zero : (k : ℕ) → bit k 0 ≡ 0
bit-zero zero = refl
bit-zero (suc k) = bit-zero k

-- A digit `d` below twice `x` is the lowest bit, and the others are those of `x`.
bit_double : (k x d : ℕ) → d < 2 → bit (suc k) (x * 2 + d) ≡ bit k x
bit_double k x d h = ap (bit k) (omega arith)

module _ (z : ℕ → ℕ) (f : ℕ → ℕ → ℕ) (small : (x y : ℕ) → x < 2 → y < 2 → f x y < 2)
    (ends : (k b : ℕ) → bit k (z b) ≡ f 0 (bit k b)) where
  bit-digits : (k n a b : ℕ) → a ≤ n → bit k (digits z f n a b) ≡ f (bit k a) (bit k b)
  bit-digits k zero zero b h = rw (bit-zero k) (ends k b)
  bit-digits k zero (suc a) b h = absurd (omega arith)
  bit-digits k (suc n) zero b h = rw (bit-zero k) (ends k b)
  bit-digits zero (suc n) (suc a) b h =
      omega (arith, small (suc a % 2) (b % 2) (omega arith) (omega arith))
  bit-digits (suc k) (suc n) (suc a) b h =
      bit_double k (digits z f n (suc a / 2) (b / 2)) (f (suc a % 2) (b % 2))
        (small _ _ (omega arith) (omega arith))
      ∙ bit-digits k n (suc a / 2) (b / 2) (omega arith)

module _ (z : ℕ → ℕ) (f : ℕ → ℕ → ℕ) (small : (x y : ℕ) → x < 2 → y < 2 → f x y < 2)
    (ends : (w b : ℕ) → b < 2 ^ w → z b < 2 ^ w) where
  digits-lt : (w n a b : ℕ) → a ≤ n → a < 2 ^ w → b < 2 ^ w → digits z f n a b < 2 ^ w
  digits-lt w zero zero b h p q = ends w b q
  digits-lt w zero (suc a) b h p q = absurd (omega arith)
  digits-lt w (suc n) zero b h p q = ends w b q
  digits-lt zero (suc n) (suc a) b h p q = absurd (omega arith)
  digits-lt (suc w) (suc n) (suc a) b h p q =
      let two : 2 ^ suc w ≡ 2 ^ w * 2 = pow-suc 2 w in
      omega (
        arith,
        two,
        small (suc a % 2) (b % 2) (omega arith) (omega arith),
        digits-lt w n (suc a / 2) (b / 2) (omega arith) (omega (arith, two)) (omega (arith, two)),
      )

-- `|` of two words of `w` bits is one.
pub bit_or-lt : (w a b : ℕ) → a < 2 ^ w → b < 2 ^ w → bit_or a b < 2 ^ w
bit_or-lt w a b p q =
    subst (λ t. t < 2 ^ w) (sym (bit_or-bitwise a b))
      (digits-lt (λ b. b) max (λ x y p q. omega arith) (λ w b h. h) w a a b (omega arith) p q)

pub bit-bit_and : (k a b : ℕ) → bit k (bit_and a b) ≡ min (bit k a) (bit k b)
bit-bit_and k a b =
    ap (bit k) (bit_and-bitwise a b)
    ∙ bit-digits (λ b. 0) min (λ x y p q. omega arith) (λ k b. omega (arith, bit-zero k)) k a a b
        (omega arith)

pub bit-bit_or : (k a b : ℕ) → bit k (bit_or a b) ≡ max (bit k a) (bit k b)
bit-bit_or k a b =
    ap (bit k) (bit_or-bitwise a b)
    ∙ bit-digits (λ b. b) max (λ x y p q. omega arith) (λ k b. omega arith) k a a b (omega arith)

-- The complement of `x` in `w` bits.
abbrev pub complement : ℕ → ℕ → ℕ
complement w x = 2 ^ w - 1 - x

pub bit-complement : (w k x : ℕ) → k < w → x < 2 ^ w → bit k (complement w x) ≡ 1 - bit k x
bit-complement zero k x h lt = elim h [ ]
bit-complement (suc w) zero x h lt = omega (arith, pow-suc 2 w)
bit-complement (suc w) (suc k) x h lt =
    let p : 2 ^ suc w ≡ 2 ^ w * 2 = pow-suc 2 w in
    ap (bit k) (omega (arith, p)) ∙ bit-complement w k (x / 2) (omega arith) (omega (arith, p))

half_mod : (w x : ℕ) → (x % 2 ^ suc w / 2 ≡ x / 2 % 2 ^ w) × (x % 2 ^ suc w % 2 ≡ x % 2)
half_mod w x =
    let p : 2 ^ suc w ≡ 2 ^ w * 2 = pow-suc 2 w in
    rw (p) (
      grind (arith, one-le-pow w 2, div-add-mod x (2 ^ w * 2)),
      ground (arith, one-le-pow w 2, div-add-mod x (2 ^ w * 2)),
    )

-- A word cut to its low `w` bits keeps them.
pub bit-mod : (w k x : ℕ) → k < w → bit k (x % 2 ^ w) ≡ bit k x
bit-mod zero k x h = elim h [ ]
bit-mod (suc w) zero x h = (half_mod w x).1
bit-mod (suc w) (suc k) x h = ap (bit k) (half_mod w x).0 ∙ bit-mod w k (x / 2) (omega arith)

-- Numbers below `2 ^ w` with the same low `w` bits are equal.
pub eq_of_bits : (w x y : ℕ) → x < 2 ^ w → y < 2 ^ w → ((k : ℕ) → k < w → bit k x ≡ bit k y) → x ≡ y
eq_of_bits zero x y hx hy same = omega arith
eq_of_bits (suc w) x y hx hy same =
    let p : 2 ^ suc w ≡ 2 ^ w * 2 = pow-suc 2 w in
    omega (
      arith,
      same 0 (omega arith),
      eq_of_bits w (x / 2) (y / 2) (omega (arith, p)) (omega (arith, p))
          (λ k h. same (suc k) (omega arith)),
    )

-- The one bit of a power of two.
pub bit-pow : (k i : ℕ) → bit k (2 ^ i) ≡ (if k == i then 1 else 0)
bit-pow zero zero = refl
bit-pow (suc k) zero = ground (arith, bit-zero k)
bit-pow zero (suc i) = ground (arith, pow-suc 2 i)
bit-pow (suc k) (suc i) =
    let two : 2 ^ suc i ≡ 2 ^ i * 2 = pow-suc 2 i in
    ap (bit k) (omega (arith, two)) ∙ bit-pow k i ∙ ground arith

pub zero-bit_or : (b : ℕ) → bit_or 0 b ≡ b
zero-bit_or b = bit_or-bitwise 0 b

-- A number below `2 ^ w` has no bit from place `w` on.
pub bit-small : (w k x : ℕ) → w ≤ k → x < 2 ^ w → bit k x ≡ 0
bit-small zero k x h lt = ap (bit k) (omega arith) ∙ bit-zero k
bit-small (suc w) zero x h lt = elim h [ ]
bit-small (suc w) (suc k) x h lt = bit-small w k (x / 2) (omega arith) (omega (arith, pow-suc 2 w))

digits-min-lt : (w n a b : ℕ) → a ≤ n → b < 2 ^ w → digits (λ b. 0) min n a b < 2 ^ w
digits-min-lt w zero zero b h q = omega (arith, one-le-pow w 2)
digits-min-lt w zero (suc a) b h q = absurd (omega arith)
digits-min-lt w (suc n) zero b h q = omega (arith, one-le-pow w 2)
digits-min-lt zero (suc n) (suc a) b h q =
    omega (arith, digits-min-lt zero n (suc a / 2) (b / 2) (omega arith) (omega arith))
digits-min-lt (suc w) (suc n) (suc a) b h q =
    let two : 2 ^ suc w ≡ 2 ^ w * 2 = pow-suc 2 w in
    omega (arith, two, digits-min-lt w n (suc a / 2) (b / 2) (omega arith) (omega (arith, two)))

-- `&` with a word of `w` bits is one.
pub bit_and-lt : (w a b : ℕ) → b < 2 ^ w → bit_and a b < 2 ^ w
bit_and-lt w a b q =
    subst (λ t. t < 2 ^ w) (sym (bit_and-bitwise a b)) (digits-min-lt w a a b (omega arith) q)

-- `&` with a power of two is a test of one bit.
pub bit_and-pow : (w k x : ℕ) → k < w → (bit_and x (2 ^ k) ≡ 0) ↔ (bit k x ≡ 0)
bit_and-pow w k x h = (
  λ e.
      let one : bit k (2 ^ k) ≡ 1 = bit-pow k k ∙ ground arith in
      omega (arith, one, bit-bit_and k x (2 ^ k), ap (bit k) e, bit-zero k, bit-lt k x),
  λ e.
      eq_of_bits w (bit_and x (2 ^ k)) 0 (bit_and-lt w x (2 ^ k) (two-pow-lt k w h))
        (omega (arith, one-le-pow w 2))
        λ j lt.
          bit-bit_and j x (2 ^ k) ∙ ap (min (bit j x)) (bit-pow j k) ∙ elim (Bool-cases (j == k)) [
            | inl same ↦
                rw same (omega (arith, ap (λ i. bit i x) ((==_iff j k).0 same), e, bit-zero j))
            | inr other ↦ rw other (omega (arith, bit-zero j))
          ],
)
