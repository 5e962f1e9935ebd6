-- ===== src/Base/Decimal.antt =====
-- `%d` of a number that is not negative, and its inverse, the digits that `strtoul` reads.
use Prim.Native.Nat.{ℕ, zero, suc, ◌+◌, ◌-◌, ◌*◌, ◌/◌, ◌%◌, ◌^◌, ◌<◌}
use mathlib.Core.Path.{◌≡◌, refl, sym, ap, subst, ◌∙◌}
use mathlib.Core.Logic.{inl, inr}
use mathlib.Core.Bool.{true}
use mathlib.Core.List.{[], ◌∷◌, ◌++◌}
use native.Mathlib.Omega.{arith}
use aquabsd_pkg_repo.Base.Tests.{ltb, Bool-cases, if◌then◌else◌, ℤ, pos, negsuc}
use aquabsd_pkg_repo.Base.Lists.{length}
use aquabsd_pkg_repo.Base.Bytes.{Bytes, is_digit, digits_from, strtoul, strtoul_digits}

decimal_from : ℕ → ℕ → Bytes → Bytes
decimal_from zero n acc = acc
decimal_from (suc fuel) n acc =
    let here = (b'0' + n % 10) ∷ acc in
    let more = decimal_from fuel (n / 10) here in if ltb n 10 then here else more

unfoldable pub decimal : ℕ → Bytes
unfolding decimal_from
decimal n = decimal_from (suc n) n []

digits_from_step :
    (m d : ℕ) (r : Bytes) → d < 10 → digits_from m ((b'0' + d) ∷ r) ≡ digits_from (m * 10 + d) r
unfolding digits_from
digits_from_step m d r h =
    let e : is_digit (b'0' + d) ≡ true = ground arith in
    rw e (ap (λ t. digits_from (m * 10 + t) r) (omega arith))

digits_from-decimal_from :
    (fuel n : ℕ) (acc : Bytes)
    → n < fuel
    → (k : ℕ) × ((m : ℕ) → digits_from m (decimal_from fuel n acc) ≡ digits_from (m * k + n) acc)
unfolding decimal_from
digits_from-decimal_from zero n acc h = absurd (omega arith)
digits_from-decimal_from (suc fuel) n acc h = elim (Bool-cases (ltb n 10)) [
  | inl small ↦ rw small (
    10,
    λ m. digits_from_step m (n % 10) acc (omega arith) ∙ ap (λ t. digits_from t acc) (ground arith),
  )
  | inr large ↦
      rw large
        (one_more (digits_from-decimal_from fuel (n / 10) ((b'0' + n % 10) ∷ acc) (ground arith)))
]
  where
    one_more :
        (k : ℕ) × ((m : ℕ)
            → digits_from m (decimal_from fuel (n / 10) ((b'0' + n % 10) ∷ acc))
              ≡ digits_from (m * k + n / 10) ((b'0' + n % 10) ∷ acc))
        → (k : ℕ) × ((m : ℕ)
            → digits_from m (decimal_from fuel (n / 10) ((b'0' + n % 10) ∷ acc))
              ≡ digits_from (m * k + n) acc)
    one_more (k, e) = (
      k * 10,
      λ m.
          e m
          ∙ digits_from_step (m * k + n / 10) (n % 10) acc (omega arith)
          ∙ ap (λ t. digits_from t acc) (omega arith),
    )

-- The digits that `%d` prints are read back.
pub digits_from-decimal : (n : ℕ) → digits_from 0 (decimal n) ≡ (n, [])
unfolding decimal digits_from
digits_from-decimal n =
    let (k, e) = digits_from-decimal_from (suc n) n [] (omega arith) in
    e 0 ∙ ap (λ (t : ℕ). (t, [])) (omega arith)

decimal_from-starts :
    (fuel n : ℕ) (acc : Bytes)
    → n < fuel
    → (d : ℕ) × (r : Bytes) × (d < 10) × (decimal_from fuel n acc ≡ (b'0' + d) ∷ r)
unfolding decimal_from
decimal_from-starts zero n acc h = absurd (omega arith)
decimal_from-starts (suc fuel) n acc h = elim (Bool-cases (ltb n 10)) [
  | inl small ↦ rw small (n % 10, acc, omega arith, refl)
  | inr large ↦ rw large (decimal_from-starts fuel (n / 10) ((b'0' + n % 10) ∷ acc) (ground arith))
]

-- `strtoul` reads back a number that `%d` prints.
pub strtoul-decimal : (n : ℕ) → n < 2 ^ 64 → strtoul (decimal n) ≡ (n, [])
unfolding decimal
strtoul-decimal n h =
    let (d, r, small, e) = decimal_from-starts (suc n) n [] (omega arith) in
    subst (λ text. strtoul text ≡ (n, [])) (sym e)
      (strtoul_digits d r n small h (
        ap (λ t. digits_from t r) (omega arith)
        ∙ sym (digits_from_step 0 d r small)
        ∙ ap (digits_from 0) (sym e)
        ∙ digits_from-decimal n))

-- `%d` of an `int`
abbrev pub int_text : ℤ → Bytes
int_text (pos n) = decimal n
int_text (negsuc n) = b'-' ∷ decimal (suc n)

-- The hexadecimal digit, in lower case.
abbrev hex_digit : ℕ → ℕ
hex_digit d = if ltb d 10 then b'0' + d else b'a' + (d - 10)

hex_from : ℕ → ℕ → Bytes → Bytes
hex_from zero n acc = acc
hex_from (suc fuel) n acc =
    let here = hex_digit (n % 16) ∷ acc in
    let more = hex_from fuel (n / 16) here in if ltb n 16 then here else more

-- `%x`; the number itself is enough fuel, since it has no more digits than that
unfoldable pub hex : ℕ → Bytes
unfolding hex_from
hex n = hex_from (suc n) n []

spaces : ℕ → Bytes
spaces zero = []
spaces (suc n) = b' ' ∷ spaces n

-- A field of a least width, its text at the right.
unfoldable pub pad : ℕ → Bytes → Bytes
unfolding spaces
pad width text = spaces (width - length text) ++ text
