-- ===== src/Base/Bytes.antt =====
-- C strings as lists of bytes without the closing NUL, and the functions of the C library on
-- them that the sources call.
use Prim.Native.Char.{code}
use Prim.Native.Nat.{ℕ, zero, suc, ◌+◌, ◌-◌, ◌*◌, ◌%◌, ◌^◌, ◌<◌}
use Prim.Native.String.{String}
use mathlib.Core.Path.{◌≡◌, refl}
use mathlib.Core.Logic.{◌↔◌}
use mathlib.Core.Bool.{Bool, true, false, ◌&&◌, ◌||◌}
use mathlib.Core.Option.{Option, none, some}
use mathlib.Core.List.{List, [], ◌∷◌, ◌++◌}
use native.Mathlib.Omega.{arith}
use aquabsd_pkg_repo.Base.Tests.{leb, ◌==◌, ==_iff, if◌then◌else◌}
use aquabsd_pkg_repo.Base.Lists.{length, take, take-append, take_all}

abbrev pub Bytes : Type 0
Bytes = List ℕ

-- The bytes of an ASCII text.
abbrev pub codes : String → Bytes
codes String.[] = []
codes (String.◌∷◌ c s) = code c ∷ codes s

-- `strcmp(a, b) == 0`
abbrev pub str_eq : Bytes → Bytes → Bool
str_eq [] [] = true
str_eq [] (b ∷ y) = false
str_eq (a ∷ x) [] = false
str_eq (a ∷ x) (b ∷ y) = a == b && str_eq x y

pub str_eq_iff : (a b : Bytes) → (str_eq a b ≡ true) ↔ (a ≡ b)
str_eq_iff [] [] = (λ h. refl, λ h. refl)
str_eq_iff [] (b ∷ y) = (λ h. cc, λ h. cc)
str_eq_iff (a ∷ x) [] = (λ h. cc, λ h. cc)
str_eq_iff (a ∷ x) (b ∷ y) =
    let (f, g) = str_eq_iff x y in
    let (p, q) = ==_iff a b in (λ h. ground (arith, f, p), λ h. ground (arith, g, q))

-- `asprintf` with `%s` and `%d` conversions, the arguments given as text. The flag is set behind
-- a `%`.
format_from : Bool → Bytes → List Bytes → Bytes
format_from percent [] args = []
format_from false (c ∷ r) args =
    (if c == b'%' then [] else c ∷ []) ++ format_from (c == b'%') r args
format_from true (c ∷ r) [] = c ∷ format_from false r []
format_from true (c ∷ r) (a ∷ args) = elim (c == b's' || c == b'd') [
  | true ↦ a ++ format_from false r args
  | false ↦ c ∷ format_from false r (a ∷ args)
]

unfoldable pub format : Bytes → List Bytes → Bytes
unfolding format_from
format fmt args = format_from false fmt args

-- The C string at the front of a buffer; `none` if no NUL ends it.
unfoldable pub c_string : Bytes → Option Bytes
c_string [] = none
c_string (zero ∷ r) = some []
c_string (suc c ∷ r) = elim (c_string r) [ none ↦ none | some s ↦ some (suc c ∷ s) ]

-- `strchr(s, c) != NULL`
abbrev pub str_chr : ℕ → Bytes → Bool
str_chr c [] = false
str_chr c (d ∷ r) = c == d || str_chr c r

-- A C string stored with its NUL is read back, whatever follows it.
pub c_string-append : (s rest : Bytes) → str_chr 0 s ≡ false → c_string (s ++ (0 ∷ rest)) ≡ some s
unfolding c_string
c_string-append [] rest h = refl
c_string-append (zero ∷ s) rest h = cc
c_string-append (suc c ∷ s) rest h = rw (c_string-append s rest (ground arith))

abbrev pub has_prefix : Bytes → Bytes → Bool
has_prefix [] s = true
has_prefix (p ∷ ps) [] = false
has_prefix (p ∷ ps) (c ∷ s) = p == c && has_prefix ps s

-- `strstr(s, needle) != NULL`
abbrev pub str_str : Bytes → Bytes → Bool
str_str [] needle = has_prefix needle []
str_str (c ∷ s) needle = has_prefix needle (c ∷ s) || str_str s needle

-- What `strncpy(dst, src, size)` leaves in `dst`, up to its first NUL or its end.
abbrev pub strncpy : Bytes → ℕ → Bytes
strncpy src size = take size src

-- What `strlcpy(dst, src, size)` leaves in `dst`: at most `size - 1` bytes and a NUL.
unfoldable pub strlcpy : Bytes → ℕ → Bytes
strlcpy src size = take (size - 1) src

-- What `strlcat(dst, src, size)` leaves in `dst`: a `dst` that fills the buffer stays.
unfoldable pub strlcat : Bytes → Bytes → ℕ → Bytes
strlcat dst src size = if leb size (length dst) then dst else take (size - 1) (dst ++ src)

-- A buffer with room for the text takes all of it.
pub strlcpy_all : (s : Bytes) → strlcpy s (length s + 1) ≡ s
unfolding strlcpy
strlcpy_all s = take_all (length s + 1 - 1) s (omega arith)

-- In a buffer that `dst` fills but for the NUL, `strlcat` appends nothing.
pub strlcat_full : (dst src : Bytes) → strlcat dst src (length dst + 1) ≡ dst
unfolding strlcat
strlcat_full dst src = rw (take-append dst src (length dst + 1 - 1) (omega arith)) (ground arith)

-- What repeated calls of `strsep` with one separator return: the parts between the separators,
-- empty ones included.
add_first : ℕ → List Bytes → List Bytes
add_first c [] = (c ∷ []) ∷ []
add_first c (p ∷ ps) = (c ∷ p) ∷ ps

unfoldable pub strsep : ℕ → Bytes → List Bytes
unfolding add_first
strsep sep [] = [] ∷ []
strsep sep (c ∷ r) = let ps = strsep sep r in if c == sep then [] ∷ ps else add_first c ps

-- `isspace` in the C locale
abbrev is_space : ℕ → Bool
is_space c = c == 32 || (leb 9 c && leb c 13)

abbrev pub is_digit : ℕ → Bool
is_digit c = leb b'0' c && leb c b'9'

skip_space : Bytes → Bytes
skip_space [] = []
skip_space (c ∷ r) = let t = skip_space r in if is_space c then t else c ∷ r

-- The value of the digits in front, and what follows them.
unfoldable pub digits_from : ℕ → Bytes → ℕ × Bytes
digits_from n [] = (n, [])
digits_from n (c ∷ r) =
    let t = digits_from (n * 10 + (c - b'0')) r in if is_digit c then t else (n, c ∷ r)

abbrev starts_digit : Bytes → Bool
starts_digit [] = false
starts_digit (c ∷ r) = is_digit c

-- The sign, and what follows it.
abbrev sign_of : Bytes → Bool × Bytes
sign_of [] = (false, [])
sign_of (c ∷ r) = if c == b'-' then (true, r) else if c == b'+' then (false, r) else (false, c ∷ r)

-- A value out of range is clamped before the sign is applied.
abbrev to_ulong : Bool → ℕ → ℕ
to_ulong minus n = if leb (2 ^ 64) n then 2 ^ 64 - 1 else if minus then (2 ^ 64 - n) % 2 ^ 64 else n

-- `strtoul(s, &end, 10)`: the value, and the text at `end`.
unfoldable pub strtoul : Bytes → ℕ × Bytes
unfolding digits_from skip_space
strtoul s =
    let (minus, t) = sign_of (skip_space s) in
    let (n, rest) = digits_from 0 t in if starts_digit t then (to_ulong minus n, rest) else (0, s)

-- Text that starts with a digit is read from its first byte on.
pub strtoul_digits :
    (d : ℕ) (r : Bytes) (n : ℕ)
    → d < 10
    → n < 2 ^ 64
    → digits_from (0 * 10 + (b'0' + d - b'0')) r ≡ (n, [])
    → strtoul ((b'0' + d) ∷ r) ≡ (n, [])
unfolding strtoul skip_space
strtoul_digits d r n h small e =
    let not_space : is_space (b'0' + d) ≡ false = ground arith in
    let digit : is_digit (b'0' + d) ≡ true = ground arith in
    let not_minus : ((b'0' + d) == b'-') ≡ false = ground arith in
    let not_plus : ((b'0' + d) == b'+') ≡ false = ground arith in
    let in_range : leb (2 ^ 64) n ≡ false = ground arith in
    rw not_space (rw not_minus (rw not_plus (rw digit (rw e (rw in_range refl)))))
