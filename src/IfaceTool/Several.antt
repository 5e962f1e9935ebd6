-- ===== src/IfaceTool/Several.antt =====
-- Several options -a and -r: the word that the program collects, and the flags that iface_set_flags
-- writes for it.
use Prim.Native.Nat.{max, min}
use native.Mathlib.Decide.{dec_le}
use aquabsd_pkg_repo.Base.{
  ℕ, ◌^◌, ◌<◌, ◌≡◌, refl, ap, ◌∙◌, Bool, true, false, List, [], ◌∷◌, All, ◌==◌, if◌then◌else◌,
  bit_or, pos, arith,
}
use aquabsd_pkg_repo.Base.Bits.{
  bit, bit-lt, bit-zero, bit-pow, bit-bit_or, bit_or-lt, zero-bit_or, eq_of_bits, two-pow-lt,
}
use aquabsd_pkg_repo.Base.Words.{u32_of_int, u32_of_int-lt, int_of_u32}
use aquabsd_pkg_repo.Iface.{new_flags}
use aquabsd_pkg_repo.Iface.Flags.{bit-new_flags}
use aquabsd_pkg_repo.IfaceTool.FlagWord.{removals_collide}
use aquabsd_pkg_repo.IfaceTool.Options.{change, int_of_u32-change, bit-new_flags-change}

-- The word once flags at the places of a list have been added or removed.
abbrev pub word_of : Bool → ℕ → List ℕ → ℕ
word_of adds w [] = w
word_of adds w (j ∷ js) = word_of adds (bit_or w (u32_of_int (change adds j))) js

-- The flag at place `k` of the 16 that the kernel is given: each flag to be added is set, but of
-- those to be removed the one at the lowest place alone is cleared.
abbrev pub added : ℕ → List ℕ → ℕ → ℕ
added k [] old = old
added k (j ∷ js) old = added k js (if k == j then 1 else old)

abbrev pub lowest : ℕ → List ℕ → ℕ
lowest i [] = i
lowest i (j ∷ js) = lowest (min i j) js

max-added : (k x y : ℕ) (js : List ℕ) → x < 2 → y < 2 → max x (added k js y) ≡ added k js (max x y)
max-added k x y [] hx hy = refl
max-added k x y (j ∷ js) hx hy =
    max-added k x (if k == j then 1 else y) js hx (ground arith) ∙ ap (added k js) (ground arith)

bit_or_comm : (a b : ℕ) → a < 2 ^ 32 → b < 2 ^ 32 → bit_or a b ≡ bit_or b a
bit_or_comm a b ha hb =
    eq_of_bits 32 _ _ (bit_or-lt 32 a b ha hb) (bit_or-lt 32 b a hb ha)
      (λ k kw. omega (arith, bit-bit_or k a b, bit-bit_or k b a))

u32_of_int-add : (j : ℕ) → j < 16 → u32_of_int (change true j) ≡ 2 ^ j
u32_of_int-add j h = omega (arith, two-pow-lt j 16 h)

bit-word_of-added :
    (k w : ℕ) (js : List ℕ)
    → All (λ j. j < 16) js
    → bit k (word_of true w js) ≡ added k js (bit k w)
bit-word_of-added k w [] all = refl
bit-word_of-added k w (j ∷ js) (h, all) =
    bit-word_of-added k (bit_or w (u32_of_int (change true j))) js all
    ∙ ap (added k js) (
        bit-bit_or k w (u32_of_int (change true j))
        ∙ ap (λ b. max (bit k w) (bit k b)) (u32_of_int-add j h)
        ∙ ap (max (bit k w)) (bit-pow k j)
        ∙ ground (arith, bit-lt k w))

word_of-lt : (w : ℕ) (js : List ℕ) → w < 2 ^ 16 → All (λ j. j < 16) js → word_of true w js < 2 ^ 16
word_of-lt w [] h all = h
word_of-lt w (j ∷ js) h (small, all) =
    word_of-lt (bit_or w (u32_of_int (change true j))) js
      (rw (u32_of_int-add j small) (bit_or-lt 16 w (2 ^ j) h (two-pow-lt j 16 small))) all

-- What becomes of flags to be added.
pub bit-new_flags-added :
    (js : List ℕ) (k f : ℕ)
    → All (λ j. j < 16) js
    → k < 16
    → bit k (new_flags (int_of_u32 (word_of true 0 js)) f) ≡ added k js (bit k f)
bit-new_flags-added js k f all kw =
    let w = word_of true 0 js in
    let small : w < 2 ^ 16 = word_of-lt 0 js (omega arith) all in
    let same : int_of_u32 w ≡ pos w = ground arith in
    rw same (
      bit-new_flags (pos w) k f kw (omega arith)
      ∙ ap (max (bit k f)) (bit-word_of-added k 0 js all ∙ ap (added k js) (bit-zero k))
      ∙ max-added k (bit k f) 0 js (bit-lt k f) (omega arith)
      ∙ ap (added k js) (omega (arith, bit-lt k f)))

-- Of flags to be removed the word keeps the lowest.
collide :
    (i j : ℕ)
    → i < 16
    → j < 16
    → bit_or (u32_of_int (change false i)) (u32_of_int (change false j))
      ≡ u32_of_int (change false (min i j))
collide i j hi hj = elim (dec_le i j) [
  | yes le ↦
      removals_collide i j le (omega arith) ∙ ap (λ n. u32_of_int (change false n)) (omega arith)
  | no gt ↦
      swapped
      ∙ removals_collide j i (omega arith) (omega arith)
      ∙ ap (λ n. u32_of_int (change false n)) (omega arith)
]
  where
    swapped :
        bit_or (u32_of_int (change false i)) (u32_of_int (change false j))
        ≡ bit_or (u32_of_int (change false j)) (u32_of_int (change false i))
    swapped =
        bit_or_comm (u32_of_int (change false i)) (u32_of_int (change false j))
          (u32_of_int-lt (change false i)) (u32_of_int-lt (change false j))

lowest-lt : (i : ℕ) (js : List ℕ) → i < 16 → lowest i js < 16
lowest-lt i [] h = h
lowest-lt i (j ∷ js) h = lowest-lt (min i j) js (omega arith)

word_of-lowest :
    (i : ℕ) (js : List ℕ)
    → i < 16
    → All (λ j. j < 16) js
    → word_of false (u32_of_int (change false i)) js ≡ u32_of_int (change false (lowest i js))
word_of-lowest i [] h all = refl
word_of-lowest i (j ∷ js) h (small, all) =
    ap (λ w. word_of false w js) (collide i j h small)
    ∙ word_of-lowest (min i j) js (omega arith) all

-- What becomes of flags to be removed.
pub bit-new_flags-removed :
    (j : ℕ) (js : List ℕ) (k f : ℕ)
    → All (λ i. i < 16) (j ∷ js)
    → k < 16
    → bit k (new_flags (int_of_u32 (word_of false 0 (j ∷ js))) f)
      ≡ (if k == lowest j js then 0 else bit k f)
bit-new_flags-removed j js k f (small, all) kw =
    let low = lowest-lt j js small in
    rw (zero-bit_or, word_of-lowest j js small all, int_of_u32-change false (lowest j js) low)
      (bit-new_flags-change false (lowest j js) k f low kw)
