-- ===== src/IfaceTool/Options.antt =====
-- The flags that the program adds and removes for given options.
use native.Mathlib.Nat.{one-le-pow}
use aquabsd_pkg_repo.Base.{
  ℕ, zero, suc, ◌^◌, ◌<◌, ◌≡◌, ◌∙◌, Bool, true, false, some, arith, if◌then◌else◌, ◌==◌, ℤ, pos,
  negsuc, bit_or,
}
use aquabsd_pkg_repo.Base.Bits.{bit, bit-lt, bit-pow, zero-bit_or, two-pow-lt}
use aquabsd_pkg_repo.Base.Bytes.{Bytes}
use aquabsd_pkg_repo.Base.Words.{u32_of_int, int_of_u32, int_of_u32-pos, int_of_u32-negsuc}
use aquabsd_pkg_repo.Base.Prog.{done, ◌>>=◌}
use aquabsd_pkg_repo.Iface.{Net, Process, new_flags}
use aquabsd_pkg_repo.Iface.Flags.{bit-new_flags}
use aquabsd_pkg_repo.IfaceTool.{Opts, negate, first_char, flag_of, signed, set_flag}
use aquabsd_pkg_repo.IfaceTool.FlagWord.{removals_collide}

-- The flag at place `i`, to be added or removed.
abbrev pub change : Bool → ℕ → ℤ
change adds i = if adds then pos (2 ^ i) else negate (2 ^ i)

pub int_of_u32-change :
    (adds : Bool) (i : ℕ) → i < 16 → int_of_u32 (u32_of_int (change adds i)) ≡ change adds i
int_of_u32-change true i h = int_of_u32-pos (2 ^ i) (omega (arith, two-pow-lt i 31 (omega arith)))
int_of_u32-change false i h =
    of_negate (2 ^ i) (one-le-pow i 2 (omega arith)) (two-pow-lt i 31 (omega arith))
  where
    of_negate : (n : ℕ) → 0 < n → n < 2 ^ 31 → int_of_u32 (u32_of_int (negate n)) ≡ negate n
    of_negate zero p q = elim p [ ]
    of_negate (suc n) p q = int_of_u32-negsuc n (omega arith)

-- One flag is added or removed, and no other changes.
pub bit-new_flags-change :
    (adds : Bool) (i k f : ℕ)
    → i < 16
    → k < 16
    → bit k (new_flags (change adds i) f) ≡ (if k == i then (if adds then 1 else 0) else bit k f)
bit-new_flags-change true i k f h kw =
    bit-new_flags (pos (2 ^ i)) k f kw (two-pow-lt i 31 (omega arith))
    ∙ ground (arith, bit-pow k i, bit-lt k f)
bit-new_flags-change false i k f h kw =
    of_negate (2 ^ i) (one-le-pow i 2 (omega arith)) (two-pow-lt i 31 (omega arith)) (bit-pow k i)
  where
    of_negate :
        (n : ℕ)
        → 0 < n
        → n < 2 ^ 31
        → bit k n ≡ (if k == i then 1 else 0)
        → bit k (new_flags (negate n) f) ≡ (if k == i then 0 else bit k f)
    of_negate zero p q e = elim p [ ]
    of_negate (suc n) p q e = bit-new_flags (negsuc n) k f kw q ∙ ground (arith, bit-lt k f)

-- The same for the word that the first option collects.
pub bit-first_word :
    (adds : Bool) (i k f : ℕ) (v : ℤ)
    → v ≡ change adds i
    → i < 16
    → k < 16
    → bit k (new_flags (int_of_u32 (bit_or 0 (u32_of_int v))) f)
      ≡ (if k == i then (if adds then 1 else 0) else bit k f)
bit-first_word adds i k f v e h kw =
    rw (e, zero-bit_or, int_of_u32-change adds i h) (bit-new_flags-change adds i k f h kw)

module _ (N : Net) where
  pub set_flag_run :
      (minus : Bool) (text : Bytes) (v : ℤ) (opts : Opts) (s : Process N)
      → flag_of N (first_char text) ≡ some v
      → set_flag N minus text opts s
        ≡ done (record opts { flag = bit_or opts.flag (u32_of_int (signed N minus v)) }) s
  unfolding set_flag
  set_flag_run minus text v opts s e = rw (e, set_flag)

  -- With no flag collected so far, an option whose letter stands for adding or removing the flag
  -- at a place below 16 collects a word with which iface_set_flags writes that flag as asked and
  -- every other of the 16 as it was.
  pub set_flag_one :
      (minus adds : Bool) (text : Bytes) (v : ℤ) (i k f : ℕ) (opts : Opts) (s : Process N)
      → flag_of N (first_char text) ≡ some v
      → signed N minus v ≡ change adds i
      → i < 16
      → k < 16
      → opts.flag ≡ 0
      → (opts' : Opts) × (set_flag N minus text opts s ≡ done opts' s)
        × (bit k (new_flags (int_of_u32 opts'.flag) f)
            ≡ (if k == i then (if adds then 1 else 0) else bit k f))
  set_flag_one minus adds text v i k f opts s e signed_v h kw fresh = (
    record opts { flag = bit_or opts.flag (u32_of_int (signed N minus v)) },
    set_flag_run minus text v opts s e,
    rw fresh (bit-first_word adds i k f (signed N minus v) signed_v h kw),
  )

  -- With no flag collected so far, two options that remove the flags at two places below 16
  -- collect a word with which iface_set_flags removes the flag at the lower place alone: every
  -- other of the 16 is written as it was, the second flag to be removed included.
  pub set_flag_two_removals :
      (minus minus' : Bool) (text text' : Bytes) (v v' : ℤ) (i j k f : ℕ) (opts : Opts)
      (s : Process N)
      → flag_of N (first_char text) ≡ some v
      → flag_of N (first_char text') ≡ some v'
      → signed N minus v ≡ negate (2 ^ i)
      → signed N minus' v' ≡ negate (2 ^ j)
      → i < j
      → j < 16
      → k < 16
      → opts.flag ≡ 0
      → (opts' : Opts) × ((set_flag N minus text opts >>= set_flag N minus' text') s ≡ done opts' s)
        × (bit k (new_flags (int_of_u32 opts'.flag) f) ≡ (if k == i then 0 else bit k f))
  set_flag_two_removals minus minus' text text' v v' i j k f opts s e e' sv sv' h jw kw fresh = (
    record opts {
      flag =
          bit_or (bit_or opts.flag (u32_of_int (signed N minus v)))
            (u32_of_int (signed N minus' v'));
    },
    rw (set_flag_run minus text v opts s e, ◌>>=◌) (set_flag_run minus' text' v' _ s e'),
    rw
        (
          fresh,
          sv,
          sv',
          zero-bit_or,
          removals_collide i j (omega arith) (omega arith),
          int_of_u32-change false i (omega arith),
        )
        (bit-new_flags-change false i k f (omega arith) kw),
  )
