-- ===== src/Base/Getopt.antt =====
-- `getopt` of the C library: the options that its successive calls return, up to the -1, and what it
-- prints on the error stream where it returns a question mark.
use Prim.Native.Nat.{ℕ}
use mathlib.Core.Bool.{Bool, true}
use mathlib.Core.Option.{Option, none, some}
use mathlib.Core.List.{List, [], ◌∷◌, ◌++◌}
use aquabsd_pkg_repo.Base.Tests.{◌==◌, if◌then◌else◌}
use aquabsd_pkg_repo.Base.Bytes.{Bytes, codes, str_eq}

-- A returned character with `optarg`, which is empty for an option without an argument. With a
-- question mark comes the message that `getopt` has printed, without the program's name.
pub record Opt : Type 0 where
  pub c : ℕ
  pub optarg : Bytes

abbrev pub opt : ℕ → Bytes → Opt
opt c arg = record { c = c; optarg = arg }

abbrev pub illegal : ℕ → Bytes
illegal c = codes "illegal option -- " ++ (c ∷ [])

abbrev pub lacking : ℕ → Bytes
lacking c = codes "option requires an argument -- " ++ (c ∷ [])

pub data Kind : Type 0 where
  unknown flag with_argument : Kind

abbrev colon_next : Bytes → Kind
colon_next [] = flag
colon_next (d ∷ r) = if d == b':' then with_argument else flag

-- How the string of option characters declares `c`.
kind : Bytes → ℕ → Kind
kind [] c = unknown
kind (d ∷ r) c =
    let later = kind r c in if c == b':' then unknown else if d == c then colon_next r else later

-- The options in one cluster, and the one that waits for the next word as its argument.
cluster : Bytes → Bytes → List Opt × Option ℕ
cluster spec [] = ([], none)
cluster spec (c ∷ r) =
    let (os, waiting) = cluster spec r in
    elim (kind spec c) [
      | unknown ↦ (opt b'?' (illegal c) ∷ os, waiting)
      | flag ↦ (opt c [] ∷ os, waiting)
      | with_argument ↦ elim r [ [] ↦ ([], some c) | d ∷ t ↦ (opt c (d ∷ t) ∷ [], none) ]
    ]

-- A word that is no cluster ends the options: one without a dash in front, `-` and `--`.
abbrev ends_options : Bytes → Bool
ends_options [] = true
ends_options (d ∷ []) = true
ends_options (d ∷ e ∷ r) = if d == b'-' then str_eq (e ∷ r) (codes "-") else true

abbrev tail : Bytes → Bytes
tail [] = []
tail (c ∷ r) = r

walk : Bytes → Option ℕ → List Bytes → List Opt
walk spec (some c) [] = opt b'?' (lacking c) ∷ []
walk spec (some c) (arg ∷ rest) = opt c arg ∷ walk spec none rest
walk spec none [] = []
walk spec none (arg ∷ rest) =
    let (os, waiting) = cluster spec (tail arg) in
    let more = walk spec waiting rest in if ends_options arg then [] else os ++ more

unfoldable pub getopt : Bytes → List Bytes → List Opt
unfolding walk cluster kind
getopt spec args = walk spec none args
