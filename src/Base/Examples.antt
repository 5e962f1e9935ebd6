-- ===== src/Base/Examples.antt =====
-- The library functions on concrete input.
use Prim.Native.Nat.{◌^◌, ◌-◌}
use mathlib.Core.Path.{◌≡◌, refl}
use mathlib.Core.List.{[], ◌∷◌}
use aquabsd_pkg_repo.Base.Bytes.{codes, format, strsep, strtoul, strlcat, strlcpy}
use aquabsd_pkg_repo.Base.Getopt.{opt, getopt}

getopt_words :
    getopt (codes "a:v") (codes "-va" ∷ codes "x" ∷ codes "-ay" ∷ codes "-z" ∷ codes "w" ∷ [])
    ≡ opt b'v' []
      ∷ opt b'a' (codes "x")
      ∷ opt b'a' (codes "y")
      ∷ opt b'?' (codes "illegal option -- z")
      ∷ []
unfolding getopt
getopt_words = refl

getopt_ends : getopt (codes "v") (codes "-v" ∷ codes "--" ∷ codes "-v" ∷ []) ≡ opt b'v' [] ∷ []
unfolding getopt
getopt_ends = refl

getopt_lacks :
    getopt (codes "i:") (codes "-i" ∷ []) ≡ opt b'?' (codes "option requires an argument -- i") ∷ []
unfolding getopt
getopt_lacks = refl

format_two :
    format (codes "sysctl(query %s): %s") (codes "NAME" ∷ codes "%s" ∷ [])
    ≡ codes "sysctl(query NAME): %s"
unfolding format
format_two = refl

strsep_parts : strsep b';' (codes "/boot;;/mods") ≡ codes "/boot" ∷ [] ∷ codes "/mods" ∷ []
unfolding strsep
strsep_parts = refl

strtoul_plain : strtoul (codes " 42x") ≡ (42, codes "x")
unfolding strtoul
strtoul_plain = refl

strtoul_minus : strtoul (codes "-1") ≡ (2 ^ 64 - 1, [])
unfolding strtoul
strtoul_minus = refl

strtoul_none : strtoul (codes "+ 1") ≡ (0, codes "+ 1")
unfolding strtoul
strtoul_none = refl

strlcat_room : strlcat (strlcpy (codes "/boot") 16) (codes "/x") 16 ≡ codes "/boot/x"
unfolding strlcat strlcpy
strlcat_room = refl
