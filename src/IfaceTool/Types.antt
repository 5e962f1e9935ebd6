-- ===== src/IfaceTool/Types.antt =====
-- The options of the program, and the functions that `main` chooses from.
use aquabsd_pkg_repo.Base.{ℕ, zero, suc, Option, none, some, [], ◌∷◌, ℤ, pos, negsuc}
use aquabsd_pkg_repo.Base.Bytes.{Bytes, codes}
use aquabsd_pkg_repo.Iface.{Ifaces}

-- The function that `main` calls in the end.
pub data Action : Type 0 where
  do_stat do_set_flag : Action

-- `opts_t`, with the variables `action` and `name` of `main`. The chosen interface is a place of
-- the array.
pub record Opts : Type 0 where
  pub action : Action
  pub name : Option Bytes
  pub flag : ℕ
  pub ifaces : Ifaces
  pub iface : Option ℕ

abbrev pub defaults : Opts
defaults = record {
  action = do_stat;
  name = none;
  flag = 0;
  ifaces = record { block = 0; elems = [] };
  iface = none;
}

-- `-n`, for a flag `n`
abbrev pub negate : ℕ → ℤ
negate zero = pos 0
negate (suc n) = negsuc n

abbrev pub opposite : ℤ → ℤ
opposite (pos n) = negate n
opposite (negsuc n) = pos (suc n)

-- `*s`
abbrev pub first_char : Bytes → ℕ
first_char [] = 0
first_char (c ∷ r) = c

-- `%s` of a pointer that may be NULL
abbrev pub text_of : Option Bytes → Bytes
text_of none = codes "(null)"
text_of (some s) = s
