-- ===== src/SettingsTool/Types.antt =====
-- The options of the program, and the functions that `main` chooses from.
use aquabsd_pkg_repo.Base.{Bool, false, Option, none, ℤ, negsuc}
use aquabsd_pkg_repo.Base.Bytes.{Bytes}
use aquabsd_pkg_repo.Settings.{Privilege, aqua}

pub data Action : Type 0 where
  do_list do_read : Action

-- `opts_t`, with the variable `action` of `main`.
pub record Opts : Type 0 where
  pub action : Action
  pub verbose : Bool
  pub binary : Bool
  pub read : Option Bytes
  pub privilege : Privilege
  pub uid : ℤ

abbrev pub defaults : Opts
defaults = record {
  action = do_list;
  verbose = false;
  binary = false;
  read = none;
  privilege = aqua;
  uid = negsuc 0;
}
