-- ===== src/Settings/Search.antt =====
-- `__search_sysctl` and `settings_search` of libsettings.c.
pub mod Found
use aquabsd_pkg_repo.Base.{ℕ, ◌*◌, Option, none, some, List, [], ◌∷◌, ℤ}
use aquabsd_pkg_repo.Base.Bytes.{Bytes, codes}
use aquabsd_pkg_repo.Base.Prog.{Prog, ◌>>=◌, ◌>>◌, pure}
use aquabsd_pkg_repo.Settings.{
  Reply, ok, failed, Privilege, boot, kern, user, aqua, other, Owned, Setting, blank, Sysctl,
  Process, malloc, free, duplicate, emit_error,
}
use aquabsd_pkg_repo.Settings.Query.{sysctl_fill}

module _ (K : Sysctl) where
  -- The setting that `__search_sysctl` makes for an OID.
  unfoldable pub found : Bytes → Privilege → List ℕ → Prog Process (Option Setting)
  found key privilege mib = do
    self ← malloc
    copy ← duplicate key
    filled ← sysctl_fill K (record (blank self) { key = some copy }) mib privilege
    elim filled [ none ↦ do free self; pure none | some setting ↦ pure (some setting) ]

  -- `__search_sysctl`; `none` is NULL.
  unfoldable pub search_sysctl : Bytes → Privilege → Prog Process (Option Setting)
  unfolding found
  search_sysctl key privilege =
      elim (K.sysctl_ints (K.ctl_sysctl ∷ K.ctl_sysctl_name2oid ∷ []) key (4 * K.ctl_maxname)) [
        | failed errno ↦ do
          emit_error (codes "sysctl(NAME2OID): %s") (some (K.strerror errno)) none
          pure none
        | ok mib ↦ found key privilege mib
      ]

  -- `settings_search`; the user is not looked at.
  unfoldable pub settings_search : Bytes → Privilege → ℤ → Prog Process (Option Setting)
  unfolding search_sysctl
  settings_search key boot uid = search_sysctl key boot
  settings_search key kern uid = search_sysctl key kern
  settings_search key user uid = do
    emit_error (codes "settings_list: Unimplemented privilege level (SETTINGS_PRIVILEGE_USER)") none
        none
    pure none
  settings_search key aqua uid = do
    emit_error (codes "settings_list: Unimplemented privilege level (SETTINGS_PRIVILEGE_AQUA)") none
        none
    pure none
  settings_search key (other n) uid = do
    emit_error (codes "settings_list: Unknown privilege level") none none
    pure none
