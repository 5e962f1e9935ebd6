-- ===== src/Settings/Access.antt =====
-- The operations of libsettings.c on one setting.
pub mod Read
use aquabsd_pkg_repo.Base.{
  ℕ, zero, suc, ◌+◌, Bool, true, false, Option, none, some, List, [], ◌∷◌, ◌++◌, ℤ, pos, negsuc,
  length,
}
use aquabsd_pkg_repo.Base.Bytes.{Bytes, c_string}
use aquabsd_pkg_repo.Base.Prog.{Prog, ◌>>=◌, ◌>>◌, pure, undefined}
use aquabsd_pkg_repo.Settings.{
  Reply, ok, failed, Privilege, Priority, SettingType, Owned, Setting, Sysctl, Process, malloc,
  free, free_owned, duplicate,
}
use aquabsd_pkg_repo.Settings.Query.{query_sysctl}

-- `setting->oid`, as far as `setting->oid_len` goes. A setting without an OID has length 0.
unfoldable pub oid_of : Setting → List ℕ
oid_of setting = elim setting.oid [ none ↦ [] | some p ↦ p.value ]

module _ (K : Sysctl) where
  -- `setting_read_descr`; `none` is -1.
  unfoldable pub setting_read_descr : Setting → Prog Process (Option Setting)
  unfolding oid_of
  setting_read_descr setting = do
    value ← query_sysctl K K.ctl_sysctl_oiddescr (oid_of setting)
    elim value [
      | none ↦ pure none
      | some buf ↦ elim (c_string buf) [
        | none ↦ undefined
        | some text ↦ do descr ← duplicate text; pure (some (record setting { descr = some descr }))
      ]
    ]

  -- The second call of `sysctl` in `setting_read`.
  unfoldable pub read_contents : Setting → ℕ → Prog Process Setting
  unfolding oid_of
  read_contents setting len = do
    block ← malloc
    elim (K.sysctl (oid_of setting) len) [
      | failed errno ↦ do free block; pure (record setting { len = len; contents = none })
      | ok value ↦ pure (record setting {
        len = length value;
        contents = some (record { block = block; value = value });
      })
    ]

  -- `setting_read`: its value, and the setting as it leaves it.
  unfoldable pub setting_read : Setting → Prog Process (ℤ × Setting)
  unfolding oid_of read_contents
  setting_read setting = elim (K.sysctl_size (oid_of setting)) [
    | failed errno ↦ pure (pos 0, record setting { len = 0 })
    | ok len ↦ do read ← read_contents setting len; pure (pos 0, read)
  ]

unfoldable pub setting_write : Setting → Bytes → ℕ → Priority → Prog Process ℤ
setting_write setting contents len priority = pure (negsuc 0)

unfoldable pub setting_create : Bytes → Privilege → SettingType → Priority → Prog Process ℤ
setting_create key privilege type priority = pure (negsuc 0)

unfoldable pub setting_remove : Setting → Priority → Prog Process ℤ
setting_remove setting priority = pure (negsuc 0)

-- `setting_free`; the argument NULL is `none`.
unfoldable pub setting_free : Option Setting → Prog Process ℤ
setting_free none = pure (negsuc 0)
setting_free (some setting) = do
  free_owned setting.key
  free_owned setting.descr
  free_owned setting.contents
  free_owned setting.oid
  pure (pos 0)
