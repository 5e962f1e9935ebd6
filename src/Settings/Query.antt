-- ===== src/Settings/Query.antt =====
-- `__query_sysctl` and `__sysctl_fill` of libsettings.c.
pub mod Types
use aquabsd_pkg_repo.Base.{
  ℕ, ◌+◌, ◌*◌, Option, none, some, List, [], ◌∷◌, ◌==◌, not, bit_and, length, ltb, if◌then◌else◌,
}
use aquabsd_pkg_repo.Base.Bytes.{Bytes, codes, str_eq, c_string}
use aquabsd_pkg_repo.Base.Prog.{Prog, ◌>>=◌, ◌>>◌, pure, undefined}
use aquabsd_pkg_repo.Settings.{
  ok, failed, Privilege, boot, kern, code_of, SettingType, opaque, node, string, int, uint, long,
  ulong, s8, s16, s32, s64, u8, u16, u32, u64, clockinfo, timeval, loadavg, vmtotal, input_id,
  pagesizes, efi_map_header, bios_smap_xattr, Setting, Sysctl, Process, duplicate, emit_error,
}

-- `oid_len` of an array of `int`
abbrev pub bytes_of : List ℕ → ℕ
bytes_of oid = 4 * length oid

-- The `uint32_t` at the front of a buffer, and the text behind it, up to its NUL; `none` where the
-- buffer has not been filled that far.
unfoldable pub kind_of : Bytes → Option (ℕ × Bytes)
kind_of [] = none
kind_of (a ∷ []) = none
kind_of (a ∷ b ∷ []) = none
kind_of (a ∷ b ∷ c ∷ []) = none
kind_of (a ∷ b ∷ c ∷ d ∷ r) = elim (c_string r) [
  | none ↦ none
  | some fmt ↦ some (a + 256 * (b + 256 * (c + 256 * d)), fmt)
]

-- The types behind `CTLTYPE_OPAQUE`, by their format.
unfoldable pub opaque_type : Bytes → SettingType
opaque_type fmt =
    if str_eq fmt (codes "S,clockinfo")
    then clockinfo
    else if str_eq fmt (codes "S,timeval")
    then timeval
    else if str_eq fmt (codes "S,loadavg")
    then loadavg
    else if str_eq fmt (codes "S,vmtotal")
    then vmtotal
    else if str_eq fmt (codes "S,input_id")
    then input_id
    else if str_eq fmt (codes "S,pagesizes")
    then pagesizes
    else if str_eq fmt (codes "S,efi_map_header")
    then efi_map_header
    else if str_eq fmt (codes "S,bios_smap_xattr")
    then bios_smap_xattr
    else opaque

module _ (K : Sysctl) where
  unfoldable pub query_name : ℕ → Bytes
  query_name query =
      if query == K.ctl_sysctl_oiddescr
      then codes "CTL_SYSCTL_OIDDESCR"
      else if query == K.ctl_sysctl_oidfmt
      then codes "CTL_SYSCTL_OIDFMT"
      else if query == K.ctl_sysctl_name
      then codes "CTL_SYSCTL_NAME"
      else codes "UNKNOWN"

  -- `__query_sysctl`, with a buffer of `BUFSIZ` bytes; `none` is -1.
  unfoldable pub query_sysctl : ℕ → List ℕ → Prog Process (Option Bytes)
  unfolding query_name
  query_sysctl query oid = elim (K.sysctl (K.ctl_sysctl ∷ query ∷ oid) K.bufsiz) [
    | ok value ↦ pure (some value)
    | failed errno ↦ do
      emit_error (codes "sysctl(query %s): %s") (some (query_name query)) (some (K.strerror errno))
      pure none
  ]

  -- The end of `__sysctl_fill`: `setting_t.type`.
  unfoldable pub type_of : ℕ → Bytes → SettingType
  unfolding opaque_type
  type_of kind fmt =
      let type = bit_and kind K.ctltype in
      if type == K.ctltype_opaque
      then opaque_type fmt
      else if type == K.ctltype_node
      then node
      else if type == K.ctltype_string
      then string
      else if type == K.ctltype_int
      then int
      else if type == K.ctltype_uint
      then uint
      else if type == K.ctltype_long
      then long
      else if type == K.ctltype_ulong
      then ulong
      else if type == K.ctltype_s8
      then s8
      else if type == K.ctltype_s16
      then s16
      else if type == K.ctltype_s32
      then s32
      else if type == K.ctltype_s64
      then s64
      else if type == K.ctltype_u8
      then u8
      else if type == K.ctltype_u16
      then u16
      else if type == K.ctltype_u32
      then u32
      else if type == K.ctltype_u64
      then u64
      else opaque

  unfoldable pub privilege_of : ℕ → Privilege
  privilege_of kind = if not (bit_and kind K.ctlflag_tun == 0) then boot else kern

  -- From the test of the privilege on. The copy reads `oid_len * sizeof(int)` bytes of an array of
  -- `CTL_MAXNAME` numbers.
  unfoldable pub fill : Setting → List ℕ → Privilege → ℕ → Bytes → Prog Process Setting
  unfolding type_of privilege_of
  fill setting oid privilege kind fmt =
      let seen = record setting { privilege = privilege_of kind } in
      if not (code_of (privilege_of kind) == code_of privilege)
      then pure seen
      else if ltb (4 * K.ctl_maxname) (4 * bytes_of oid)
      then undefined
      else do
        copy ← duplicate oid
        pure (record seen {
          writeable = not (bit_and kind K.ctlflag_wr == 0);
          oid_len = bytes_of oid;
          oid = some copy;
          kind = type_of kind fmt;
        })

  -- `__sysctl_fill`; `none` is -1.
  unfoldable pub sysctl_fill : Setting → List ℕ → Privilege → Prog Process (Option Setting)
  unfolding query_sysctl kind_of fill
  sysctl_fill setting oid privilege = do
    format ← query_sysctl K.ctl_sysctl_oidfmt oid
    elim format [
      | none ↦ pure none
      | some buf ↦ elim (kind_of buf) [
        | none ↦ undefined
        | some (kind, fmt) ↦ do filled ← fill setting oid privilege kind fmt; pure (some filled)
      ]
    ]
