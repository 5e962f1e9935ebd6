-- ===== src/Settings.antt =====
-- libsettings (packages/aquabsd.alps/libsettings/src/libsettings.c and libsettings-dev/src/settings.h)
-- for amd64: its types, its heap blocks and its error text. `sysctl` is a service of a record, for
-- a kernel whose settings stay as they are while the program runs; the constants of
-- `sys/sysctl.h` are fields of the same record. Allocation always succeeds.
pub mod Query
pub mod Heap
pub mod Errors
pub mod Fill
pub mod Blocks
pub mod Ownership
pub mod Listing
pub mod Search
pub mod Access
pub mod Tests
pub use aquabsd_pkg_repo.Base.Prog.{Reply, ok, failed, Reply-cases}
use aquabsd_pkg_repo.Base.{
  ℕ, suc, ◌+◌, Bool, true, false, Option, none, some, List, [], ◌∷◌, ◌++◌, ◌==◌, if◌then◌else◌,
}
use aquabsd_pkg_repo.Base.Bytes.{Bytes, format}
use aquabsd_pkg_repo.Base.Prog.{Prog, done, fault, ◌>>=◌, ◌>>◌, pure, modify}

-- `settings_privilege_t`; `other n` is the value `n + 4`, which the enumeration does not name.
pub data Privilege : Type 0 where
  boot kern user aqua : Privilege
  other : ℕ → Privilege

abbrev pub code_of : Privilege → ℕ
code_of boot = 0
code_of kern = 1
code_of user = 2
code_of aqua = 3
code_of (other n) = 4 + n

-- `settings_priority_t`
pub data Priority : Type 0 where
  never sometime asap immediate : Priority

-- `settings_type_t`
pub data SettingType : Type 0 where
  opaque node string : SettingType
  int uint long ulong : SettingType
  s8 s16 s32 s64 u8 u16 u32 u64 : SettingType
  clockinfo timeval loadavg vmtotal input_id pagesizes : SettingType
  efi_map_header bios_smap_xattr : SettingType

-- A pointer to a block of the heap, with what the block holds.
pub record Owned (A : Type 0) : Type 0 where
  pub block : ℕ
  pub value : A

-- `setting_t`, with the block that it lies in. `oid_len` counts bytes, and `oid` is the part of the
-- array that is ever read.
pub record Setting : Type 0 where
  pub self : ℕ
  pub key : Option (Owned Bytes)
  pub descr : Option (Owned Bytes)
  pub len : ℕ
  pub contents : Option (Owned Bytes)
  pub privilege : Privilege
  pub kind : SettingType
  pub writeable : Bool
  pub oid_len : ℕ
  pub oid : Option (Owned (List ℕ))

-- What `calloc` gives.
abbrev pub blank : ℕ → Setting
blank self = record {
  self = self;
  key = none;
  descr = none;
  len = 0;
  contents = none;
  privilege = boot;
  kind = opaque;
  writeable = false;
  oid_len = 0;
  oid = none;
}

-- What the library calls and does not implement.
pub record Sysctl : Type 0 where
  -- a name, a new value, and the size of the buffer: the value, for an array of `int` and for bytes
  pub sysctl_ints : List ℕ → Bytes → ℕ → Reply (List ℕ)
  pub sysctl : List ℕ → ℕ → Reply Bytes
  -- the call without a buffer
  pub sysctl_size : List ℕ → Reply ℕ
  pub strerror : ℕ → Bytes
  pub enoent : ℕ
  pub bufsiz : ℕ
  pub ctl_maxname : ℕ
  pub ctl_sysctl : ℕ
  pub ctl_kern : ℕ
  pub ctl_sysctl_name : ℕ
  pub ctl_sysctl_nextnoskip : ℕ
  pub ctl_sysctl_name2oid : ℕ
  pub ctl_sysctl_oidfmt : ℕ
  pub ctl_sysctl_oiddescr : ℕ
  pub ctlflag_tun : ℕ
  pub ctlflag_wr : ℕ
  pub ctltype : ℕ
  pub ctltype_opaque : ℕ
  pub ctltype_node : ℕ
  pub ctltype_string : ℕ
  pub ctltype_int : ℕ
  pub ctltype_uint : ℕ
  pub ctltype_long : ℕ
  pub ctltype_ulong : ℕ
  pub ctltype_s8 : ℕ
  pub ctltype_s16 : ℕ
  pub ctltype_s32 : ℕ
  pub ctltype_s64 : ℕ
  pub ctltype_u8 : ℕ
  pub ctltype_u16 : ℕ
  pub ctltype_u32 : ℕ
  pub ctltype_u64 : ℕ

-- `error_str`, the blocks of the heap that are allocated with the number of the next one, and what
-- the process has printed.
pub record Process : Type 0 where
  pub error_str : Option (Owned Bytes)
  pub next : ℕ
  pub live : List ℕ
  pub stdout : List Bytes
  pub stderr : List Bytes

-- A fresh block.
unfoldable pub malloc : Prog Process ℕ
malloc s = done s.next (record s { next = suc s.next; live = s.next ∷ s.live })

unfoldable pub release : ℕ → List ℕ → Option (List ℕ)
release block [] = none
release block (b ∷ r) =
    let rest = release block r in
    if b == block then some r else elim rest [ none ↦ none | some t ↦ some (b ∷ t) ]

-- `free` of a pointer that is not NULL: undefined unless its block is allocated.
unfoldable pub free : ℕ → Prog Process (Unit {0})
unfolding release
free block s = elim (release block s.live) [
  | none ↦ fault
  | some rest ↦ done tt (record s { live = rest })
]

-- `if (p) { free(p); }`
unfoldable pub free_owned : {A : Type 0} → Option (Owned A) → Prog Process (Unit {0})
unfolding free
free_owned none = pure tt
free_owned (some p) = free p.block

-- `strdup`, and `malloc` with the `memcpy` that fills the block
unfoldable pub duplicate : {A : Type 0} → A → Prog Process (Owned A)
unfolding malloc
duplicate value = do block ← malloc; pure (record { block = block; value = value })

-- `settings_error_str`
unfoldable pub settings_error_str : Process → Option Bytes
settings_error_str s = elim s.error_str [ none ↦ none | some text ↦ some text.value ]

-- The text that `__emit_error` makes of its arguments, where NULL is `none`.
unfoldable pub message : Bytes → Option Bytes → Option Bytes → Bytes
message fmt none secondary = fmt
message fmt (some a) none = format fmt (a ∷ [])
message fmt (some a) (some b) = format fmt (a ∷ b ∷ [])

-- `__emit_error`, which always returns -1.
unfoldable pub emit_error : Bytes → Option Bytes → Option Bytes → Prog Process (Unit {0})
unfolding free_owned duplicate message
emit_error fmt primary secondary = do
  (λ s. free_owned s.error_str s)
  text ← duplicate (message fmt primary secondary)
  modify λ s. record s { error_str = some text }
