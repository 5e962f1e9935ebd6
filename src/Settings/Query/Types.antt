-- ===== src/Settings/Query/Types.antt =====
-- The type that `__sysctl_fill` of libsettings.c gives a setting, against a table of the numbers and
-- formats that `sys/sysctl.h` and the kernel have for it.
use aquabsd_pkg_repo.Base.{
  ℕ, zero, suc, ◌≡◌, ◌≢◌, refl, ap, ◌∙◌, false, Bool-cases, some, List, [], ◌∷◌, ◌==◌,
  if◌then◌else◌, bit_and, All, map, inl, inr, get_elem?, arith, ==_self,
}
use aquabsd_pkg_repo.Base.Bytes.{Bytes, codes, str_eq, str_eq_iff}
use aquabsd_pkg_repo.Settings.{
  SettingType, opaque, node, string, int, uint, long, ulong, s8, s16, s32, s64, u8, u16, u32, u64,
  clockinfo, timeval, loadavg, vmtotal, input_id, pagesizes, efi_map_header, bios_smap_xattr,
  Sysctl,
}
use aquabsd_pkg_repo.Settings.Query.{opaque_type, type_of}

-- The first row with the number.
abbrev row_type : ℕ → List (ℕ × SettingType) → SettingType
row_type n [] = opaque
row_type n ((m, type) ∷ rest) = if n == m then type else row_type n rest

-- No number stands twice.
abbrev pub Distinct : List ℕ → Type 0
Distinct [] = Unit {0}
Distinct (n ∷ ns) = All (λ m. n ≢ m) ns × Distinct ns

abbrev numbers_of : List (ℕ × SettingType) → List ℕ
numbers_of rows = map (λ (row : ℕ × SettingType). row.0) rows

row_type-absent :
    (n : ℕ) (rows : List (ℕ × SettingType)) (i m : ℕ) (type : SettingType)
    → All (λ k. n ≢ k) (numbers_of rows)
    → get_elem? rows i ≡ some (m, type)
    → n ≢ m
row_type-absent n [] i m type h e = absurd (cc)
row_type-absent n ((k, t) ∷ rows) zero m type (d, h) e = λ same. d (same ∙ cc)
row_type-absent n ((k, t) ∷ rows) (suc i) m type (d, h) e = row_type-absent n rows i m type h e

-- In a table of distinct numbers, every row is found.
row_type-at :
    (rows : List (ℕ × SettingType)) (i m : ℕ) (type : SettingType)
    → Distinct (numbers_of rows)
    → get_elem? rows i ≡ some (m, type)
    → row_type m rows ≡ type
row_type-at [] i m type d e = absurd (cc)
row_type-at ((k, t) ∷ rows) zero m type (d, ds) e =
    let same : m ≡ k = cc in let kind : t ≡ type = cc in rw (same, ==_self k) kind
row_type-at ((k, t) ∷ rows) (suc i) m type (d, ds) e =
    let apart : k ≢ m = row_type-absent k rows i m type d e in
    let test : (m == k) ≡ false = ground arith in rw test (row_type-at rows i m type ds e)

-- The formats of the structures that have a type of their own.
abbrev pub formats : List Bytes
formats =
    codes "S,clockinfo"
    ∷ codes "S,timeval"
    ∷ codes "S,loadavg"
    ∷ codes "S,vmtotal"
    ∷ codes "S,input_id"
    ∷ codes "S,pagesizes"
    ∷ codes "S,efi_map_header"
    ∷ codes "S,bios_smap_xattr"
    ∷ []

-- The format that goes with a type.
abbrev pub IsFormat : SettingType → Bytes → Type 0
IsFormat opaque fmt = All (λ f. fmt ≢ f) formats
IsFormat clockinfo fmt = fmt ≡ codes "S,clockinfo"
IsFormat timeval fmt = fmt ≡ codes "S,timeval"
IsFormat loadavg fmt = fmt ≡ codes "S,loadavg"
IsFormat vmtotal fmt = fmt ≡ codes "S,vmtotal"
IsFormat input_id fmt = fmt ≡ codes "S,input_id"
IsFormat pagesizes fmt = fmt ≡ codes "S,pagesizes"
IsFormat efi_map_header fmt = fmt ≡ codes "S,efi_map_header"
IsFormat bios_smap_xattr fmt = fmt ≡ codes "S,bios_smap_xattr"
IsFormat node fmt = Unit {0}
IsFormat string fmt = Unit {0}
IsFormat int fmt = Unit {0}
IsFormat uint fmt = Unit {0}
IsFormat long fmt = Unit {0}
IsFormat ulong fmt = Unit {0}
IsFormat s8 fmt = Unit {0}
IsFormat s16 fmt = Unit {0}
IsFormat s32 fmt = Unit {0}
IsFormat s64 fmt = Unit {0}
IsFormat u8 fmt = Unit {0}
IsFormat u16 fmt = Unit {0}
IsFormat u32 fmt = Unit {0}
IsFormat u64 fmt = Unit {0}

differs : (a b : Bytes) → a ≢ b → str_eq a b ≡ false
differs a b d = elim (Bool-cases (str_eq a b)) [
  | inl same ↦ absurd (d ((str_eq_iff a b).0 same))
  | inr apart ↦ apart
]

opaque_type-opaque : (fmt : Bytes) → IsFormat opaque fmt → opaque_type fmt ≡ opaque
unfolding opaque_type
opaque_type-opaque fmt (a, (b, (c, (d, (e, (f, (g, (h, u)))))))) =
    rw
      (
        differs fmt _ a,
        differs fmt _ b,
        differs fmt _ c,
        differs fmt _ d,
        differs fmt _ e,
        differs fmt _ f,
        differs fmt _ g,
        differs fmt _ h,
      )
      refl

module _ (K : Sysctl) where
  -- The number of a type.
  abbrev pub number : SettingType → ℕ
  number opaque = K.ctltype_opaque
  number clockinfo = K.ctltype_opaque
  number timeval = K.ctltype_opaque
  number loadavg = K.ctltype_opaque
  number vmtotal = K.ctltype_opaque
  number input_id = K.ctltype_opaque
  number pagesizes = K.ctltype_opaque
  number efi_map_header = K.ctltype_opaque
  number bios_smap_xattr = K.ctltype_opaque
  number node = K.ctltype_node
  number string = K.ctltype_string
  number int = K.ctltype_int
  number uint = K.ctltype_uint
  number long = K.ctltype_long
  number ulong = K.ctltype_ulong
  number s8 = K.ctltype_s8
  number s16 = K.ctltype_s16
  number s32 = K.ctltype_s32
  number s64 = K.ctltype_s64
  number u8 = K.ctltype_u8
  number u16 = K.ctltype_u16
  number u32 = K.ctltype_u32
  number u64 = K.ctltype_u64

  abbrev pub all_numbers : List ℕ
  all_numbers = map number (
      opaque ∷ node ∷ string ∷ int ∷ uint ∷ long ∷ ulong ∷ s8 ∷ s16 ∷ s32 ∷ s64 ∷ u8 ∷ u16 ∷ u32
      ∷ u64 ∷ [])

  abbrev rows : SettingType → List (ℕ × SettingType)
  rows structure =
      (K.ctltype_opaque, structure)
      ∷ (K.ctltype_node, node)
      ∷ (K.ctltype_string, string)
      ∷ (K.ctltype_int, int)
      ∷ (K.ctltype_uint, uint)
      ∷ (K.ctltype_long, long)
      ∷ (K.ctltype_ulong, ulong)
      ∷ (K.ctltype_s8, s8)
      ∷ (K.ctltype_s16, s16)
      ∷ (K.ctltype_s32, s32)
      ∷ (K.ctltype_s64, s64)
      ∷ (K.ctltype_u8, u8)
      ∷ (K.ctltype_u16, u16)
      ∷ (K.ctltype_u32, u32)
      ∷ (K.ctltype_u64, u64)
      ∷ []

  type_of-row_type :
      (kind : ℕ) (fmt : Bytes)
      → type_of K kind fmt ≡ row_type (bit_and kind K.ctltype) (rows (opaque_type fmt))
  unfolding type_of
  type_of-row_type kind fmt = refl

  module _ (distinct : Distinct all_numbers) (kind : ℕ) (fmt : Bytes) where
    row_found :
        (i m : ℕ) (type : SettingType)
        → get_elem? (rows (opaque_type fmt)) i ≡ some (m, type)
        → bit_and kind K.ctltype ≡ m
        → type_of K kind fmt ≡ type
    row_found i m type at e =
        type_of-row_type kind fmt
        ∙ ap (λ n. row_type n (rows (opaque_type fmt))) e
        ∙ row_type-at (rows (opaque_type fmt)) i m type distinct at

    structure_found :
        (type : SettingType)
        → opaque_type fmt ≡ type
        → bit_and kind K.ctltype ≡ K.ctltype_opaque
        → type_of K kind fmt ≡ type
    structure_found type f e = row_found 0 K.ctltype_opaque (opaque_type fmt) refl e ∙ f

    -- Where the fifteen numbers of CTLTYPE are distinct: a kind with the number of a type, together
    -- with the format of that type, gives the setting that type, for each of the 23 types; the eight
    -- structures share the number of opaque and have formats of their own, a setting of that number
    -- with any other format is opaque, and the format of no other type matters.
    pub type_of-number :
        (type : SettingType)
        → bit_and kind K.ctltype ≡ number type
        → IsFormat type fmt
        → type_of K kind fmt ≡ type
    unfolding opaque_type
    type_of-number opaque e f = structure_found opaque (opaque_type-opaque fmt f) e
    type_of-number clockinfo e f = structure_found clockinfo (ap opaque_type f) e
    type_of-number timeval e f = structure_found timeval (ap opaque_type f) e
    type_of-number loadavg e f = structure_found loadavg (ap opaque_type f) e
    type_of-number vmtotal e f = structure_found vmtotal (ap opaque_type f) e
    type_of-number input_id e f = structure_found input_id (ap opaque_type f) e
    type_of-number pagesizes e f = structure_found pagesizes (ap opaque_type f) e
    type_of-number efi_map_header e f = structure_found efi_map_header (ap opaque_type f) e
    type_of-number bios_smap_xattr e f = structure_found bios_smap_xattr (ap opaque_type f) e
    type_of-number node e f = row_found 1 (number node) node refl e
    type_of-number string e f = row_found 2 (number string) string refl e
    type_of-number int e f = row_found 3 (number int) int refl e
    type_of-number uint e f = row_found 4 (number uint) uint refl e
    type_of-number long e f = row_found 5 (number long) long refl e
    type_of-number ulong e f = row_found 6 (number ulong) ulong refl e
    type_of-number s8 e f = row_found 7 (number s8) s8 refl e
    type_of-number s16 e f = row_found 8 (number s16) s16 refl e
    type_of-number s32 e f = row_found 9 (number s32) s32 refl e
    type_of-number s64 e f = row_found 10 (number s64) s64 refl e
    type_of-number u8 e f = row_found 11 (number u8) u8 refl e
    type_of-number u16 e f = row_found 12 (number u16) u16 refl e
    type_of-number u32 e f = row_found 13 (number u32) u32 refl e
    type_of-number u64 e f = row_found 14 (number u64) u64 refl e
