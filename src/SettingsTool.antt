-- ===== src/SettingsTool.antt =====
-- The command-line program settings (packages/aquabsd.alps/settings/src/settings.c) over
-- libsettings. `errx` is modelled by the formatted message and the exit status, without the
-- program's name that it adds. The fuel bounds the rounds of `settings_list`.
pub mod Showing
pub mod Order
pub mod Reading
pub mod Refused
pub mod Parsing
pub mod Ending
pub mod Failing
pub mod Keys
pub mod Tests
pub mod Types
pub mod Verbose
pub mod Whole
pub use aquabsd_pkg_repo.SettingsTool.Types.{Action, do_list, do_read, Opts, defaults}
use aquabsd_pkg_repo.Base.{
  ℕ, zero, suc, ◌+◌, Bool, true, false, not, ◌&&◌, Option, none, some, List, [], ◌∷◌, ◌++◌, ◌==◌,
  if◌then◌else◌, ℤ, pos, negsuc,
}
use aquabsd_pkg_repo.Base.Words.{is_negative}
use aquabsd_pkg_repo.Base.Bytes.{Bytes, codes, format, c_string}
use aquabsd_pkg_repo.Base.Decimal.{decimal}
use aquabsd_pkg_repo.Base.Getopt.{Opt, getopt}
use aquabsd_pkg_repo.Base.Prog.{Prog, ◌>>=◌, ◌>>◌, pure, undefined, exit, modify}
use aquabsd_pkg_repo.Settings.{
  Privilege, boot, kern, user, aqua, code_of, SettingType, opaque, node, string, int, uint, long,
  ulong, s8, s16, s32, s64, u8, u16, u32, u64, clockinfo, timeval, loadavg, vmtotal, input_id,
  pagesizes, efi_map_header, bios_smap_xattr, Owned, Setting, Sysctl, Process, settings_error_str,
}
use aquabsd_pkg_repo.Settings.Listing.{settings_list, settings_of}
use aquabsd_pkg_repo.Settings.Search.{settings_search}
use aquabsd_pkg_repo.Settings.Access.{setting_read_descr, setting_read, setting_free}

unfoldable pub print : Bytes → Prog Process (Unit {0})
print text = modify λ s. record s { stdout = s.stdout ++ (text ∷ []) }

unfoldable pub errx : {A : Type 0} → Bytes → Prog Process A
errx text = do (modify λ s. record s { stderr = s.stderr ++ (text ∷ []) }); exit 1

-- `errx` with the error text of the library; a `%s` of NULL is undefined.
unfoldable pub library_errx : {A : Type 0} → Bytes → Prog Process A
unfolding errx settings_error_str
library_errx fmt s = elim (settings_error_str s) [
  | none ↦ undefined s
  | some text ↦ errx (format fmt (text ∷ [])) s
]

-- A `%s` of a pointer.
unfoldable pub text_of :
    {A : Type 0} → Option (Owned Bytes) → (Bytes → Prog Process A) → Prog Process A
text_of none f = undefined
text_of (some p) f = f p.value

unfoldable pub usage : {A : Type 0} → Bytes → Prog Process A
unfolding errx
usage progname = errx (format (codes "usage: %s [idk yet man lol]") (progname ∷ []) ++ (10 ∷ []))

-- `settings_type_t` as a number
unfoldable pub type_number : SettingType → ℕ
type_number opaque = 0
type_number node = 1
type_number string = 2
type_number int = 3
type_number uint = 4
type_number long = 5
type_number ulong = 6
type_number s8 = 7
type_number s16 = 8
type_number s32 = 9
type_number s64 = 10
type_number u8 = 11
type_number u16 = 12
type_number u32 = 13
type_number u64 = 14
type_number clockinfo = 15
type_number timeval = 16
type_number loadavg = 17
type_number vmtotal = 18
type_number input_id = 19
type_number pagesizes = 20
type_number efi_map_header = 21
type_number bios_smap_xattr = 22

abbrev pub is_string : SettingType → Bool
is_string type = type_number type == 2

module _ (K : Sysctl) where
  -- The `if` of the loop of `do_list`; it returns the setting as it is freed.
  unfoldable pub print_setting : Opts → Setting → Prog Process Setting
  unfolding library_errx text_of print
  print_setting opts setting = elim opts.verbose [
    | false ↦ do text_of setting.key (λ key. print (key ++ (10 ∷ []))); pure setting
    | true ↦ do
      described ← setting_read_descr K setting
      elim described [
        | none ↦ library_errx (codes "setting_read_descr: %s")
        | some seen ↦ do
          text_of seen.key (λ key.
              text_of seen.descr
                (λ descr. print (format (codes "%s (%s)") (key ∷ descr ∷ []) ++ (10 ∷ []))))
          pure seen
      ]
  ]

  unfoldable pub list_each : Opts → List Setting → Prog Process (Unit {0})
  unfolding print_setting
  list_each opts [] = pure tt
  list_each opts (setting ∷ rest) = do
    seen ← print_setting opts setting
    rv ← setting_free (some seen)
    list_each opts rest

  -- `do_list`
  unfoldable pub list_action : ℕ → Opts → Prog Process ℤ
  unfolding list_each library_errx
  list_action fuel opts = do
    listed ← settings_list K fuel true opts.privilege opts.uid
    elim listed [
      | none ↦ library_errx (codes "settings_list: %s")
      | some stack ↦ do list_each opts (settings_of stack); pure (pos 0)
    ]

  -- The end of `do_read`, from the test of the option `-B` on.
  unfoldable pub show : Opts → Setting → Prog Process ℤ
  unfolding text_of print errx type_number
  show opts setting = elim opts.binary [
    | true ↦ elim setting.contents [
      | none ↦ if setting.len == 0 then pure (pos 0) else undefined
      | some p ↦ do print p.value; pure (pos 0)
    ]
    | false ↦ do
      (elim opts.verbose [
        | false ↦ pure tt
        | true ↦ text_of setting.descr (λ descr. print (format (codes "%s: ") (descr ∷ [])))
      ])
      elim (is_string setting.kind) [
        | false ↦
            errx (format (codes "Unsupported type: %d") (decimal (type_number setting.kind) ∷ []))
        | true ↦ text_of setting.contents (λ value. elim (c_string value) [
          | none ↦ undefined
          | some text ↦ do print (text ++ (10 ∷ [])); pure (pos 0)
        ])
      ]
  ]

  -- The test of the option `-v` of `do_read`.
  unfoldable pub describe : Opts → Setting → Prog Process Setting
  unfolding library_errx
  describe opts setting = elim opts.verbose [
    | false ↦ pure setting
    | true ↦ do
      described ← setting_read_descr K setting
      elim described [
        | none ↦ library_errx (codes "setting_read_descr: %s")
        | some seen ↦ pure seen
      ]
  ]

  -- `do_read` from the test of the privilege on.
  unfoldable pub read_found : Opts → Setting → Prog Process ℤ
  unfolding describe show errx library_errx
  read_found opts setting =
      if not (code_of setting.privilege == code_of opts.privilege)
      then errx (codes "settings_search: Incorrect privileges")
      else do
        seen ← describe opts setting
        (rv, filled) ← setting_read K seen
        (if is_negative rv then library_errx (codes "setting_read: %s") else show opts filled)

  -- `do_read`
  unfoldable pub read_action : Opts → Prog Process ℤ
  unfolding read_found library_errx
  read_action opts = elim opts.read [
    | none ↦ undefined
    | some key ↦ do
      found ← settings_search K key opts.privilege opts.uid
      elim found [
        | none ↦ library_errx (codes "settings_search: %s")
        | some setting ↦ read_found opts setting
      ]
  ]

  -- One round of the loop over the options. Where `getopt` returns a question mark, it has printed a
  -- message.
  unfoldable pub parse_one : Bytes → Opt → Opts → Prog Process Opts
  unfolding usage
  parse_one progname o opts =
      if o.c == b'B'
      then pure (record opts { binary = true })
      else if o.c == b'v'
      then pure (record opts { verbose = true })
      else if o.c == b'r'
      then pure (record opts { read = some o.optarg; action = do_read })
      else if o.c == b'b'
      then pure (record opts { privilege = boot })
      else if o.c == b'k'
      then pure (record opts { privilege = kern })
      else if o.c == b'u'
      then pure (record opts { privilege = user })
      else (λ s. usage progname (record s { stderr = s.stderr ++ (o.optarg ∷ []) }))

  unfoldable pub parse : Bytes → List Opt → Opts → Prog Process Opts
  unfolding parse_one
  parse progname [] opts = pure opts
  parse progname (o ∷ rest) opts = parse_one progname o opts >>= parse progname rest

  unfoldable pub main : ℕ → Bytes → List Bytes → Prog Process ℕ
  unfolding parse list_action read_action
  main fuel progname args = do
    opts ← parse progname (getopt (codes "bBkr:uv") args) defaults
    rv ← (elim opts.action [ do_list ↦ list_action fuel opts | do_read ↦ read_action opts ])
    pure (if is_negative rv then 1 else 0)
