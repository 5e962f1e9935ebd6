-- ===== src/SettingsTool/Refused.antt =====
-- `settings -b -r KEY` and `settings -k -r KEY` (packages/aquabsd.alps/settings/src/settings.c)
-- where the value of the setting cannot be printed: it has another privilege, another type than a
-- string, a value that the kernel does not give, or an OID that is too long.
use aquabsd_pkg_repo.Base.{
  ℕ, ◌*◌, ◌<◌, ltb, ◌≡◌, refl, ◌∙◌, ap, true, false, none, [], ◌∷◌, ◌++◌, ◌==◌, ◌⊎◌, inl, inr,
  arith, pos,
}
use aquabsd_pkg_repo.Base.Bytes.{Bytes, codes, format}
use aquabsd_pkg_repo.Base.Decimal.{decimal}
use aquabsd_pkg_repo.Base.Getopt.{getopt}
use aquabsd_pkg_repo.Base.Prog.{done, exited, fault, ◌>>=◌}
use aquabsd_pkg_repo.Settings.{
  Privilege, boot, kern, user, aqua, other, code_of, string, ok, failed, Setting, Sysctl, Process,
}
use aquabsd_pkg_repo.Settings.Query.{type_of, bytes_of}
use aquabsd_pkg_repo.Settings.Fill.{Entry, Described, Fits, is_asked}
use aquabsd_pkg_repo.Settings.Search.Found.{Translated, settings_search-over}
use aquabsd_pkg_repo.Settings.Access.{oid_of, setting_read}
use aquabsd_pkg_repo.Settings.Access.Read.{setting_read-failed, setting_read-unsized}
use aquabsd_pkg_repo.SettingsTool.{
  Opts, type_number, parse_one, parse, read_action, show, text_of, main,
}
use aquabsd_pkg_repo.SettingsTool.Reading.{
  HasValue, found_setting, found_state, read_action-searched, read_action-wrong_privilege,
  read_action-unsupported,
}
use aquabsd_pkg_repo.SettingsTool.Showing.{read_found-right}
use aquabsd_pkg_repo.SettingsTool.Whole.{word_for, reading}

module _ (K : Sysctl) where
  -- The kernel does not give the size of an entry's value, or not the value.
  abbrev pub HasNoValue : Entry → Type 0
  HasNoValue e =
      ((errno : ℕ) × (K.sysctl_size e.oid ≡ failed errno))
      ⊎ ((len : ℕ) × (errno : ℕ) × (K.sysctl_size e.oid ≡ ok len)
          × (K.sysctl e.oid len ≡ failed errno))

  show-no_contents :
      (opts : Opts) (setting : Setting) (s : Process)
      → opts.verbose ≡ false
      → opts.binary ≡ false
      → setting.kind ≡ string
      → setting.contents ≡ none
      → show K opts setting s ≡ fault
  unfolding show text_of type_number
  show-no_contents opts setting s quiet b k c =
      rw (b, show) (rw (quiet, ◌>>=◌) (rw (k, type_number) (rw (c, text_of) refl)))

  -- The text and the type of a setting stay as setting_read fails, and its contents are NULL.
  setting_read-HasNoValue :
      (setting : Setting) (e : Entry) (s : Process)
      → oid_of setting ≡ e.oid
      → setting.contents ≡ none
      → HasNoValue e
      → (filled : Setting) × (t : Process) × (setting_read K setting s ≡ done (pos 0, filled) t)
        × (filled.contents ≡ none)
        × (filled.kind ≡ setting.kind)
  setting_read-HasNoValue setting e s oid c (inl (errno, n)) =
      (_, _, setting_read-unsized K setting errno s (ap K.sysctl_size oid ∙ n), c, refl)
  setting_read-HasNoValue setting e s oid c (inr (len, errno, n, v)) = (
    _,
    _,
    setting_read-failed K setting len errno s (ap K.sysctl_size oid ∙ n)
        (ap (λ o. K.sysctl o len) oid ∙ v),
    refl,
    refl,
  )

  module _ (fuel : ℕ) (progname : Bytes) where
    -- Whatever ends the process or is undefined in do_read is so for main.
    main-exits :
        (privilege : Privilege) (key : Bytes) (code : ℕ) (s t : Process)
        → code_of privilege < 2
        → read_action K (reading privilege key) s ≡ exited code t
        → main K fuel progname (word_for privilege ∷ codes "-r" ∷ key ∷ []) s ≡ exited code t
    unfolding main parse parse_one getopt
    main-exits boot key code s t h e = rw (e, ◌>>=◌) refl
    main-exits kern key code s t h e = rw (e, ◌>>=◌) refl
    main-exits user key code s t h e = absurd (omega arith)
    main-exits aqua key code s t h e = absurd (omega arith)
    main-exits (other n) key code s t h e = absurd (omega arith)

    main-faults :
        (privilege : Privilege) (key : Bytes) (s : Process)
        → code_of privilege < 2
        → read_action K (reading privilege key) s ≡ fault
        → main K fuel progname (word_for privilege ∷ codes "-r" ∷ key ∷ []) s ≡ fault
    unfolding main parse parse_one getopt
    main-faults boot key s h e = rw (e, ◌>>=◌) refl
    main-faults kern key s h e = rw (e, ◌>>=◌) refl
    main-faults user key s h e = absurd (omega arith)
    main-faults aqua key s h e = absurd (omega arith)
    main-faults (other n) key s h e = absurd (omega arith)

    -- `settings -b -r KEY` and `settings -k -r KEY`, with a key that the kernel translates to an OID
    -- that it describes, of more than CTL_MAXNAME / 4 numbers and of the privilege that is asked
    -- for: main reads behind the end of the array that holds the OID.
    pub main-over :
        (privilege : Privilege) (key : Bytes) (e : Entry) (s : Process)
        → code_of privilege < 2
        → Translated K key e
        → Described K e
        → is_asked K privilege e ≡ true
        → ltb (4 * K.ctl_maxname) (4 * bytes_of e.oid) ≡ true
        → main K fuel progname (word_for privilege ∷ codes "-r" ∷ key ∷ []) s ≡ fault
    unfolding read_action
    main-over privilege key e s h tr d asked over = main-faults privilege key s h (
        rw
          (
            settings_search-over K key privilege (reading privilege key).uid e s h tr d asked over,
            ◌>>=◌,
          )
          refl)

    module _ (privilege : Privilege) (key : Bytes) (e : Entry) (s : Process)
        (sysctl_privilege : code_of privilege < 2) (translated : Translated K key e)
        (described : Described K e) (fits : Fits K e) where
      -- `settings -b -r KEY` and `settings -k -r KEY`, with a key that the kernel translates to an
      -- OID that it describes, of at most CTL_MAXNAME / 4 numbers and of the other privilege: main
      -- ends the process with status 1 and a message, and prints nothing.
      pub main-wrong_privilege :
          is_asked K privilege e ≡ false
          → (t : Process) × (main K fuel progname (word_for privilege ∷ codes "-r" ∷ key ∷ []) s
              ≡ exited 1 t)
            × (t.stdout ≡ s.stdout)
            × (t.stderr ≡ s.stderr ++ (codes "settings_search: Incorrect privileges" ∷ []))
      main-wrong_privilege unasked =
          let (t, run, out, errs) =
            read_action-wrong_privilege K (reading privilege key) key e s refl sysctl_privilege
              translated described fits unasked in
          (t, main-exits privilege key 1 s t sysctl_privilege run, out, errs)

      -- `settings -b -r KEY` and `settings -k -r KEY`, with a key that the kernel translates to an
      -- OID that it describes as anything but a string, of at most CTL_MAXNAME / 4 numbers and of
      -- the privilege that is asked for, and with a value that the kernel gives: main ends the
      -- process with status 1 and a message with the number of the type, and prints nothing.
      pub main-unsupported :
          (value : Bytes)
          → is_asked K privilege e ≡ true
          → HasValue K e value
          → (type_number (type_of K e.kind e.fmt) == 2) ≡ false
          → (t : Process) × (main K fuel progname (word_for privilege ∷ codes "-r" ∷ key ∷ []) s
              ≡ exited 1 t)
            × (t.stdout ≡ s.stdout)
            × (t.stderr
                ≡ s.stderr
                  ++ (format
                        (codes "Unsupported type: %d")
                        (decimal (type_number (type_of K e.kind e.fmt)) ∷ [])
                      ∷ []))
      main-unsupported value asked has k =
          let (t, run, out, errs) =
            read_action-unsupported K (reading privilege key) key e s refl sysctl_privilege
              translated described fits value refl asked has refl k in
          (t, main-exits privilege key 1 s t sysctl_privilege run, out, errs)

      abbrev found : Setting
      found =
          found_setting K (reading privilege key) key e s refl sysctl_privilege translated described
            fits

      abbrev state : Process
      state =
          found_state K (reading privilege key) key e s refl sysctl_privilege translated described
            fits

      found-oid : is_asked K privilege e ≡ true → oid_of found ≡ e.oid
      unfolding oid_of
      found-oid asked = rw asked refl

      -- `settings -b -r KEY` and `settings -k -r KEY`, with a key that the kernel translates to an
      -- OID that it describes as a string, of at most CTL_MAXNAME / 4 numbers and of the privilege
      -- that is asked for, where the kernel does not give the size of the value or not the value:
      -- main does something undefined, as it prints the text at a NULL pointer.
      pub main-no_value :
          is_asked K privilege e ≡ true
          → type_of K e.kind e.fmt ≡ string
          → HasNoValue e
          → main K fuel progname (word_for privilege ∷ codes "-r" ∷ key ∷ []) s ≡ fault
      main-no_value asked k lacks =
          let (filled, t, run, contents, kind) =
            setting_read-HasNoValue found e state (found-oid asked) (rw asked refl) lacks in
          let type : found.kind ≡ string = rw asked k in
          main-faults privilege key s sysctl_privilege (
            read_action-searched K (reading privilege key) key e s refl sysctl_privilege translated
              described fits
            ∙ read_found-right K (reading privilege key) found state filled t (rw asked asked) refl
                run
            ∙ show-no_contents (reading privilege key) filled t refl refl (kind ∙ type) contents)
