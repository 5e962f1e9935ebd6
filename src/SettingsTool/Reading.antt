-- ===== src/SettingsTool/Reading.antt =====
-- The option `-r` of settings: from the key to what is printed.
use aquabsd_pkg_repo.Base.{
  ℕ, suc, ◌<◌, ◌≡◌, refl, ◌∙◌, ap, true, false, some, [], ◌∷◌, ◌++◌, ◌==◌, pos,
}
use aquabsd_pkg_repo.Base.Bytes.{Bytes, codes, c_string, format}
use aquabsd_pkg_repo.Base.Decimal.{decimal}
use aquabsd_pkg_repo.Base.Prog.{done, exited, ◌>>=◌}
use aquabsd_pkg_repo.Settings.{ok, code_of, string, Setting, Sysctl, Process}
use aquabsd_pkg_repo.Settings.Heap.{allocated}
use aquabsd_pkg_repo.Settings.Query.{type_of}
use aquabsd_pkg_repo.Settings.Fill.{
  Entry, Described, Fits, is_asked, setting_for, behind, Quiet-behind,
}
use aquabsd_pkg_repo.Settings.Search.Found.{Translated, key_at, settings_search-Described}
use aquabsd_pkg_repo.Settings.Access.{oid_of}
use aquabsd_pkg_repo.Settings.Access.Read.{with_value, setting_read-value}
use aquabsd_pkg_repo.Settings.Search.{settings_search}
use aquabsd_pkg_repo.SettingsTool.{Opts, read_action, read_found, show, type_number}
use aquabsd_pkg_repo.SettingsTool.Showing.{
  read_found-wrong, read_found-right, show-binary, show-string, show-other,
}

module _ (K : Sysctl) where
  -- The kernel has the value of an entry.
  abbrev pub HasValue : Entry → Bytes → Type 0
  HasValue e value = (len : ℕ) × (K.sysctl_size e.oid ≡ ok len) × (K.sysctl e.oid len ≡ ok value)

  read_action-found :
      (opts : Opts) (key : Bytes) (setting : Setting) (s t : Process)
      → opts.read ≡ some key
      → settings_search K key opts.privilege opts.uid s ≡ done (some setting) t
      → read_action K opts s ≡ read_found K opts setting t
  unfolding read_action
  read_action-found opts key setting s t r e = rw (r, read_action) (rw (e, ◌>>=◌) refl)

  module _ (opts : Opts) (key : Bytes) (e : Entry) (s : Process) (asks : opts.read ≡ some key)
      (sysctl_privilege : code_of opts.privilege < 2) (translated : Translated K key e)
      (described : Described K e) (fits : Fits K e) where
    abbrev pub found_setting : Setting
    found_setting =
        setting_for K opts.privilege e s.next (key_at K key (suc s.next)) (suc (suc s.next))

    abbrev pub found_state : Process
    found_state = behind K opts.privilege e (allocated (allocated s))

    pub read_action-searched : read_action K opts s ≡ read_found K opts found_setting found_state
    read_action-searched = read_action-found opts key found_setting s found_state asks (
        settings_search-Described K key opts.privilege opts.uid e s sysctl_privilege translated
          described fits)

    -- Where the setting has the privilege that is asked for, the program goes on to show its value.
    read_action-asked :
        (value : Bytes)
        → opts.verbose ≡ false
        → is_asked K opts.privilege e ≡ true
        → HasValue e value
        → (block : ℕ) × (setting : Setting) × (t : Process) × (read_action K opts s
            ≡ show K opts setting t)
          × (setting.contents ≡ some (record { block = block; value = value }))
          × (setting.kind ≡ type_of K e.kind e.fmt)
          × (t.stdout ≡ s.stdout)
          × (t.stderr ≡ s.stderr)
    unfolding oid_of
    read_action-asked value quiet asked (len, size, has) =
        let oid : oid_of found_setting ≡ e.oid = rw asked refl in
        let right : (code_of found_setting.privilege == code_of opts.privilege) ≡ true =
          rw asked asked in
        let kind : found_setting.kind ≡ type_of K e.kind e.fmt = rw asked refl in
        let (_, out, errs) = Quiet-behind K opts.privilege e (allocated (allocated s)) in
        (
          found_state.next,
          with_value K found_setting found_state.next value,
          allocated found_state,
          read_action-searched
              ∙ read_found-right K opts found_setting found_state
                  (with_value K found_setting found_state.next value) (allocated found_state) right
                  quiet
                  (setting_read-value K found_setting len value found_state
                    (ap K.sysctl_size oid ∙ size) (ap (λ o. K.sysctl o len) oid ∙ has)),
          refl,
          kind,
          out,
          errs,
        )

    -- settings -r, for the boot or the kernel privilege, with a key that the kernel translates
    -- to an OID that it describes, of at most CTL_MAXNAME / 4 numbers: a setting of the other
    -- privilege ends the program with status 1 and a message, and nothing is printed.
    pub read_action-wrong_privilege :
        is_asked K opts.privilege e ≡ false
        → (t : Process) × (read_action K opts s ≡ exited 1 t)
          × (t.stdout ≡ s.stdout)
          × (t.stderr ≡ s.stderr ++ (codes "settings_search: Incorrect privileges" ∷ []))
    read_action-wrong_privilege unasked =
        let (_, out, errs) = Quiet-behind K opts.privilege e (allocated (allocated s)) in
        (
          _,
          read_action-searched ∙ read_found-wrong K opts found_setting found_state wrong,
          out,
          ap (λ errs'. errs' ++ (codes "settings_search: Incorrect privileges" ∷ [])) errs,
        )
      where
        wrong : (code_of found_setting.privilege == code_of opts.privilege) ≡ false
        wrong = rw unasked unasked

    module _ (value : Bytes) (quiet : opts.verbose ≡ false)
        (asked : is_asked K opts.privilege e ≡ true) (has : HasValue e value) where
      -- settings -B -r without -v, for the boot or the kernel privilege, with a key that the
      -- kernel translates to an OID that it describes, of at most CTL_MAXNAME / 4 numbers and of
      -- the privilege that is asked for, and with a value that the kernel gives, prints the
      -- bytes of the value and returns 0.
      pub read_action-binary :
          opts.binary ≡ true
          → (t : Process) × (read_action K opts s ≡ done (pos 0) t)
            × (t.stdout ≡ s.stdout ++ (value ∷ []))
      read_action-binary b =
          let (block, setting, t, shows, contents, kind, out, errs) =
            read_action-asked value quiet asked has in
          (
            _,
            shows
                ∙ show-binary K opts setting t (record { block = block; value = value }) contents b,
            ap (λ o. o ++ (value ∷ [])) out,
          )

      -- settings -r without -v and -B, for the boot or the kernel privilege, with a key that the
      -- kernel translates to an OID that it describes as a string, of at most CTL_MAXNAME / 4
      -- numbers and of the privilege that is asked for, and with a value that the kernel gives,
      -- prints the value up to its NUL, which it has, with a newline, and returns 0.
      pub read_action-string :
          (text : Bytes)
          → opts.binary ≡ false
          → type_of K e.kind e.fmt ≡ string
          → c_string value ≡ some text
          → (t : Process) × (read_action K opts s ≡ done (pos 0) t)
            × (t.stdout ≡ s.stdout ++ ((text ++ (10 ∷ [])) ∷ []))
      read_action-string text b k c =
          let (block, setting, t, shows, contents, kind, out, errs) =
            read_action-asked value quiet asked has in
          (
            _,
            shows
                ∙ show-string K opts setting t (record { block = block; value = value }) contents
                    text quiet b (kind ∙ k) c,
            ap (λ o. o ++ ((text ++ (10 ∷ [])) ∷ [])) out,
          )

      -- settings -r without -v and -B, for the boot or the kernel privilege, with a key that the
      -- kernel translates to an OID that it describes as anything but a string, of at most
      -- CTL_MAXNAME / 4 numbers and of the privilege that is asked for, and with a value that
      -- the kernel gives, ends the program with status 1 and a message with the number of the
      -- type, and nothing is printed.
      pub read_action-unsupported :
          opts.binary ≡ false
          → (type_number (type_of K e.kind e.fmt) == 2) ≡ false
          → (t : Process) × (read_action K opts s ≡ exited 1 t)
            × (t.stdout ≡ s.stdout)
            × (t.stderr
                ≡ s.stderr
                  ++ (format
                        (codes "Unsupported type: %d")
                        (decimal (type_number (type_of K e.kind e.fmt)) ∷ [])
                      ∷ []))
      read_action-unsupported b k =
          let (block, setting, t, shows, contents, kind, out, errs) =
            read_action-asked value quiet asked has in
          (
            _,
            shows ∙ show-other K opts setting t quiet b (ap (λ n. type_number n == 2) kind ∙ k),
            out,
            ap
                  (λ n.
                    t.stderr
                    ++ (format (codes "Unsupported type: %d") (decimal (type_number n) ∷ []) ∷ []))
                  kind
                ∙ ap
                    (λ o.
                      o
                      ++ (format (codes "Unsupported type: %d")
                            (decimal (type_number (type_of K e.kind e.fmt)) ∷ [])
                          ∷ []))
                    errs,
          )
