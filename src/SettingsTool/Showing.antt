-- ===== src/SettingsTool/Showing.antt =====
-- `do_read` of settings.c once a setting has been found.
use aquabsd_pkg_repo.Base.{◌≡◌, refl, true, false, some, [], ◌∷◌, ◌++◌, ◌==◌, pos}
use aquabsd_pkg_repo.Base.Bytes.{Bytes, codes, c_string, format}
use aquabsd_pkg_repo.Base.Decimal.{decimal}
use aquabsd_pkg_repo.Base.Prog.{done, exited, ◌>>=◌}
use aquabsd_pkg_repo.Settings.{code_of, string, Owned, Setting, Sysctl, Process}
use aquabsd_pkg_repo.Settings.Access.{setting_read}
use aquabsd_pkg_repo.SettingsTool.{
  Opts, read_found, show, describe, print, errx, text_of, type_number,
}

module _ (K : Sysctl) where
  module _ (opts : Opts) (setting : Setting) (s : Process) where
    pub read_found-wrong :
        (code_of setting.privilege == code_of opts.privilege) ≡ false
        → read_found K opts setting s
          ≡ exited 1 (record s {
            stderr = s.stderr ++ (codes "settings_search: Incorrect privileges" ∷ []);
          })
    unfolding read_found errx
    read_found-wrong h = rw (h, read_found) refl

    describe-quiet : opts.verbose ≡ false → describe K opts setting s ≡ done setting s
    unfolding describe
    describe-quiet quiet = rw (quiet, describe) refl

    pub read_found-right :
        (filled : Setting) (t : Process)
        → (code_of setting.privilege == code_of opts.privilege) ≡ true
        → opts.verbose ≡ false
        → setting_read K setting s ≡ done (pos 0, filled) t
        → read_found K opts setting s ≡ show K opts filled t
    unfolding read_found
    read_found-right filled t h quiet e =
        rw (h, read_found) (rw (describe-quiet quiet, ◌>>=◌) (rw (e, ◌>>=◌) refl))

    module _ (p : Owned Bytes) (contents : setting.contents ≡ some p) where
      pub show-binary :
          opts.binary ≡ true
          → show K opts setting s ≡ done (pos 0) (record s { stdout = s.stdout ++ (p.value ∷ []) })
      unfolding show print
      show-binary h = rw (h, show) (rw contents refl)

      pub show-string :
          (text : Bytes)
          → opts.verbose ≡ false
          → opts.binary ≡ false
          → setting.kind ≡ string
          → c_string p.value ≡ some text
          → show K opts setting s
            ≡ done (pos 0) (record s { stdout = s.stdout ++ ((text ++ (10 ∷ [])) ∷ []) })
      unfolding show print text_of type_number
      show-string text quiet h k e =
          rw (h, show)
            (rw (quiet, ◌>>=◌) (rw (k, type_number) (rw (contents, text_of) (rw e refl))))

    pub show-other :
        opts.verbose ≡ false
        → opts.binary ≡ false
        → (type_number setting.kind == 2) ≡ false
        → show K opts setting s
          ≡ exited 1 (record s {
            stderr =
                s.stderr
                ++ (format (codes "Unsupported type: %d") (decimal (type_number setting.kind) ∷ [])
                    ∷ []);
          })
    unfolding show errx
    show-other quiet h k = rw (h, show) (rw (quiet, ◌>>=◌) (rw k refl))
