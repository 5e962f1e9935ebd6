-- ===== src/SettingsTool/Failing.antt =====
-- `settings -b` and `settings -k` (packages/aquabsd.alps/settings/src/settings.c) where the kernel
-- fails in the middle of its settings.
use aquabsd_pkg_repo.Base.{
  ℕ, ◌<◌, ◌≡◌, refl, ap, false, none, List, [], ◌∷◌, ◌++◌, ◌==◌, length, All, arith,
}
use aquabsd_pkg_repo.Base.Bytes.{Bytes, codes, format}
use aquabsd_pkg_repo.Base.Getopt.{getopt}
use aquabsd_pkg_repo.Base.Prog.{Outcome, exited, ◌>>=◌}
use aquabsd_pkg_repo.Settings.{Privilege, boot, kern, user, aqua, other, code_of, Sysctl, Process}
use aquabsd_pkg_repo.Settings.Fill.{Entry, Fits}
use aquabsd_pkg_repo.Settings.Listing.Walk.{Walk}
use aquabsd_pkg_repo.Settings.Listing.Failure.{getnext_text, settings_list-Fails}
use aquabsd_pkg_repo.SettingsTool.{
  Opts, defaults, list_action, library_errx, errx, parse_one, parse, main,
}
use aquabsd_pkg_repo.SettingsTool.Whole.{word_for}

module _ (K : Sysctl) (errno : ℕ) (other_error : (errno == K.enoent) ≡ false) where
  -- Status 1, with the text of the error on the error stream, and nothing printed.
  abbrev pub Reports : {A : Type 0} → Process → Outcome Process A → Type 0
  Reports s r =
      (t : Process) × (r ≡ exited 1 t)
      × (t.stdout ≡ s.stdout)
      × (t.stderr
          ≡ s.stderr
            ++ (format (codes "settings_list: %s") (getnext_text K errno other_error ∷ []) ∷ []))

  list_action-Reports :
      (fuel : ℕ) (opts : Opts) {es : List Entry} (s : Process)
      → code_of opts.privilege < 2
      → s.error_str ≡ none
      → Walk K errno (K.ctl_kern ∷ []) es
      → All (Fits K) es
      → length es < fuel
      → Reports s (list_action K fuel opts s)
  unfolding list_action library_errx errx
  list_action-Reports fuel opts s h fresh w fits f =
      let (t, run, text, out, errs) =
        settings_list-Fails K errno other_error fuel opts.privilege opts.uid s h fresh w fits f in
      let message = format (codes "settings_list: %s") (getnext_text K errno other_error ∷ []) in
      (
        record t { stderr = t.stderr ++ (message ∷ []) },
        rw (run, ◌>>=◌) (rw (text, library_errx) refl),
        out,
        ap (λ o. o ++ (message ∷ [])) errs,
      )

  main-exits :
      (fuel : ℕ) (progname : Bytes) (privilege : Privilege) (s t : Process)
      → code_of privilege < 2
      → list_action K fuel (record defaults { privilege = privilege }) s ≡ exited 1 t
      → main K fuel progname (word_for privilege ∷ []) s ≡ exited 1 t
  unfolding main parse parse_one getopt
  main-exits fuel progname boot s t h e = rw (e, ◌>>=◌) refl
  main-exits fuel progname kern s t h e = rw (e, ◌>>=◌) refl
  main-exits fuel progname user s t h e = absurd (omega arith)
  main-exits fuel progname aqua s t h e = absurd (omega arith)
  main-exits fuel progname (other n) s t h e = absurd (omega arith)

  -- `settings -b` and `settings -k`, with no error text so far: where the kernel enumerates settings
  -- behind CTL_KERN and then fails with an error other than ENOENT, describes each of them, and
  -- none of their OIDs has more than CTL_MAXNAME / 4 numbers, and with more fuel than settings, main
  -- prints none of the settings, and ends the process with status 1 and the text of that error on
  -- the error stream.
  pub main-Reports :
      (fuel : ℕ) (progname : Bytes) (privilege : Privilege) {es : List Entry} (s : Process)
      → code_of privilege < 2
      → s.error_str ≡ none
      → Walk K errno (K.ctl_kern ∷ []) es
      → All (Fits K) es
      → length es < fuel
      → Reports s (main K fuel progname (word_for privilege ∷ []) s)
  main-Reports fuel progname privilege s h fresh w fits f =
      let (t, run, out, errs) =
        list_action-Reports fuel (record defaults { privilege = privilege }) s h fresh w fits f in
      (t, main-exits fuel progname privilege s t h run, out, errs)
