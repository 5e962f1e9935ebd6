-- ===== src/SettingsTool/Ending.antt =====
-- How `main` of settings.c ends, for every list of arguments.
pub mod Listing
pub mod Reading
pub mod Showing
use mathlib.Core.Path.{subst}
use aquabsd_pkg_repo.Base.{
  ℕ, zero, ◌≡◌, refl, sym, ◌∙◌, ap, Bool, true, false, Option, none, some, List, [], ◌∷◌, ◌++◌,
  ◌==◌, All, ◌⊎◌, inl, inr, Bool-cases, ℤ, pos, arith, ◌+◌,
}
use aquabsd_pkg_repo.Base.Bytes.{Bytes, codes, c_string}
use aquabsd_pkg_repo.Base.Getopt.{getopt}
use aquabsd_pkg_repo.Base.Prog.{done, ◌>>=◌, Reply-cases}
use aquabsd_pkg_repo.Base.Goes.{Goes, Goes-bind, Runs-Goes}
use aquabsd_pkg_repo.Settings.{
  ok, failed, Privilege, code_of, Owned, Setting, Sysctl, Process, malloc,
}
use aquabsd_pkg_repo.Settings.Query.{kind_of, type_of}
use aquabsd_pkg_repo.Settings.Search.{settings_search}
use aquabsd_pkg_repo.Settings.Listing.{settings_list, settings_of}
use aquabsd_pkg_repo.Settings.Access.{
  oid_of, setting_read_descr, setting_read, read_contents, setting_free,
}
use aquabsd_pkg_repo.Settings.Ownership.{
  IsText, AnyText, Shares, of_setting, of_settings, Sound, Sound-fewer,
}
use aquabsd_pkg_repo.Settings.Ownership.Finding.{IsTrusted, Typed, FoundOr, settings_search-FoundOr}
use aquabsd_pkg_repo.Settings.Ownership.Holding.{
  DescribedOr, setting_read_descr-Sound, setting_free-Sound,
}
use aquabsd_pkg_repo.Settings.Ownership.Collecting.{
  Enumerates, HasKey, ListedOr, settings_list-ListedOr,
}
use aquabsd_pkg_repo.Settings.Ownership.Freeing.{of_stack}
use aquabsd_pkg_repo.SettingsTool.{
  do_list, do_read, Opts, defaults, print, text_of, library_errx, errx, is_string, type_number,
  print_setting, list_each, list_action, describe, show, read_found, read_action, parse, main,
}
use aquabsd_pkg_repo.SettingsTool.Parsing.{
  Zero, Reported, errx-Reported, library_errx-Reported, Parsed, parse-Parsed,
}
use aquabsd_pkg_repo.SettingsTool.Ending.Listing.{list_action-Zero}
use aquabsd_pkg_repo.SettingsTool.Ending.Reading.{HasValues, read_action-Zero}

module _ (K : Sysctl) (T : IsTrusted K) (V : HasValues K) where
  abbrev Succeeds : ℕ → Process → Type 0
  Succeeds code t = code ≡ 0

  -- On a kernel that libsettings can trust, that gives every value of which it has told the size, and
  -- that tells the size and gives the value, with a NUL in it, of every OID that it describes as a
  -- string; from a heap in which the error text, if there is one, is an allocated block: for all
  -- arguments, main does nothing
  -- undefined. It returns 0, or it ends the process with status 1 and a message on the error stream,
  -- or it goes on past the fuel, and then the kernel enumerates as many settings as the fuel behind
  -- CTL_KERN.
  pub main-Succeeds :
      (fuel : ℕ) (progname : Bytes) (args : List Bytes) (s : Process)
      → Sound AnyText (λ n. 0) s
      → Goes Succeeds Reported (Enumerates K fuel (K.ctl_kern ∷ [])) (main K fuel progname args s)
  unfolding main
  main-Succeeds fuel progname args s h =
      let R : Type 0 = Enumerates K fuel (K.ctl_kern ∷ []) in
      Goes-bind (Parsed s) Succeeds Reported R
        (parse K progname (getopt (codes "bBkr:uv") args) defaults) _ s
        (parse-Parsed K R progname (getopt (codes "bBkr:uv") args) defaults s (inl refl))
        λ opts t (runnable, same).
          let h' = subst (Sound AnyText (λ n. 0)) (sym same) h in
          elim runnable [
            | inl listing ↦ rw listing (
                Goes-bind Zero Succeeds Reported R
                  (list_action K fuel (record opts { action = do_list })) _ t
                  (list_action-Zero K T R fuel (record opts { action = do_list }) t (λ more. more)
                    h')
                  λ rv u zero_rv. rw zero_rv refl)
            | inr (reading, (key, e)) ↦ rw reading (
                Goes-bind Zero Succeeds Reported R
                  (read_action K (record opts { action = do_read })) _ t
                  (read_action-Zero K T R V (record opts { action = do_read }) key t e h')
                  λ rv u zero_rv. rw zero_rv refl)
          ]
