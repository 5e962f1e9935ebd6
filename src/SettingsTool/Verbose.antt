-- ===== src/SettingsTool/Verbose.antt =====
-- `do_list` of settings.c with the option -v, over the settings that the kernel enumerates: from
-- the words of the command line to what is printed.
pub mod Printing
pub mod Listing
use mathlib.Core.Path.{subst}
use mathlib.Core.List.{append-nil, append_assoc}
use aquabsd_pkg_repo.Base.{
  ℕ, suc, ◌+◌, ◌<◌, ◌≡◌, refl, sym, ◌∙◌, ap, Bool, true, false, Option, none, some, List, [], ◌∷◌,
  ◌++◌, if◌then◌else◌, pos, map, length, All, Bool-cases, inl, inr, arith,
}
use aquabsd_pkg_repo.Base.Bytes.{Bytes, codes, format, c_string}
use aquabsd_pkg_repo.Base.Goes.{Ends, Ends-bind, Goes}
use aquabsd_pkg_repo.Base.Prog.{Outcome, pure, done, exited, ◌>>=◌, ◌>>◌}
use aquabsd_pkg_repo.Settings.{
  ok, failed, code_of, Privilege, boot, kern, user, aqua, other, Owned, Setting, Sysctl, Process,
  free_owned, duplicate, malloc, emit_error, message, settings_error_str,
}
use aquabsd_pkg_repo.Settings.Heap.{allocated}
use aquabsd_pkg_repo.Settings.Blocks.{
  Holds, blocks_of, blocks_onto, block_list, count, count-append, setting_free-Holds,
}
use aquabsd_pkg_repo.Settings.Fill.{Entry, Fits, is_asked, query_sysctl-ok}
use aquabsd_pkg_repo.Settings.Query.{query_sysctl, query_name}
use aquabsd_pkg_repo.Settings.Access.{setting_read_descr, oid_of}
use aquabsd_pkg_repo.Settings.Listing.{settings_of}
use aquabsd_pkg_repo.Settings.Listing.Adding.{View, view, contents_of, shown}
use aquabsd_pkg_repo.Settings.Listing.Walk.{Walk, settings_list-Walk}
use aquabsd_pkg_repo.SettingsTool.{
  Opts, defaults, parse, parse_one, main, list_action, list_each, print_setting, print, text_of,
  library_errx, errx,
}
use aquabsd_pkg_repo.Base.Getopt.{getopt}
use aquabsd_pkg_repo.Base.Words.{is_negative}
use aquabsd_pkg_repo.SettingsTool.Whole.{word_for}
use aquabsd_pkg_repo.SettingsTool.Keys.{owned_value, key-shown}
use aquabsd_pkg_repo.SettingsTool.Verbose.Printing.{Printed, Cut, HasText, text_lines, all_asked}
use aquabsd_pkg_repo.SettingsTool.Verbose.Listing.{list_action-text}

module _ (K : Sysctl) (fuel : ℕ) (progname : Bytes) (text_for : Entry → Bytes) (errno : ℕ)
    (refused : K.sysctl (K.ctl_sysctl ∷ K.ctl_sysctl_oiddescr ∷ []) K.bufsiz ≡ failed errno) where
  -- `settings -v` with the privilege's option
  abbrev pub listing : Privilege → Opts
  listing privilege = record defaults { verbose = true; privilege = privilege }

  -- What main prints, and whether it lists all.
  abbrev pub Lists : Privilege → List Entry → Process → Outcome Process ℕ → Type 0
  Lists privilege es s r =
      let whole = all_asked K privilege es in
      let out = s.stdout ++ text_lines K privilege text_for es in
      Ends (λ code t. (code ≡ 0) × Printed whole out s.stderr code t) (Cut whole out s.stderr) r

  list_action-Lists :
      (privilege : Privilege) {es : List Entry} (s : Process)
      → code_of privilege < 2
      → Walk K K.enoent (K.ctl_kern ∷ []) es
      → All (Fits K) es
      → length es < fuel
      → All (HasText K text_for) es
      → s.error_str ≡ none
      → Lists privilege es s (
          (list_action K fuel (listing privilege) >>= λ rv. pure (if is_negative rv then 1 else 0))
            s)
  list_action-Lists privilege {es} s h w fits f texts no_text =
      let opts = listing privilege in
      let whole = all_asked K privilege es in
      let out = s.stdout ++ text_lines K privilege text_for es in
      Ends-bind (λ rv t. (rv ≡ pos 0) × Printed whole out s.stderr rv t)
        (λ code t. (code ≡ 0) × Printed whole out s.stderr code t) (Cut whole out s.stderr)
        (list_action K fuel opts) _ s
        (list_action-text K opts refl text_for errno refused fuel s h w fits f texts no_text)
        λ rv t (zero_rv, printed). (rw zero_rv refl, printed)

  -- `settings -v -b` and `settings -v -k`, with no error text so far, where the kernel enumerates
  -- settings behind CTL_KERN up to ENOENT, describes each of them and gives a text for each, refuses
  -- one for an empty OID, and none of the OIDs has more than CTL_MAXNAME / 4 numbers, and with more
  -- fuel than settings: main prints a line with the key and the text for each setting up to the first
  -- that has another privilege than the one that is asked for. If there is such a setting, main ends
  -- the process there with status 1 and a message; if there is none, it reports nothing and
  -- returns 0.
  pub main-text :
      (privilege : Privilege) {es : List Entry} (s : Process)
      → code_of privilege < 2
      → Walk K K.enoent (K.ctl_kern ∷ []) es
      → All (Fits K) es
      → length es < fuel
      → All (HasText K text_for) es
      → s.error_str ≡ none
      → Lists privilege es s (main K fuel progname (codes "-v" ∷ word_for privilege ∷ []) s)
  unfolding main parse parse_one getopt
  main-text boot s h w fits f texts no_text = list_action-Lists boot s h w fits f texts no_text
  main-text kern s h w fits f texts no_text = list_action-Lists kern s h w fits f texts no_text
  main-text user s h w fits f texts no_text = absurd (omega arith)
  main-text aqua s h w fits f texts no_text = absurd (omega arith)
  main-text (other n) s h w fits f texts no_text = absurd (omega arith)
