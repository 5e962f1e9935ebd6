-- ===== src/SettingsTool/Ending/Listing.antt =====
-- How `do_list` of settings.c ends.
use aquabsd_pkg_repo.Base.{
  ℕ, refl, true, some, List, [], ◌∷◌, All, inl, inr, Bool-cases, arith, ◌+◌,
}
use aquabsd_pkg_repo.Base.Goes.{Goes, Goes-bind, Runs-Goes}
use aquabsd_pkg_repo.Settings.{Setting, Sysctl, Process}
use aquabsd_pkg_repo.Settings.Listing.{settings_list, settings_of}
use aquabsd_pkg_repo.Settings.Access.{setting_read_descr, setting_free}
use aquabsd_pkg_repo.Settings.Ownership.{
  AnyText, Shares, of_setting, of_settings, Sound, Sound-fewer,
}
use aquabsd_pkg_repo.Settings.Ownership.Finding.{IsTrusted}
use aquabsd_pkg_repo.Settings.Ownership.Holding.{
  DescribedOr, setting_read_descr-Sound, setting_free-Sound,
}
use aquabsd_pkg_repo.Settings.Ownership.Collecting.{
  Enumerates, HasKey, ListedOr, settings_list-ListedOr,
}
use aquabsd_pkg_repo.SettingsTool.{Opts, print, text_of, print_setting, list_each, list_action}
use aquabsd_pkg_repo.SettingsTool.Parsing.{Zero, Reported, library_errx-Reported}

module _ (K : Sysctl) (T : IsTrusted K) (R : Type 0) where
  -- A setting that has its key, and its description with -v.
  abbrev Shown : Shares → Setting → Process → Type 0
  Shown f y t = Sound AnyText (λ n. of_setting y n + f n) t

  print_setting-Shown :
      (opts : Opts) (x : Setting) (f : Shares) (s : Process)
      → HasKey x
      → Sound AnyText (λ n. of_setting x n + f n) s
      → Goes (Shown f) Reported R (print_setting K opts x s)
  unfolding print_setting text_of print
  print_setting-Shown opts x f s (key, k) h = elim (Bool-cases opts.verbose) [
    | inr e ↦
        rw (e, k, Goes) (record { told = tt; owned = h.owned; once = h.once; unused = h.unused })
    | inl e ↦ rw e (
        Goes-bind (DescribedOr R AnyText K x f) (Shown f) Reported R (setting_read_descr K x) _ s
          (Runs-Goes (DescribedOr R AnyText K x f) Reported R _
            (setting_read_descr-Sound R AnyText K T x f s h))
          λ r t post. elim post [
            | inl (none_told, h') ↦
                rw none_told (library_errx-Reported (Shown f) R _ (λ n. of_setting x n + f n) t h')
            | inr (y, seen, key_kept, kind_kept, oid_kept, privilege_kept, empty, (descr, d), h') ↦
                rw (seen, key_kept, k, d, Goes)
                  (record { told = tt; owned = h'.owned; once = h'.once; unused = h'.unused })
          ])
  ]

  list_each-Sound :
      (opts : Opts) (xs : List Setting) (f : Shares) (s : Process)
      → All HasKey xs
      → Sound AnyText (λ n. of_settings xs n + f n) s
      → Goes (λ u t. Sound AnyText f t) Reported R (list_each K opts xs s)
  unfolding list_each
  list_each-Sound opts [] f s keys h = Sound-fewer _ f s (λ n. omega arith) h
  list_each-Sound opts (x ∷ xs) f s (k, keys) h =
      let rest : Shares = λ n. of_settings xs n + f n in
      Goes-bind (Shown rest) (λ u t. Sound AnyText f t) Reported R (print_setting K opts x) _ s
        (print_setting-Shown opts x rest s k (Sound-fewer _ _ s (λ n. omega arith) h))
        λ y t h'.
          Goes-bind (λ rv t. Sound AnyText rest t) (λ u t. Sound AnyText f t) Reported R
            (setting_free (some y)) _ t
            (Runs-Goes (λ rv t. Sound AnyText rest t) Reported R _
              (setting_free-Sound R AnyText y rest t h'))
            λ rv u h''. list_each-Sound opts xs f u keys h''

  pub list_action-Zero :
      (fuel : ℕ) (opts : Opts) (s : Process)
      → (Enumerates K fuel (K.ctl_kern ∷ []) → R)
      → Sound AnyText (λ n. 0) s
      → Goes Zero Reported R (list_action K fuel opts s)
  unfolding list_action
  list_action-Zero fuel opts s r h =
      Goes-bind (ListedOr R AnyText (λ n. 0)) Zero Reported R
        (settings_list K fuel true opts.privilege opts.uid) _ s
        (Runs-Goes (ListedOr R AnyText (λ n. 0)) Reported R _
          (settings_list-ListedOr R AnyText K T fuel true opts.privilege opts.uid (λ n. 0) s r h))
        λ listed t post. elim post [
          | inl (e, h') ↦ rw e (library_errx-Reported Zero R _ (λ n. 0) t h')
          | inr (stack, e, keys, h') ↦ rw e (
              Goes-bind (λ u t. Sound AnyText (λ n. 0) t) Zero Reported R
                (list_each K opts (settings_of stack)) _ t
                (list_each-Sound opts (settings_of stack) (λ n. 0) t keys
                  (Sound-fewer _ _ t (λ n. omega arith) h'))
                λ u v h''. refl)
        ]
