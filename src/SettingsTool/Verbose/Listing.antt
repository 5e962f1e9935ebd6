-- ===== src/SettingsTool/Verbose/Listing.antt =====
-- The loop of `do_list` with the option -v.
use mathlib.Core.Path.{subst}
use mathlib.Core.List.{append-nil, append_assoc}
use aquabsd_pkg_repo.Base.{
  ℕ, ◌<◌, ◌≡◌, refl, sym, ◌∙◌, ap, true, false, none, some, List, [], ◌∷◌, ◌++◌, pos, map, length,
  All, Bool-cases, inl, inr, arith,
}
use aquabsd_pkg_repo.Base.Bytes.{Bytes, codes, format}
use aquabsd_pkg_repo.Base.Goes.{Ends, Ends-bind}
use aquabsd_pkg_repo.Base.Prog.{◌>>=◌, ◌>>◌}
use aquabsd_pkg_repo.Settings.{failed, code_of, Setting, Sysctl, Process}
use aquabsd_pkg_repo.Settings.Heap.{allocated}
use aquabsd_pkg_repo.Settings.Blocks.{
  Holds, blocks_of, block_list, count-append, setting_free-Holds,
}
use aquabsd_pkg_repo.Settings.Fill.{Entry, Fits, is_asked}
use aquabsd_pkg_repo.Settings.Listing.{settings_of}
use aquabsd_pkg_repo.Settings.Listing.Adding.{View, view, shown}
use aquabsd_pkg_repo.Settings.Listing.Walk.{Walk, settings_list-Walk}
use aquabsd_pkg_repo.SettingsTool.{Opts, list_action, list_each}
use aquabsd_pkg_repo.SettingsTool.Keys.{owned_value, key-shown}
use aquabsd_pkg_repo.SettingsTool.Verbose.Printing.{
  oid_of-contents, Printed, Cut, HasText, described, described-Holds, text_lines, all_asked,
  print_verbose, print_refused,
}

module _ (K : Sysctl) (opts : Opts) (loud : opts.verbose ≡ true) (text_for : Entry → Bytes)
    (errno : ℕ)
    (refused : K.sysctl (K.ctl_sysctl ∷ K.ctl_sysctl_oiddescr ∷ []) K.bufsiz ≡ failed errno) where
  oid-shown :
      (e : Entry) → is_asked K opts.privilege e ≡ true → (shown K opts.privilege e).oid ≡ some e.oid
  oid-shown e asked = rw asked refl

  oid-hidden :
      (e : Entry) → is_asked K opts.privilege e ≡ false → (shown K opts.privilege e).oid ≡ none
  oid-hidden e unasked = rw unasked refl

  list_each-text :
      (xs : List Setting) (es : List Entry) (s : Process)
      → map view xs ≡ map (shown K opts.privilege) es
      → Holds (blocks_of xs) s.live
      → All (HasText K text_for) es
      → s.error_str ≡ none
      → Ends
          (Printed
            (all_asked K opts.privilege es)
            (s.stdout ++ text_lines K opts.privilege text_for es)
            s.stderr)
          (Cut
            (all_asked K opts.privilege es)
            (s.stdout ++ text_lines K opts.privilege text_for es)
            s.stderr)
          (list_each K opts xs s)
  unfolding list_each
  list_each-text [] [] s v h texts no_text = (refl, sym (append-nil s.stdout), refl)
  list_each-text [] (e ∷ es) s v h texts no_text = absurd (cc)
  list_each-text (x ∷ xs) [] s v h texts no_text = absurd (cc)
  list_each-text (x ∷ xs) (e ∷ es) s v h ((value, given, ended), texts) no_text =
      let here : view x ≡ shown K opts.privilege e = cc in
      let later : map view xs ≡ map (shown K opts.privilege) es = cc in
      let (p, key, same_key) =
        owned_value x.key e.key (ap (λ (w : View). w.key) here ∙ key-shown K opts.privilege e) in
      elim (Bool-cases (is_asked K opts.privilege e)) [
        | inl asked ↦
            let oid =
              oid_of-contents x (some e.oid) (ap (λ (w : View). w.oid) here ∙ oid-shown e asked) in
            let run =
              print_verbose K opts loud x e.oid value (text_for e) p s oid given ended key in
            let line = format (codes "%s (%s)") (p.value ∷ text_for e ∷ []) ++ (10 ∷ []) in
            let s₁ : Process = record (allocated s) { stdout = s.stdout ++ (line ∷ []) } in
            let (live, freed, held) =
              setting_free-Holds (described K x s.next (text_for e)) (blocks_of xs) s₁
                (described-Holds K x (blocks_of xs) s.next (text_for e) s.live h) in
            rw asked (
              rw (run, list_each, ◌>>=◌, ◌>>◌)
                (rw (freed, ◌>>=◌)
                  (subst
                    (λ out.
                      Ends (Printed (all_asked K opts.privilege es) out s.stderr)
                        (Cut (all_asked K opts.privilege es) out s.stderr)
                        (list_each K opts xs (record s₁ { live = live })))
                    (append_assoc s.stdout (line ∷ []) (text_lines K opts.privilege text_for es)
                      ∙ ap
                          (λ k.
                            s.stdout
                            ++ ((format (codes "%s (%s)") (k ∷ text_for e ∷ []) ++ (10 ∷ []))
                                ∷ text_lines K opts.privilege text_for es))
                          same_key)
                    (list_each-text xs es (record s₁ { live = live }) later held texts no_text))))
        | inr unasked ↦
            let (t, text, run, out, errs) =
              print_refused K opts loud x errno s
                (oid_of-contents x none (ap (λ (w : View). w.oid) here ∙ oid-hidden e unasked))
                no_text refused in
            rw unasked (
              rw (run, list_each, ◌>>=◌)
                (refl, refl, out ∙ sym (append-nil s.stdout), (text, errs)))
      ]

  -- `do_list` with -v
  pub list_action-text :
      (fuel : ℕ) {es : List Entry} (s : Process)
      → code_of opts.privilege < 2
      → Walk K K.enoent (K.ctl_kern ∷ []) es
      → All (Fits K) es
      → length es < fuel
      → All (HasText K text_for) es
      → s.error_str ≡ none
      → Ends
          (λ rv t.
            (rv ≡ pos 0)
            × Printed
                (all_asked K opts.privilege es)
                (s.stdout ++ text_lines K opts.privilege text_for es)
                s.stderr
                rv
                t)
          (Cut
            (all_asked K opts.privilege es)
            (s.stdout ++ text_lines K opts.privilege text_for es)
            s.stderr)
          (list_action K fuel opts s)
  unfolding list_action
  list_action-text fuel {es} s h w fits f texts no_text =
      let (listed, t, run, views, held, (same_text, out, errs)) =
        settings_list-Walk K fuel opts.privilege opts.uid s h w fits f in
      let lines = text_lines K opts.privilege text_for es in
      rw (run, ◌>>=◌)
        (Ends-bind (Printed (all_asked K opts.privilege es) (s.stdout ++ lines) s.stderr)
          (λ rv t.
            (rv ≡ pos 0)
            × Printed (all_asked K opts.privilege es) (s.stdout ++ lines) s.stderr rv t)
          (Cut (all_asked K opts.privilege es) (s.stdout ++ lines) s.stderr)
          (list_each K opts (settings_of listed)) _ t
          (subst
            (λ errs.
              Ends (Printed (all_asked K opts.privilege es) (s.stdout ++ lines) errs)
                (Cut (all_asked K opts.privilege es) (s.stdout ++ lines) errs)
                (list_each K opts (settings_of listed) t))
            errs
            (subst
              (λ out.
                Ends (Printed (all_asked K opts.privilege es) (out ++ lines) t.stderr)
                  (Cut (all_asked K opts.privilege es) (out ++ lines) t.stderr)
                  (list_each K opts (settings_of listed) t))
              out
              (list_each-text (settings_of listed) es t views
                (λ n. omega (
                  arith,
                  held n,
                  count-append n (block_list listed.array) (blocks_of (settings_of listed)),
                ))
                texts (same_text ∙ no_text))))
          λ u v printed. (refl, printed))
