-- ===== src/SettingsTool/Keys.antt =====
-- `do_list` of settings.c over the settings that the kernel enumerates.
use aquabsd_pkg_repo.Base.{
  ℕ, ◌<◌, ◌≡◌, refl, sym, ◌∙◌, ap, false, Option, none, some, List, [], ◌∷◌, ◌++◌, pos, map, length,
  All, Bool-cases, inl, inr, arith,
}
use mathlib.Core.List.{append-nil, append_assoc}
use aquabsd_pkg_repo.Base.Bytes.{Bytes}
use aquabsd_pkg_repo.Base.Prog.{done, ◌>>=◌, ◌>>◌, >>=-done, pure}
use aquabsd_pkg_repo.Settings.{code_of, Privilege, Owned, Setting, Sysctl, Process}
use aquabsd_pkg_repo.Settings.Blocks.{
  Holds, blocks_of, block_list, count-append, setting_free-Holds,
}
use aquabsd_pkg_repo.Settings.Fill.{Entry, Fits, is_asked}
use aquabsd_pkg_repo.Settings.Listing.{settings_of}
use aquabsd_pkg_repo.Settings.Listing.Adding.{View, view, contents_of, shown}
use aquabsd_pkg_repo.Settings.Listing.Walk.{Walk, settings_list-Walk}
use aquabsd_pkg_repo.SettingsTool.{Opts, list_action, list_each, print_setting, print, text_of}

-- The line of an entry.
abbrev pub key_line : Entry → Bytes
key_line e = e.key ++ (10 ∷ [])

pub owned_value :
    {A : Type 0} (o : Option (Owned A)) (a : A)
    → contents_of o ≡ some a
    → (p : Owned A) × (o ≡ some p) × (p.value ≡ a)
owned_value none a h = absurd (cc)
owned_value (some p) a h = (p, refl, cc)

module _ (K : Sysctl) where
  pub key-shown : (privilege : Privilege) (e : Entry) → (shown K privilege e).key ≡ some e.key
  key-shown privilege e = elim (Bool-cases (is_asked K privilege e)) [
    | inl asked ↦ rw asked refl
    | inr unasked ↦ rw unasked refl
  ]

  module _ (opts : Opts) (quiet : opts.verbose ≡ false) where
    print_setting-key :
        (x : Setting) (p : Owned Bytes) (s : Process)
        → x.key ≡ some p
        → print_setting K opts x s
          ≡ done x (record s { stdout = s.stdout ++ ((p.value ++ (10 ∷ [])) ∷ []) })
    unfolding print_setting text_of print
    print_setting-key x p s h =
        rw (quiet, print_setting)
          (>>=-done (text_of x.key (λ key. print (key ++ (10 ∷ [])))) (λ u. pure x)
            (ap (λ o. text_of o (λ key. print (key ++ (10 ∷ []))) s) h))

    list_each-shown :
        (xs : List Setting) (es : List Entry) (s : Process)
        → map view xs ≡ map (shown K opts.privilege) es
        → Holds (blocks_of xs) s.live
        → (t : Process) × (list_each K opts xs s ≡ done tt t)
          × (t.stdout ≡ s.stdout ++ map key_line es)
          × (t.stderr ≡ s.stderr)
    unfolding list_each
    list_each-shown [] [] s v h = (s, refl, sym (append-nil s.stdout), refl)
    list_each-shown [] (e ∷ es) s v h = absurd (cc)
    list_each-shown (x ∷ xs) [] s v h = absurd (cc)
    list_each-shown (x ∷ xs) (e ∷ es) s v h =
        let here : view x ≡ shown K opts.privilege e = cc in
        let later : map view xs ≡ map (shown K opts.privilege) es = cc in
        let (p, key, value) =
          owned_value x.key e.key (ap (λ (w : View). w.key) here ∙ key-shown opts.privilege e) in
        let s₁ : Process = record s { stdout = s.stdout ++ ((p.value ++ (10 ∷ [])) ∷ []) } in
        let (live, freed, held) = setting_free-Holds x (blocks_of xs) s₁ h in
        let (t, rest, out, errs) = list_each-shown xs es (record s₁ { live = live }) later held in
        (
          t,
          rw (print_setting-key x p s key, list_each, ◌>>=◌) (rw (freed, ◌>>=◌) rest),
          out
              ∙ append_assoc s.stdout ((p.value ++ (10 ∷ [])) ∷ []) (map key_line es)
              ∙ ap (λ k. s.stdout ++ ((k ++ (10 ∷ [])) ∷ map key_line es)) value,
          errs,
        )

    -- Where the kernel enumerates settings behind CTL_KERN up to ENOENT, describes each of them, and
    -- none of their OIDs has more than CTL_MAXNAME / 4 numbers, settings without -r and -v, for the
    -- boot or the kernel privilege and with more fuel than settings, prints the key of every setting
    -- with a newline, in the kernel's order, whichever privilege it has, reports nothing and
    -- returns 0.
    pub list_action-Walk :
        (fuel : ℕ) {es : List Entry} (s : Process)
        → code_of opts.privilege < 2
        → Walk K K.enoent (K.ctl_kern ∷ []) es
        → All (Fits K) es
        → length es < fuel
        → (t : Process) × (list_action K fuel opts s ≡ done (pos 0) t)
          × (t.stdout ≡ s.stdout ++ map key_line es)
          × (t.stderr ≡ s.stderr)
    unfolding list_action
    list_action-Walk fuel {es} s h w fits f =
        let (listed, t, run, views, held, (_, out, errs)) =
          settings_list-Walk K fuel opts.privilege opts.uid s h w fits f in
        let (u, run', out', errs') = list_each-shown (settings_of listed) es t views (λ n. omega (
          arith,
          held n,
          count-append n (block_list listed.array) (blocks_of (settings_of listed)),
        )) in
        (
          u,
          rw (run, ◌>>=◌) (rw (run', ◌>>=◌, ◌>>◌) refl),
          out' ∙ ap (λ o. o ++ map key_line es) out,
          errs' ∙ errs,
        )
