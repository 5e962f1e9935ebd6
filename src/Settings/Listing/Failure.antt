-- ===== src/Settings/Listing/Failure.antt =====
-- `settings_list` where the kernel fails in the middle.
use aquabsd_pkg_repo.Base.{
  ℕ, zero, suc, ◌<◌, ◌≡◌, refl, ◌∙◌, ap, true, false, Option, none, some, List, [], ◌∷◌, ◌++◌, ◌==◌,
  length, All, arith, ℤ,
}
use aquabsd_pkg_repo.Base.Bytes.{Bytes, codes}
use aquabsd_pkg_repo.Base.Prog.{Outcome, done, ◌>>=◌, ◌>>◌}
use aquabsd_pkg_repo.Settings.{
  Privilege, boot, kern, user, aqua, other, code_of, Setting, Sysctl, Process, message,
  settings_error_str,
}
use aquabsd_pkg_repo.Settings.Blocks.{
  Holds, block_list, blocks_of, count-append, count-blocks_onto, free_owned-Holds,
  setting_free-Holds,
}
use aquabsd_pkg_repo.Settings.Heap.{Quiet}
use aquabsd_pkg_repo.Settings.Errors.{Call, holding, emit_call-first}
use aquabsd_pkg_repo.Settings.Fill.{Entry, Fits}
use aquabsd_pkg_repo.Settings.Listing.{
  Stack, empty, settings_of, free_each, free_settings, give_up, list_from, list_sysctl,
  settings_list,
}
use aquabsd_pkg_repo.Settings.Listing.Adding.{HoldsAll, add_setting-Described}
use aquabsd_pkg_repo.Settings.Listing.Walk.{Walk, end, step, list_from_step}

free_each-Holds :
    (xs : List Setting) (bs : List ℕ) (s : Process)
    → Holds (blocks_of xs ++ bs) s.live
    → (live : List ℕ) × (free_each xs s ≡ done tt (record s { live = live })) × Holds bs live
unfolding free_each
free_each-Holds [] bs s h = (s.live, refl, h)
free_each-Holds (x ∷ xs) bs s h =
    let (live, e, held) = setting_free-Holds x (blocks_of xs ++ bs) s (λ n. omega (
      arith,
      h n,
      count-append n (blocks_of (x ∷ xs)) bs,
      count-append n (blocks_of xs) bs,
      count-blocks_onto n x (blocks_of xs),
      count-blocks_onto n x (blocks_of xs ++ bs),
    )) in
    let (live', e', held') = free_each-Holds xs bs (record s { live = live }) held in
    (live', rw (e, free_each, ◌>>=◌) e', held')

give_up-HoldsAll :
    (K : Sysctl) (stack : Stack) (s : Process)
    → HoldsAll stack s
    → (t : Process) × (give_up K stack s ≡ done none t) × Quiet s t
unfolding give_up free_settings
give_up-HoldsAll K stack s h =
    let a = block_list stack.array in
    let xs = settings_of stack in
    let (live, e, held) = free_each-Holds xs (a ++ []) s (λ n. omega (
      arith,
      h n,
      count-append n a (blocks_of xs),
      count-append n (blocks_of xs) (a ++ []),
      count-append n a [],
    )) in
    let (live', e', held') = free_owned-Holds stack.array [] (record s { live = live }) held in
    (
      record s { live = live' },
      rw (e, give_up, free_settings, ◌>>=◌, ◌>>◌) (rw (e', ◌>>=◌) refl),
      (refl, refl, refl),
    )

module _ (K : Sysctl) (errno : ℕ) (other_error : (errno == K.enoent) ≡ false) where
  -- The text of the error.
  abbrev pub getnext_text : Bytes
  getnext_text = message (codes "sysctl(getnext): %s") (some (K.strerror errno)) none

  -- -1, with that text, and nothing said.
  abbrev pub Fails : Process → Outcome Process (Option Stack) → Type 0
  Fails s r =
      (t : Process) × (r ≡ done none t)
      × (settings_error_str t ≡ some getnext_text)
      × (t.stdout ≡ s.stdout)
      × (t.stderr ≡ s.stderr)

  list_from-Fails :
      (fuel : ℕ) (privilege : Privilege) {name : List ℕ} {es : List Entry}
      → Walk K errno name es
      → All (Fits K) es
      → length es < fuel
      → (stack : Stack) (s : Process) → HoldsAll stack s
      → s.error_str ≡ none
      → Fails s (list_from K fuel privilege name stack s)
  unfolding list_from settings_error_str
  list_from-Fails zero privilege w fits h stack s held fresh = absurd (omega arith)
  list_from-Fails (suc fuel) privilege (end last) fits h stack s held fresh =
      let call : Call = record {
        fmt = codes "sysctl(getnext): %s";
        primary = some (K.strerror errno);
        secondary = none;
      } in
      let s₁ : Process = holding s s.next getnext_text s.live in
      let (t, e, (kept, out, errs)) = give_up-HoldsAll K stack s₁ (λ n. omega (arith, held n)) in
      (
        t,
        rw (last, list_from) (rw other_error (rw (emit_call-first call s fresh, ◌>>=◌, ◌>>◌) e)),
        ap (λ o. elim o [ none ↦ none | some text ↦ some text.value ]) kept,
        out,
        errs,
      )
  list_from-Fails (suc fuel) privilege (step {e = e} {es = es} next d w) (fit, fits) h stack s held
        fresh =
      let (more, t, added, views, held', (same, out, errs)) =
        add_setting-Described K stack e privilege s held d fit in
      let (u, run, text, out', errs') =
        list_from-Fails fuel privilege w fits (omega arith) more t held' (same ∙ fresh) in
      (
        u,
        list_from_step K fuel privilege e stack s next d more t added ∙ run,
        text,
        out' ∙ out,
        errs' ∙ errs,
      )

  -- With no error text so far, where the kernel enumerates settings behind CTL_KERN and then fails
  -- with an error other than ENOENT, describes each of them, and none of their OIDs has more than
  -- CTL_MAXNAME / 4 numbers: settings_list for the boot or the kernel privilege, with more fuel than
  -- settings, does nothing undefined, prints nothing and returns -1 with the text of that error.
  pub settings_list-Fails :
      (fuel : ℕ) (privilege : Privilege) (uid : ℤ) {es : List Entry} (s : Process)
      → code_of privilege < 2
      → s.error_str ≡ none
      → Walk K errno (K.ctl_kern ∷ []) es
      → All (Fits K) es
      → length es < fuel
      → Fails s (settings_list K fuel true privilege uid s)
  unfolding settings_list list_sysctl
  settings_list-Fails fuel boot uid s h fresh w fits f =
      list_from-Fails fuel boot w fits f empty s (λ n. omega arith) fresh
  settings_list-Fails fuel kern uid s h fresh w fits f =
      list_from-Fails fuel kern w fits f empty s (λ n. omega arith) fresh
  settings_list-Fails fuel user uid s h fresh w fits f = absurd (omega arith)
  settings_list-Fails fuel aqua uid s h fresh w fits f = absurd (omega arith)
  settings_list-Fails fuel (other n) uid s h fresh w fits f = absurd (omega arith)
