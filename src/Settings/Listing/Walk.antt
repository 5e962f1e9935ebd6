-- ===== src/Settings/Listing/Walk.antt =====
-- `settings_list` over the settings that the kernel enumerates.
use aquabsd_pkg_repo.Base.{
  ℕ, zero, suc, ◌*◌, ◌<◌, ◌≡◌, refl, sym, ◌∙◌, ap, true, Option, some, List, [], ◌∷◌, ◌++◌, map,
  length, All, ==_self, arith, ℤ,
}
use mathlib.Core.List.{append-nil, append_assoc}
use aquabsd_pkg_repo.Base.Prog.{Outcome, done, ◌>>=◌}
use aquabsd_pkg_repo.Settings.{
  Reply, ok, failed, Privilege, boot, kern, user, aqua, other, code_of, Sysctl, Process,
}
use aquabsd_pkg_repo.Settings.Heap.{Quiet, Quiet-trans}
use aquabsd_pkg_repo.Settings.Fill.{Entry, Described, Fits, query_sysctl-ok}
use aquabsd_pkg_repo.Settings.Listing.{
  Stack, empty, settings_of, add_setting, list_from, list_sysctl, settings_list,
}
use aquabsd_pkg_repo.Settings.Listing.Adding.{view, HoldsAll, shown, add_setting-Described}

module _ (K : Sysctl) where
  abbrev next_of : List ℕ → Reply (List ℕ)
  next_of name =
      K.sysctl_ints (K.ctl_sysctl ∷ K.ctl_sysctl_nextnoskip ∷ name) [] (4 * K.ctl_maxname)

  -- The settings that the kernel enumerates behind a name, up to the error that ends them.
  pub data Walk : ℕ → List ℕ → List Entry → Type 0 where
    end : {errno : ℕ} {name : List ℕ} → next_of name ≡ failed errno → Walk errno name []
    step :
        {errno : ℕ} {name : List ℕ} {e : Entry} {es : List Entry}
        → next_of name ≡ ok e.oid
        → Described K e
        → Walk errno e.oid es
        → Walk errno name (e ∷ es)

  -- What the loop ends with, from an array on.
  abbrev Collects :
      Privilege → List Entry → Stack → Process → Outcome Process (Option Stack) → Type 0
  Collects privilege es stack s r =
      (more : Stack) × (t : Process) × (r ≡ done (some more) t)
      × (map view (settings_of more) ≡ map view (settings_of stack) ++ map (shown K privilege) es)
      × HoldsAll more t
      × Quiet s t

  pub list_from_step :
      (fuel : ℕ) (privilege : Privilege) {name : List ℕ} (e : Entry) (stack : Stack) (s : Process)
      → next_of name ≡ ok e.oid
      → Described K e
      → (more : Stack) (t : Process)
      → add_setting K stack e.key e.oid privilege s ≡ done (true, more) t
      → list_from K (suc fuel) privilege name stack s ≡ list_from K fuel privilege e.oid more t
  unfolding list_from
  list_from_step fuel privilege e stack s next (buf, named, key, _, _, _) more t added =
      rw (next, list_from)
        (rw (query_sysctl-ok K K.ctl_sysctl_name e.oid buf s named, ◌>>=◌)
          (rw key (rw (added, ◌>>=◌) refl)))

  list_from-Walk :
      (fuel : ℕ) (privilege : Privilege) {name : List ℕ} {es : List Entry}
      → Walk K.enoent name es
      → All (Fits K) es
      → length es < fuel
      → (stack : Stack) (s : Process) → HoldsAll stack s
      → Collects privilege es stack s (list_from K fuel privilege name stack s)
  unfolding list_from
  list_from-Walk zero privilege w fits h stack s live = absurd (omega arith)
  list_from-Walk (suc fuel) privilege (end last) fits h stack s live = (
    stack,
    s,
    rw (last, list_from) (rw (==_self K.enoent) refl),
    sym (append-nil (map view (settings_of stack))),
    live,
    (refl, refl, refl),
  )
  list_from-Walk (suc fuel) privilege (step {e = e} {es = es} next d w) (fit, fits) h stack s live =
      let (more, t, added, views, live', quiet) =
        add_setting-Described K stack e privilege s live d fit in
      let (all, u, listed, views', held, quiet') =
        list_from-Walk fuel privilege w fits (omega arith) more t live' in
      (
        all,
        u,
        list_from_step fuel privilege e stack s next d more t added ∙ listed,
        views'
            ∙ ap (λ v. v ++ map (shown K privilege) es) views
            ∙ append_assoc (map view (settings_of stack)) (shown K privilege e ∷ [])
                (map (shown K privilege) es),
        held,
        Quiet-trans s t u quiet quiet',
      )

  -- Where the kernel enumerates settings behind CTL_KERN up to ENOENT, describes each of them, and
  -- none of their OIDs has more than CTL_MAXNAME / 4 numbers, settings_list for the boot or the
  -- kernel privilege returns, with more fuel than settings, the settings in the kernel's order:
  -- every one of them with its key and its privilege, those of the other privilege included, and
  -- with type, flag and OID where it has the privilege that is asked for. All
  -- the blocks that these hold are allocated, each of them once for each pointer to it. It prints
  -- nothing and leaves the error text as it was.
  pub settings_list-Walk :
      (fuel : ℕ) (privilege : Privilege) (uid : ℤ) {es : List Entry} (s : Process)
      → code_of privilege < 2
      → Walk K.enoent (K.ctl_kern ∷ []) es
      → All (Fits K) es
      → length es < fuel
      → (listed : Stack) × (t : Process) × (settings_list K fuel true privilege uid s
          ≡ done (some listed) t)
        × (map view (settings_of listed) ≡ map (shown K privilege) es)
        × HoldsAll listed t
        × Quiet s t
  unfolding settings_list list_sysctl
  settings_list-Walk fuel boot uid s h w fits f =
      list_from-Walk fuel boot w fits f empty s (λ n. omega arith)
  settings_list-Walk fuel kern uid s h w fits f =
      list_from-Walk fuel kern w fits f empty s (λ n. omega arith)
  settings_list-Walk fuel user uid s h w fits f = absurd (omega arith)
  settings_list-Walk fuel aqua uid s h w fits f = absurd (omega arith)
  settings_list-Walk fuel (other n) uid s h w fits f = absurd (omega arith)
