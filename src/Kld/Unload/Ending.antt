-- ===== src/Kld/Unload/Ending.antt =====
-- How `do_unload` of kld.c ends: with 0, or with a message.
use aquabsd_pkg_repo.Base.{◌≡◌, refl, inl, inr, Bool-cases, Option-cases}
use aquabsd_pkg_repo.Base.Words.{is_negative}
use aquabsd_pkg_repo.Base.Prog.{Reply}
use aquabsd_pkg_repo.Base.Goes.{Goes, Goes-bind}
use aquabsd_pkg_repo.Kld.{ok, failed, Linker, Opts, Process, print, warn, compute_id}
use aquabsd_pkg_repo.Kld.Listing.Ending.{
  Reported, Acted, usage-Reported, Computed, compute_id-Computed,
}
use aquabsd_pkg_repo.Kld.Unload.{unload, unload_id, unload_action}

module _ (L : Linker) (R : Type 0) where
  unload-Acted : (opts : Opts) (s : Process L) → Goes (Acted L) (Reported L) R (unload L opts s)
  unfolding unload warn
  unload-Acted opts s = by_reply (L.kldunloadf opts.id opts.force s.kernel) refl
    where
      by_reply :
          (r : Reply (Unit {0}) × L.Kernel)
          → L.kldunloadf opts.id opts.force s.kernel ≡ r
          → Goes (Acted L) (Reported L) R (unload L opts s)
      by_reply (ok u, k) e = rw (e, Goes) (inl refl)
      by_reply (failed errno, k) e = rw (e, Goes) (inr (refl, (s.stderr, _, refl)))

  unload_id-Acted :
      (opts : Opts) (s : Process L) → Goes (Acted L) (Reported L) R (unload_id L opts s)
  unfolding unload_id print warn
  unload_id-Acted opts s = elim (Bool-cases (is_negative opts.id)) [
    | inl absent ↦ rw absent (usage-Reported L (Acted L) R s)
    | inr given ↦ rw given (elim (Bool-cases opts.verbose) [
      | inr quiet ↦ rw quiet (unload-Acted opts s)
      | inl verbose ↦ rw verbose (elim (Option-cases (L.kldstat opts.id s.kernel)) [
        | inl e ↦ rw (e, Goes) (inr (refl, (s.stderr, _, refl)))
        | inr (f, e) ↦ rw (e, Goes) (unload-Acted opts _)
      ])
    ])
  ]

  pub unload_action-Acted :
      (opts : Opts) (s : Process L) → Goes (Acted L) (Reported L) R (unload_action L opts s)
  unfolding unload_action
  unload_action-Acted opts s =
      Goes-bind (Computed L s.kernel) (Acted L) (Reported L) R (compute_id L opts) _ s
        (compute_id-Computed L R opts s)
        λ r t (same, post). elim post [
          | inl (e, warned) ↦ rw (e, Goes) (inr (refl, warned))
          | inr (opts', e) ↦ rw e (unload_id-Acted opts' t)
        ]
