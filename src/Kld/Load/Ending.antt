-- ===== src/Kld/Load/Ending.antt =====
-- How `do_load` of kld.c ends: with 0, or with a message.
use aquabsd_pkg_repo.Base.{
  ℕ, ◌≡◌, ◌≢◌, refl, not, some, List, [], ◌++◌, ℤ, inl, inr, Bool-cases, Option-cases, All,
}
use aquabsd_pkg_repo.Base.Bytes.{Bytes, codes, c_string, strsep, str_chr, str_str}
use aquabsd_pkg_repo.Base.Prog.{Reply, ◌>>=◌}
use aquabsd_pkg_repo.Base.Goes.{Goes, Goes-bind, Goes-if}
use aquabsd_pkg_repo.Kld.{ok, failed, FileId, Linker, Opts, Process, print, warn, pathctl}
use aquabsd_pkg_repo.Kld.Listing.Ending.{Reported, Acted, err-Reported, usage-Reported}
use aquabsd_pkg_repo.Kld.Load.{get_mib, read_path, get_path, load, load_searched, load_action}
use aquabsd_pkg_repo.Kld.Load.Path.{exists, search_from-Searched}

-- The value of kern.module_path, wherever the kernel gives it, ends in a NUL and has no empty
-- element.
abbrev pub HasNoEmpty : (L : Linker) → Type 0
HasNoEmpty L =
    (mib : List ℕ) (len : ℕ) (k : L.Kernel) (value : Bytes)
    → L.sysctlnametomib pathctl k ≡ some mib
    → L.sysctl_size mib k ≡ some len
    → L.sysctl_data mib len k ≡ some value
    → (path : Bytes) × (c_string value ≡ some path) × All (λ e. e ≢ []) (strsep b';' path)

module _ (L : Linker) (R : Type 0) where
  load-Acted :
      (opts : Opts) (name : Bytes) (s : Process L)
      → Goes (Acted L) (Reported L) R (load L opts name s)
  unfolding load print warn
  load-Acted opts name s = by_reply (L.kldload name s.kernel) refl
    where
      by_reply :
          (r : Reply ℤ × L.Kernel)
          → L.kldload name s.kernel ≡ r
          → Goes (Acted L) (Reported L) R (load L opts name s)
      by_reply (ok id, k) e = elim (Bool-cases opts.verbose) [
        | inl v ↦ rw (e, v, Goes) (inl refl)
        | inr q ↦ rw (e, q, Goes) (inl refl)
      ]
      by_reply (failed errno, k) e = rw (e, Goes) (inr (refl, (s.stderr, _, refl)))

  -- The MIB is that of kern.module_path.
  abbrev IsNamed : Process L → Opts → Process L → Type 0
  IsNamed s o t = (t ≡ s) × (L.sysctlnametomib pathctl t.kernel ≡ some o.mib)

  get_mib-IsNamed :
      (opts : Opts) (s : Process L)
      → opts.mib ≡ []
      → Goes (IsNamed s) (Reported L) R (get_mib L opts s)
  unfolding get_mib
  get_mib-IsNamed opts s e = rw e (elim (Option-cases (L.sysctlnametomib pathctl s.kernel)) [
    | inl f ↦ rw (f, Goes) (err-Reported L {A = Opts} (IsNamed s) R _ s)
    | inr (mib, f) ↦ rw (f, Goes) (refl, f)
  ])

  -- The path is a value of kern.module_path that the kernel has given.
  abbrev HasPath : Opts → Process L → Type 0
  HasPath o t =
      (value : Bytes) × (o.path ≡ some value)
      × ((mib : List ℕ) × (len : ℕ) × (k : L.Kernel) × (L.sysctlnametomib pathctl k ≡ some mib)
          × (L.sysctl_size mib k ≡ some len)
          × (L.sysctl_data mib len k ≡ some value))

  read_path-HasPath :
      (opts : Opts) (s : Process L)
      → L.sysctlnametomib pathctl s.kernel ≡ some opts.mib
      → Goes HasPath (Reported L) R (read_path L opts s)
  unfolding read_path
  read_path-HasPath opts s named = elim (Option-cases (L.sysctl_size opts.mib s.kernel)) [
    | inl e ↦ rw (e, Goes) (err-Reported L HasPath R _ s)
    | inr (len, e) ↦ elim (Option-cases (L.sysctl_data opts.mib len s.kernel)) [
      | inl f ↦ rw (e, f, Goes) (err-Reported L HasPath R _ s)
      | inr (value, f) ↦ rw (e, f, Goes) (value, refl, (opts.mib, len, s.kernel, named, e, f))
    ]
  ]

  get_path-HasPath :
      (opts : Opts) (s : Process L)
      → opts.mib ≡ []
      → Goes HasPath (Reported L) R (get_path L opts s)
  unfolding get_path
  get_path-HasPath opts s fresh =
      Goes-bind (IsNamed s) HasPath (Reported L) R (get_mib L opts) _ s
        (get_mib-IsNamed opts s fresh) λ o t (same, named). read_path-HasPath o t named

  module _ (tidy : HasNoEmpty L) where
    load_searched-Acted :
        (opts : Opts) (name : Bytes) (here : FileId) (s : Process L)
        → opts.mib ≡ []
        → Goes (Acted L) (Reported L) R (load_searched L opts name here s)
    unfolding load_searched warn
    load_searched-Acted opts name here s fresh =
        Goes-bind HasPath (Acted L) (Reported L) R (get_path L opts) _ s
          (get_path-HasPath opts s fresh)
          λ o t (value, e, (mib, len, k, named, sized, given)).
            let (path, ended, full) = tidy mib len k value named sized given in
            let (errs, run) = search_from-Searched L name here (strsep b';' path) t full in
            rw (e, ended)
              (rw (run, ◌>>=◌)
                (Goes-if (Acted L) (Reported L) R (exists L t.kernel (strsep b';' path))
                  (load L o name) _ (record t { stderr = t.stderr ++ errs })
                  (load-Acted o name (record t { stderr = t.stderr ++ errs }))
                  (inr (refl, (t.stderr ++ errs, _, refl)))))

    pub load_action-Acted :
        (opts : Opts) (s : Process L)
        → opts.mib ≡ []
        → Goes (Acted L) (Reported L) R (load_action L opts s)
    unfolding load_action
    load_action-Acted opts s fresh = elim (Option-cases opts.file) [
      | inl e ↦ rw e (usage-Reported L (Acted L) R s)
      | inr (name, e) ↦ rw e (
          Goes-if (Acted L) (Reported L) R (str_chr b'/' name) (load L opts name) _ s
            (load-Acted opts name s)
            (Goes-if (Acted L) (Reported L) R (not (str_str name (codes ".ko"))) (load L opts name)
              _ s (load-Acted opts name s)
              (elim (Option-cases (L.stat name s.kernel)) [
                | inl f ↦ rw f (load-Acted (record opts { file = some name }) name s)
                | inr (here, f) ↦
                    rw f (load_searched-Acted (record opts { file = some name }) name here s fresh)
              ])))
    ]
