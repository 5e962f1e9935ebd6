-- ===== src/Kld/Main/Loading.antt =====
-- `kld -l -n NAME` from the words of the command line to what the kernel is asked for.
use mathlib.Core.List.{append-nil}
use aquabsd_pkg_repo.Base.{
  ℕ, ◌≡◌, refl, sym, ap, ◌∙◌, Bool, true, false, some, List, [], ◌∷◌, ◌++◌, ◌==◌, if◌then◌else◌, ℤ,
  pos, negsuc, inl, inr, ◌⊎◌, ◌≢◌, All, Bool-cases,
}
use aquabsd_pkg_repo.Base.Bytes.{Bytes, codes, format}
use aquabsd_pkg_repo.Base.Getopt.{getopt}
use aquabsd_pkg_repo.Base.Prog.{Outcome, done, ◌>>=◌, Reply-cases}
use aquabsd_pkg_repo.Base.Words.{is_negative}
use aquabsd_pkg_repo.Kld.{Reply, ok, failed, Linker, FileId, Opts, do_load, defaults, Process, warn}
use aquabsd_pkg_repo.Kld.Main.{parse, parse_one, main}
use aquabsd_pkg_repo.Kld.Load.{load, load_action}
use aquabsd_pkg_repo.Kld.Load.Path.{exists}
use aquabsd_pkg_repo.Kld.Load.Route.{
  IsDirect, IsHere, HasPath, load_action-IsDirect, load_action-IsHere,
}

module _ (L : Linker) (fuel : ℕ) where
  -- Whether a file is loaded: at once, or if an element of the search path exists.
  abbrev pub Loadable : Bytes → L.Kernel → Bool → Type 0
  Loadable name k found =
      (IsDirect L name k × (found ≡ true))
      ⊎ ((here : FileId) × (path : List Bytes) × IsHere L name here k
          × HasPath L k path
          × All (λ elem. elem ≢ []) path
          × (found ≡ exists L k path))

  abbrev pub load_status : Reply ℤ → ℕ
  load_status (ok id) = 0
  load_status (failed errno) = 1

  -- What main leaves of the process: the kernel after kldload or as it was.
  abbrev pub Loaded : Bytes → Bool → Process L → Outcome (Process L) ℕ → Type 0
  Loaded name found s r =
      (t : Process L) × (r ≡ done (if found then load_status (L.kldload name s.kernel).0 else 1) t)
      × (t.kernel ≡ (if found then (L.kldload name s.kernel).1 else s.kernel))
      × (t.stdout ≡ s.stdout)

  -- The status that main makes of what an action returns.
  abbrev status_of : ℤ → ℕ
  status_of rv = if is_negative rv then 1 else 0

  abbrev complaint : Bytes → ℕ → Bytes
  complaint name errno =
      if errno == L.eexist
      then format (codes "can't load %s: module already loaded or in kernel") (name ∷ [])
      else if errno == L.enoexec
      then format
          (codes "an error occurred while loading %s; please check dmesg(8) for more details")
          (name ∷ [])
      else format (codes "can't load %s") (name ∷ [])

  load-Loaded :
      (opts : Opts) (name : Bytes) (s : Process L) (errs : List Bytes)
      → opts.verbose ≡ false
      → (rv : ℤ) × (t : Process L) × (load L opts name (record s { stderr = s.stderr ++ errs })
          ≡ done rv t)
        × (status_of rv ≡ load_status (L.kldload name s.kernel).0)
        × (t.kernel ≡ (L.kldload name s.kernel).1)
        × (t.stdout ≡ s.stdout)
  unfolding load warn
  load-Loaded opts name s errs quiet = elim (Reply-cases (L.kldload name s.kernel).0) [
    | inl (id, e) ↦ (
      pos 0,
      record s { stderr = s.stderr ++ errs; kernel = (L.kldload name s.kernel).1 },
      rw (e, load) (rw quiet refl),
      rw e refl,
      refl,
      refl,
    )
    | inr (errno, e) ↦ (
      negsuc 0,
      record s {
        stderr = (s.stderr ++ errs) ++ (complaint name errno ∷ []);
        kernel = (L.kldload name s.kernel).1;
      },
      rw (e, load) refl,
      rw e refl,
      refl,
      refl,
    )
  ]

  abbrev pub loading : Bytes → Opts
  loading name = record defaults { action = do_load; file = some name }

  main-runs :
      (name : Bytes) (s t : Process L) (rv : ℤ)
      → load_action L (loading name) s ≡ done rv t
      → main L fuel (codes "-l" ∷ codes "-n" ∷ name ∷ []) s ≡ done (status_of rv) t
  unfolding main parse parse_one getopt
  main-runs name s t rv e = rw (e, ◌>>=◌) refl

  -- The end of do_load where it goes on to kldload.
  pub main-Loaded :
      (opts : Opts) (name : Bytes) (s : Process L) (errs : List Bytes)
      → opts.verbose ≡ false
      → load_action L (loading name) s ≡ load L opts name (record s { stderr = s.stderr ++ errs })
      → Loaded name true s (main L fuel (codes "-l" ∷ codes "-n" ∷ name ∷ []) s)
  main-Loaded opts name s errs quiet e =
      let (rv, t, run, status, kernel, out) = load-Loaded opts name s errs quiet in
      (t, main-runs name s t rv (e ∙ run) ∙ ap (λ c. done c t) status, kernel, out)

  -- `kld -l -n NAME`, for a name that has a slash, has no ".ko" or is not in the current directory,
  -- or where kern.module_path can be read and has no empty element: main asks the kernel to load
  -- NAME in the first three cases, and otherwise just if some element of the path exists. It returns
  -- 0 where the kernel loads it and 1 where it refuses or is not asked, prints nothing, and changes
  -- the kernel in no other way.
  pub main-loads :
      (name : Bytes) (s : Process L) (found : Bool)
      → Loadable name s.kernel found
      → Loaded name found s (main L fuel (codes "-l" ∷ codes "-n" ∷ name ∷ []) s)
  main-loads name s found (inl (direct, e)) = rw e (
      main-Loaded (loading name) name s [] refl (
        load_action-IsDirect L (loading name) name s refl direct
        ∙ ap (λ (o : List Bytes). load L (loading name) name (record s { stderr = o }))
            (sym (append-nil s.stderr))))
  main-loads name s found (inr (here, path, is_here, has_path, full, e)) =
      let (opts, errs, quiet, run) =
        load_action-IsHere L (record defaults { action = do_load }) name here s path is_here
          has_path full in
      rw e (elim (Bool-cases (exists L s.kernel path)) [
        | inl present ↦ rw present (main-Loaded opts name s errs quiet (rw present at run))
        | inr missing ↦
            rw missing (_, main-runs name s _ (negsuc 0) (rw missing at run), refl, refl)
      ])
