-- ===== src/Kld/Main/Empty.antt =====
-- `kld -l -n NAME` where kern.module_path has an empty element.
use aquabsd_pkg_repo.Base.{
  ℕ, ◌≡◌, ◌≢◌, refl, ap, ◌∙◌, true, false, some, List, [], ◌∷◌, ◌++◌, All, ◌⊎◌, inl, inr,
}
use aquabsd_pkg_repo.Base.Bytes.{Bytes, codes}
use aquabsd_pkg_repo.Base.Getopt.{getopt}
use aquabsd_pkg_repo.Base.Prog.{done, fault, ◌>>=◌}
use aquabsd_pkg_repo.Kld.{Linker, FileId, Opts, do_load, defaults, Process}
use aquabsd_pkg_repo.Kld.Load.{load, load_action, load_searched, search_from}
use aquabsd_pkg_repo.Kld.Load.Path.{exists, search_from-empty_element}
use aquabsd_pkg_repo.Kld.Load.Route.{IsHere, HasPath, asking, get_path-read, load_action-here}
use aquabsd_pkg_repo.Kld.Main.{parse, parse_one, main}
use aquabsd_pkg_repo.Kld.Main.Loading.{Loaded, loading, main-Loaded}

module _ (L : Linker) (name : Bytes) (here : FileId) (s : Process L) where
  -- Where the path can be read, what the search comes to decides about the rest.
  searched-found :
      (opts : Opts) (path errs : List Bytes)
      → HasPath L s.kernel path
      → search_from L name here path s ≡ done true (record s { stderr = s.stderr ++ errs })
      → (opts' : Opts) × (opts'.verbose ≡ opts.verbose)
        × (load_searched L (asking L opts name here s) name here s
            ≡ load L opts' name (record s { stderr = s.stderr ++ errs }))
  unfolding load_searched
  searched-found opts path errs (mib, len, value, text, a, b, c, d, e) found =
      let found' = ap (λ p. search_from L name here p s) e ∙ found in
      (
        record (asking L opts name here s) { mib = mib; path = some value },
        refl,
        rw (get_path-read L opts name here s mib len value a b c, load_searched, ◌>>=◌)
            (rw d (rw (found', ◌>>=◌) refl)),
      )

  searched-fault :
      (opts : Opts) (path : List Bytes)
      → HasPath L s.kernel path
      → search_from L name here path s ≡ fault
      → load_searched L (asking L opts name here s) name here s ≡ fault
  unfolding load_searched
  searched-fault opts path (mib, len, value, text, a, b, c, d, e) out =
      let out' = ap (λ p. search_from L name here p s) e ∙ out in
      rw (get_path-read L opts name here s mib len value a b c, load_searched, ◌>>=◌)
        (rw d (rw (out', ◌>>=◌) refl))

  main-faults :
      (fuel : ℕ)
      → load_action L (loading L fuel name) s ≡ fault
      → main L fuel (codes "-l" ∷ codes "-n" ∷ name ∷ []) s ≡ fault
  unfolding main parse parse_one getopt
  main-faults fuel e = rw (e, ◌>>=◌) refl

  -- `kld -l -n NAME`, for a name that has ".ko", no slash and is in the current directory, where
  -- kern.module_path can be read and has an empty element: if some element in front of the first
  -- empty one exists, main asks the kernel to load NAME, returns 0 where the kernel loads it and 1
  -- where it refuses, and prints nothing; if none does, main does something undefined, as it reads in
  -- front of a buffer.
  pub main-empty_element :
      (fuel : ℕ) (path rest : List Bytes)
      → IsHere L name here s.kernel
      → HasPath L s.kernel (path ++ ([] ∷ rest))
      → All (λ elem. elem ≢ []) path
      → ((exists L s.kernel path ≡ true)
          × Loaded L fuel name true s (main L fuel (codes "-l" ∷ codes "-n" ∷ name ∷ []) s))
        ⊎ ((exists L s.kernel path ≡ false)
            × (main L fuel (codes "-l" ∷ codes "-n" ∷ name ∷ []) s ≡ fault))
  main-empty_element fuel path rest is_here has full =
      let opts : Opts = record defaults { action = do_load } in
      let routed = load_action-here L opts name here s is_here in
      elim (search_from-empty_element L name here path rest s full) [
        | inl (missing, out) ↦
            inr (
              missing,
              main-faults fuel (routed ∙ searched-fault opts (path ++ ([] ∷ rest)) has out),
            )
        | inr (present, (errs, found)) ↦
            let (opts', quiet, run) = searched-found opts (path ++ ([] ∷ rest)) errs has found in
            inl (present, main-Loaded L fuel opts' name s errs quiet (routed ∙ run))
      ]
