-- ===== src/Kld/Unload/Verbose.antt =====
-- The option `-v` of `kld -u`.
use aquabsd_pkg_repo.Base.{
  ◌≡◌, refl, ◌∙◌, Bool, true, false, Option, none, some, List, [], ◌∷◌, ◌++◌, ℤ, pos, negsuc, inl,
  inr,
}
use aquabsd_pkg_repo.Base.Words.{is_negative}
use aquabsd_pkg_repo.Base.Bytes.{Bytes, codes, format}
use aquabsd_pkg_repo.Base.Decimal.{int_text}
use aquabsd_pkg_repo.Base.Prog.{Outcome, done, ◌>>=◌, Reply-cases}
use aquabsd_pkg_repo.Kld.{
  Linker, Opts, KldFileStat, Process, warn, print, compute_id, Reply, ok, failed,
}
use aquabsd_pkg_repo.Kld.Unload.{unload, unload_id, unload_action}

module _ (L : Linker) where
  -- Two runs that return the same value, the same kernel and the same warnings.
  abbrev pub SameEffect : Outcome (Process L) ℤ → Outcome (Process L) ℤ → Type 0
  SameEffect r r' =
      (v : ℤ) × (t t' : Process L) × (r ≡ done v t)
      × (r' ≡ done v t')
      × (t'.kernel ≡ t.kernel)
      × (t'.stderr ≡ t.stderr)

  -- The id that `compute_id` finds.
  abbrev pub id_of : Option Bytes → ℤ → L.Kernel → ℤ
  id_of none id k = id
  id_of (some file) id k = L.kldfind file k

  abbrev pub quiet : Opts → Opts
  quiet opts = record opts { verbose = false }

  abbrev pub verbose : Opts → Opts
  verbose opts = record opts { verbose = true }

  abbrev value_of : Reply (Unit {0}) → ℤ
  value_of (ok u) = pos 0
  value_of (failed errno) = negsuc 0

  abbrev warned : ℤ → Reply (Unit {0}) → List Bytes → List Bytes
  warned id (ok u) errs = errs
  warned id (failed errno) errs =
      errs ++ (format (codes "can't unload file id %d") (int_text id ∷ []) ∷ [])

  -- The state once `kldunloadf` has been called.
  abbrev unloaded : ℤ → Bool → Process L → Process L
  unloaded id force s =
      let (reply, k) = L.kldunloadf id force s.kernel in
      record s { kernel = k; stderr = warned id reply s.stderr }

  unload-done :
      (opts : Opts) (s : Process L)
      → unload L opts s
        ≡ done
            (value_of (L.kldunloadf opts.id opts.force s.kernel).0)
            (unloaded opts.id opts.force s)
  unfolding unload warn
  unload-done opts s = elim (Reply-cases (L.kldunloadf opts.id opts.force s.kernel).0) [
    | inl (u, e) ↦ rw (e, unload) refl
    | inr (errno, e) ↦ rw (e, unload) refl
  ]

  unload_id-SameEffect :
      (opts : Opts) (f : KldFileStat) (s : Process L)
      → is_negative opts.id ≡ false
      → L.kldstat opts.id s.kernel ≡ some f
      → SameEffect (unload_id L (quiet opts) s) (unload_id L (verbose opts) s)
  unfolding unload_id print
  unload_id-SameEffect opts f s h e = (
    _,
    _,
    _,
    plain h ∙ unload-done (quiet opts) s,
    wordy h e ∙ unload-done (verbose opts) (record s { stdout = s.stdout ++ (line ∷ []) }),
    refl,
    refl,
  )
    where
      line : Bytes
      line = format (codes "Unloading %s, id=%d") (f.name ∷ int_text opts.id ∷ []) ++ (10 ∷ [])

      plain : is_negative opts.id ≡ false → unload_id L (quiet opts) s ≡ unload L (quiet opts) s
      plain h = rw (h, unload_id) refl

      wordy :
          is_negative opts.id ≡ false
          → L.kldstat opts.id s.kernel ≡ some f
          → unload_id L (verbose opts) s
            ≡ unload L (verbose opts) (record s { stdout = s.stdout ++ (line ∷ []) })
      wordy h e = rw (h, unload_id) (rw e refl)

  pub computed :
      (opts : Opts) (s : Process L)
      → is_negative (id_of opts.file opts.id s.kernel) ≡ false
      → compute_id L opts s ≡ done (some (record opts { id = id_of opts.file opts.id s.kernel })) s
  unfolding compute_id
  computed opts s h = by_file opts.file opts.id h refl
    where
      by_file :
          (file : Option Bytes) (id : ℤ)
          → is_negative (id_of file id s.kernel) ≡ false
          → opts.file ≡ file
          → compute_id L (record opts { file = file; id = id }) s
            ≡ done (some (record opts { file = file; id = id_of file id s.kernel })) s
      by_file none id n e = refl
      by_file (some file) id n e = rw (n, compute_id) refl

  unload_action-computed :
      (opts : Opts) (s : Process L)
      → is_negative (id_of opts.file opts.id s.kernel) ≡ false
      → unload_action L opts s
        ≡ unload_id L (record opts { id = id_of opts.file opts.id s.kernel }) s
  unfolding unload_action
  unload_action-computed opts s h = rw (computed opts s h, unload_action, ◌>>=◌) refl

  -- Where the id, given or found by the file's name, is not negative and the kernel can describe the
  -- file, `kld -u` returns the same with -v as without it, and leaves the same kernel and the same
  -- warnings.
  pub unload_action-SameEffect :
      (opts : Opts) (f : KldFileStat) (s : Process L)
      → is_negative (id_of opts.file opts.id s.kernel) ≡ false
      → L.kldstat (id_of opts.file opts.id s.kernel) s.kernel ≡ some f
      → SameEffect (unload_action L (quiet opts) s) (unload_action L (verbose opts) s)
  unload_action-SameEffect opts f s h e =
      let found : Opts = record opts { id = id_of opts.file opts.id s.kernel } in
      let (v, t, t', r, r', k, w) = unload_id-SameEffect found f s h e in
      (
        v,
        t,
        t',
        unload_action-computed (quiet opts) s h ∙ r,
        unload_action-computed (verbose opts) s h ∙ r',
        k,
        w,
      )
