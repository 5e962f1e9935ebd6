-- ===== src/Kld/Main/Verbose.antt =====
-- `kld -v` with the options of an unload, against the same options alone.
use aquabsd_pkg_repo.Base.{
  ℕ, ◌≡◌, refl, sym, ◌∙◌, ap, Bool-cases, false, some, List, [], ◌∷◌, if◌then◌else◌, ℤ, inl, inr,
  arith,
}
use aquabsd_pkg_repo.Base.Words.{is_negative}
use aquabsd_pkg_repo.Base.Bytes.{Bytes, codes, strtoul}
use aquabsd_pkg_repo.Base.Getopt.{Opt, getopt}
use aquabsd_pkg_repo.Base.Prog.{Outcome, done, pure, ◌>>=◌, >>=-assoc, >>=-same}
use aquabsd_pkg_repo.Kld.{Linker, Opts, do_unload, defaults, KldFileStat, Process, usage}
use aquabsd_pkg_repo.Kld.Unload.{unload_action}
use aquabsd_pkg_repo.Kld.Unload.Verbose.{id_of, quiet, verbose, unload_action-SameEffect}
use aquabsd_pkg_repo.Kld.Main.{set_id, parse, parse_one, main}

module _ (L : Linker) where
  set_id-verbose :
      (optarg : Bytes) (opts : Opts) (s : Process L)
      → set_id L optarg (verbose L opts) s
        ≡ (set_id L optarg opts >>= λ opts'. pure (verbose L opts')) s
  unfolding set_id usage
  set_id-verbose optarg opts s = by_rest (strtoul optarg).1 refl
    where
      by_rest :
          (rest : Bytes)
          → (strtoul optarg).1 ≡ rest
          → set_id L optarg (verbose L opts) s
            ≡ (set_id L optarg opts >>= λ opts'. pure (verbose L opts')) s
      by_rest [] e = rw (e, set_id, ◌>>=◌) refl
      by_rest (c ∷ r) e = rw (e, set_id, ◌>>=◌) refl

  parse_one-verbose :
      (o : Opt) (opts : Opts) (s : Process L)
      → parse_one L o (verbose L opts) s
        ≡ (parse_one L o opts >>= λ opts'. pure (verbose L opts')) s
  unfolding parse_one usage
  parse_one-verbose o opts s = ground (arith, set_id-verbose o.optarg opts s)

  parse-verbose :
      (os : List Opt) (opts : Opts) (s : Process L)
      → parse L os (verbose L opts) s ≡ (parse L os opts >>= λ opts'. pure (verbose L opts')) s
  unfolding parse
  parse-verbose [] opts s = refl
  parse-verbose (o ∷ os) opts s =
      >>=-same (parse_one L o (verbose L opts))
        (parse_one L o opts >>= λ opts'. pure (verbose L opts')) (parse L os) (parse L os) s
        (parse_one-verbose o opts s) (λ a t. refl)
      ∙ >>=-assoc (parse_one L o opts) (λ opts'. pure (verbose L opts')) (parse L os) s
      ∙ >>=-same (parse_one L o opts) (parse_one L o opts) (λ a. parse L os (verbose L a))
          (λ a. parse L os a >>= λ opts'. pure (verbose L opts')) s refl
          (λ a t. parse-verbose os a t)
      ∙ sym (>>=-assoc (parse_one L o opts) (parse L os) (λ opts'. pure (verbose L opts')) s)

  -- The same effect on the kernel and the same warnings, with the same status.
  abbrev pub SameRun : Outcome (Process L) ℕ → Outcome (Process L) ℕ → Type 0
  SameRun r r' =
      (code : ℕ) × (t t' : Process L) × (r ≡ done code t)
      × (r' ≡ done code t')
      × (t'.kernel ≡ t.kernel)
      × (t'.stderr ≡ t.stderr)

  main-runs :
      (fuel : ℕ) (args : List Bytes) (opts : Opts) (s t : Process L) (v : ℤ)
      → parse L (getopt (codes "dfhi:lm:n:uv") args) defaults s ≡ done opts s
      → opts.action ≡ do_unload
      → unload_action L opts s ≡ done v t
      → main L fuel args s ≡ done (if is_negative v then 1 else 0) t
  unfolding main
  main-runs fuel args opts s t v parsed unloads run =
      rw (parsed, ◌>>=◌) (rw (unloads, ◌>>=◌) (rw (run, ◌>>=◌) refl))

  parsed-verbose :
      (args : List Bytes) (opts : Opts) (s : Process L)
      → parse L (getopt (codes "dfhi:lm:n:uv") args) defaults s ≡ done opts s
      → parse L (getopt (codes "dfhi:lm:n:uv") (codes "-v" ∷ args)) defaults s
        ≡ done (verbose L opts) s
  unfolding getopt parse parse_one
  parsed-verbose args opts s e =
      parse-verbose (getopt (codes "dfhi:lm:n:uv") args) defaults s ∙ rw (e, ◌>>=◌) refl

  -- Two lists of arguments of which one is the other with -v in front: where the arguments are
  -- accepted and ask for an unload, and the id, given or found by the file's name, is not negative
  -- and belongs to a file that the kernel can describe, main returns the same status for both and
  -- leaves the same kernel and the same warnings.
  pub main-SameRun :
      (fuel : ℕ) (args : List Bytes) (opts : Opts) (f : KldFileStat) (s : Process L)
      → parse L (getopt (codes "dfhi:lm:n:uv") args) defaults s ≡ done opts s
      → opts.action ≡ do_unload
      → is_negative (id_of L opts.file opts.id s.kernel) ≡ false
      → L.kldstat (id_of L opts.file opts.id s.kernel) s.kernel ≡ some f
      → SameRun (main L fuel args s) (main L fuel (codes "-v" ∷ args) s)
  main-SameRun fuel args opts f s parsed unloads h e =
      let (v, t, t', r, r', k, w) = unload_action-SameEffect L opts f s h e in
      elim (Bool-cases opts.verbose) [
        | inl wordy ↦
            let same : verbose L opts ≡ opts = λ i. record opts { verbose = sym wordy i } in
            (
              _,
              t',
              t',
              main-runs fuel args opts s t' v parsed unloads
                  (ap (λ o. unload_action L o s) (sym same) ∙ r'),
              main-runs fuel (codes "-v" ∷ args) (verbose L opts) s t' v
                  (parsed-verbose args opts s parsed) unloads r',
              refl,
              refl,
            )
        | inr silent ↦
            let same : quiet L opts ≡ opts = λ i. record opts { verbose = sym silent i } in
            (
              _,
              t,
              t',
              main-runs fuel args opts s t v parsed unloads
                  (ap (λ o. unload_action L o s) (sym same) ∙ r),
              main-runs fuel (codes "-v" ∷ args) (verbose L opts) s t' v
                  (parsed-verbose args opts s parsed) unloads r',
              k,
              w,
            )
      ]
