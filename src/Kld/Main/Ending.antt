-- ===== src/Kld/Main/Ending.antt =====
-- How `main` of kld.c ends, for every list of arguments.
use mathlib.Core.Path.{subst}
use aquabsd_pkg_repo.Base.{
  ℕ, ◌≡◌, refl, sym, List, [], ◌∷◌, ◌++◌, ◌==◌, if◌then◌else◌, ◌⊎◌, inl, inr,
}
use aquabsd_pkg_repo.Base.Bytes.{Bytes, codes, strtoul}
use aquabsd_pkg_repo.Base.Getopt.{Opt, getopt}
use aquabsd_pkg_repo.Base.Words.{is_negative}
use aquabsd_pkg_repo.Base.Prog.{Prog, ◌>>=◌, pure}
use aquabsd_pkg_repo.Base.Goes.{Goes, Goes-bind, Goes-if}
use aquabsd_pkg_repo.Kld.{Linker, Action, do_stat, do_load, do_unload, Opts, defaults, Process}
use aquabsd_pkg_repo.Kld.Listing.Ending.{Reported, Acted, Stuck, usage-Reported, stat_action-Acted}
use aquabsd_pkg_repo.Kld.Main.{set_id, parse_one, parse, run_action, main}
use aquabsd_pkg_repo.Kld.Load.Ending.{HasNoEmpty, load_action-Acted}
use aquabsd_pkg_repo.Kld.Unload.Ending.{unload_action-Acted}

module _ (L : Linker) (R : Type 0) where
  -- The options are parsed without a look at the system, and leave the MIB unset.
  abbrev Parsed : Process L → Opts → Process L → Type 0
  Parsed s o t = (t ≡ s) × (o.mib ≡ [])

  set_id-Parsed :
      (optarg : Bytes) (opts : Opts) (s : Process L)
      → opts.mib ≡ []
      → Goes (Parsed s) (Reported L) R (set_id L optarg opts s)
  unfolding set_id
  set_id-Parsed optarg opts s unset = by_rest (strtoul optarg).1 refl
    where
      by_rest :
          (inval : Bytes)
          → (strtoul optarg).1 ≡ inval
          → Goes (Parsed s) (Reported L) R (set_id L optarg opts s)
      by_rest [] e = rw (e, set_id, Goes) (refl, unset)
      by_rest (c ∷ r) e = rw (e, set_id) (usage-Reported L {A = Opts} (Parsed s) R s)

  parse_one-Parsed :
      (o : Opt) (opts : Opts) (s : Process L)
      → opts.mib ≡ []
      → Goes (Parsed s) (Reported L) R (parse_one L o opts s)
  unfolding parse_one
  parse_one-Parsed o opts s unset =
      test b'd' _ _ (refl, unset)
        (test b'f' _ _ (refl, unset)
          (test b'h' _ _ (refl, unset)
            (test b'v' _ _ (refl, unset)
              (test b'l' _ _ (refl, unset)
                (test b'u' _ _ (refl, unset)
                  (test b'i' _ _ (set_id-Parsed o.optarg opts s unset) (
                    test b'n' _ _ (refl, unset)
                      (test b'm' _ _ (refl, unset)
                        (usage-Reported L (Parsed s) R
                          (record s { stderr = s.stderr ++ (o.optarg ∷ []) }))))))))))
    where
      test :
          (letter : ℕ) (m n : Prog (Process L) Opts)
          → Goes (Parsed s) (Reported L) R (m s)
          → Goes (Parsed s) (Reported L) R (n s)
          → Goes (Parsed s) (Reported L) R ((if o.c == letter then m else n) s)
      test letter m n = Goes-if (Parsed s) (Reported L) R (o.c == letter) m n s

  parse-Parsed :
      (os : List Opt) (opts : Opts) (s : Process L)
      → opts.mib ≡ []
      → Goes (Parsed s) (Reported L) R (parse L os opts s)
  unfolding parse
  parse-Parsed [] opts s unset = (refl, unset)
  parse-Parsed (o ∷ os) opts s unset =
      Goes-bind (Parsed s) (Parsed s) (Reported L) R (parse_one L o opts) (parse L os) s
        (parse_one-Parsed o opts s unset)
        λ opts' t (e, still).
          subst (λ u. Goes (Parsed s) (Reported L) R (parse L os opts' u)) (sym e)
            (parse-Parsed os opts' s still)

module _ (L : Linker) (tidy : HasNoEmpty L) (fuel : ℕ) where
  run_action-Acted :
      (opts : Opts) (s : Process L)
      → opts.mib ≡ []
      → Goes (Acted L) (Reported L) (Stuck L fuel s.kernel) (run_action L fuel opts s)
  run_action-Acted opts s unset = by_action opts.action refl
    where
      by_action :
          (action : Action)
          → opts.action ≡ action
          → Goes (Acted L) (Reported L) (Stuck L fuel s.kernel) (run_action L fuel opts s)
      by_action do_stat e = rw e (stat_action-Acted L fuel (record opts { action = do_stat }) s)
      by_action do_load e = rw e (
          load_action-Acted L (Stuck L fuel s.kernel) tidy (record opts { action = do_load }) s
            unset)
      by_action do_unload e =
          rw e
            (unload_action-Acted L (Stuck L fuel s.kernel) (record opts { action = do_unload }) s)

  -- The status is 0, or 1 with a message.
  abbrev pub Ended : ℕ → Process L → Type 0
  Ended code t = (code ≡ 0) ⊎ Reported L code t

  -- Where every value of kern.module_path that the kernel gives ends in a NUL and has no empty
  -- element: for all arguments, and whatever the calls of the system answer, main of kld does nothing
  -- undefined. It returns 0, or 1 with a message as the last thing on the error stream, or ends
  -- the process with status 1 and a message there; it is still running only where the kernel's
  -- chain of files, or that of the modules of some id that is not negative, does not come to its
  -- end within the fuel.
  pub main-Ended :
      (args : List Bytes) (s : Process L)
      → Goes Ended (Reported L) (Stuck L fuel s.kernel) (main L fuel args s)
  unfolding main
  main-Ended args s =
      let R = Stuck L fuel s.kernel in
      Goes-bind (Parsed L R s) Ended (Reported L) R
        (parse L (getopt (codes "dfhi:lm:n:uv") args) defaults) _ s
        (parse-Parsed L R (getopt (codes "dfhi:lm:n:uv") args) defaults s refl)
        λ opts t (e, unset).
          subst (λ u. Goes Ended (Reported L) R (run_and_return opts u)) (sym e)
            (Goes-bind (Acted L) Ended (Reported L) R (run_action L fuel opts) _ s
              (run_action-Acted opts s unset)
              λ rv u acted. elim acted [
                | inl zero_rv ↦ rw zero_rv (inl refl)
                | inr (failed_rv, warned) ↦ rw failed_rv (inr (refl, warned))
              ])
    where
      run_and_return : Opts → Prog (Process L) ℕ
      run_and_return opts = do rv ← run_action L fuel opts; pure (if is_negative rv then 1 else 0)
