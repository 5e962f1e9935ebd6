-- ===== src/Kld/Listing/Chain.antt =====
-- The lists of kld over the chain of ids that the kernel gives.
use aquabsd_pkg_repo.Base.{
  ℕ, ◌<◌, ◌≡◌, refl, sym, ◌∙◌, ap, false, Option, none, some, List, [], ◌∷◌, ◌++◌, ℤ, pos, negsuc,
  length, Option-cases, inl, inr,
}
use mathlib.Core.Path.{subst}
use mathlib.Core.List.{flat_map, append-nil}
use aquabsd_pkg_repo.Base.Bytes.{Bytes, codes, format}
use aquabsd_pkg_repo.Base.Prog.{pure, done, running, ◌>>=◌, >>=-done}
use aquabsd_pkg_repo.Base.Words.{is_negative}
use aquabsd_pkg_repo.Base.Decimal.{int_text}
use aquabsd_pkg_repo.Kld.{print, Linker, ModuleStat, KldFileStat, Opts, Process}
use aquabsd_pkg_repo.Kld.Listing.{
  for_ids, print_mod, print_file, list_mods, list_files, module_line, file_line, heading,
}
use aquabsd_pkg_repo.Kld.Listing.Rounds.{Chain, printed, for_ids-Chain, for_ids_stuck}

none_printed : (e : List Bytes) (ids : List ℤ) → e ++ flat_map (λ i. []) ids ≡ e
unfolding flat_map
none_printed e [] = append-nil e
none_printed e (i ∷ ids) = none_printed e ids

module _ (L : Linker) (opts : Opts) where
  -- What is printed of a module on each of the two streams, by what `modstat` answers.
  unfoldable pub outs : Option ModuleStat → List Bytes
  outs none = []
  outs (some m) = module_line L opts m ∷ []

  unfoldable pub errs : ℤ → Option ModuleStat → List Bytes
  errs i none = format (codes "can't stat module id %d") (int_text i ∷ []) ∷ []
  errs i (some m) = []

  abbrev pub module_out : L.Kernel → ℤ → List Bytes
  module_out k i = outs (L.modstat i k)

  abbrev pub module_errs : L.Kernel → ℤ → List Bytes
  module_errs k i = errs i (L.modstat i k)

  print_mod_prints :
      (i : ℤ) (s : Process L) (k : L.Kernel)
      → s.kernel ≡ k
      → print_mod L opts i s
        ≡ done tt
            (record s { stdout = s.stdout ++ module_out k i; stderr = s.stderr ++ module_errs k i })
  unfolding print_mod outs errs
  print_mod_prints i s k e =
      subst
        (λ k'.
          print_mod L opts i s
          ≡ done tt (record s {
            stdout = s.stdout ++ module_out k' i;
            stderr = s.stderr ++ module_errs k' i;
          }))
        e here
    where
      here :
          print_mod L opts i s
          ≡ done tt (record s {
            stdout = s.stdout ++ module_out s.kernel i;
            stderr = s.stderr ++ module_errs s.kernel i;
          })
      here = elim (Option-cases (L.modstat i s.kernel)) [
        | inl n ↦
            rw (n, print_mod)
              (λ j. done tt (record s {
                stdout = sym (append-nil s.stdout) j;
                stderr =
                    s.stderr ++ (format (codes "can't stat module id %d") (int_text i ∷ []) ∷ []);
              }))
        | inr (m, h) ↦
            rw (h, print_mod)
              (λ j. done tt (record s {
                stdout = s.stdout ++ (module_line L opts m ∷ []);
                stderr = sym (append-nil s.stderr) j;
              }))
      ]

  -- With an id that is not negative, where the kernel's chain of the file's modules ends in zero
  -- and the fuel is more than their number, the list of modules prints the heading and then a line
  -- for each module that the kernel can describe, in the order of the chain, reports each other one
  -- on the other stream, and returns 0.
  pub list_mods-Chain :
      (fuel : ℕ) (ids : List ℤ) (s : Process L)
      → is_negative opts.id ≡ false
      → Chain L L.modfnext s.kernel (λ i. Unit {0}) (L.kldfirstmod opts.id s.kernel) ids
      → length ids < fuel
      → list_mods L fuel opts s
        ≡ done (pos 0) (record s {
          stdout =
              (s.stdout ++ ((codes " id name" ++ (10 ∷ [])) ∷ []))
              ++ flat_map (module_out s.kernel) ids;
          stderr = s.stderr ++ flat_map (module_errs s.kernel) ids;
        })
  unfolding list_mods print printed
  list_mods-Chain fuel ids s e c h =
      let s₁ : Process L = record s {
        stdout = s.stdout ++ ((codes " id name" ++ (10 ∷ [])) ∷ []);
      } in
      rw e (
        >>=-done (for_ids L fuel (print_mod L opts) L.modfnext (L.kldfirstmod opts.id s.kernel))
          (λ u. pure (pos 0))
          (for_ids-Chain L L.modfnext (print_mod L opts) (module_out s.kernel)
            (module_errs s.kernel) s.kernel (λ i. Unit {0})
            (λ i t u e'. print_mod_prints i t s.kernel e') fuel c h s₁ refl))

  -- A file's line, where the kernel can describe it.
  unfoldable pub file_outs : Option KldFileStat → List Bytes
  file_outs none = []
  file_outs (some f) = file_line L opts f ∷ []

  abbrev pub Described : L.Kernel → ℤ → Type 0
  Described k i = (f : KldFileStat) × (L.kldstat i k ≡ some f)

  print_file_prints :
      (i : ℤ) (s : Process L) (k : L.Kernel)
      → Described k i
      → s.kernel ≡ k
      → print_file L opts i s
        ≡ done tt
            (record s { stdout = s.stdout ++ file_outs (L.kldstat i k); stderr = s.stderr ++ [] })
  unfolding print_file file_outs
  print_file_prints i s k (f, h) e =
      subst
        (λ k'.
          L.kldstat i k' ≡ some f
          → print_file L opts i s
            ≡ done tt (record s {
              stdout = s.stdout ++ file_outs (L.kldstat i k');
              stderr = s.stderr ++ [];
            }))
        e
        (λ h'.
          rw (h', print_file)
            (λ j. done tt (record s {
              stdout = s.stdout ++ (file_line L opts f ∷ []);
              stderr = sym (append-nil s.stderr) j;
            })))
        h

  -- Where the kernel's chain of files ends in zero, the kernel can describe each file of it, and
  -- the fuel is more than their number, the list of files prints the heading and then the line of
  -- each file, in the order of the chain, and returns 0.
  pub list_files-Chain :
      (fuel : ℕ) (ids : List ℤ) (s : Process L)
      → Chain L L.kldnext s.kernel (Described s.kernel) (L.kldnext (pos 0) s.kernel) ids
      → length ids < fuel
      → list_files L fuel opts s
        ≡ done (pos 0) (record s {
          stdout =
              (s.stdout ++ (heading L opts ∷ []))
              ++ flat_map (λ i. file_outs (L.kldstat i s.kernel)) ids;
        })
  unfolding list_files print printed
  list_files-Chain fuel ids s c h =
      let s₁ : Process L = record s { stdout = s.stdout ++ (heading L opts ∷ []) } in
      >>=-done (for_ids L fuel (print_file L opts) L.kldnext (L.kldnext (pos 0) s.kernel))
        (λ u. pure (pos 0))
        (for_ids-Chain L L.kldnext (print_file L opts) (λ i. file_outs (L.kldstat i s.kernel))
          (λ i. []) s.kernel (Described s.kernel) (λ i t u e'. print_file_prints i t s.kernel u e')
          fuel c h s₁ refl)
      ∙ ap
          (λ e. done (pos 0) (record s₁ {
            stdout = s₁.stdout ++ flat_map (λ i. file_outs (L.kldstat i s.kernel)) ids;
            stderr = e;
          }))
          (none_printed s.stderr ids)

  -- With an id that is not negative, where the kernel answers the call for the file's first module
  -- with a negative number, and the call for the module after that with the same number, the list
  -- of modules is still running whatever the fuel.
  pub list_mods_stuck :
      (fuel m : ℕ) (s : Process L)
      → is_negative opts.id ≡ false
      → L.kldfirstmod opts.id s.kernel ≡ negsuc m
      → L.modfnext (negsuc m) s.kernel ≡ negsuc m
      → list_mods L fuel opts s ≡ running
  unfolding list_mods print
  list_mods_stuck fuel m s e first same =
      let s₁ : Process L = record s {
        stdout = s.stdout ++ ((codes " id name" ++ (10 ∷ [])) ∷ []);
      } in
      rw (e, first)
        (rw (
          ◌>>=◌,
          for_ids_stuck L L.modfnext (print_mod L opts) s.kernel
              (λ i t e'. (_, print_mod_prints i t s.kernel e', e')) (negsuc m) (λ h. cc) same fuel
              s₁ refl,
        ))
