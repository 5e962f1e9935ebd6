-- ===== src/Kld/Listing/Rounds.antt =====
-- The loop of both lists of kld over the chain of ids that the kernel gives.
use aquabsd_pkg_repo.Base.{
  ℕ, zero, suc, ◌<◌, ◌≡◌, ◌≢◌, refl, sym, ◌∙◌, ap, List, [], ◌∷◌, ◌++◌, arith, ℤ, pos, negsuc,
  length,
}
use mathlib.Core.Path.{subst}
use mathlib.Core.List.{flat_map, append-nil, append_assoc}
use aquabsd_pkg_repo.Base.Bytes.{Bytes}
use aquabsd_pkg_repo.Base.Prog.{Prog, done, running, ◌>>◌, >>=-done}
use aquabsd_pkg_repo.Kld.{Linker, Process}
use aquabsd_pkg_repo.Kld.Listing.{for_ids}

module _ (L : Linker) (next : ℤ → L.Kernel → ℤ) (k : L.Kernel) (P : ℤ → Type 0) where
  -- From an id on, the kernel's chain is this list of ids with `P`, none of which is zero, and then
  -- zero.
  pub data Chain : ℤ → List ℤ → Type 0 where
    end : Chain (pos 0) []
    link : {i : ℤ} {ids : List ℤ} → i ≢ pos 0 → P i → Chain (next i k) ids → Chain i (i ∷ ids)

module _ (L : Linker) (next : ℤ → L.Kernel → ℤ) (body : ℤ → Prog (Process L) (Unit {0})) where
  module _ (out errs : ℤ → List Bytes) (k : L.Kernel) (P : ℤ → Type 0)
      (prints : (i : ℤ) (s : Process L)
        → P i
        → s.kernel ≡ k
        → body i s
          ≡ done tt (record s { stdout = s.stdout ++ out i; stderr = s.stderr ++ errs i })) where
    -- The state once the ids have been printed.
    unfoldable pub printed : List ℤ → Process L → Process L
    printed ids s = record s {
      stdout = s.stdout ++ flat_map out ids;
      stderr = s.stderr ++ flat_map errs ids;
    }

    printed-cons :
        (i : ℤ) (ids : List ℤ) (s : Process L)
        → printed ids (record s { stdout = s.stdout ++ out i; stderr = s.stderr ++ errs i })
          ≡ printed (i ∷ ids) s
    unfolding printed flat_map
    printed-cons i ids s = λ j. record s {
      stdout = append_assoc s.stdout (out i) (flat_map out ids) j;
      stderr = append_assoc s.stderr (errs i) (flat_map errs ids) j;
    }

    for_ids_step :
        (fuel : ℕ) (i : ℤ) (ids : List ℤ) (s : Process L)
        → P i
        → s.kernel ≡ k
        → ((t : Process L)
            → t.kernel ≡ k
            → for_ids L fuel body next (next i k) t ≡ done tt (printed ids t))
        → (body i >> λ t. for_ids L fuel body next (next i t.kernel) t) s
          ≡ done tt (printed (i ∷ ids) s)
    for_ids_step fuel i ids s p e more =
        let s₁ : Process L = record s { stdout = s.stdout ++ out i; stderr = s.stderr ++ errs i } in
        >>=-done (body i) (λ u t. for_ids L fuel body next (next i t.kernel) t) (prints i s p e)
        ∙ subst (λ k'. for_ids L fuel body next (next i k') s₁ ≡ done tt (printed (i ∷ ids) s))
            (sym e) (more s₁ e ∙ ap (done tt) (printed-cons i ids s))

    -- The loop over a chain prints what there is to print of each id, in order.
    pub for_ids-Chain :
        (fuel : ℕ) {i : ℤ} {ids : List ℤ}
        → Chain L next k P i ids
        → length ids < fuel
        → (s : Process L) → s.kernel ≡ k
        → for_ids L fuel body next i s ≡ done tt (printed ids s)
    unfolding for_ids printed flat_map
    for_ids-Chain zero c h s e = absurd (omega arith)
    for_ids-Chain (suc fuel) end h s e = λ j.
        done tt
          (record s { stdout = sym (append-nil s.stdout) j; stderr = sym (append-nil s.stderr) j })
    for_ids-Chain (suc fuel) (link {i = pos zero} nz p c) h s e = absurd (nz refl)
    for_ids-Chain (suc fuel) (link {i = pos (suc n)} {ids = ids} nz p c) h s e =
        for_ids_step fuel (pos (suc n)) ids s p e (for_ids-Chain fuel c (omega arith))
    for_ids-Chain (suc fuel) (link {i = negsuc n} {ids = ids} nz p c) h s e =
        for_ids_step fuel (negsuc n) ids s p e (for_ids-Chain fuel c (omega arith))

  -- A loop at an id that is its own successor never ends.
  module _ (k : L.Kernel)
      (prints : (i : ℤ) (s : Process L)
        → s.kernel ≡ k
        → (t : Process L) × (body i s ≡ done tt t) × (t.kernel ≡ k)) where
    pub for_ids_stuck :
        (i : ℤ)
        → i ≢ pos 0
        → next i k ≡ i
        → (fuel : ℕ) (s : Process L) → s.kernel ≡ k
        → for_ids L fuel body next i s ≡ running
    unfolding for_ids
    for_ids_stuck i nz same zero s e = refl
    for_ids_stuck (pos zero) nz same (suc fuel) s e = absurd (nz refl)
    for_ids_stuck (pos (suc n)) nz same (suc fuel) s e =
        let (t, b, e') = prints (pos (suc n)) s e in
        >>=-done (body (pos (suc n)))
          (λ u t. for_ids L fuel body next (next (pos (suc n)) t.kernel) t) b
        ∙ subst (λ j. for_ids L fuel body next j t ≡ running)
            (sym (ap (next (pos (suc n))) e' ∙ same))
            (for_ids_stuck (pos (suc n)) nz same fuel t e')
    for_ids_stuck (negsuc n) nz same (suc fuel) s e =
        let (t, b, e') = prints (negsuc n) s e in
        >>=-done (body (negsuc n)) (λ u t. for_ids L fuel body next (next (negsuc n) t.kernel) t) b
        ∙ subst (λ j. for_ids L fuel body next j t ≡ running) (sym (ap (next (negsuc n)) e' ∙ same))
            (for_ids_stuck (negsuc n) nz same fuel t e')
