-- ===== src/Kld/Listing/Ending.antt =====
-- How the lists of kld.c end: with 0, with a message, or not at all where the fuel is not enough for
-- the chain that the kernel gives.
use mathlib.Core.Path.{subst}
use aquabsd_pkg_repo.Base.{
  ℕ, zero, suc, ◌<◌, ◌≡◌, ◌≢◌, refl, sym, ap, false, not, Option, none, some, List, [], ◌∷◌, ◌++◌,
  if◌then◌else◌, ℤ, pos, negsuc, ◌⊎◌, inl, inr, length, Bool-cases, Option-cases, arith,
}
use aquabsd_pkg_repo.Base.Bytes.{Bytes, codes}
use aquabsd_pkg_repo.Base.Words.{is_negative}
use aquabsd_pkg_repo.Base.Prog.{Prog, ◌>>◌}
use aquabsd_pkg_repo.Base.Goes.{Goes, Goes-bind, Goes-mono}
use aquabsd_pkg_repo.Kld.{Linker, Opts, Process, print, warn, err, usage, compute_id, is_some}
use aquabsd_pkg_repo.Kld.Listing.{
  for_ids, print_mod, print_file, list_mods, list_files, list_for, heading, stat_action,
}
use aquabsd_pkg_repo.Kld.Listing.Rounds.{Chain, end, link}

module _ (L : Linker) where
  -- The last thing that the process has printed on the error stream is a message.
  abbrev pub Warned : Process L → Type 0
  Warned t = (before : List Bytes) × (message : Bytes) × (t.stderr ≡ before ++ (message ∷ []))

  abbrev pub Reported : ℕ → Process L → Type 0
  Reported code t = (code ≡ 1) × Warned t

  -- What an action returns: 0, or -1 with a message.
  abbrev pub Acted : ℤ → Process L → Type 0
  Acted rv t = (rv ≡ pos 0) ⊎ ((rv ≡ negsuc 0) × Warned t)

  -- Within the fuel, the chain of ids from the first one on does not come to its end.
  abbrev pub Overlong : ℕ → (ℤ → L.Kernel → ℤ) → L.Kernel → ℤ → Type 0
  Overlong fuel next k i =
      (ids : List ℤ) → Chain L next k (λ i. Unit {0}) i ids → length ids < fuel → ⊥

  Overlong-later :
      (fuel : ℕ) (next : ℤ → L.Kernel → ℤ) (k : L.Kernel) (i : ℤ)
      → i ≢ pos 0
      → Overlong fuel next k (next i k)
      → Overlong (suc fuel) next k i
  Overlong-later fuel next k i nz o ids end h = absurd (nz refl)
  Overlong-later fuel next k i nz o ids (link {ids = rest} nz' p c) h = o rest c (omega arith)

  pub err-Reported :
      {A : Type 0} (P : A → Process L → Type 0) (R : Type 0) (message : Bytes) (s : Process L)
      → Goes P Reported R (err L {A = A} message s)
  unfolding err warn
  err-Reported P R message s = (refl, (s.stderr, message, refl))

  pub usage-Reported :
      {A : Type 0} (P : A → Process L → Type 0) (R : Type 0) (s : Process L)
      → Goes P Reported R (usage L {A = A} s)
  unfolding usage
  usage-Reported P R s = err-Reported P R _ s

  module _ (k : L.Kernel) where
    -- A round of a list leaves the kernel, or ends the process.
    abbrev Kept : Unit {0} → Process L → Type 0
    Kept u t = t.kernel ≡ k

    module _ (next : ℤ → L.Kernel → ℤ) (body : ℤ → Prog (Process L) (Unit {0}))
        (rounds : (i : ℤ) (s : Process L) → s.kernel ≡ k → Goes Kept Reported ⊥ (body i s)) where
      round-Goes :
          (fuel : ℕ) (i : ℤ) (s : Process L)
          → i ≢ pos 0
          → s.kernel ≡ k
          → ((t : Process L)
              → t.kernel ≡ k
              → Goes Kept Reported
                  (Overlong fuel next k (next i k))
                  (for_ids L fuel body next (next i k) t))
          → Goes Kept Reported
              (Overlong (suc fuel) next k i)
              ((body i >> λ t. for_ids L fuel body next (next i t.kernel) t) s)
      round-Goes fuel i s nz e more =
          Goes-bind Kept Kept Reported (Overlong (suc fuel) next k i) (body i) _ s
            (Goes-mono Kept Kept Reported ⊥ _ _ (λ u t h. h) (λ h. absurd h) (rounds i s e))
            λ u t e'.
              subst
                (λ k'.
                  Goes Kept Reported (Overlong (suc fuel) next k i)
                    (for_ids L fuel body next (next i k') t))
                (sym e')
                (Goes-mono Kept Kept Reported (Overlong fuel next k (next i k)) _ _ (λ u t h. h)
                  (Overlong-later fuel next k i nz) (more t e'))

      for_ids-Goes :
          (fuel : ℕ) (i : ℤ) (s : Process L)
          → s.kernel ≡ k
          → Goes Kept Reported (Overlong fuel next k i) (for_ids L fuel body next i s)
      unfolding for_ids
      for_ids-Goes zero i s e = λ ids c h. absurd (omega arith)
      for_ids-Goes (suc fuel) (pos zero) s e = e
      for_ids-Goes (suc fuel) (pos (suc n)) s e =
          round-Goes fuel (pos (suc n)) s (λ h. cc) e (for_ids-Goes fuel (next (pos (suc n)) k))
      for_ids-Goes (suc fuel) (negsuc n) s e =
          round-Goes fuel (negsuc n) s (λ h. cc) e (for_ids-Goes fuel (next (negsuc n) k))

  -- A list that the fuel is not enough for.
  abbrev pub Stuck : ℕ → L.Kernel → Type 0
  Stuck fuel k =
      Overlong fuel L.kldnext k (L.kldnext (pos 0) k)
      ⊎ ((id : ℤ) × (is_negative id ≡ false) × Overlong fuel L.modfnext k (L.kldfirstmod id k))

  print_mod-Kept :
      (opts : Opts) (i : ℤ) (k : L.Kernel) (s : Process L)
      → s.kernel ≡ k
      → Goes (Kept k) Reported ⊥ (print_mod L opts i s)
  unfolding print_mod print warn
  print_mod-Kept opts i k s e = elim (Option-cases (L.modstat i s.kernel)) [
    | inl f ↦ rw (f, Goes) e
    | inr (m, f) ↦ rw (f, Goes) e
  ]

  print_file-Kept :
      (opts : Opts) (i : ℤ) (k : L.Kernel) (s : Process L)
      → s.kernel ≡ k
      → Goes (Kept k) Reported ⊥ (print_file L opts i s)
  unfolding print_file print
  print_file-Kept opts i k s e = elim (Option-cases (L.kldstat i s.kernel)) [
    | inl f ↦ rw (f, Goes) (err-Reported (Kept k) ⊥ _ s)
    | inr (m, f) ↦ rw (f, Goes) e
  ]

  list_mods-Acted :
      (fuel : ℕ) (opts : Opts) (s : Process L)
      → is_negative opts.id ≡ false
      → Goes Acted Reported (Stuck fuel s.kernel) (list_mods L fuel opts s)
  unfolding list_mods print
  list_mods-Acted fuel opts s h =
      let k = s.kernel in
      let s₁ : Process L = record s {
        stdout = s.stdout ++ ((codes " id name" ++ (10 ∷ [])) ∷ []);
      } in
      rw (h, Goes)
        (Goes-bind (Kept k) Acted Reported (Stuck fuel k)
          (for_ids L fuel (print_mod L opts) L.modfnext (L.kldfirstmod opts.id k)) _ s₁
          (Goes-mono (Kept k) (Kept k) Reported
            (Overlong fuel L.modfnext k (L.kldfirstmod opts.id k)) _ _ (λ u t e. e)
            (λ o. inr (opts.id, h, o))
            (for_ids-Goes k L.modfnext (print_mod L opts) (λ i t e. print_mod-Kept opts i k t e)
              fuel (L.kldfirstmod opts.id k) s₁ refl))
          λ u t e. inl refl)

  list_files-Acted :
      (fuel : ℕ) (opts : Opts) (s : Process L)
      → Goes Acted Reported (Stuck fuel s.kernel) (list_files L fuel opts s)
  unfolding list_files print
  list_files-Acted fuel opts s =
      let k = s.kernel in
      let s₁ : Process L = record s { stdout = s.stdout ++ (heading L opts ∷ []) } in
      Goes-bind (Kept k) Acted Reported (Stuck fuel k)
        (for_ids L fuel (print_file L opts) L.kldnext (L.kldnext (pos 0) k)) _ s₁
        (Goes-mono (Kept k) (Kept k) Reported (Overlong fuel L.kldnext k (L.kldnext (pos 0) k)) _ _
          (λ u t e. e) inl
          (for_ids-Goes k L.kldnext (print_file L opts) (λ i t e. print_file-Kept opts i k t e) fuel
            (L.kldnext (pos 0) k) s₁ refl))
        λ u t e. inl refl

  -- The id of a file, or a message where there is none.
  abbrev pub Computed : L.Kernel → Option Opts → Process L → Type 0
  Computed k r t = (t.kernel ≡ k) × (((r ≡ none) × Warned t) ⊎ ((opts : Opts) × (r ≡ some opts)))

  pub compute_id-Computed :
      (R : Type 0) (opts : Opts) (s : Process L)
      → Goes (Computed s.kernel) Reported R (compute_id L opts s)
  unfolding compute_id warn
  compute_id-Computed R opts s = elim (Option-cases opts.file) [
    | inl e ↦ rw (e, Goes) (refl, inr (_, refl))
    | inr (file, e) ↦ elim (Bool-cases (is_negative (L.kldfind file s.kernel))) [
      | inl missing ↦ rw (e, missing, Goes) (refl, inl (refl, (s.stderr, _, refl)))
      | inr there ↦ rw (e, there, Goes) (refl, inr (_, refl))
    ]
  ]

  list_for-Acted :
      (fuel : ℕ) (opts : Opts) (s : Process L)
      → Goes Acted Reported (Stuck fuel s.kernel) (list_for L fuel opts s)
  unfolding list_for
  list_for-Acted fuel opts s = elim (Bool-cases (is_negative opts.id)) [
    | inr given ↦
        subst (Goes Acted Reported (Stuck fuel s.kernel))
          (ap
            (λ b.
              (if not b
                  then list_mods L fuel opts
                  else if is_some opts.module_name
                  then usage L
                  else list_files L fuel opts)
                s)
            (sym given))
          (list_mods-Acted fuel opts s given)
    | inl absent ↦ rw absent (elim (Bool-cases (is_some opts.module_name)) [
      | inl named ↦ rw named (usage-Reported Acted (Stuck fuel s.kernel) s)
      | inr unnamed ↦ rw unnamed (list_files-Acted fuel opts s)
    ])
  ]

  pub stat_action-Acted :
      (fuel : ℕ) (opts : Opts) (s : Process L)
      → Goes Acted Reported (Stuck fuel s.kernel) (stat_action L fuel opts s)
  unfolding stat_action list_for
  stat_action-Acted fuel opts s =
      Goes-bind (Computed s.kernel) Acted Reported (Stuck fuel s.kernel) (compute_id L opts) _ s
        (compute_id-Computed (Stuck fuel s.kernel) opts s)
        λ r t (same, post). elim post [
          | inl (e, warned) ↦ rw (e, Goes) (inr (refl, warned))
          | inr (opts', e) ↦ rw e (
              subst (λ k. Goes Acted Reported (Stuck fuel k) (list_for L fuel opts' t)) same
                (list_for-Acted fuel opts' t))
        ]
