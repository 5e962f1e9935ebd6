-- ===== src/Base/Swaps.antt =====
-- Options of the command line in another order.
use Prim.Native.Nat.{ℕ}
use mathlib.Core.Path.{◌≡◌, refl, sym, ◌∙◌}
use mathlib.Core.Logic.{◌≢◌}
use mathlib.Core.List.{List, ◌∷◌}
use aquabsd_pkg_repo.Base.Getopt.{Opt}
use aquabsd_pkg_repo.Base.Prog.{Prog, ◌>>=◌, >>=-assoc, >>=-same}

-- Lists of options that differ by swaps of neighbours that set different things, where `slot` says
-- what an option sets.
pub data Swaps (slot : ℕ → ℕ) : List Opt → List Opt → Type 0 where
  same : (os : List Opt) → Swaps slot os os
  swap : (o p : Opt) (os : List Opt) → slot o.c ≢ slot p.c → Swaps slot (o ∷ p ∷ os) (p ∷ o ∷ os)
  behind : (o : Opt) (os ps : List Opt) → Swaps slot os ps → Swaps slot (o ∷ os) (o ∷ ps)
  both : (os ps qs : List Opt) → Swaps slot os ps → Swaps slot ps qs → Swaps slot os qs

-- A loop over the options, whose round commutes for options that set different things, does the
-- same for such lists.
module _ {S A : Type 0} (slot : ℕ → ℕ) (round : Opt → A → Prog S A) (loop : List Opt → A → Prog S A)
    (goes_on : (o : Opt) (os : List Opt) (a : A) (s : S)
      → loop (o ∷ os) a s ≡ (round o a >>= loop os) s)
    (commutes : (o p : Opt) (a : A) (s : S)
      → slot o.c ≢ slot p.c
      → (round o a >>= round p) s ≡ (round p a >>= round o) s) where
  two_rounds :
      (o p : Opt) (os : List Opt) (a : A) (s : S)
      → loop (o ∷ p ∷ os) a s ≡ ((round o a >>= round p) >>= loop os) s
  two_rounds o p os a s =
      goes_on o (p ∷ os) a s
      ∙ >>=-same (round o a) (round o a) (loop (p ∷ os)) (λ b. round p b >>= loop os) s refl
          (λ b t. goes_on p os b t)
      ∙ sym (>>=-assoc (round o a) (round p) (loop os) s)

  pub loop-Swaps : (os ps : List Opt) (a : A) (s : S) → Swaps slot os ps → loop os a s ≡ loop ps a s
  loop-Swaps os ps a s (same _) = refl
  loop-Swaps os ps a s (swap o p rest d) =
      two_rounds o p rest a s
      ∙ >>=-same (round o a >>= round p) (round p a >>= round o) (loop rest) (loop rest) s
          (commutes o p a s d) (λ b t. refl)
      ∙ sym (two_rounds p o rest a s)
  loop-Swaps os ps a s (behind o os' ps' h) =
      goes_on o os' a s
      ∙ >>=-same (round o a) (round o a) (loop os') (loop ps') s refl
          (λ b t. loop-Swaps os' ps' b t h)
      ∙ sym (goes_on o ps' a s)
  loop-Swaps os ps a s (both _ qs _ h k) = loop-Swaps os qs a s h ∙ loop-Swaps qs ps a s k
