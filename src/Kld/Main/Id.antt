-- ===== src/Kld/Main/Id.antt =====
-- The option `-i` of kld.c: what becomes of a printed number.
use aquabsd_pkg_repo.Base.{ℕ, ◌^◌, ◌<◌, ◌≤◌, ◌≡◌, true, ap, arith, pos, ◌∙◌}
use aquabsd_pkg_repo.Base.Words.{int_of_u32, is_negative}
use aquabsd_pkg_repo.Base.Decimal.{decimal, strtoul-decimal}
use aquabsd_pkg_repo.Base.Prog.{done}
use aquabsd_pkg_repo.Kld.{Linker, Opts, Process}
use aquabsd_pkg_repo.Kld.Main.{set_id}

module _ (L : Linker) where
  -- The id is the `int` that the low 32 bits of the number stand for.
  pub set_id-decimal :
      (n : ℕ) (opts : Opts) (s : Process L)
      → n < 2 ^ 64
      → set_id L (decimal n) opts s ≡ done (record opts { id = int_of_u32 n }) s
  unfolding set_id
  set_id-decimal n opts s h =
      rw (strtoul-decimal n h, set_id)
        (ap (λ p. done (record opts { id = int_of_u32 p.0 }) s) (strtoul-decimal n h))

  -- The option `-i` with the decimal digits of a number below 2^31 sets the id to that number.
  pub set_id-decimal_fits :
      (n : ℕ) (opts : Opts) (s : Process L)
      → n < 2 ^ 31
      → set_id L (decimal n) opts s ≡ done (record opts { id = pos n }) s
  set_id-decimal_fits n opts s h =
      set_id-decimal n opts s (omega arith)
      ∙ ap (λ id. done (record opts { id = id }) s) (ground arith)

  -- The option `-i` with the decimal digits of a number from 2^31 to 2^32 - 1 is accepted, and sets
  -- a negative id, which the rest of the program takes for no id at all.
  pub set_id-decimal_wraps :
      (n : ℕ) (opts : Opts) (s : Process L)
      → 2 ^ 31 ≤ n
      → n < 2 ^ 32
      → (opts' : Opts) × (set_id L (decimal n) opts s ≡ done opts' s)
        × (is_negative opts'.id ≡ true)
  set_id-decimal_wraps n opts s l h =
      (record opts { id = int_of_u32 n }, set_id-decimal n opts s (omega arith), ground arith)
