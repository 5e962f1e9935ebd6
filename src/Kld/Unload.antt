-- ===== src/Kld/Unload.antt =====
-- `do_unload` of kld.c.
pub mod Ending
pub mod Verbose
use aquabsd_pkg_repo.Base.{none, some, [], ◌∷◌, ◌++◌, if◌then◌else◌, ℤ, pos, negsuc}
use aquabsd_pkg_repo.Base.Words.{is_negative}
use aquabsd_pkg_repo.Base.Bytes.{codes, format}
use aquabsd_pkg_repo.Base.Decimal.{int_text}
use aquabsd_pkg_repo.Base.Prog.{Prog, pure, ◌>>=◌, ◌>>◌}
use aquabsd_pkg_repo.Kld.{ok, failed, Linker, Opts, Process, print, warn, usage, compute_id}

module _ (L : Linker) where
  -- The call of `kldunloadf` at the end of `do_unload`.
  unfoldable pub unload : Opts → Prog (Process L) ℤ
  unfolding warn
  unload opts s =
      let (reply, k) = L.kldunloadf opts.id opts.force s.kernel in
      elim reply [
        | ok u ↦ pure (pos 0) (record s { kernel = k })
        | failed errno ↦
            (do
              warn L (format (codes "can't unload file id %d") (int_text opts.id ∷ []))
              pure (negsuc 0))
              (record s { kernel = k })
      ]

  -- What `do_unload` does once the id is known.
  unfoldable pub unload_id : Opts → Prog (Process L) ℤ
  unfolding unload warn print usage
  unload_id opts =
      if is_negative opts.id
      then usage L
      else if opts.verbose
      then (λ s. elim (L.kldstat opts.id s.kernel) [
        | none ↦
            (do
              warn L (format (codes "can't stat file id %d") (int_text opts.id ∷ []))
              pure (negsuc 0))
              s
        | some f ↦
            (do
              print L (
                  format (codes "Unloading %s, id=%d") (f.name ∷ int_text opts.id ∷ [])
                  ++ (10 ∷ []))
              unload opts)
              s
      ])
      else unload opts

  -- `do_unload`
  unfoldable pub unload_action : Opts → Prog (Process L) ℤ
  unfolding compute_id unload_id
  unload_action opts = do
    computed ← compute_id L opts
    elim computed [ none ↦ pure (negsuc 0) | some opts' ↦ unload_id opts' ]
