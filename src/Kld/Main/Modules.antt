-- ===== src/Kld/Main/Modules.antt =====
-- kld without an action, for one file, which `-i` or `-n` names: the list of its modules.
use mathlib.Core.List.{flat_map}
use aquabsd_pkg_repo.Base.{
  ℕ, ◌<◌, ◌≡◌, ◌∙◌, refl, false, if◌then◌else◌, List, [], ◌∷◌, ◌++◌, ℤ, negsuc, length,
}
use aquabsd_pkg_repo.Base.Words.{is_negative}
use aquabsd_pkg_repo.Base.Bytes.{Bytes, codes}
use aquabsd_pkg_repo.Base.Getopt.{getopt}
use aquabsd_pkg_repo.Base.Prog.{pure, done, running, ◌>>=◌}
use aquabsd_pkg_repo.Kld.{Linker, Opts, do_stat, defaults, Process}
use aquabsd_pkg_repo.Kld.Listing.{module_line, list_mods, list_for, stat_action}
use aquabsd_pkg_repo.Kld.Listing.Chain.{
  outs, errs, module_out, module_errs, list_mods-Chain, list_mods_stuck,
}
use aquabsd_pkg_repo.Kld.Listing.Rounds.{Chain}
use aquabsd_pkg_repo.Kld.Unload.Verbose.{id_of, computed}
use aquabsd_pkg_repo.Kld.Main.{parse, main}

module _ (L : Linker) (fuel : ℕ) (args : List Bytes) (opts : Opts) (s : Process L)
    (parsed : parse L (getopt (codes "dfhi:lm:n:uv") args) defaults s ≡ done opts s)
    (stats : opts.action ≡ do_stat)
    (known : is_negative (id_of L opts.file opts.id s.kernel) ≡ false) where
  -- The file that is named, and the options once its id is known.
  abbrev file_id : ℤ
  file_id = id_of L opts.file opts.id s.kernel

  abbrev identified : Opts
  identified = record opts { id = file_id }

  main-list_mods :
      main L fuel args s
      ≡ (list_mods L fuel identified >>= λ rv. pure (if is_negative rv then 1 else 0)) s
  unfolding main stat_action list_for
  main-list_mods =
      rw (parsed, ◌>>=◌)
        (rw (stats, ◌>>=◌) (rw (computed L opts s known, ◌>>=◌) (rw (known, ◌>>=◌) refl)))

  -- Where kld accepts its arguments, without -l and -u, and they name a file, by an id or by a name
  -- that the kernel knows, where the kernel's chain of the file's modules ends in zero and the fuel
  -- is more than their number: main prints the heading and then a line for each module that the
  -- kernel can describe, in the order of the chain, reports each other one on the error stream, and
  -- returns 0.
  pub main-modules :
      (ids : List ℤ)
      → Chain L L.modfnext s.kernel
          (λ i. Unit {0})
          (L.kldfirstmod (id_of L opts.file opts.id s.kernel) s.kernel)
          ids
      → length ids < fuel
      → main L fuel args s
        ≡ done 0 (record s {
          stdout =
              (s.stdout ++ ((codes " id name" ++ (10 ∷ [])) ∷ []))
              ++ flat_map (module_out L opts s.kernel) ids;
          stderr = s.stderr ++ flat_map (module_errs L opts s.kernel) ids;
        })
  unfolding outs errs module_line
  main-modules ids c h =
      main-list_mods ∙ rw (list_mods-Chain L identified fuel ids s known c h, ◌>>=◌) refl

  -- Where kld accepts its arguments, without -l and -u, and they name a file, by an id or by a name
  -- that the kernel knows, where the kernel answers the call for the file's first module with a
  -- negative number, and the call for the module after that with the same number: main is still
  -- running whatever the fuel.
  pub main_stuck :
      (m : ℕ)
      → L.kldfirstmod (id_of L opts.file opts.id s.kernel) s.kernel ≡ negsuc m
      → L.modfnext (negsuc m) s.kernel ≡ negsuc m
      → main L fuel args s ≡ running
  main_stuck m first same =
      main-list_mods ∙ rw (list_mods_stuck L identified fuel m s known first same, ◌>>=◌) refl
