-- ===== src/Kld/Listing.antt =====
-- `do_stat` of kld.c and the lists that it prints.
pub mod Rounds
pub mod Chain
pub mod Ending
use aquabsd_pkg_repo.Base.{
  ℕ, zero, suc, ◌+◌, ◌-◌, Bool, true, false, Option, none, some, List, [], ◌∷◌, ◌++◌, ◌==◌, ◌&&◌,
  not, if◌then◌else◌, ℤ, pos, negsuc, length,
}
use aquabsd_pkg_repo.Base.Words.{int_of_u32, is_negative}
use aquabsd_pkg_repo.Base.Bytes.{
  Bytes, codes, format, str_chr, str_str, c_string, strlcpy, strlcat, strsep, strtoul,
}
use aquabsd_pkg_repo.Base.Decimal.{int_text, hex, pad}
use aquabsd_pkg_repo.Base.Getopt.{Opt, getopt}
use aquabsd_pkg_repo.Base.Prog.{Prog, pure, exit, undefined, running, ◌>>=◌, ◌>>◌, modify, get}
use aquabsd_pkg_repo.Kld.{
  Reply, ok, failed, ModuleStat, KldFileStat, FileId, Linker, Action, do_stat, do_load, do_unload,
  Opts, defaults, Process, pathctl, ptr_width, is_some, print, warn, err, usage, compute_id,
}

module _ (L : Linker) where
  -- The line of a module.
  unfoldable pub module_line : Opts → ModuleStat → Bytes
  module_line opts m =
      pad 3 (int_text m.id)
      ++ (b' ' ∷ m.name)
      ++ (if opts.show_data then codes " (0x" ++ hex m.ulongval ++ codes ")" else [])
      ++ (10 ∷ [])

  unfoldable pub print_mod : Opts → ℤ → Prog (Process L) (Unit {0})
  unfolding print warn module_line
  print_mod opts id s = elim (L.modstat id s.kernel) [
    | none ↦ warn L (format (codes "can't stat module id %d") (int_text id ∷ [])) s
    | some m ↦ print L (module_line opts m) s
  ]

  -- The line of a file.
  unfoldable pub file_line : Opts → KldFileStat → Bytes
  file_line opts f =
      pad 2 (int_text f.id)
      ++ (b' ' ∷ pad 4 (int_text f.refs))
      ++ (b' ' ∷ pad ptr_width (codes "0x" ++ hex f.address))
      ++ (b' ' ∷ (if opts.humanize then pad 5 (L.humanize_number f.size) else pad 8 (hex f.size)))
      ++ (b' ' ∷ f.name)
      ++ (if opts.verbose then codes " (" ++ f.pathname ++ codes ")" else [])
      ++ (10 ∷ [])

  unfoldable pub print_file : Opts → ℤ → Prog (Process L) (Unit {0})
  unfolding print err file_line
  print_file opts id s = elim (L.kldstat id s.kernel) [
    | none ↦ err L (format (codes "can't stat file id %d") (int_text id ∷ [])) s
    | some f ↦ print L (file_line opts f) s
  ]

  -- The loop `for (int i = first; i; i = next(i)) print(i)` of both lists, on fuel.
  unfoldable pub for_ids :
      ℕ → (ℤ → Prog (Process L) (Unit {0})) → (ℤ → L.Kernel → ℤ) → ℤ → Prog (Process L) (Unit {0})
  for_ids zero body next i s = running
  for_ids (suc fuel) body next (pos zero) s = pure tt s
  for_ids (suc fuel) body next (pos (suc n)) s =
      (body (pos (suc n)) >> λ t. for_ids fuel body next (next (pos (suc n)) t.kernel) t) s
  for_ids (suc fuel) body next (negsuc n) s =
      (body (negsuc n) >> λ t. for_ids fuel body next (next (negsuc n) t.kernel) t) s

  -- `__do_list_mods`
  unfoldable pub list_mods : ℕ → Opts → Prog (Process L) ℤ
  unfolding print print_mod for_ids
  list_mods fuel opts = if is_negative opts.id then pure (negsuc 0) else do
    print L (codes " id name" ++ (10 ∷ []))
    s ← get
    for_ids fuel (print_mod opts) L.modfnext (L.kldfirstmod opts.id s.kernel)
    pure (pos 0)

  -- The heading: `%*c` is a space in a field of the width of a pointer less 7.
  unfoldable pub heading : Opts → Bytes
  heading opts =
      codes "id refs addr"
      ++ pad (ptr_width - 7) (codes " ")
      ++ (b' ' ∷ pad (if opts.humanize then 8 else 11) (codes "size"))
      ++ codes " name"
      ++ (10 ∷ [])

  -- `__do_list_files`
  unfoldable pub list_files : ℕ → Opts → Prog (Process L) ℤ
  unfolding print print_file for_ids heading
  list_files fuel opts = do
    print L (heading opts)
    s ← get
    for_ids fuel (print_file opts) L.kldnext (L.kldnext (pos 0) s.kernel)
    pure (pos 0)

  -- What `do_stat` does once the id is known.
  unfoldable pub list_for : ℕ → Opts → Prog (Process L) ℤ
  unfolding list_mods list_files usage
  list_for fuel opts =
      if not (is_negative opts.id)
      then list_mods fuel opts
      else if is_some opts.module_name
      then usage L
      else list_files fuel opts

  -- `do_stat`
  unfoldable pub stat_action : ℕ → Opts → Prog (Process L) ℤ
  unfolding compute_id list_for
  stat_action fuel opts = do
    computed ← compute_id L opts
    elim computed [ none ↦ pure (negsuc 0) | some opts' ↦ list_for fuel opts' ]
