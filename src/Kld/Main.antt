-- ===== src/Kld/Main.antt =====
-- The options of kld.c and its `main`. The fuel bounds the rounds of the two lists.
pub mod Empty
pub mod Ending
pub mod Files
pub mod Id
pub mod Loading
pub mod Modules
pub mod Order
pub mod Unloading
pub mod Verbose
use aquabsd_pkg_repo.Base.{
  ℕ, zero, suc, ◌+◌, ◌-◌, Bool, true, false, Option, none, some, List, [], ◌∷◌, ◌++◌, ◌==◌, ◌&&◌,
  not, if◌then◌else◌, ℤ, pos, negsuc, length,
}
use aquabsd_pkg_repo.Base.Words.{int_of_u32, is_negative}
use aquabsd_pkg_repo.Base.Bytes.{
  Bytes, codes, format, str_chr, str_str, c_string, strlcpy, strlcat, strsep, strtoul,
}
use aquabsd_pkg_repo.Base.Decimal.{int_text, hex, pad}
use aquabsd_pkg_repo.Base.Getopt.{Opt, getopt}
use aquabsd_pkg_repo.Base.Prog.{Prog, pure, exit, undefined, running, ◌>>=◌, ◌>>◌, modify, get}
use aquabsd_pkg_repo.Kld.{
  Reply, ok, failed, ModuleStat, KldFileStat, FileId, Linker, Action, do_stat, do_load, do_unload,
  Opts, defaults, Process, pathctl, ptr_width, is_some, print, warn, err, usage, compute_id,
}
use aquabsd_pkg_repo.Kld.Listing.{stat_action}
use aquabsd_pkg_repo.Kld.Load.{load_action, kld_path}
use aquabsd_pkg_repo.Kld.Unload.{unload_action}

module _ (L : Linker) where
  -- The option `-i`: what `strtoul` returns is cut to an `int`.
  unfoldable pub set_id : Bytes → Opts → Prog (Process L) Opts
  unfolding usage
  set_id optarg opts =
      let (value, inval) = strtoul optarg in
      elim inval [ [] ↦ pure (record opts { id = int_of_u32 value }) | c ∷ r ↦ usage L ]

  -- One round of the loop over the options. Where `getopt` returns a question mark, it has printed a
  -- message.
  unfoldable pub parse_one : Opt → Opts → Prog (Process L) Opts
  parse_one o opts =
      if o.c == b'd'
      then pure (record opts { show_data = true })
      else if o.c == b'f'
      then pure (record opts { force = true })
      else if o.c == b'h'
      then pure (record opts { humanize = true })
      else if o.c == b'v'
      then pure (record opts { verbose = true })
      else if o.c == b'l'
      then pure (record opts { action = do_load })
      else if o.c == b'u'
      then pure (record opts { action = do_unload })
      else if o.c == b'i'
      then set_id o.optarg opts
      else if o.c == b'n'
      then pure (record opts { file = some o.optarg })
      else if o.c == b'm'
      then pure (record opts { module_name = some o.optarg })
      else (λ s. usage L (record s { stderr = s.stderr ++ (o.optarg ∷ []) }))

  unfoldable pub parse : List Opt → Opts → Prog (Process L) Opts
  parse [] opts = pure opts
  parse (o ∷ rest) opts = parse_one o opts >>= parse rest

  abbrev pub run_action : ℕ → Opts → Prog (Process L) ℤ
  run_action fuel opts = elim opts.action [
    | do_stat ↦ stat_action L fuel opts
    | do_load ↦ load_action L opts
    | do_unload ↦ unload_action L opts
  ]

  unfoldable pub main : ℕ → List Bytes → Prog (Process L) ℕ
  unfolding parse parse_one set_id stat_action load_action unload_action kld_path strlcpy strlcat
  main fuel args = do
    opts ← parse (getopt (codes "dfhi:lm:n:uv") args) defaults
    rv ← run_action fuel opts
    pure (if is_negative rv then 1 else 0)
