-- ===== src/Kld/Load.antt =====
-- `do_load` of kld.c: the search path of the kernel, and the load itself.
pub mod Ending
pub mod Path
pub mod Route
use aquabsd_pkg_repo.Base.{
  ℕ, zero, suc, ◌+◌, ◌-◌, Bool, true, false, Option, none, some, List, [], ◌∷◌, ◌++◌, ◌==◌, ◌&&◌,
  not, if◌then◌else◌, ℤ, pos, negsuc, length,
}
use aquabsd_pkg_repo.Base.Words.{int_of_u32, is_negative}
use aquabsd_pkg_repo.Base.Bytes.{
  Bytes, codes, format, str_chr, str_str, c_string, strlcpy, strlcat, strsep, strtoul,
}
use aquabsd_pkg_repo.Base.Decimal.{int_text, hex, pad}
use aquabsd_pkg_repo.Base.Getopt.{Opt, getopt}
use aquabsd_pkg_repo.Base.Prog.{Prog, pure, exit, undefined, running, ◌>>=◌, ◌>>◌, modify, get}
use aquabsd_pkg_repo.Kld.{
  Reply, ok, failed, ModuleStat, KldFileStat, FileId, Linker, Action, do_stat, do_load, do_unload,
  Opts, defaults, Process, pathctl, ptr_width, is_some, print, warn, err, usage, compute_id,
}

-- The last byte; `none` is the byte in front of the buffer.
abbrev pub last_byte : Bytes → Option ℕ
last_byte [] = none
last_byte (c ∷ []) = some c
last_byte (c ∷ d ∷ r) = last_byte (d ∷ r)

-- The copied element, a slash if it ends in none, and the name, in a buffer of a size.
unfoldable pub join_path : Bytes → Bytes → ℕ → Option Bytes
join_path copied name size = elim (last_byte copied) [
  | none ↦ none
  | some c ↦
      some (strlcat (if c == b'/' then copied else strlcat copied (codes "/") size) name size)
]

-- The path that `do_load` builds for one element of the search path, in a buffer of
-- `strlen(elem) + 1` bytes; `none` if it reads in front of the buffer.
unfoldable pub kld_path : Bytes → Bytes → Option Bytes
unfolding join_path
kld_path elem name = let size = length elem + 1 in join_path (strlcpy elem size) name size

module _ (L : Linker) where
  unfoldable pub get_mib : Opts → Prog (Process L) Opts
  unfolding err
  get_mib opts = elim opts.mib [
    | n ∷ rest ↦ pure opts
    | [] ↦ λ s. elim (L.sysctlnametomib pathctl s.kernel) [
      | none ↦ err L (format (codes "sysctlnametomib(%s)") (pathctl ∷ [])) s
      | some mib ↦ pure (record opts { mib = mib }) s
    ]
  ]

  -- The two `sysctl` calls of `__get_path`: the size, and the value.
  unfoldable pub read_path : Opts → Prog (Process L) Opts
  unfolding err
  read_path opts s = elim (L.sysctl_size opts.mib s.kernel) [
    | none ↦ err L (format (codes "getting path: sysctl(%s) - size only") (pathctl ∷ [])) s
    | some len ↦ elim (L.sysctl_data opts.mib len s.kernel) [
      | none ↦ err L (format (codes "getting path: sysctl(%s)") (pathctl ∷ [])) s
      | some value ↦ pure (record opts { path = some value }) s
    ]
  ]

  unfoldable pub get_path : Opts → Prog (Process L) Opts
  unfolding get_mib read_path
  get_path opts = do with_mib ← get_mib opts; read_path with_mib

  -- The loop over the search path: whether an element was found.
  unfoldable pub search_from : Bytes → FileId → List Bytes → Prog (Process L) Bool
  unfolding warn
  search_from name here [] = pure false
  search_from name here (elem ∷ rest) = elim (kld_path elem name) [
    | none ↦ undefined
    | some candidate ↦ λ s. elim (L.stat candidate s.kernel) [
      | none ↦ search_from name here rest s
      | some there ↦
          (if there.st_dev == here.st_dev && there.st_ino == here.st_ino then pure true else do
            warn L (
                format (codes "%s will be loaded from %s, not the current directory")
                  (name ∷ elem ∷ []))
            pure true)
            s
    ]
  ]

  -- From the label `path_validated` on.
  unfoldable pub load : Opts → Bytes → Prog (Process L) ℤ
  unfolding print warn
  load opts name s =
      let (reply, k) = L.kldload name s.kernel in
      elim reply [
        | ok id ↦
            (if opts.verbose
                then (do
                  print L (format (codes "Loaded %s, id=%d") (name ∷ int_text id ∷ []) ++ (10 ∷ []))
                  pure (pos 0))
                else pure (pos 0))
              (record s { kernel = k })
        | failed errno ↦
            (do
              warn L (
                  if errno == L.eexist
                  then format (codes "can't load %s: module already loaded or in kernel")
                      (name ∷ [])
                  else if errno == L.enoexec
                  then format
                      (codes
                        "an error occurred while loading %s; please check dmesg(8) for more details")
                      (name ∷ [])
                  else format (codes "can't load %s") (name ∷ []))
              pure (negsuc 0))
              (record s { kernel = k })
      ]

  -- The search of a file of the current directory in the path of `kern.module_path`.
  unfoldable pub load_searched : Opts → Bytes → FileId → Prog (Process L) ℤ
  unfolding get_path search_from load warn
  load_searched opts name here = do
    opts' ← get_path opts
    elim opts'.path [
      | none ↦ undefined
      | some value ↦ elim (c_string value) [
        | none ↦ undefined
        | some path ↦ do
          found ← search_from name here (strsep b';' path)
          if found then load opts' name else do
            warn L (format (codes "%s is not in module search path") (name ∷ []))
            pure (negsuc 0)
      ]
    ]

  -- `do_load`
  unfoldable pub load_action : Opts → Prog (Process L) ℤ
  unfolding load_searched load usage
  load_action opts = elim opts.file [
    | none ↦ usage L
    | some name ↦
        if str_chr b'/' name
        then load opts name
        else if not (str_str name (codes ".ko"))
        then load opts name
        else λ s. elim (L.stat name s.kernel) [
          | none ↦ load opts name s
          | some here ↦ load_searched opts name here s
        ]
  ]
