-- ===== src/Kld.antt =====
-- The command-line program kld (packages/aquabsd.alps/kld/src/kld.c), which lists, loads and
-- unloads kernel modules. The services of the kernel's linker, `stat` and `sysctl` are those of a
-- record, on the state of the kernel. `warn`, `warnx`, `err` and `errx` are modelled by the
-- formatted message and the exit status, without what they add to it.
pub mod Listing
pub mod Load
pub mod Unload
pub mod Main
pub mod Tests
pub use aquabsd_pkg_repo.Base.Prog.{Reply, ok, failed}
use aquabsd_pkg_repo.Base.{
  ℕ, zero, suc, ◌+◌, ◌-◌, Bool, true, false, Option, none, some, List, [], ◌∷◌, ◌++◌, ◌==◌, ◌&&◌,
  not, if◌then◌else◌, ℤ, pos, negsuc, length,
}
use aquabsd_pkg_repo.Base.Words.{int_of_u32, is_negative}
use aquabsd_pkg_repo.Base.Bytes.{
  Bytes, codes, format, str_chr, str_str, c_string, strlcpy, strlcat, strsep, strtoul,
}
use aquabsd_pkg_repo.Base.Decimal.{int_text, hex, pad}
use aquabsd_pkg_repo.Base.Getopt.{Opt, getopt}
use aquabsd_pkg_repo.Base.Prog.{Prog, pure, exit, undefined, running, ◌>>=◌, ◌>>◌, modify, get}

-- The fields of `struct module_stat` and `struct kld_file_stat` that are printed.
pub record ModuleStat : Type 0 where
  pub id : ℤ
  pub name : Bytes
  pub ulongval : ℕ

pub record KldFileStat : Type 0 where
  pub id : ℤ
  pub refs : ℤ
  pub address : ℕ
  pub size : ℕ
  pub name : Bytes
  pub pathname : Bytes

-- `st_dev` and `st_ino`
pub record FileId : Type 0 where
  pub st_dev : ℕ
  pub st_ino : ℕ

-- What the program calls and does not implement.
pub record Linker : Type 1 where
  pub Kernel : Type 0
  pub kldfind : Bytes → Kernel → ℤ
  pub kldnext : ℤ → Kernel → ℤ
  pub kldfirstmod : ℤ → Kernel → ℤ
  pub modfnext : ℤ → Kernel → ℤ
  pub modstat : ℤ → Kernel → Option ModuleStat
  pub kldstat : ℤ → Kernel → Option KldFileStat
  pub kldload : Bytes → Kernel → Reply ℤ × Kernel
  -- with LINKER_UNLOAD_FORCE or without
  pub kldunloadf : ℤ → Bool → Kernel → Reply (Unit {0}) × Kernel
  pub stat : Bytes → Kernel → Option FileId
  pub sysctlnametomib : Bytes → Kernel → Option (List ℕ)
  -- the size of a value, and the value in a buffer of that many bytes
  pub sysctl_size : List ℕ → Kernel → Option ℕ
  pub sysctl_data : List ℕ → ℕ → Kernel → Option Bytes
  pub humanize_number : ℕ → Bytes
  pub getprogname : Bytes
  pub eexist : ℕ
  pub enoexec : ℕ

pub data Action : Type 0 where
  do_stat do_load do_unload : Action

-- `opts_t`, with the variable `action` of `main`. `mib` is empty until it has been looked up.
pub record Opts : Type 0 where
  pub action : Action
  pub show_data : Bool
  pub humanize : Bool
  pub force : Bool
  pub verbose : Bool
  pub id : ℤ
  pub file : Option Bytes
  pub module_name : Option Bytes
  pub path : Option Bytes
  pub mib : List ℕ

abbrev pub defaults : Opts
defaults = record {
  action = do_stat;
  show_data = false;
  humanize = false;
  force = false;
  verbose = false;
  id = negsuc 0;
  file = none;
  module_name = none;
  path = none;
  mib = [];
}

-- What the process has printed, piece by piece, and the kernel.
pub record Process (L : Linker) : Type 0 where
  pub stdout : List Bytes
  pub stderr : List Bytes
  pub kernel : L.Kernel

abbrev pub pathctl : Bytes
pathctl = codes "kern.module_path"

-- `PTR_WIDTH`, where a pointer has 8 bytes
abbrev pub ptr_width : ℕ
ptr_width = 18

abbrev pub is_some {ℓ} : {A : Type ℓ} → Option A → Bool
is_some none = false
is_some (some a) = true

module _ (L : Linker) where
  unfoldable pub print : Bytes → Prog (Process L) (Unit {0})
  print text = modify λ s. record s { stdout = s.stdout ++ (text ∷ []) }

  unfoldable pub warn : Bytes → Prog (Process L) (Unit {0})
  warn message = modify λ s. record s { stderr = s.stderr ++ (message ∷ []) }

  unfoldable pub err : {A : Type 0} → Bytes → Prog (Process L) A
  unfolding warn
  err message = do warn message; exit 1

  unfoldable pub usage : {A : Type 0} → Prog (Process L) A
  unfolding err
  usage =
      let name = L.getprogname ∷ [] in
      err (
        format (codes "usage: %s [-hv]") name
        ++ (10 ∷ format (codes "       %s [-dhv] -i id") name)
        ++ (10 ∷ format (codes "       %s [-dhv] -n filename") name)
        ++ (10 ∷ format (codes "       %s [-hv] -l [-i id] [-n filename] [-m modname]") name)
        ++ (10 ∷ format (codes "       %s [-hv] -u [-i id] [-n filename] [-m modname]") name))

  -- `none` is the -1 of the source.
  unfoldable pub compute_id : Opts → Prog (Process L) (Option Opts)
  unfolding warn
  compute_id opts s = elim opts.file [
    | none ↦ pure (some opts) s
    | some file ↦
        let id = L.kldfind file s.kernel in
        if is_negative id
        then (do warn (format (codes "can't find file %s") (file ∷ [])); pure none) s
        else pure (some (record opts { id = id })) s
  ]
