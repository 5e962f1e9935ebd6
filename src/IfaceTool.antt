-- ===== src/IfaceTool.antt =====
-- The command-line program iface (packages/aquabsd.alps/iface/src/iface.c), over libiface: its
-- options, its two actions and `main`. A `char*` argument is the bytes before its NUL, and `errx`
-- and `err` are modelled by the formatted message and the exit status; what these two add to the
-- message (the program's name, and for `err` the text of `errno`) is left out.
pub mod Acting
pub mod Dangling
pub mod Ending
pub mod Find
pub mod FlagWord
pub mod Letters
pub mod Options
pub mod Parsing
pub mod Printed
pub mod Several
pub mod Stat
pub mod Tests
pub mod Types
pub mod Whole
pub use aquabsd_pkg_repo.IfaceTool.Types.{
  Action, do_stat, do_set_flag, Opts, defaults, negate, opposite, first_char, text_of,
}
use aquabsd_pkg_repo.Base.{
  ℕ, zero, suc, ◌+◌, Bool, true, false, Option, none, some, List, [], ◌∷◌, ◌++◌, bit_and, bit_or,
  ◌==◌, if◌then◌else◌, ℤ, pos, negsuc, get_elem?,
}
use aquabsd_pkg_repo.Base.Words.{u32_of_int, int_of_u32, is_negative}
use aquabsd_pkg_repo.Base.Bytes.{Bytes, codes, format, str_eq}
use aquabsd_pkg_repo.Base.Getopt.{Opt, getopt}
use aquabsd_pkg_repo.Base.Prog.{Prog, pure, exit, undefined, get, modify, ◌>>=◌, ◌>>◌}
use aquabsd_pkg_repo.Iface.{
  value, up, noarp, debug, link0, link1, link2, Net, Iface, Ifaces, Process, read_name,
  iface_error_str, iface_list, iface_free, iface_get_flags, iface_set_flags, iface_get_inet,
}

module _ (N : Net) where
  pub errx : {A : Type 0} → Bytes → Prog (Process N) A
  errx message = do modify λ s. record s { stderr = s.stderr ++ (message ∷ []) }; exit 1

  pub usage : {A : Type 0} → Prog (Process N) A
  unfolding errx
  usage =
      let name = N.getprogname ∷ [] in
      errx (
        format (codes "usage: %s [-hv]") name
        ++ (10 ∷ format (codes "       %s [-dhv] -i id") name)
        ++ (10 ∷ format (codes "       %s [-dhv] -n filename") name)
        ++ (10 ∷ format (codes "       %s [-hv] -l [-i id] [-n filename] [-m modname]") name)
        ++ (10 ∷ format (codes "       %s [-hv] -u [-i id] [-n filename] [-m modname]") name))

  -- A flag's letter: the flag with the sign that `__set_flag` gives it.
  pub flag_of : ℕ → Option ℤ
  flag_of c =
      if c == b'u'
      then some (pos (value N up))
      else if c == b'd'
      then some (negate (value N up))
      else if c == b'a'
      then some (negate (value N noarp))
      else if c == b'g'
      then some (pos (value N debug))
      else if c == b'0'
      then some (pos (value N link0))
      else if c == b'1'
      then some (pos (value N link1))
      else if c == b'2'
      then some (pos (value N link2))
      else none

  -- `sign * (_flag)`
  abbrev pub signed : Bool → ℤ → ℤ
  signed minus v = if minus then opposite v else v

  unfoldable pub set_flag : Bool → Bytes → Opts → Prog (Process N) Opts
  unfolding errx
  set_flag minus text opts = elim (flag_of (first_char text)) [
    | none ↦ errx (format (codes "Couldn't find flag %s") (text ∷ []) ++ (10 ∷ []))
    | some v ↦ pure (record opts { flag = bit_or opts.flag (u32_of_int (signed minus v)) })
  ]

  -- One round of the loop over the options. Where `getopt` returns a question mark, it has printed a
  -- message.
  pub parse_one : Opt → Opts → Prog (Process N) Opts
  parse_one o opts =
      if o.c == b'i'
      then pure (record opts { name = some o.optarg })
      else if o.c == b'a'
      then set_flag false o.optarg (record opts { action = do_set_flag })
      else if o.c == b'r'
      then set_flag true o.optarg (record opts { action = do_set_flag })
      else (λ s. usage (record s { stderr = s.stderr ++ (o.optarg ∷ []) }))

  pub parse : List Opt → Opts → Prog (Process N) Opts
  parse [] opts = pure opts
  parse (o ∷ rest) opts = parse_one o opts >>= parse rest

  -- The loop of `__find_iface`, from place `i` on. `strcmp` asks for
  -- two strings: a name in an array that has been moved is freed memory, and one that fills its
  -- buffer is no string.
  pub find_from : Ifaces → Bytes → ℕ → List Iface → Prog (Process N) ℕ
  find_from ifaces name i [] = errx (format (codes "Couldn't find interface %s") (name ∷ []))
  find_from ifaces name i (iface ∷ rest) = elim (read_name N ifaces iface) [
    | none ↦ undefined
    | some found ↦ elim (str_eq found name) [
      | true ↦ pure i
      | false ↦ find_from ifaces name (suc i) rest
    ]
  ]

  unfoldable pub find_iface : Bytes → Opts → Prog (Process N) Opts
  unfolding find_from errx read_name
  find_iface name opts = do
    i ← find_from opts.ifaces name 0 opts.ifaces.elems
    pure (record opts { iface = some i })

  -- The line that `__stat_iface` prints.
  pub stat_line : Iface → Bytes → ℕ → Bytes
  stat_line iface name flag =
      name
      ++ (9 ∷ iface_get_inet N iface)
      ++ (9 ∷ (if bit_and flag (value N up) == 0 then codes "down" else codes "up"))
      ++ (10 ∷ [])

  pub print : Bytes → Prog (Process N) (Unit {0})
  print line = modify λ s. record s { stdout = s.stdout ++ (line ∷ []) }

  pub stat_iface : Ifaces → Iface → Prog (Process N) ℤ
  unfolding errx stat_line print read_name
  stat_iface ifaces iface = do
    got ← iface_get_flags N iface false
    message ← iface_error_str N
    elim got [
      | none ↦ errx (format (codes "iface_get_flags: %s") (text_of message ∷ []))
      | some flag ↦ elim (read_name N ifaces iface) [
        | none ↦ undefined
        | some name ↦ do print (stat_line iface name flag); pure (pos 0)
      ]
    ]

  pub stat_all : Ifaces → List Iface → Prog (Process N) ℤ
  unfolding stat_iface
  stat_all ifaces [] = pure (pos 0)
  stat_all ifaces (iface ∷ rest) = do stat_iface ifaces iface; stat_all ifaces rest

  -- `do_stat`
  pub stat : Opts → Prog (Process N) ℤ
  unfolding stat_all
  stat opts = elim opts.iface [
    | none ↦ stat_all opts.ifaces opts.ifaces.elems
    | some i ↦ elim (get_elem? opts.ifaces.elems i) [
      | none ↦ undefined
      | some iface ↦ stat_iface opts.ifaces iface
    ]
  ]

  -- `do_set_flag`
  pub write_flag : Opts → Prog (Process N) ℤ
  unfolding errx
  write_flag opts = elim opts.iface [
    | none ↦ errx (codes "You must provide an interface with the -i option to set its flags")
    | some i ↦ elim (get_elem? opts.ifaces.elems i) [
      | none ↦ undefined
      | some iface ↦ do
        changed ← iface_set_flags N iface (int_of_u32 opts.flag)
        message ← iface_error_str N
        elim changed [
          | none ↦ errx (format (codes "iface_set_flags: %s") (text_of message ∷ []))
          | some iface' ↦ pure (pos 0)
        ]
    ]
  ]

  abbrev pub run_action : Opts → Prog (Process N) ℤ
  run_action opts = elim opts.action [ do_stat ↦ stat opts | do_set_flag ↦ write_flag opts ]

  abbrev pub choose : Opts → Prog (Process N) Opts
  choose opts = elim opts.name [ none ↦ pure opts | some name ↦ find_iface name opts ]

  -- From the list of interfaces to the exit status.
  unfoldable pub finish : Opts → Prog (Process N) ℕ
  unfolding find_iface stat write_flag
  finish opts = do
    chosen ← choose opts
    rv ← run_action chosen
    iface_free N opts.ifaces
    pure (if is_negative rv then 1 else 0)

  -- What `main` does once the options are parsed.
  unfoldable pub list_and_finish : Opts → Prog (Process N) ℕ
  unfolding errx finish
  list_and_finish opts = do
    listed ← iface_list N false false
    message ← iface_error_str N
    elim listed [
      | none ↦ errx (format (codes "iface_list: %s") (text_of message ∷ []))
      | some ifaces ↦ finish (record opts { ifaces = ifaces })
    ]

  unfoldable pub main : List Bytes → Prog (Process N) ℕ
  unfolding parse parse_one set_flag flag_of usage list_and_finish
  main args = do opts ← parse (getopt (codes "a:r:i:") args) defaults; list_and_finish opts
