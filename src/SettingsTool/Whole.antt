-- ===== src/SettingsTool/Whole.antt =====
-- settings from the words of the command line: the list of the settings and the option -r.
use aquabsd_pkg_repo.Base.{
  ℕ, ◌<◌, ◌≡◌, refl, true, some, List, [], ◌∷◌, ◌++◌, map, length, All, arith, pos,
}
use aquabsd_pkg_repo.Base.Bytes.{Bytes, codes, c_string}
use aquabsd_pkg_repo.Base.Getopt.{getopt}
use aquabsd_pkg_repo.Base.Prog.{done, ◌>>=◌}
use aquabsd_pkg_repo.Settings.{
  Privilege, boot, kern, user, aqua, other, code_of, string, Sysctl, Process,
}
use aquabsd_pkg_repo.Settings.Query.{type_of}
use aquabsd_pkg_repo.Settings.Fill.{Entry, Described, Fits, is_asked}
use aquabsd_pkg_repo.Settings.Search.Found.{Translated}
use aquabsd_pkg_repo.Settings.Listing.Walk.{Walk}
use aquabsd_pkg_repo.SettingsTool.{
  Opts, do_read, defaults, list_action, read_action, parse_one, parse, main,
}
use aquabsd_pkg_repo.SettingsTool.Keys.{key_line, list_action-Walk}
use aquabsd_pkg_repo.SettingsTool.Reading.{HasValue, read_action-string}

-- The option for a privilege; `-u` is not implemented, and the others have none.
abbrev pub word_for : Privilege → Bytes
word_for boot = codes "-b"
word_for kern = codes "-k"
word_for user = codes "-u"
word_for aqua = codes "--"
word_for (other n) = codes "--"

-- `settings -b -r KEY` and `settings -k -r KEY`
abbrev pub reading : Privilege → Bytes → Opts
reading privilege key = record defaults { action = do_read; read = some key; privilege = privilege }

module _ (K : Sysctl) (fuel : ℕ) (progname : Bytes) where
  -- `settings -b` and `settings -k`
  main-lists :
      (privilege : Privilege) (s t : Process)
      → code_of privilege < 2
      → list_action K fuel (record defaults { privilege = privilege }) s ≡ done (pos 0) t
      → main K fuel progname (word_for privilege ∷ []) s ≡ done 0 t
  unfolding main parse parse_one getopt
  main-lists boot s t h e = rw (e, ◌>>=◌) refl
  main-lists kern s t h e = rw (e, ◌>>=◌) refl
  main-lists user s t h e = absurd (omega arith)
  main-lists aqua s t h e = absurd (omega arith)
  main-lists (other n) s t h e = absurd (omega arith)

  main-reads :
      (privilege : Privilege) (key : Bytes) (s t : Process)
      → code_of privilege < 2
      → read_action K (reading privilege key) s ≡ done (pos 0) t
      → main K fuel progname (word_for privilege ∷ codes "-r" ∷ key ∷ []) s ≡ done 0 t
  unfolding main parse parse_one getopt
  main-reads boot key s t h e = rw (e, ◌>>=◌) refl
  main-reads kern key s t h e = rw (e, ◌>>=◌) refl
  main-reads user key s t h e = absurd (omega arith)
  main-reads aqua key s t h e = absurd (omega arith)
  main-reads (other n) key s t h e = absurd (omega arith)

  -- `settings -b` and `settings -k`: where the kernel enumerates settings behind CTL_KERN up to
  -- ENOENT, describes each of them, and none of their OIDs has more than CTL_MAXNAME / 4 numbers,
  -- and with more fuel than settings, main prints the key of every setting with a newline, in the
  -- kernel's order, whichever privilege it has, reports nothing and returns 0.
  pub main-Walk :
      (privilege : Privilege) {es : List Entry} (s : Process)
      → code_of privilege < 2
      → Walk K K.enoent (K.ctl_kern ∷ []) es
      → All (Fits K) es
      → length es < fuel
      → (t : Process) × (main K fuel progname (word_for privilege ∷ []) s ≡ done 0 t)
        × (t.stdout ≡ s.stdout ++ map key_line es)
        × (t.stderr ≡ s.stderr)
  main-Walk privilege s h w fits f =
      let (t, run, out, errs) =
        list_action-Walk K (record defaults { privilege = privilege }) refl fuel s h w fits f in
      (t, main-lists privilege s t h run, out, errs)

  -- `settings -b -r KEY` and `settings -k -r KEY`, with a key that the kernel translates to an OID
  -- that it describes as a string, of at most CTL_MAXNAME / 4 numbers and of the privilege that is
  -- asked for, and with a value that the kernel gives and that has a NUL: main prints the value up
  -- to its NUL with a newline, and returns 0.
  pub main-string :
      (privilege : Privilege) (key text value : Bytes) (e : Entry) (s : Process)
      → code_of privilege < 2
      → Translated K key e
      → Described K e
      → Fits K e
      → is_asked K privilege e ≡ true
      → HasValue K e value
      → type_of K e.kind e.fmt ≡ string
      → c_string value ≡ some text
      → (t : Process) × (main K fuel progname (word_for privilege ∷ codes "-r" ∷ key ∷ []) s
          ≡ done 0 t)
        × (t.stdout ≡ s.stdout ++ ((text ++ (10 ∷ [])) ∷ []))
  main-string privilege key text value e s h tr d fits asked has k c =
      let (t, run, out) =
        read_action-string K (reading privilege key) key e s refl h tr d fits value refl asked has
          text refl k c in
      (t, main-reads privilege key s t h run, out)
