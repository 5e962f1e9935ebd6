-- ===== src/SettingsTool/Parsing.antt =====
-- How the options of settings.c are parsed, and how the program ends where something is wrong.
use mathlib.Core.Path.{subst}
use aquabsd_pkg_repo.Base.{
  ℕ, ◌≡◌, refl, sym, some, List, [], ◌∷◌, ◌++◌, ◌==◌, ◌⊎◌, inl, inr, Bool-cases, ℤ, pos,
}
use aquabsd_pkg_repo.Base.Bytes.{Bytes}
use aquabsd_pkg_repo.Base.Getopt.{Opt}
use aquabsd_pkg_repo.Base.Goes.{Goes, Goes-bind}
use aquabsd_pkg_repo.Settings.{Sysctl, Process, settings_error_str}
use aquabsd_pkg_repo.Settings.Ownership.{IsText, Shares, Sound}
use aquabsd_pkg_repo.SettingsTool.{
  do_list, do_read, Opts, errx, library_errx, usage, parse_one, parse,
}

-- The end of a process that reports an error: status 1, and a message as the last one.
abbrev pub Reported : ℕ → Process → Type 0
Reported code t =
    (code ≡ 1) × ((before : List Bytes) × (text : Bytes) × (t.stderr ≡ before ++ (text ∷ [])))

-- The return value 0.
abbrev pub Zero : ℤ → Process → Type 0
Zero rv t = rv ≡ pos 0

pub errx-Reported :
    {A : Type 0} (P : A → Process → Type 0) (R : Type 0) (text : Bytes) (s : Process)
    → Goes P Reported R (errx {A = A} text s)
unfolding errx
errx-Reported P R text s = (refl, (s.stderr, text, refl))

-- Where the library has an error text, it is reported.
pub library_errx-Reported :
    {A : Type 0} (P : A → Process → Type 0) (R : Type 0) (fmt : Bytes) (f : Shares) (s : Process)
    → Sound IsText f s
    → Goes P Reported R (library_errx {A = A} fmt s)
unfolding library_errx settings_error_str errx
library_errx-Reported P R fmt f s h =
    let (p, e) = h.told in rw (e, Goes) (refl, (s.stderr, _, refl))

-- The action is the list, or it is -r with a key.
abbrev pub Runnable : Opts → Type 0
Runnable opts =
    (opts.action ≡ do_list) ⊎ ((opts.action ≡ do_read) × ((key : Bytes) × (opts.read ≡ some key)))

abbrev pub Parsed : Process → Opts → Process → Type 0
Parsed s opts t = Runnable opts × (t ≡ s)

module _ (K : Sysctl) (R : Type 0) (progname : Bytes) where
  parse_one-Parsed :
      (o : Opt) (opts : Opts) (s : Process)
      → Runnable opts
      → Goes (Parsed s) Reported R (parse_one K progname o opts s)
  unfolding parse_one usage
  parse_one-Parsed o opts s h = elim (Bool-cases (o.c == b'B')) [
    | inl e ↦ rw e (h, refl)
    | inr e ↦ rw e (elim (Bool-cases (o.c == b'v')) [
      | inl e ↦ rw e (h, refl)
      | inr e ↦ rw e (elim (Bool-cases (o.c == b'r')) [
        | inl e ↦ rw e (inr (refl, (o.optarg, refl)), refl)
        | inr e ↦ rw e (elim (Bool-cases (o.c == b'b')) [
          | inl e ↦ rw e (h, refl)
          | inr e ↦ rw e (elim (Bool-cases (o.c == b'k')) [
            | inl e ↦ rw e (h, refl)
            | inr e ↦ rw e (elim (Bool-cases (o.c == b'u')) [
              | inl e ↦ rw e (h, refl)
              | inr e ↦
                  rw e (
                    errx-Reported (Parsed s) R _
                      (record s { stderr = s.stderr ++ (o.optarg ∷ []) }))
            ])
          ])
        ])
      ])
    ])
  ]

  pub parse-Parsed :
      (os : List Opt) (opts : Opts) (s : Process)
      → Runnable opts
      → Goes (Parsed s) Reported R (parse K progname os opts s)
  unfolding parse
  parse-Parsed [] opts s h = (h, refl)
  parse-Parsed (o ∷ os) opts s h =
      Goes-bind (Parsed s) (Parsed s) Reported R (parse_one K progname o opts) (parse K progname os)
        s (parse_one-Parsed o opts s h)
        λ opts' t (h', e).
          subst (λ u. Goes (Parsed s) Reported R (parse K progname os opts' u)) (sym e)
            (parse-Parsed os opts' s h')
