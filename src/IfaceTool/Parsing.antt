-- ===== src/IfaceTool/Parsing.antt =====
-- How the options of iface.c are parsed: without a look at the system, and with a message where
-- they are wrong.
use mathlib.Core.Path.{subst}
use aquabsd_pkg_repo.Base.{
  ℕ, ◌≡◌, refl, sym, Bool, true, false, none, List, [], ◌∷◌, ◌++◌, ◌==◌, inl, inr, Bool-cases,
  Option-cases,
}
use aquabsd_pkg_repo.Base.Bytes.{Bytes}
use aquabsd_pkg_repo.Base.Getopt.{Opt}
use aquabsd_pkg_repo.Base.Goes.{Ends, Ends-bind, Goes}
use aquabsd_pkg_repo.Iface.{Net, Process}
use aquabsd_pkg_repo.IfaceTool.{
  do_set_flag, Opts, errx, usage, set_flag, flag_of, first_char, parse_one, parse,
}

module _ (N : Net) where
  -- The end of a process that reports an error: status 1, and a message as the last one.
  abbrev pub Reported : ℕ → Process N → Type 0
  Reported code t =
      (code ≡ 1)
      × ((before : List Bytes) × (message : Bytes) × (t.stderr ≡ before ++ (message ∷ [])))

  pub errx-Reported :
      {A : Type 0} (P : A → Process N → Type 0) (message : Bytes) (s : Process N)
      → Ends P Reported (errx N {A = A} message s)
  unfolding errx
  errx-Reported P message s = (refl, (s.stderr, message, refl))

  usage-Reported :
      {A : Type 0} (P : A → Process N → Type 0) (s : Process N)
      → Ends P Reported (usage N {A = A} s)
  unfolding usage
  usage-Reported P s = errx-Reported P _ s

  -- The options are parsed without a look at the system, and choose no interface yet.
  abbrev pub Parsed : Process N → Opts → Process N → Type 0
  Parsed s opts t = (opts.iface ≡ none) × (t ≡ s)

  set_flag-Parsed :
      (minus : Bool) (text : Bytes) (opts : Opts) (s : Process N)
      → opts.iface ≡ none
      → Ends (Parsed s) Reported (set_flag N minus text opts s)
  unfolding set_flag
  set_flag-Parsed minus text opts s h = elim (Option-cases (flag_of N (first_char text))) [
    | inl e ↦ rw (e, set_flag, Goes) (errx-Reported (Parsed s) _ s)
    | inr (v, e) ↦ rw (e, set_flag, Goes) (h, refl)
  ]

  parse_one-Parsed :
      (o : Opt) (opts : Opts) (s : Process N)
      → opts.iface ≡ none
      → Ends (Parsed s) Reported (parse_one N o opts s)
  unfolding parse_one
  parse_one-Parsed o opts s h = elim (Bool-cases (o.c == b'i')) [
    | inl e ↦ rw e (h, refl)
    | inr e ↦ rw e (elim (Bool-cases (o.c == b'a')) [
      | inl f ↦ rw f (set_flag-Parsed false o.optarg (record opts { action = do_set_flag }) s h)
      | inr f ↦ rw f (elim (Bool-cases (o.c == b'r')) [
        | inl g ↦ rw g (set_flag-Parsed true o.optarg (record opts { action = do_set_flag }) s h)
        | inr g ↦
            rw g (usage-Reported (Parsed s) (record s { stderr = s.stderr ++ (o.optarg ∷ []) }))
      ])
    ])
  ]

  pub parse-Parsed :
      (os : List Opt) (opts : Opts) (s : Process N)
      → opts.iface ≡ none
      → Ends (Parsed s) Reported (parse N os opts s)
  unfolding parse
  parse-Parsed [] opts s h = (h, refl)
  parse-Parsed (o ∷ os) opts s h =
      Ends-bind (Parsed s) (Parsed s) Reported (parse_one N o opts) (parse N os) s
        (parse_one-Parsed o opts s h)
        λ opts' t (h', e).
          subst (λ u. Ends (Parsed s) Reported (parse N os opts' u)) (sym e)
            (parse-Parsed os opts' s h')
