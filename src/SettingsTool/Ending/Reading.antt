-- ===== src/SettingsTool/Ending/Reading.antt =====
-- How `do_read` of settings.c ends.
use aquabsd_pkg_repo.Base.{
  ℕ, ◌≡◌, refl, sym, ◌∙◌, ap, Bool, true, none, some, List, ◌∷◌, ◌==◌, inl, inr, Bool-cases, ℤ, pos,
  ◌+◌,
}
use aquabsd_pkg_repo.Base.Bytes.{Bytes, c_string}
use aquabsd_pkg_repo.Base.Prog.{Reply-cases}
use aquabsd_pkg_repo.Base.Goes.{Goes, Goes-bind, Runs-Goes}
use aquabsd_pkg_repo.Settings.{ok, code_of, Setting, Sysctl, Process, malloc}
use aquabsd_pkg_repo.Settings.Query.{kind_of, type_of}
use aquabsd_pkg_repo.Settings.Search.{settings_search}
use aquabsd_pkg_repo.Settings.Access.{oid_of, setting_read_descr, setting_read, read_contents}
use aquabsd_pkg_repo.Settings.Ownership.{AnyText, Shares, of_setting, Sound}
use aquabsd_pkg_repo.Settings.Ownership.Finding.{IsTrusted, Typed, FoundOr, settings_search-FoundOr}
use aquabsd_pkg_repo.Settings.Ownership.Holding.{DescribedOr, setting_read_descr-Sound}
use aquabsd_pkg_repo.SettingsTool.{Opts, is_string, describe, read_found, read_action}
use aquabsd_pkg_repo.SettingsTool.Parsing.{Zero, Reported, errx-Reported, library_errx-Reported}
use aquabsd_pkg_repo.SettingsTool.Ending.Showing.{Voiced, Showable, show-Zero}

-- Once the kernel has told the size of a value, it gives the value; and of an OID that it describes
-- as a string it tells the size and gives the value, which has a NUL.
pub record HasValues (K : Sysctl) : Type 0 where
  pub sized :
      (oid : List ℕ) (len : ℕ)
      → K.sysctl_size oid ≡ ok len
      → (value : Bytes) × (K.sysctl oid len ≡ ok value)
  pub text :
      (oid : List ℕ) (answer : Bytes) (kind : ℕ) (fmt : Bytes)
      → K.sysctl (K.ctl_sysctl ∷ K.ctl_sysctl_oidfmt ∷ oid) K.bufsiz ≡ ok answer
      → kind_of answer ≡ some (kind, fmt)
      → is_string (type_of K kind fmt) ≡ true
      → (len : ℕ) × (value : Bytes) × (text : Bytes) × (K.sysctl_size oid ≡ ok len)
        × (K.sysctl oid len ≡ ok value)
        × (c_string value ≡ some text)

module _ (K : Sysctl) (T : IsTrusted K) (R : Type 0) where
  module _ (V : HasValues K) where
    -- A setting that has been found, of the privilege that is asked for, and perhaps described.
    abbrev Ready : Bool → Setting → Setting → Process → Type 0
    Ready verbose x y t =
        Voiced verbose y × (y.contents ≡ none) × (y.kind ≡ x.kind) × (oid_of y ≡ oid_of x)

    describe-Ready :
        (opts : Opts) (x : Setting) (f : Shares) (s : Process)
        → x.contents ≡ none
        → Sound AnyText (λ n. of_setting x n + f n) s
        → Goes (Ready opts.verbose x) Reported R (describe K opts x s)
    unfolding describe oid_of
    describe-Ready opts x f s empty h = elim (Bool-cases opts.verbose) [
      | inr e ↦ rw (e, describe) (inl refl, empty, refl, refl)
      | inl e ↦
          rw (e, describe)
            (Goes-bind (DescribedOr R AnyText K x f) (Ready true x) Reported R
              (setting_read_descr K x) _ s
              (Runs-Goes (DescribedOr R AnyText K x f) Reported R _
                (setting_read_descr-Sound R AnyText K T x f s h))
              λ r t post. elim post [
                | inl (missing, h') ↦
                    rw missing
                      (library_errx-Reported (Ready true x) R _ (λ n. of_setting x n + f n) t h')
                | inr
                      (
                        y, seen, key_kept, kind_kept, oid_kept, privilege_kept, kept, described, h',
                      ) ↦
                    rw seen (inr (refl, described), kept ∙ empty, kind_kept, rw oid_kept refl)
              ])
    ]

    -- What setting_read leaves of it.
    abbrev Read : Bool → ℤ × Setting → Process → Type 0
    Read verbose r t = (r.0 ≡ pos 0) × Voiced verbose r.1 × Showable r.1

    -- The kernel has an answer for the OID of the setting, and the setting has the type that the
    -- answer stands for.
    abbrev Kinded : Setting → Type 0
    Kinded x =
        (oid : List ℕ) × (answer : Bytes) × (kind : ℕ) × (fmt : Bytes) × (K.sysctl
            (K.ctl_sysctl ∷ K.ctl_sysctl_oidfmt ∷ oid) K.bufsiz
          ≡ ok answer)
        × (kind_of answer ≡ some (kind, fmt))
        × (oid_of x ≡ oid)
        × (x.kind ≡ type_of K kind fmt)

    -- A string that has been found has a size, and a value of that size with a NUL.
    string_value :
        (x : Setting)
        → Kinded x
        → is_string x.kind ≡ true
        → (len : ℕ) × (value : Bytes) × (text : Bytes) × (K.sysctl_size (oid_of x) ≡ ok len)
          × (K.sysctl (oid_of x) len ≡ ok value)
          × (c_string value ≡ some text)
    string_value x (oid, answer, kind, fmt, answered, decoded, same, typed) k =
        let (len, value, text, sized, given, ended) =
          V.text oid answer kind fmt answered decoded (ap is_string (sym typed) ∙ k) in
        (len, value, text, rw same sized, rw same given, ended)

    setting_read-Read :
        (verbose : Bool) (y : Setting) (s : Process)
        → Kinded y
        → Voiced verbose y
        → y.contents ≡ none
        → Goes (Read verbose) Reported R (setting_read K y s)
    unfolding setting_read read_contents malloc
    setting_read-Read verbose y s known voiced empty =
        elim (Reply-cases (K.sysctl_size (oid_of y))) [
          | inr (errno, e) ↦ elim (Bool-cases (is_string y.kind)) [
            | inr k ↦ rw (e, setting_read) (refl, voiced, inl (empty, refl, k))
            | inl k ↦
                let (len, value, text, sized, given, ended) = string_value y known k in absurd cc
          ]
          | inl (len, e) ↦
              let (value, given) = V.sized (oid_of y) len e in
              rw (e, setting_read)
                (rw (given, read_contents)
                  (
                    refl,
                    voiced,
                    inr (
                      _,
                      refl,
                      elim (Bool-cases (is_string y.kind)) [
                        | inr k ↦ inl k
                        | inl k ↦
                            let (len', value', text, sized, given', ended) =
                              string_value y known k in
                            inr (text, cc)
                      ],
                    ),
                  ))
        ]

    read_found-Zero :
        (opts : Opts) (x : Setting) (f : Shares) (s : Process)
        → x.contents ≡ none
        → Typed R AnyText K opts.privilege x
        → Sound AnyText (λ n. of_setting x n + f n) s
        → Goes Zero Reported R (read_found K opts x s)
    unfolding read_found
    read_found-Zero opts x f s empty typed h =
        elim (Bool-cases (code_of x.privilege == code_of opts.privilege)) [
          | inr wrong ↦ rw (wrong, read_found) (errx-Reported Zero R _ s)
          | inl right ↦ elim typed [
            | inl wrong ↦ absurd cc
            | inr (oid, answer, kind, fmt, answered, decoded, same, type) ↦
                rw (right, read_found)
                  (Goes-bind (Ready opts.verbose x) Zero Reported R (describe K opts x) _ s
                    (describe-Ready opts x f s empty h)
                    λ y t (voiced, kept, kind_kept, oids).
                      Goes-bind (Read opts.verbose) Zero Reported R (setting_read K y) _ t
                        (setting_read-Read opts.verbose y t
                          (oid, answer, kind, fmt, answered, decoded, oids ∙ same, kind_kept ∙ type)
                          voiced kept)
                        λ r u (zero_rv, spoken, showable).
                          rw zero_rv (show-Zero K R opts r.1 u spoken showable))
          ]
        ]

    pub read_action-Zero :
        (opts : Opts) (key : Bytes) (s : Process)
        → opts.read ≡ some key
        → Sound AnyText (λ n. 0) s
        → Goes Zero Reported R (read_action K opts s)
    unfolding read_action
    read_action-Zero opts key s e h =
        rw (e, read_action)
          (Goes-bind (FoundOr R AnyText K T opts.privilege (λ n. 0)) Zero Reported R
            (settings_search K key opts.privilege opts.uid) _ s
            (Runs-Goes (FoundOr R AnyText K T opts.privilege (λ n. 0)) Reported R _
              (settings_search-FoundOr R AnyText K T key opts.privilege opts.uid (λ n. 0) s h))
            λ r t post. elim post [
              | inl (missing, h') ↦ rw missing (library_errx-Reported Zero R _ (λ n. 0) t h')
              | inr (y, found, empty, typed, h') ↦
                  rw found
                    (read_found-Zero (record opts { read = some key }) y (λ n. 0) t empty typed h')
            ])
