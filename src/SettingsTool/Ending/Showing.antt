-- ===== src/SettingsTool/Ending/Showing.antt =====
-- How the end of `do_read` of settings.c ends, from the test of the option -B on.
use aquabsd_pkg_repo.Base.{◌≡◌, refl, Bool, true, false, none, some, ◌⊎◌, inl, inr, Bool-cases}
use aquabsd_pkg_repo.Base.Bytes.{Bytes, c_string}
use aquabsd_pkg_repo.Base.Goes.{Goes}
use aquabsd_pkg_repo.Settings.{Owned, Setting, Sysctl, Process}
use aquabsd_pkg_repo.SettingsTool.{Opts, print, text_of, errx, is_string, type_number, show}
use aquabsd_pkg_repo.SettingsTool.Parsing.{Zero, Reported, errx-Reported}

-- With -v the setting has a description.
abbrev pub Voiced : Bool → Setting → Type 0
Voiced verbose y =
    (verbose ≡ false) ⊎ ((verbose ≡ true) × ((descr : Owned Bytes) × (y.descr ≡ some descr)))

-- What `show` is given: a setting without a value, of length 0 and no string, or a setting with a
-- value, which has a NUL if the setting is a string.
abbrev pub Showable : Setting → Type 0
Showable y =
    ((y.contents ≡ none) × (y.len ≡ 0) × (is_string y.kind ≡ false))
    ⊎ ((p : Owned Bytes) × (y.contents ≡ some p)
        × ((is_string y.kind ≡ false) ⊎ ((text : Bytes) × (c_string p.value ≡ some text))))

module _ (K : Sysctl) (R : Type 0) (opts : Opts) (y : Setting) (s : Process)
    (voiced : Voiced opts.verbose y) where
  show_binary : opts.binary ≡ true → Showable y → Goes Zero Reported R (show K opts y s)
  unfolding show print
  show_binary e (inl (empty, no_len, k)) = rw (e, show) (rw (empty, no_len) refl)
  show_binary e (inr (p, full, k)) = rw (e, show) (rw full refl)

  show_other :
      opts.binary ≡ false → is_string y.kind ≡ false → Goes Zero Reported R (show K opts y s)
  unfolding show text_of print errx type_number
  show_other e k = elim voiced [
    | inl quiet ↦ rw (e, show) (rw (quiet, k) (errx-Reported Zero R _ s))
    | inr (loud, (descr, d)) ↦ rw (e, show) (rw (loud, d, k) (refl, (s.stderr, _, refl)))
  ]

  show_string :
      (p : Owned Bytes) (text : Bytes)
      → opts.binary ≡ false
      → is_string y.kind ≡ true
      → y.contents ≡ some p
      → c_string p.value ≡ some text
      → Goes Zero Reported R (show K opts y s)
  unfolding show text_of print type_number
  show_string p text e k full c = elim voiced [
    | inl quiet ↦ rw (e, show) (rw (quiet, k, full, text_of) (rw c refl))
    | inr (loud, (descr, d)) ↦ rw (e, show) (rw (loud, d, k, full, text_of) (rw c refl))
  ]

  pub show-Zero : Showable y → Goes Zero Reported R (show K opts y s)
  show-Zero value = elim (Bool-cases opts.binary) [
    | inl e ↦ show_binary e value
    | inr e ↦ elim value [
      | inl (empty, no_len, k) ↦ show_other e k
      | inr (p, full, inl k) ↦ show_other e k
      | inr (p, full, inr (text, c)) ↦ elim (Bool-cases (is_string y.kind)) [
        | inl k ↦ show_string p text e k full c
        | inr k ↦ show_other e k
      ]
    ]
  ]
