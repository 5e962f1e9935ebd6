-- ===== src/Settings/Ownership/Finding.antt =====
-- The blocks behind `__query_sysctl`, `__sysctl_fill` and `settings_search` of libsettings.c, on
-- every answer of the kernel.
use aquabsd_pkg_repo.Base.{
  ℕ, suc, ◌+◌, ◌*◌, ◌≡◌, refl, ap, false, Option, none, some, List, [], ◌∷◌, ◌==◌, ltb, arith,
  Bool-cases, ◌⊎◌, inl, inr, ℤ,
}
use aquabsd_pkg_repo.Base.Bytes.{Bytes, c_string}
use aquabsd_pkg_repo.Base.Prog.{pure, ◌>>◌, Reply-cases, ok}
use aquabsd_pkg_repo.Base.Goes.{Runs, Goes, Runs-bind}
use aquabsd_pkg_repo.Settings.{
  Privilege, boot, kern, user, aqua, other, code_of, Setting, blank, Sysctl, Process, malloc, free,
  duplicate, emit_error,
}
use aquabsd_pkg_repo.Settings.Heap.{allocated}
use aquabsd_pkg_repo.Settings.Query.{
  type_of, bytes_of, kind_of, query_sysctl, privilege_of, fill, sysctl_fill,
}
use aquabsd_pkg_repo.Settings.Access.{oid_of}
use aquabsd_pkg_repo.Settings.Search.{found, search_sysctl, settings_search}
use aquabsd_pkg_repo.Settings.Ownership.{
  Knowledge, IsText, Shares, of_block, of_pointer, of_setting, Sound, Sound-fewer, Sound-allocated,
  free-Sound, emit_error-Sound,
}

-- Where the library trusts the kernel: names, descriptions and formats end in a NUL inside the
-- buffer, and no OID has more than CTL_MAXNAME / 4 numbers.
pub record IsTrusted (K : Sysctl) : Type 0 where
  pub named :
      (oid : List ℕ) (value : Bytes)
      → K.sysctl (K.ctl_sysctl ∷ K.ctl_sysctl_name ∷ oid) K.bufsiz ≡ ok value
      → (text : Bytes) × (c_string value ≡ some text)
  pub described :
      (oid : List ℕ) (value : Bytes)
      → K.sysctl (K.ctl_sysctl ∷ K.ctl_sysctl_oiddescr ∷ oid) K.bufsiz ≡ ok value
      → (text : Bytes) × (c_string value ≡ some text)
  pub formatted :
      (oid : List ℕ) (value : Bytes)
      → K.sysctl (K.ctl_sysctl ∷ K.ctl_sysctl_oidfmt ∷ oid) K.bufsiz ≡ ok value
      → (kind : ℕ) × (fmt : Bytes) × (kind_of value ≡ some (kind, fmt))
  pub short :
      (name : List ℕ) (new : Bytes) (oid : List ℕ)
      → K.sysctl_ints name new (4 * K.ctl_maxname) ≡ ok oid
      → ltb (4 * K.ctl_maxname) (4 * bytes_of oid) ≡ false

module _ (R : Type 0) (E : Knowledge) (K : Sysctl) where
  -- What a query ends with.
  abbrev pub Queried : ℕ → List ℕ → Shares → Option Bytes → Process → Type 0
  Queried query oid f r t =
      ((r ≡ none) × Sound IsText f t)
      ⊎ ((value : Bytes) × (r ≡ some value)
          × Sound E f t
          × (K.sysctl (K.ctl_sysctl ∷ query ∷ oid) K.bufsiz ≡ ok value))

  pub query_sysctl-Sound :
      (query : ℕ) (oid : List ℕ) (f : Shares) (s : Process)
      → Sound E f s
      → Runs R (Queried query oid f) (query_sysctl K query oid s)
  unfolding query_sysctl
  query_sysctl-Sound query oid f s h =
      elim (Reply-cases (K.sysctl (K.ctl_sysctl ∷ query ∷ oid) K.bufsiz)) [
        | inl (value, e) ↦ rw (e, query_sysctl, Goes) (inr (value, refl, h, e))
        | inr (errno, e) ↦
            rw (e, query_sysctl)
              (Runs-bind R (λ u t. Sound IsText f t) (Queried query oid f) (emit_error _ _ _) _ s
                (emit_error-Sound R _ _ _ f s h) λ u t h'. inl (refl, h'))
      ]

  -- A setting of the privilege that is asked for has an OID, and the type that the kernel's answer
  -- for that OID stands for.
  abbrev pub Typed : Privilege → Setting → Type 0
  Typed privilege y =
      ((code_of y.privilege == code_of privilege) ≡ false)
      ⊎ ((oid : List ℕ) × (value : Bytes) × (kind : ℕ) × (fmt : Bytes) × (K.sysctl
              (K.ctl_sysctl ∷ K.ctl_sysctl_oidfmt ∷ oid) K.bufsiz
            ≡ ok value)
          × (kind_of value ≡ some (kind, fmt))
          × (oid_of y ≡ oid)
          × (y.kind ≡ type_of K kind fmt))

  -- The setting that has been filled is the one that was given, with more blocks perhaps.
  abbrev pub Filled : Setting → Privilege → Shares → Setting → Process → Type 0
  Filled x privilege f y t =
      (y.self ≡ x.self)
      × (y.key ≡ x.key)
      × (y.contents ≡ x.contents)
      × Typed privilege y
      × Sound E (λ n. of_setting y n + f n) t

  fill-Filled :
      (setting : Setting) (oid : List ℕ) (privilege : Privilege) (kind : ℕ) (fmt : Bytes)
      (value : Bytes) (f : Shares) (s : Process)
      → K.sysctl (K.ctl_sysctl ∷ K.ctl_sysctl_oidfmt ∷ oid) K.bufsiz ≡ ok value
      → kind_of value ≡ some (kind, fmt)
      → setting.oid ≡ none
      → ltb (4 * K.ctl_maxname) (4 * bytes_of oid) ≡ false
      → Sound E (λ n. of_setting setting n + f n) s
      → Runs R (Filled setting privilege f) (fill K setting oid privilege kind fmt s)
  unfolding fill duplicate malloc oid_of
  fill-Filled setting oid privilege kind fmt value f s answered decoded fresh fits h =
      elim (Bool-cases (code_of (privilege_of K kind) == code_of privilege)) [
        | inr other_one ↦ rw (other_one, Goes) (refl, refl, refl, inl other_one, h)
        | inl same ↦
            rw (same, fits, Goes)
              (
                refl,
                refl,
                refl,
                inr (oid, value, kind, fmt, answered, decoded, refl, refl),
                Sound-fewer _ _ (allocated s) (λ n. omega (arith, ap (λ p. of_pointer p n) fresh))
                    (Sound-allocated (λ n. of_setting setting n + f n) s h),
              )
      ]

  -- The call that fails leaves the blocks as they were.
  abbrev pub FilledOr : Setting → Privilege → Shares → Option Setting → Process → Type 0
  FilledOr x privilege f r t =
      ((r ≡ none) × Sound IsText (λ n. of_setting x n + f n) t)
      ⊎ ((y : Setting) × (r ≡ some y) × Filled x privilege f y t)

  module _ (T : IsTrusted K) where
    pub sysctl_fill-FilledOr :
        (setting : Setting) (oid : List ℕ) (privilege : Privilege) (f : Shares) (s : Process)
        → setting.oid ≡ none
        → ltb (4 * K.ctl_maxname) (4 * bytes_of oid) ≡ false
        → Sound E (λ n. of_setting setting n + f n) s
        → Runs R (FilledOr setting privilege f) (sysctl_fill K setting oid privilege s)
    unfolding sysctl_fill
    sysctl_fill-FilledOr setting oid privilege f s fresh fits h =
        Runs-bind R (Queried K.ctl_sysctl_oidfmt oid (λ n. of_setting setting n + f n))
          (FilledOr setting privilege f) (query_sysctl K K.ctl_sysctl_oidfmt oid) _ s
          (query_sysctl-Sound K.ctl_sysctl_oidfmt oid (λ n. of_setting setting n + f n) s h)
          λ r t q. elim q [
            | inl (e, h') ↦ rw (e, Goes) (inl (refl, h'))
            | inr (value, e, h', answered) ↦
                let (kind, fmt, decoded) = T.formatted oid value answered in
                rw (e, decoded)
                  (Runs-bind R (Filled setting privilege f) (FilledOr setting privilege f)
                    (fill K setting oid privilege kind fmt) _ t
                    (fill-Filled setting oid privilege kind fmt value f t answered decoded fresh
                      fits h')
                    λ y u filled. inr (y, refl, filled))
          ]

    -- What a search ends with: NULL, or a setting without a value, with its blocks.
    abbrev pub FoundOr : Privilege → Shares → Option Setting → Process → Type 0
    FoundOr privilege f r t =
        ((r ≡ none) × Sound IsText f t)
        ⊎ ((y : Setting) × (r ≡ some y)
            × (y.contents ≡ none)
            × Typed privilege y
            × Sound E (λ n. of_setting y n + f n) t)

    report :
        (privilege : Privilege) (fmt : Bytes) (a b : Option Bytes) (f : Shares) (s : Process)
        → Sound E f s
        → Runs R (FoundOr privilege f) ((emit_error fmt a b >> pure none) s)
    report privilege fmt a b f s h =
        Runs-bind R (λ u t. Sound IsText f t) (FoundOr privilege f) (emit_error fmt a b) _ s
          (emit_error-Sound R fmt a b f s h) λ u t h'. inl (refl, h')

    found-FoundOr :
        (key : Bytes) (privilege : Privilege) (oid : List ℕ) (f : Shares) (s : Process)
        → ltb (4 * K.ctl_maxname) (4 * bytes_of oid) ≡ false
        → Sound E f s
        → Runs R (FoundOr privilege f) (found K key privilege oid s)
    unfolding found malloc duplicate
    found-FoundOr key privilege oid f s fits h =
        let own : Shares = λ n. of_block s.next n + f n in
        let x : Setting = record (blank s.next) {
          key = some (record { block = suc s.next; value = key });
        } in
        Runs-bind R (FilledOr x privilege own) (FoundOr privilege f) (sysctl_fill K x oid privilege)
          _ (allocated (allocated s))
          (sysctl_fill-FilledOr x oid privilege own (allocated (allocated s)) refl fits (
            Sound-fewer _ _ (allocated (allocated s)) (λ n. omega arith)
              (Sound-allocated own (allocated s) (Sound-allocated f s h))))
          λ r t filled. elim filled [
            | inl (e, h') ↦
                rw (e, Goes)
                  (Runs-bind R (λ u t. Sound IsText f t) (FoundOr privilege f) (free s.next) _ t
                    (free-Sound R f s.next t (Sound-fewer _ own t (λ n. omega arith) h'))
                    λ u v h''. inl (refl, h''))
            | inr (y, e, (same, key_kept, empty, typed, h')) ↦
                rw (e, Goes) (inr (y, refl, empty, typed, Sound-fewer _ _ t (λ n. omega arith) h'))
          ]

    search_sysctl-FoundOr :
        (key : Bytes) (privilege : Privilege) (f : Shares) (s : Process)
        → Sound E f s
        → Runs R (FoundOr privilege f) (search_sysctl K key privilege s)
    unfolding search_sysctl
    search_sysctl-FoundOr key privilege f s h =
        elim (Reply-cases
          (K.sysctl_ints (K.ctl_sysctl ∷ K.ctl_sysctl_name2oid ∷ []) key (4 * K.ctl_maxname))) [
            | inl (oid, e) ↦
                rw (e, search_sysctl) (found-FoundOr key privilege oid f s (T.short _ _ oid e) h)
            | inr (errno, e) ↦ rw (e, search_sysctl) (report privilege _ _ _ f s h)
          ]

    -- settings_search
    pub settings_search-FoundOr :
        (key : Bytes) (privilege : Privilege) (uid : ℤ) (f : Shares) (s : Process)
        → Sound E f s
        → Runs R (FoundOr privilege f) (settings_search K key privilege uid s)
    unfolding settings_search
    settings_search-FoundOr key boot uid f s h = search_sysctl-FoundOr key boot f s h
    settings_search-FoundOr key kern uid f s h = search_sysctl-FoundOr key kern f s h
    settings_search-FoundOr key user uid f s h = report user _ _ _ f s h
    settings_search-FoundOr key aqua uid f s h = report aqua _ _ _ f s h
    settings_search-FoundOr key (other n) uid f s h = report (other n) _ _ _ f s h
