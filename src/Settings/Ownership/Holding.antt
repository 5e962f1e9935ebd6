-- ===== src/Settings/Ownership/Holding.antt =====
-- The blocks behind `setting_read`, `setting_read_descr` and `setting_free` of libsettings.c, on
-- every answer of the kernel.
use aquabsd_pkg_repo.Base.{ℕ, ◌+◌, ◌≡◌, refl, Option, none, some, arith, ◌⊎◌, inl, inr, ℤ, pos}
use aquabsd_pkg_repo.Base.Bytes.{Bytes}
use aquabsd_pkg_repo.Base.Prog.{Reply-cases}
use aquabsd_pkg_repo.Base.Goes.{Runs, Goes, Runs-bind}
use aquabsd_pkg_repo.Settings.{Owned, Setting, Sysctl, Process, malloc, free, free_owned, duplicate}
use aquabsd_pkg_repo.Settings.Heap.{allocated}
use aquabsd_pkg_repo.Settings.Query.{query_sysctl}
use aquabsd_pkg_repo.Settings.Access.{
  oid_of, read_contents, setting_read, setting_read_descr, setting_free,
}
use aquabsd_pkg_repo.Settings.Ownership.{
  Knowledge, IsText, Shares, of_pointer, of_setting, Sound, Sound-fewer, Sound-allocated,
  free-Sound, free_owned-Sound,
}
use aquabsd_pkg_repo.Settings.Ownership.Finding.{IsTrusted, Queried, query_sysctl-Sound}

module _ (R : Type 0) (E : Knowledge) where
  pub setting_free-Sound :
      (x : Setting) (f : Shares) (s : Process)
      → Sound E (λ n. of_setting x n + f n) s
      → Runs R (λ rv t. Sound E f t) (setting_free (some x) s)
  unfolding setting_free
  setting_free-Sound x f s h =
      let o : Shares = λ n. of_pointer x.oid n + f n in
      let c : Shares = λ n. of_pointer x.contents n + o n in
      let d : Shares = λ n. of_pointer x.descr n + c n in
      Runs-bind R (λ u t. Sound E d t) (λ rv t. Sound E f t) (free_owned x.key) _ s
        (free_owned-Sound R d x.key s (Sound-fewer _ _ s (λ n. omega arith) h))
        λ u t h.
          Runs-bind R (λ u t. Sound E c t) (λ rv t. Sound E f t) (free_owned x.descr) _ t
            (free_owned-Sound R c x.descr t h)
            λ u t h.
              Runs-bind R (λ u t. Sound E o t) (λ rv t. Sound E f t) (free_owned x.contents) _ t
                (free_owned-Sound R o x.contents t h)
                λ u t h.
                  Runs-bind R (λ u t. Sound E f t) (λ rv t. Sound E f t) (free_owned x.oid) _ t
                    (free_owned-Sound R f x.oid t h) λ u t h. h

  module _ (K : Sysctl) where
    -- The setting that `setting_read` leaves.
    abbrev pub ReadSound : Shares → ℤ × Setting → Process → Type 0
    ReadSound f r t = (r.0 ≡ pos 0) × Sound E (λ n. of_setting r.1 n + f n) t

    read_contents-Sound :
        (x : Setting) (len : ℕ) (f : Shares) (s : Process)
        → Sound E (λ n. of_setting x n + f n) s
        → Runs R (λ y t. Sound E (λ n. of_setting y n + f n) t) (read_contents K x len s)
    unfolding read_contents malloc
    read_contents-Sound x len f s h =
        let grown = Sound-allocated (λ n. of_setting x n + f n) s h in
        elim (Reply-cases (K.sysctl (oid_of x) len)) [
          | inl (value, e) ↦ rw (e, Goes) (Sound-fewer _ _ (allocated s) (λ n. omega arith) grown)
          | inr (errno, e) ↦
              rw (e, Goes)
                (Runs-bind R (λ u t. Sound E (λ n. of_setting x n + f n) t)
                  (λ y t. Sound E (λ n. of_setting y n + f n) t) (free s.next) _ (allocated s)
                  (free-Sound R (λ n. of_setting x n + f n) s.next (allocated s) grown)
                  λ u t h'. Sound-fewer _ _ t (λ n. omega arith) h')
        ]

    pub setting_read-Sound :
        (x : Setting) (f : Shares) (s : Process)
        → Sound E (λ n. of_setting x n + f n) s
        → Runs R (ReadSound f) (setting_read K x s)
    unfolding setting_read
    setting_read-Sound x f s h = elim (Reply-cases (K.sysctl_size (oid_of x))) [
      | inr (errno, e) ↦ rw (e, Goes) (refl, h)
      | inl (len, e) ↦
          rw (e, setting_read)
            (Runs-bind R (λ y t. Sound E (λ n. of_setting y n + f n) t) (ReadSound f)
              (read_contents K x len) _ s (read_contents-Sound x len f s h) λ y t h'. (refl, h'))
    ]

    -- The setting that `setting_read_descr` leaves, or -1.
    abbrev pub DescribedOr : Setting → Shares → Option Setting → Process → Type 0
    DescribedOr x f r t =
        ((r ≡ none) × Sound IsText (λ n. of_setting x n + f n) t)
        ⊎ ((y : Setting) × (r ≡ some y)
            × (y.key ≡ x.key)
            × (y.kind ≡ x.kind)
            × (y.oid ≡ x.oid)
            × (y.privilege ≡ x.privilege)
            × (y.contents ≡ x.contents)
            × ((descr : Owned Bytes) × (y.descr ≡ some descr))
            × Sound E (λ n. of_setting y n + f n) t)

    pub setting_read_descr-Sound :
        IsTrusted K
        → (x : Setting) (f : Shares) (s : Process) → Sound E (λ n. of_setting x n + f n) s
        → Runs R (DescribedOr x f) (setting_read_descr K x s)
    unfolding setting_read_descr duplicate malloc
    setting_read_descr-Sound T x f s h =
        Runs-bind R (Queried R E K K.ctl_sysctl_oiddescr (oid_of x) (λ n. of_setting x n + f n))
          (DescribedOr x f) (query_sysctl K K.ctl_sysctl_oiddescr (oid_of x)) _ s
          (query_sysctl-Sound R E K K.ctl_sysctl_oiddescr (oid_of x) (λ n. of_setting x n + f n) s
            h)
          λ r t q. elim q [
            | inl (e, h') ↦ rw (e, Goes) (inl (refl, h'))
            | inr (value, e, h', answered) ↦
                let (text, ended) = T.described (oid_of x) value answered in
                rw (e, ended, Goes)
                  (inr (
                    _,
                    refl,
                    refl,
                    refl,
                    refl,
                    refl,
                    refl,
                    (_, refl),
                    Sound-fewer _ _ (allocated t) (λ n. omega arith)
                        (Sound-allocated (λ n. of_setting x n + f n) t h'),
                  ))
          ]
