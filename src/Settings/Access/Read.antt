-- ===== src/Settings/Access/Read.antt =====
-- `setting_read` of libsettings.c on every answer of the kernel.
use aquabsd_pkg_repo.Base.{ℕ, suc, ◌≡◌, refl, sym, none, some, ℤ, pos, length, inl, inr}
use mathlib.Core.Path.{subst}
use aquabsd_pkg_repo.Base.Bytes.{Bytes}
use aquabsd_pkg_repo.Base.Prog.{Outcome, done, ◌>>=◌, ◌>>◌, Returns}
use aquabsd_pkg_repo.Settings.{Reply-cases, ok, failed, Setting, Sysctl, Process, malloc, free}
use aquabsd_pkg_repo.Settings.Heap.{allocated, release-first, Quiet}
use aquabsd_pkg_repo.Settings.Access.{oid_of, read_contents, setting_read}

module _ (K : Sysctl) where
  abbrev pub with_value : Setting → ℕ → Bytes → Setting
  with_value setting block value = record setting {
    len = length value;
    contents = some (record { block = block; value = value });
  }

  pub read_contents-ok :
      (setting : Setting) (len : ℕ) (value : Bytes) (s : Process)
      → K.sysctl (oid_of setting) len ≡ ok value
      → read_contents K setting len s ≡ done (with_value setting s.next value) (allocated s)
  unfolding read_contents malloc
  read_contents-ok setting len value s e = rw (e, read_contents, ◌>>=◌) refl

  read_contents-failed :
      (setting : Setting) (len errno : ℕ) (s : Process)
      → K.sysctl (oid_of setting) len ≡ failed errno
      → read_contents K setting len s
        ≡ done (record setting { len = len; contents = none }) (record s { next = suc s.next })
  unfolding read_contents malloc free
  read_contents-failed setting len errno s e =
      rw (e, read_contents, ◌>>=◌) (rw (release-first s.next s.live, free, ◌>>=◌, ◌>>◌) refl)

  -- setting_read with a kernel that gives the size and the value returns 0 and the setting with the
  -- value, in a new block, and with the value's length.
  pub setting_read-value :
      (setting : Setting) (len : ℕ) (value : Bytes) (s : Process)
      → K.sysctl_size (oid_of setting) ≡ ok len
      → K.sysctl (oid_of setting) len ≡ ok value
      → setting_read K setting s ≡ done (pos 0, with_value setting s.next value) (allocated s)
  unfolding setting_read
  setting_read-value setting len value s n e =
      rw (n, setting_read) (rw (read_contents-ok setting len value s e, ◌>>=◌) refl)

  pub setting_read-failed :
      (setting : Setting) (len errno : ℕ) (s : Process)
      → K.sysctl_size (oid_of setting) ≡ ok len
      → K.sysctl (oid_of setting) len ≡ failed errno
      → setting_read K setting s
        ≡ done
            (pos 0, record setting { len = len; contents = none })
            (record s { next = suc s.next })
  unfolding setting_read
  setting_read-failed setting len errno s n e =
      rw (n, setting_read) (rw (read_contents-failed setting len errno s e, ◌>>=◌) refl)

  pub setting_read-unsized :
      (setting : Setting) (errno : ℕ) (s : Process)
      → K.sysctl_size (oid_of setting) ≡ failed errno
      → setting_read K setting s ≡ done (pos 0, record setting { len = 0 }) s
  unfolding setting_read
  setting_read-unsized setting errno s n = rw (n, setting_read) refl

  -- setting_read returns 0 whatever the kernel answers, so that its caller is never told of a call
  -- that failed; it leaves the error text and what has been printed as they were, and the key and
  -- the type of the setting.
  pub setting_read-Returns :
      (setting : Setting) (s : Process)
      → Returns
          (λ r t. (r.0 ≡ pos 0) × Quiet s t × (r.1.key ≡ setting.key) × (r.1.kind ≡ setting.kind))
          (setting_read K setting s)
  setting_read-Returns setting s = elim (Reply-cases (K.sysctl_size (oid_of setting))) [
    | inr (errno, n) ↦
        on (sym (setting_read-unsized setting errno s n)) (refl, (refl, refl, refl), refl, refl)
    | inl (len, n) ↦ elim (Reply-cases (K.sysctl (oid_of setting) len)) [
      | inl (value, e) ↦
          on (sym (setting_read-value setting len value s n e))
            (refl, (refl, refl, refl), refl, refl)
      | inr (errno, e) ↦
          on (sym (setting_read-failed setting len errno s n e))
            (refl, (refl, refl, refl), refl, refl)
    ]
  ]
    where
      Good : ℤ × Setting → Process → Type 0
      Good r t = (r.0 ≡ pos 0) × Quiet s t × (r.1.key ≡ setting.key) × (r.1.kind ≡ setting.kind)

      on : {r r' : Outcome Process (ℤ × Setting)} → r ≡ r' → Returns Good r → Returns Good r'
      on e h = subst (Returns Good) e h
