-- ===== src/Settings/Fill.antt =====
-- What `__sysctl_fill` writes, for an OID that the kernel describes.
use aquabsd_pkg_repo.Base.{
  ℕ, ◌*◌, ◌≡◌, refl, Bool, true, false, not, some, List, ◌∷◌, ◌==◌, bit_and, ltb, if◌then◌else◌,
  Bool-cases, inl, inr,
}
use aquabsd_pkg_repo.Base.Bytes.{Bytes, c_string}
use aquabsd_pkg_repo.Base.Prog.{done, fault, ◌>>=◌}
use aquabsd_pkg_repo.Settings.{
  ok, Privilege, code_of, Owned, Setting, blank, Sysctl, Process, duplicate, malloc,
}
use aquabsd_pkg_repo.Settings.Query.{
  bytes_of, kind_of, query_sysctl, type_of, privilege_of, fill, sysctl_fill,
}
use aquabsd_pkg_repo.Settings.Heap.{Quiet, allocated}

-- What the kernel says of a setting.
pub record Entry : Type 0 where
  pub oid : List ℕ
  pub key : Bytes
  pub kind : ℕ
  pub fmt : Bytes

module _ (K : Sysctl) where
  -- The kernel answers the queries for the name and the format of an OID.
  abbrev pub Described : Entry → Type 0
  Described e =
      (name : Bytes) × (K.sysctl (K.ctl_sysctl ∷ K.ctl_sysctl_name ∷ e.oid) K.bufsiz ≡ ok name)
      × (c_string name ≡ some e.key)
      × (format : Bytes) × (K.sysctl (K.ctl_sysctl ∷ K.ctl_sysctl_oidfmt ∷ e.oid) K.bufsiz
          ≡ ok format)
      × (kind_of format ≡ some (e.kind, e.fmt))

  -- The copy of an OID stays within the array of `CTL_MAXNAME` numbers that it reads.
  abbrev pub Fits : Entry → Type 0
  Fits e = ltb (4 * K.ctl_maxname) (4 * bytes_of e.oid) ≡ false

  abbrev pub is_asked : Privilege → Entry → Bool
  is_asked privilege e = code_of (privilege_of K e.kind) == code_of privilege

  -- The setting that comes of an entry, in a block with a copy of its key. The OID, the type and
  -- the flag are there where the entry has the privilege that was asked for.
  abbrev pub setting_for : Privilege → Entry → ℕ → Owned Bytes → ℕ → Setting
  setting_for privilege e self key block =
      let seen = record (blank self) { key = some key; privilege = privilege_of K e.kind } in
      if is_asked privilege e
      then record seen {
        writeable = not (bit_and e.kind K.ctlflag_wr == 0);
        oid_len = bytes_of e.oid;
        oid = some (record { block = block; value = e.oid });
        kind = type_of K e.kind e.fmt;
      }
      else seen

  abbrev pub behind : Privilege → Entry → Process → Process
  behind privilege e s = if is_asked privilege e then allocated s else s

  pub Quiet-behind :
      (privilege : Privilege) (e : Entry) (s : Process) → Quiet s (behind privilege e s)
  Quiet-behind privilege e s = elim (Bool-cases (is_asked privilege e)) [
    | inl asked ↦ rw asked (refl, refl, refl)
    | inr other ↦ rw other (refl, refl, refl)
  ]

  pub query_sysctl-ok :
      (query : ℕ) (oid : List ℕ) (value : Bytes) (s : Process)
      → K.sysctl (K.ctl_sysctl ∷ query ∷ oid) K.bufsiz ≡ ok value
      → query_sysctl K query oid s ≡ done (some value) s
  unfolding query_sysctl
  query_sysctl-ok query oid value s h = rw (h, query_sysctl) refl

  module _ (privilege : Privilege) (e : Entry) (self : ℕ) (key : Owned Bytes) (s : Process) where
    fill-Fits :
        Fits e
        → fill K (record (blank self) { key = some key }) e.oid privilege e.kind e.fmt s
          ≡ done (setting_for privilege e self key s.next) (behind privilege e s)
    unfolding fill duplicate malloc
    fill-Fits fits = elim (Bool-cases (is_asked privilege e)) [
      | inl asked ↦ rw (asked, fill) (rw fits refl)
      | inr other ↦ rw (other, fill) refl
    ]

    -- An OID that the kernel describes, of at most CTL_MAXNAME / 4 numbers, gives the fields that
    -- its description stands for, and no error.
    pub sysctl_fill-Described :
        Described e
        → Fits e
        → sysctl_fill K (record (blank self) { key = some key }) e.oid privilege s
          ≡ done (some (setting_for privilege e self key s.next)) (behind privilege e s)
    unfolding sysctl_fill
    sysctl_fill-Described (name, n, c, format, f, k) fits =
        rw (query_sysctl-ok K.ctl_sysctl_oidfmt e.oid format s f, sysctl_fill, ◌>>=◌)
          (rw k (rw (fill-Fits fits, ◌>>=◌) refl))

    -- A longer one of the privilege that is asked for makes the copy read behind the array.
    pub sysctl_fill-over :
        Described e
        → is_asked privilege e ≡ true
        → ltb (4 * K.ctl_maxname) (4 * bytes_of e.oid) ≡ true
        → sysctl_fill K (record (blank self) { key = some key }) e.oid privilege s ≡ fault
    unfolding sysctl_fill fill
    sysctl_fill-over (name, n, c, format, f, k) asked over =
        rw (query_sysctl-ok K.ctl_sysctl_oidfmt e.oid format s f, sysctl_fill, ◌>>=◌)
          (rw k (rw (asked, fill, ◌>>=◌) (rw over refl)))
