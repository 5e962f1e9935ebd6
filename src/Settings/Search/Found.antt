-- ===== src/Settings/Search/Found.antt =====
-- What `settings_search` finds, and what `setting_free` leaves of it.
use aquabsd_pkg_repo.Base.{
  ℕ, suc, ◌*◌, ◌<◌, ◌≡◌, refl, true, some, [], ◌∷◌, ltb, ℤ, pos, arith, Bool-cases, inl, inr,
}
use aquabsd_pkg_repo.Base.Bytes.{Bytes}
use aquabsd_pkg_repo.Base.Prog.{done, fault, ◌>>=◌}
use aquabsd_pkg_repo.Settings.{
  ok, Privilege, boot, kern, user, aqua, other, code_of, Owned, Setting, Sysctl, Process, malloc,
  free, free_owned, duplicate,
}
use aquabsd_pkg_repo.Settings.Heap.{allocated, release-first, release-second}
use aquabsd_pkg_repo.Settings.Fill.{
  Entry, Described, Fits, is_asked, setting_for, behind, sysctl_fill-Described, sysctl_fill-over,
}
use aquabsd_pkg_repo.Settings.Query.{bytes_of}
use aquabsd_pkg_repo.Settings.Search.{found, search_sysctl, settings_search}
use aquabsd_pkg_repo.Settings.Access.{setting_free}

module _ (K : Sysctl) where
  -- The kernel translates a key to the OID of an entry.
  abbrev pub Translated : Bytes → Entry → Type 0
  Translated key e =
      K.sysctl_ints (K.ctl_sysctl ∷ K.ctl_sysctl_name2oid ∷ []) key (4 * K.ctl_maxname) ≡ ok e.oid

  abbrev pub key_at : Bytes → ℕ → Owned Bytes
  key_at key block = record { block = block; value = key }

  search_sysctl-Described :
      (key : Bytes) (privilege : Privilege) (e : Entry) (s : Process)
      → Translated key e
      → Described K e
      → Fits K e
      → search_sysctl K key privilege s
        ≡ done
            (some (setting_for K privilege e s.next (key_at key (suc s.next)) (suc (suc s.next))))
            (behind K privilege e (allocated (allocated s)))
  unfolding search_sysctl found malloc duplicate
  search_sysctl-Described key privilege e s tr d fits =
      rw (tr, search_sysctl)
        (rw
          (
            sysctl_fill-Described K privilege e s.next (key_at key (suc s.next))
                (allocated (allocated s)) d fits,
            ◌>>=◌,
          )
          refl)

  search_sysctl-over :
      (key : Bytes) (privilege : Privilege) (e : Entry) (s : Process)
      → Translated key e
      → Described K e
      → is_asked K privilege e ≡ true
      → ltb (4 * K.ctl_maxname) (4 * bytes_of e.oid) ≡ true
      → search_sysctl K key privilege s ≡ fault
  unfolding search_sysctl found malloc duplicate
  search_sysctl-over key privilege e s tr d asked over =
      rw (tr, search_sysctl)
        (rw
          (
            sysctl_fill-over K privilege e s.next (key_at key (suc s.next))
                (allocated (allocated s)) d asked over,
            ◌>>=◌,
          )
          refl)

  -- settings_search for the boot or the kernel privilege, with a key that the kernel translates to
  -- an OID that it describes, of at most CTL_MAXNAME / 4 numbers, returns the setting that the
  -- description stands for, whichever of the two privileges that setting has.
  pub settings_search-Described :
      (key : Bytes) (privilege : Privilege) (uid : ℤ) (e : Entry) (s : Process)
      → code_of privilege < 2
      → Translated key e
      → Described K e
      → Fits K e
      → settings_search K key privilege uid s
        ≡ done
            (some (setting_for K privilege e s.next (key_at key (suc s.next)) (suc (suc s.next))))
            (behind K privilege e (allocated (allocated s)))
  unfolding settings_search
  settings_search-Described key boot uid e s h tr d fits =
      search_sysctl-Described key boot e s tr d fits
  settings_search-Described key kern uid e s h tr d fits =
      search_sysctl-Described key kern e s tr d fits
  settings_search-Described key user uid e s h tr d fits = absurd (omega arith)
  settings_search-Described key aqua uid e s h tr d fits = absurd (omega arith)
  settings_search-Described key (other n) uid e s h tr d fits = absurd (omega arith)

  -- settings_search for the boot or the kernel privilege, with a key that the kernel translates to
  -- an OID that it describes, of more than CTL_MAXNAME / 4 numbers and of the privilege that is
  -- asked for, reads behind the end of the array that holds the OID.
  pub settings_search-over :
      (key : Bytes) (privilege : Privilege) (uid : ℤ) (e : Entry) (s : Process)
      → code_of privilege < 2
      → Translated key e
      → Described K e
      → is_asked K privilege e ≡ true
      → ltb (4 * K.ctl_maxname) (4 * bytes_of e.oid) ≡ true
      → settings_search K key privilege uid s ≡ fault
  unfolding settings_search
  settings_search-over key boot uid e s h tr d asked over =
      search_sysctl-over key boot e s tr d asked over
  settings_search-over key kern uid e s h tr d asked over =
      search_sysctl-over key kern e s tr d asked over
  settings_search-over key user uid e s h tr d asked over = absurd (omega arith)
  settings_search-over key aqua uid e s h tr d asked over = absurd (omega arith)
  settings_search-over key (other n) uid e s h tr d asked over = absurd (omega arith)

  module _ (privilege : Privilege) (e : Entry) (s : Process) (key : Bytes) where
    setting_free-setting_for :
        setting_free
          (some (setting_for K privilege e s.next (key_at key (suc s.next)) (suc (suc s.next))))
          (behind K privilege e (allocated (allocated s)))
        ≡ done
            (pos 0)
            (record (behind K privilege e (allocated (allocated s))) { live = s.next ∷ s.live })
    unfolding setting_free free_owned free
    setting_free-setting_for = elim (Bool-cases (is_asked K privilege e)) [
      | inl asked ↦ rw asked (
          rw (release-second (suc s.next) (s.next ∷ s.live), free_owned, free, ◌>>=◌)
            (rw (release-first (suc (suc s.next)) (s.next ∷ s.live), free_owned, free, ◌>>=◌) refl))
      | inr unasked ↦
          rw unasked
            (rw (release-first (suc s.next) (s.next ∷ s.live), free_owned, free, ◌>>=◌) refl)
    ]

  -- With a key that the kernel translates to an OID that it describes, of at most CTL_MAXNAME / 4
  -- numbers, settings_search for the boot or the kernel privilege returns a setting, and setting_free
  -- of it returns 0 and frees every block that the search has allocated but the one of the setting_t
  -- itself, which stays allocated.
  pub setting_free-settings_search :
      (key : Bytes) (privilege : Privilege) (uid : ℤ) (e : Entry) (s : Process)
      → code_of privilege < 2
      → Translated key e
      → Described K e
      → Fits K e
      → (setting : Setting) × (t u : Process) × (settings_search K key privilege uid s
          ≡ done (some setting) t)
        × (setting_free (some setting) t ≡ done (pos 0) u)
        × (u.live ≡ setting.self ∷ s.live)
  setting_free-settings_search key privilege uid e s h tr d fits = (
    _,
    _,
    _,
    settings_search-Described key privilege uid e s h tr d fits,
    setting_free-setting_for privilege e s key,
    self_for,
  )
    where
      self_for :
          s.next ∷ s.live
          ≡ (setting_for K privilege e s.next (key_at key (suc s.next)) (suc (suc s.next))).self
            ∷ s.live
      self_for = elim (Bool-cases (is_asked K privilege e)) [
        | inl asked ↦ rw asked refl
        | inr unasked ↦ rw unasked refl
      ]
