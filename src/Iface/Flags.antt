-- ===== src/Iface/Flags.antt =====
-- What `iface_set_flags` does to each flag, and what `iface_get_flags` then reads.
use Prim.Native.Nat.{max}
use aquabsd_pkg_repo.Base.{
  true, none, ◌%◌, Option, [], ◌∷◌, ℕ, suc, ◌-◌, ◌^◌, ◌<◌, ◌≡◌, sym, ◌∙◌, ap, Bool, false, some,
  arith, ℤ, pos, negsuc, ◌⊎◌, inl, inr,
}
use aquabsd_pkg_repo.Base.Prog.{Outcome, done}
use aquabsd_pkg_repo.Base.Bits.{
  bit, bit-lt, bit-zero, bit-mod, bit-bit_and, bit-bit_or, bit-complement,
}
use aquabsd_pkg_repo.Base.Bytes.{format, Bytes, codes}
use aquabsd_pkg_repo.Iface.{
  Reply-cases, ok, failed, Ifreq, set_ifr_flags, emit_error, Net, Iface, Process, new_flags,
  u32_of_short, iface_set_flags, iface_get_flags,
}

-- Whether flag `k` is set once `val` has been applied to a word where it was `old`.
abbrev pub wanted : ℤ → ℕ → ℕ → ℕ
wanted (pos v) k old = max old (bit k v)
wanted (negsuc v) k old = old - bit k (suc v)

-- An `int` whose negation does not overflow.
abbrev pub Negatable : ℤ → Type 0
Negatable (pos v) = v < 2 ^ 31
Negatable (negsuc v) = suc v < 2 ^ 31

low_mask_bits : (k : ℕ) → k < 16 → bit k 0xffff ≡ 1
low_mask_bits k h = bit-complement 16 k 0 h (omega arith) ∙ omega (arith, bit-zero k)

-- For a `val` that fits an int with its negation, each of the low 16 flags of the word that
-- iface_set_flags writes is: for a `val` of 0 or more, set if it was or if `val` has it; for a
-- negative one, set if it was and `-val` does not have it.
pub bit-new_flags :
    (val : ℤ) (k f : ℕ) → k < 16 → Negatable val → bit k (new_flags val f) ≡ wanted val k (bit k f)
unfolding new_flags
bit-new_flags (pos v) k f h r =
    rw (bit-bit_and k, bit-bit_or k, low_mask_bits k h) (omega (arith, bit-lt k f, bit-lt k v))
bit-new_flags (negsuc v) k f h r =
    rw
      (
        bit-bit_and k,
        bit-bit_and k,
        low_mask_bits k h,
        bit-complement 32 k (suc v) (omega arith) (omega arith),
      )
      (omega (arith, bit-lt k f, bit-lt k (suc v)))

-- The conversion to `unsigned` keeps the low 16 flags.
pub bit-u32_of_short : (k f : ℕ) → k < 16 → f < 2 ^ 16 → bit k (u32_of_short f) ≡ bit k f
bit-u32_of_short k f h r = sym (bit-mod 16 k (u32_of_short f) h) ∙ ap (bit k) (ground arith)

bit-u32_of_short_any : (k f : ℕ) → k < 16 → bit k (u32_of_short f) ≡ bit k f
bit-u32_of_short_any k f h =
    let same : u32_of_short f % 2 ^ 16 ≡ f % 2 ^ 16 = ground arith in
    sym (bit-mod 16 k (u32_of_short f) h) ∙ ap (bit k) same ∙ bit-mod 16 k f h

-- What the manual of the ioctls says: after a write that succeeds, the flags that a user may change
-- are as they were written. The others are the system's, and may have changed or not.
pub record IsLawful (N : Net) (changeable : ℕ → Bool) : Type 0 where
  pub get_after_set :
      (sock : ℤ) (name : Bytes) (low high f h : ℕ) (k k' : N.Kernel)
      → N.ioctl_get sock name k ≡ ok (low, high)
      → N.ioctl_set sock name (f, h) k ≡ ok k'
      → (low' : ℕ) × (high' : ℕ) × (N.ioctl_get sock name k' ≡ ok (low', high'))
        × (low' < 2 ^ 16)
        × ((b : ℕ) → b < 16 → changeable b ≡ true → bit b low' ≡ bit b f)

module _ (N : Net) where
  -- What both calls leave behind when the ioctls answer.
  pub set_flags_run :
      (iface : Iface) (val : ℤ) (s : Process N) (low high : ℕ) (k' : N.Kernel)
      → N.ioctl_get iface.dgram_sock iface.ifr.ifr_name s.kernel ≡ ok (low, high)
      → N.ioctl_set iface.dgram_sock iface.ifr.ifr_name
          (new_flags val (u32_of_short low), high)
          s.kernel
        ≡ ok k'
      → iface_set_flags N iface val s
        ≡ done
            (some
              (record iface { ifr = set_ifr_flags iface.ifr (new_flags val (u32_of_short low)) }))
            (record s { kernel = k' })
  unfolding iface_set_flags
  set_flags_run iface val s low high k' got set = ground arith

  pub set_flags_refused :
      (iface : Iface) (val : ℤ) (s : Process N) (low high e : ℕ)
      → N.ioctl_get iface.dgram_sock iface.ifr.ifr_name s.kernel ≡ ok (low, high)
      → N.ioctl_set iface.dgram_sock iface.ifr.ifr_name
          (new_flags val (u32_of_short low), high)
          s.kernel
        ≡ failed e
      → iface_set_flags N iface val s
        ≡ emit_error N (codes "SIOCSIFFLAGS ioctl failed: %s") (some (N.strerror e)) s
  unfolding iface_set_flags
  set_flags_refused iface val s low high e got set = ground arith

  pub set_flags_unread :
      (iface : Iface) (val : ℤ) (s : Process N) (e : ℕ)
      → N.ioctl_get iface.dgram_sock iface.ifr.ifr_name s.kernel ≡ failed e
      → iface_set_flags N iface val s
        ≡ emit_error N (codes "SIOCGIFFLAGS ioctl failed: %s") (some (N.strerror e)) s
  unfolding iface_set_flags
  set_flags_unread iface val s e got = ground arith

  -- What a failed call leaves: -1, with the error text, and the rest of the process as before.
  abbrev pub Failed : Bytes → ℕ → Process N → Outcome (Process N) (Option Iface) → Type 0
  Failed fmt e s r = r ≡ done none (record s { error_str = some (format fmt (N.strerror e ∷ [])) })

  -- What a call comes to, by what the kernel answers to SIOCGIFFLAGS and then to SIOCSIFFLAGS.
  abbrev pub Atomic : Iface → ℤ → Process N → Outcome (Process N) (Option Iface) → Type 0
  Atomic iface val s r =
      ((e : ℕ) × (N.ioctl_get iface.dgram_sock iface.ifr.ifr_name s.kernel ≡ failed e)
        × Failed (codes "SIOCGIFFLAGS ioctl failed: %s") e s r)
      ⊎ ((low : ℕ) × (high : ℕ) × (f : ℕ) × (N.ioctl_get iface.dgram_sock iface.ifr.ifr_name
              s.kernel
            ≡ ok (low, high))
          × ((k : ℕ) → k < 16 → bit k f ≡ wanted val k (bit k low))
          × (((e : ℕ) × (N.ioctl_set iface.dgram_sock iface.ifr.ifr_name (f, high) s.kernel
                  ≡ failed e)
                × Failed (codes "SIOCSIFFLAGS ioctl failed: %s") e s r)
              ⊎ ((k' : N.Kernel) × (N.ioctl_set iface.dgram_sock iface.ifr.ifr_name (f, high)
                      s.kernel
                    ≡ ok k')
                  × (r
                      ≡ done (some (record iface { ifr = set_ifr_flags iface.ifr f }))
                          (record s { kernel = k' })))))

  -- iface_set_flags, with a `val` that fits an int with its negation, reads the flags by SIOCGIFFLAGS
  -- and writes new ones by SIOCSIFFLAGS, the high half as it was read and each of the 16 low flags as
  -- `val` asks. If the kernel refuses the first, or the second, the call fails with the error text
  -- that names that ioctl and has the system's reason, and the rest of the process is as before. If
  -- the kernel does both, the call succeeds, and changes only the kernel and the interface's own
  -- copy of the flags, which is what was written.
  pub set_flags-Atomic :
      (iface : Iface) (val : ℤ) (s : Process N)
      → Negatable val
      → Atomic iface val s (iface_set_flags N iface val s)
  unfolding emit_error
  set_flags-Atomic iface val s r =
      elim (Reply-cases (N.ioctl_get iface.dgram_sock iface.ifr.ifr_name s.kernel)) [
        | inr (e, p) ↦ inl (e, p, set_flags_unread iface val s e p)
        | inl ((low, high), p) ↦
            let f = new_flags val (u32_of_short low) in
            inr (
              low,
              high,
              f,
              p,
              λ k h.
                  bit-new_flags val k (u32_of_short low) h r
                  ∙ ap (wanted val k) (bit-u32_of_short_any k low h),
              elim (Reply-cases
                  (N.ioctl_set iface.dgram_sock iface.ifr.ifr_name (f, high) s.kernel)) [
                    | inr (e, q) ↦ inl (e, q, set_flags_refused iface val s low high e p q)
                    | inl (k', q) ↦ inr (k', q, set_flags_run iface val s low high k' p q)
                  ],
            )
      ]

  pub get_flags_run :
      (iface : Iface) (s : Process N) (low high : ℕ)
      → N.ioctl_get iface.dgram_sock iface.ifr.ifr_name s.kernel ≡ ok (low, high)
      → iface_get_flags N iface false s ≡ done (some (u32_of_short low)) s
  unfolding iface_get_flags
  get_flags_run iface s low high got = ground arith

  pub get_flags_failed :
      (iface : Iface) (s : Process N) (e : ℕ)
      → N.ioctl_get iface.dgram_sock iface.ifr.ifr_name s.kernel ≡ failed e
      → iface_get_flags N iface false s
        ≡ emit_error N (codes "SIOCGIFFLAGS ioctl failed: %s") (some (N.strerror e)) s
  unfolding iface_get_flags
  get_flags_failed iface s e got = ground arith

  pub ifr_name-set_ifr_flags : (r : Ifreq) (f : ℕ) → (set_ifr_flags r f).ifr_name ≡ r.ifr_name
  ifr_name-set_ifr_flags r f = ground arith

  -- On a system whose ioctls keep what they document of the flags that may be changed: where the
  -- flags are read as a word of 16 bits, `val` fits an int with its negation, and iface_set_flags
  -- with `val` has succeeded, iface_get_flags succeeds, and each of the 16 flags that may be changed
  -- is read as asked: a `val` of 0 or more adds its flags to those that were set, a negative one
  -- removes those of `-val` from them.
  pub set_flags-get_flags :
      (changeable : ℕ → Bool)
      → IsLawful N changeable
      → (iface iface' : Iface) (val : ℤ) (s s' : Process N) (low high k : ℕ) → k < 16
      → changeable k ≡ true
      → Negatable val
      → low < 2 ^ 16
      → N.ioctl_get iface.dgram_sock iface.ifr.ifr_name s.kernel ≡ ok (low, high)
      → iface_set_flags N iface val s ≡ done (some iface') s'
      → (f : ℕ) × (iface_get_flags N iface' false s' ≡ done (some f) s')
        × (bit k f ≡ wanted val k (bit k low))
  unfolding emit_error
  set_flags-get_flags changeable L iface iface' val s s' low high k h may r small got set =
      let written = new_flags val (u32_of_short low) in
      elim (Reply-cases
        (N.ioctl_set iface.dgram_sock iface.ifr.ifr_name (written, high) s.kernel)) [
          | inr (e, q) ↦ absurd (cc (set_flags_refused iface val s low high e got q))
          | inl (k', q) ↦
              let (low', high', got', small', bits) =
                L.get_after_set iface.dgram_sock iface.ifr.ifr_name low high written high s.kernel
                  k' got q in
              (
                u32_of_short low',
                read_back k' q low' high' got',
                bit-u32_of_short k low' h small'
                    ∙ bits k h may
                    ∙ rw (
                      bit-new_flags val k (u32_of_short low) h r,
                      bit-u32_of_short k low h small,
                    ),
              )
        ]
    where
      read_back :
          (k' : N.Kernel)
          → N.ioctl_set iface.dgram_sock iface.ifr.ifr_name
              (new_flags val (u32_of_short low), high)
              s.kernel
            ≡ ok k'
          → (low' high' : ℕ) → N.ioctl_get iface.dgram_sock iface.ifr.ifr_name k' ≡ ok (low', high')
          → iface_get_flags N iface' false s' ≡ done (some (u32_of_short low')) s'
      read_back k' q low' high' got' =
          let e = sym set ∙ set_flags_run iface val s low high k' got q in
          get_flags_run iface' s' low' high'
            (cc (e, got', ifr_name-set_ifr_flags iface.ifr (new_flags val (u32_of_short low))))
