-- ===== src/Iface/Places.antt =====
-- What `iface_get_flags` and `iface_set_flags` of libiface.c make of each flag of `iface_flag_t`
-- (packages/aquabsd.alps/libiface-dev/src/iface.h), by the place of its bit.
use aquabsd_pkg_repo.Base.{
  ℕ, ◌+◌, ◌-◌, ◌^◌, ◌≤◌, ◌<◌, ◌≡◌, ◌≢◌, ◌↔◌, refl, sym, ◌∙◌, ap, Bool-cases, ltb, some, arith,
  bit_and, bit_or, ◌==◌, if◌then◌else◌, inl, inr, pos, false, ℤ,
}
use aquabsd_pkg_repo.Base.Bits.{
  bit, bit-lt, bit-small, bit-zero, bit-pow, bit_and-pow, bit_and-lt, bit-complement, complement,
  two-pow-lt, eq_of_bits,
}
use aquabsd_pkg_repo.Base.Prog.{done}
use aquabsd_pkg_repo.Iface.{
  ok, IfaceFlag, multicast, value, Net, Iface, Process, new_flags, u32_of_short, iface_set_flags,
  iface_get_flags,
}
use aquabsd_pkg_repo.Iface.Flags.{bit-new_flags, bit-u32_of_short, get_flags_run}

-- The sign of a `short` stands at each of the high places of the `unsigned`.
bit-u32_of_short_high : (k f : ℕ) → 16 ≤ k → k < 32 → f < 2 ^ 16 → bit k (u32_of_short f) ≡ bit 15 f
bit-u32_of_short_high k f h lt small = elim (Bool-cases (ltb f (2 ^ 15))) [
  | inl low ↦ rw low (
      bit-small 15 k f (omega arith) (ground arith)
      ∙ sym (bit-small 15 15 f (omega arith) (ground arith)))
  | inr high ↦
      let rest : ℕ = complement 16 f in
      let below : rest < 2 ^ 15 = ground arith in
      let word : f + (2 ^ 32 - 2 ^ 16) ≡ complement 32 rest = ground arith in
      let half : f ≡ complement 16 rest = ground arith in
      rw high (
        ap (bit k) word
        ∙ bit-complement 32 k rest lt (omega arith)
        ∙ ap (λ n. 1 - n)
            (bit-small 15 k rest (omega arith) below
              ∙ sym (bit-small 15 15 rest (omega arith) below))
        ∙ sym (bit-complement 16 15 rest (omega arith) (omega arith))
        ∙ ap (bit 15) (sym half))
]

-- Each flag is one bit of an `int`, and that of IFF_MULTICAST is the sign of a `short`.
pub record HasPlaces (N : Net) (place : IfaceFlag → ℕ) : Type 0 where
  pub one_bit : (flag : IfaceFlag) → value N flag ≡ 2 ^ place flag
  pub within : (flag : IfaceFlag) → place flag < 31
  pub sign : place multicast ≡ 15

new_flags-lt : (v f : ℕ) → new_flags (pos v) f < 2 ^ 16
unfolding new_flags
new_flags-lt v f = bit_and-lt 16 (bit_or f v) 0xffff (omega arith)

-- A word of 16 bits without the flags of a high place.
new_flags-high : (k f : ℕ) → 16 ≤ k → k < 31 → new_flags (pos (2 ^ k)) f ≡ new_flags (pos 0) f
new_flags-high k f h lt =
    eq_of_bits 16 (new_flags (pos (2 ^ k)) f) (new_flags (pos 0) f) (new_flags-lt (2 ^ k) f)
      (new_flags-lt 0 f)
      λ j small.
        let apart : (j == k) ≡ false = ground arith in
        bit-new_flags (pos (2 ^ k)) j f small (two-pow-lt k 31 lt)
        ∙ rw (bit-pow j k) (rw apart (omega (arith, bit-zero j)))
        ∙ sym (bit-new_flags (pos 0) j f small (omega arith))

module _ (N : Net) where
  -- `flags & IFACE_X` is not zero.
  abbrev pub Has : ℕ → IfaceFlag → Type 0
  Has flags flag = bit_and flags (value N flag) ≢ 0

  -- The word that is written is all that counts.
  set_flags_same :
      (iface : Iface) (v w : ℤ) (s : Process N) (low high : ℕ)
      → N.ioctl_get iface.dgram_sock iface.ifr.ifr_name s.kernel ≡ ok (low, high)
      → new_flags v (u32_of_short low) ≡ new_flags w (u32_of_short low)
      → iface_set_flags N iface v s ≡ iface_set_flags N iface w s
  unfolding iface_set_flags
  set_flags_same iface v w s low high got same = ground arith

  module _ (place : IfaceFlag → ℕ) (P : HasPlaces N place) where
    Has-bit : (flag : IfaceFlag) (f : ℕ) → Has f flag ↔ (bit (place flag) f ≡ 1)
    Has-bit flag f =
        let test = bit_and-pow 32 (place flag) f (omega (arith, P.within flag)) in
        rw (P.one_bit flag) (
          λ some_bit.
              omega
                (arith, bit-lt (place flag) f, λ (e : bit (place flag) f ≡ 0). some_bit (test.1 e)),
          λ e zero_word. omega (arith, e, test.0 zero_word),
        )

    -- The flag whose bit is read for a flag.
    abbrev pub read_as : IfaceFlag → IfaceFlag
    read_as flag = if ltb (place flag) 16 then flag else multicast

    -- The flag, if it stands in the low half.
    abbrev pub low_value : IfaceFlag → ℕ
    low_value flag = if ltb (place flag) 16 then value N flag else 0

    -- Where each flag is one bit of an int, IFF_MULTICAST being the highest of a short, and where the
    -- kernel gives the low half of the flags as a word of 16 bits: iface_get_flags gives a word that
    -- has a flag of the low half just if the kernel's word has it, and a flag of the high half just
    -- if the kernel's word has IFF_MULTICAST, whatever the high half is; and iface_set_flags with a
    -- flag of the high half does the same as with no flag.
    pub get_flags-Has :
        (flag : IfaceFlag) (iface : Iface) (s : Process N) (low high : ℕ)
        → low < 2 ^ 16
        → N.ioctl_get iface.dgram_sock iface.ifr.ifr_name s.kernel ≡ ok (low, high)
        → (f : ℕ) × (iface_get_flags N iface false s ≡ done (some f) s)
          × (Has f flag ↔ Has low (read_as flag))
          × (iface_set_flags N iface (pos (value N flag)) s
              ≡ iface_set_flags N iface (pos (low_value flag)) s)
    get_flags-Has flag iface s low high small got =
        let word = Has-bit flag (u32_of_short low) in
        elim (Bool-cases (ltb (place flag) 16)) [
          | inl there ↦
              let same = bit-u32_of_short (place flag) low (ground arith) small in
              let given = Has-bit flag low in
              rw there (
                u32_of_short low,
                get_flags_run N iface s low high got,
                (λ p. given.1 (sym same ∙ word.0 p), λ p. word.1 (same ∙ given.0 p)),
                refl,
              )
          | inr beyond ↦
              let h : 16 ≤ place flag = ground arith in
              let same : bit (place flag) (u32_of_short low) ≡ bit (place multicast) low =
                bit-u32_of_short_high (place flag) low h (omega (arith, P.within flag)) small
                ∙ ap (λ k. bit k low) (sym P.sign) in
              let given = Has-bit multicast low in
              rw beyond (
                u32_of_short low,
                get_flags_run N iface s low high got,
                (λ p. given.1 (sym same ∙ word.0 p), λ p. word.1 (same ∙ given.0 p)),
                set_flags_same iface (pos (value N flag)) (pos 0) s low high got (
                    ap (λ v. new_flags (pos v) (u32_of_short low)) (P.one_bit flag)
                    ∙ new_flags-high (place flag) (u32_of_short low) h (P.within flag)),
              )
        ]
