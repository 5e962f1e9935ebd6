-- ===== src/Iface.antt =====
-- libiface (packages/aquabsd.alps/libiface/src/libiface.c and
-- packages/aquabsd.alps/libiface-dev/src/iface.h): the data, the services of the system that it
-- calls, and its functions. An `unsigned` or `short` is its bit pattern, and a `char*` the bytes
-- before its NUL. A returned `none` is the -1 of the source.
pub mod Types
pub mod Flags
pub mod Listing
pub mod Machine
pub mod Names
pub mod Places
pub mod Refine
pub mod Sockets
pub mod Tests
pub use aquabsd_pkg_repo.Base.Prog.{Reply, ok, failed, Reply-cases}
pub use aquabsd_pkg_repo.Iface.Types.{
  IfaceFlag, up, broadcast, debug, loopback, pointopoint, knowsepoch, drv_running, noarp, promisc,
  allmulti, drv_oactive, simplex, link0, link1, link2, altphys, multicast, cantconfig, ppromisc,
  monitor, staticarp, dying, renaming, nogroup, value, Sockaddr, Ifaddrs, Net, IfaceKind, other,
  loop, eth, usb, Ifru, addr, flags, Ifreq, NamePtr, Iface, Ifaces, Process,
}
use aquabsd_pkg_repo.Base.{
  ℕ, zero, suc, ◌+◌, ◌-◌, ◌%◌, ◌^◌, Bool, true, false, Option, none, some, List, [], ◌∷◌, ◌++◌,
  bit_and, bit_or, ltb, ◌==◌, if◌then◌else◌, ◌≡◌, refl, ◌⊎◌, inl, inr, ℤ, pos, negsuc, length,
  get_elem?,
}
use aquabsd_pkg_repo.Base.Bits.{complement}
use aquabsd_pkg_repo.Base.Bytes.{Bytes, codes, format, strncpy}
use aquabsd_pkg_repo.Base.Decimal.{decimal}
use aquabsd_pkg_repo.Base.Prog.{Outcome, done, Prog, pure, get, modify, ◌>>=◌, ◌>>◌}

-- The string in `ifr_name`: `none` if it fills the buffer, since `strncpy` then leaves no NUL in it
-- and a function that takes it for a string reads behind it.
abbrev pub string_in : Net → Bytes → Option Bytes
string_in N ifr_name = if ltb (length ifr_name) N.ifnamsiz then some ifr_name else none

-- The string that `iface->name` points at; `none` if there is none, or the array is no longer where
-- it points.
unfoldable pub read_name : Net → Ifaces → Iface → Option Bytes
read_name N ifaces iface =
    if iface.name.block == ifaces.block
    then elim (get_elem? ifaces.elems iface.name.index) [
      | none ↦ none
      | some target ↦ string_in N target.ifr.ifr_name
    ]
    else none

-- `short` to `unsigned`: the sign of the low half fills the high one.
abbrev pub u32_of_short : ℕ → ℕ
u32_of_short f = if ltb f (2 ^ 15) then f else f + (2 ^ 32 - 2 ^ 16)

-- The flags that `iface_set_flags` writes: a negative `val` removes the flags of `-val`.
pub new_flags : ℤ → ℕ → ℕ
new_flags (pos v) curr_flags = bit_and (bit_or curr_flags v) 0xffff
new_flags (negsuc v) curr_flags = bit_and (bit_and curr_flags (complement 32 (suc v))) 0xffff

-- The assignment `ifr.ifr_flags = f`, which leaves the other half of the union alone.
abbrev pub set_ifr_flags : Ifreq → ℕ → Ifreq
set_ifr_flags r f = elim r.ifr_ifru [
  | addr family ↦ record { ifr_name = r.ifr_name; ifr_ifru = flags f 0 }
  | flags low high ↦ record { ifr_name = r.ifr_name; ifr_ifru = flags f high }
]

module _ (N : Net) where
  unfoldable pub iface_error_str : Prog (Process N) (Option Bytes)
  iface_error_str s = done s.error_str s

  unfoldable pub emit_error : {A : Type 0} → Bytes → Option Bytes → Prog (Process N) (Option A)
  emit_error fmt none s = done none (record s { error_str = some fmt })
  emit_error fmt (some text) s = done none (record s { error_str = some (format fmt (text ∷ [])) })

  -- The type of an interface, and whether its number is known.
  pub kind_of : ℕ → IfaceKind × Bool
  kind_of sdl_type =
      if sdl_type == N.ift_loop
      then (loop, true)
      else if sdl_type == N.ift_usb
      then (usb, true)
      else if sdl_type == N.ift_ether
      then (eth, true)
      else (other, false)

  -- The `fprintf` for an unknown type.
  pub note_unknown : Bytes → ℕ → Bool → Prog (Process N) (Unit {0})
  note_unknown name sdl_type known = modify λ s.
      let line =
        format (codes "TODO iface_list: unknown interface type for %s: %d")
          (name ∷ decimal sdl_type ∷ []) in
      record s { stderr = s.stderr ++ (if known then [] else line ∷ []) }

  -- The loop of `iface_free`: a socket number of zero counts as none.
  pub close_all : List Iface → N.Kernel → N.Kernel
  close_all [] k = k
  close_all (iface ∷ rest) k = elim iface.dgram_sock [
    | pos n ↦ close_all rest (if n == 0 then k else N.close (pos n) k)
    | negsuc n ↦ close_all rest (N.close (negsuc n) k)
  ]

  unfoldable pub iface_free : Ifaces → Prog (Process N) (Unit {0})
  unfolding close_all
  iface_free ifaces s = done tt (record s { kernel = close_all ifaces.elems s.kernel })

  -- `realloc`, and the object at its end but for the socket.
  pub new_iface : Bytes → IfaceKind → Ifaces → Iface
  new_iface ifa_name kind ifaces =
      let len = length ifaces.elems in
      record {
        name = record { block = N.realloc (len + 1); index = len };
        kind = kind;
        dgram_sock = pos 0;
        ifr = record { ifr_name = strncpy ifa_name N.ifnamsiz; ifr_ifru = addr N.af_inet };
      }

  pub append_iface : Ifaces → Iface → ℤ → Ifaces
  append_iface ifaces iface sock = record {
    block = N.realloc (length ifaces.elems + 1);
    elems = ifaces.elems ++ (record iface { dgram_sock = sock } ∷ []);
  }

  -- The object gets its socket; without one the error is recorded and every socket is closed.
  pub attach : Ifaces → Iface → Reply ℕ → Prog (Process N) (Option Ifaces)
  unfolding emit_error iface_free append_iface
  attach ifaces iface (ok fd) = pure (some (append_iface ifaces iface (pos fd)))
  attach ifaces iface (failed e) = do
    emit_error {A = Unit {0}} (codes "failed to create datagram socket for interface: %s")
        (some (N.strerror e))
    iface_free (append_iface ifaces iface (negsuc 0))
    pure none

  pub add_iface : Bytes → IfaceKind → Ifaces → Prog (Process N) (Option Ifaces)
  unfolding attach new_iface
  add_iface ifa_name kind ifaces s =
      let (reply, k) = N.socket N.af_inet s.kernel in
      attach ifaces (new_iface ifa_name kind ifaces) reply (record s { kernel = k })

  -- The loop over the entries: those that are not of a link are skipped.
  pub list_from : List Ifaddrs → Ifaces → Prog (Process N) (Option Ifaces)
  list_from [] ifaces = pure (some ifaces)
  list_from (ifa ∷ rest) ifaces = elim ifa.ifa_addr [
    | none ↦ list_from rest ifaces
    | some sa ↦ elim (sa.family == N.af_link) [
      | false ↦ list_from rest ifaces
      | true ↦ do
        let kind = kind_of sa.sdl_type
        note_unknown ifa.ifa_name sa.sdl_type kind.1
        added ← add_iface ifa.ifa_name kind.0 ifaces
        elim added [ none ↦ pure none | some more ↦ list_from rest more ]
    ]
  ]

  -- The two flags say whether a reference points to NULL.
  unfoldable pub iface_list : Bool → Bool → Prog (Process N) (Option Ifaces)
  unfolding emit_error list_from kind_of note_unknown add_iface
  iface_list ifaces_null len_null =
      if ifaces_null
      then emit_error (codes "ifaces_ref argument points to NULL") none
      else if len_null
      then emit_error (codes "iface_len_ref argument points to NULL") none
      else λ s. elim (N.getifaddrs s.kernel) [
        | failed e ↦ emit_error (codes "getifaddrs failed: %s") (some (N.strerror e)) s
        | ok entries ↦ list_from entries (record { block = 0; elems = [] }) s
      ]

  -- The private copy of `ifr` as the ioctl fills it, and the flags.
  unfoldable pub get_flags : Bool → Bool → Iface → Prog (Process N) (Option (Ifreq × ℕ))
  unfolding emit_error
  get_flags ifr_null flag_null iface =
      if ifr_null
      then emit_error (codes "ifr argument points to NULL") none
      else if flag_null
      then emit_error (codes "flag_ref argument points to NULL") none
      else λ s. elim (N.ioctl_get iface.dgram_sock iface.ifr.ifr_name s.kernel) [
        | failed e ↦ emit_error (codes "SIOCGIFFLAGS ioctl failed: %s") (some (N.strerror e)) s
        | ok (low, high) ↦
            done
              (some (
                record { ifr_name = iface.ifr.ifr_name; ifr_ifru = flags low high },
                u32_of_short low,
              ))
              s
      ]

  unfoldable pub iface_get_flags : Iface → Bool → Prog (Process N) (Option ℕ)
  unfolding get_flags
  iface_get_flags iface flag_null = do
    got ← get_flags false flag_null iface
    elim got [ none ↦ pure none | some (ifr, f) ↦ pure (some f) ]

  -- The second ioctl, and the copy of the flags into the interface.
  pub write_flags : Iface → Ifreq → ℕ → ℕ → Prog (Process N) (Option Iface)
  unfolding emit_error
  write_flags iface ifr f high s =
      elim (N.ioctl_set iface.dgram_sock ifr.ifr_name (f, high) s.kernel) [
        | failed e ↦ emit_error (codes "SIOCSIFFLAGS ioctl failed: %s") (some (N.strerror e)) s
        | ok k ↦
            done (some (record iface { ifr = set_ifr_flags iface.ifr f })) (record s { kernel = k })
      ]

  abbrev pub high_of : Ifreq → ℕ
  high_of r = elim r.ifr_ifru [ addr family ↦ 0 | flags low high ↦ high ]

  unfoldable pub iface_set_flags : Iface → ℤ → Prog (Process N) (Option Iface)
  unfolding get_flags write_flags new_flags
  iface_set_flags iface val = do
    got ← get_flags false false iface
    elim got [
      | none ↦ pure none
      | some (ifr, curr_flags) ↦ write_flags iface ifr (new_flags val curr_flags) (high_of ifr)
    ]

  unfoldable pub iface_get_inet : Iface → Bytes
  iface_get_inet iface = codes "127.0.0.1"
