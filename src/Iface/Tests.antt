-- ===== src/Iface/Tests.antt =====
-- The theorems on libiface at a small kernel.
use aquabsd_pkg_repo.Base.{
  none, ◌↔◌, pos, ◌<◌, ◌^◌, ℕ, ◌+◌, ◌≡◌, refl, false, some, [], ◌∷◌, negsuc, arith,
}
use aquabsd_pkg_repo.Base.Bits.{bit}
use aquabsd_pkg_repo.Base.Prog.{done, Returns}
use aquabsd_pkg_repo.Iface.{
  IfaceFlag, value, up, broadcast, debug, loopback, pointopoint, knowsepoch, drv_running, noarp,
  promisc, allmulti, drv_oactive, simplex, link0, link1, link2, altphys, multicast, cantconfig,
  ppromisc, monitor, staticarp, dying, renaming, nogroup, Iface, Process, set_ifr_flags, iface_list,
  iface_get_flags, iface_set_flags, new_flags,
}
use aquabsd_pkg_repo.Iface.Flags.{Atomic, wanted, set_flags-Atomic, set_flags-get_flags}
use aquabsd_pkg_repo.Iface.Names.{ReadsName, iface_list-read_name}
use aquabsd_pkg_repo.Iface.Sockets.{Sockets, iface_list-Sockets}
use aquabsd_pkg_repo.Iface.Machine.{
  still, moving, start, entries, machine, is_open, em0, driven, driven-IsLawful, is_free,
  still-HasDescriptors,
}
use aquabsd_pkg_repo.Iface.Places.{HasPlaces, Has, get_flags-Has}
use aquabsd_pkg_repo.Iface.Refine.{read, write, perform_each, perform_each-Moves, PerformedEach}

iface_list-read_name_example :
    Returns (ReadsName moving) (iface_list moving false false (start (λ n. 4096 + n)))
iface_list-read_name_example = iface_list-read_name moving entries (start (λ n. 4096 + n)) refl

iface_list-Sockets_example :
    Returns
      (Sockets still is_open still-HasDescriptors machine)
      (iface_list still false false (start (λ n. 4096)))
iface_list-Sockets_example =
    iface_list-Sockets still is_open still-HasDescriptors entries (start (λ n. 4096)) refl refl

abbrev down_em0 : Iface
down_em0 = record em0 { ifr = set_ifr_flags em0.ifr (new_flags (negsuc 0) 0xffff8843) }

set_flags-Atomic_example :
    Atomic still em0
      (negsuc 0)
      (start (λ n. 4096))
      (iface_set_flags still em0 (negsuc 0) (start (λ n. 4096)))
set_flags-Atomic_example = set_flags-Atomic still em0 (negsuc 0) (start (λ n. 4096)) (omega arith)

-- The interface goes down, and the driver stops.
abbrev driven_start : Process driven
driven_start = record { error_str = none; stdout = []; stderr = []; kernel = machine }

abbrev after : Process driven
after = record driven_start { kernel = record machine { low = 0x8802 } }

set_flags-get_flags_example :
    (f : ℕ) × (iface_get_flags driven down_em0 false after ≡ done (some f) after)
    × (bit 0 f ≡ wanted (negsuc 0) 0 (bit 0 0x8843))
unfolding iface_set_flags
set_flags-get_flags_example =
    set_flags-get_flags driven is_free driven-IsLawful em0 down_em0 (negsuc 0) driven_start after
      0x8843 0 0 (omega arith) refl (omega arith) (omega arith) refl refl

perform_each-Moves_example :
    Returns
      (PerformedEach driven is_free driven-IsLawful
        (λ k. bit k 0x8843)
        (write (negsuc 0) ∷ read ∷ []))
      (perform_each driven (write (negsuc 0) ∷ read ∷ []) em0 driven_start)
perform_each-Moves_example =
    perform_each-Moves driven is_free driven-IsLawful (write (negsuc 0) ∷ read ∷ [])
      (λ k. bit k 0x8843) em0 driven_start (omega arith, (tt, tt))
      (0x8843, 0, refl, omega arith, λ k h. refl)

-- The places of the flags in `net/if.h`.
abbrev place : IfaceFlag → ℕ
place up = 0
place broadcast = 1
place debug = 2
place loopback = 3
place pointopoint = 4
place knowsepoch = 5
place drv_running = 6
place noarp = 7
place promisc = 8
place allmulti = 9
place drv_oactive = 10
place simplex = 11
place link0 = 12
place link1 = 13
place link2 = 14
place altphys = 14
place multicast = 15
place cantconfig = 16
place ppromisc = 17
place monitor = 18
place staticarp = 19
place dying = 21
place renaming = 22
place nogroup = 23

still-one_bit : (flag : IfaceFlag) → value still flag ≡ 2 ^ place flag
still-one_bit up = refl
still-one_bit other_one = refl

still-within : (flag : IfaceFlag) → place flag < 31
still-within up = omega arith
still-within other_one = omega arith

still-HasPlaces : HasPlaces still place
still-HasPlaces = record { one_bit = still-one_bit; within = still-within; sign = refl }

get_flags-Has_example :
    (f : ℕ) × (iface_get_flags still em0 false (start (λ n. 4096))
      ≡ done (some f) (start (λ n. 4096)))
    × (Has still f monitor ↔ Has still 0x8843 multicast)
    × (iface_set_flags still em0 (pos 0x40000) (start (λ n. 4096))
        ≡ iface_set_flags still em0 (pos 0) (start (λ n. 4096)))
get_flags-Has_example =
    get_flags-Has still place still-HasPlaces monitor em0 (start (λ n. 4096)) 0x8843 0 (omega arith)
      refl
