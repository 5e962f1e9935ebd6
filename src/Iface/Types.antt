-- ===== src/Iface/Types.antt =====
-- The types of libiface (packages/aquabsd.alps/libiface-dev/src/iface.h), and what libiface.c
-- calls and does not implement.
use aquabsd_pkg_repo.Base.Prog.{Reply}
use aquabsd_pkg_repo.Base.{ℕ, Option, List, ℤ}
use aquabsd_pkg_repo.Base.Bytes.{Bytes}

-- The link-level part of an entry's `ifa_addr`: `sa_family`, and `sdl_type` if it is AF_LINK.
pub record Sockaddr : Type 0 where
  pub family : ℕ
  pub sdl_type : ℕ

-- An entry of the list that `getifaddrs` makes.
pub record Ifaddrs : Type 0 where
  pub ifa_name : Bytes
  pub ifa_addr : Option Sockaddr

-- What the library calls and does not implement. Calls on the state of the kernel; `realloc n` is
-- the address of the array once it has grown to `n` interfaces; the constants are those of the
-- system's headers.
pub record Net : Type 1 where
  pub Kernel : Type 0
  pub getifaddrs : Kernel → Reply (List Ifaddrs)
  pub socket : ℕ → Kernel → Reply ℕ × Kernel
  pub close : ℤ → Kernel → Kernel
  -- SIOCGIFFLAGS and SIOCSIFFLAGS, on `ifr_flags` and `ifr_flagshigh`
  pub ioctl_get : ℤ → Bytes → Kernel → Reply (ℕ × ℕ)
  pub ioctl_set : ℤ → Bytes → ℕ × ℕ → Kernel → Reply Kernel
  pub strerror : ℕ → Bytes
  pub getprogname : Bytes
  pub realloc : ℕ → ℕ
  pub af_link : ℕ
  pub af_inet : ℕ
  pub ift_loop : ℕ
  pub ift_usb : ℕ
  pub ift_ether : ℕ
  pub ifnamsiz : ℕ
  pub iff_up : ℕ
  pub iff_broadcast : ℕ
  pub iff_debug : ℕ
  pub iff_loopback : ℕ
  pub iff_pointopoint : ℕ
  pub iff_knowsepoch : ℕ
  pub iff_drv_running : ℕ
  pub iff_noarp : ℕ
  pub iff_promisc : ℕ
  pub iff_allmulti : ℕ
  pub iff_drv_oactive : ℕ
  pub iff_simplex : ℕ
  pub iff_link0 : ℕ
  pub iff_link1 : ℕ
  pub iff_link2 : ℕ
  pub iff_altphys : ℕ
  pub iff_multicast : ℕ
  pub iff_cantconfig : ℕ
  pub iff_ppromisc : ℕ
  pub iff_monitor : ℕ
  pub iff_staticarp : ℕ
  pub iff_dying : ℕ
  pub iff_renaming : ℕ
  pub iff_nogroup : ℕ

-- `iface_kind_t`
pub data IfaceKind : Type 0 where
  other loop eth usb : IfaceKind

-- `iface_flag_t`
pub data IfaceFlag : Type 0 where
  up broadcast debug loopback pointopoint knowsepoch drv_running noarp promisc allmulti drv_oactive
        simplex link0 link1 link2 altphys multicast cantconfig ppromisc monitor staticarp dying
        renaming nogroup :
      IfaceFlag

-- The value of a flag, which is that of the system's header.
abbrev pub value : Net → IfaceFlag → ℕ
value N up = N.iff_up
value N broadcast = N.iff_broadcast
value N debug = N.iff_debug
value N loopback = N.iff_loopback
value N pointopoint = N.iff_pointopoint
value N knowsepoch = N.iff_knowsepoch
value N drv_running = N.iff_drv_running
value N noarp = N.iff_noarp
value N promisc = N.iff_promisc
value N allmulti = N.iff_allmulti
value N drv_oactive = N.iff_drv_oactive
value N simplex = N.iff_simplex
value N link0 = N.iff_link0
value N link1 = N.iff_link1
value N link2 = N.iff_link2
value N altphys = N.iff_altphys
value N multicast = N.iff_multicast
value N cantconfig = N.iff_cantconfig
value N ppromisc = N.iff_ppromisc
value N monitor = N.iff_monitor
value N staticarp = N.iff_staticarp
value N dying = N.iff_dying
value N renaming = N.iff_renaming
value N nogroup = N.iff_nogroup

-- The union of `struct ifreq`, by the member that was written last.
pub data Ifru : Type 0 where
  addr : ℕ → Ifru
  flags : ℕ → ℕ → Ifru

pub record Ifreq : Type 0 where
  pub ifr_name : Bytes
  pub ifr_ifru : Ifru

-- A pointer at `ifr.ifr_name` of the interface at a place of the array at an address.
pub record NamePtr : Type 0 where
  pub block : ℕ
  pub index : ℕ

-- `iface_t`
pub record Iface : Type 0 where
  pub name : NamePtr
  pub kind : IfaceKind
  pub dgram_sock : ℤ
  pub ifr : Ifreq

-- The array of interfaces: its address and its elements.
pub record Ifaces : Type 0 where
  pub block : ℕ
  pub elems : List Iface

-- The process: the static `error_str`, what it has printed, and the kernel.
pub record Process (N : Net) : Type 0 where
  pub error_str : Option Bytes
  pub stdout : List Bytes
  pub stderr : List Bytes
  pub kernel : N.Kernel
