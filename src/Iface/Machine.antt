-- ===== src/Iface/Machine.antt =====
-- A kernel with two links and two free descriptors, which keeps what the system documents.
use aquabsd_pkg_repo.Base.{
  ℕ, ◌+◌, ◌%◌, ◌^◌, ◌≡◌, refl, sym, ap, ◌∙◌, Bool, true, false, none, some, List, [], ◌∷◌,
  if◌then◌else◌, ◌==◌, ◌||◌, ℤ, pos, negsuc, arith, Bool-cases, inl, inr, ◌⊎◌, not, bit_and, bit_or,
}
use aquabsd_pkg_repo.Base.Bits.{
  bit, bit-lt, bit-mod, bit-bit_or, bit-bit_and, bit-pow, bit-zero, bit-complement, complement,
}
use aquabsd_pkg_repo.Base.Bytes.{Bytes, codes}
use aquabsd_pkg_repo.Iface.{Reply, ok, failed, Net, Ifaddrs, Iface, Process, eth, addr}
use aquabsd_pkg_repo.Iface.Flags.{IsLawful}
use aquabsd_pkg_repo.Iface.Sockets.{HasDescriptors}

-- Which descriptors are open, and the flags of the links.
pub record Machine : Type 0 where
  pub open_fds : ℕ → Bool
  pub low : ℕ
  pub high : ℕ

abbrev pub open_one : ℕ → Machine → Machine
open_one fd k = record k { open_fds = λ n. n == fd || k.open_fds n }

abbrev new_socket : Machine → Reply ℕ × Machine
new_socket k =
    if k.open_fds 3
    then (if k.open_fds 4 then (failed 24, k) else (ok 4, open_one 4 k))
    else (ok 3, open_one 3 k)

abbrev close_one : ℤ → Machine → Machine
close_one (pos fd) k = record k { open_fds = λ n. if n == fd then false else k.open_fds n }
close_one (negsuc n) k = k

abbrev pub entries : List Ifaddrs
entries =
    record { ifa_name = codes "em0"; ifa_addr = some (record { family = 18; sdl_type = 6 }) }
    ∷ record { ifa_name = codes "em0"; ifa_addr = some (record { family = 2; sdl_type = 0 }) }
    ∷ record { ifa_name = codes "tun0"; ifa_addr = none }
    ∷ record { ifa_name = codes "lo0"; ifa_addr = some (record { family = 18; sdl_type = 24 }) }
    ∷ []

-- The system, by where `realloc` puts an array.
abbrev pub net : (ℕ → ℕ) → Net
net realloc = record {
  Kernel = Machine;
  getifaddrs = λ k. ok entries;
  socket = λ domain k. new_socket k;
  close = close_one;
  ioctl_get = λ sock name k. ok (k.low % 2 ^ 16, k.high);
  ioctl_set = λ sock name f k. ok (record k { low = f.0; high = f.1 });
  strerror = λ errno. codes "error";
  getprogname = codes "iface";
  realloc = realloc;
  af_link = 18;
  af_inet = 2;
  ift_loop = 24;
  ift_usb = 160;
  ift_ether = 6;
  ifnamsiz = 16;
  iff_up = 0x1;
  iff_broadcast = 0x2;
  iff_debug = 0x4;
  iff_loopback = 0x8;
  iff_pointopoint = 0x10;
  iff_knowsepoch = 0x20;
  iff_drv_running = 0x40;
  iff_noarp = 0x80;
  iff_promisc = 0x100;
  iff_allmulti = 0x200;
  iff_drv_oactive = 0x400;
  iff_simplex = 0x800;
  iff_link0 = 0x1000;
  iff_link1 = 0x2000;
  iff_link2 = 0x4000;
  iff_altphys = 0x4000;
  iff_multicast = 0x8000;
  iff_cantconfig = 0x10000;
  iff_ppromisc = 0x20000;
  iff_monitor = 0x40000;
  iff_staticarp = 0x80000;
  iff_dying = 0x200000;
  iff_renaming = 0x400000;
  iff_nogroup = 0x800000;
}

abbrev pub still : Net
still = net (λ n. 4096)

abbrev pub moving : Net
moving = net (λ n. 4096 + n)

abbrev pub machine : Machine
machine = record { open_fds = λ n. n == 0 || (n == 1 || n == 2); low = 0x8843; high = 0 }

abbrev pub start : (realloc : ℕ → ℕ) → Process (net realloc)
start realloc = record { error_str = none; stdout = []; stderr = []; kernel = machine }

abbrev pub is_open : Machine → ℕ → Bool
is_open k n = k.open_fds n

abbrev pub ok_or : {A : Type 0} → A → Reply A → A
ok_or d (ok a) = a
ok_or d (failed e) = d

-- What `new_socket` answers.
abbrev Opens : ℕ → Machine → Reply ℕ × Machine → Type 0
Opens n k r = (k.open_fds n ≡ false) × (r ≡ (ok n, open_one n k))

new_socket-cases :
    (k : Machine)
    → (Opens 3 k (new_socket k) ⊎ Opens 4 k (new_socket k)) ⊎ (new_socket k ≡ (failed 24, k))
new_socket-cases k = elim (Bool-cases (k.open_fds 3)) [
  | inr closed ↦ inl (inl (closed, rw closed refl))
  | inl opened ↦ elim (Bool-cases (k.open_fds 4)) [
    | inr closed ↦ inl (inr (closed, rw (opened, closed) refl))
    | inl opened' ↦ inr (rw (opened, opened') refl)
  ]
]

Opens-one :
    (n₀ : ℕ) (k k' : Machine) (fd : ℕ)
    → Opens n₀ k (ok fd, k')
    → (is_open k fd ≡ false) × ((n : ℕ) → is_open k' n ≡ (n == fd || is_open k n))
Opens-one n₀ k k' fd (closed, e) =
    let number : fd ≡ n₀ = ap (λ r. ok_or 0 r.0) e in
    let kernel : k' ≡ open_one n₀ k = ap (λ r. r.1) e in
    (
      ap k.open_fds number ∙ closed,
      λ n. ap (λ m. is_open m n) kernel ∙ ap (λ j. n == j || k.open_fds n) (sym number),
    )

opens_two :
    (k k' : Machine) (fd : ℕ)
    → new_socket k ≡ (ok fd, k')
    → (is_open k fd ≡ false) × ((n : ℕ) → is_open k' n ≡ (n == fd || is_open k n))
opens_two k k' fd e = elim (new_socket-cases k) [
  | inl (inl (closed, f)) ↦ Opens-one 3 k k' fd (closed, sym e ∙ f)
  | inl (inr (closed, f)) ↦ Opens-one 4 k k' fd (closed, sym e ∙ f)
  | inr f ↦ absurd (cc (ap (λ r. r.0) (sym e ∙ f)))
]

opens_none : (k k' : Machine) (e n : ℕ) → new_socket k ≡ (failed e, k') → is_open k' n ≡ is_open k n
opens_none k k' e n r = elim (new_socket-cases k) [
  | inl (inl (closed, f)) ↦ absurd (cc (ap (λ r. r.0) (sym r ∙ f)))
  | inl (inr (closed, f)) ↦ absurd (cc (ap (λ r. r.0) (sym r ∙ f)))
  | inr f ↦ ap (λ r. is_open r.1 n) (sym r ∙ f)
]

-- The same system with a driver: it sets IFF_DRV_RUNNING, which nobody else may change, just while
-- the interface is up.
abbrev pub driver_flag : ℕ → ℕ
driver_flag f = if f % 2 == 1 then 2 ^ 6 else 0

abbrev pub driven : Net
driven = record still {
  ioctl_set = λ sock name f k. ok (record k {
    low = bit_or (bit_and f.0 (complement 16 (2 ^ 6))) (driver_flag f.0);
    high = f.1;
  });
}

abbrev pub is_free : ℕ → Bool
is_free b = not (b == 6)

bit-driver_flag : (b f : ℕ) → is_free b ≡ true → bit b (driver_flag f) ≡ 0
bit-driver_flag b f free = ground (arith, bit-pow b 6, bit-zero b)

pub driven-IsLawful : IsLawful driven is_free
driven-IsLawful = record {
  get_after_set = λ sock name low high f h k k' got set.
      let written = bit_or (bit_and f (complement 16 (2 ^ 6))) (driver_flag f) in
      (
        written % 2 ^ 16,
        h,
        ap (λ m. ok (m.low % 2 ^ 16, m.high)) (sym (ap (ok_or k) set)),
        omega arith,
        λ b small free.
            bit-mod 16 b written small
            ∙ bit-bit_or b (bit_and f (complement 16 (2 ^ 6))) (driver_flag f)
            ∙ ground (
              arith,
              bit-bit_and b f (complement 16 (2 ^ 6)),
              bit-complement 16 b (2 ^ 6) small (omega arith),
              bit-pow b 6,
              bit-driver_flag b f free,
              bit-lt b f,
            ),
      );
}

pub still-HasDescriptors : HasDescriptors still is_open
still-HasDescriptors = record {
  opens = λ k k' fd e. opens_two k k' fd e;
  refuses = λ k k' e r n. opens_none k k' e n r;
  closes = λ k fd n. refl;
  ignores = λ k m n. refl;
}

abbrev pub em0 : Iface
em0 = record {
  name = record { block = 4096; index = 0 };
  kind = eth;
  dgram_sock = pos 3;
  ifr = record { ifr_name = codes "em0"; ifr_ifru = addr 2 };
}

pub still-Keeps :
    (sock : ℤ) (name : Bytes) (f : ℕ × ℕ) (k k' : Machine) (n : ℕ)
    → still.ioctl_set sock name f k ≡ ok k'
    → is_open k' n ≡ is_open k n
still-Keeps sock name f k k' n set = ap (λ r. is_open (ok_or k r) n) (sym set)
