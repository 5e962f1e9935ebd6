-- ===== src/IfaceTool/Printed.antt =====
-- iface without arguments: the list of the interfaces, from the entries of the system to the lines
-- that are printed.
use aquabsd_pkg_repo.Base.{ℕ, ◌≡◌, List, [], ◌∷◌, ◌++◌, ◌==◌, if◌then◌else◌, map, bit_and, ℤ}
use aquabsd_pkg_repo.Base.Bytes.{Bytes, codes}
use aquabsd_pkg_repo.Iface.{ok, Net, Ifaddrs, IfaceKind, Iface, Process, up, value, u32_of_short}
use aquabsd_pkg_repo.Iface.Listing.{links}
use aquabsd_pkg_repo.Iface.Names.{Listing}
use aquabsd_pkg_repo.IfaceTool.Parsing.{Reported}

module _ (N : Net) (flags_of : Bytes → ℕ) where
  -- The kernel gives the low half of the flags of an interface by its name, on every socket.
  abbrev pub Answers : Bytes × IfaceKind → Type 0
  Answers link =
      (sock : ℤ) (k : N.Kernel)
      → (high : ℕ) × (N.ioctl_get sock link.0 k ≡ ok (flags_of link.0, high))

  -- The line of an interface: its name, an address that is always the same, and its state.
  abbrev pub link_line : Bytes × IfaceKind → Bytes
  link_line link =
      link.0
      ++ (9 ∷ codes "127.0.0.1")
      ++ (9
          ∷ (if bit_and (u32_of_short (flags_of link.0)) (value N up) == 0
              then codes "down"
              else codes "up"))
      ++ (10 ∷ [])

  -- The lines of the entries are printed, and main returns 0.
  abbrev pub Lines : List Ifaddrs → Process N → ℕ → Process N → Type 0
  Lines entries s code t = (code ≡ 0) × (t.stdout ≡ s.stdout ++ map link_line (links N entries))

  -- There is a message, and nothing has been printed.
  abbrev pub Refused : Process N → ℕ → Process N → Type 0
  Refused s code t = Reported N code t × (t.stdout ≡ s.stdout)
