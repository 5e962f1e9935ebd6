-- ===== src/Iface/Sockets.antt =====
-- The sockets that `iface_list` opens: one for each interface that it returns, and none left open
-- when it fails.
use aquabsd_pkg_repo.Base.{
  ℕ, ◌≡◌, refl, Bool, true, false, Option, none, some, List, [], ◌∷◌, ◌++◌, arith, ◌==◌,
  if◌then◌else◌, ℤ, pos, negsuc, ◌||◌,
}
use aquabsd_pkg_repo.Base.Bytes.{Bytes}
use aquabsd_pkg_repo.Base.Prog.{Returns, Returns-mono}
use aquabsd_pkg_repo.Iface.{
  ok, failed, Net, Ifaddrs, IfaceKind, Iface, Ifaces, Process, new_iface, append_iface, close_all,
  iface_list, iface_free,
}
use aquabsd_pkg_repo.Iface.Listing.{links, Listed, list_from_inv}

-- What the system documents of descriptors: `socket` gives one that was not open, a call that
-- fails opens none, and `close` closes the one that it names.
pub record HasDescriptors (N : Net) (is_open : N.Kernel → ℕ → Bool) : Type 0 where
  pub opens :
      (k k' : N.Kernel) (fd : ℕ)
      → N.socket N.af_inet k ≡ (ok fd, k')
      → (is_open k fd ≡ false) × ((n : ℕ) → is_open k' n ≡ (n == fd || is_open k n))
  pub refuses :
      (k k' : N.Kernel) (e : ℕ)
      → N.socket N.af_inet k ≡ (failed e, k')
      → (n : ℕ) → is_open k' n ≡ is_open k n
  pub closes :
      (k : N.Kernel) (fd n : ℕ)
      → is_open (N.close (pos fd) k) n ≡ (if n == fd then false else is_open k n)
  pub ignores : (k : N.Kernel) (m n : ℕ) → is_open (N.close (negsuc m) k) n ≡ is_open k n

-- Whether a descriptor is the socket of an interface of the list.
abbrev pub owns : List Iface → ℕ → Bool
owns [] n = false
owns (iface ∷ rest) n = elim iface.dgram_sock [
  | pos fd ↦ n == fd || owns rest n
  | negsuc m ↦ owns rest n
]

owns-append_one :
    (xs : List Iface) (y : Iface) (n : ℕ) → owns (xs ++ (y ∷ [])) n ≡ (owns xs n || owns (y ∷ []) n)
owns-append_one [] y n = refl
owns-append_one (x ∷ xs) y n = ground (arith, owns-append_one xs y n)

module _ (N : Net) (is_open : N.Kernel → ℕ → Bool) (D : HasDescriptors N is_open) where
  -- No interface has descriptor zero, which `iface_free` would leave open.
  is_open-close_all :
      (xs : List Iface) (k : N.Kernel) (n : ℕ)
      → owns xs 0 ≡ false
      → is_open (close_all N xs k) n ≡ (if owns xs n then false else is_open k n)
  unfolding close_all
  is_open-close_all [] k n h = refl
  is_open-close_all (x ∷ xs) k n h = first (λ k' e. is_open-close_all xs k' n e) x.dgram_sock refl
    where
      first :
          ((k' : N.Kernel)
            → owns xs 0 ≡ false
            → is_open (close_all N xs k') n ≡ (if owns xs n then false else is_open k' n))
          → (sock : ℤ) → x.dgram_sock ≡ sock
          → is_open (close_all N (x ∷ xs) k) n ≡ (if owns (x ∷ xs) n then false else is_open k n)
      first ih (pos fd) e =
          let none_zero : (0 == fd || owns xs 0) ≡ false = rw e at h in
          let nonzero : (fd == 0) ≡ false = ground arith in
          rw (e, nonzero) (ground (arith, ih (N.close (pos fd) k) (ground arith), D.closes k fd n))
      first ih (negsuc m) e =
          let none_zero : owns xs 0 ≡ false = rw e at h in
          rw e (ground (arith, ih (N.close (negsuc m) k) none_zero, D.ignores k m n))

  -- The open descriptors are those from before and the sockets of the array, which are new.
  record Opened (k₀ : N.Kernel) (arr : Ifaces) (k : N.Kernel) : Type 0 where
    opened : (n : ℕ) → is_open k n ≡ (owns arr.elems n || is_open k₀ n)
    fresh : (n : ℕ) → owns arr.elems n ≡ true → is_open k₀ n ≡ false

  Opened-grow :
      (k₀ : N.Kernel) (arr : Ifaces) (k k' : N.Kernel) (name : Bytes) (kind : IfaceKind) (fd : ℕ)
      → Opened k₀ arr k
      → N.socket N.af_inet k ≡ (ok fd, k')
      → Opened k₀ (append_iface N arr (new_iface N name kind arr) (pos fd)) k'
  unfolding append_iface new_iface
  Opened-grow k₀ arr k k' name kind fd h e =
      let (new, others) = D.opens k k' fd e in
      record {
        opened = λ n. rw (others n, owns-append_one) (ground (arith, h.opened n));
        fresh = λ n o. ground (
          arith,
          h.opened n,
          h.opened fd,
          h.fresh n,
          new,
          owns-append_one arr.elems (record (new_iface N name kind arr) { dgram_sock = pos fd }) n,
        );
      }

  Opened-stop :
      (k₀ : N.Kernel) (arr : Ifaces) (k k' : N.Kernel) (name : Bytes) (kind : IfaceKind) (e : ℕ)
      → is_open k₀ 0 ≡ true
      → Opened k₀ arr k
      → N.socket N.af_inet k ≡ (failed e, k')
      → (n : ℕ)
      → is_open (close_all N (append_iface N arr (new_iface N name kind arr) (negsuc 0)).elems k') n
        ≡ is_open k₀ n
  unfolding append_iface new_iface
  Opened-stop k₀ arr k k' name kind e zero_open h refused n =
      let last : Iface = record (new_iface N name kind arr) { dgram_sock = negsuc 0 } in
      ground (
        arith,
        is_open-close_all (arr.elems ++ (last ∷ [])) k' n
            (ground (arith, zero_open, owns-append_one arr.elems last 0, h.fresh 0)),
        owns-append_one arr.elems last n,
        h.opened n,
        h.fresh n,
        D.refuses k k' e refused n,
      )

  -- What a call that began at this kernel ends with.
  abbrev pub Sockets : N.Kernel → Option Ifaces → Process N → Type 0
  Sockets k₀ none s = (n : ℕ) → is_open s.kernel n ≡ is_open k₀ n
  Sockets k₀ (some arr) s =
      ((n : ℕ) → is_open s.kernel n ≡ (owns arr.elems n || is_open k₀ n))
      × ((n : ℕ) → owns arr.elems n ≡ true → is_open k₀ n ≡ false)

  -- On a system whose descriptors behave as documented, with descriptor zero open and getifaddrs
  -- succeeding: iface_list returns, and where it fails, the descriptors that are open are those
  -- from before; where it succeeds, they are those from before and the sockets of the interfaces
  -- that it returns, none of which was open before.
  pub iface_list-Sockets :
      (entries : List Ifaddrs) (s : Process N)
      → is_open s.kernel 0 ≡ true
      → N.getifaddrs s.kernel ≡ ok entries
      → Returns (Sockets s.kernel) (iface_list N false false s)
  unfolding iface_list
  iface_list-Sockets entries s z e = rw e (
      Returns-mono (Listed N I F (links N entries)) (Sockets s.kernel) _ keep (
        list_from_inv N I F
          (λ ls arr k k' name kind fd h e'. Opened-grow s.kernel arr k k' name kind fd h e')
          (λ ls arr k k' name kind n h e'. Opened-stop s.kernel arr k k' name kind n z h e') entries
          [] (record { block = 0; elems = [] }) s
          (record { opened = λ n. refl; fresh = λ n o. absurd (cc) })))
    where
      I : List (Bytes × IfaceKind) → Ifaces → N.Kernel → Type 0
      I ls arr k = Opened s.kernel arr k

      F : Bytes → N.Kernel → Type 0
      F m k = (n : ℕ) → is_open k n ≡ is_open s.kernel n

      keep :
          (r : Option Ifaces) (t : Process N)
          → Listed N I F (links N entries) r t
          → Sockets s.kernel r t
      keep none t (m, u, h) = h
      keep (some arr) t h = (h.opened, h.fresh)

  -- On a system whose descriptors behave as documented, with descriptor zero open before, and a
  -- list whose sockets are new and the only ones opened since: after iface_free a descriptor is
  -- open just if it was before.
  pub iface_free-iface_list :
      (k₀ : N.Kernel) (arr : Ifaces) (s : Process N) (n : ℕ)
      → is_open k₀ 0 ≡ true
      → Sockets k₀ (some arr) s
      → Returns (λ u t. is_open t.kernel n ≡ is_open k₀ n) (iface_free N arr s)
  unfolding iface_free
  iface_free-iface_list k₀ arr s n z (opened, fresh) =
      ground
        (arith, is_open-close_all arr.elems s.kernel n (ground (arith, fresh 0)), opened n, fresh n)
