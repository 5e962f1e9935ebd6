-- ===== src/Iface/Listing.antt =====
-- What `iface_list` makes of the system's entries: which interfaces, which sockets, and where the
-- names point.
pub mod Printing
use aquabsd_pkg_repo.Base.{
  ℕ, ◌≡◌, refl, sym, true, false, Option, none, some, List, [], ◌∷◌, ◌++◌, ◌==◌, if◌then◌else◌, pos,
  negsuc, ◌⊎◌, inl, inr, Bool-cases, Option-cases,
}
use mathlib.Core.Path.{subst}
use mathlib.Core.List.{append-nil, append_assoc}
use aquabsd_pkg_repo.Base.Bytes.{Bytes, codes, strncpy, format}
use aquabsd_pkg_repo.Base.Decimal.{decimal}
use aquabsd_pkg_repo.Base.Prog.{done, pure, ◌>>=◌, Returns}
use aquabsd_pkg_repo.Iface.{
  Reply, ok, failed, Net, Sockaddr, Ifaddrs, IfaceKind, Ifaces, Process, kind_of, note_unknown,
  close_all, new_iface, append_iface, add_iface, list_from,
}

-- The link-level entries, by name and kind.
unfoldable pub links : (N : Net) → List Ifaddrs → List (Bytes × IfaceKind)
links N [] = []
links N (ifa ∷ rest) = elim ifa.ifa_addr [
  | none ↦ links N rest
  | some sa ↦ elim (sa.family == N.af_link) [
    | false ↦ links N rest
    | true ↦ (strncpy ifa.ifa_name N.ifnamsiz, (kind_of N sa.sdl_type).0) ∷ links N rest
  ]
]

-- An entry that is not of a link is skipped.
abbrev Skipped : Net → Ifaddrs → Type 0
Skipped N ifa =
    (ifa.ifa_addr ≡ none)
    ⊎ ((sa : Sockaddr) × (ifa.ifa_addr ≡ some sa) × ((sa.family == N.af_link) ≡ false))

abbrev Linked : Net → Ifaddrs → Type 0
Linked N ifa = (sa : Sockaddr) × (ifa.ifa_addr ≡ some sa) × ((sa.family == N.af_link) ≡ true)

entry_cases : (N : Net) (ifa : Ifaddrs) → Skipped N ifa ⊎ Linked N ifa
entry_cases N ifa = elim (Option-cases ifa.ifa_addr) [
  | inl e ↦ inl (inl e)
  | inr (sa, e) ↦ elim (Bool-cases (sa.family == N.af_link)) [
    | inl t ↦ inr (sa, e, t)
    | inr f ↦ inl (inr (sa, e, f))
  ]
]

module _ (N : Net) (ifa : Ifaddrs) (rest : List Ifaddrs) where
  links-Skipped : Skipped N ifa → links N (ifa ∷ rest) ≡ links N rest
  unfolding links
  links-Skipped (inl e) = rw e
  links-Skipped (inr (sa, e, f)) = rw (e, f)

  list_from-Skipped :
      (arr : Ifaces) (s : Process N)
      → Skipped N ifa
      → list_from N (ifa ∷ rest) arr s ≡ list_from N rest arr s
  unfolding list_from
  list_from-Skipped arr s (inl e) = rw e
  list_from-Skipped arr s (inr (sa, e, f)) = rw (e, f)

  links_linked :
      (sa : Sockaddr)
      → ifa.ifa_addr ≡ some sa
      → (sa.family == N.af_link) ≡ true
      → links N (ifa ∷ rest)
        ≡ (strncpy ifa.ifa_name N.ifnamsiz, (kind_of N sa.sdl_type).0) ∷ links N rest
  unfolding links
  links_linked sa e t = rw (e, t)

  -- The state once an unknown type has been noted.
  noted : Sockaddr → Process N → Process N
  noted sa s = record s {
    stderr =
        s.stderr
        ++ (if (kind_of N sa.sdl_type).1
            then []
            else format (codes "TODO iface_list: unknown interface type for %s: %d")
                (ifa.ifa_name ∷ decimal sa.sdl_type ∷ [])
              ∷ []);
  }

  list_from_linked :
      (sa : Sockaddr) (arr : Ifaces) (s : Process N)
      → ifa.ifa_addr ≡ some sa
      → (sa.family == N.af_link) ≡ true
      → list_from N (ifa ∷ rest) arr s
        ≡ (add_iface N ifa.ifa_name (kind_of N sa.sdl_type).0 arr >>= λ added. elim added [
          | none ↦ pure none
          | some more ↦ list_from N rest more
        ])
            (noted sa s)
  unfolding list_from note_unknown noted
  list_from_linked sa arr s e t = rw (e, t) refl

  add_iface_opened :
      (kind : IfaceKind) (arr : Ifaces) (s : Process N) (fd : ℕ) (k' : N.Kernel)
      → N.socket N.af_inet s.kernel ≡ (ok fd, k')
      → add_iface N ifa.ifa_name kind arr s
        ≡ done
            (some (append_iface N arr (new_iface N ifa.ifa_name kind arr) (pos fd)))
            (record s { kernel = k' })
  unfolding add_iface
  add_iface_opened kind arr s fd k' e = rw e refl

  add_iface_refused :
      (kind : IfaceKind) (arr : Ifaces) (s : Process N) (e : ℕ) (k' : N.Kernel)
      → N.socket N.af_inet s.kernel ≡ (failed e, k')
      → add_iface N ifa.ifa_name kind arr s
        ≡ done none (record s {
          error_str = some (
              format
                (codes "failed to create datagram socket for interface: %s")
                (N.strerror e ∷ []));
          kernel =
              close_all N
                (append_iface N arr (new_iface N ifa.ifa_name kind arr) (negsuc 0)).elems
                k';
        })
  unfolding add_iface
  add_iface_refused kind arr s e k' h = rw h refl

-- What `list_from` ends with: an error string with its message and `F`, or an array with `I`.
abbrev pub Listed :
    (N : Net)
    → (List (Bytes × IfaceKind) → Ifaces → N.Kernel → Type 0)
    → (Bytes → N.Kernel → Type 0)
    → List (Bytes × IfaceKind)
    → Option Ifaces
    → Process N
    → Type 0
Listed N I F ls none s = (message : Bytes) × (s.error_str ≡ some message) × F message s.kernel
Listed N I F ls (some arr) s = I ls arr s.kernel

-- The rule of the loop: `I` holds of the links seen so far, the array and the kernel; each socket
-- that opens keeps it, and a socket that does not open leads to `F`.
module _ (N : Net) (I : List (Bytes × IfaceKind) → Ifaces → N.Kernel → Type 0)
    (F : Bytes → N.Kernel → Type 0)
    (grow : (ls : List (Bytes × IfaceKind)) (arr : Ifaces) (k k' : N.Kernel) (name : Bytes)
        (kind : IfaceKind) (fd : ℕ)
      → I ls arr k
      → N.socket N.af_inet k ≡ (ok fd, k')
      → I
          (ls ++ ((strncpy name N.ifnamsiz, kind) ∷ []))
          (append_iface N arr (new_iface N name kind arr) (pos fd))
          k')
    (stop : (ls : List (Bytes × IfaceKind)) (arr : Ifaces) (k k' : N.Kernel) (name : Bytes)
        (kind : IfaceKind) (e : ℕ)
      → I ls arr k
      → N.socket N.af_inet k ≡ (failed e, k')
      → F
          (format (codes "failed to create datagram socket for interface: %s") (N.strerror e ∷ []))
          (close_all N (append_iface N arr (new_iface N name kind arr) (negsuc 0)).elems k')) where
  -- One link: the loop goes on with a longer array, or stops.
  list_from_step :
      (ifa : Ifaddrs) (rest : List Ifaddrs) (kind : IfaceKind) (ls : List (Bytes × IfaceKind))
      (arr : Ifaces) (s : Process N) (r : Reply ℕ × N.Kernel)
      → N.socket N.af_inet s.kernel ≡ r
      → I ls arr s.kernel
      → ((arr' : Ifaces) (s' : Process N)
          → I (ls ++ ((strncpy ifa.ifa_name N.ifnamsiz, kind) ∷ [])) arr' s'.kernel
          → Returns
              (Listed N I F
                ((ls ++ ((strncpy ifa.ifa_name N.ifnamsiz, kind) ∷ [])) ++ links N rest))
              (list_from N rest arr' s'))
      → Returns (Listed N I F (ls ++ ((strncpy ifa.ifa_name N.ifnamsiz, kind) ∷ links N rest))) (
          (add_iface N ifa.ifa_name kind arr >>= λ added. elim added [
            | none ↦ pure none
            | some more ↦ list_from N rest more
          ])
            s)
  list_from_step ifa rest kind ls arr s (ok fd, k') e h more =
      let arr' = append_iface N arr (new_iface N ifa.ifa_name kind arr) (pos fd) in
      let s' : Process N = record s { kernel = k' } in
      rw (add_iface_opened N ifa rest kind arr s fd k' e, ◌>>=◌)
        (subst (λ ls'. Returns (Listed N I F ls') (list_from N rest arr' s'))
          (append_assoc ls ((strncpy ifa.ifa_name N.ifnamsiz, kind) ∷ []) (links N rest))
          (more arr' s' (grow ls arr s.kernel k' ifa.ifa_name kind fd h e)))
  list_from_step ifa rest kind ls arr s (failed n, k') e h more =
      rw (add_iface_refused N ifa rest kind arr s n k' e, ◌>>=◌)
        (_, refl, stop ls arr s.kernel k' ifa.ifa_name kind n h e)

  pub list_from_inv :
      (entries : List Ifaddrs) (ls : List (Bytes × IfaceKind)) (arr : Ifaces) (s : Process N)
      → I ls arr s.kernel
      → Returns (Listed N I F (ls ++ links N entries)) (list_from N entries arr s)
  unfolding list_from links noted
  list_from_inv [] ls arr s h = subst (λ x. I x arr s.kernel) (sym (append-nil ls)) h
  list_from_inv (ifa ∷ rest) ls arr s h = elim (entry_cases N ifa) [
    | inl skip ↦
        rw (links-Skipped N ifa rest skip, list_from-Skipped N ifa rest arr s skip)
          (list_from_inv rest ls arr s h)
    | inr (sa, e, t) ↦
        rw (links_linked N ifa rest sa e t, list_from_linked N ifa rest sa arr s e t)
          (list_from_step ifa rest (kind_of N sa.sdl_type).0 ls arr (noted N ifa rest sa s)
            (N.socket N.af_inet s.kernel) refl h
            (list_from_inv rest
              (ls ++ ((strncpy ifa.ifa_name N.ifnamsiz, (kind_of N sa.sdl_type).0) ∷ []))))
  ]
