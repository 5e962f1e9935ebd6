-- ===== src/Iface/Names.antt =====
-- What `iface_list` returns: the link-level interfaces, and where their names point.
use aquabsd_pkg_repo.Base.{
  ℕ, zero, suc, ◌≡◌, refl, ◌∙◌, ap, false, Option, none, some, List, [], ◌∷◌, ◌++◌, arith, ◌==◌,
  if◌then◌else◌, ℤ, pos, inl, inr, map, length, length-append, get_elem?, get_elem?-append_one,
}
use mathlib.Core.List.{map-append}
use native.Mathlib.Numerals.{add-one}
use aquabsd_pkg_repo.Base.Bytes.{Bytes, strncpy}
use aquabsd_pkg_repo.Base.Prog.{Returns, Returns-mono}
use aquabsd_pkg_repo.Iface.{
  ok, Net, Ifaddrs, IfaceKind, Iface, Ifaces, Process, new_iface, append_iface, list_from,
  iface_list, read_name, string_in,
}
use aquabsd_pkg_repo.Iface.Listing.{links, Listed, list_from_inv}

-- An interface by name and kind.
abbrev pub summary : Iface → Bytes × IfaceKind
summary iface = (iface.ifr.ifr_name, iface.kind)

-- Where `realloc` has put an array of some length.
abbrev pub block_of : Net → ℕ → ℕ
block_of N zero = 0
block_of N (suc n) = N.realloc (suc n)

-- The array holds these links in order, each named by a pointer into the array as it was when the
-- interface was added.
pub record Holds (N : Net) (ls : List (Bytes × IfaceKind)) (arr : Ifaces) : Type 0 where
  pub summaries : map summary arr.elems ≡ ls
  pub placed : arr.block ≡ block_of N (length arr.elems)
  pub named :
      (i : ℕ) (iface : Iface)
      → get_elem? arr.elems i ≡ some iface
      → iface.name ≡ record { block = N.realloc (suc i); index = i }

module _ (N : Net) where
  Holds-append_iface :
      (ls : List (Bytes × IfaceKind)) (arr : Ifaces) (name : Bytes) (kind : IfaceKind) (sock : ℤ)
      → Holds N ls arr
      → Holds N
          (ls ++ ((strncpy name N.ifnamsiz, kind) ∷ []))
          (append_iface N arr (new_iface N name kind arr) sock)
  unfolding append_iface new_iface
  Holds-append_iface ls arr name kind sock h = record {
    summaries = rw (map-append, h.summaries);
    placed = rw (length-append, add-one);
    named = λ i iface e. elim (get_elem?-append_one arr.elems _ i iface e) [
      | inl old ↦ h.named i iface old
      | inr (here, new) ↦ ap (λ (z : Iface). z.name) new ∙ rw (here, add-one)
    ];
  }

  -- What a call of `iface_list` ends with, when the system's entries are these.
  abbrev pub Listing : List Ifaddrs → Option Ifaces → Process N → Type 0
  Listing entries none s = (message : Bytes) × (s.error_str ≡ some message)
  Listing entries (some arr) s = Holds N (links N entries) arr

  list_from-Listing :
      (entries : List Ifaddrs) (s : Process N)
      → Returns (Listing entries) (list_from N entries (record { block = 0; elems = [] }) s)
  list_from-Listing entries s =
      Returns-mono (Listed N (λ ls arr k. Holds N ls arr) (λ m k. Unit {0}) (links N entries))
        (Listing entries) _ keep
        (list_from_inv N (λ ls arr k. Holds N ls arr) (λ m k. Unit {0})
          (λ ls arr k k' name kind fd h e. Holds-append_iface ls arr name kind (pos fd) h)
          (λ ls arr k k' name kind n h e. tt) entries [] (record { block = 0; elems = [] }) s
          (record { summaries = refl; placed = refl; named = λ i iface e. absurd (cc) }))
    where
      keep :
          (r : Option Ifaces) (t : Process N)
          → Listed N (λ ls arr k. Holds N ls arr) (λ m k. Unit {0}) (links N entries) r t
          → Listing entries r t
      keep none t (m, e, u) = (m, e)
      keep (some arr) t h = h

  pub iface_list-Listing :
      (entries : List Ifaddrs) (s : Process N)
      → N.getifaddrs s.kernel ≡ ok entries
      → Returns (Listing entries) (iface_list N false false s)
  unfolding iface_list
  iface_list-Listing entries s e = rw e (list_from-Listing entries s)

  -- What a name pointer of a returned array reads.
  abbrev pub ReadsName : Option Ifaces → Process N → Type 0
  ReadsName none s = Unit
  ReadsName (some arr) s =
      (i : ℕ) (iface : Iface)
      → get_elem? arr.elems i ≡ some iface
      → read_name N arr iface ≡ (
          if N.realloc (suc i) == N.realloc (length arr.elems)
          then string_in N iface.ifr.ifr_name
          else none)

  block_of_nonempty :
      (xs : List Iface) (i : ℕ) (x : Iface)
      → get_elem? xs i ≡ some x
      → block_of N (length xs) ≡ N.realloc (length xs)
  block_of_nonempty [] i x h = absurd (cc)
  block_of_nonempty (y ∷ xs) i x h = refl

  pub Holds-ReadsName :
      (ls : List (Bytes × IfaceKind)) (arr : Ifaces) (s : Process N)
      → Holds N ls arr
      → ReadsName (some arr) s
  unfolding read_name
  Holds-ReadsName ls arr s h i iface at =
      ground (arith, h.named i iface at, h.placed, block_of_nonempty arr.elems i iface at)

  -- Where getifaddrs succeeds, the name pointer of an interface of the array that iface_list returns
  -- points at freed memory just if `realloc` has put the array of the size with that interface last
  -- at another address than the array of the final size; otherwise it reads that interface's own
  -- name if the name is shorter than its buffer, and is no string if the name fills the buffer.
  pub iface_list-read_name :
      (entries : List Ifaddrs) (s : Process N)
      → N.getifaddrs s.kernel ≡ ok entries
      → Returns ReadsName (iface_list N false false s)
  iface_list-read_name entries s e =
      Returns-mono (Listing entries) ReadsName _ keep (iface_list-Listing entries s e)
    where
      keep : (r : Option Ifaces) (t : Process N) → Listing entries r t → ReadsName r t
      keep none t h = tt
      keep (some arr) t h = Holds-ReadsName (links N entries) arr t h
