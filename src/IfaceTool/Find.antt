-- ===== src/IfaceTool/Find.antt =====
-- `__find_iface` over the array of `iface_list`.
use mathlib.Core.Path.{subst}
use aquabsd_pkg_repo.Base.{
  ℕ, zero, suc, ◌+◌, ◌≡◌, ◌≢◌, refl, sym, ◌∙◌, ap, true, false, Option, none, some, List, [], ◌∷◌,
  arith, ◌==◌, if◌then◌else◌, ◌⊎◌, inl, inr, length, get_elem?, Bool-cases, All, map, ◌<◌,
}
use aquabsd_pkg_repo.Iface.{
  IfaceKind, string_in, Net, Iface, Ifaces, Process, read_name, Ifaddrs, ok, iface_list,
}
use aquabsd_pkg_repo.Iface.Names.{summary, Holds, Holds-ReadsName, Listing, iface_list-Listing}
use aquabsd_pkg_repo.Base.Bytes.{Bytes, codes, str_eq, str_eq_iff, format}
use aquabsd_pkg_repo.Base.Prog.{Outcome, done, fault, Returns}
use aquabsd_pkg_repo.Iface.Listing.{links}
use aquabsd_pkg_repo.IfaceTool.{errx, find_from}

-- Every name of the rest of the array can be read.
abbrev pub Readable : Net → Ifaces → List Iface → Type 0
Readable N arr [] = Unit
Readable N arr (iface ∷ rest) =
    (read_name N arr iface ≡ some iface.ifr.ifr_name) × Readable N arr rest

-- No interface of the list has the name.
abbrev pub Absent : Bytes → List Iface → Type 0
Absent name [] = Unit
Absent name (iface ∷ rest) = (iface.ifr.ifr_name ≢ name) × Absent name rest

-- The first interface of the list with the name is at the place.
abbrev pub FirstAt : Bytes → List Iface → ℕ → Type 0
FirstAt name [] i = ⊥
FirstAt name (iface ∷ rest) zero = iface.ifr.ifr_name ≡ name
FirstAt name (iface ∷ rest) (suc i) = (iface.ifr.ifr_name ≢ name) × FirstAt name rest i

module _ (N : Net) where
  -- The search returns the first interface with the name, or ends the process.
  abbrev pub Found : Bytes → List Iface → ℕ → Process N → Outcome (Process N) ℕ → Type 0
  Found name xs start s r =
      ((i : ℕ) × (r ≡ done (start + i) s) × FirstAt name xs i)
      ⊎ ((r ≡ errx N (format (codes "Couldn't find interface %s") (name ∷ [])) s) × Absent name xs)

  pub find_from-Found :
      (arr : Ifaces) (name : Bytes) (start : ℕ) (xs : List Iface) (s : Process N)
      → Readable N arr xs
      → Found name xs start s (find_from N arr name start xs s)
  unfolding find_from
  find_from-Found arr name start [] s h = inr (refl, tt)
  find_from-Found arr name start (x ∷ xs) s (r, h) =
      elim (Bool-cases (str_eq x.ifr.ifr_name name)) [
        | inl same ↦ inl (0, here same, (str_eq_iff _ _).0 same)
        | inr other ↦ later other (find_from-Found arr name (suc start) xs s h)
      ]
    where
      differs : str_eq x.ifr.ifr_name name ≡ false → x.ifr.ifr_name ≢ name
      differs other e = cc (other, (str_eq_iff x.ifr.ifr_name name).1 e)

      skip :
          str_eq x.ifr.ifr_name name ≡ false
          → find_from N arr name start (x ∷ xs) s ≡ find_from N arr name (suc start) xs s
      skip other = ground arith

      here :
          str_eq x.ifr.ifr_name name ≡ true
          → find_from N arr name start (x ∷ xs) s ≡ done (start + 0) s
      here same = ground arith

      later :
          str_eq x.ifr.ifr_name name ≡ false
          → Found name xs (suc start) s (find_from N arr name (suc start) xs s)
          → Found name (x ∷ xs) start s (find_from N arr name start (x ∷ xs) s)
      later other (inl (i, e, at)) =
          inl (suc i, skip other ∙ e ∙ ap (λ k. done k s) (omega arith), (differs other, at))
      later other (inr (e, absent)) = inr (skip other ∙ e, (differs other, absent))

  -- With the first interface's name in memory that has been freed, every search is undefined.
  pub find_from-fault :
      (arr : Ifaces) (name : Bytes) (start : ℕ) (x : Iface) (xs : List Iface) (s : Process N)
      → read_name N arr x ≡ none
      → find_from N arr name start (x ∷ xs) s ≡ fault
  unfolding find_from
  find_from-fault arr name start x xs s h = rw (h, find_from)

pub Readable-at :
    (N : Net) (arr : Ifaces) (xs : List Iface) (i : ℕ) (x : Iface)
    → Readable N arr xs
    → get_elem? xs i ≡ some x
    → read_name N arr x ≡ some x.ifr.ifr_name
Readable-at N arr [] i x h e = absurd (cc)
Readable-at N arr (y ∷ ys) zero x (r, h) e = cc
Readable-at N arr (y ∷ ys) (suc i) x (r, h) e = Readable-at N arr ys i x h e

-- The place of the first interface with a name is one of the list.
pub FirstAt-get_elem? :
    (name : Bytes) (xs : List Iface) (i : ℕ)
    → FirstAt name xs i
    → (x : Iface) × (get_elem? xs i ≡ some x)
FirstAt-get_elem? name [] i h = absurd h
FirstAt-get_elem? name (x ∷ xs) zero h = (x, refl)
FirstAt-get_elem? name (x ∷ xs) (suc i) (d, h) = FirstAt-get_elem? name xs i h

FirstAt-unique :
    (name : Bytes) (xs : List Iface) (i j : ℕ) → FirstAt name xs i → FirstAt name xs j → i ≡ j
FirstAt-unique name [] i j p q = absurd p
FirstAt-unique name (x ∷ xs) zero zero p q = refl
FirstAt-unique name (x ∷ xs) zero (suc j) p (d, q) = absurd (d p)
FirstAt-unique name (x ∷ xs) (suc i) zero (d, p) q = absurd (d q)
FirstAt-unique name (x ∷ xs) (suc i) (suc j) (d, p) (d', q) =
    ap suc (FirstAt-unique name xs i j p q)

FirstAt-Absent : (name : Bytes) (xs : List Iface) (i : ℕ) → FirstAt name xs i → Absent name xs → ⊥
FirstAt-Absent name [] i p a = p
FirstAt-Absent name (x ∷ xs) zero p (d, a) = d p
FirstAt-Absent name (x ∷ xs) (suc i) (d, p) (d', a) = FirstAt-Absent name xs i p a

-- The search ends at the first interface with the name.
pub find_from-FirstAt :
    (N : Net) (arr : Ifaces) (name : Bytes) (i : ℕ) (s : Process N)
    → Readable N arr arr.elems
    → FirstAt name arr.elems i
    → find_from N arr name 0 arr.elems s ≡ done i s
find_from-FirstAt N arr name i s h p = elim (find_from-Found N arr name 0 arr.elems s h) [
  | inl (j, e, q) ↦
      e ∙ ap (λ n. done n s) (let same = FirstAt-unique name arr.elems i j p q in omega arith)
  | inr (e, absent) ↦ absurd (FirstAt-Absent name arr.elems i p absent)
]

all-Readable :
    (N : Net) (arr : Ifaces) (xs : List Iface)
    → ((i : ℕ) (x : Iface) → get_elem? xs i ≡ some x → read_name N arr x ≡ some x.ifr.ifr_name)
    → Readable N arr xs
all-Readable N arr [] h = tt
all-Readable N arr (x ∷ xs) h = (h 0 x refl, all-Readable N arr xs (λ i y e. h (suc i) y e))

-- A name that is shorter than its buffer.
abbrev pub IsShort : Net → Bytes × IfaceKind → Type 0
IsShort N link = length link.0 < N.ifnamsiz

All-get_elem? :
    (N : Net) (xs : List Iface) (i : ℕ) (x : Iface)
    → All (IsShort N) (map summary xs)
    → get_elem? xs i ≡ some x
    → IsShort N (summary x)
All-get_elem? N [] i x h e = absurd cc
All-get_elem? N (y ∷ ys) zero x (short, h) e =
    let same : y ≡ x = cc in subst (λ z. IsShort N (summary z)) same short
All-get_elem? N (y ∷ ys) (suc i) x (short, h) e = All-get_elem? N ys i x h e

module _ (N : Net) (entries : List Ifaddrs) (arr : Ifaces) (s s' : Process N)
    (got : N.getifaddrs s.kernel ≡ ok entries)
    (listed : iface_list N false false s ≡ done (some arr) s') where
  arr-Holds : Holds N (links N entries) arr
  arr-Holds = subst (Returns (Listing N entries)) listed (iface_list-Listing N entries s got)

  -- With a `realloc` that never moves an array, and names that leave room for a NUL, every name can
  -- be read.
  pub listed-Readable :
      ((m n : ℕ) → N.realloc m ≡ N.realloc n)
      → All (IsShort N) (links N entries)
      → Readable N arr arr.elems
  listed-Readable stays short = all-Readable N arr arr.elems (λ i x at.
      Holds-ReadsName N (links N entries) arr s arr-Holds i x at
      ∙ same i _
      ∙ string_in-IsShort x (
          All-get_elem? N arr.elems i x (subst (All (IsShort N)) (sym arr-Holds.summaries) short)
            at))
    where
      same :
          (i : ℕ) (name' : Option Bytes)
          → (if N.realloc (suc i) == N.realloc (length arr.elems) then name' else none) ≡ name'
      same i name' = let e = stays (suc i) (length arr.elems) in ground arith

      string_in-IsShort :
          (x : Iface) → IsShort N (summary x) → string_in N x.ifr.ifr_name ≡ some x.ifr.ifr_name
      string_in-IsShort x h = ground arith

  -- On an array that iface_list has returned, with a `realloc` that never moves an array, and where
  -- the link-level entries of getifaddrs have names shorter than IFNAMSIZ, the search of
  -- __find_iface returns the place of the first interface with the name, or ends the
  -- process with its message where no interface has it.
  pub find_iface-Found :
      (name : Bytes) (t : Process N)
      → ((m n : ℕ) → N.realloc m ≡ N.realloc n)
      → All (IsShort N) (links N entries)
      → Found N name arr.elems 0 t (find_from N arr name 0 arr.elems t)
  find_iface-Found name t stays short =
      find_from-Found N arr name 0 arr.elems t (listed-Readable stays short)

  -- On an array that iface_list has returned, where `realloc` has put an array of its size at
  -- another address than one of a single interface, the search of __find_iface reads freed
  -- memory, whatever the name.
  pub find_iface-fault :
      (x : Iface) (rest : List Iface) (name : Bytes) (t : Process N)
      → arr.elems ≡ x ∷ rest
      → N.realloc 1 ≢ N.realloc (length (x ∷ rest))
      → find_from N arr name 0 arr.elems t ≡ fault
  find_iface-fault x rest name t e moved =
      subst (λ ys. find_from N arr name 0 ys t ≡ fault) (sym e)
        (find_from-fault N arr name 0 x rest t (
          Holds-ReadsName N (links N entries) arr t arr-Holds 0 x
            (subst (λ ys. get_elem? ys 0 ≡ some x) (sym e) refl)
          ∙ subst
              (λ ys.
                (if N.realloc 1 == N.realloc (length ys) then string_in N x.ifr.ifr_name else none)
                ≡ none)
              (sym e) (ground arith)))
