-- ===== src/Iface/Listing/Printing.antt =====
-- What `iface_list` prints: nothing on the output stream.
use aquabsd_pkg_repo.Base.{◌≡◌, refl, ◌∙◌, ap, false, Option, none, some, List, [], ◌∷◌, inl, inr}
use aquabsd_pkg_repo.Base.Prog.{Prog, Returns, Returns-bind, Returns-mono, pure}
use aquabsd_pkg_repo.Iface.{
  Reply-cases, ok, Net, Ifaddrs, IfaceKind, Ifaces, Process, kind_of, add_iface, list_from,
  iface_list,
}
use aquabsd_pkg_repo.Iface.Listing.{
  entry_cases, noted, list_from-Skipped, list_from_linked, add_iface_opened, add_iface_refused,
}

module _ (N : Net) where
  -- The output stream is as it was.
  abbrev pub SameOut : {A : Type 0} → Process N → A → Process N → Type 0
  SameOut s a t = t.stdout ≡ s.stdout

  add_iface-SameOut :
      (ifa : Ifaddrs) (rest : List Ifaddrs) (kind : IfaceKind) (arr : Ifaces) (s : Process N)
      → Returns (SameOut s) (add_iface N ifa.ifa_name kind arr s)
  add_iface-SameOut ifa rest kind arr s =
      let r = N.socket N.af_inet s.kernel in
      elim (Reply-cases r.0) [
        | inl (fd, e) ↦
            rw (add_iface_opened N ifa rest kind arr s fd r.1 (ap (λ x. (x, r.1)) e)) refl
        | inr (n, e) ↦
            rw (add_iface_refused N ifa rest kind arr s n r.1 (ap (λ x. (x, r.1)) e)) refl
      ]

  list_from-SameOut :
      (entries : List Ifaddrs) (arr : Ifaces) (s : Process N)
      → Returns (SameOut s) (list_from N entries arr s)
  unfolding list_from noted
  list_from-SameOut [] arr s = refl
  list_from-SameOut (ifa ∷ rest) arr s = elim (entry_cases N ifa) [
    | inl skip ↦ rw (list_from-Skipped N ifa rest arr s skip) (list_from-SameOut rest arr s)
    | inr (sa, e, t) ↦ rw (list_from_linked N ifa rest sa arr s e t) (
        Returns-bind (SameOut s) (SameOut s)
          (add_iface N ifa.ifa_name (kind_of N sa.sdl_type).0 arr) _ (noted N ifa rest sa s)
          (add_iface-SameOut ifa rest (kind_of N sa.sdl_type).0 arr (noted N ifa rest sa s))
          λ added u same. after added u same (λ more. list_from-SameOut rest more u))
  ]
    where
      after :
          (added : Option Ifaces) (u : Process N)
          → u.stdout ≡ s.stdout
          → ((more : Ifaces) → Returns (SameOut u) (list_from N rest more u))
          → Returns (SameOut s) (
              let continued : Prog (Process N) (Option Ifaces) = elim added [
                | none ↦ pure none
                | some more ↦ list_from N rest more
              ] in
              continued u)
      after none u same later = same
      after (some more) u same later =
          Returns-mono (SameOut u) (SameOut s) (list_from N rest more u) (λ r v e. e ∙ same)
            (later more)

  pub iface_list-SameOut :
      (entries : List Ifaddrs) (s : Process N)
      → N.getifaddrs s.kernel ≡ ok entries
      → Returns (SameOut s) (iface_list N false false s)
  unfolding iface_list
  iface_list-SameOut entries s e =
      rw e (list_from-SameOut entries (record { block = 0; elems = [] }) s)
