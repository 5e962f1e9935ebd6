-- ===== src/IfaceTool/Ending.antt =====
-- How `main` of iface.c ends, for every list of arguments.
use mathlib.Core.Path.{subst}
use aquabsd_pkg_repo.Base.{
  ℕ, ◌≡◌, refl, sym, ◌∙◌, ap, Bool, true, false, none, some, List, inl, inr, Option-cases, arith,
  All,
}
use aquabsd_pkg_repo.Base.Bytes.{Bytes, codes}
use aquabsd_pkg_repo.Base.Getopt.{getopt}
use aquabsd_pkg_repo.Base.Prog.{done, ◌>>=◌, Returns-cases}
use aquabsd_pkg_repo.Base.Goes.{Ends, Ends-bind, Goes}
use aquabsd_pkg_repo.Iface.{
  Reply-cases, ok, failed, Net, Ifaddrs, Process, emit_error, iface_error_str, iface_list,
  iface_free,
}
use aquabsd_pkg_repo.Iface.Sockets.{
  HasDescriptors, Sockets, iface_list-Sockets, iface_free-iface_list,
}
use aquabsd_pkg_repo.IfaceTool.{
  Opts, defaults, errx, parse, find_iface, run_action, choose, finish, list_and_finish, main,
}
use aquabsd_pkg_repo.Iface.Listing.{links}
use aquabsd_pkg_repo.IfaceTool.Find.{
  IsShort, Readable, FirstAt-get_elem?, find_from-Found, listed-Readable,
}
use aquabsd_pkg_repo.IfaceTool.Parsing.{Reported, Parsed, parse-Parsed}
use aquabsd_pkg_repo.IfaceTool.Acting.{Keeps, Acted, Chosen, run_action-Acted}

module _ (N : Net) (is_open : N.Kernel → ℕ → Bool) (D : HasDescriptors N is_open)
    (keeps : Keeps N is_open) where
  -- The choice changes nothing but the chosen interface.
  abbrev Chose : Opts → Process N → Opts → Process N → Type 0
  Chose opts s o t = (t ≡ s) × (o.ifaces ≡ opts.ifaces) × Chosen N is_open keeps o t

  choose-Chose :
      (opts : Opts) (s : Process N)
      → opts.iface ≡ none
      → Readable N opts.ifaces opts.ifaces.elems
      → Ends (Chose opts s) (Reported N) (choose N opts s)
  unfolding find_iface errx
  choose-Chose opts s unchosen h = elim (Option-cases opts.name) [
    | inl e ↦ rw (e, Goes) (refl, refl, inl unchosen)
    | inr (name, e) ↦
        rw (e, Goes)
          (elim (find_from-Found N opts.ifaces name 0 opts.ifaces.elems s h) [
            | inl (i, found, first) ↦
                let (x, at) = FirstAt-get_elem? name opts.ifaces.elems i first in
                rw (found, ◌>>=◌, Goes) (refl, refl, inr (i, x, ap some (omega arith), at))
            | inr (missing, absent) ↦ rw (missing, ◌>>=◌, Goes) (refl, (s.stderr, _, refl))
          ])
  ]

  -- From the list of interfaces to the end.
  module _ (k₀ : N.Kernel) (zero_open : is_open k₀ 0 ≡ true) where
    -- A run that returns: the status is 0, and a descriptor is open just if it was at the start.
    abbrev pub Clean : ℕ → Process N → Type 0
    Clean code t = (code ≡ 0) × ((n : ℕ) → is_open t.kernel n ≡ is_open k₀ n)

    finish-Clean :
        (opts : Opts) (s : Process N)
        → opts.iface ≡ none
        → Readable N opts.ifaces opts.ifaces.elems
        → Sockets N is_open D k₀ (some opts.ifaces) s
        → Ends Clean (Reported N) (finish N opts s)
    unfolding finish iface_free
    finish-Clean opts s unchosen h (opened, fresh) =
        Ends-bind (Chose opts s) Clean (Reported N) (choose N opts) _ s
          (choose-Chose opts s unchosen h)
          λ o t (e, arr, c).
            Ends-bind (Acted N is_open keeps t) Clean (Reported N) (run_action N o) _ t
              (run_action-Acted N is_open keeps o t (subst (λ a. Readable N a a.elems) (sym arr) h)
                c)
              λ rv u (zero_rv, same). (
                rw zero_rv refl,
                λ n.
                    iface_free-iface_list N is_open D k₀ opts.ifaces u n zero_open
                      (λ m. same m ∙ ap (λ p. is_open p.kernel m) e ∙ opened m, fresh),
              )

    -- What happens once there is a list.
    listed-Clean :
        (entries : List Ifaddrs) (opts : Opts) (t : Process N)
        → opts.iface ≡ none
        → t.kernel ≡ k₀
        → N.getifaddrs t.kernel ≡ ok entries
        → ((m n : ℕ) → N.realloc m ≡ N.realloc n)
        → All (IsShort N) (links N entries)
        → Ends Clean (Reported N) (list_and_finish N opts t)
    unfolding list_and_finish iface_error_str errx
    listed-Clean entries opts t unchosen kernel got stays short =
        let (listed, u, run, sockets) =
          Returns-cases (Sockets N is_open D t.kernel) (iface_list N false false t)
            (iface_list-Sockets N is_open D entries t (rw kernel zero_open) got) in
        rw (run, ◌>>=◌, Goes)
          (elim (Option-cases listed) [
            | inl f ↦ rw (f, Goes) (refl, (u.stderr, _, refl))
            | inr (arr, f) ↦
                rw (f, Goes)
                  (finish-Clean (record opts { ifaces = arr }) u unchosen
                    (listed-Readable N entries arr t u got (run ∙ ap (λ l. done l u) f) stays short)
                    (subst (λ k. Sockets N is_open D k (some arr) u) kernel
                      (subst (λ l. Sockets N is_open D t.kernel l u) f sockets)))
          ])

    unlisted-Clean :
        (e : ℕ) (opts : Opts) (t : Process N)
        → N.getifaddrs t.kernel ≡ failed e
        → Ends Clean (Reported N) (list_and_finish N opts t)
    unfolding list_and_finish iface_error_str errx iface_list emit_error
    unlisted-Clean e opts t got = rw (got, ◌>>=◌, Goes) (refl, (t.stderr, _, refl))

    -- On a system whose descriptors behave as documented, with descriptor zero open at the start,
    -- with a `realloc` that never moves an array, and where the link-level entries that getifaddrs
    -- gives, if it gives any, have names shorter than IFNAMSIZ: for all arguments, and whatever else
    -- getifaddrs, and whatever socket and the ioctls answer, main does nothing undefined and comes to an end. It returns 0
    -- with each descriptor open just if it was at the start, or it ends the process with status 1 and
    -- a message on the error stream.
    pub main-Clean :
        (s : Process N) (args : List Bytes)
        → s.kernel ≡ k₀
        → ((m n : ℕ) → N.realloc m ≡ N.realloc n)
        → ((entries : List Ifaddrs)
            → N.getifaddrs k₀ ≡ ok entries
            → All (IsShort N) (links N entries))
        → Ends Clean (Reported N) (main N args s)
    unfolding main
    main-Clean s args here stays short =
        Ends-bind (Parsed N s) Clean (Reported N) (parse N (getopt (codes "a:r:i:") args) defaults)
          _ s (parse-Parsed N (getopt (codes "a:r:i:") args) defaults s refl)
          λ opts t (unchosen, e). elim (Reply-cases (N.getifaddrs t.kernel)) [
            | inl (entries, got) ↦
                let there : t.kernel ≡ k₀ = ap (λ p. p.kernel) e ∙ here in
                listed-Clean entries opts t unchosen there got stays
                  (short entries (ap N.getifaddrs (sym there) ∙ got))
            | inr (errno, got) ↦ unlisted-Clean errno opts t got
          ]
