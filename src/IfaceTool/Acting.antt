-- ===== src/IfaceTool/Acting.antt =====
-- The actions of iface.c, `do_stat` and `do_set_flag`: they end with 0 and the descriptors as they
-- were, or report.
use aquabsd_pkg_repo.Base.{
  ℕ, ◌≡◌, refl, ◌∙◌, Bool, none, some, List, [], ◌∷◌, ℤ, pos, ◌⊎◌, inl, inr, get_elem?,
  Option-cases,
}
use aquabsd_pkg_repo.Base.Bytes.{Bytes}
use aquabsd_pkg_repo.Base.Prog.{Outcome, done, exited, fault, running, ◌>>=◌}
use aquabsd_pkg_repo.Base.Goes.{Ends, Ends-bind, Goes}
use aquabsd_pkg_repo.Base.Words.{int_of_u32}
use aquabsd_pkg_repo.Iface.{
  Reply-cases, ok, new_flags, u32_of_short, Net, Iface, Ifaces, Process, read_name, emit_error,
  iface_error_str, iface_set_flags,
}
use aquabsd_pkg_repo.Iface.Flags.{
  set_flags_run, set_flags_refused, set_flags_unread, get_flags_run, get_flags_failed,
}
use aquabsd_pkg_repo.IfaceTool.{
  Action, do_stat, do_set_flag, Opts, errx, stat_iface, stat_all, stat, print, write_flag,
  run_action,
}
use aquabsd_pkg_repo.IfaceTool.Find.{Readable, Readable-at}
use aquabsd_pkg_repo.IfaceTool.Parsing.{Reported, errx-Reported}

-- What the system documents of the second ioctl: it opens and closes no descriptor.
abbrev pub Keeps : (N : Net) → (N.Kernel → ℕ → Bool) → Type 0
Keeps N is_open =
    (sock : ℤ) (name : Bytes) (f : ℕ × ℕ) (k k' : N.Kernel) (n : ℕ)
    → N.ioctl_set sock name f k ≡ ok k'
    → is_open k' n ≡ is_open k n

module _ (N : Net) (is_open : N.Kernel → ℕ → Bool) (keeps : Keeps N is_open) where
  -- The same descriptors are open.
  abbrev SameOpen : Process N → Process N → Type 0
  SameOpen s t = (n : ℕ) → is_open t.kernel n ≡ is_open s.kernel n

  -- An action that succeeds returns 0 and leaves the descriptors.
  abbrev pub Acted : Process N → ℤ → Process N → Type 0
  Acted s rv t = (rv ≡ pos 0) × SameOpen s t

  Acted-then :
      (s t : Process N) (r : Outcome (Process N) ℤ)
      → SameOpen s t
      → Ends (Acted t) (Reported N) r
      → Ends (Acted s) (Reported N) r
  Acted-then s t (done rv u) before (e, after) = (e, λ n. after n ∙ before n)
  Acted-then s t (exited code u) before h = h
  Acted-then s t fault before h = absurd h
  Acted-then s t running before h = absurd h

  stat_iface-Acted :
      (arr : Ifaces) (iface : Iface) (s : Process N)
      → read_name N arr iface ≡ some iface.ifr.ifr_name
      → Ends (Acted s) (Reported N) (stat_iface N arr iface s)
  unfolding stat_iface iface_error_str print errx emit_error
  stat_iface-Acted arr iface s named =
      elim (Reply-cases (N.ioctl_get iface.dgram_sock iface.ifr.ifr_name s.kernel)) [
        | inr (e, p) ↦
            rw (get_flags_failed N iface s e p, stat_iface, iface_error_str, ◌>>=◌, Goes)
              (refl, (s.stderr, _, refl))
        | inl ((low, high), p) ↦
            rw (get_flags_run N iface s low high p, stat_iface, iface_error_str, ◌>>=◌, Goes)
              (rw (named, Goes) (refl, λ n. refl))
      ]

  stat_all-Acted :
      (arr : Ifaces) (xs : List Iface) (s : Process N)
      → Readable N arr xs
      → Ends (Acted s) (Reported N) (stat_all N arr xs s)
  unfolding stat_all
  stat_all-Acted arr [] s h = (refl, λ n. refl)
  stat_all-Acted arr (x ∷ xs) s (r, h) =
      Ends-bind (Acted s) (Acted s) (Reported N) (stat_iface N arr x) (λ rv. stat_all N arr xs) s
        (stat_iface-Acted arr x s r)
        λ rv t (e, same). Acted-then s t _ same (stat_all-Acted arr xs t h)

  -- The interface that has been chosen, if any, is one of the array.
  abbrev pub Chosen : Opts → Process N → Type 0
  Chosen opts s =
      (opts.iface ≡ none)
      ⊎ ((i : ℕ) × (x : Iface) × (opts.iface ≡ some i) × (get_elem? opts.ifaces.elems i ≡ some x))

  stat-Acted :
      (opts : Opts) (s : Process N)
      → Readable N opts.ifaces opts.ifaces.elems
      → Chosen opts s
      → Ends (Acted s) (Reported N) (stat N opts s)
  unfolding stat
  stat-Acted opts s h (inl e) = rw (e, Goes) (stat_all-Acted opts.ifaces opts.ifaces.elems s h)
  stat-Acted opts s h (inr (i, x, e, at)) =
      rw (e, at, Goes) (stat_iface-Acted opts.ifaces x s (Readable-at N _ _ i x h at))

  set_flags-SameOpen :
      (iface : Iface) (val : ℤ) (s : Process N)
      → Ends (λ r t. SameOpen s t) (Reported N) (iface_set_flags N iface val s)
  unfolding emit_error
  set_flags-SameOpen iface val s =
      elim (Reply-cases (N.ioctl_get iface.dgram_sock iface.ifr.ifr_name s.kernel)) [
        | inr (e, p) ↦ rw (set_flags_unread N iface val s e p, Goes) λ n. refl
        | inl ((low, high), p) ↦
            elim (Reply-cases (
              N.ioctl_set iface.dgram_sock iface.ifr.ifr_name
                (new_flags val (u32_of_short low), high) s.kernel)) [
                  | inr (e, q) ↦ rw (set_flags_refused N iface val s low high e p q, Goes) λ n. refl
                  | inl (k', q) ↦
                      rw (set_flags_run N iface val s low high k' p q, Goes)
                        λ n. keeps _ _ _ s.kernel k' n q
                ]
      ]

  write_flag-Acted :
      (opts : Opts) (s : Process N)
      → Chosen opts s
      → Ends (Acted s) (Reported N) (write_flag N opts s)
  unfolding write_flag iface_error_str errx emit_error
  write_flag-Acted opts s (inl e) = rw (e, Goes) (errx-Reported N (Acted s) _ s)
  write_flag-Acted opts s (inr (i, x, e, at)) =
      rw (e, at, Goes)
        (Ends-bind (λ r t. SameOpen s t) (Acted s) (Reported N)
          (iface_set_flags N x (int_of_u32 opts.flag)) _ s
          (set_flags-SameOpen x (int_of_u32 opts.flag) s)
          λ changed t same. elim (Option-cases changed) [
            | inl none_changed ↦ rw (none_changed, Goes) (refl, (t.stderr, _, refl))
            | inr (iface', one_changed) ↦ rw (one_changed, Goes) (refl, same)
          ])

  pub run_action-Acted :
      (opts : Opts) (s : Process N)
      → Readable N opts.ifaces opts.ifaces.elems
      → Chosen opts s
      → Ends (Acted s) (Reported N) (run_action N opts s)
  run_action-Acted opts s h c = by_action opts.action refl
    where
      by_action :
          (action : Action)
          → opts.action ≡ action
          → Ends (Acted s) (Reported N) (run_action N opts s)
      by_action do_stat e = rw (e, Goes) (stat-Acted opts s h c)
      by_action do_set_flag e = rw (e, Goes) (write_flag-Acted opts s c)
