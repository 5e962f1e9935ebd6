-- ===== src/Iface/Refine.antt =====
-- `iface_get_flags` and `iface_set_flags` in any order, against an abstract interface: a set of
-- flags, of which a call reads every one, writes those that may be changed, or is refused.
use aquabsd_pkg_repo.Base.{
  true, refl, ℕ, ◌^◌, ◌<◌, ◌≡◌, ◌∙◌, ap, Bool, false, inl, inr, none, some, List, [], ◌∷◌, ℤ,
}
use aquabsd_pkg_repo.Base.Bits.{bit}
use aquabsd_pkg_repo.Base.Prog.{Prog, ◌>>=◌, >>=-done, pure, Returns, Returns-eq, Returns-bind}
use aquabsd_pkg_repo.Iface.{
  Reply-cases, ok, Net, Iface, Process, new_flags, u32_of_short, emit_error, iface_get_flags,
  iface_set_flags,
}
use aquabsd_pkg_repo.Iface.Flags.{
  IsLawful, Negatable, wanted, bit-new_flags, bit-u32_of_short, get_flags_run, set_flags_run,
  set_flags_refused, ifr_name-set_ifr_flags,
}

-- A call of a client, and what it is told.
pub data Call : Type 0 where
  read : Call
  write : ℤ → Call

pub data Answer : Type 0 where
  gave : ℕ → Answer
  wrote refused : Answer

abbrev pub Fits : Call → Type 0
Fits read = Unit {0}
Fits (write val) = Negatable val

abbrev pub AllFit : List Call → Type 0
AllFit [] = Unit {0}
AllFit (call ∷ rest) = Fits call × AllFit rest

-- Each flag of the abstract interface, by its place, as a number that is 0 or 1.
abbrev pub FlagSet : Type 0
FlagSet = ℕ → ℕ

-- The flags after a write: those that may be changed are as asked, and the others are the system's.
abbrev pub ChangedBy : (ℕ → Bool) → ℤ → FlagSet → FlagSet → Type 0
ChangedBy changeable val F G = (k : ℕ) → k < 16 → changeable k ≡ true → G k ≡ wanted val k (F k)

-- What the abstract interface may do at a call.
pub data Move (changeable : ℕ → Bool) (F : FlagSet) : Call → Answer → FlagSet → Type 0 where
  reads : (f : ℕ) → ((k : ℕ) → k < 16 → bit k f ≡ F k) → Move changeable F read (gave f) F
  writes :
      (val : ℤ) (G : FlagSet) → ChangedBy changeable val F G → Move changeable F (write val) wrote G
  refuses : (val : ℤ) → Move changeable F (write val) refused F

pub data Moves (changeable : ℕ → Bool) : FlagSet → List Call → List Answer → FlagSet → Type 0 where
  stays : (F : FlagSet) → Moves changeable F [] [] F
  goes :
      (F G H : FlagSet) (call : Call) (answer : Answer) (calls : List Call) (answers : List Answer)
      → Move changeable F call answer G
      → Moves changeable G calls answers H
      → Moves changeable F (call ∷ calls) (answer ∷ answers) H

module _ (N : Net) where
  -- A client's call, and the interface that it goes on with.
  abbrev pub perform : Call → Iface → Prog (Process N) (Answer × Iface)
  perform read iface = do
    got ← iface_get_flags N iface false
    pure (elim got [ none ↦ refused | some f ↦ gave f ], iface)
  perform (write val) iface = do
    changed ← iface_set_flags N iface val
    pure (elim changed [ none ↦ (refused, iface) | some iface' ↦ (wrote, iface') ])

  abbrev pub perform_each : List Call → Iface → Prog (Process N) (List Answer × Iface)
  perform_each [] iface = pure ([], iface)
  perform_each (call ∷ calls) iface = do
    (answer, after) ← perform call iface
    (answers, last) ← perform_each calls after
    pure (answer ∷ answers, last)

  -- The kernel has these flags of the interface.
  abbrev pub Shows : FlagSet → Iface → Process N → Type 0
  Shows F iface s =
      (low high : ℕ) × (N.ioctl_get iface.dgram_sock iface.ifr.ifr_name s.kernel ≡ ok (low, high))
      × (low < 2 ^ 16)
      × ((k : ℕ) → k < 16 → bit k low ≡ F k)

  module _ (changeable : ℕ → Bool) (L : IsLawful N changeable) where
    abbrev Performed : FlagSet → Call → Answer × Iface → Process N → Type 0
    Performed F call r t = (G : FlagSet) × Move changeable F call r.0 G × Shows G r.1 t

    perform-Move :
        (call : Call) (F : FlagSet) (iface : Iface) (s : Process N)
        → Fits call
        → Shows F iface s
        → Returns (Performed F call) (perform call iface s)
    unfolding emit_error
    perform-Move read F iface s fits (low, high, got, small, same) =
        Returns-eq (Performed F read)
          (>>=-done (iface_get_flags N iface false) _ (get_flags_run N iface s low high got))
          (
            F,
            reads (u32_of_short low) (λ k h. bit-u32_of_short k low h small ∙ same k h),
            (low, high, got, small, same),
          )
    perform-Move (write val) F iface s fits (low, high, got, small, same) =
        let written = new_flags val (u32_of_short low) in
        elim (Reply-cases
          (N.ioctl_set iface.dgram_sock iface.ifr.ifr_name (written, high) s.kernel)) [
            | inr (e, q) ↦
                Returns-eq (Performed F (write val))
                  (>>=-done (iface_set_flags N iface val) _
                    (set_flags_refused N iface val s low high e got q))
                  (F, refuses val, (low, high, got, small, same))
            | inl (k', q) ↦
                let (low', high', got', small', bits) =
                  L.get_after_set iface.dgram_sock iface.ifr.ifr_name low high written high s.kernel
                    k' got q in
                Returns-eq (Performed F (write val))
                  (>>=-done (iface_set_flags N iface val) _
                    (set_flags_run N iface val s low high k' got q))
                  (
                    (λ k. bit k low'),
                    writes val (λ k. bit k low')
                        (λ k h may.
                          bits k h may
                          ∙ rw (
                            bit-new_flags val k (u32_of_short low) h fits,
                            bit-u32_of_short k low h small,
                            same k h,
                          )),
                    (
                      low',
                      high',
                      ap (λ n. N.ioctl_get iface.dgram_sock n k')
                            (ifr_name-set_ifr_flags N iface.ifr written)
                          ∙ got',
                      small',
                      λ k h. refl,
                    ),
                  )
          ]

    abbrev pub PerformedEach : FlagSet → List Call → List Answer × Iface → Process N → Type 0
    PerformedEach F calls r t = (G : FlagSet) × Moves changeable F calls r.0 G × Shows G r.1 t

    -- On a system whose ioctls keep what they document of the flags that may be changed: a client
    -- that calls iface_get_flags and iface_set_flags on one interface, in any order and any number of
    -- times, with values that fit an int with their negations, sees an abstract set of 16 flags. From
    -- a kernel that has the flags of such a set, no call does anything undefined; each answer is one
    -- that the set allows, a read giving its flags, and a write either leaving those that may be
    -- changed as asked, and the others to the system, or being refused and changing none; and the
    -- kernel has the flags of the set in the end.
    pub perform_each-Moves :
        (calls : List Call) (F : FlagSet) (iface : Iface) (s : Process N)
        → AllFit calls
        → Shows F iface s
        → Returns (PerformedEach F calls) (perform_each calls iface s)
    perform_each-Moves [] F iface s fits shows = (F, stays F, shows)
    perform_each-Moves (call ∷ calls) F iface s (fits, all_fit) shows =
        Returns-bind (Performed F call) (PerformedEach F (call ∷ calls)) (perform call iface) _ s
          (perform-Move call F iface s fits shows)
          λ r t (G, move, shown).
            Returns-bind (PerformedEach G calls) (PerformedEach F (call ∷ calls))
              (perform_each calls r.1) _ t (perform_each-Moves calls G r.1 t all_fit shown)
              λ q u (H, moves, last). (H, goes F G H call r.0 calls q.0 move moves, last)
