-- ===== src/Settings/Ownership/History.antt =====
-- A client of libsettings.c: calls in any order, with the settings that it holds.
use aquabsd_pkg_repo.Base.{
  ℕ, zero, suc, ◌+◌, ◌≡◌, sym, ap, Bool, Option, none, some, List, [], ◌∷◌, ◌++◌, arith,
  Option-cases, ◌⊎◌, inl, inr, ℤ,
}
use aquabsd_pkg_repo.Base.Bytes.{Bytes}
use aquabsd_pkg_repo.Base.Prog.{Prog, pure, ◌>>=◌}
use aquabsd_pkg_repo.Base.Goes.{Runs, Goes, Runs-bind, Runs-mono}
use aquabsd_pkg_repo.Settings.{Privilege, Setting, Sysctl, Process}
use aquabsd_pkg_repo.Settings.Access.{setting_read, setting_read_descr, setting_free}
use aquabsd_pkg_repo.Settings.Search.{settings_search}
use aquabsd_pkg_repo.Settings.Listing.{settings_list, settings_of}
use aquabsd_pkg_repo.Settings.Ownership.{
  AnyText, IsText, Sound-any, of_setting, of_settings, of_settings-append, Sound, Sound-fewer,
}
use aquabsd_pkg_repo.Settings.Ownership.Finding.{IsTrusted, FoundOr, settings_search-FoundOr}
use aquabsd_pkg_repo.Settings.Ownership.Holding.{
  setting_free-Sound, ReadSound, setting_read-Sound, DescribedOr, setting_read_descr-Sound,
}
use aquabsd_pkg_repo.Settings.Ownership.Collecting.{ListedOr, settings_list-ListedOr}

-- A call, on the setting at a place where it is about one.
pub data Call : Type 0 where
  search : Bytes → Privilege → ℤ → Call
  list : ℕ → Bool → Privilege → ℤ → Call
  read describe release : ℕ → Call

-- A call that may still be running when its fuel is spent.
abbrev pub Loops : Call → Type 0
Loops (search key privilege uid) = ⊥
Loops (list fuel there privilege uid) = Unit {0}
Loops (read i) = ⊥
Loops (describe i) = ⊥
Loops (release i) = ⊥

abbrev pub SomeLoops : List Call → Type 0
SomeLoops [] = ⊥
SomeLoops (call ∷ calls) = Loops call ⊎ SomeLoops calls

-- The element at a place, and the others.
abbrev pub pick : {A : Type 0} → ℕ → List A → Option (A × List A)
pick i [] = none
pick zero (x ∷ xs) = some (x, xs)
pick (suc i) (x ∷ xs) = elim (pick i xs) [ none ↦ none | some (y, ys) ↦ some (y, x ∷ ys) ]

abbrev share_of : ℕ → Option (Setting × List Setting) → ℕ
share_of n none = 0
share_of n (some (y, ys)) = of_setting y n + of_settings ys n

pick-share :
    (n i : ℕ) (xs : List Setting) (y : Setting) (ys : List Setting)
    → pick i xs ≡ some (y, ys)
    → of_setting y n + of_settings ys n ≡ of_settings xs n
pick-share n i [] y ys e = absurd (cc)
pick-share n zero (x ∷ xs) y ys e = ap (share_of n) (sym e)
pick-share n (suc i) (x ∷ xs) y ys e = elim (Option-cases (pick i xs)) [
  | inl f ↦ absurd (let g = rw f at e in cc)
  | inr ((z, zs), f) ↦
      let g = rw f at e in omega (arith, ap (share_of n) (sym g), pick-share n i xs z zs f)
]

module _ (K : Sysctl) where
  -- A client that holds the settings of a list makes a call, and holds those of the list returned.
  abbrev pub perform : Call → List Setting → Prog Process (List Setting)
  perform (search key privilege uid) held = do
    found ← settings_search K key privilege uid
    pure (elim found [ none ↦ held | some x ↦ x ∷ held ])
  perform (list fuel there privilege uid) held = do
    listed ← settings_list K fuel there privilege uid
    pure (elim listed [ none ↦ held | some stack ↦ settings_of stack ++ held ])
  perform (read i) held = elim (pick i held) [
    | none ↦ pure held
    | some (x, rest) ↦ do (rv, y) ← setting_read K x; pure (y ∷ rest)
  ]
  perform (describe i) held = elim (pick i held) [
    | none ↦ pure held
    | some (x, rest) ↦ do
      described ← setting_read_descr K x
      pure (elim described [ none ↦ held | some y ↦ y ∷ rest ])
  ]
  perform (release i) held = elim (pick i held) [
    | none ↦ pure held
    | some (x, rest) ↦ do rv ← setting_free (some x); pure rest
  ]

  abbrev pub perform_each : List Call → List Setting → Prog Process (List Setting)
  perform_each [] held = pure held
  perform_each (call ∷ calls) held = do more ← perform call held; perform_each calls more

  abbrev pub SoundFor : List Setting → Process → Type 0
  SoundFor held s = Sound AnyText (of_settings held) s

  module _ (T : IsTrusted K) where
    perform-SoundFor :
        (call : Call) (held : List Setting) (s : Process)
        → SoundFor held s
        → Runs (Loops call) SoundFor (perform call held s)
    perform-SoundFor (search key privilege uid) held s h =
        Runs-bind ⊥ (FoundOr ⊥ AnyText K T privilege (of_settings held)) SoundFor
          (settings_search K key privilege uid) _ s
          (settings_search-FoundOr ⊥ AnyText K T key privilege uid (of_settings held) s h)
          λ found t post. elim post [
            | inl (e, h') ↦ rw (e, Goes) (Sound-any IsText (of_settings held) t h')
            | inr (y, e, empty, typed, h') ↦ rw (e, Goes) h'
          ]
    perform-SoundFor (list fuel there privilege uid) held s h =
        Runs-bind (Unit {0}) (ListedOr (Unit {0}) AnyText (of_settings held)) SoundFor
          (settings_list K fuel there privilege uid) _ s
          (settings_list-ListedOr (Unit {0}) AnyText K T fuel there privilege uid (of_settings held)
            s (λ more. tt) h)
          λ listed t post. elim post [
            | inl (e, h') ↦ rw (e, Goes) (Sound-any IsText (of_settings held) t h')
            | inr (stack, e, keys, h') ↦
                rw (e, Goes)
                  (Sound-fewer _ _ t
                    (λ n. omega (arith, of_settings-append n (settings_of stack) held)) h')
          ]
    perform-SoundFor (read i) held s h = elim (Option-cases (pick i held)) [
      | inl e ↦ rw (e, Goes) h
      | inr ((x, rest), e) ↦
          rw (e, perform)
            (Runs-bind ⊥ (ReadSound ⊥ AnyText K (of_settings rest)) SoundFor (setting_read K x) _ s
              (setting_read-Sound ⊥ AnyText K x (of_settings rest) s
                (Sound-fewer _ _ s (λ n. omega (arith, pick-share n i held x rest e)) h))
              λ r t (zero_rv, h'). h')
    ]
    perform-SoundFor (describe i) held s h = elim (Option-cases (pick i held)) [
      | inl e ↦ rw (e, Goes) h
      | inr ((x, rest), e) ↦
          rw (e, perform)
            (Runs-bind ⊥ (DescribedOr ⊥ AnyText K x (of_settings rest)) SoundFor
              (setting_read_descr K x) _ s
              (setting_read_descr-Sound ⊥ AnyText K T x (of_settings rest) s
                (Sound-fewer _ _ s (λ n. omega (arith, pick-share n i held x rest e)) h))
              λ r t post. elim post [
                | inl (f, h') ↦
                    rw (f, Goes)
                      (Sound-any IsText (of_settings held) t
                        (Sound-fewer _ _ t (λ n. omega (arith, pick-share n i held x rest e)) h'))
                | inr (y, f, key_kept, kind_kept, oid_kept, privilege_kept, empty, described, h') ↦
                    rw (f, Goes) h'
              ])
    ]
    perform-SoundFor (release i) held s h = elim (Option-cases (pick i held)) [
      | inl e ↦ rw (e, Goes) h
      | inr ((x, rest), e) ↦
          rw (e, perform)
            (Runs-bind ⊥ (λ rv t. SoundFor rest t) SoundFor (setting_free (some x)) _ s
              (setting_free-Sound ⊥ AnyText x (of_settings rest) s
                (Sound-fewer _ _ s (λ n. omega (arith, pick-share n i held x rest e)) h))
              λ rv t h'. h')
    ]

    -- Where the kernel ends its texts with a NUL inside the buffer and no OID has more than
    -- CTL_MAXNAME / 4 numbers: a client that calls settings_search, settings_list, setting_read,
    -- setting_read_descr and setting_free in any order and any number of times, the last three on
    -- settings that it holds, never makes the library do anything undefined, whatever the calls
    -- answer; a history without settings_list comes to an end whatever the fuel. From a heap without
    -- a block that is allocated twice or that malloc has yet to give, where the blocks of the error
    -- text and of the settings that the client holds are allocated and no two of them are the same,
    -- a history that comes to its end leaves such a heap, for the settings that are then held.
    pub perform_each-SoundFor :
        (calls : List Call) (held : List Setting) (s : Process)
        → SoundFor held s
        → Runs (SomeLoops calls) SoundFor (perform_each calls held s)
    perform_each-SoundFor [] held s h = h
    perform_each-SoundFor (call ∷ calls) held s h =
        Runs-bind (SomeLoops (call ∷ calls)) SoundFor SoundFor (perform call held) _ s
          (Runs-mono (Loops call) _ SoundFor SoundFor _ inl (λ a t h'. h')
            (perform-SoundFor call held s h))
          λ more t h'.
            Runs-mono (SomeLoops calls) _ SoundFor SoundFor _ inr (λ a u h''. h'')
              (perform_each-SoundFor calls more t h')
