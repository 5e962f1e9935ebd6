-- ===== src/Settings/Ownership/Collecting.antt =====
-- The blocks behind `settings_list` of libsettings.c, on every answer of the kernel: those of the
-- array and of the settings in it are owned by the array.
use mathlib.Core.Path.{subst}
use aquabsd_pkg_repo.Base.{
  All, sym, ◌++◌, ℕ, zero, suc, ◌+◌, ◌*◌, ◌≡◌, refl, Bool, true, false, Option, none, some, List,
  [], ◌∷◌, ◌==◌, ltb, sym, All, arith, Bool-cases, ◌⊎◌, inl, inr, ℤ,
}
use aquabsd_pkg_repo.Base.Bytes.{Bytes}
use aquabsd_pkg_repo.Base.Prog.{pure, ◌>>◌, Reply-cases}
use aquabsd_pkg_repo.Base.Goes.{Runs, Goes, Runs-bind}
use aquabsd_pkg_repo.Settings.{
  ok, Privilege, boot, kern, user, aqua, other, Owned, Setting, Sysctl, Process, malloc, free,
  free_owned, duplicate, emit_error,
}
use aquabsd_pkg_repo.Settings.Heap.{allocated}
use aquabsd_pkg_repo.Settings.Query.{bytes_of, query_sysctl, sysctl_fill}
use aquabsd_pkg_repo.Settings.Listing.{
  Stack, empty, settings_of, stack_add, free_settings, add_setting, give_up, list_from, list_sysctl,
  settings_list,
}
use aquabsd_pkg_repo.Settings.Ownership.{
  Knowledge, IsText, Shares, of_block, of_setting, of_settings, of_settings-append, Sound,
  Sound-fewer, Sound-allocated, free-Sound, free_owned-Sound, emit_error-Sound,
}
use aquabsd_pkg_repo.Settings.Ownership.Finding.{
  IsTrusted, Queried, query_sysctl-Sound, FilledOr, sysctl_fill-FilledOr,
}
use aquabsd_pkg_repo.Settings.Ownership.Freeing.{of_stack, free_settings-Sound}

-- The setting has a key.
abbrev pub HasKey : Setting → Type 0
HasKey x = (p : Owned Bytes) × (x.key ≡ some p)

-- The kernel enumerates so many settings behind a name, and perhaps more.
abbrev pub Enumerates : Sysctl → ℕ → List ℕ → Type 0
Enumerates K zero name = Unit {0}
Enumerates K (suc fuel) name =
    (oid : List ℕ) × (K.sysctl_ints (K.ctl_sysctl ∷ K.ctl_sysctl_nextnoskip ∷ name) []
        (4 * K.ctl_maxname)
      ≡ ok oid)
    × Enumerates K fuel oid

All-append_one :
    (xs : List Setting) (y : Setting) → All HasKey xs → HasKey y → All HasKey (xs ++ (y ∷ []))
All-append_one [] y h k = (k, tt)
All-append_one (x ∷ xs) y (p, h) k = (p, All-append_one xs y h k)

module _ (R : Type 0) (E : Knowledge) where
  -- The array has moved, and there is a blank setting.
  abbrev Grown : Stack → Shares → Owned (List Setting) × Setting → Process → Type 0
  Grown stack f r t =
      (r.0.value ≡ settings_of stack)
      × (r.1.oid ≡ none)
      × ((n : ℕ) → of_setting r.1 n ≡ 0)
      × Sound E (λ n. of_block r.0.block n + of_settings r.0.value n + of_block r.1.self n + f n) t

  stack_add-Grown :
      (stack : Stack) (f : Shares) (s : Process)
      → Sound E (λ n. of_stack stack n + f n) s
      → Runs R (Grown stack f) (stack_add stack s)
  unfolding stack_add duplicate malloc
  stack_add-Grown stack f s h =
      let rest : Shares = λ n. of_settings (settings_of stack) n + f n in
      Runs-bind R (λ u t. Sound E rest t) (Grown stack f) (free_owned stack.array) _ s
        (free_owned-Sound R rest stack.array s (Sound-fewer _ _ s (λ n. omega arith) h))
        λ u t h'. (
          refl,
          refl,
          λ n. omega arith,
          Sound-fewer _ _ (allocated (allocated t)) (λ n. omega arith)
              (Sound-allocated _ (allocated t) (Sound-allocated rest t h')),
        )

  -- What a listing ends with: -1, or an array with its blocks.
  abbrev pub ListedOr : Shares → Option Stack → Process → Type 0
  ListedOr f r t =
      ((r ≡ none) × Sound IsText f t)
      ⊎ ((stack : Stack) × (r ≡ some stack)
          × All HasKey (settings_of stack)
          × Sound E (λ n. of_stack stack n + f n) t)

  module _ (K : Sysctl) (T : IsTrusted K) where
    give_up-ListedOr :
        (stack : Stack) (f : Shares) (s : Process)
        → Sound IsText (λ n. of_stack stack n + f n) s
        → Runs R (ListedOr f) (give_up K stack s)
    unfolding give_up
    give_up-ListedOr stack f s h =
        Runs-bind R (λ u t. Sound IsText f t) (ListedOr f) (free_settings stack) _ s
          (free_settings-Sound R IsText stack f s h) λ u t h'. inl (refl, h')

    -- A round that fails frees the setting_t, and loses its key.
    abbrev AddedOr : Shares → Bool × Stack → Process → Type 0
    AddedOr f r t =
        ((r.0 ≡ false) × Sound IsText (λ n. of_stack r.1 n + f n) t)
        ⊎ ((r.0 ≡ true) × All HasKey (settings_of r.1) × Sound E (λ n. of_stack r.1 n + f n) t)

    add_setting-AddedOr :
        (stack : Stack) (key : Bytes) (oid : List ℕ) (privilege : Privilege) (f : Shares)
        (s : Process)
        → ltb (4 * K.ctl_maxname) (4 * bytes_of oid) ≡ false
        → All HasKey (settings_of stack)
        → Sound E (λ n. of_stack stack n + f n) s
        → Runs R (AddedOr f) (add_setting K stack key oid privilege s)
    unfolding add_setting duplicate malloc
    add_setting-AddedOr stack key oid privilege f s fits keys h =
        Runs-bind R (Grown stack f) (AddedOr f) (stack_add stack) _ s (stack_add-Grown stack f s h)
          λ r t (kept, no_oid, no_blocks, h').
            let x : Setting = record r.1 { key = some (record { block = t.next; value = key }) } in
            let array : Shares = λ n. of_block r.0.block n + of_settings r.0.value n + f n in
            let own : Shares =
              λ n. of_block r.0.block n + of_settings r.0.value n + of_block r.1.self n + f n in
            Runs-bind R (FilledOr R E K x privilege own) (AddedOr f) (sysctl_fill K x oid privilege)
              _ (allocated t)
              (sysctl_fill-FilledOr R E K T x oid privilege own (allocated t) no_oid fits (
                Sound-fewer _ _ (allocated t) (λ n. omega (arith, no_blocks n))
                  (Sound-allocated own t h')))
              λ filled u post. elim post [
                | inl (e, h'') ↦
                    rw (e, Goes)
                      (Runs-bind R (λ v w. Sound IsText array w) (AddedOr f) (free r.1.self) _ u
                        (free-Sound R array r.1.self u (Sound-fewer _ _ u (λ n. omega arith) h''))
                        λ v w h₃. inl (refl, h₃))
                | inr (y, e, (same, key_kept, empty, typed, h'')) ↦
                    rw (e, Goes)
                      (inr (
                        refl,
                        All-append_one r.0.value y (subst (All HasKey) (sym kept) keys)
                            (_, key_kept),
                        Sound-fewer _ _ u
                            (λ n. omega (arith, of_settings-append n r.0.value (y ∷ []))) h'',
                      ))
              ]

    list_from-ListedOr :
        (fuel : ℕ) (privilege : Privilege) (name : List ℕ) (stack : Stack) (f : Shares)
        (s : Process)
        → (Enumerates K fuel name → R)
        → All HasKey (settings_of stack)
        → Sound E (λ n. of_stack stack n + f n) s
        → Runs R (ListedOr f) (list_from K fuel privilege name stack s)
    unfolding list_from
    list_from-ListedOr zero privilege name stack f s r keys h = r tt
    list_from-ListedOr (suc fuel) privilege name stack f s r keys h =
        elim (Reply-cases
          (K.sysctl_ints (K.ctl_sysctl ∷ K.ctl_sysctl_nextnoskip ∷ name) [] (4 * K.ctl_maxname))) [
            | inr (errno, e) ↦ elim (Bool-cases (errno == K.enoent)) [
              | inl last ↦ rw (e, list_from) (rw (last, Goes) (inr (stack, refl, keys, h)))
              | inr broken ↦
                  rw (e, list_from)
                    (rw broken (
                      Runs-bind R (λ u t. Sound IsText (λ n. of_stack stack n + f n) t) (ListedOr f)
                        (emit_error _ _ _) _ s
                        (emit_error-Sound R _ _ _ (λ n. of_stack stack n + f n) s h)
                        λ u t h'. give_up-ListedOr stack f t h'))
            ]
            | inl (oid, e) ↦
                rw (e, list_from)
                  (Runs-bind R (Queried R E K K.ctl_sysctl_name oid (λ n. of_stack stack n + f n))
                    (ListedOr f) (query_sysctl K K.ctl_sysctl_name oid) _ s
                    (query_sysctl-Sound R E K K.ctl_sysctl_name oid (λ n. of_stack stack n + f n) s
                      h)
                    λ q t post. elim post [
                      | inl (unnamed, h') ↦ rw (unnamed) (give_up-ListedOr stack f t h')
                      | inr (value, named, h', answered) ↦
                          let (key, ended) = T.named oid value answered in
                          rw (named, ended)
                            (Runs-bind R (AddedOr f) (ListedOr f)
                              (add_setting K stack key oid privilege) _ t
                              (add_setting-AddedOr stack key oid privilege f t (T.short _ _ oid e)
                                keys h')
                              λ a u added. elim added [
                                | inr (good, keys', h'') ↦ rw good (
                                    list_from-ListedOr fuel privilege oid a.1 f u
                                      (λ more. r (oid, e, more)) keys' h'')
                                | inl (bad, h'') ↦ rw bad (give_up-ListedOr a.1 f u h'')
                              ])
                    ])
          ]

    report :
        (fmt : Bytes) (f : Shares) (s : Process)
        → Sound E f s
        → Runs R (ListedOr f) ((emit_error fmt none none >> pure none) s)
    report fmt f s h =
        Runs-bind R (λ u t. Sound IsText f t) (ListedOr f) (emit_error fmt none none) _ s
          (emit_error-Sound R fmt none none f s h) λ u t h'. inl (refl, h')

    list_sysctl-ListedOr :
        (fuel : ℕ) (privilege : Privilege) (f : Shares) (s : Process)
        → (Enumerates K fuel (K.ctl_kern ∷ []) → R)
        → Sound E f s
        → Runs R (ListedOr f) (list_sysctl K fuel privilege s)
    unfolding list_sysctl
    list_sysctl-ListedOr fuel privilege f s r h =
        list_from-ListedOr fuel privilege (K.ctl_kern ∷ []) empty f s r tt
          (Sound-fewer f _ s (λ n. omega arith) h)

    -- settings_list
    pub settings_list-ListedOr :
        (fuel : ℕ) (there : Bool) (privilege : Privilege) (uid : ℤ) (f : Shares) (s : Process)
        → (Enumerates K fuel (K.ctl_kern ∷ []) → R)
        → Sound E f s
        → Runs R (ListedOr f) (settings_list K fuel there privilege uid s)
    unfolding settings_list
    settings_list-ListedOr fuel false privilege uid f s r h = report _ f s h
    settings_list-ListedOr fuel true boot uid f s r h = list_sysctl-ListedOr fuel boot f s r h
    settings_list-ListedOr fuel true kern uid f s r h = list_sysctl-ListedOr fuel kern f s r h
    settings_list-ListedOr fuel true user uid f s r h = report _ f s h
    settings_list-ListedOr fuel true aqua uid f s r h = report _ f s h
    settings_list-ListedOr fuel true (other n) uid f s r h = report _ f s h
