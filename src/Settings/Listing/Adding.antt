-- ===== src/Settings/Listing/Adding.antt =====
-- One round of `__list_sysctl`: what `__stack_add` and `__sysctl_fill` add to the array.
use aquabsd_pkg_repo.Base.{
  ℕ, suc, ◌≡◌, refl, ◌∙◌, ap, Bool, true, false, not, Option, none, some, List, [], ◌∷◌, ◌++◌, ◌==◌,
  if◌then◌else◌, Bool-cases, inl, inr, map, bit_and, ◌+◌, arith,
}
use mathlib.Core.List.{map-append}
use aquabsd_pkg_repo.Base.Bytes.{Bytes}
use aquabsd_pkg_repo.Base.Prog.{done, ◌>>=◌, ◌>>◌}
use aquabsd_pkg_repo.Settings.{
  Privilege, SettingType, opaque, Owned, Setting, blank, Sysctl, Process, free_owned, duplicate,
  malloc,
}
use aquabsd_pkg_repo.Settings.Query.{type_of, privilege_of}
use aquabsd_pkg_repo.Settings.Heap.{Quiet, Quiet-trans, allocated}
use aquabsd_pkg_repo.Settings.Blocks.{
  Holds, block_list, blocks_of, blocks_onto, count, count-blocks_of_append, free_owned-Holds,
}
use aquabsd_pkg_repo.Settings.Fill.{
  Entry, Described, Fits, is_asked, setting_for, behind, Quiet-behind, sysctl_fill-Described,
}
use aquabsd_pkg_repo.Settings.Listing.{Stack, settings_of, stack_add, add_setting}

-- A setting without the blocks that its fields lie in.
pub record View : Type 0 where
  pub key : Option Bytes
  pub privilege : Privilege
  pub kind : SettingType
  pub writeable : Bool
  pub oid : Option (List ℕ)

abbrev pub contents_of : {A : Type 0} → Option (Owned A) → Option A
contents_of none = none
contents_of (some p) = some p.value

abbrev pub view : Setting → View
view setting = record {
  key = contents_of setting.key;
  privilege = setting.privilege;
  kind = setting.kind;
  writeable = setting.writeable;
  oid = contents_of setting.oid;
}

-- The blocks of an array and of its settings are all allocated.
abbrev pub HoldsAll : Stack → Process → Type 0
HoldsAll stack s = Holds (block_list stack.array ++ blocks_of (settings_of stack)) s.live

-- The array that `__stack_add` leaves, whatever else is held.
stack_add-array :
    (o : Option (Owned (List Setting))) (bs : List ℕ) (s : Process)
    → Holds (block_list o ++ bs) s.live
    → (array : Owned (List Setting)) × (self : ℕ) × (t : Process) × (stack_add
          (record { array = o })
          s
        ≡ done (array, blank self) t)
      × (array.value ≡ settings_of (record { array = o }))
      × Holds (array.block ∷ bs) t.live
      × Quiet s t
unfolding stack_add free_owned duplicate malloc
stack_add-array none bs s h = (
  record { block = s.next; value = [] },
  suc s.next,
  allocated (allocated s),
  refl,
  refl,
  λ n. omega (arith, h n),
  (refl, refl, refl),
)
stack_add-array (some p) bs s h =
    let (live, e, h') = free_owned-Holds (some p) bs s h in
    let t : Process = record s { live = live } in
    (
      record { block = t.next; value = p.value },
      suc t.next,
      allocated (allocated t),
      rw (e, stack_add, ◌>>=◌, ◌>>◌) refl,
      refl,
      λ n. omega (arith, h' n),
      (refl, refl, refl),
    )

stack_add-done :
    (stack : Stack) (s : Process)
    → HoldsAll stack s
    → (array : Owned (List Setting)) × (self : ℕ) × (t : Process) × (stack_add stack s
        ≡ done (array, blank self) t)
      × (array.value ≡ settings_of stack)
      × Holds (array.block ∷ blocks_of (settings_of stack)) t.live
      × Quiet s t
stack_add-done stack s h = stack_add-array stack.array (blocks_of (settings_of stack)) s h

module _ (K : Sysctl) where
  -- What `settings_list` is to show of an entry.
  abbrev pub shown : Privilege → Entry → View
  shown privilege e =
      let seen : View = record {
        key = some e.key;
        privilege = privilege_of K e.kind;
        kind = opaque;
        writeable = false;
        oid = none;
      } in
      if is_asked K privilege e
      then record seen {
        kind = type_of K e.kind e.fmt;
        writeable = not (bit_and e.kind K.ctlflag_wr == 0);
        oid = some e.oid;
      }
      else seen

  view-setting_for :
      (privilege : Privilege) (e : Entry) (self : ℕ) (key : Owned Bytes) (block : ℕ)
      → key.value ≡ e.key
      → view (setting_for K privilege e self key block) ≡ shown privilege e
  view-setting_for privilege e self key block h = elim (Bool-cases (is_asked K privilege e)) [
    | inl asked ↦ rw asked (rw h refl)
    | inr unasked ↦ rw unasked (rw h refl)
  ]

  -- A round allocates what the setting holds.
  filled_count :
      (privilege : Privilege) (e : Entry) (self : ℕ) (key : Owned Bytes) (t : Process) (n : ℕ)
      → key.block ≡ t.next
      → count n (behind K privilege e (allocated t)).live
        ≡ count n (blocks_onto (setting_for K privilege e self key (suc t.next)) [])
          + count n t.live
  filled_count privilege e self key t n h = elim (Bool-cases (is_asked K privilege e)) [
    | inl asked ↦ rw asked (rw h (omega arith))
    | inr unasked ↦ rw unasked (rw h (omega arith))
  ]

  pub add_setting-Described :
      (stack : Stack) (e : Entry) (privilege : Privilege) (s : Process)
      → HoldsAll stack s
      → Described K e
      → Fits K e
      → (more : Stack) × (t : Process) × (add_setting K stack e.key e.oid privilege s
          ≡ done (true, more) t)
        × (map view (settings_of more) ≡ map view (settings_of stack) ++ (shown privilege e ∷ []))
        × HoldsAll more t
        × Quiet s t
  unfolding add_setting duplicate
  add_setting-Described stack e privilege s h d fits =
      let (array, self, t, added, value, live, quiet) = stack_add-done stack s h in
      let copy : Owned Bytes = record { block = t.next; value = e.key } in
      let filled = setting_for K privilege e self copy (suc t.next) in
      let u = behind K privilege e (allocated t) in
      let quiet' = Quiet-behind K privilege e (allocated t) in
      (
        record {
          array = some (record { block = array.block; value = array.value ++ (filled ∷ []) });
        },
        u,
        rw (added, add_setting, ◌>>=◌)
            (rw
              (
                sysctl_fill-Described K privilege e self copy (allocated t) d fits,
                ◌>>=◌,
                duplicate,
                malloc,
              )
              refl),
        map-append view array.value (filled ∷ [])
            ∙ ap (λ v. map view v ++ (view filled ∷ [])) value
            ∙ ap (λ v. map view (settings_of stack) ++ (v ∷ []))
                (view-setting_for privilege e self copy (suc t.next) refl),
        λ n. omega (
          arith,
          live n,
          count-blocks_of_append n array.value filled,
          ap (λ v. count n (blocks_of v)) value,
          filled_count privilege e self copy t n refl,
        ),
        Quiet-trans s t u quiet quiet',
      )
