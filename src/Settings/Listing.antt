-- ===== src/Settings/Listing.antt =====
-- `__stack_add`, `__free_settings`, `__list_sysctl` and `settings_list` of libsettings.c. The fuel
-- bounds the rounds of the loop over the OIDs.
pub mod Adding
pub mod Walk
pub mod Failure
use aquabsd_pkg_repo.Base.{
  ℕ, zero, suc, ◌*◌, Bool, true, false, Option, none, some, List, [], ◌∷◌, ◌++◌, ◌==◌,
  if◌then◌else◌, ℤ,
}
use aquabsd_pkg_repo.Base.Bytes.{Bytes, codes, c_string}
use aquabsd_pkg_repo.Base.Prog.{Prog, ◌>>=◌, ◌>>◌, pure, undefined, running}
use aquabsd_pkg_repo.Settings.{
  Reply, ok, failed, Privilege, boot, kern, user, aqua, other, Owned, Setting, blank, Sysctl,
  Process, malloc, free, free_owned, duplicate, emit_error,
}
use aquabsd_pkg_repo.Settings.Query.{query_sysctl, sysctl_fill}
use aquabsd_pkg_repo.Settings.Access.{setting_free}

-- The array of settings, with its block once it has one.
pub record Stack : Type 0 where
  pub array : Option (Owned (List Setting))

abbrev pub empty : Stack
empty = record { array = none }

abbrev pub settings_of : Stack → List Setting
settings_of stack = elim stack.array [ none ↦ [] | some p ↦ p.value ]

-- The `realloc` and the `calloc` of `__stack_add`: the array moves, and has room for one more.
unfoldable pub stack_add : Stack → Prog Process (Owned (List Setting) × Setting)
stack_add stack = do
  free_owned stack.array
  array ← duplicate (settings_of stack)
  self ← malloc
  pure (array, blank self)

unfoldable pub free_each : List Setting → Prog Process (Unit {0})
free_each [] = pure tt
free_each (setting ∷ rest) = do rv ← setting_free (some setting); free_each rest

-- `__free_settings`
unfoldable pub free_settings : Stack → Prog Process (Unit {0})
unfolding free_each
free_settings stack = do free_each (settings_of stack); free_owned stack.array

module _ (K : Sysctl) where
  -- The part of a round that adds a setting; `none` goes to the label `error`, with the array as it
  -- is there.
  unfoldable pub add_setting : Stack → Bytes → List ℕ → Privilege → Prog Process (Bool × Stack)
  add_setting stack key oid privilege = do
    (array, setting) ← stack_add stack
    copy ← duplicate key
    filled ← sysctl_fill K (record setting { key = some copy }) oid privilege
    elim filled [
      | none ↦ do free setting.self; pure (false, record { array = some array })
      | some done_setting ↦ pure (
        true,
        record {
          array = some (record { block = array.block; value = array.value ++ (done_setting ∷ []) });
        },
      )
    ]

  -- The label `error`.
  unfoldable pub give_up : Stack → Prog Process (Option Stack)
  unfolding free_settings
  give_up stack = do free_settings stack; pure none

  unfoldable pub list_from : ℕ → Privilege → List ℕ → Stack → Prog Process (Option Stack)
  unfolding add_setting give_up
  list_from zero privilege name stack = λ s. running
  list_from (suc fuel) privilege name stack =
      elim (K.sysctl_ints (K.ctl_sysctl ∷ K.ctl_sysctl_nextnoskip ∷ name) [] (4 * K.ctl_maxname)) [
        | failed errno ↦ if errno == K.enoent then pure (some stack) else do
          emit_error (codes "sysctl(getnext): %s") (some (K.strerror errno)) none
          give_up stack
        | ok oid ↦ do
          queried ← query_sysctl K K.ctl_sysctl_name oid
          elim queried [
            | none ↦ give_up stack
            | some buf ↦ elim (c_string buf) [
              | none ↦ undefined
              | some key ↦ do
                (added, more) ← add_setting stack key oid privilege
                elim added [ true ↦ list_from fuel privilege oid more | false ↦ give_up more ]
            ]
          ]
      ]

  -- `__list_sysctl`
  unfoldable pub list_sysctl : ℕ → Privilege → Prog Process (Option Stack)
  unfolding list_from
  list_sysctl fuel privilege = list_from fuel privilege (K.ctl_kern ∷ []) empty

  -- `settings_list`; the Boolean says whether both references are there, `none` is -1, and the user
  -- is not looked at.
  unfoldable pub settings_list : ℕ → Bool → Privilege → ℤ → Prog Process (Option Stack)
  unfolding list_sysctl
  settings_list fuel false privilege uid = do
    emit_error (codes "settings_list: Passed references point to NULL") none none
    pure none
  settings_list fuel true boot uid = list_sysctl fuel boot
  settings_list fuel true kern uid = list_sysctl fuel kern
  settings_list fuel true user uid = do
    emit_error (codes "settings_list: Unimplemented privilege level (SETTINGS_PRIVILEGE_USER)") none
        none
    pure none
  settings_list fuel true aqua uid = do
    emit_error (codes "settings_list: Unimplemented privilege level (SETTINGS_PRIVILEGE_AQUA)") none
        none
    pure none
  settings_list fuel true (other n) uid = do
    emit_error (codes "settings_list: Unknown privilege level") none none
    pure none
