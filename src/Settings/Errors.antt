-- ===== src/Settings/Errors.antt =====
-- The error text of libsettings.c, over any number of errors.
use aquabsd_pkg_repo.Base.{ℕ, suc, ◌≡◌, refl, ◌∙◌, Option, none, some, List, [], ◌∷◌}
use aquabsd_pkg_repo.Base.Bytes.{Bytes}
use aquabsd_pkg_repo.Base.Prog.{Prog, done, ◌>>=◌, ◌>>◌, >>=-done, pure}
use aquabsd_pkg_repo.Settings.Heap.{release-first}
use aquabsd_pkg_repo.Settings.{
  Process, malloc, free, free_owned, duplicate, message, emit_error, settings_error_str,
}

-- A call of `__emit_error`.
pub record Call : Type 0 where
  pub fmt : Bytes
  pub primary : Option Bytes
  pub secondary : Option Bytes

abbrev pub emit_call : Call → Prog Process (Unit {0})
emit_call c = emit_error c.fmt c.primary c.secondary

abbrev pub emit_each : List Call → Prog Process (Unit {0})
emit_each [] = pure tt
emit_each (c ∷ rest) = emit_call c >> emit_each rest

abbrev pub text_of_last : Call → List Call → Bytes
text_of_last c [] = message c.fmt c.primary c.secondary
text_of_last c (d ∷ rest) = text_of_last d rest

-- The state with one error text, in a block of its own, over the blocks `live`.
abbrev pub holding : Process → ℕ → Bytes → List ℕ → Process
holding s block text live = record s {
  error_str = some (record { block = block; value = text });
  next = suc block;
  live = block ∷ live;
}

emit_call-holding :
    (c : Call) (s : Process) (block : ℕ) (text : Bytes) (live : List ℕ)
    → emit_call c (holding s block text live)
      ≡ done tt (holding s (suc block) (message c.fmt c.primary c.secondary) live)
unfolding emit_error free_owned free duplicate malloc
emit_call-holding c s block text live =
    rw (release-first block live, emit_error, free_owned, free, ◌>>=◌, ◌>>◌) refl

pub emit_call-first :
    (c : Call) (s : Process)
    → s.error_str ≡ none
    → emit_call c s ≡ done tt (holding s s.next (message c.fmt c.primary c.secondary) s.live)
unfolding emit_error free_owned duplicate malloc
emit_call-first c s h = rw (h, emit_error, free_owned, ◌>>=◌) refl

emit_each-holding :
    (c : Call) (rest : List Call) (s : Process) (block : ℕ) (text : Bytes) (live : List ℕ)
    → (n : ℕ) × (emit_each (c ∷ rest) (holding s block text live)
        ≡ done tt (holding s n (text_of_last c rest) live))
emit_each-holding c [] s block text live =
    (suc block, >>=-done (emit_call c) (λ u. pure tt) (emit_call-holding c s block text live))
emit_each-holding c (d ∷ rest) s block text live =
    let (n, e) =
      emit_each-holding d rest s (suc block) (message c.fmt c.primary c.secondary) live in
    (
      n,
      >>=-done (emit_call c) (λ u. emit_each (d ∷ rest)) (emit_call-holding c s block text live)
          ∙ e,
    )

-- However many errors the library emits, from a state without an error text on: the text of the
-- last one is what settings_error_str gives, and one block more is allocated than before.
pub emit_each-one_live :
    (c : Call) (rest : List Call) (s : Process)
    → s.error_str ≡ none
    → (t : Process) × (block : ℕ) × (emit_each (c ∷ rest) s ≡ done tt t)
      × (settings_error_str t ≡ some (text_of_last c rest))
      × (t.live ≡ block ∷ s.live)
unfolding settings_error_str
emit_each-one_live c [] s h = (
  holding s s.next (message c.fmt c.primary c.secondary) s.live,
  s.next,
  >>=-done (emit_call c) (λ u. pure tt) (emit_call-first c s h),
  refl,
  refl,
)
emit_each-one_live c (d ∷ rest) s h =
    let (n, e) = emit_each-holding d rest s s.next (message c.fmt c.primary c.secondary) s.live in
    (
      holding s n (text_of_last d rest) s.live,
      n,
      >>=-done (emit_call c) (λ u. emit_each (d ∷ rest)) (emit_call-first c s h) ∙ e,
      refl,
      refl,
    )
