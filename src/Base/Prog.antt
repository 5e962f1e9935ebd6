-- ===== src/Base/Prog.antt =====
-- Programs as functions of a state: a call returns, ends the process with a status (`exit`, `err`,
-- `errx`), does something that C leaves undefined, or is still running when the fuel is spent.
use Prim.Native.Nat.{ℕ}
use mathlib.Core.Path.{◌≡◌, refl, sym, subst}
use mathlib.Core.Logic.{◌⊎◌, inl, inr}

pub data Outcome (S A : Type 0) : Type 0 where
  done : A → S → Outcome S A
  exited : ℕ → S → Outcome S A
  fault : Outcome S A
  running : Outcome S A

abbrev pub Prog : Type 0 → Type 0 → Type 0
Prog S A = S → Outcome S A

module _ {S : Type 0} where
  abbrev pub pure : {A : Type 0} → A → Prog S A
  pure a s = done a s

  abbrev pub exit : {A : Type 0} → ℕ → Prog S A
  exit code s = exited code s

  abbrev pub undefined : {A : Type 0} → Prog S A
  undefined s = fault

  abbrev pub get : Prog S S
  get s = done s s

  abbrev pub modify : (S → S) → Prog S (Unit {0})
  modify f s = done tt (f s)

  infixl 5 ◌>>=◌ ◌>>◌
  abbrev pub ◌>>=◌ : {A B : Type 0} → Prog S A → (A → Prog S B) → Prog S B
  ◌>>=◌ m f s = elim (m s) [
    | done a t ↦ f a t
    | exited code t ↦ exited code t
    | fault ↦ fault
    | running ↦ running
  ]

  abbrev pub ◌>>◌ : {A B : Type 0} → Prog S A → Prog S B → Prog S B
  m >> k = m >>= λ _. k

  -- A bind whose first part returns goes on with the second.
  pub >>=-done :
      {A B : Type 0} (m : Prog S A) (f : A → Prog S B) {s : S} {a : A} {t : S}
      → m s ≡ done a t
      → (m >>= f) s ≡ f a t
  >>=-done m f e = rw (e, ◌>>=◌)

-- Binds whose parts do the same.
pub >>=-same :
    {S A B : Type 0} (m n : Prog S A) (f g : A → Prog S B) (s : S)
    → m s ≡ n s
    → ((a : A) (t : S) → f a t ≡ g a t)
    → (m >>= f) s ≡ (n >>= g) s
>>=-same m n f g s e k = rw (e, ◌>>=◌) (λ i. (n >>= λ a t. k a t i) s)

-- Binds associate.
pub >>=-assoc :
    {S A B C : Type 0} (m : Prog S A) (f : A → Prog S B) (g : B → Prog S C) (s : S)
    → ((m >>= f) >>= g) s ≡ (m >>= λ a. f a >>= g) s
>>=-assoc {S} {A} {B} {C} m f g s = on_result (m s) refl
  where
    on_result : (r : Outcome S A) → m s ≡ r → ((m >>= f) >>= g) s ≡ (m >>= λ a. f a >>= g) s
    on_result (done a t) e = rw (e, ◌>>=◌) refl
    on_result (exited code t) e = rw (e, ◌>>=◌) refl
    on_result fault e = rw (e, ◌>>=◌) refl
    on_result running e = rw (e, ◌>>=◌) refl

-- A run that returns, with a value and a state that satisfy `P`: it neither ends the process, nor
-- does anything undefined, nor goes on for ever.
abbrev pub Returns : {S A : Type 0} → (A → S → Type 0) → Outcome S A → Type 0
Returns P (done a s) = P a s
Returns P (exited code s) = ⊥
Returns P fault = ⊥
Returns P running = ⊥

-- A weaker condition on the result.
pub Returns-mono :
    {S A : Type 0} (P Q : A → S → Type 0) (r : Outcome S A)
    → ((a : A) (s : S) → P a s → Q a s)
    → Returns P r
    → Returns Q r
Returns-mono P Q (done a s) f h = f a s h
Returns-mono P Q (exited code s) f h = h
Returns-mono P Q fault f h = h
Returns-mono P Q running f h = h

-- The same run.
pub Returns-eq :
    {S A : Type 0} (P : A → S → Type 0) {r r' : Outcome S A} → r ≡ r' → Returns P r' → Returns P r
Returns-eq P e h = subst (Returns P) (sym e) h

-- A bind whose parts return.
pub Returns-bind :
    {S A B : Type 0} (P : A → S → Type 0) (Q : B → S → Type 0) (m : Prog S A) (f : A → Prog S B)
    (s : S)
    → Returns P (m s)
    → ((a : A) (t : S) → P a t → Returns Q (f a t))
    → Returns Q ((m >>= f) s)
Returns-bind {S} {A} {B} P Q m f s h k = on_result (m s) h
  where
    on_result :
        (r : Outcome S A)
        → Returns P r
        → Returns {A = B} Q (elim r [
          | done a t ↦ f a t
          | exited code t ↦ exited code t
          | fault ↦ fault
          | running ↦ running
        ])
    on_result (done a t) h = k a t h
    on_result (exited code t) h = absurd h
    on_result fault h = absurd h
    on_result running h = absurd h

-- The value and the state of a run that returns.
pub Returns-cases :
    {S A : Type 0} (P : A → S → Type 0) (r : Outcome S A)
    → Returns P r
    → (a : A) × (s : S) × (r ≡ done a s) × P a s
Returns-cases P (done a s) h = (a, s, refl, h)
Returns-cases P (exited code s) h = absurd h
Returns-cases P fault h = absurd h
Returns-cases P running h = absurd h

-- A call of the system: its result, or -1 with `errno` set.
pub data Reply (A : Type 0) : Type 0 where
  ok : A → Reply A
  failed : ℕ → Reply A

-- To split on a reply.
pub Reply-cases :
    {A : Type 0} (r : Reply A) → ((a : A) × (r ≡ ok a)) ⊎ ((errno : ℕ) × (r ≡ failed errno))
Reply-cases (ok a) = inl (a, refl)
Reply-cases (failed errno) = inr (errno, refl)
