-- ===== src/Base/Goes.antt =====
-- What may be said of every way in which a program goes: its results, its exits, and whether it
-- comes to an end. None of these predicates holds of a run that does something undefined.
use Prim.Native.Nat.{ℕ}
use mathlib.Core.Bool.{Bool, true, false}
use aquabsd_pkg_repo.Base.Tests.{if◌then◌else◌}
use aquabsd_pkg_repo.Base.Prog.{Outcome, done, exited, fault, running, Prog, ◌>>=◌}

-- A run that returns with `P`, ends the process with `Q`, or goes on for ever where `R` holds; it
-- does nothing undefined.
abbrev pub Goes :
    {S A : Type 0} → (A → S → Type 0) → (ℕ → S → Type 0) → Type 0 → Outcome S A → Type 0
Goes P Q R (done a s) = P a s
Goes P Q R (exited code s) = Q code s
Goes P Q R fault = ⊥
Goes P Q R running = R

pub Goes-mono :
    {S A : Type 0} (P P' : A → S → Type 0) (Q : ℕ → S → Type 0) (R R' : Type 0) (r : Outcome S A)
    → ((a : A) (s : S) → P a s → P' a s)
    → (R → R')
    → Goes P Q R r
    → Goes P' Q R' r
Goes-mono P P' Q R R' (done a s) f g h = f a s h
Goes-mono P P' Q R R' (exited code s) f g h = h
Goes-mono P P' Q R R' fault f g h = absurd h
Goes-mono P P' Q R R' running f g h = g h

pub Goes-bind :
    {S A B : Type 0} (P : A → S → Type 0) (P' : B → S → Type 0) (Q : ℕ → S → Type 0) (R : Type 0)
    (m : Prog S A) (f : A → Prog S B) (s : S)
    → Goes P Q R (m s)
    → ((a : A) (t : S) → P a t → Goes P' Q R (f a t))
    → Goes P' Q R ((m >>= f) s)
Goes-bind {S} {A} {B} P P' Q R m f s h k = on_result (m s) h
  where
    on_result :
        (r : Outcome S A)
        → Goes P Q R r
        → Goes {A = B} P' Q R (elim r [
          | done a t ↦ f a t
          | exited code t ↦ exited code t
          | fault ↦ fault
          | running ↦ running
        ])
    on_result (done a t) h = k a t h
    on_result (exited code t) h = h
    on_result fault h = absurd h
    on_result running h = h

pub Goes-if :
    {S A : Type 0} (P : A → S → Type 0) (Q : ℕ → S → Type 0) (R : Type 0) (b : Bool)
    (m n : Prog S A) (s : S)
    → Goes P Q R (m s)
    → Goes P Q R (n s)
    → Goes P Q R ((if b then m else n) s)
Goes-if P Q R true m n s h k = h
Goes-if P Q R false m n s h k = k

-- A run that returns with `P` or ends the process with `Q`, and does not go on for ever.
abbrev pub Ends : {S A : Type 0} → (A → S → Type 0) → (ℕ → S → Type 0) → Outcome S A → Type 0
Ends P Q r = Goes P Q ⊥ r

pub Ends-bind :
    {S A B : Type 0} (P : A → S → Type 0) (P' : B → S → Type 0) (Q : ℕ → S → Type 0) (m : Prog S A)
    (f : A → Prog S B) (s : S)
    → Ends P Q (m s)
    → ((a : A) (t : S) → P a t → Ends P' Q (f a t))
    → Ends P' Q ((m >>= f) s)
Ends-bind P P' Q m f s h k = Goes-bind P P' Q ⊥ m f s h k

-- A run that returns with `P`, or goes on for ever where `R` holds; it does not end the process.
abbrev pub Runs : {S A : Type 0} → Type 0 → (A → S → Type 0) → Outcome S A → Type 0
Runs R P r = Goes P (λ code s. ⊥) R r

pub Runs-mono :
    {S A : Type 0} (R R' : Type 0) (P P' : A → S → Type 0) (r : Outcome S A)
    → (R → R')
    → ((a : A) (s : S) → P a s → P' a s)
    → Runs R P r
    → Runs R' P' r
Runs-mono R R' P P' r g f h = Goes-mono P P' (λ code s. ⊥) R R' r f g h

pub Runs-bind :
    {S A B : Type 0} (R : Type 0) (P : A → S → Type 0) (P' : B → S → Type 0) (m : Prog S A)
    (f : A → Prog S B) (s : S)
    → Runs R P (m s)
    → ((a : A) (t : S) → P a t → Runs R P' (f a t))
    → Runs R P' ((m >>= f) s)
Runs-bind R P P' m f s h k = Goes-bind P P' (λ code s. ⊥) R m f s h k

-- A run that does not end the process.
pub Runs-Goes :
    {S A : Type 0} (P : A → S → Type 0) (Q : ℕ → S → Type 0) (R : Type 0) (r : Outcome S A)
    → Runs R P r
    → Goes P Q R r
Runs-Goes P Q R (done a s) h = h
Runs-Goes P Q R (exited code s) h = absurd h
Runs-Goes P Q R fault h = absurd h
Runs-Goes P Q R running h = h
