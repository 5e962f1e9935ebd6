-- ===== src/Settings/Ownership.antt =====
-- Who owns the blocks of the heap of libsettings.c: the error text has one, and the rest is shared
-- out between the settings. Every block that is owned is allocated, and has one owner.
pub mod Collecting
pub mod Finding
pub mod Freeing
pub mod History
pub mod Holding
pub mod Tests
use aquabsd_pkg_repo.Base.{
  ℕ, suc, ◌+◌, ◌≤◌, ◌<◌, ◌≡◌, refl, Option, none, some, List, [], ◌∷◌, ◌++◌, ◌==◌, ==_self,
  if◌then◌else◌, arith, Option-cases, inl, inr,
}
use aquabsd_pkg_repo.Base.Bytes.{Bytes}
use aquabsd_pkg_repo.Base.Prog.{done, ◌>>=◌, ◌>>◌}
use aquabsd_pkg_repo.Base.Goes.{Runs, Goes, Runs-bind}
use aquabsd_pkg_repo.Settings.{
  Owned, Setting, Process, malloc, free, free_owned, duplicate, emit_error, message,
}
use aquabsd_pkg_repo.Settings.Heap.{allocated}
use aquabsd_pkg_repo.Settings.Blocks.{count, release-count}

-- How often a block is owned.
abbrev pub Shares : Type 0
Shares = ℕ → ℕ

-- The share of a pointer, of a setting, and of a list of settings.
abbrev pub of_block : ℕ → Shares
of_block block n = if block == n then 1 else 0

abbrev pub of_pointer : {A : Type 0} → Option (Owned A) → Shares
of_pointer none n = 0
of_pointer (some p) n = of_block p.block n

abbrev pub of_setting : Setting → Shares
of_setting x n =
    of_pointer x.key n + of_pointer x.descr n + of_pointer x.contents n + of_pointer x.oid n

abbrev pub of_settings : List Setting → Shares
of_settings [] n = 0
of_settings (x ∷ xs) n = of_setting x n + of_settings xs n

pub of_settings-append :
    (n : ℕ) (xs ys : List Setting) → of_settings (xs ++ ys) n ≡ of_settings xs n + of_settings ys n
of_settings-append n [] ys = omega arith
of_settings-append n (x ∷ xs) ys = omega (arith, of_settings-append n xs ys)

-- What is known of the error text.
abbrev pub Knowledge : Type 1
Knowledge = Option (Owned Bytes) → Type 0

-- Nothing, or that there is one.
abbrev pub AnyText : Knowledge
AnyText text = Unit {0}

abbrev pub IsText : Knowledge
IsText text = (p : Owned Bytes) × (text ≡ some p)

-- What is owned, the error text included, is allocated; no block is allocated twice; and the
-- blocks from `next` on are free.
pub record Sound (E : Knowledge) (f : Shares) (s : Process) : Type 0 where
  pub told : E s.error_str
  pub owned : (n : ℕ) → of_pointer s.error_str n + f n ≤ count n s.live
  pub once : (n : ℕ) → count n s.live ≤ 1
  pub unused : (n : ℕ) → s.next ≤ n → count n s.live ≡ 0

pub Sound-fewer :
    {E : Knowledge} (f g : Shares) (s : Process) → ((n : ℕ) → g n ≤ f n) → Sound E f s → Sound E g s
Sound-fewer f g s le h = record {
  told = h.told;
  owned = λ n. omega (arith, le n, h.owned n);
  once = h.once;
  unused = h.unused;
}

pub Sound-any : (E : Knowledge) (f : Shares) (s : Process) → Sound E f s → Sound AnyText f s
Sound-any E f s h = record { told = tt; owned = h.owned; once = h.once; unused = h.unused }

pub Sound-allocated :
    {E : Knowledge} (f : Shares) (s : Process)
    → Sound E f s
    → Sound E (λ n. of_block s.next n + f n) (allocated s)
Sound-allocated f s h = record {
  told = h.told;
  owned = λ n. omega (arith, h.owned n);
  once = λ n. ground (arith, h.once n, h.unused n);
  unused = λ n le. ground (arith, h.unused n);
}

-- What freeing a pointer leaves allocated.
abbrev Freed : {A : Type 0} → Option (Owned A) → Shares → Process → Type 0
Freed p f s =
    (live : List ℕ) × (free_owned p s ≡ done tt (record s { live = live }))
    × ((n : ℕ) → f n ≤ count n live)
    × ((n : ℕ) → count n live ≤ count n s.live)

free_owned-Freed :
    {A : Type 0} (p : Option (Owned A)) (f : Shares) (s : Process)
    → ((n : ℕ) → of_pointer p n + f n ≤ count n s.live)
    → Freed p f s
unfolding free_owned free
free_owned-Freed none f s h = (s.live, refl, λ n. omega (arith, h n), λ n. omega arith)
free_owned-Freed (some p) f s h =
    let (rest, e, c) =
      release-count p.block s.live
        (let here = h p.block in let one = ==_self p.block in ground arith) in
    (rest, rw (e, free_owned, free) refl, λ n. omega (arith, h n, c n), λ n. omega (arith, c n))

module _ (R : Type 0) where
  pub free_owned-Sound :
      {E : Knowledge} {A : Type 0} (f : Shares) (p : Option (Owned A)) (s : Process)
      → Sound E (λ n. of_pointer p n + f n) s
      → Runs R (λ u t. Sound E f t) (free_owned p s)
  free_owned-Sound f p s h =
      let (live, freed, kept, fewer) =
        free_owned-Freed p (λ n. of_pointer s.error_str n + f n) s
          (λ n. omega (arith, h.owned n)) in
      rw (freed, Goes)
        (record {
          told = h.told;
          owned = kept;
          once = λ n. omega (arith, h.once n, fewer n);
          unused = λ n le. omega (arith, h.unused n le, fewer n);
        })

  pub free-Sound :
      {E : Knowledge} (f : Shares) (block : ℕ) (s : Process)
      → Sound E (λ n. of_block block n + f n) s
      → Runs R (λ u t. Sound E f t) (free block s)
  unfolding free_owned
  free-Sound f block s h = free_owned-Sound f (some (record { block = block; value = tt {0} })) s h

  -- A new error text takes the place of the old one.
  pub emit_error-Sound :
      {E : Knowledge} (fmt : Bytes) (a b : Option Bytes) (f : Shares) (s : Process)
      → Sound E f s
      → Runs R (λ u t. Sound IsText f t) (emit_error fmt a b s)
  unfolding emit_error duplicate malloc
  emit_error-Sound fmt a b f s h =
      let (live, freed, kept, fewer) = free_owned-Freed s.error_str f s h.owned in
      rw (freed, ◌>>=◌, Goes)
        (record {
          told = (_, refl);
          owned = λ n. omega (arith, kept n);
          once = λ n. ground (arith, h.once n, h.unused n, fewer n);
          unused = λ n le. ground (arith, h.unused n, fewer n);
        })
