-- ===== src/Settings/Ownership/Freeing.antt =====
-- The blocks behind `free_settings` of libsettings.c, and those of its array.
use aquabsd_pkg_repo.Base.{◌+◌, some, List, [], ◌∷◌, arith}
use aquabsd_pkg_repo.Base.Goes.{Runs, Runs-bind}
use aquabsd_pkg_repo.Settings.{Setting, Process}
use aquabsd_pkg_repo.Settings.Access.{setting_free}
use aquabsd_pkg_repo.Settings.Listing.{Stack, settings_of, free_each, free_settings}
use aquabsd_pkg_repo.Settings.Ownership.{
  Knowledge, Shares, of_pointer, of_settings, Sound, Sound-fewer, free_owned-Sound,
}
use aquabsd_pkg_repo.Settings.Ownership.Holding.{setting_free-Sound}

abbrev pub of_stack : Stack → Shares
of_stack stack n = of_pointer stack.array n + of_settings (settings_of stack) n

module _ (R : Type 0) (E : Knowledge) where
  free_each-Sound :
      (xs : List Setting) (f : Shares) (s : Process)
      → Sound E (λ n. of_settings xs n + f n) s
      → Runs R (λ u t. Sound E f t) (free_each xs s)
  unfolding free_each
  free_each-Sound [] f s h = Sound-fewer _ f s (λ n. omega arith) h
  free_each-Sound (x ∷ xs) f s h =
      let rest : Shares = λ n. of_settings xs n + f n in
      Runs-bind R (λ rv t. Sound E rest t) (λ u t. Sound E f t) (setting_free (some x)) _ s
        (setting_free-Sound R E x rest s (Sound-fewer _ _ s (λ n. omega arith) h))
        λ rv t h'. free_each-Sound xs f t h'

  -- The settings of the array are freed, and then the array.
  pub free_settings-Sound :
      (stack : Stack) (f : Shares) (s : Process)
      → Sound E (λ n. of_stack stack n + f n) s
      → Runs R (λ u t. Sound E f t) (free_settings stack s)
  unfolding free_settings
  free_settings-Sound stack f s h =
      let rest : Shares = λ n. of_pointer stack.array n + f n in
      Runs-bind R (λ u t. Sound E rest t) (λ u t. Sound E f t) (free_each (settings_of stack)) _ s
        (free_each-Sound (settings_of stack) rest s (Sound-fewer _ _ s (λ n. omega arith) h))
        λ u t h'. free_owned-Sound R f stack.array t h'
