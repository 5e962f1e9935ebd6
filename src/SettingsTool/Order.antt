-- ===== src/SettingsTool/Order.antt =====
-- The order of the options of settings.
use aquabsd_pkg_repo.Base.{ℕ, ◌≡◌, ◌≢◌, refl, List, ◌==◌, if◌then◌else◌, arith}
use aquabsd_pkg_repo.Base.Bytes.{Bytes, codes}
use aquabsd_pkg_repo.Base.Getopt.{Opt, getopt}
use aquabsd_pkg_repo.Base.Swaps.{Swaps, loop-Swaps}
use aquabsd_pkg_repo.Base.Prog.{◌>>=◌, >>=-same}
use aquabsd_pkg_repo.Settings.{Sysctl, Process}
use aquabsd_pkg_repo.SettingsTool.{Opts, defaults, parse_one, parse, usage, errx, main}

-- What an option sets: two that set the same thing are not to be swapped.
abbrev pub slot : ℕ → ℕ
slot c =
    if c == b'B'
    then 1
    else if c == b'v'
    then 2
    else if c == b'r'
    then 3
    else if c == b'b'
    then 4
    else if c == b'k'
    then 4
    else if c == b'u'
    then 4
    else 0

module _ (K : Sysctl) (progname : Bytes) where
  parse_one-swap :
      (o p : Opt) (opts : Opts) (s : Process)
      → slot o.c ≢ slot p.c
      → (parse_one K progname o opts >>= parse_one K progname p) s
        ≡ (parse_one K progname p opts >>= parse_one K progname o) s
  unfolding parse_one usage errx
  parse_one-swap o p opts s d = ground arith

  parse-Swaps :
      (os ps : List Opt) (opts : Opts) (s : Process)
      → Swaps slot os ps
      → parse K progname os opts s ≡ parse K progname ps opts s
  unfolding parse
  parse-Swaps =
      loop-Swaps slot (parse_one K progname) (parse K progname) (λ o os opts s. refl) parse_one-swap

  -- Two lists of arguments whose options differ only by swaps of neighbours that set different
  -- things make main do the same, from every state; -B, -v and -r set one thing each, -b, -k and -u
  -- the same one, and all options that getopt refuses count as one.
  pub main-Swaps :
      (fuel : ℕ) (args args' : List Bytes) (s : Process)
      → Swaps slot (getopt (codes "bBkr:uv") args) (getopt (codes "bBkr:uv") args')
      → main K fuel progname args s ≡ main K fuel progname args' s
  unfolding main
  main-Swaps fuel args args' s h =
      >>=-same (parse K progname (getopt (codes "bBkr:uv") args) defaults)
        (parse K progname (getopt (codes "bBkr:uv") args') defaults) _ _ s
        (parse-Swaps _ _ defaults s h) (λ a t. refl)
