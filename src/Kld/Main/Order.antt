-- ===== src/Kld/Main/Order.antt =====
-- The order of the options of kld.
use aquabsd_pkg_repo.Base.{ℕ, ◌≡◌, ◌≢◌, refl, List, ◌==◌, if◌then◌else◌, arith}
use aquabsd_pkg_repo.Base.Bytes.{Bytes, codes}
use aquabsd_pkg_repo.Base.Getopt.{Opt, getopt}
use aquabsd_pkg_repo.Base.Swaps.{Swaps, loop-Swaps}
use aquabsd_pkg_repo.Base.Prog.{◌>>=◌, >>=-same}
use aquabsd_pkg_repo.Kld.{Linker, Opts, defaults, Process, usage, err}
use aquabsd_pkg_repo.Kld.Main.{set_id, parse_one, parse, main}

-- What an option sets: two that set the same thing are not to be swapped. The options that may end
-- the program, -i and those that are refused, count as one.
abbrev pub slot : ℕ → ℕ
slot c =
    if c == b'd'
    then 1
    else if c == b'f'
    then 2
    else if c == b'h'
    then 3
    else if c == b'v'
    then 4
    else if c == b'l'
    then 5
    else if c == b'u'
    then 5
    else if c == b'n'
    then 6
    else if c == b'm'
    then 7
    else 0

module _ (L : Linker) where
  parse_one-swap :
      (o p : Opt) (opts : Opts) (s : Process L)
      → slot o.c ≢ slot p.c
      → (parse_one L o opts >>= parse_one L p) s ≡ (parse_one L p opts >>= parse_one L o) s
  unfolding parse_one usage err set_id
  parse_one-swap o p opts s d = ground arith

  parse-Swaps :
      (os ps : List Opt) (opts : Opts) (s : Process L)
      → Swaps slot os ps
      → parse L os opts s ≡ parse L ps opts s
  unfolding parse
  parse-Swaps = loop-Swaps slot (parse_one L) (parse L) (λ o os opts s. refl) parse_one-swap

  -- Two lists of arguments whose options differ only by swaps of neighbours that set different
  -- things make main do the same, from every state; -d, -f, -h, -v, -n and -m set one thing each, -l
  -- and -u the same one, and -i and all options that getopt refuses count as one.
  pub main_reordered :
      (fuel : ℕ) (args args' : List Bytes) (s : Process L)
      → Swaps slot (getopt (codes "dfhi:lm:n:uv") args) (getopt (codes "dfhi:lm:n:uv") args')
      → main L fuel args s ≡ main L fuel args' s
  unfolding main
  main_reordered fuel args args' s h =
      >>=-same (parse L (getopt (codes "dfhi:lm:n:uv") args) defaults)
        (parse L (getopt (codes "dfhi:lm:n:uv") args') defaults) _ _ s
        (parse-Swaps _ _ defaults s h) (λ a t. refl)
