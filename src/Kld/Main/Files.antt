-- ===== src/Kld/Main/Files.antt =====
-- kld without an action: the list of the files, for every list of the options -d, -f, -h and -v.
use mathlib.Core.Bool.{or-true, or-false}
use mathlib.Core.List.{flat_map}
use aquabsd_pkg_repo.Base.{
  Option, none, some, Bool-cases, Option-cases, map, ℕ, ◌<◌, ◌≡◌, refl, sym, ◌∙◌, ap, Bool, true,
  false, ◌||◌, List, [], ◌∷◌, ◌++◌, ◌==◌, ◌⊎◌, inl, inr, ℤ, pos, length, All,
}
use aquabsd_pkg_repo.Base.Decimal.{int_text, hex, pad}
use aquabsd_pkg_repo.Kld.{KldFileStat, Linker, Opts, defaults, Process}
use aquabsd_pkg_repo.Kld.Listing.{file_line, stat_action, list_for, heading}
use aquabsd_pkg_repo.Base.Bytes.{Bytes, codes}
use aquabsd_pkg_repo.Base.Getopt.{Opt, getopt}
use aquabsd_pkg_repo.Base.Prog.{done, ◌>>=◌}
use aquabsd_pkg_repo.Kld.Listing.Chain.{Described, file_outs, list_files-Chain}
use aquabsd_pkg_repo.Kld.Listing.Rounds.{Chain}
use aquabsd_pkg_repo.Kld.Main.{parse, parse_one, main}

-- One of the options -d, -f, -h and -v.
abbrev pub IsPlain : Opt → Type 0
IsPlain o = (o.c ≡ b'd') ⊎ ((o.c ≡ b'f') ⊎ ((o.c ≡ b'h') ⊎ (o.c ≡ b'v')))

-- Whether an option is given.
abbrev pub given : ℕ → List Opt → Bool
given c [] = false
given c (o ∷ os) = o.c == c || given c os

-- The options once these have been parsed.
abbrev plain : List Opt → Opts → Opts
plain os opts = record opts {
  show_data = opts.show_data || given b'd' os;
  force = opts.force || given b'f' os;
  humanize = opts.humanize || given b'h' os;
  verbose = opts.verbose || given b'v' os;
}

-- The options that are given, and what they set.
abbrev pub words_of : List Bytes → List Opt
words_of args = getopt (codes "dfhi:lm:n:uv") args

abbrev pub options_of : List Bytes → Opts
options_of args = plain (words_of args) defaults

-- The heading, by whether -h is given.
abbrev pub heading_text : Bool → Bytes
heading_text false = codes "id refs addr                   size name" ++ (10 ∷ [])
heading_text true = codes "id refs addr                size name" ++ (10 ∷ [])

-- What stands in a file's line for its size, by whether -h is given, and behind its name, by whether
-- -v is.
abbrev pub size_text : Linker → Bool → KldFileStat → Bytes
size_text L false f = pad 8 (hex f.size)
size_text L true f = pad 5 (L.humanize_number f.size)

abbrev pub path_text : Bool → KldFileStat → Bytes
path_text false f = []
path_text true f = codes " (" ++ (f.pathname ++ codes ")")

-- A file's line: its number, references, address and size in columns, and its name.
abbrev pub row : Linker → Bool → Bool → KldFileStat → Bytes
row L human path f =
    pad 2 (int_text f.id)
    ++ (b' ' ∷ pad 4 (int_text f.refs))
    ++ (b' ' ∷ pad 18 (codes "0x" ++ hex f.address))
    ++ (b' ' ∷ size_text L human f)
    ++ (b' ' ∷ f.name)
    ++ path_text path f
    ++ (10 ∷ [])

-- The lines of files, of which the kernel can describe each.
abbrev pub rows : Linker → Bool → Bool → List (Option KldFileStat) → List Bytes
rows L human path [] = []
rows L human path (none ∷ fs) = rows L human path fs
rows L human path (some f ∷ fs) = row L human path f ∷ rows L human path fs

module _ (L : Linker) where
  heading-eq-text : (opts : Opts) → heading L opts ≡ heading_text opts.humanize
  unfolding heading pad
  heading-eq-text opts = elim (Bool-cases opts.humanize) [ inl h ↦ rw h refl | inr h ↦ rw h refl ]

  file_line-eq-row :
      (opts : Opts) (f : KldFileStat) → file_line L opts f ≡ row L opts.humanize opts.verbose f
  unfolding file_line
  file_line-eq-row opts f = by_options opts.humanize opts.verbose refl refl
    where
      by_options :
          (human path : Bool)
          → opts.humanize ≡ human
          → opts.verbose ≡ path
          → file_line L opts f ≡ row L human path f
      by_options false false h v = rw (h, v) refl
      by_options false true h v = rw (h, v) refl
      by_options true false h v = rw (h, v) refl
      by_options true true h v = rw (h, v) refl

  file_outs-eq-rows :
      (opts : Opts) (k : L.Kernel) (ids : List ℤ)
      → flat_map (λ i. file_outs L opts (L.kldstat i k)) ids
        ≡ rows L opts.humanize opts.verbose (map (λ i. L.kldstat i k) ids)
  unfolding flat_map file_outs
  file_outs-eq-rows opts k [] = refl
  file_outs-eq-rows opts k (i ∷ ids) =
      let rest = file_outs-eq-rows opts k ids in
      elim (Option-cases (L.kldstat i k)) [
        | inl e ↦ rw e rest
        | inr (f, e) ↦ rw e (cc (file_line-eq-row opts f, rest))
      ]

  parse-plain :
      (os : List Opt) (opts : Opts) (s : Process L)
      → All IsPlain os
      → parse L os opts s ≡ done (plain os opts) s
  unfolding parse parse_one
  parse-plain [] opts s h = λ i.
      done
        (record opts {
          show_data = sym (or-false opts.show_data) i;
          force = sym (or-false opts.force) i;
          humanize = sym (or-false opts.humanize) i;
          verbose = sym (or-false opts.verbose) i;
        })
        s
  parse-plain (o ∷ os) opts s (inl d, h) = rw d (
      parse-plain os (record opts { show_data = true }) s h
      ∙ ap (λ b. done (record (plain os opts) { show_data = b }) s) (sym (or-true opts.show_data)))
  parse-plain (o ∷ os) opts s (inr (inl f), h) = rw f (
      parse-plain os (record opts { force = true }) s h
      ∙ ap (λ b. done (record (plain os opts) { force = b }) s) (sym (or-true opts.force)))
  parse-plain (o ∷ os) opts s (inr (inr (inl m)), h) = rw m (
      parse-plain os (record opts { humanize = true }) s h
      ∙ ap (λ b. done (record (plain os opts) { humanize = b }) s) (sym (or-true opts.humanize)))
  parse-plain (o ∷ os) opts s (inr (inr (inr v)), h) = rw v (
      parse-plain os (record opts { verbose = true }) s h
      ∙ ap (λ b. done (record (plain os opts) { verbose = b }) s) (sym (or-true opts.verbose)))

  -- kld with any of the options -d, -f, -h and -v, in any order and number, and no other: where the
  -- kernel's chain of files ends in zero, the kernel can describe each file of it, and the fuel is
  -- more than their number, main prints the heading, whose column for the size is narrower just if
  -- -h is given, and then the line of each file, in the order of the chain: its id, references and
  -- address in columns, its size, human-readable just if -h is given and else in hexadecimal, its
  -- name, and its path in parentheses just if -v is given. It returns 0.
  pub main-files :
      (fuel : ℕ) (args : List Bytes) (ids : List ℤ) (s : Process L)
      → All IsPlain (words_of args)
      → Chain L L.kldnext s.kernel
          (Described L (options_of args) s.kernel)
          (L.kldnext (pos 0) s.kernel)
          ids
      → length ids < fuel
      → main L fuel args s
        ≡ done 0 (record s {
          stdout =
              (s.stdout ++ (heading_text (given b'h' (words_of args)) ∷ []))
              ++ rows L
                  (given b'h' (words_of args))
                  (given b'v' (words_of args))
                  (map (λ i. L.kldstat i s.kernel) ids);
        })
  unfolding main stat_action list_for
  main-files fuel args ids s p c h =
      let opts : Opts = options_of args in
      rw (parse-plain (words_of args) defaults s p, ◌>>=◌)
        (rw (list_files-Chain L opts fuel ids s c h, ◌>>=◌)
          (λ j. done 0 (record s {
            stdout =
                (s.stdout ++ (heading-eq-text opts j ∷ []))
                ++ file_outs-eq-rows opts s.kernel ids j;
          })))
