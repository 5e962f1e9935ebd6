-- ===== src/IfaceTool/Letters.antt =====
-- The words `-i NAME` with options -a and -r, and what main makes of them
-- (packages/aquabsd.alps/iface/src/iface.c).
use aquabsd_pkg_repo.Base.{
  ℕ, ◌<◌, ◌≡◌, refl, ◌∙◌, Bool, true, false, some, List, [], ◌∷◌, bit_or, false, ℤ, All,
}
use aquabsd_pkg_repo.Base.Bytes.{Bytes, codes}
use aquabsd_pkg_repo.Base.Getopt.{getopt}
use aquabsd_pkg_repo.Base.Words.{u32_of_int}
use aquabsd_pkg_repo.Base.Prog.{done, ◌>>=◌}
use aquabsd_pkg_repo.Iface.{Net, Process}
use aquabsd_pkg_repo.IfaceTool.{
  Opts, defaults, do_set_flag, first_char, flag_of, signed, set_flag, parse, parse_one,
}
use aquabsd_pkg_repo.IfaceTool.Several.{word_of}
use aquabsd_pkg_repo.IfaceTool.Options.{change, set_flag_run}

-- The option that adds flags, and the one that removes them.
abbrev pub letter : Bool → Bytes
letter false = codes "-a"
letter true = codes "-r"

-- Options -a and -r, each with the text of its flag, as words of the command line.
abbrev pub option_words : List (Bool × Bytes) → List Bytes
option_words [] = []
option_words ((minus, text) ∷ os) = letter minus ∷ text ∷ option_words os

abbrev pub words : Bytes → List (Bool × Bytes) → List Bytes
words name os = codes "-i" ∷ name ∷ option_words os

-- The options once flags have been collected into a word.
abbrev pub collected : Bytes → ℕ → Opts
collected name w = record defaults { name = some name; action = do_set_flag; flag = w }

module _ (N : Net) where
  -- An option whose letter stands for adding or removing the flag at a place below 16.
  abbrev pub Stands : Bool → Bool × Bytes → ℕ → Type 0
  Stands adds (minus, text) j =
      (v : ℤ) × (flag_of N (first_char text) ≡ some v)
      × (signed N minus v ≡ change adds j)
      × (j < 16)

  -- The options stand for adding the flags at the places of a list, or for removing them.
  pub data AllStand (adds : Bool) : List (Bool × Bytes) → List ℕ → Type 0 where
    nothing : AllStand adds [] []
    one_more :
        {o : Bool × Bytes} {os : List (Bool × Bytes)} {j : ℕ} {js : List ℕ}
        → Stands adds o j
        → AllStand adds os js
        → AllStand adds (o ∷ os) (j ∷ js)

  pub AllStand-small :
      (adds : Bool) {os : List (Bool × Bytes)} {js : List ℕ}
      → AllStand adds os js
      → All (λ j. j < 16) js
  AllStand-small adds nothing = tt
  AllStand-small adds (one_more (v, e, signed_v, h) rest) = (h, AllStand-small adds rest)

  parsed_one :
      (minus : Bool) (text : Bytes) (rest : List Bytes) (opts opts' : Opts) (s : Process N)
      → set_flag N minus text (record opts { action = do_set_flag }) s ≡ done opts' s
      → parse N (getopt (codes "a:r:i:") (letter minus ∷ text ∷ rest)) opts s
        ≡ parse N (getopt (codes "a:r:i:") rest) opts' s
  unfolding parse parse_one getopt
  parsed_one false text rest opts opts' s e = rw (e, ◌>>=◌) refl
  parsed_one true text rest opts opts' s e = rw (e, ◌>>=◌) refl

  parsed_all :
      (adds : Bool) (name : Bytes) (w : ℕ) {os : List (Bool × Bytes)} {js : List ℕ} (s : Process N)
      → AllStand adds os js
      → parse N (getopt (codes "a:r:i:") (option_words os)) (collected name w) s
        ≡ done (collected name (word_of adds w js)) s
  unfolding parse getopt
  parsed_all adds name w s nothing = refl
  parsed_all adds name w s (one_more {o = (minus, text)} {os = os} (v, e, signed_v, h) rest) =
      parsed_one minus text (option_words os) (collected name w) _ s
        (set_flag_run N minus text v (collected name w) s e)
      ∙ rw signed_v (parsed_all adds name (bit_or w (u32_of_int (change adds _))) s rest)

  pub parsed :
      (adds : Bool) (name : Bytes) {o : Bool × Bytes} {os : List (Bool × Bytes)} {j : ℕ}
      {js : List ℕ} (s : Process N)
      → AllStand adds (o ∷ os) (j ∷ js)
      → parse N (getopt (codes "a:r:i:") (words name (o ∷ os))) defaults s
        ≡ done (collected name (word_of adds 0 (j ∷ js))) s
  unfolding parse parse_one getopt
  parsed adds name {o = (minus, text)} {os = os} s (one_more (v, e, signed_v, h) rest) =
      parsed_one minus text (option_words os) (record defaults { name = some name }) _ s
        (set_flag_run N minus text v (collected name 0) s e)
      ∙ rw signed_v (parsed_all adds name (bit_or 0 (u32_of_int (change adds _))) s rest)
