-- ===== src/Settings/Blocks.antt =====
-- Which blocks the settings of libsettings.c hold, counted, and what `setting_free` frees of them.
use aquabsd_pkg_repo.Base.{
  ℕ, ◌+◌, ◌≤◌, ◌<◌, ◌≡◌, refl, Option, none, some, List, [], ◌∷◌, ◌++◌, ◌==◌, if◌then◌else◌,
  Bool-cases, inl, inr, ==_self, arith, pos,
}
use aquabsd_pkg_repo.Base.Prog.{done, ◌>>=◌, ◌>>◌}
use aquabsd_pkg_repo.Settings.{Owned, Setting, Process, release, free, free_owned}
use aquabsd_pkg_repo.Settings.Access.{setting_free}

-- How often a block stands in a list.
abbrev pub count : ℕ → List ℕ → ℕ
count n [] = 0
count n (b ∷ r) = (if b == n then 1 else 0) + count n r

pub count-append : (n : ℕ) (bs cs : List ℕ) → count n (bs ++ cs) ≡ count n bs + count n cs
count-append n [] cs = omega arith
count-append n (b ∷ bs) cs = omega (arith, count-append n bs cs)

-- The blocks are all allocated, each as often as it stands in the list.
abbrev pub Holds : List ℕ → List ℕ → Type 0
Holds bs live = (n : ℕ) → count n bs ≤ count n live

pub release-count :
    (block : ℕ) (live : List ℕ)
    → 0 < count block live
    → (rest : List ℕ) × (release block live ≡ some rest)
      × ((n : ℕ) → count n live ≡ (if block == n then 1 else 0) + count n rest)
unfolding release
release-count block [] h = absurd (omega arith)
release-count block (b ∷ r) h = elim (Bool-cases (b == block)) [
  | inl same ↦ (r, rw same refl, λ n. ground arith)
  | inr other ↦
      let (rest, e, c) = release-count block r (ground arith) in
      (b ∷ rest, rw other (rw e refl), λ n. omega (arith, c n))
]

abbrev pub block_list : {A : Type 0} → Option (Owned A) → List ℕ
block_list none = []
block_list (some p) = p.block ∷ []

-- The blocks of a setting in front of others, and those of a list of settings.
abbrev pub blocks_onto : Setting → List ℕ → List ℕ
blocks_onto setting bs =
    block_list setting.key
    ++ (block_list setting.descr ++ (block_list setting.contents ++ (block_list setting.oid ++ bs)))

abbrev pub blocks_of : List Setting → List ℕ
blocks_of [] = []
blocks_of (x ∷ xs) = blocks_onto x (blocks_of xs)

pub count-blocks_onto :
    (n : ℕ) (x : Setting) (bs : List ℕ)
    → count n (blocks_onto x bs) ≡ count n (blocks_onto x []) + count n bs
count-blocks_onto n x bs =
    let k = block_list x.key in
    let d = block_list x.descr in
    let c = block_list x.contents in
    let o = block_list x.oid in
    omega (
      arith,
      count-append n k (d ++ (c ++ (o ++ bs))),
      count-append n d (c ++ (o ++ bs)),
      count-append n c (o ++ bs),
      count-append n o bs,
      count-append n k (d ++ (c ++ (o ++ []))),
      count-append n d (c ++ (o ++ [])),
      count-append n c (o ++ []),
      count-append n o [],
    )

pub count-blocks_of_append :
    (n : ℕ) (xs : List Setting) (y : Setting)
    → count n (blocks_of (xs ++ (y ∷ []))) ≡ count n (blocks_of xs) + count n (blocks_onto y [])
count-blocks_of_append n [] y = omega arith
count-blocks_of_append n (x ∷ xs) y = omega (
  arith,
  count-blocks_onto n x (blocks_of (xs ++ (y ∷ []))),
  count-blocks_onto n x (blocks_of xs),
  count-blocks_of_append n xs y,
)

-- Freeing a pointer whose block is held.
pub free_owned-Holds :
    {A : Type 0} (p : Option (Owned A)) (bs : List ℕ) (s : Process)
    → Holds (block_list p ++ bs) s.live
    → (live : List ℕ) × (free_owned p s ≡ done tt (record s { live = live })) × Holds bs live
unfolding free_owned free
free_owned-Holds none bs s h = (s.live, refl, h)
free_owned-Holds (some p) bs s h =
    let (rest, e, c) =
      release-count p.block s.live
        (let here = h p.block in let one = ==_self p.block in ground arith) in
    (rest, rw (e, free_owned, free) refl, λ n. omega (arith, h n, c n))

-- setting_free of a setting whose blocks are held returns 0, and leaves what else is held.
pub setting_free-Holds :
    (setting : Setting) (bs : List ℕ) (s : Process)
    → Holds (blocks_onto setting bs) s.live
    → (live : List ℕ) × (setting_free (some setting) s ≡ done (pos 0) (record s { live = live }))
      × Holds bs live
unfolding setting_free
setting_free-Holds setting bs s h =
    let o = block_list setting.oid ++ bs in
    let c = block_list setting.contents ++ o in
    let d = block_list setting.descr ++ c in
    let (l₁, e₁, h₁) = free_owned-Holds setting.key d s h in
    let (l₂, e₂, h₂) = free_owned-Holds setting.descr c (record s { live = l₁ }) h₁ in
    let (l₃, e₃, h₃) = free_owned-Holds setting.contents o (record s { live = l₂ }) h₂ in
    let (l₄, e₄, h₄) = free_owned-Holds setting.oid bs (record s { live = l₃ }) h₃ in
    (l₄, rw (e₁, ◌>>=◌, ◌>>◌) (rw (e₂, ◌>>=◌) (rw (e₃, ◌>>=◌) (rw (e₄, ◌>>=◌) refl))), h₄)
