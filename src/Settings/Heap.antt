-- ===== src/Settings/Heap.antt =====
-- The heap of libsettings.c: a fresh block, and the release of the blocks in front.
use aquabsd_pkg_repo.Base.{ℕ, suc, ◌≡◌, refl, ◌∙◌, false, some, List, ◌∷◌, ◌==◌, ==_self, arith}
use aquabsd_pkg_repo.Settings.{Process, release}

-- Two states that differ in the heap alone.
abbrev pub Quiet : Process → Process → Type 0
Quiet s t = (t.error_str ≡ s.error_str) × (t.stdout ≡ s.stdout) × (t.stderr ≡ s.stderr)

pub Quiet-trans : (s t u : Process) → Quiet s t → Quiet t u → Quiet s u
Quiet-trans s t u (a, b, c) (d, e, f) = (d ∙ a, e ∙ b, f ∙ c)

-- The state behind a fresh block.
abbrev pub allocated : Process → Process
allocated s = record s { next = suc s.next; live = s.next ∷ s.live }

pub release-first : (block : ℕ) (live : List ℕ) → release block (block ∷ live) ≡ some live
unfolding release
release-first block live = rw (==_self block) refl

pub release-second :
    (block : ℕ) (live : List ℕ) → release block (suc block ∷ block ∷ live) ≡ some (suc block ∷ live)
unfolding release
release-second block live =
    let apart : (suc block == block) ≡ false = ground arith in rw apart (rw (==_self block) refl)
