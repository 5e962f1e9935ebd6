-- ===== src/Kld/Load/Path.antt =====
-- The search path of `do_load`: which paths are looked at, and what the search then finds.
use aquabsd_pkg_repo.Base.{
  ℕ, ◌+◌, ◌≡◌, ◌≢◌, refl, sym, ◌∙◌, ap, Bool, true, false, none, some, List, [], ◌∷◌, ◌++◌, length,
  Option-cases, Bool-cases, inl, inr, ◌⊎◌, ◌||◌, All, ◌==◌, ◌&&◌,
}
use mathlib.Core.Path.{subst}
use mathlib.Core.List.{append-nil}
use aquabsd_pkg_repo.Base.Bytes.{Bytes, codes, format, strlcpy, strlcat_full, strlcpy_all}
use aquabsd_pkg_repo.Base.Prog.{Outcome, done, fault}
use aquabsd_pkg_repo.Kld.{Linker, FileId, Process, is_some}
use aquabsd_pkg_repo.Kld.Load.{kld_path, join_path, search_from, last_byte}

last_byte_nonempty : (c : ℕ) (r : Bytes) → (d : ℕ) × (last_byte (c ∷ r) ≡ some d)
last_byte_nonempty c [] = (c, refl)
last_byte_nonempty c (d ∷ r) = last_byte_nonempty d r

join_path_full :
    (copied name : Bytes) → copied ≢ [] → join_path copied name (length copied + 1) ≡ some copied
unfolding join_path
join_path_full [] name h = absurd (h refl)
join_path_full (c ∷ r) name h =
    let (d, e) = last_byte_nonempty c r in
    elim (Bool-cases (d == b'/')) [
      | inl t ↦ rw (e, join_path) (rw t (ap some (strlcat_full (c ∷ r) name)))
      | inr f ↦
          rw (e, join_path)
            (rw f (rw (strlcat_full (c ∷ r) (codes "/")) (ap some (strlcat_full (c ∷ r) name))))
    ]

-- For an element of the path that is not empty, the path that do_load builds is the element itself:
-- its buffer has no room for the slash and the name.
pub kld_path-eq-elem : (elem name : Bytes) → elem ≢ [] → kld_path elem name ≡ some elem
unfolding kld_path
kld_path-eq-elem elem name h =
    subst (λ copied. join_path copied name (length elem + 1) ≡ some elem) (sym (strlcpy_all elem))
      (join_path_full elem name h)

-- Whether some element of the search path exists, as a file of any kind.
abbrev pub exists : (L : Linker) → L.Kernel → List Bytes → Bool
exists L k [] = false
exists L k (elem ∷ rest) = is_some (L.stat elem k) || exists L k rest

module _ (L : Linker) where
  -- What the search ends with: it returns whether a file of the search path exists, whatever the
  -- name that it looks for, and the kernel and the standard output are as before.
  abbrev pub Searched : L.Kernel → List Bytes → Process L → Outcome (Process L) Bool → Type 0
  Searched k path s r =
      (errs : List Bytes) × (r ≡ done (exists L k path) (record s { stderr = s.stderr ++ errs }))

  module _ (name elem : Bytes) (here : FileId) (rest : List Bytes) (s : Process L)
      (h : elem ≢ []) where
    search_from_missing :
        L.stat elem s.kernel ≡ none
        → search_from L name here (elem ∷ rest) s ≡ search_from L name here rest s
    unfolding search_from
    search_from_missing e = rw (kld_path-eq-elem elem name h, search_from) (rw e refl)

    search_from_present :
        (there : FileId)
        → L.stat elem s.kernel ≡ some there
        → (errs : List Bytes) × (search_from L name here (elem ∷ rest) s
            ≡ done true (record s { stderr = s.stderr ++ errs }))
    unfolding search_from
    search_from_present there e =
        elim (Bool-cases (there.st_dev == here.st_dev && there.st_ino == here.st_ino)) [
          | inl same ↦ (
            [],
            rw (kld_path-eq-elem elem name h, search_from)
                (rw e
                  (rw same (λ j. done true (record s { stderr = sym (append-nil s.stderr) j })))),
          )
          | inr other ↦ (
            format (codes "%s will be loaded from %s, not the current directory") (name ∷ elem ∷ [])
                ∷ [],
            rw (kld_path-eq-elem elem name h, search_from) (rw e (rw other refl)),
          )
        ]

  -- The search of do_load over a path without empty elements returns whether some element of the
  -- path exists, whatever the name that is looked for, prints nothing but warnings, and leaves the
  -- kernel as it was.
  pub search_from-Searched :
      (name : Bytes) (here : FileId) (path : List Bytes) (s : Process L)
      → All (λ elem. elem ≢ []) path
      → Searched s.kernel path s (search_from L name here path s)
  unfolding search_from
  search_from-Searched name here [] s h =
      ([], λ j. done false (record s { stderr = sym (append-nil s.stderr) j }))
  search_from-Searched name here (elem ∷ rest) s (h, hs) =
      elim (Option-cases (L.stat elem s.kernel)) [
        | inl n ↦
            let (errs, r) = search_from-Searched name here rest s hs in
            (
              errs,
              search_from_missing name elem here rest s h n
                  ∙ r
                  ∙ ap (λ b. done b (record s { stderr = s.stderr ++ errs }))
                      (ap (λ o. is_some o || exists L s.kernel rest) (sym n)),
            )
        | inr (there, e) ↦
            let (errs, r) = search_from_present name elem here rest s h there e in
            (
              errs,
              r
                  ∙ ap (λ b. done b (record s { stderr = s.stderr ++ errs }))
                      (ap (λ o. is_some o || exists L s.kernel rest) (sym e)),
            )
      ]

  -- With an empty element at the front of the path, the search of do_load reads in front of its
  -- buffer, whatever the rest of the path.
  pub search_from_empty :
      (name : Bytes) (here : FileId) (rest : List Bytes) (s : Process L)
      → search_from L name here ([] ∷ rest) s ≡ fault
  unfolding search_from kld_path strlcpy
  search_from_empty name here rest s = refl

  -- What the search comes to at an empty element: undefined, or ended by one of these before.
  abbrev pub AtEmpty : List Bytes → Process L → Outcome (Process L) Bool → Type 0
  AtEmpty path s r =
      ((exists L s.kernel path ≡ false) × (r ≡ fault))
      ⊎ ((exists L s.kernel path ≡ true)
          × ((errs : List Bytes) × (r ≡ done true (record s { stderr = s.stderr ++ errs }))))

  -- The search of do_load over a path with an empty element reads in front of its buffer, just if
  -- none of the elements in front of the first empty one exists; if one does, the search returns
  -- that a file was found, whatever stands behind it.
  pub search_from-empty_element :
      (name : Bytes) (here : FileId) (path rest : List Bytes) (s : Process L)
      → All (λ elem. elem ≢ []) path
      → AtEmpty path s (search_from L name here (path ++ ([] ∷ rest)) s)
  search_from-empty_element name here [] rest s h = inl (refl, search_from_empty name here rest s)
  search_from-empty_element name here (elem ∷ path) rest s (h, hs) =
      elim (Option-cases (L.stat elem s.kernel)) [
        | inr (there, e) ↦ inr (
          ap (λ o. is_some o || exists L s.kernel path) e,
          search_from_present name elem here (path ++ ([] ∷ rest)) s h there e,
        )
        | inl e ↦
            let skip = search_from_missing name elem here (path ++ ([] ∷ rest)) s h e in
            let same : exists L s.kernel (elem ∷ path) ≡ exists L s.kernel path =
              ap (λ o. is_some o || exists L s.kernel path) e in
            elim (search_from-empty_element name here path rest s hs) [
              | inl (f, r) ↦ inl (same ∙ f, skip ∙ r)
              | inr (f, (errs, r)) ↦ inr (same ∙ f, (errs, skip ∙ r))
            ]
      ]
