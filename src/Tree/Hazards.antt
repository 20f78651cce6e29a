-- ===== src/Tree/Hazards.antt =====
-- `FilterTree::stripHazardousContents` of src/backend/filtertree.cpp, over the pre-order as pairs of a
-- depth and a filter. What is deleted is recorded in the order of the deletions. A
-- filter that is deleted but stays in the tree is asked as if it were still there.
use depict_isosurfaces.Prelude.{
  ℕ, ◌≤◌, ◌≡◌, refl, Bool, true, false, List, [], ◌∷◌, ◌++◌, Option, none, some, arith, ltb,
  if◌then◌else◌, elem, elem-append, Bool-cases, inl, inr, All,
}

abbrev pub Nodes : Type 0
Nodes = List (ℕ × ℕ)

abbrev pub filters : Nodes → List ℕ
filters [] = []
filters ((d, f) ∷ nodes) = f ∷ filters nodes

-- Whether a node of this depth went with the last branch that was erased.
abbrev is_erased : Option ℕ → ℕ → Bool
is_erased none d = false
is_erased (some branch) d = ltb branch d

-- The nodes that stay and the filters that are deleted. At a hazardous filter the inner loop deletes from
-- it to `filters.end()`, and `erase` takes its branch out of the tree.
unfoldable pub strip_from : (ℕ → Bool) → Option ℕ → Nodes → Nodes × List ℕ
strip_from can_be_hazardous branch [] = ([], [])
strip_from can_be_hazardous branch ((d, f) ∷ nodes) =
    let inside = strip_from can_be_hazardous branch nodes in
    let cut = strip_from can_be_hazardous (some d) nodes in
    let on = strip_from can_be_hazardous none nodes in
    if is_erased branch d
    then inside
    else if can_be_hazardous f
    then (cut.0, (f ∷ filters nodes) ++ cut.1)
    else ((d, f) ∷ on.0, on.1)

unfoldable pub strip_hazardous_contents : (ℕ → Bool) → Nodes → Nodes × List ℕ
unfolding strip_from
strip_hazardous_contents can_be_hazardous nodes = strip_from can_be_hazardous none nodes

module _ (can_be_hazardous : ℕ → Bool) where
  abbrev pub IsSafe : Nodes → Type 0
  IsSafe = All (λ n. can_be_hazardous n.1 ≡ false)

  strip_from-IsSafe :
      (branch : Option ℕ) (nodes : Nodes) → IsSafe (strip_from can_be_hazardous branch nodes).0
  unfolding strip_from
  strip_from-IsSafe branch [] = tt
  strip_from-IsSafe branch ((d, f) ∷ nodes) = elim (Bool-cases (is_erased branch d)) [
    | inl u ↦ rw u (strip_from-IsSafe branch nodes)
    | inr u ↦ elim (Bool-cases (can_be_hazardous f)) [
      | inl v ↦ rw (u, v) (strip_from-IsSafe (some d) nodes)
      | inr v ↦ rw (u, v) (v, strip_from-IsSafe none nodes)
    ]
  ]

  -- A hazardous filter is deleted, or it goes with the branch above it.
  strip_from-deleted :
      (branch : Option ℕ) (d f : ℕ) (nodes : Nodes)
      → is_erased branch d ≡ false
      → can_be_hazardous f ≡ true
      → (p : ℕ) → elem p (f ∷ filters nodes) ≡ true
      → elem p (strip_from can_be_hazardous branch ((d, f) ∷ nodes)).1 ≡ true
  unfolding strip_from
  strip_from-deleted branch d f nodes u v p e =
      let cut = (strip_from can_be_hazardous (some d) nodes).1 in
      rw (u, v) (ground (arith, elem-append p (f ∷ filters nodes) cut, e))

  -- No hazardous filter is left in the tree.
  pub strip_hazardous_contents-IsSafe :
      (nodes : Nodes) → IsSafe (strip_hazardous_contents can_be_hazardous nodes).0
  unfolding strip_hazardous_contents
  strip_hazardous_contents-IsSafe nodes = strip_from-IsSafe none nodes

  -- A filter that is not hazardous and comes after a hazardous first one, outside its branch, stays in the
  -- tree although it is deleted.
  pub strip_hazardous_contents-dangling :
      (d f e g : ℕ) (nodes : Nodes)
      → can_be_hazardous f ≡ true
      → can_be_hazardous g ≡ false
      → e ≤ d
      → (elem g (filters (strip_hazardous_contents can_be_hazardous ((d, f) ∷ (e, g) ∷ nodes)).0)
          ≡ true)
        × (elem g (strip_hazardous_contents can_be_hazardous ((d, f) ∷ (e, g) ∷ nodes)).1 ≡ true)
  unfolding strip_hazardous_contents strip_from
  strip_hazardous_contents-dangling d f e g nodes h k l =
      let stays : ltb d e ≡ false = ground arith in
      (
        rw (h, stays, k) (ground arith),
        strip_from-deleted none d f ((e, g) ∷ nodes) refl h g (ground arith),
      )
