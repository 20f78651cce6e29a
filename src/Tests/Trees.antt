-- ===== src/Tests/Trees.antt =====
-- A forest of five filters in pre-order: 0 with the children 1 and 3, 2 below 1, and a second root 4.
use depict_isosurfaces.Prelude.{
  Bool, ℕ, ◌<◌, ◌≡◌, refl, true, false, ◌||◌, List, length, some, [], ◌∷◌, arith, ◌==◌,
  if◌then◌else◌, elem, ◌⊎◌, ◌↔◌,
}
use depict_isosurfaces.Tree.Order.{TreeOps, IsPreOrder, is_child, subtree, subtree_iff}
use depict_isosurfaces.Tree.Caches.{Caches, reparent_refused, reparent_clear}
use depict_isosurfaces.Tree.Hazards.{
  Nodes, filters, strip_hazardous_contents, strip_hazardous_contents-dangling,
}
use depict_isosurfaces.Tree.Paths.{
  Text, path_loop, test_path, has_path, nonce_loop, nonce_path, serialise_to_string_paths,
}
use depict_isosurfaces.Text.Decimal.{dec}
use depict_isosurfaces.State.Stashes.{text_eq}
use depict_isosurfaces.Tree.Paths.Named.{AreApart, Extends}
use depict_isosurfaces.Tree.Paths.Parents.{serialise_to_string_paths_lem}
use depict_isosurfaces.Tree.Cleared.{reparent_lem}

abbrev pub depths : ℕ → ℕ
depths i = if i == 2 then 2 else if (i == 1) || (i == 3) then 1 else 0

abbrev parents : ℕ → ℕ
parents i = if i == 2 then 1 else 0

abbrev pub forest : TreeOps
forest = record { size = 5; depth = depths; parent = parents }

pub forest-IsPreOrder : IsPreOrder forest
forest-IsPreOrder = record {
  parent_before = λ i h d. ground arith;
  depth_parent = λ i h d. ground arith;
  between = λ i j h d k m. ground arith;
}

all_cached : Caches
all_cached i = true

subtree_of_1 : subtree forest 1 ≡ 1 ∷ 2 ∷ []
unfolding subtree
subtree_of_1 = refl

subtree_iff_example :
    (elem 2 (subtree forest 1) ≡ true) ↔ ((◌≡◌ {A = ℕ} 2 1) ⊎ (is_child forest 1 2 ≡ true))
subtree_iff_example = subtree_iff forest forest-IsPreOrder 1 2 (omega arith) (omega arith)

reparent_lem_example :
    (reparent_refused forest 1 3 ≡ ((3 == 1) || is_child forest 1 3))
    × (((◌≡◌ {A = ℕ} 2 1) ⊎ (is_child forest 1 2 ≡ true))
        → reparent_clear forest 1 all_cached 2 ≡ false)
    × (2 < 1 → reparent_clear forest 1 all_cached 2 ≡ all_cached 2)
reparent_lem_example =
    reparent_lem forest forest-IsPreOrder 1 3 2 all_cached (omega arith) (omega arith) (omega arith)

abbrev is_one : ℕ → Bool
is_one f = f == 1

-- A hazardous root with a child, and a second root.
abbrev two_roots : Nodes
two_roots = (0, 1) ∷ (1, 3) ∷ (0, 2) ∷ []

strip_run : strip_hazardous_contents is_one two_roots ≡ ((0, 2) ∷ [], 1 ∷ 3 ∷ 2 ∷ [])
unfolding strip_hazardous_contents
strip_run = refl

strip_hazardous_contents-dangling_example :
    (elem 2 (filters (strip_hazardous_contents is_one ((0, 1) ∷ (0, 2) ∷ [])).0) ≡ true)
    × (elem 2 (strip_hazardous_contents is_one ((0, 1) ∷ (0, 2) ∷ [])).1 ≡ true)
strip_hazardous_contents-dangling_example =
    strip_hazardous_contents-dangling is_one 0 1 0 2 [] refl refl (omega arith)

-- All filters have the same type.
abbrev one_type : ℕ → Text
one_type i = b'a' ∷ []

serialise_run :
    serialise_to_string_paths forest one_type
    ≡ some (
        (b'/' ∷ b'a' ∷ [])
        ∷ (b'/' ∷ b'a' ∷ b'/' ∷ b'a' ∷ [])
        ∷ (b'/' ∷ b'a' ∷ b'/' ∷ b'a' ∷ b'/' ∷ b'a' ∷ [])
        ∷ (b'/' ∷ b'a' ∷ b'a' ∷ b'$' ∷ b'>' ∷ b'1' ∷ [])
        ∷ (b'a' ∷ b'$' ∷ b'>' ∷ b'1' ∷ [])
        ∷ [])
unfolding serialise_to_string_paths path_loop test_path has_path text_eq nonce_loop nonce_path dec
serialise_run = refl

serialise_to_string_paths_lem_example :
    (paths : List Text) × (serialise_to_string_paths forest one_type ≡ some paths)
    × (length paths ≡ 5)
    × AreApart forest forest-IsPreOrder one_type paths
    × ((i : ℕ) → i < 5 → 0 < forest.depth i → Extends forest forest-IsPreOrder one_type paths i)
serialise_to_string_paths_lem_example =
    serialise_to_string_paths_lem forest forest-IsPreOrder one_type (omega arith)
