-- ===== src/Tests/Flow.antt =====
-- A refresh of the small forest from three starts, each filter adding its number to the streams.
use depict_isosurfaces.Prelude.{
  ℕ, ◌<◌, ◌≡◌, refl, Bool, true, false, not, ◌||◌, List, [], ◌∷◌, some, arith, ◌==◌, elem, All,
}
use depict_isosurfaces.Tests.Trees.{forest, forest-IsPreOrder}
use depict_isosurfaces.Tree.Refresh.{Data, Run, refresh_filter_tree}
use depict_isosurfaces.Tree.Collector.{forget_pointers, collect_to_level}
use depict_isosurfaces.Tree.Calls.{IsCall}
use depict_isosurfaces.Tree.Bases.{Covers, refresh_filter_tree_lem}

abbrev leaf : ℕ → Bool
leaf i = not ((i == 0) || (i == 1))

abbrev owned : ℕ → Bool
owned p = false

abbrev add_number : ℕ → Data → ℕ × Data
add_number i input = (0, i ∷ input)

abbrev starts : List ℕ
starts = 4 ∷ 1 ∷ 3 ∷ []

leaf_law : (i : ℕ) → i < 5 → 0 < forest.depth i → leaf (forest.parent i) ≡ false
leaf_law i h d = ground arith

starts_inside : (b : ℕ) → elem b starts ≡ true → b < 5
starts_inside b e = ground arith

-- The calls and the output.
refresh_run :
    refresh_filter_tree forest leaf owned add_number starts
    ≡ some (record {
      in_data_stack = [];
      out_data = (4, 4 ∷ []) ∷ (2, 2 ∷ 1 ∷ []) ∷ (3, 3 ∷ []) ∷ [];
      collector = record { nodes = []; forgotten_nodes = 1 ∷ []; deleted = [] };
      calls = (4, []) ∷ (1, []) ∷ (2, 1 ∷ []) ∷ (3, []) ∷ [];
      err_code = 0;
    })
unfolding refresh_filter_tree forget_pointers collect_to_level
refresh_run = refl

refresh_filter_tree_lem_example :
    (r : Run) × (refresh_filter_tree forest leaf owned add_number starts ≡ some r)
    × All (IsCall forest forest-IsPreOrder leaf leaf_law owned add_number starts) r.calls
    × (r.err_code ≡ 0
        → Covers forest forest-IsPreOrder leaf leaf_law owned add_number starts starts r)
refresh_filter_tree_lem_example =
    refresh_filter_tree_lem forest forest-IsPreOrder leaf leaf_law owned add_number starts
      starts_inside
