-- ===== src/Tests/Refresh.antt =====
-- Where a refresh of the small forest begins, and what its collector owns.
use depict_isosurfaces.Prelude.{
  ℕ, ◌≡◌, refl, Bool, true, false, not, ◌&&◌, ◌||◌, List, [], ◌∷◌, some, arith, ◌==◌, if◌then◌else◌,
  elem, get_elem?,
}
use depict_isosurfaces.Tests.Trees.{forest, forest-IsPreOrder}
use depict_isosurfaces.Tree.Masks.{FilterMasks, own, mask_of}
use depict_isosurfaces.Tree.Blocks.{block_types_lem}
use depict_isosurfaces.Tree.Masks.{block_types}
use depict_isosurfaces.Tree.Starts.{refresh_starts, started}
use depict_isosurfaces.Tree.Seeds.{
  IsApart, refresh_starts-IsApart, refresh_starts_cover, refresh_starts_skip,
}
use depict_isosurfaces.Tree.Collector.{Collector, track_pointers, collect_to_level, count, tally}
use depict_isosurfaces.Tree.Owned.{
  IsSane, IsOutput, Reach, start, next, Reach-IsSane, collect_to_level-lost,
}
use depict_isosurfaces.Tree.Owned.{track}

-- Filters 1 and 3 have caches and block what 0 emits.
abbrev masks : FilterMasks
masks = record {
  refresh_emit = λ i b. i == b;
  refresh_block = λ i b. ((i == 1) || (i == 3)) && (b == 0);
  have_cache = λ i. (i == 1) || (i == 3);
  mask_all = λ b. true;
}

abbrev childs : ℕ → List ℕ
childs i = if i == 0 then 1 ∷ 3 ∷ [] else if i == 1 then 2 ∷ [] else []

abbrev leaf : ℕ → Bool
leaf i = not ((i == 0) || (i == 1))

starts_run : refresh_starts forest masks childs 2 leaf ≡ 1 ∷ 3 ∷ 4 ∷ []
unfolding refresh_starts
starts_run = refl

refresh_starts-IsApart_example :
    IsApart forest forest-IsPreOrder (refresh_starts forest masks childs 2 leaf)
refresh_starts-IsApart_example = refresh_starts-IsApart forest forest-IsPreOrder masks childs 2 leaf

refresh_starts_cover_example : started forest (refresh_starts forest masks childs 2 leaf) 2 ≡ true
refresh_starts_cover_example =
    refresh_starts_cover forest forest-IsPreOrder masks childs 2 leaf 2 (omega arith) refl

root_not_started : started forest (refresh_starts forest masks childs 2 leaf) 0 ≡ false
unfolding refresh_starts
root_not_started = refl

refresh_starts_skip_example :
    (leaf 0 ≡ false) × (masks.have_cache 1 ≡ true) × (masks.refresh_block 1 0 ≡ true)
refresh_starts_skip_example =
    refresh_starts_skip forest forest-IsPreOrder masks childs 2 leaf 0 0 1 (omega arith)
      root_not_started (omega arith) refl (own 0 0 refl) refl (omega arith) (omega arith)

block_types_lem_example : mask_of (block_types forest masks childs 2) 0 0 ≡ (false && false)
block_types_lem_example = block_types_lem forest masks childs 2 0 0 (omega arith) (omega arith)

-- Three levels of streams; those above 10 have an owner of their own.
abbrev owned : ℕ → Bool
owned p = elem p (11 ∷ 12 ∷ [])

abbrev fresh : Collector
fresh = record { nodes = []; forgotten_nodes = []; deleted = [] }

first-IsOutput : IsOutput owned fresh []
unfolding count
first-IsOutput = record { distinct = λ p. omega arith; live = λ p e. absurd (cc) }

abbrev primed : Collector
primed = track_pointers owned [] fresh

second-IsOutput : IsOutput owned primed (5 ∷ 11 ∷ [])
unfolding count track_pointers
second-IsOutput = record { distinct = λ p. ground arith; live = λ p e. refl }

abbrev tracked : Collector
tracked = track_pointers owned (5 ∷ 11 ∷ []) primed

tracked-Reach : Reach owned tracked
tracked-Reach =
    next primed tracked (next fresh primed start (track fresh [] first-IsOutput))
      (track primed (5 ∷ 11 ∷ []) second-IsOutput)

Reach-IsSane_example : IsSane owned tracked
Reach-IsSane_example = Reach-IsSane owned tracked tracked-Reach

level_of_5 : get_elem? tracked.nodes 1 ≡ some (5 ∷ [])
unfolding track_pointers
level_of_5 = refl

collect_to_level-lost_example : (tally 5 tracked ≡ 1) × (tally 5 (collect_to_level 1 tracked) ≡ 0)
collect_to_level-lost_example =
    collect_to_level-lost owned tracked 1 5 (5 ∷ []) tracked-Reach level_of_5 refl
