-- ===== src/Tests/UndoRedo.antt =====
-- src/backend/state.cpp at small states; a tree is a number, and its clone the same number.
use depict_isosurfaces.Prelude.{
  elem, All, ◌<◌, ◌≤◌, ◌⊎◌, true, ℕ, ◌≡◌, ◌≢◌, ◌≤◌, refl, true, false, List, [], ◌∷◌, ◌++◌, some,
  arith, length,
}
use depict_isosurfaces.State.Undo.{
  Stacks, unmodified, contents, push_undo_stack, pop_undo_stack, pop_redo_stack, try_change,
  max_undo_size,
}
use depict_isosurfaces.State.Limits.{
  IsBounded, edit, undo_step, here, next, Reach-IsBounded, redo_after_undo, try_change_refused,
  refused_state,
}
use depict_isosurfaces.State.FilterMap.{choose_id, choose_id_lem, Chooses, id, unset, out_of_range}
use depict_isosurfaces.State.Stashes.{merge_stashes, merge_suffix}
use depict_isosurfaces.State.Merge.{Merges, merge_stashes-Merges}

abbrev clone : ℕ → ℕ
clone t = t

abbrev fresh : Stacks ℕ
fresh = record { filter_tree = 0; undo = []; redo = []; level = unmodified }

abbrev edited : Stacks ℕ
edited = record (push_undo_stack clone fresh) { filter_tree = 1 }

edited_run : edited ≡ record { filter_tree = 1; undo = 0 ∷ []; redo = []; level = unmodified }
unfolding push_undo_stack
edited_run = refl

abbrev undone : Stacks ℕ
undone = record { filter_tree = 0; undo = []; redo = 1 ∷ []; level = contents }

undo_run : pop_undo_stack clone true edited ≡ some undone
unfolding push_undo_stack pop_undo_stack
undo_run = refl

Reach-IsBounded_example : IsBounded undone × (undone.redo ≢ [] → length undone.undo ≤ max_undo_size)
Reach-IsBounded_example =
    Reach-IsBounded clone {s = fresh} {s' = undone} (omega arith)
      (next (next here (edit 1)) (undo_step true undo_run))

abbrev once : Stacks ℕ
once = record { filter_tree = 1; undo = 0 ∷ []; redo = []; level = unmodified }

redo_after_undo_example :
    (s' : Stacks ℕ) × (pop_undo_stack clone true once ≡ some s')
    × (s'.filter_tree ≡ 0)
    × (pop_redo_stack clone s'
        ≡ some (record { filter_tree = 1; undo = 0 ∷ []; redo = []; level = contents }))
redo_after_undo_example = redo_after_undo clone once [] 0 refl (omega arith)

try_change_refused_example :
    try_change clone (λ t. (false, t)) undone ≡ some (false, refused_state clone undone 0)
try_change_refused_example = try_change_refused clone (λ t. (false, t)) undone 0 refl

choose_run : choose_id (0 ∷ 2 ∷ []) ≡ id 1
unfolding choose_id
choose_run = refl

dense_run : choose_id (0 ∷ 1 ∷ 2 ∷ []) ≡ unset
unfolding choose_id
dense_run = refl

abbrev name_a : List ℕ
name_a = b'a' ∷ []

abbrev stashes : List (List ℕ × ℕ)
stashes = (name_a, 1) ∷ []

abbrev others : List (List ℕ × ℕ)
others = (name_a, 2) ∷ ([], 3) ∷ []

merge_run : merge_stashes stashes others ≡ (name_a, 1) ∷ (name_a ++ merge_suffix, 2) ∷ ([], 3) ∷ []
unfolding merge_stashes
merge_run = refl

merge_stashes-Merges_example : Merges stashes others (merge_stashes stashes others)
merge_stashes-Merges_example = merge_stashes-Merges stashes others

-- One filter is left, with the id 4, when the others have been removed.
removed_run : choose_id (4 ∷ []) ≡ out_of_range
unfolding choose_id
removed_run = refl

choose_id_lem_example :
    ((i : ℕ) × (elem i (0 ∷ 2 ∷ []) ≡ true) × (2 < i) × (choose_id (0 ∷ 2 ∷ []) ≡ out_of_range))
    ⊎ (All (λ i. i ≤ 2) (0 ∷ 2 ∷ []) × Chooses (0 ∷ 2 ∷ []) 2 (choose_id (0 ∷ 2 ∷ [])))
choose_id_lem_example = choose_id_lem (0 ∷ 2 ∷ [])
