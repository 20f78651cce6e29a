-- ===== src/Tests/Ids.antt =====
-- Ids of elements, and the outputs of a refresh, at small lists.
use depict_isosurfaces.Prelude.{ℕ, ◌≡◌, refl, Bool, [], ◌∷◌, some, ◌==◌, elem}
use depict_isosurfaces.Basics.Ids.{IdList, get_pos, get_id, gen_id, kill_by_pos}
use depict_isosurfaces.Basics.IdMoves.{Reach, start, gen, kill, get_pos-get_id}
use depict_isosurfaces.Basics.Sort.{IsDistinct}
use depict_isosurfaces.Tree.Outputs.{Outputs, scrub, streams, HasNoEmpty, scrub_lem}

-- Three elements with the ids 0, 2 and 1.
abbrev ids : IdList
ids = (0, 0) ∷ (1, 2) ∷ (2, 1) ∷ []

gen_run : gen_id 3 ((0, 0) ∷ (1, 2) ∷ []) ≡ some (1, (0, 0) ∷ (1, 2) ∷ (3, 1) ∷ [])
unfolding gen_id
gen_run = refl

kill_run : kill_by_pos 0 ids ≡ (0, 2) ∷ (1, 1) ∷ []
unfolding kill_by_pos
kill_run = refl

first_gen : gen_id 0 [] ≡ some (0, (0, 0) ∷ [])
unfolding gen_id
first_gen = refl

second_gen : gen_id 1 ((0, 0) ∷ []) ≡ some (1, (0, 0) ∷ (1, 1) ∷ [])
unfolding gen_id
second_gen = refl

two_ids : Reach ((0, 0) ∷ (1, 1) ∷ [])
two_ids =
    gen 1 1 ((0, 0) ∷ []) ((0, 0) ∷ (1, 1) ∷ []) second_gen
      (gen 0 0 [] ((0, 0) ∷ []) first_gen start)

one_id : Reach (kill_by_pos 0 ((0, 0) ∷ (1, 1) ∷ []))
one_id = kill 0 ((0, 0) ∷ (1, 1) ∷ []) two_ids

id_of_first : get_id 0 (kill_by_pos 0 ((0, 0) ∷ (1, 1) ∷ [])) ≡ some 1
unfolding get_id kill_by_pos
id_of_first = refl

get_pos-get_id_example : get_pos 1 (kill_by_pos 0 ((0, 0) ∷ (1, 1) ∷ [])) ≡ some 0
get_pos-get_id_example =
    get_pos-get_id 0 1 (kill_by_pos 0 ((0, 0) ∷ (1, 1) ∷ [])) one_id id_of_first

-- The second filter repeats the streams of the first.
abbrev outputs : Outputs
outputs = (0, 4 ∷ 5 ∷ []) ∷ (1, 5 ∷ 4 ∷ []) ∷ (2, 5 ∷ 6 ∷ []) ∷ []

scrub_run : scrub [] outputs ≡ (0, 4 ∷ 5 ∷ []) ∷ (2, 6 ∷ []) ∷ []
unfolding scrub
scrub_run = refl

scrub_lem_example :
    IsDistinct (streams (scrub [] outputs))
    × ((p : ℕ) → elem p (streams (scrub [] outputs)) ≡ elem p (streams outputs))
    × HasNoEmpty (scrub [] outputs)
scrub_lem_example = scrub_lem outputs

abbrev is_five : ℕ → Bool
is_five p = p == 5
