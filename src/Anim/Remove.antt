-- ===== src/Anim/Remove.antt =====
-- `PropertyAnimator` of src/backend/animator.cpp: its key frames, and the operations that add, remap
-- and remove them.
use depict_isosurfaces.Prelude.{
  ℕ, zero, suc, ◌+◌, ◌-◌, ◌<◌, ◌≡◌, refl, ap, ◌∙◌, Bool, true, false, List, [], ◌∷◌, ◌++◌, Option,
  none, some, arith, max, All, length, get_elem?, set, take, map, length-map, ◌==◌, if◌then◌else◌,
  Option-cases, inl, inr,
}
use depict_isosurfaces.Basics.Erase.{
  vector_multi_erase, vector_multi_erase_lem, unflagged, erase_at, erase_down, erase_down-sort,
  unlisted,
}
use depict_isosurfaces.Basics.Sort.{
  sort, sort_by, IsDistinct, IsAscending, IsAscending-fits, sort-IsAscending, sort_by-All,
}
use depict_isosurfaces.Anim.Frame.{FrameProperties, get_max_frame, remap_id}

-- The class has the vector `keyFrames` and nothing else.
abbrev pub KeyFrames : Type 0
KeyFrames = List FrameProperties

unfoldable pub add_prop : FrameProperties → KeyFrames → KeyFrames
add_prop p ks = ks ++ p ∷ []

unfoldable pub get_nth_key_frame : ℕ → KeyFrames → Option FrameProperties
get_nth_key_frame n ks = get_elem? ks n

max_frame_from : ℕ → KeyFrames → ℕ
max_frame_from m [] = m
max_frame_from m (p ∷ ks) = max_frame_from (max m (get_max_frame p)) ks

unfoldable pub get_max_frame_all : KeyFrames → ℕ
unfolding max_frame_from
get_max_frame_all ks = max_frame_from 0 ks

module _ {ℓ} {A : Type ℓ} where
  abbrev put : List A → ℕ → Option A → List A
  put v i none = v
  put v i (some x) = set v i x

  -- `for(ui = frameNum; ui < size - 1; ui++) keyFrames[ui] = keyFrames[ui + 1];` with the rounds left.
  shift_down : ℕ → ℕ → List A → List A
  shift_down zero ui v = v
  shift_down (suc n) ui v = shift_down n (suc ui) (put v ui (get_elem? v (suc ui)))

  -- The loop and `pop_back`, at a position within the vector.
  unfoldable pub remove_nth : ℕ → List A → List A
  unfolding shift_down
  remove_nth n v = take (length v - 1) (shift_down (length v - 1 - n) n v)

  shift_down-cons :
      (n ui : ℕ) (x : A) (v : List A) → shift_down n (suc ui) (x ∷ v) ≡ x ∷ shift_down n ui v
  unfolding shift_down
  shift_down-cons zero ui x v = refl
  shift_down-cons (suc n) ui x v =
      ap (shift_down n (suc (suc ui))) (put-cons (get_elem? v (suc ui)))
      ∙ shift_down-cons n (suc ui) x (put v ui (get_elem? v (suc ui)))
    where
      put-cons : (o : Option A) → put (x ∷ v) (suc ui) o ≡ x ∷ put v ui o
      put-cons none = refl
      put-cons (some y) = refl

  -- Shifting down from the front drops the first element.
  shift_down_front : (x : A) (v : List A) → take (length v) (shift_down (length v) 0 (x ∷ v)) ≡ v
  unfolding shift_down
  shift_down_front x [] = refl
  shift_down_front x (y ∷ v) =
      ap (take (suc (length v))) (shift_down-cons (length v) 0 y (y ∷ v))
      ∙ ap (λ t. y ∷ t) (shift_down_front y v)

  shift_down_lem :
      (r n t : ℕ) (v : List A)
      → t ≡ r + n
      → suc t ≡ length v
      → take t (shift_down r n v) ≡ erase_at n v
  unfolding erase_at
  shift_down_lem r n t [] e f = absurd (omega arith)
  shift_down_lem r zero t (x ∷ v) e f =
      let a : r ≡ length v = omega arith in
      let b : t ≡ length v = omega arith in rw (a, b) (shift_down_front x v)
  shift_down_lem r (suc n) zero (x ∷ v) e f = absurd (omega arith)
  shift_down_lem r (suc n) (suc t) (x ∷ v) e f =
      ap (take (suc t)) (shift_down-cons r n x v)
      ∙ ap (λ l. x ∷ l) (shift_down_lem r n t v (omega arith) (omega arith))

  -- The loop that moves the elements behind it one place down removes the element at the position and
  -- no other.
  pub remove_nth_lem : (n : ℕ) (v : List A) → n < length v → remove_nth n v ≡ erase_at n v
  unfolding remove_nth
  remove_nth_lem n v h =
      shift_down_lem (length v - 1 - n) n (length v - 1) v (omega arith) (omega arith)

-- `removeKeyFrames`: the positions sorted, and removed from the last of them down.
remove_down : List ℕ → KeyFrames → KeyFrames
unfolding remove_nth
remove_down [] ks = ks
remove_down (i ∷ is) ks = remove_nth i (remove_down is ks)

unfoldable pub remove_key_frames : List ℕ → KeyFrames → KeyFrames
unfolding remove_down sort_by
remove_key_frames vec ks = remove_down (sort vec) ks

-- `newIdMap.find(oldId)` in a map given as its pairs.
unfoldable pub find_id : List (ℕ × ℕ) → ℕ → Option ℕ
find_id [] id = none
find_id ((old, new) ∷ m) id = let later = find_id m id in if id == old then some new else later

abbrev remap : Option ℕ → FrameProperties → FrameProperties
remap none p = p
remap (some id) p = remap_id id p

abbrev is_lost : Option ℕ → Bool
is_lost none = true
is_lost (some id) = false

-- The loop: the frames with the ids that could be mapped, and the flags of those that could not.
unfoldable pub update_mappings : List (ℕ × ℕ) → KeyFrames → KeyFrames
unfolding find_id
update_mappings m ks =
    vector_multi_erase (map (λ p. remap (find_id m p.filter_id) p) ks)
      (map (λ p. is_lost (find_id m p.filter_id)) ks)

length-erase_at :
    {A : Type 0} (n : ℕ) (v : List A) → n < length v → suc (length (erase_at n v)) ≡ length v
unfolding erase_at
length-erase_at n [] h = absurd (omega arith)
length-erase_at zero (x ∷ v) h = refl
length-erase_at (suc n) (x ∷ v) h = ap suc (length-erase_at n v (omega arith))

remove_down_lem :
    (is : List ℕ) (ks : KeyFrames)
    → IsAscending is
    → All (λ i. i < length ks) is
    → (remove_down is ks ≡ erase_down is ks) × (length (remove_down is ks) + length is ≡ length ks)
unfolding remove_down erase_down
remove_down_lem [] ks a h = (refl, omega arith)
remove_down_lem (i ∷ is) ks a h =
    let ih = remove_down_lem is ks a.1 h.1 in
    let room : i < length (remove_down is ks) =
      omega (arith, IsAscending-fits i is (length ks) a h, ih.1) in
    let gone = remove_nth_lem i (remove_down is ks) room in
    (
      gone ∙ ap (erase_at i) ih.0,
      omega (arith, ih.1, ap length gone, length-erase_at i (remove_down is ks) room),
    )

-- Of distinct positions within the list, the key frames at those positions are removed and every other
-- one stays, in its order.
pub remove_key_frames_lem :
    (vec : List ℕ) (ks : KeyFrames)
    → IsDistinct vec
    → All (λ i. i < length ks) vec
    → remove_key_frames vec ks ≡ unlisted vec 0 ks
unfolding remove_key_frames
remove_key_frames_lem vec ks d h =
    (remove_down_lem (sort vec) ks (sort-IsAscending vec d) (sort_by-All (λ n. n) _ vec h)).0
    ∙ erase_down-sort vec ks d

abbrev remap_into : Option ℕ → FrameProperties → KeyFrames → KeyFrames
remap_into none p rest = rest
remap_into (some id) p rest = record p { filter_id = id } ∷ rest

-- What the remapping means: the frames whose filter is in the map, in their order, each with the new
-- filter and with nothing else changed.
abbrev pub remapped : List (ℕ × ℕ) → KeyFrames → KeyFrames
remapped m [] = []
remapped m (p ∷ ks) = remap_into (find_id m p.filter_id) p (remapped m ks)

unflagged-remapped :
    (m : List (ℕ × ℕ)) (ks : KeyFrames)
    → unflagged
        (map (λ p. remap (find_id m p.filter_id) p) ks)
        (map (λ p. is_lost (find_id m p.filter_id)) ks)
      ≡ remapped m ks
unfolding unflagged remap_id
unflagged-remapped m [] = refl
unflagged-remapped m (p ∷ ks) = elim (Option-cases (find_id m p.filter_id)) [
  | inl e ↦ rw e (unflagged-remapped m ks)
  | inr (id, e) ↦ rw e (ap (λ t. record p { filter_id = id } ∷ t) (unflagged-remapped m ks))
]

-- After an update of the mappings there are the frames of the filters in the map, in their order and
-- under the new ids, and no frame of another filter.
pub update_mappings_lem : (m : List (ℕ × ℕ)) (ks : KeyFrames) → update_mappings m ks ≡ remapped m ks
unfolding update_mappings
update_mappings_lem m ks =
    vector_multi_erase_lem (map (λ p. remap (find_id m p.filter_id) p) ks)
      (map (λ p. is_lost (find_id m p.filter_id)) ks)
      (omega (
        arith,
        length-map ks (λ p. remap (find_id m p.filter_id) p),
        length-map ks (λ p. is_lost (find_id m p.filter_id)),
      ))
    ∙ unflagged-remapped m ks
