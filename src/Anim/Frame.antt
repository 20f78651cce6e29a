-- ===== src/Anim/Frame.antt =====
-- `FrameProperties` of src/backend/animator.h.
use depict_isosurfaces.Prelude.{
  ℕ, ◌-◌, ◌^◌, ◌≤◌, ◌<◌, ◌≡◌, refl, List, [], ◌∷◌, ◌++◌, arith, min, max, All, length,
}

abbrev pub Text : Type 0
Text = List ℕ

-- Of `InterpData` there is the mode alone.
pub record FrameProperties : Type 0 where
  pub filter_id : ℕ
  pub property_key : ℕ
  pub frame_data : List (ℕ × Text)
  pub interp_mode : ℕ

abbrev pub size_max : ℕ
size_max = 2 ^ 64 - 1

-- `FrameProperties(idFilt, idKey)`; the mode is not set there, so it is an argument.
pub init : ℕ → ℕ → ℕ → FrameProperties
init filter key mode = record {
  filter_id = filter;
  property_key = key;
  frame_data = [];
  interp_mode = mode;
}

min_from : ℕ → List (ℕ × Text) → ℕ
min_from m [] = m
min_from m ((f, d) ∷ rest) = min_from (min m f) rest

max_from : ℕ → List (ℕ × Text) → ℕ
max_from m [] = m
max_from m ((f, d) ∷ rest) = max_from (max m f) rest

unfoldable pub get_min_frame : FrameProperties → ℕ
unfolding min_from
get_min_frame p = min_from size_max p.frame_data

unfoldable pub get_max_frame : FrameProperties → ℕ
unfolding max_from
get_max_frame p = max_from 0 p.frame_data

unfoldable pub add_key_frame : ℕ → Text → FrameProperties → FrameProperties
add_key_frame frame s p = record p { frame_data = p.frame_data ++ (frame, s) ∷ [] }

unfoldable pub set_interp_mode : ℕ → FrameProperties → FrameProperties
set_interp_mode mode p = record p { interp_mode = mode }

unfoldable pub remap_id : ℕ → FrameProperties → FrameProperties
remap_id id p = record p { filter_id = id }

min_from-snoc :
    (m f : ℕ) (s : Text) (xs : List (ℕ × Text))
    → min_from m (xs ++ (f, s) ∷ []) ≡ min (min_from m xs) f
unfolding min_from
min_from-snoc m f s [] = refl
min_from-snoc m f s ((g, d) ∷ xs) = min_from-snoc (min m g) f s xs

max_from-snoc :
    (m f : ℕ) (s : Text) (xs : List (ℕ × Text))
    → max_from m (xs ++ (f, s) ∷ []) ≡ max (max_from m xs) f
unfolding max_from
max_from-snoc m f s [] = refl
max_from-snoc m f s ((g, d) ∷ xs) = max_from-snoc (max m g) f s xs

-- Adding a key frame widens the span of frames to it and no further; it leaves the filter and the
-- property alone.
pub add_key_frame_span :
    (frame : ℕ) (s : Text) (p : FrameProperties)
    → (get_min_frame (add_key_frame frame s p) ≡ min (get_min_frame p) frame)
      × (get_max_frame (add_key_frame frame s p) ≡ max (get_max_frame p) frame)
      × ((add_key_frame frame s p).filter_id ≡ p.filter_id)
      × ((add_key_frame frame s p).property_key ≡ p.property_key)
unfolding get_min_frame get_max_frame add_key_frame
add_key_frame_span frame s p =
    (min_from-snoc size_max frame s p.frame_data, max_from-snoc 0 frame s p.frame_data, refl, refl)

min_from-le : (m : ℕ) (xs : List (ℕ × Text)) → min_from m xs ≤ m
unfolding min_from
min_from-le m [] = omega arith
min_from-le m ((f, d) ∷ xs) = omega (arith, min_from-le (min m f) xs)

max_from-ge : (m : ℕ) (xs : List (ℕ × Text)) → m ≤ max_from m xs
unfolding max_from
max_from-ge m [] = omega arith
max_from-ge m ((f, d) ∷ xs) = omega (arith, max_from-ge (max m f) xs)

span_from :
    (m n : ℕ) (xs : List (ℕ × Text)) → All (λ e. (min_from m xs ≤ e.0) × (e.0 ≤ max_from n xs)) xs
unfolding min_from max_from
span_from m n [] = tt
span_from m n ((f, d) ∷ xs) = (
  (omega (arith, min_from-le (min m f) xs), omega (arith, max_from-ge (max n f) xs)),
  span_from (min m f) (max n f) xs,
)

-- Every key frame lies between the minimal and the maximal frame.
pub frame_span :
    (p : FrameProperties)
    → All (λ e. (get_min_frame p ≤ e.0) × (e.0 ≤ get_max_frame p)) p.frame_data
unfolding get_min_frame get_max_frame
frame_span p = span_from size_max 0 p.frame_data

-- A frame that has data is not inside out.
pub min-le-max : (p : FrameProperties) → 0 < length p.frame_data → get_min_frame p ≤ get_max_frame p
min-le-max p h = go p.frame_data (frame_span p) h
  where
    go :
        (xs : List (ℕ × Text))
        → All (λ e. (get_min_frame p ≤ e.0) × (e.0 ≤ get_max_frame p)) xs
        → 0 < length xs
        → get_min_frame p ≤ get_max_frame p
    go [] a l = absurd (omega arith)
    go (e ∷ xs) a l = omega (arith, a.0.0, a.0.1)
