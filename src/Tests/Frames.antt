-- ===== src/Tests/Frames.antt =====
-- src/backend/animator.cpp at a small animation.
use depict_isosurfaces.Prelude.{◌≡◌, ◌↔◌, refl, true, [], ◌∷◌, some, arith}
use depict_isosurfaces.Anim.Frame.{FrameProperties, get_min_frame, get_max_frame}
use depict_isosurfaces.Anim.Remove.{KeyFrames, remove_key_frames, remove_key_frames_lem}
use depict_isosurfaces.Anim.Conflicts.{check_self_consistent, check_self_consistent_iff, Consistent}
use depict_isosurfaces.Anim.Held.{
  find_key_frame, find_key_frame_lem, Decides, get_interpolated_filter_data,
}

abbrev ramp : FrameProperties
ramp = record {
  filter_id = 7;
  property_key = 2;
  frame_data = (10, 1 ∷ []) ∷ (20, 2 ∷ []) ∷ [];
  interp_mode = 1;
}

abbrev step : FrameProperties
step = record { filter_id = 7; property_key = 2; frame_data = (30, 3 ∷ []) ∷ []; interp_mode = 0 }

abbrev other : FrameProperties
other = record { filter_id = 8; property_key = 2; frame_data = (15, 4 ∷ []) ∷ []; interp_mode = 0 }

abbrev animation : KeyFrames
animation = ramp ∷ other ∷ step ∷ []

covered : find_key_frame 7 2 12 animation ≡ some (0, 12)
unfolding find_key_frame get_min_frame get_max_frame
covered = refl

held : find_key_frame 7 2 25 animation ≡ some (0, 20)
unfolding find_key_frame get_min_frame get_max_frame
held = refl

before_all : get_interpolated_filter_data (λ p f. 9 ∷ []) 7 2 5 animation ≡ []
unfolding get_interpolated_filter_data get_min_frame get_max_frame
before_all = refl

find_key_frame_lem_example : Decides 7 2 25 animation (find_key_frame 7 2 25 animation)
find_key_frame_lem_example = find_key_frame_lem 7 2 25 animation

check_self_consistent_iff_example :
    ((check_self_consistent animation).1 ≡ true) ↔ Consistent animation
check_self_consistent_iff_example = check_self_consistent_iff animation (omega arith)

remove_key_frames_lem_example : remove_key_frames (2 ∷ 0 ∷ []) animation ≡ other ∷ []
remove_key_frames_lem_example =
    remove_key_frames_lem (2 ∷ 0 ∷ []) animation (refl, (refl, tt)) (omega arith)
