-- ===== src/Basics/Select.antt =====
-- Random selections: `randomSelect` and `randomDigitSelection` of src/common/basics.h from the sorted
-- ticks on.
use depict_isosurfaces.Prelude.{
  ℕ, zero, suc, ◌-◌, ◌/◌, Bool, not, List, [], ◌∷◌, Option, none, some, if◌then◌else◌, elem, length,
  get_elem?, set, ◌==◌, ltb,
}
use depict_isosurfaces.Basics.Sort.{sort}

-- `ticks[curTick]`. When no tick is left this is read from the memory behind the vector, whose
-- content is a parameter.
abbrev pub tick_at : List ℕ → (ℕ → ℕ) → ℕ → ℕ
tick_at [] past i = past i
tick_at (t ∷ ts) past zero = t
tick_at (t ∷ ts) past (suc i) = tick_at ts past i

-- The number of ticks that are drawn.
unfoldable pub ticks_needed : ℕ → ℕ → ℕ
ticks_needed num size = if ltb num (size / 2) then num else size - num

-- `randomDigitSelection` when the ticks are the vacancies, from `ui` on for `left` more steps.
unfoldable pub digit_loop : List ℕ → (ℕ → ℕ) → (left ui cur_tick : ℕ) → List ℕ → List ℕ
digit_loop ticks past zero ui cur_tick result = result
digit_loop ticks past (suc left) ui cur_tick result =
    let marked = ui == tick_at ticks past cur_tick in
    digit_loop ticks past left (suc ui) (if marked then suc cur_tick else cur_tick)
      (if marked then result else set result (ui - cur_tick) ui)

-- `randomDigitSelection` when the ticks are the selection.
unfoldable pub fill_loop : List ℕ → ℕ → List ℕ → List ℕ
fill_loop [] pos result = result
fill_loop (t ∷ ts) pos result = fill_loop ts (suc pos) (set result pos t)

unfoldable pub transfer_digits : List ℕ → (ℕ → ℕ) → (max num : ℕ) → List ℕ → List ℕ
transfer_digits ticks past max num result =
    if ltb num (max / 2)
    then fill_loop ticks 0 result
    else digit_loop (sort ticks) past (ticks_needed num max) 0 0 result

module _ {A : Type 0} where
  abbrev pub put : List A → ℕ → Option A → List A
  put result pos none = result
  put result pos (some x) = set result pos x

  -- The ticks are the selection.
  unfoldable pub pick_loop : List ℕ → List A → ℕ → List A → List A
  pick_loop [] source pos result = result
  pick_loop (t ∷ ts) source pos result =
      pick_loop ts source (suc pos) (put result pos (get_elem? source t))

  -- The ticks are the vacancies: the loop over the source from `ui` on.
  unfoldable pub select_loop : List ℕ → (ℕ → ℕ) → List A → (ui cur_tick : ℕ) → List A → List A
  select_loop ticks past [] ui cur_tick result = result
  select_loop ticks past (x ∷ source) ui cur_tick result =
      let marked = ui == tick_at ticks past cur_tick in
      select_loop ticks past source (suc ui) (if marked then suc cur_tick else cur_tick)
        (if marked then result else set result (ui - cur_tick) x)

  unfoldable pub transfer : List ℕ → (ℕ → ℕ) → List A → ℕ → List A → List A
  transfer ticks past source num result =
      if ltb num (length source / 2)
      then pick_loop ticks source 0 result
      else select_loop (sort ticks) past source 0 0 result

  -- The elements whose position is ticked, or not, in order.
  unfoldable pub chosen : Bool → List ℕ → ℕ → List A → List A
  chosen want ticks ui [] = []
  chosen want ticks ui (x ∷ source) =
      let rest = chosen want ticks (suc ui) source in
      let ticked = elem ui ticks in if (if want then ticked else not ticked) then x ∷ rest else rest
