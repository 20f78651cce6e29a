-- ===== src/State/Stashes.antt =====
-- The stashed trees and the saved cameras of `AnalysisState` (src/backend/state.cpp): lists of named
-- things, erased by their offsets and merged under new names.
use depict_isosurfaces.Prelude.{
  ℕ, zero, suc, ◌≡◌, refl, Bool, true, false, ◌&&◌, ◌||◌, List, [], ◌∷◌, ◌++◌, Option, none, some,
  arith, ◌==◌, if◌then◌else◌, is_empty,
}
use depict_isosurfaces.Basics.Sort.{sort, sort_by}
use depict_isosurfaces.Basics.Erase.{erase_down}

-- `==` of two strings.
unfoldable pub text_eq : List ℕ → List ℕ → Bool
text_eq [] [] = true
text_eq [] (d ∷ t) = false
text_eq (c ∷ s) [] = false
text_eq (c ∷ s) (d ∷ t) = (c == d) && text_eq s t

pub text_eq_refl : (s : List ℕ) → text_eq s s ≡ true
unfolding text_eq
text_eq_refl [] = refl
text_eq_refl (c ∷ s) = ground (arith, text_eq_refl s)

pub text_eq_comm : (s t : List ℕ) → text_eq s t ≡ text_eq t s
unfolding text_eq
text_eq_comm [] [] = refl
text_eq_comm [] (d ∷ t) = refl
text_eq_comm (c ∷ s) [] = refl
text_eq_comm (c ∷ s) (d ∷ t) = ground (arith, text_eq_comm s t)

-- "-merge"
abbrev pub merge_suffix : List ℕ
merge_suffix = b'-' ∷ b'm' ∷ b'e' ∷ b'r' ∷ b'g' ∷ b'e' ∷ []

module _ {ℓ} {A : Type ℓ} where
  -- `hasFirstInPairVec` and `camNameExists`
  unfoldable pub has_name : List (List ℕ × A) → List ℕ → Bool
  unfolding text_eq
  has_name [] name = false
  has_name ((n, a) ∷ v) name = text_eq n name || has_name v name

  -- `eraseStashes`: the offsets sorted, and erased from the last of them down.
  unfoldable pub erase_stashes : List ℕ → List (List ℕ × A) → List (List ℕ × A)
  unfolding erase_down sort_by
  erase_stashes offsets v = erase_down (sort offsets) v

-- `while(exists(name) && --maxCount) name += "-merge";` over the test; `none` where the count runs out.
unfoldable pub merge_name : (List ℕ → Bool) → ℕ → List ℕ → Option (List ℕ)
merge_name exists zero name = none
merge_name exists (suc max_count) name =
    let again = merge_name exists max_count (name ++ merge_suffix) in
    if exists name then again else some name

module _ {ℓ} {A : Type ℓ} where
  abbrev pub push_named : List (List ℕ × A) → A → Option (List ℕ) → List (List ℕ × A)
  push_named v a none = v
  push_named v a (some name) = v ++ (name, a) ∷ []

  -- The stashes of `AnalysisState::merge`.
  unfoldable pub merge_stashes : List (List ℕ × A) → List (List ℕ × A) → List (List ℕ × A)
  unfolding has_name merge_name
  merge_stashes stashed [] = stashed
  merge_stashes stashed ((name, a) ∷ rest) =
      merge_stashes (push_named stashed a (merge_name (has_name stashed) 100 name)) rest

  -- The cameras of `AnalysisState::merge`: the ones without a name are passed over.
  unfoldable pub merge_cameras : List (List ℕ × A) → List (List ℕ × A) → List (List ℕ × A)
  unfolding has_name merge_name
  merge_cameras saved [] = saved
  merge_cameras saved ((name, a) ∷ rest) =
      merge_cameras
        (if is_empty name then saved else push_named saved a (merge_name (has_name saved) 100 name))
        rest
