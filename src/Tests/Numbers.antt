-- ===== src/Tests/Numbers.antt =====
-- src/common/basics.h and basics.cpp at concrete inputs.
use depict_isosurfaces.Prelude.{
  ℕ, ◌⊎◌, ◌<◌, IsRising, some, ◌/◌, ltb, get_elem?, arith, ◌≡◌, refl, true, false, List, [], ◌∷◌,
}
use depict_isosurfaces.Basics.Erase.{vector_multi_erase, vector_multi_erase_lem, unflagged}
use depict_isosurfaces.Basics.Sort.{sort_by}
use depict_isosurfaces.Basics.Select.{
  ticks_needed, digit_loop, select_loop, transfer_digits, transfer, chosen,
}
use depict_isosurfaces.Basics.Misread.{transfer_lem}
use depict_isosurfaces.Basics.Vacancies.{transfer_digits_lem}

abbrev digits : List ℕ
digits = 1 ∷ 2 ∷ 3 ∷ 4 ∷ []

vector_multi_erase_lem_example :
    vector_multi_erase digits (true ∷ false ∷ true ∷ false ∷ []) ≡ 2 ∷ 4 ∷ []
unfolding unflagged
vector_multi_erase_lem_example =
    vector_multi_erase_lem digits (true ∷ false ∷ true ∷ false ∷ []) refl

abbrev five_numbers : List ℕ
five_numbers = 10 ∷ 11 ∷ 12 ∷ 13 ∷ 14 ∷ []

abbrev three_zeros : List ℕ
three_zeros = 0 ∷ 0 ∷ 0 ∷ []

-- Three of five: the ticks 1 and 2 are left out.
transfer_run : transfer (1 ∷ 2 ∷ []) (λ k. 99) five_numbers 3 three_zeros ≡ 10 ∷ 13 ∷ 14 ∷ []
unfolding transfer select_loop sort_by
transfer_run = refl

-- The same with a 4 in the memory behind the ticks: the last element is not selected.
transfer_past : transfer (1 ∷ 2 ∷ []) (λ k. 4) five_numbers 3 three_zeros ≡ 10 ∷ 13 ∷ 0 ∷ []
unfolding transfer select_loop sort_by
transfer_past = refl

-- Behind the ticks stands the position 4.
transfer_lem_example :
    (transfer (1 ∷ 2 ∷ []) (λ k. 4) five_numbers 3 three_zeros
      ≡ chosen (ltb 3 (5 / 2)) (1 ∷ 2 ∷ []) 0 five_numbers)
    ⊎ ((ltb 3 (5 / 2) ≡ false)
        × IsRising 0 4 (1 ∷ 2 ∷ [])
        × (4 < 5)
        × (get_elem? (transfer (1 ∷ 2 ∷ []) (λ k. 4) five_numbers 3 three_zeros) 2 ≡ some 0))
unfolding ticks_needed
transfer_lem_example =
    transfer_lem (1 ∷ 2 ∷ []) (λ k. 4) five_numbers 3 three_zeros
      (omega arith, (omega arith, omega arith)) refl (omega arith) refl

-- Three of the digits below five, without 1 and 2: one digit and two stale places.
transfer_digits_run : transfer_digits (1 ∷ 2 ∷ []) (λ k. 99) 5 3 three_zeros ≡ three_zeros
unfolding transfer_digits ticks_needed digit_loop sort_by
transfer_digits_run = refl

transfer_digits_lem_example :
    get_elem? (transfer_digits (1 ∷ 2 ∷ []) (λ k. 99) 5 3 three_zeros) 2 ≡ get_elem? three_zeros 2
transfer_digits_lem_example =
    transfer_digits_lem (1 ∷ 2 ∷ []) (λ k. 99) 5 3 three_zeros 2 (omega arith) (omega arith)
