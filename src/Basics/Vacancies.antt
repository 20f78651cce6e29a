-- ===== src/Basics/Vacancies.antt =====
-- `randomDigitSelection` of src/common/basics.h when its ticks are the vacancies.
use depict_isosurfaces.Prelude.{
  ℕ, zero, suc, ◌+◌, ◌-◌, ◌/◌, ◌≤◌, ◌≡◌, refl, ◌∙◌, false, List, arith, get_elem?, set, ◌==◌, ltb,
  Bool-cases, inl, inr, get_elem?-set_ne,
}
use depict_isosurfaces.Basics.Sort.{sort}
use depict_isosurfaces.Basics.Select.{tick_at, ticks_needed, digit_loop, transfer_digits}

digit_loop-keeps :
    (ticks : List ℕ) (past : ℕ → ℕ) (left ui cur : ℕ) (result : List ℕ) (k : ℕ)
    → ui + left ≤ k
    → get_elem? (digit_loop ticks past left ui cur result) k ≡ get_elem? result k
unfolding digit_loop
digit_loop-keeps ticks past zero ui cur result k h = refl
digit_loop-keeps ticks past (suc left) ui cur result k h =
    elim (Bool-cases (ui == tick_at ticks past cur)) [
      | inl u ↦
          rw u (digit_loop-keeps ticks past left (suc ui) (suc cur) result k (omega (arith, h)))
      | inr u ↦ rw u (
          digit_loop-keeps ticks past left (suc ui) cur (set result (ui - cur) ui) k
            (omega (arith, h))
          ∙ get_elem?-set_ne result (ui - cur) k ui (λ e. absurd (omega (arith, h, e))))
    ]

-- `randomDigitSelection` with a selection of at least half of the numbers runs over as many numbers
-- as it draws vacancies: every place of the result from there on keeps what it held before.
pub transfer_digits_lem :
    (ticks : List ℕ) (past : ℕ → ℕ) (max num : ℕ) (result : List ℕ) (k : ℕ)
    → max / 2 ≤ num
    → max - num ≤ k
    → get_elem? (transfer_digits ticks past max num result) k ≡ get_elem? result k
unfolding transfer_digits ticks_needed
transfer_digits_lem ticks past max num result k half h =
    let many : ltb num (max / 2) ≡ false = ground (arith, half) in
    rw many (digit_loop-keeps (sort ticks) past (max - num) 0 0 result k (omega (arith, h)))
