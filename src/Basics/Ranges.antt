-- ===== src/Basics/Ranges.antt =====
-- `rangesOverlap` of src/common/basics.h at the sizes (size_t) that src/backend/animator.cpp gives it,
-- and `getBitNum` of src/common/basics.cpp.
use native.Mathlib.Nat.{pow-suc}
use depict_isosurfaces.Prelude.{
  ℕ, zero, suc, ◌+◌, ◌*◌, ◌/◌, ◌%◌, ◌^◌, ◌≤◌, ◌<◌, ◌≡◌, ◌↔◌, refl, ap, ◌∙◌, Bool, true, false, ◌&&◌,
  ◌||◌, Option, none, some, arith, leb, ◌==◌, if◌then◌else◌,
}

unfoldable pub ranges_overlap : ℕ → ℕ → ℕ → ℕ → Bool
ranges_overlap min_a max_a min_b max_b =
    if (leb min_a min_b && leb min_b max_a) || (leb min_a max_b && leb max_b max_a)
    then true
    else if (leb min_b min_a && leb min_a max_b) || (leb min_b max_a && leb max_a max_b)
    then true
    else false

-- For two intervals that are not inside out the test holds exactly if they have a point in common.
pub ranges_overlap_iff :
    (min_a max_a min_b max_b : ℕ)
    → min_a ≤ max_a
    → min_b ≤ max_b
    → (ranges_overlap min_a max_a min_b max_b ≡ true)
      ↔ ((t : ℕ) × (min_a ≤ t) × (t ≤ max_a) × (min_b ≤ t) × (t ≤ max_b))
unfolding ranges_overlap
ranges_overlap_iff min_a max_a min_b max_b h k = (
  λ o. (
    if leb min_a min_b then min_b else min_a,
    ground arith,
    ground arith,
    ground arith,
    ground arith,
  ),
  λ t. ground arith,
)

-- `while(!(u & 1)) { u >>= 1; j++; }`; the fuel is more than the number of bits. `none` is a loop that
-- goes on.
bit_loop : ℕ → ℕ → ℕ → Option ℕ
bit_loop zero u j = none
bit_loop (suc f) u j = let more = bit_loop f (u / 2) (suc j) in if u % 2 == 1 then some j else more

unfoldable pub get_bit_num : ℕ → Option ℕ
unfolding bit_loop
get_bit_num u = bit_loop 32 u 0

bit_loop_lem : (f u j k m : ℕ) → k < f → m % 2 ≡ 1 → u ≡ m * 2 ^ k → bit_loop f u j ≡ some (j + k)
unfolding bit_loop
bit_loop_lem zero u j k m h o e = absurd (omega arith)
bit_loop_lem (suc f) u j zero m h o e = ground arith
bit_loop_lem (suc f) u j (suc k) m h o e =
    let even : u ≡ 2 * (m * 2 ^ k) = omega (arith, e, ap (λ (t : ℕ). m * t) (pow-suc 2 k)) in
    ground (arith, bit_loop_lem f (u / 2) (suc j) k m)

-- Of an odd number times the k-th power of two, for a k below the number of bits, the loop ends and the
-- answer is k: the place of the lowest bit that is set.
pub get_bit_num_lem : (k m : ℕ) → k < 32 → m % 2 ≡ 1 → get_bit_num (m * 2 ^ k) ≡ some k
unfolding get_bit_num
get_bit_num_lem k m h o = bit_loop_lem 32 (m * 2 ^ k) 0 k m h o refl ∙ ap some (omega arith)
