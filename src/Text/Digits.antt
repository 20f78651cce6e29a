-- ===== src/Text/Digits.antt =====
-- `digitString` of src/common/stringFuncs.cpp: a number padded with zeros.
use depict_isosurfaces.Prelude.{
  ℕ, zero, suc, ◌+◌, ◌-◌, ◌/◌, ◌%◌, ◌^◌, ◌≤◌, ◌<◌, List, [], ◌∷◌, ◌++◌, ◌≡◌, refl, ap, ◌∙◌, arith,
  leb, if◌then◌else◌, take, length, length-append, length-take,
}
use depict_isosurfaces.Text.Decimal.{
  dec, dec_fuel, read_digits, read_digits-append, read_digits-dec, IsDigits, is_digit,
}

-- `for(...) s[ui] = '0'`
abbrev zeros : List ℕ → List ℕ
zeros [] = []
zeros (c ∷ cs) = b'0' ∷ zeros cs

-- `s.size() - thisStr.size()` on 64-bit sizes
abbrev size_sub : ℕ → ℕ → ℕ
size_sub a b = if leb b a then a - b else 2 ^ 64 + a - b

unfoldable pub digit_string : ℕ → ℕ → List ℕ
digit_string this_digit max_digit =
    let this_str = dec this_digit in
    let s = zeros (dec max_digit) in take (size_sub (length s) (length this_str)) s ++ this_str

length-zeros : (s : List ℕ) → length (zeros s) ≡ length s
length-zeros [] = refl
length-zeros (c ∷ s) = ap suc (length-zeros s)

take-zeros-IsDigits : (n : ℕ) (s : List ℕ) → IsDigits (take n (zeros s))
unfolding is_digit
take-zeros-IsDigits zero s = tt
take-zeros-IsDigits (suc n) [] = tt
take-zeros-IsDigits (suc n) (c ∷ s) = (refl, take-zeros-IsDigits n s)

read_digits-zeros : (n : ℕ) (s : List ℕ) → read_digits 0 (take n (zeros s)) ≡ 0
unfolding read_digits
read_digits-zeros zero s = refl
read_digits-zeros (suc n) [] = refl
read_digits-zeros (suc n) (c ∷ s) = read_digits-zeros n s

-- A larger number has no fewer digits.
dec_fuel_mono :
    (f g n m : ℕ) → n < f → m < g → n ≤ m → length (dec_fuel f n) ≤ length (dec_fuel g m)
unfolding dec_fuel
dec_fuel_mono zero g n m hf hg h = absurd (omega arith)
dec_fuel_mono (suc f) zero n m hf hg h = absurd (omega arith)
dec_fuel_mono (suc f) (suc g) n m hf hg h = ground (
  arith,
  dec_fuel_mono f g (n / 10) (m / 10),
  length-append (dec_fuel f (n / 10)) ((b'0' + n % 10) ∷ []),
  length-append (dec_fuel g (m / 10)) ((b'0' + m % 10) ∷ []),
)

length-dec_mono : (n m : ℕ) → n ≤ m → length (dec n) ≤ length (dec m)
unfolding dec
length-dec_mono n m h = dec_fuel_mono (suc n) (suc m) n m (omega arith) (omega arith) h

-- A number up to the maximum is written with as many digits as the maximum, and reads as itself.
pub digit_string_lem :
    (n m : ℕ)
    → n ≤ m
    → (length (digit_string n m) ≡ length (dec m)) × (read_digits 0 (digit_string n m) ≡ n)
unfolding digit_string
digit_string_lem n m h = (
  ground (
    arith,
    length-append (take (length (zeros (dec m)) - length (dec n)) (zeros (dec m))) (dec n),
    length-take (length (zeros (dec m)) - length (dec n)) (zeros (dec m)),
    length-zeros (dec m),
    length-dec_mono n m h,
  ),
  read_digits-append 0 _ (dec n) (take-zeros-IsDigits _ (dec m))
      ∙ ap (λ v. read_digits v (dec n)) (read_digits-zeros _ (dec m))
      ∙ read_digits-dec n,
)
