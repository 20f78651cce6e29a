-- ===== src/Text/Decimal.antt =====
-- `stream_cast` of src/common/basics.h between unsigned numbers and text: `ss << obj; ss >> result`
-- with the standard library's formatting of 32-bit integers in the "C" locale.
use depict_isosurfaces.Prelude.{
  ℕ, zero, suc, ◌+◌, ◌-◌, ◌*◌, ◌/◌, ◌%◌, ◌^◌, ◌<◌, Bool, true, false, ◌&&◌, ◌||◌, List, [], ◌∷◌,
  ◌++◌, ◌≡◌, refl, ◌∙◌, inl, inr, arith, ◌==◌, leb, ltb, if◌then◌else◌, All, All-append, Bool-cases,
  ltb→lt,
}

unfoldable pub is_digit : ℕ → Bool
is_digit c = leb b'0' c && leb c b'9'

unfoldable pub is_space : ℕ → Bool
is_space c = (leb 9 c && leb c 13) || c == 32

-- Decimal digits, the most significant first; the fuel is at least the number of digits.
unfoldable pub dec_fuel : ℕ → ℕ → List ℕ
dec_fuel zero n = []
dec_fuel (suc f) n =
    let more = dec_fuel f (n / 10) ++ (b'0' + n % 10) ∷ [] in
    if ltb n 10 then (b'0' + n) ∷ [] else more

-- `ss << n`
unfoldable pub dec : ℕ → List ℕ
unfolding dec_fuel
dec n = dec_fuel (suc n) n

-- The value of the digits at the front, after what was read before.
unfoldable pub read_digits : ℕ → List ℕ → ℕ
unfolding is_digit
read_digits acc [] = acc
read_digits acc (c ∷ cs) =
    let more = read_digits (acc * 10 + (c - b'0')) cs in if is_digit c then more else acc

unfoldable pub skip_space : List ℕ → List ℕ
unfolding is_space
skip_space [] = []
skip_space (c ∷ cs) = let more = skip_space cs in if is_space c then more else c ∷ cs

starts_digit : List ℕ → Bool
unfolding is_digit
starts_digit [] = false
starts_digit (c ∷ cs) = is_digit c

abbrev pub unsigned_max : ℕ
unsigned_max = 2 ^ 32 - 1

-- `ss >> result` after the sign: the value, and whether the stream fails. A failed read stores 0,
-- or the largest value where the number is too large; a minus sign wraps.
unfoldable pub magnitude : Bool → List ℕ → ℕ × Bool
unfolding starts_digit read_digits
magnitude negative cs =
    let v = read_digits 0 cs in
    if starts_digit cs
    then if leb v unsigned_max
      then (if negative then (2 ^ 32 - v) % 2 ^ 32 else v, false)
      else (unsigned_max, true)
    else (0, true)

signed : List ℕ → ℕ × Bool
unfolding magnitude
signed [] = (0, true)
signed (c ∷ cs) =
    if c == b'+'
    then magnitude false cs
    else if c == b'-'
    then magnitude true cs
    else magnitude false (c ∷ cs)

-- `stream_cast(unsigned int, string)`: the value and the failure flag that it returns.
unfoldable pub stream_cast : List ℕ → ℕ × Bool
unfolding signed skip_space
stream_cast cs = signed (skip_space cs)

abbrev pub IsDigits : List ℕ → Type 0
IsDigits = All (λ c. is_digit c ≡ true)

dec_fuel-IsDigits : (f n : ℕ) → IsDigits (dec_fuel f n)
unfolding dec_fuel is_digit
dec_fuel-IsDigits zero n = tt
dec_fuel-IsDigits (suc f) n = elim (Bool-cases (ltb n 10)) [
  | inl e ↦ rw e (ground arith)
  | inr e ↦
      rw e (All-append _ (dec_fuel f (n / 10)) _ (dec_fuel-IsDigits f (n / 10)) (ground arith))
]

pub dec-IsDigits : (n : ℕ) → IsDigits (dec n)
unfolding dec
dec-IsDigits n = dec_fuel-IsDigits (suc n) n

pub read_digits-append :
    (acc : ℕ) (xs ys : List ℕ)
    → IsDigits xs
    → read_digits acc (xs ++ ys) ≡ read_digits (read_digits acc xs) ys
unfolding read_digits
read_digits-append acc [] ys h = refl
read_digits-append acc (x ∷ xs) ys h = rw h.0 (read_digits-append (acc * 10 + (x - b'0')) xs ys h.1)

-- One more digit at the end.
read_digits_last : (q r : ℕ) → r < 10 → read_digits q ((b'0' + r) ∷ []) ≡ q * 10 + r
unfolding read_digits
read_digits_last q r h = ground arith

read_digits-dec_fuel : (f n : ℕ) → n < f → read_digits 0 (dec_fuel f n) ≡ n
unfolding dec_fuel
read_digits-dec_fuel zero n h = absurd (omega arith)
read_digits-dec_fuel (suc f) n h = elim (Bool-cases (ltb n 10)) [
  | inl e ↦ rw e (read_digits_last 0 n (ltb→lt n 10 e) ∙ omega arith)
  | inr e ↦ rw e (
      read_digits-append 0 (dec_fuel f (n / 10)) _ (dec_fuel-IsDigits f (n / 10))
      ∙ read_digits_last _ (n % 10) (omega arith)
      ∙ ground (arith, read_digits-dec_fuel f (n / 10)))
]

-- Reading what was printed.
pub read_digits-dec : (n : ℕ) → read_digits 0 (dec n) ≡ n
unfolding dec
read_digits-dec n = read_digits-dec_fuel (suc n) n (omega arith)

-- Text that begins with a digit and is read whole.
signed_digits :
    (cs : List ℕ) (n : ℕ)
    → starts_digit cs ≡ true
    → read_digits 0 cs ≡ n
    → n < 2 ^ 32
    → stream_cast cs ≡ (n, false)
unfolding starts_digit
signed_digits [] n e r h = cc
signed_digits (c ∷ cs) n e r h =
    unfold stream_cast skip_space signed magnitude starts_digit is_digit is_space read_digits in
    ground arith

starts_digit-append :
    (xs : List ℕ) (c : ℕ) → IsDigits (xs ++ c ∷ []) → starts_digit (xs ++ c ∷ []) ≡ true
unfolding starts_digit
starts_digit-append [] c h = h.0
starts_digit-append (x ∷ xs) c h = h.0

starts_digit-dec : (n : ℕ) → starts_digit (dec n) ≡ true
unfolding dec dec_fuel starts_digit is_digit
starts_digit-dec n = elim (Bool-cases (ltb n 10)) [
  | inl e ↦ rw e (ground arith)
  | inr e ↦ rw e (
      starts_digit-append (dec_fuel n (n / 10)) (b'0' + n % 10)
        (All-append _ (dec_fuel n (n / 10)) _ (dec_fuel-IsDigits n (n / 10)) (ground arith)))
]

-- A 32-bit number printed and read is the same number, and the read succeeds.
pub stream_cast-dec : (n : ℕ) → n < 2 ^ 32 → stream_cast (dec n) ≡ (n, false)
stream_cast-dec n h = signed_digits (dec n) n (starts_digit-dec n) (read_digits-dec n) h
