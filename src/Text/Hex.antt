-- ===== src/Text/Hex.antt =====
-- `ucharToHexStr` and `hexStrToUChar` of src/common/stringFuncs.cpp.
use depict_isosurfaces.Prelude.{
  ℕ, ◌+◌, ◌-◌, ◌*◌, ◌/◌, ◌%◌, ◌<◌, Bool, ◌&&◌, List, [], ◌∷◌, ◌≡◌, arith, ltb, leb, if◌then◌else◌,
  Option, none, some, ◌||◌,
}

-- `h < 10 ? h + '0' : (h - 10) + 'a'`
hex_char : ℕ → ℕ
hex_char h = if ltb h 10 then h + b'0' else h - 10 + b'a'

unfoldable pub uchar_to_hex_str : ℕ → List ℕ
unfolding hex_char
uchar_to_hex_str c = hex_char (c / 16) ∷ hex_char (c % 16) ∷ []

-- The assertions on a character: a digit or one of `a` to `f`.
unfoldable pub is_hex : ℕ → Bool
is_hex c = (leb b'0' c && leb c b'9') || (leb b'a' c && leb c b'f')

hex_value : ℕ → ℕ
hex_value c = if leb c b'9' && leb b'0' c then c - b'0' else c - b'a' + 10

-- `none` where an assertion fails.
unfoldable pub hex_str_to_uchar : List ℕ → Option ℕ
unfolding is_hex hex_value
hex_str_to_uchar (h ∷ l ∷ []) =
    if is_hex h && is_hex l then some ((16 * hex_value h + hex_value l) % 256) else none
hex_str_to_uchar _ = none

-- A byte written in hexadecimal and read back is the same byte.
pub hex_str_to_uchar-uchar_to_hex_str :
    (c : ℕ) → c < 256 → hex_str_to_uchar (uchar_to_hex_str c) ≡ some c
unfolding hex_str_to_uchar uchar_to_hex_str
hex_str_to_uchar-uchar_to_hex_str c h = ground arith

-- Two lower-case hexadecimal digits read as a byte and written back are the same two digits.
pub uchar_to_hex_str-hex_str_to_uchar :
    (h l c : ℕ)
    → hex_str_to_uchar (h ∷ l ∷ []) ≡ some c
    → (uchar_to_hex_str c ≡ h ∷ l ∷ []) × (c < 256)
unfolding hex_str_to_uchar uchar_to_hex_str
uchar_to_hex_str-hex_str_to_uchar h l c e = ground arith
