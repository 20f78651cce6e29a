-- ===== src/Tests/Strings.antt =====
-- src/common/stringFuncs.cpp at concrete inputs.
use depict_isosurfaces.Prelude.{ℕ, ◌≡◌, refl, true, List, [], ◌∷◌, some, arith}
use depict_isosurfaces.Text.Split.{split_strs_ref, split_strs_ref_char}
use depict_isosurfaces.Text.Decimal.{dec, stream_cast}
use depict_isosurfaces.Text.Strip.{bool_str_dec}
use depict_isosurfaces.Text.Choice.{
  choice_string, choice_string_to_vector, choice_string_to_vector-choice_string, Combo,
}
use depict_isosurfaces.Text.Find.{find_last_char, Lacks}
use depict_isosurfaces.Text.Digits.{digit_string}
use depict_isosurfaces.Text.Paths.{split_file_data, split_file_data_lem, Rebuilds}
use depict_isosurfaces.Text.Version.{is_version_number_string}

-- "a.b-c"
abbrev dotted : List ℕ
dotted = b'a' ∷ b'.' ∷ b'b' ∷ b'-' ∷ b'c' ∷ []

dotted_split :
    split_strs_ref dotted (b'.' ∷ b'-' ∷ []) ≡ (b'a' ∷ []) ∷ (b'b' ∷ []) ∷ (b'c' ∷ []) ∷ []
unfolding split_strs_ref
dotted_split = refl

-- Splitting stops at a NUL.
nul_split :
    split_strs_ref_char (b'a' ∷ b',' ∷ b'b' ∷ 0 ∷ b'c' ∷ []) b',' ≡ (b'a' ∷ []) ∷ (b'b' ∷ []) ∷ []
unfolding split_strs_ref_char
nul_split = refl

stream_cast_overflow :
    stream_cast (b'4' ∷ b'2' ∷ b'9' ∷ b'4' ∷ b'9' ∷ b'6' ∷ b'7' ∷ b'2' ∷ b'9' ∷ b'6' ∷ [])
    ≡ (4294967295, true)
unfolding stream_cast
stream_cast_overflow = refl

-- " 1\n" is the flag 1.
bool_str_dec_run : bool_str_dec (b' ' ∷ b'1' ∷ 10 ∷ []) ≡ some true
unfolding bool_str_dec
bool_str_dec_run = refl

-- "1:0|A,1|B"
abbrev combo_head : ℕ × List ℕ
combo_head = (0, b'A' ∷ [])

abbrev combo_tail : Combo
combo_tail = (1, b'B' ∷ []) ∷ []

choice_string_run :
    choice_string (combo_head ∷ combo_tail) 1
    ≡ b'1' ∷ b':' ∷ b'0' ∷ b'|' ∷ b'A' ∷ b',' ∷ b'1' ∷ b'|' ∷ b'B' ∷ []
unfolding choice_string dec
choice_string_run = refl

choice_string_to_vector-choice_string_example :
    choice_string_to_vector (choice_string (combo_head ∷ combo_tail) 1)
    ≡ some ((b'A' ∷ []) ∷ (b'B' ∷ []) ∷ [], 1)
choice_string_to_vector-choice_string_example =
    choice_string_to_vector-choice_string combo_head combo_tail 1
      (((refl, tt), (refl, tt)), (((refl, tt), (refl, tt)), tt)) (omega arith)

digit_string_run : digit_string 1 424 ≡ b'0' ∷ b'0' ∷ b'1' ∷ []
unfolding digit_string dec
digit_string_run = refl

-- "/p/b.x.e"
abbrev file : List ℕ
file = b'/' ∷ b'p' ∷ b'/' ∷ b'b' ∷ b'.' ∷ b'x' ∷ b'.' ∷ b'e' ∷ []

split_file_data_run : split_file_data file ≡ record {
  path = b'/' ∷ b'p' ∷ b'/' ∷ [];
  basename = b'b' ∷ b'.' ∷ b'x' ∷ [];
  extension = b'e' ∷ [];
}
unfolding split_file_data find_last_char
split_file_data_run = refl

split_file_data_lem_example :
    Rebuilds (split_file_data file) file
    × Lacks b'/' (split_file_data file).basename
    × Lacks b'/' (split_file_data file).extension
split_file_data_lem_example = split_file_data_lem file

version_run : is_version_number_string (b'0' ∷ b'.' ∷ b'1' ∷ []) ≡ true
unfolding is_version_number_string
version_run = refl
