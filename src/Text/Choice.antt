-- ===== src/Text/Choice.antt =====
-- The choice strings of src/common/stringFuncs.cpp: "CHOICEID:id1|string 1,id2|string 2".
use depict_isosurfaces.Prelude.{
  subst, ℕ, zero, suc, ◌-◌, ◌^◌, ◌≤◌, ◌<◌, true, false, List, [], ◌∷◌, ◌++◌, ◌≡◌, refl, ap, ap₂,
  ◌∙◌, Option, none, some, arith, ◌==◌, if◌then◌else◌, All, All-append, length, map, get_elem?,
  is_empty, drop-length, take-length, take_all, length-append,
}
use depict_isosurfaces.Text.Split.{split_strs_ref_char, split_strs_ref_char-join, join, Splits}
use depict_isosurfaces.Text.Find.{find_char, next_pos, substr, Lacks, find_char-append, drop-append}
use depict_isosurfaces.Text.Decimal.{dec, stream_cast, stream_cast-dec, dec-IsDigits, is_digit}

-- `std::vector<std::pair<unsigned int, std::string>>`
abbrev pub Combo : Type 0
Combo = List (ℕ × List ℕ)

-- `sTmp + "|" + comboString[ui].second`
abbrev entry : ℕ × List ℕ → List ℕ
entry (id, name) = dec id ++ b'|' ∷ name

-- The loop; a comma follows every entry but the last.
entries : Combo → List ℕ
entries [] = []
entries (e ∷ []) = entry e
entries (e ∷ f ∷ rest) = entry e ++ b',' ∷ entries (f ∷ rest)

unfoldable pub choice_string : Combo → ℕ → List ℕ
unfolding entries
choice_string combo cur = dec cur ++ b':' ∷ entries combo

-- `s.size() - 1`, which wraps past any length at the empty string.
abbrev size_less_one : List ℕ → ℕ
size_less_one s = if is_empty s then 2 ^ 64 - 1 else length s - 1

-- `choice.substr(choice.find("|") + 1, choice.size() - 1)`
unfoldable pub strip_id : List ℕ → List ℕ
unfolding find_char
strip_id s = substr s (next_pos (find_char b'|' s)) (size_less_one s)

-- The texts and the number of the selected one; `none` where `substr` throws.
unfoldable pub choice_string_to_vector : List ℕ → Option (List (List ℕ) × ℕ)
unfolding strip_id
choice_string_to_vector str = elim (find_char b':' str) [
  | none ↦ none
  | some colon_pos ↦ some (
    map strip_id (split_strs_ref_char (substr str colon_pos (length str - colon_pos)) b','),
    (stream_cast (substr str 0 colon_pos)).0,
  )
]

-- `tmpStr = choices[activeChoice]`, stripped of its number.
abbrev active_text : Option (List ℕ) → Option (List ℕ)
active_text none = none
active_text (some choice) = some (strip_id choice)

-- `none` where `substr` throws or the selected number is out of range.
unfoldable pub get_active_choice : List ℕ → Option (List ℕ)
unfolding strip_id
get_active_choice str = elim (find_char b':' str) [
  | none ↦ none
  | some colon_pos ↦
      let choices = split_strs_ref_char (substr str colon_pos (length str - colon_pos)) b',' in
      active_text (get_elem? choices (stream_cast (substr str 0 colon_pos)).0)
]

digit_ne : (c d : ℕ) → is_digit c ≡ true → is_digit d ≡ false → (c == d) ≡ false
unfolding is_digit
digit_ne c d h k = ground arith

IsDigits-Lacks :
    (d : ℕ) (xs : List ℕ) → is_digit d ≡ false → All (λ c. is_digit c ≡ true) xs → Lacks d xs
IsDigits-Lacks d [] h k = tt
IsDigits-Lacks d (c ∷ xs) h k = (digit_ne c d k.0 h, IsDigits-Lacks d xs h k.1)

size_less_one-le : (pre name : List ℕ) (d : ℕ) → length name ≤ size_less_one (pre ++ d ∷ name)
size_less_one-le [] name d = omega arith
size_less_one-le (c ∷ pre) name d = omega (arith, length-append pre (d ∷ name))

strip_id_lem : (pre name : List ℕ) → Lacks b'|' pre → strip_id (pre ++ b'|' ∷ name) ≡ name
unfolding strip_id
strip_id_lem pre name h =
    rw (find_char-append b'|' pre name h, drop-append b'|' pre name)
      (take_all _ name (size_less_one-le pre name b'|'))

-- The texts of a combo, none of which may hold a comma or a NUL.
abbrev pub names : Combo → List (List ℕ)
names = map (λ e. e.1)

abbrev pub IsPlain : Combo → Type 0
IsPlain = All (λ e. Lacks b',' e.1 × Lacks 0 e.1)

entry-Lacks : (e : ℕ × List ℕ) → Lacks b',' e.1 → Lacks b',' (entry e)
entry-Lacks (id, name) h =
    All-append _ (dec id) _
      (IsDigits-Lacks b',' (dec id) (unfold is_digit in refl) (dec-IsDigits id)) (ground arith)

entry-Lacks-nul : (e : ℕ × List ℕ) → Lacks 0 e.1 → Lacks 0 (entry e)
entry-Lacks-nul (id, name) h =
    All-append _ (dec id) _ (IsDigits-Lacks 0 (dec id) (unfold is_digit in refl) (dec-IsDigits id))
      (refl, h)

entries-Lacks : (c : Combo) → IsPlain c → Lacks 0 (entries c)
unfolding entries
entries-Lacks [] h = tt
entries-Lacks (e ∷ []) h = entry-Lacks-nul e h.0.1
entries-Lacks (e ∷ f ∷ rest) h =
    All-append _ (entry e) _ (entry-Lacks-nul e h.0.1) (refl, entries-Lacks (f ∷ rest) h.1)

entries-join : (c : Combo) → entries c ≡ join b',' (map entry c)
unfolding entries join
entries-join [] = refl
entries-join (e ∷ []) = refl
entries-join (e ∷ f ∷ rest) = ap (λ t. entry e ++ b',' ∷ t) (entries-join (f ∷ rest))

entry_nonempty : (e : ℕ × List ℕ) → is_empty (entry e) ≡ false
entry_nonempty e = go (dec e.0) e.1
  where
    go : (xs name : List ℕ) → is_empty (xs ++ b'|' ∷ name) ≡ false
    go [] name = refl
    go (x ∷ xs) name = refl

entries-Splits : (c : Combo) → IsPlain c → Splits (λ x. x == b',') (map entry c)
entries-Splits [] h = tt
entries-Splits (e ∷ []) h = (entry-Lacks e h.0.0, entry_nonempty e)
entries-Splits (e ∷ f ∷ rest) h = (entry-Lacks e h.0.0, entries-Splits (f ∷ rest) h.1)

-- The pieces of the text behind the number: the colon stays before the first.
pieces : ℕ × List ℕ → Combo → List (List ℕ)
pieces e rest = (b':' ∷ entry e) ∷ map entry rest

pieces-join :
    (e : ℕ × List ℕ) (rest : Combo) → b':' ∷ entries (e ∷ rest) ≡ join b',' (pieces e rest)
unfolding pieces entries join
pieces-join e [] = refl
pieces-join e (f ∷ rest) = ap (λ t. b':' ∷ (entry e ++ b',' ∷ t)) (entries-join (f ∷ rest))

pieces-Splits :
    (e : ℕ × List ℕ) (rest : Combo) → IsPlain (e ∷ rest) → Splits (λ x. x == b',') (pieces e rest)
unfolding pieces
pieces-Splits e [] h = ((refl, entry-Lacks e h.0.0), refl)
pieces-Splits e (f ∷ rest) h = ((refl, entry-Lacks e h.0.0), entries-Splits (f ∷ rest) h.1)

split-entries :
    (e : ℕ × List ℕ) (rest : Combo)
    → IsPlain (e ∷ rest)
    → split_strs_ref_char (b':' ∷ entries (e ∷ rest)) b',' ≡ pieces e rest
split-entries e rest h = rw (pieces-join e rest) (
    split_strs_ref_char-join b',' (pieces e rest)
      (subst (Lacks 0) (pieces-join e rest) (refl, entries-Lacks (e ∷ rest) h))
      (pieces-Splits e rest h))

strip_id-entry : (e : ℕ × List ℕ) → strip_id (entry e) ≡ e.1
strip_id-entry (id, name) =
    strip_id_lem (dec id) name
      (IsDigits-Lacks b'|' (dec id) (unfold is_digit in refl) (dec-IsDigits id))

strip_id-first : (e : ℕ × List ℕ) → strip_id (b':' ∷ entry e) ≡ e.1
strip_id-first (id, name) =
    strip_id_lem (b':' ∷ dec id) name
      (refl, IsDigits-Lacks b'|' (dec id) (unfold is_digit in refl) (dec-IsDigits id))

strip_id-entries : (c : Combo) → map strip_id (map entry c) ≡ names c
strip_id-entries [] = refl
strip_id-entries (e ∷ c) = ap₂ (λ x xs. x ∷ xs) (strip_id-entry e) (strip_id-entries c)

-- The colon stands behind the digits of the number, and cuts the string there.
colon :
    (combo : Combo) (cur : ℕ) → find_char b':' (choice_string combo cur) ≡ some (length (dec cur))
unfolding choice_string
colon combo cur =
    find_char-append b':' (dec cur) (entries combo)
      (IsDigits-Lacks b':' (dec cur) (unfold is_digit in refl) (dec-IsDigits cur))

number_part :
    (combo : Combo) (cur : ℕ) → substr (choice_string combo cur) 0 (length (dec cur)) ≡ dec cur
unfolding choice_string
number_part combo cur = take-length (dec cur) (b':' ∷ entries combo)

text_part :
    (combo : Combo) (cur : ℕ)
    → substr
        (choice_string combo cur)
        (length (dec cur))
        (length (choice_string combo cur) - length (dec cur))
      ≡ b':' ∷ entries combo
unfolding choice_string
text_part combo cur = rw (drop-length (dec cur) (b':' ∷ entries combo)) (
    take_all _ (b':' ∷ entries combo)
      (omega (arith, length-append (dec cur) (b':' ∷ entries combo))))

module _ (e : ℕ × List ℕ) (rest : Combo) (cur : ℕ) where
  choices_part :
      IsPlain (e ∷ rest)
      → split_strs_ref_char
          (substr
            (choice_string (e ∷ rest) cur)
            (length (dec cur))
            (length (choice_string (e ∷ rest) cur) - length (dec cur)))
          b','
        ≡ pieces e rest
  choices_part h = rw (text_part (e ∷ rest) cur) (split-entries e rest h)

  selected_part :
      cur < 2 ^ 32
      → stream_cast (substr (choice_string (e ∷ rest) cur) 0 (length (dec cur))) ≡ (cur, false)
  selected_part k = rw (number_part (e ∷ rest) cur) (stream_cast-dec cur k)

pieces-names : (e : ℕ × List ℕ) (rest : Combo) → map strip_id (pieces e rest) ≡ names (e ∷ rest)
unfolding pieces
pieces-names e rest = ap₂ (λ x xs. x ∷ xs) (strip_id-first e) (strip_id-entries rest)

active_text-map :
    (xs : List (List ℕ)) (i : ℕ) → active_text (get_elem? xs i) ≡ get_elem? (map strip_id xs) i
active_text-map [] i = refl
active_text-map (x ∷ xs) zero = refl
active_text-map (x ∷ xs) (suc i) = active_text-map xs i

-- A choice string gives back what it was made of: for texts without commas and NULs, of
-- which there is at least one, and a 32-bit number, the decoder yields the texts in order and the number.
pub choice_string_to_vector-choice_string :
    (e : ℕ × List ℕ) (rest : Combo) (cur : ℕ)
    → IsPlain (e ∷ rest)
    → cur < 2 ^ 32
    → choice_string_to_vector (choice_string (e ∷ rest) cur) ≡ some (names (e ∷ rest), cur)
unfolding choice_string_to_vector
choice_string_to_vector-choice_string e rest cur h k =
    rw (colon (e ∷ rest) cur, choice_string_to_vector)
      (rw (choices_part e rest cur h, selected_part e rest cur k, pieces-names e rest))

-- Of a choice string made from texts without commas and NULs and a number below 2^32, the active choice is the
-- text at that number.
pub get_active_choice-choice_string :
    (e : ℕ × List ℕ) (rest : Combo) (cur : ℕ)
    → IsPlain (e ∷ rest)
    → cur < 2 ^ 32
    → get_active_choice (choice_string (e ∷ rest) cur) ≡ get_elem? (names (e ∷ rest)) cur
unfolding get_active_choice
get_active_choice-choice_string e rest cur h k =
    rw (colon (e ∷ rest) cur, get_active_choice)
      (rw (choices_part e rest cur h, selected_part e rest cur k)
        (active_text-map (pieces e rest) cur ∙ ap (λ t. get_elem? t cur) (pieces-names e rest)))
