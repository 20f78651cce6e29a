-- ===== src/Text/Letters.antt =====
-- `lowercase`, `uppercase`, `stripZeroEntries` and `nullifyMarker` of src/common/stringFuncs.cpp, in
-- the "C" locale.
use depict_isosurfaces.Prelude.{
  ℕ, ◌+◌, ◌-◌, Bool, false, not, ◌&&◌, List, [], ◌∷◌, ◌++◌, ◌≡◌, refl, ap, ap₂, ◌∙◌, arith, ◌==◌,
  leb, ltb, if◌then◌else◌, is_empty, keep, append_assoc, append-nil, ==_refl, All,
}

is_ascii : ℕ → Bool
is_ascii c = ltb c 128

is_upper : ℕ → Bool
is_upper c = leb b'A' c && leb c b'Z'

is_lower : ℕ → Bool
is_lower c = leb b'a' c && leb c b'z'

lower_char : ℕ → ℕ
unfolding is_ascii is_upper
lower_char c = if is_ascii c && is_upper c then c + 32 else c

upper_char : ℕ → ℕ
unfolding is_ascii is_lower
upper_char c = if is_ascii c && is_lower c then c - 32 else c

unfoldable pub lowercase : List ℕ → List ℕ
unfolding lower_char
lowercase [] = []
lowercase (c ∷ s) = lower_char c ∷ lowercase s

unfoldable pub uppercase : List ℕ → List ℕ
unfolding upper_char
uppercase [] = []
uppercase (c ∷ s) = upper_char c ∷ uppercase s

-- `tVec` after the entries read so far; an entry with characters is moved to its end.
strip_zero_loop : List (List ℕ) → List (List ℕ) → List (List ℕ)
strip_zero_loop t_vec [] = t_vec
strip_zero_loop t_vec (s ∷ rest) =
    strip_zero_loop (if is_empty s then t_vec else t_vec ++ s ∷ []) rest

unfoldable pub strip_zero_entries : List (List ℕ) → List (List ℕ)
unfolding strip_zero_loop
strip_zero_entries s_vec = strip_zero_loop [] s_vec

-- The buffer up to its terminator, after the first marker was made the terminator.
unfoldable pub nullify_marker : List ℕ → ℕ → List ℕ
nullify_marker [] marker = []
nullify_marker (c ∷ s) marker =
    let rest = c ∷ nullify_marker s marker in if c == marker then [] else rest

upper-lower_char : (c : ℕ) → upper_char (lower_char c) ≡ upper_char c
unfolding lower_char upper_char
upper-lower_char c = ground arith

lower_twice : (c : ℕ) → lower_char (lower_char c) ≡ lower_char c
unfolding lower_char
lower_twice c = ground arith

lower-upper_char : (c : ℕ) → lower_char (upper_char c) ≡ lower_char c
unfolding lower_char upper_char
lower-upper_char c = ground arith

-- Lower and upper case erase the case and nothing else: folding to either case first does not change
-- the result of folding to the other, and folding twice is folding once.
pub lowercase-uppercase :
    (s : List ℕ)
    → (uppercase (lowercase s) ≡ uppercase s)
      × (lowercase (uppercase s) ≡ lowercase s)
      × (lowercase (lowercase s) ≡ lowercase s)
unfolding lowercase uppercase
lowercase-uppercase [] = (refl, refl, refl)
lowercase-uppercase (c ∷ s) =
    let ih = lowercase-uppercase s in
    (
      ap₂ (λ x xs. x ∷ xs) (upper-lower_char c) ih.0,
      ap₂ (λ x xs. x ∷ xs) (lower-upper_char c) ih.1,
      ap₂ (λ x xs. x ∷ xs) (lower_twice c) ih.2,
    )

strip_zero_loop_lem :
    (t s : List (List ℕ)) → strip_zero_loop t s ≡ t ++ keep (λ x. not (is_empty x)) s
unfolding strip_zero_loop
strip_zero_loop_lem t [] = rw append-nil
strip_zero_loop_lem t ([] ∷ s) = strip_zero_loop_lem t s
strip_zero_loop_lem t ((c ∷ x) ∷ s) =
    strip_zero_loop_lem (t ++ (c ∷ x) ∷ []) s ∙ append_assoc t ((c ∷ x) ∷ []) _

-- The entries that are left are the ones with characters, in their order.
pub strip_zero_entries_lem :
    (s : List (List ℕ)) → strip_zero_entries s ≡ keep (λ x. not (is_empty x)) s
unfolding strip_zero_entries
strip_zero_entries_lem s = strip_zero_loop_lem [] s

-- A string with the marker is cut before the first one; a string without it is unchanged.
pub nullify_marker_lem :
    (pre post : List ℕ) (marker : ℕ)
    → All (λ c. (c == marker) ≡ false) pre
    → (nullify_marker (pre ++ marker ∷ post) marker ≡ pre) × (nullify_marker pre marker ≡ pre)
unfolding nullify_marker
nullify_marker_lem [] post marker h = (rw (==_refl marker), refl)
nullify_marker_lem (c ∷ pre) post marker h =
    let ih = nullify_marker_lem pre post marker h.1 in
    (rw h.0 (ap (λ t. c ∷ t) ih.0), rw h.0 (ap (λ t. c ∷ t) ih.1))
