-- ===== src/Text/Version.antt =====
-- `isVersionNumberString` of src/common/stringFuncs.cpp.
use depict_isosurfaces.Prelude.{
  ℕ, suc, ◌+◌, Bool, true, false, not, ◌&&◌, ◌||◌, List, [], ◌∷◌, ◌++◌, ◌≡◌, ◌≢◌, refl, arith, ◌==◌,
  if◌then◌else◌, length, ◌↔◌,
}
use depict_isosurfaces.Text.Decimal.{is_digit}

-- The loop from index `ui` on, over the characters that are left; `size` is `s.size()`.
version_loop : ℕ → ℕ → List ℕ → Bool
version_loop size ui [] = true
version_loop size ui (c ∷ rest) =
    let more = version_loop size (suc ui) rest in
    if not (is_digit c)
    then if not (c == b'.') || (ui == 0) || (ui == size) then false else more
    else more

unfoldable pub is_version_number_string : List ℕ → Bool
unfolding version_loop is_digit
is_version_number_string s = version_loop (length s) 0 s

-- A digit, or a dot that does not begin the string.
abbrev pub VersionChars : Bool → List ℕ → Type 0
VersionChars first [] = Unit
VersionChars first (c ∷ s) =
    ((is_digit c || ((c == b'.') && not first)) ≡ true) × VersionChars false s

version_loop_to :
    (size ui : ℕ) (s : List ℕ) → version_loop size ui s ≡ true → VersionChars (ui == 0) s
unfolding version_loop
version_loop_to size ui [] h = tt
version_loop_to size ui (c ∷ s) h = ground (arith, version_loop_to size (suc ui) s)

version_loop_of :
    (size ui : ℕ) (s : List ℕ)
    → ui + length s ≡ size
    → VersionChars (ui == 0) s
    → version_loop size ui s ≡ true
unfolding version_loop
version_loop_of size ui [] e h = refl
version_loop_of size ui (c ∷ s) e h = ground (arith, version_loop_of size (suc ui) s)

-- Exactly the strings of digits and dots that do not begin with a dot pass the test; the empty string
-- does too.
pub is_version_number_string_iff :
    (s : List ℕ) → (is_version_number_string s ≡ true) ↔ VersionChars true s
unfolding is_version_number_string
is_version_number_string_iff s =
    (version_loop_to (length s) 0 s, version_loop_of (length s) 0 s (omega arith))

VersionChars-snoc :
    (first : Bool) (c : ℕ) (s : List ℕ)
    → VersionChars first (c ∷ s)
    → VersionChars first (c ∷ (s ++ b'.' ∷ []))
VersionChars-snoc first c [] h = (h.0, (unfold is_digit in refl, tt))
VersionChars-snoc first c (d ∷ s) h = (h.0, VersionChars-snoc false d s h.1)

-- The test that means to refuse a dot at the end never does: with a dot added behind it, a string that
-- is not empty and passes still passes.
pub trailing_dot_passes :
    (s : List ℕ)
    → s ≢ []
    → is_version_number_string s ≡ true
    → is_version_number_string (s ++ b'.' ∷ []) ≡ true
trailing_dot_passes [] n h = absurd (n refl)
trailing_dot_passes (c ∷ s) n h =
    (is_version_number_string_iff (c ∷ (s ++ b'.' ∷ []))).1
      (VersionChars-snoc true c s ((is_version_number_string_iff (c ∷ s)).0 h))
