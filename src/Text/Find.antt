-- ===== src/Text/Find.antt =====
-- `std::string::find` of one character and `substr`, as src/common/stringFuncs.cpp uses them.
use depict_isosurfaces.Prelude.{
  ℕ, zero, suc, false, List, [], ◌∷◌, ◌++◌, ◌≡◌, refl, ap, Option, none, some, arith, ◌==◌,
  if◌then◌else◌, All, take, drop, length, ==_refl, ==_iff,
}

-- The position in a tail, seen from the whole string.
abbrev pub shift : Option ℕ → Option ℕ
shift none = none
shift (some i) = some (suc i)

-- `find`: the first position of a character; `none` is `npos`.
unfoldable pub find_char : ℕ → List ℕ → Option ℕ
find_char d [] = none
find_char d (c ∷ cs) = let later = shift (find_char d cs) in if c == d then some 0 else later

-- A later position goes before the one at hand.
abbrev pub later_or : Option ℕ → Option ℕ → Option ℕ
later_or none here = here
later_or (some i) here = some (suc i)

-- `find_last_of`: the last position of a character.
unfoldable pub find_last_char : ℕ → List ℕ → Option ℕ
find_last_char d [] = none
find_last_char d (c ∷ cs) = later_or (find_last_char d cs) (if c == d then some 0 else none)

-- `pos + 1`, where `npos + 1` wraps to 0.
abbrev pub next_pos : Option ℕ → ℕ
next_pos none = 0
next_pos (some i) = suc i

-- `substr(pos, len)` at a position inside the string.
abbrev pub substr : List ℕ → ℕ → ℕ → List ℕ
substr s pos len = take len (drop pos s)

abbrev pub Lacks : ℕ → List ℕ → Type 0
Lacks d = All (λ c. (c == d) ≡ false)

pub find_char-append :
    (d : ℕ) (pre post : List ℕ) → Lacks d pre → find_char d (pre ++ d ∷ post) ≡ some (length pre)
unfolding find_char
find_char-append d [] post h = rw (==_refl d)
find_char-append d (c ∷ pre) post h = rw (h.0, find_char-append d pre post h.1)

no_char : (d : ℕ) (s : List ℕ) → find_last_char d s ≡ none → Lacks d s
unfolding find_last_char
no_char d [] h = tt
no_char d (c ∷ cs) h = ground (arith, no_char d cs)

-- The last position splits the string: the character is there, and not behind it.
pub find_last_char-some :
    (d : ℕ) (s : List ℕ) (i : ℕ)
    → find_last_char d s ≡ some i
    → (s ≡ take i s ++ d ∷ drop (suc i) s) × Lacks d (drop (suc i) s)
unfolding find_last_char
find_last_char-some d [] i h = absurd (cc)
find_last_char-some d (c ∷ cs) zero h = ground (arith, no_char d cs, ==_iff c d)
find_last_char-some d (c ∷ cs) (suc i) h =
    let rest = find_last_char-some d cs i (ground arith) in (ap (λ t. c ∷ t) rest.0, rest.1)

pub find_last_char-none : (d : ℕ) (s : List ℕ) → find_last_char d s ≡ none → Lacks d s
find_last_char-none = no_char

pub drop-append : (d : ℕ) (pre post : List ℕ) → drop (suc (length pre)) (pre ++ d ∷ post) ≡ post
drop-append d [] post = refl
drop-append d (c ∷ pre) post = drop-append d pre post
