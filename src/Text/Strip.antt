-- ===== src/Text/Strip.antt =====
-- `stripChars`, `stripWhite` and `boolStrDec` of src/common/stringFuncs.cpp, over the standard
-- library's searches in a string (`none` is `string::npos`).
use depict_isosurfaces.Prelude.{
  ℕ, zero, suc, ◌-◌, ◌≤◌, ◌<◌, Bool, true, false, List, [], ◌∷◌, ◌++◌, ◌≡◌, refl, ap, sym, ◌∙◌, inl,
  inr, Option, none, some, arith, ◌==◌, if◌then◌else◌, elem, All, Option-cases, take, drop, length,
  append-nil, take-append-drop, is_empty,
}
use depict_isosurfaces.Text.Find.{shift}

-- `find_first_not_of`
unfoldable pub find_first_not_of : (ℕ → Bool) → List ℕ → Option ℕ
find_first_not_of p [] = none
find_first_not_of p (c ∷ cs) =
    let later = shift (find_first_not_of p cs) in if p c then later else some 0

-- `find_last_not_of`
unfoldable pub find_last_not_of : (ℕ → Bool) → List ℕ → Option ℕ
find_last_not_of p [] = none
find_last_not_of p (c ∷ cs) = elim (find_last_not_of p cs) [
  | some i ↦ some (suc i)
  | none ↦ if p c then none else some 0
]

-- `string(str, start, end - start + 1)`
between : List ℕ → Option ℕ → Option ℕ → List ℕ
between str none last = []
between str (some start) none = []
between str (some start) (some last) = take (suc last - start) (drop start str)

unfoldable pub strip_chars : List ℕ → List ℕ → List ℕ
unfolding find_first_not_of find_last_not_of between
strip_chars str chars =
    if is_empty str
    then str
    else between str (find_first_not_of (λ c. elem c chars) str)
        (find_last_not_of (λ c. elem c chars) str)

-- "\f\n\r\t "
abbrev pub white : List ℕ
white = 12 ∷ 10 ∷ 13 ∷ 9 ∷ 32 ∷ []

unfoldable pub strip_white : List ℕ → List ℕ
unfolding strip_chars
strip_white str = strip_chars str white

-- `tmp == "0"`, `tmp == "1"`; `none` is the failure to decode.
decode_bit : List ℕ → Option Bool
decode_bit (c ∷ []) = if c == b'0' then some false else if c == b'1' then some true else none
decode_bit _ = none

unfoldable pub bool_str_dec : List ℕ → Option Bool
unfolding strip_white decode_bit
bool_str_dec s = decode_bit (strip_white s)

module _ (p : ℕ → Bool) where
  abbrev pub In : List ℕ → Type 0
  In = All (λ c. p c ≡ true)

  abbrev pub head_in : List ℕ → Bool
  head_in [] = false
  head_in (c ∷ cs) = p c

  abbrev pub last_in : List ℕ → Bool
  last_in [] = false
  last_in (c ∷ []) = p c
  last_in (c ∷ d ∷ cs) = last_in (d ∷ cs)

  -- All of the string is in the set.
  first_none : (s : List ℕ) → find_first_not_of p s ≡ none → In s
  unfolding find_first_not_of
  first_none [] h = tt
  first_none (c ∷ cs) h = ground (arith, first_none cs)

  first_some :
      (s : List ℕ) (i : ℕ)
      → find_first_not_of p s ≡ some i
      → In (take i s) × (head_in (drop i s) ≡ false) × (i < length s)
  unfolding find_first_not_of
  first_some [] i h = cc
  first_some (c ∷ cs) zero h = ground arith
  first_some (c ∷ cs) (suc i) h = ground (arith, first_some cs i)

  last_none : (s : List ℕ) → find_last_not_of p s ≡ none → In s
  unfolding find_last_not_of
  last_none [] h = tt
  last_none (c ∷ cs) h = ground (arith, last_none cs)

  last_some :
      (s : List ℕ) (j : ℕ) → find_last_not_of p s ≡ some j → In (drop (suc j) s) × (j < length s)
  unfolding find_last_not_of
  last_some [] i h = cc
  last_some (c ∷ cs) zero h = ground (arith, last_none cs)
  last_some (c ∷ cs) (suc i) h = ground (arith, last_some cs i)

  last_take :
      (s : List ℕ) (j : ℕ) → find_last_not_of p s ≡ some j → last_in (take (suc j) s) ≡ false
  unfolding find_last_not_of
  last_take [] j h = cc
  last_take (c ∷ cs) zero h = ground arith
  last_take (c ∷ []) (suc j) h = ground arith
  last_take (c ∷ d ∷ cs) (suc j) h = last_take (d ∷ cs) j (ground arith)

  last_drop :
      (s : List ℕ) (i j : ℕ)
      → find_last_not_of p s ≡ some j
      → i ≤ j
      → find_last_not_of p (drop i s) ≡ some (j - i)
  unfolding find_last_not_of
  last_drop s zero j h l = rw h (ap some (omega arith))
  last_drop [] (suc i) j h l = cc
  last_drop (c ∷ cs) (suc i) zero h l = absurd (omega arith)
  last_drop (c ∷ cs) (suc i) (suc j) h l =
      last_drop cs i j (ground arith) (omega arith) ∙ ap some (omega arith)

  -- The last character that is kept is not in the set.
  last_some_in :
      (s : List ℕ) (i j : ℕ)
      → find_last_not_of p s ≡ some j
      → i ≤ j
      → last_in (take (suc j - i) (drop i s)) ≡ false
  last_some_in s i j h l =
      let e : suc j - i ≡ suc (j - i) = omega arith in
      rw e (last_take (drop i s) (j - i) (last_drop s i j h l))

  first-le-last :
      (s : List ℕ) (i j : ℕ)
      → find_first_not_of p s ≡ some i
      → find_last_not_of p s ≡ some j
      → i ≤ j
  unfolding find_last_not_of find_first_not_of
  first-le-last [] i j h k = cc
  first-le-last (c ∷ cs) zero j h k = omega arith
  first-le-last (c ∷ cs) (suc i) zero h k = ground arith
  first-le-last (c ∷ cs) (suc i) (suc j) h k = ground (arith, first-le-last cs i j)

  first_some_last_none :
      (s : List ℕ) (i : ℕ) → find_first_not_of p s ≡ some i → find_last_not_of p s ≡ none → ⊥
  unfolding find_last_not_of find_first_not_of
  first_some_last_none [] i h k = cc
  first_some_last_none (c ∷ cs) zero h k = ground arith
  first_some_last_none (c ∷ cs) (suc i) h k = ground (arith, first_some_last_none cs i)

  head_in-take : (n : ℕ) (s : List ℕ) → head_in s ≡ false → head_in (take n s) ≡ false
  head_in-take zero s h = refl
  head_in-take (suc n) [] h = refl
  head_in-take (suc n) (c ∷ cs) h = h

  -- A string in three parts.
  cut_twice :
      (i j : ℕ) (s : List ℕ)
      → i ≤ j
      → s ≡ take i s ++ (take (suc j - i) (drop i s) ++ drop (suc j) s)
  cut_twice zero j s h =
      let e : suc j - zero ≡ suc j = omega arith in rw e (sym (take-append-drop (suc j) s))
  cut_twice (suc i) zero s h = absurd (omega arith)
  cut_twice (suc i) (suc j) [] h = let e : suc (suc j) - suc i ≡ suc (j - i) = omega arith in rw e
  cut_twice (suc i) (suc j) (c ∷ cs) h =
      let e : suc (suc j) - suc i ≡ suc j - i = omega arith in
      rw e (ap (λ t. c ∷ t) (cut_twice i j cs (omega arith)))

  strip_found :
      (s : List ℕ)
      → (pre post : List ℕ) × (s
          ≡ pre ++ (between s (find_first_not_of p s) (find_last_not_of p s) ++ post))
        × In pre
        × In post
        × (head_in (between s (find_first_not_of p s) (find_last_not_of p s)) ≡ false)
        × (last_in (between s (find_first_not_of p s) (find_last_not_of p s)) ≡ false)
  unfolding between
  strip_found s = elim (Option-cases (find_first_not_of p s)) [
    | inl e ↦ (
      s,
      [],
      rw (e, between) (sym (append-nil s)),
      first_none s e,
      tt,
      rw (e, between),
      rw (e, between),
    )
    | inr (i, e) ↦ elim (Option-cases (find_last_not_of p s)) [
      | inl f ↦ absurd (first_some_last_none s i e f)
      | inr (j, f) ↦
          let le : i ≤ j = first-le-last s i j e f in
          (
            take i s,
            drop (suc j) s,
            rw (e, f, between) (cut_twice i j s le),
            (first_some s i e).0,
            (last_some s j f).0,
            rw (e, f, between) (head_in-take (suc j - i) (drop i s) (first_some s i e).1),
            rw (e, f, between) (last_some_in s i j f le),
          )
    ]
  ]

-- Stripping removes a prefix and a suffix made of the given characters, and nothing more: what is left
-- neither begins nor ends with one of them.
pub strip_chars_lem :
    (str chars : List ℕ)
    → (pre post : List ℕ) × (str ≡ pre ++ (strip_chars str chars ++ post))
      × In (λ c. elem c chars) pre
      × In (λ c. elem c chars) post
      × (head_in (λ c. elem c chars) (strip_chars str chars) ≡ false)
      × (last_in (λ c. elem c chars) (strip_chars str chars) ≡ false)
unfolding strip_chars
strip_chars_lem [] chars = ([], [], refl, tt, tt, refl, refl)
strip_chars_lem (c ∷ cs) chars = strip_found (λ d. elem d chars) (c ∷ cs)
