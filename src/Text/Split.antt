-- ===== src/Text/Split.antt =====
-- The two overloads of `splitStrsRef` in src/common/stringFuncs.cpp.
use depict_isosurfaces.Prelude.{
  fun_ext, ==_refl, arith, ℕ, Bool, true, false, not, List, [], ◌∷◌, ◌++◌, ◌≡◌, refl, ap, sym, ◌∙◌,
  inl, inr, append_assoc, append-nil, ◌==◌, if◌then◌else◌, elem, keep, All, Bool-cases, is_empty,
}
use depict_isosurfaces.Text.Find.{Lacks}

-- The piece left when the terminator is reached: none if `thisMark == lastMark`.
last_piece : List ℕ → List (List ℕ)
last_piece [] = []
last_piece (s ∷ seg) = (s ∷ seg) ∷ []

-- `seg` holds the characters from `lastMark` up to `thisMark`.
unfoldable pub split_loop : (ℕ → Bool) → List ℕ → List ℕ → List (List ℕ)
unfolding last_piece
split_loop is_delim seg [] = last_piece seg
split_loop is_delim seg (c ∷ rest) =
    let cut = seg ∷ split_loop is_delim [] rest in
    let go_on = split_loop is_delim (seg ++ c ∷ []) rest in if is_delim c then cut else go_on

-- What a `const char *` into a string is read as: the characters before the first NUL.
unfoldable pub c_str : List ℕ → List ℕ
c_str [] = []
c_str (c ∷ str) = let rest = c ∷ c_str str in if c == 0 then [] else rest

unfoldable pub split_strs_ref_char : List ℕ → ℕ → List (List ℕ)
unfolding split_loop c_str
split_strs_ref_char str delim = split_loop (λ c. c == delim) [] (c_str str)

unfoldable pub split_strs_ref : List ℕ → List ℕ → List (List ℕ)
unfolding split_loop c_str
split_strs_ref str delim = split_loop (λ c. elem c (c_str delim)) [] (c_str str)

-- A piece in which no character is a delimiter.
abbrev pub IsClean : (ℕ → Bool) → List ℕ → Type 0
IsClean p = All (λ c. p c ≡ false)

-- The pieces put together again, a delimiter between two of them.
unfoldable pub join : ℕ → List (List ℕ) → List ℕ
join d [] = []
join d (x ∷ []) = x
join d (x ∷ y ∷ zs) = x ++ d ∷ join d (y ∷ zs)

abbrev pub flat : List (List ℕ) → List ℕ
flat [] = []
flat (x ∷ xs) = x ++ flat xs

module _ (p : ℕ → Bool) where
  IsClean-snoc : (xs : List ℕ) (c : ℕ) → IsClean p xs → p c ≡ false → IsClean p (xs ++ c ∷ [])
  IsClean-snoc [] c h e = (e, tt)
  IsClean-snoc (x ∷ xs) c h e = (h.0, IsClean-snoc xs c h.1 e)

  pub split_loop-IsClean :
      (seg str : List ℕ) → IsClean p seg → All (IsClean p) (split_loop p seg str)
  unfolding split_loop
  split_loop-IsClean [] [] h = tt
  split_loop-IsClean (s ∷ seg) [] h = (h, tt)
  split_loop-IsClean seg (c ∷ rest) h = elim (Bool-cases (p c)) [
    | inl e ↦ rw e (h, split_loop-IsClean [] rest tt)
    | inr e ↦ rw e (split_loop-IsClean (seg ++ c ∷ []) rest (IsClean-snoc seg c h e))
  ]

  -- A clean run of characters joins the segment.
  pub split_loop-append :
      (seg xs rest : List ℕ)
      → IsClean p xs
      → split_loop p seg (xs ++ rest) ≡ split_loop p (seg ++ xs) rest
  unfolding split_loop
  split_loop-append seg [] rest h = rw append-nil
  split_loop-append seg (x ∷ xs) rest h = rw h.0 (
      split_loop-append (seg ++ x ∷ []) xs rest h.1
      ∙ ap (λ t. split_loop p t rest) (append_assoc seg (x ∷ []) xs))

  -- A delimiter ends the segment.
  pub split_loop-cut :
      (seg rest : List ℕ) (d : ℕ)
      → p d ≡ true
      → split_loop p seg (d ∷ rest) ≡ seg ∷ split_loop p [] rest
  unfolding split_loop
  split_loop-cut seg rest d h = rw h

  pub split_loop-flat :
      (seg str : List ℕ) → flat (split_loop p seg str) ≡ seg ++ keep (λ c. not (p c)) str
  unfolding split_loop
  split_loop-flat [] [] = refl
  split_loop-flat (s ∷ seg) [] = refl
  split_loop-flat seg (c ∷ rest) = elim (Bool-cases (p c)) [
    | inl e ↦ rw e (ap (λ t. seg ++ t) (split_loop-flat [] rest))
    | inr e ↦ rw e (split_loop-flat (seg ++ c ∷ []) rest ∙ append_assoc seg (c ∷ []) _)
  ]

  -- What splits back to itself: clean pieces, the last of which is not empty.
  abbrev pub Splits : List (List ℕ) → Type 0
  Splits [] = Unit
  Splits (x ∷ []) = IsClean p x × (is_empty x ≡ false)
  Splits (x ∷ y ∷ zs) = IsClean p x × Splits (y ∷ zs)

  last_piece_lem : (x : List ℕ) → is_empty x ≡ false → last_piece x ≡ x ∷ []
  unfolding last_piece
  last_piece_lem [] h = cc
  last_piece_lem (c ∷ x) h = refl

  pub split_loop-join :
      (d : ℕ) (xs : List (List ℕ)) → p d ≡ true → Splits xs → split_loop p [] (join d xs) ≡ xs
  unfolding split_loop join
  split_loop-join d [] hd h = refl
  split_loop-join d (x ∷ []) hd h =
      ap (split_loop p []) (sym (append-nil x))
      ∙ split_loop-append [] x [] h.0
      ∙ last_piece_lem x h.1
  split_loop-join d (x ∷ y ∷ zs) hd h =
      split_loop-append [] x (d ∷ join d (y ∷ zs)) h.0
      ∙ split_loop-cut x (join d (y ∷ zs)) d hd
      ∙ ap (λ t. x ∷ t) (split_loop-join d (y ∷ zs) hd h.1)

c_str-keep : (str : List ℕ) → Lacks 0 str → c_str str ≡ str
unfolding c_str
c_str-keep [] h = refl
c_str-keep (c ∷ str) h = rw (h.0, c_str-keep str h.1) refl

-- Splitting a string up to its first NUL around delimiter characters loses only them: every piece is
-- free of delimiters, and the pieces one after the other are the other characters in their order.
pub split_strs_ref_lem :
    (str delim : List ℕ)
    → All (IsClean (λ c. elem c (c_str delim))) (split_strs_ref str delim)
      × (flat (split_strs_ref str delim) ≡ keep (λ c. not (elem c (c_str delim))) (c_str str))
unfolding split_strs_ref
split_strs_ref_lem str delim =
    let cuts = λ (c : ℕ). elem c (c_str delim) in
    (split_loop-IsClean cuts [] (c_str str) tt, split_loop-flat cuts [] (c_str str))

-- Pieces free of the delimiter, the last of them not empty, joined by the delimiter and split at it,
-- are the same pieces, if there is no NUL in the joined string.
pub split_strs_ref_char-join :
    (d : ℕ) (xs : List (List ℕ))
    → Lacks 0 (join d xs)
    → Splits (λ c. c == d) xs
    → split_strs_ref_char (join d xs) d ≡ xs
unfolding split_strs_ref_char
split_strs_ref_char-join d xs whole h =
    rw (c_str-keep (join d xs) whole) (split_loop-join (λ c. c == d) d xs (==_refl d) h)

elem_one : (d c : ℕ) → elem c (d ∷ []) ≡ (c == d)
elem_one d c = ground arith

-- The overload for one delimiter, which is not the NUL, is the overload for many at a string of one
-- character.
pub split_strs_ref-one :
    (str : List ℕ) (d : ℕ)
    → (d == 0) ≡ false
    → split_strs_ref str (d ∷ []) ≡ split_strs_ref_char str d
unfolding split_strs_ref split_strs_ref_char c_str
split_strs_ref-one str d h = rw h (ap (λ p. split_loop p [] (c_str str)) (fun_ext (elem_one d)))
