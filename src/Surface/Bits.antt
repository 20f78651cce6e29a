-- ===== src/Surface/Bits.antt =====
-- The bits of `iFlagIndex` in `marchingCubes` of src/gl/isoSurface.cpp.
use depict_isosurfaces.Prelude.{
  ℕ, zero, suc, ◌+◌, ◌^◌, ◌<◌, ◌≡◌, refl, ap, ◌∙◌, subst, Bool, true, false, not, ◌&&◌, List, [],
  ◌∷◌, if◌then◌else◌, length, arith, &&-true, ltb, ltb→lt, sym,
}
use depict_isosurfaces.Surface.Edges.{Cell}
use depict_isosurfaces.Surface.Cube.{bit, is_below, flag_index}

abbrev pub same_bool : Bool → Bool → Bool
same_bool true b = b
same_bool false b = not b

pub same_bool-eq : (a b : Bool) → same_bool a b ≡ true → a ≡ b
same_bool-eq true true h = refl
same_bool-eq true false h = absurd (cc)
same_bool-eq false true h = absurd (cc)
same_bool-eq false false h = refl

abbrev nth_bool : List Bool → ℕ → Bool
nth_bool [] i = false
nth_bool (b ∷ bs) zero = b
nth_bool (b ∷ bs) (suc i) = nth_bool bs i

abbrev number : List Bool → ℕ → ℕ
number [] v = 0
number (b ∷ bs) v = let rest = number bs (suc v) in if b then 2 ^ v + rest else rest

abbrev bits_same : ℕ → List Bool → ℕ → Bool
bits_same n [] v = true
bits_same n (b ∷ bs) v = same_bool (bit n v) b && bits_same n bs (suc v)

bits_same_lem :
    (n : ℕ) (bs : List Bool) (v k : ℕ)
    → bits_same n bs v ≡ true
    → k < length bs
    → bit n (v + k) ≡ nth_bool bs k
bits_same_lem n [] v k h lt = absurd (omega arith)
bits_same_lem n (b ∷ bs) v zero h lt =
    let head = same_bool-eq (bit n v) b (&&-true (same_bool (bit n v) b) _ h).0 in
    ap (bit n) (omega arith) ∙ head
bits_same_lem n (b ∷ bs) v (suc k) h lt =
    ap (bit n) (omega arith)
    ∙ bits_same_lem n bs (suc v) k (&&-true (same_bool (bit n v) b) _ h).1 (omega arith)

-- All lists that end in `bs` and have `n` Booleans more.
abbrev all_lists : ℕ → List Bool → Bool
all_lists zero bs = bits_same (number bs 0) bs 0 && ltb (number bs 0) 256
all_lists (suc n) bs = all_lists n (true ∷ bs) && all_lists n (false ∷ bs)

abbrev onto : List Bool → List Bool → List Bool
onto [] bs = bs
onto (c ∷ cs) bs = onto cs (c ∷ bs)

all_lists_lem :
    (cs bs : List Bool)
    → all_lists (length cs) bs ≡ true
    → (bits_same (number (onto cs bs) 0) (onto cs bs) 0 && ltb (number (onto cs bs) 0) 256) ≡ true
all_lists_lem [] bs h = h
all_lists_lem (true ∷ cs) bs h =
    all_lists_lem cs (true ∷ bs) (&&-true (all_lists (length cs) (true ∷ bs)) _ h).0
all_lists_lem (false ∷ cs) bs h =
    all_lists_lem cs (false ∷ bs) (&&-true (all_lists (length cs) (true ∷ bs)) _ h).1

all_eight : all_lists 8 [] ≡ true
all_eight = refl

module _ (below : Cell → Bool) (cell : Cell) where
  corners : List Bool
  corners =
      is_below below cell 0
      ∷ is_below below cell 1
      ∷ is_below below cell 2
      ∷ is_below below cell 3
      ∷ is_below below cell 4
      ∷ is_below below cell 5
      ∷ is_below below cell 6
      ∷ is_below below cell 7
      ∷ []

  flag_index-number : flag_index below cell ≡ number corners 0
  unfolding flag_index corners
  flag_index-number = refl

  corners_same : (bits_same (number corners 0) corners 0 && ltb (number corners 0) 256) ≡ true
  unfolding corners
  corners_same =
      all_lists_lem
        (is_below below cell 7
          ∷ is_below below cell 6
          ∷ is_below below cell 5
          ∷ is_below below cell 4
          ∷ is_below below cell 3
          ∷ is_below below cell 2
          ∷ is_below below cell 1
          ∷ is_below below cell 0
          ∷ [])
        [] all_eight

  nth_corner : (v : ℕ) → v < 8 → nth_bool corners v ≡ is_below below cell v
  unfolding corners
  nth_corner zero h = refl
  nth_corner (suc zero) h = refl
  nth_corner (suc (suc zero)) h = refl
  nth_corner (suc (suc (suc zero))) h = refl
  nth_corner (suc (suc (suc (suc zero)))) h = refl
  nth_corner (suc (suc (suc (suc (suc zero))))) h = refl
  nth_corner (suc (suc (suc (suc (suc (suc zero)))))) h = refl
  nth_corner (suc (suc (suc (suc (suc (suc (suc zero))))))) h = refl
  nth_corner (suc (suc (suc (suc (suc (suc (suc (suc v)))))))) h = absurd (omega arith)

  -- A bit of the index is the test of its vertex.
  pub bit-flag_index : (v : ℕ) → v < 8 → bit (flag_index below cell) v ≡ is_below below cell v
  unfolding corners
  bit-flag_index v h =
      ap (λ n. bit n v) flag_index-number
      ∙ ap (bit (number corners 0)) (omega arith)
      ∙ bits_same_lem (number corners 0) corners 0 v
          (&&-true (bits_same (number corners 0) corners 0) _ corners_same).0 h
      ∙ nth_corner v h

  pub flag_index-lt : flag_index below cell < 256
  flag_index-lt =
      subst (λ n. n < 256) (sym flag_index-number)
        (ltb→lt (number corners 0) 256
          (&&-true (bits_same (number corners 0) corners 0) _ corners_same).1)
