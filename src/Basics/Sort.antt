-- ===== src/Basics/Sort.antt =====
-- `std::sort` as the program calls it: on indices, and on pairs by their second part. The standard
-- leaves the order of equal elements open; the theorems do not rest on it.
use depict_isosurfaces.Prelude.{
  ℕ, ◌+◌, ◌≤◌, ◌<◌, ◌≡◌, refl, ◌∙◌, false, ◌||◌, List, [], ◌∷◌, arith, leb, ◌==◌, if◌then◌else◌,
  elem, All, length, IsRising, suc, true, Bool-cases, inl, inr, Option, none, some, subst,
}

module _ {ℓ} {A : Type ℓ} (key : A → ℕ) where
  unfoldable pub insert : A → List A → List A
  insert a [] = a ∷ []
  insert a (x ∷ xs) = let more = x ∷ insert a xs in if leb (key a) (key x) then a ∷ x ∷ xs else more

  unfoldable pub sort_by : List A → List A
  unfolding insert
  sort_by [] = []
  sort_by (x ∷ xs) = insert x (sort_by xs)

module _ {ℓ κ} {A : Type ℓ} (key : A → ℕ) (P : A → Type κ) where
  insert-All : (a : A) (xs : List A) → P a → All P xs → All P (insert key a xs)
  unfolding insert
  insert-All a [] p h = (p, tt)
  insert-All a (x ∷ xs) p h = elim (Bool-cases (leb (key a) (key x))) [
    | inl e ↦ rw e (p, h)
    | inr e ↦ rw e (h.0, insert-All a xs p h.1)
  ]

  -- Sorting keeps what holds of every element.
  pub sort_by-All : (xs : List A) → All P xs → All P (sort_by key xs)
  unfolding sort_by
  sort_by-All [] h = tt
  sort_by-All (x ∷ xs) h = insert-All x (sort_by key xs) h.0 (sort_by-All xs h.1)

abbrev pub sort : List ℕ → List ℕ
sort = sort_by (λ n. n)

abbrev pub IsAscending : List ℕ → Type 0
IsAscending [] = Unit
IsAscending (x ∷ xs) = All (λ y. x < y) xs × IsAscending xs

-- No number twice.
abbrev pub IsDistinct : List ℕ → Type 0
IsDistinct [] = Unit
IsDistinct (x ∷ xs) = (elem x xs ≡ false) × IsDistinct xs

elem-insert : (a x : ℕ) (xs : List ℕ) → elem a (insert (λ n. n) x xs) ≡ ((a == x) || elem a xs)
unfolding insert
elem-insert a x [] = refl
elem-insert a x (y ∷ ys) = ground (arith, elem-insert a x ys)

pub elem-sort : (a : ℕ) (xs : List ℕ) → elem a (sort xs) ≡ elem a xs
unfolding sort_by
elem-sort a [] = refl
elem-sort a (x ∷ xs) = ground (arith, elem-insert a x (sort xs), elem-sort a xs)

All-lt_trans : (x y : ℕ) (xs : List ℕ) → x < y → All (λ z. y < z) xs → All (λ z. x < z) xs
All-lt_trans x y [] h k = tt
All-lt_trans x y (z ∷ xs) h k = (omega arith, All-lt_trans x y xs h k.1)

insert-IsAscending :
    (a : ℕ) (xs : List ℕ) → elem a xs ≡ false → IsAscending xs → IsAscending (insert (λ n. n) a xs)
unfolding insert
insert-IsAscending a [] h k = (tt, tt)
insert-IsAscending a (x ∷ xs) h k = elim (Bool-cases (leb a x)) [
  | inl e ↦ rw e ((ground arith, All-lt_trans a x xs (ground arith) k.0), k)
  | inr e ↦ rw e (
    insert-All (λ n. n) (λ y. x < y) a xs (ground arith) k.0,
    insert-IsAscending a xs (ground arith) k.1,
  )
]

-- Distinct numbers sorted are strictly ascending.
pub sort-IsAscending : (xs : List ℕ) → IsDistinct xs → IsAscending (sort xs)
unfolding sort_by
sort-IsAscending [] h = tt
sort-IsAscending (x ∷ xs) h =
    insert-IsAscending x (sort xs) (elem-sort x xs ∙ h.0) (sort-IsAscending xs h.1)

-- Ascending numbers below a bound leave room for one another.
pub IsAscending-fits :
    (i : ℕ) (is : List ℕ) (n : ℕ)
    → IsAscending (i ∷ is)
    → All (λ j. j < n) (i ∷ is)
    → i + length (i ∷ is) ≤ n
IsAscending-fits i [] n a h = omega (arith, h.0)
IsAscending-fits i (j ∷ is) n a h = omega (arith, a.0.0, IsAscending-fits j is n a.1 h.1)

module _ {ℓ} {A : Type ℓ} where
  -- `vec.back()`, where there is one.
  abbrev pub back : List A → Option A
  back [] = none
  back (x ∷ []) = some x
  back (x ∷ y ∷ xs) = back (y ∷ xs)

module _ {ℓ} {A : Type ℓ} (key : A → ℕ) where
  abbrev IsSortedBy : List A → Type 0
  IsSortedBy [] = Unit
  IsSortedBy (x ∷ xs) = All (λ y. key x ≤ key y) xs × IsSortedBy xs

  le_All :
      (a x : A) (xs : List A)
      → key a ≤ key x
      → All (λ y. key x ≤ key y) xs
      → All (λ y. key a ≤ key y) xs
  le_All a x [] h k = tt
  le_All a x (y ∷ xs) h k = (omega arith, le_All a x xs h k.1)

  insert-IsSortedBy : (a : A) (xs : List A) → IsSortedBy xs → IsSortedBy (insert key a xs)
  unfolding insert
  insert-IsSortedBy a [] h = (tt, tt)
  insert-IsSortedBy a (x ∷ xs) h = elim (Bool-cases (leb (key a) (key x))) [
    | inl e ↦ rw e ((ground arith, le_All a x xs (ground arith) h.0), h)
    | inr e ↦
        rw e
          (insert-All key (λ y. key x ≤ key y) a xs (ground arith) h.0, insert-IsSortedBy a xs h.1)
  ]

  sort_by-IsSortedBy : (xs : List A) → IsSortedBy (sort_by key xs)
  unfolding sort_by
  sort_by-IsSortedBy [] = tt
  sort_by-IsSortedBy (x ∷ xs) = insert-IsSortedBy x (sort_by key xs) (sort_by-IsSortedBy xs)

  back_is_max :
      (xs : List A) (m : A) → IsSortedBy xs → back xs ≡ some m → All (λ y. key y ≤ key m) xs
  back_is_max [] m h e = tt
  back_is_max (x ∷ []) m h e = ground arith
  back_is_max (x ∷ y ∷ xs) m h e =
      let rest = back_is_max (y ∷ xs) m h.1 e in (omega (arith, h.0.0, rest.0), rest)

module _ {ℓ κ} {A : Type ℓ} (key : A → ℕ) (P : A → Type κ) where
  All-insert : (a : A) (xs : List A) → All P (insert key a xs) → P a × All P xs
  unfolding insert
  All-insert a [] h = h
  All-insert a (x ∷ xs) h = elim (Bool-cases (leb (key a) (key x))) [
    | inl e ↦ rw e at h
    | inr e ↦
        let k : P x × All P (insert key a xs) = rw e at h in
        let rest = All-insert a xs k.1 in (rest.0, (k.0, rest.1))
  ]

  -- What holds of every sorted element held before.
  pub All-sort_by : (xs : List A) → All P (sort_by key xs) → All P xs
  unfolding sort_by
  All-sort_by [] h = tt
  All-sort_by (x ∷ xs) h =
      let rest = All-insert x (sort_by key xs) h in (rest.0, All-sort_by xs rest.1)

  back-All : (xs : List A) (m : A) → All P xs → back xs ≡ some m → P m
  back-All [] m h e = absurd (cc)
  back-All (x ∷ []) m h e = let q : x ≡ m = cc in subst P q h.0
  back-All (x ∷ y ∷ xs) m h e = back-All (y ∷ xs) m h.1 e

module _ {ℓ} {A : Type ℓ} (key : A → ℕ) where
  back-some : (x : A) (xs : List A) → (m : A) × (back (x ∷ xs) ≡ some m)
  back-some x [] = (x, refl)
  back-some x (y ∷ xs) = back-some y xs

  back-insert : (a : A) (xs : List A) → (m : A) × (back (insert key a xs) ≡ some m)
  unfolding insert
  back-insert a [] = (a, refl)
  back-insert a (x ∷ xs) = elim (Bool-cases (leb (key a) (key x))) [
    | inl e ↦ rw e (back-some a (x ∷ xs))
    | inr e ↦ rw e (back-some x (insert key a xs))
  ]

  -- The last of a sorted list that is not empty: an element whose key is the largest.
  pub back-sort_by :
      (x : A) (xs : List A)
      → (m : A) × (back (sort_by key (x ∷ xs)) ≡ some m) × All (λ y. key y ≤ key m) (x ∷ xs)
  unfolding sort_by
  back-sort_by x xs =
      let (m, e) = back-insert x (sort_by key xs) in
      (
        m,
        e,
        All-sort_by key _ (x ∷ xs)
            (back_is_max key (sort_by key (x ∷ xs)) m (sort_by-IsSortedBy key (x ∷ xs)) e),
      )

module _ {ℓ κ} {A : Type ℓ} (key : A → ℕ) (P : A → Type κ) where
  pub back-sort_by-All : (xs : List A) (m : A) → All P xs → back (sort_by key xs) ≡ some m → P m
  back-sort_by-All xs m h e = back-All key P (sort_by key xs) m (sort_by-All key P xs h) e

-- What is in order is left as it is.
pub sort-IsRising : (low n : ℕ) (es : List ℕ) → IsRising low n es → sort es ≡ es
unfolding sort_by insert
sort-IsRising low n [] h = refl
sort-IsRising low n (e ∷ []) h = refl
sort-IsRising low n (e ∷ d ∷ es) (from, rest) =
    let first : leb e d ≡ true = ground (arith, rest.0) in
    let sorted = sort-IsRising (suc e) n (d ∷ es) rest in rw sorted (rw first refl)
