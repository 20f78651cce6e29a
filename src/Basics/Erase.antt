-- ===== src/Basics/Erase.antt =====
-- Removal from a vector: `vectorMultiErase` of src/common/basics.h, `erase(begin() + offset)`, and
-- the loop that erases sorted offsets from the back.
use depict_isosurfaces.Prelude.{
  ℕ, zero, suc, ◌+◌, ◌-◌, ◌≤◌, ◌<◌, ◌≡◌, refl, ap, sym, ◌∙◌, Bool, true, false, List, [], ◌∷◌, ◌++◌,
  Option, none, some, arith, if◌then◌else◌, elem, All, length, get_elem?, set, take, append_assoc,
  append-nil, length-append, take-length,
}
use depict_isosurfaces.Basics.Sort.{IsAscending, IsDistinct, sort, elem-sort, sort-IsAscending}

module _ {ℓ} {A : Type ℓ} where
  -- `vec[ui - shift] = vec[ui]` if something was shifted.
  abbrev move : List A → ℕ → ℕ → Option A → List A
  move vec ui zero x = vec
  move vec ui (suc s) none = vec
  move vec ui (suc s) (some x) = set vec (ui - suc s) x

  -- The loop from `ui` on, over the flags that are left, and the final `resize`.
  erase_loop : List Bool → ℕ → ℕ → List A → List A
  erase_loop [] ui shift vec = take (length vec - shift) vec
  erase_loop (true ∷ want_kill) ui shift vec = erase_loop want_kill (suc ui) (suc shift) vec
  erase_loop (false ∷ want_kill) ui shift vec =
      erase_loop want_kill (suc ui) shift (move vec ui shift (get_elem? vec ui))

  unfoldable pub vector_multi_erase : List A → List Bool → List A
  unfolding erase_loop
  vector_multi_erase vec want_kill = erase_loop want_kill 0 0 vec

  -- The elements whose flag is not set.
  unfoldable pub unflagged : List A → List Bool → List A
  unflagged [] ks = []
  unflagged (x ∷ xs) [] = []
  unflagged (x ∷ xs) (true ∷ ks) = unflagged xs ks
  unflagged (x ∷ xs) (false ∷ ks) = x ∷ unflagged xs ks

  -- `vec.erase(vec.begin() + offset)`
  unfoldable pub erase_at : ℕ → List A → List A
  erase_at i [] = []
  erase_at zero (x ∷ xs) = xs
  erase_at (suc i) (x ∷ xs) = x ∷ erase_at i xs

module _ {ℓ} {A : Type ℓ} where
  get_elem?-append :
      (xs ys : List A) (n : ℕ) → n ≡ length xs → get_elem? (xs ++ ys) n ≡ get_elem? ys 0
  get_elem?-append [] ys n e = rw e
  get_elem?-append (x ∷ xs) ys zero e = absurd (omega arith)
  get_elem?-append (x ∷ xs) ys (suc n) e = get_elem?-append xs ys n (omega arith)

  pub set-append :
      (xs : List A) (y : A) (ys : List A) (n : ℕ) (v : A)
      → n ≡ length xs
      → set (xs ++ y ∷ ys) n v ≡ xs ++ v ∷ ys
  set-append [] y ys n v e = rw e
  set-append (x ∷ xs) y ys zero v e = absurd (omega arith)
  set-append (x ∷ xs) y ys (suc n) v e = ap (λ t. x ∷ t) (set-append xs y ys n v (omega arith))

  -- A vector in which one element follows those in front.
  pub regroup : (xs : List A) (y : A) (ys : List A) → xs ++ y ∷ ys ≡ (xs ++ y ∷ []) ++ ys
  regroup xs y ys = sym (append_assoc xs (y ∷ []) ys)

  -- One element is moved over the first stale one.
  move_lem :
      (kept : List A) (y : A) (stale : List A) (x : A) (rest : List A) (ui s : ℕ)
      → ui ≡ length kept + suc (length stale)
      → suc s ≡ suc (length stale)
      → move
          (kept ++ y ∷ (stale ++ x ∷ rest))
          ui
          (suc s)
          (get_elem? (kept ++ y ∷ (stale ++ x ∷ rest)) ui)
        ≡ (kept ++ x ∷ []) ++ ((stale ++ x ∷ []) ++ rest)
  move_lem kept y stale x rest ui s e f = rw read moved
    where
      read : get_elem? (kept ++ y ∷ (stale ++ x ∷ rest)) ui ≡ some x
      read =
          ap (λ t. get_elem? t ui) (sym (append_assoc kept (y ∷ stale) (x ∷ rest)))
          ∙ get_elem?-append (kept ++ y ∷ stale) (x ∷ rest) ui
              (omega (arith, length-append kept (y ∷ stale)))

      moved :
          set (kept ++ y ∷ (stale ++ x ∷ rest)) (ui - suc s) x
          ≡ (kept ++ x ∷ []) ++ ((stale ++ x ∷ []) ++ rest)
      moved =
          set-append kept y (stale ++ x ∷ rest) (ui - suc s) x (omega arith)
          ∙ regroup kept x (stale ++ x ∷ rest)
          ∙ ap (λ t. (kept ++ x ∷ []) ++ t) (regroup stale x rest)

  -- The vector in the loop: what was kept, as many stale elements as were shifted, and what is to come.
  erase_loop_lem :
      (ks : List Bool) (kept stale rest : List A) (ui shift : ℕ)
      → ui ≡ length kept + length stale
      → shift ≡ length stale
      → length ks ≡ length rest
      → erase_loop ks ui shift (kept ++ (stale ++ rest)) ≡ kept ++ unflagged rest ks
  unfolding erase_loop unflagged
  erase_loop_lem [] kept stale [] ui shift e f g =
      let n : length (kept ++ (stale ++ [])) - shift ≡ length kept =
        omega (arith, length-append kept (stale ++ []), ap length (append-nil stale)) in
      rw n (take-length kept (stale ++ []) ∙ sym (append-nil kept))
  erase_loop_lem [] kept stale (x ∷ rest) ui shift e f g = absurd (omega arith)
  erase_loop_lem (k ∷ ks) kept stale [] ui shift e f g = absurd (omega arith)
  erase_loop_lem (true ∷ ks) kept stale (x ∷ rest) ui shift e f g =
      ap (λ t. erase_loop ks (suc ui) (suc shift) (kept ++ t))
        (sym (append_assoc stale (x ∷ []) rest))
      ∙ erase_loop_lem ks kept (stale ++ x ∷ []) rest (suc ui) (suc shift)
          (omega (arith, length-append stale (x ∷ [])))
          (omega (arith, length-append stale (x ∷ []))) (omega arith)
  erase_loop_lem (false ∷ ks) kept [] (x ∷ rest) ui zero e f g =
      ap (erase_loop ks (suc ui) zero) (regroup kept x rest)
      ∙ erase_loop_lem ks (kept ++ x ∷ []) [] rest (suc ui) zero
          (omega (arith, length-append kept (x ∷ []))) f (omega arith)
      ∙ sym (regroup kept x (unflagged rest ks))
  erase_loop_lem (false ∷ ks) kept [] (x ∷ rest) ui (suc s) e f g = absurd (omega arith)
  erase_loop_lem (false ∷ ks) kept (y ∷ stale) (x ∷ rest) ui zero e f g = absurd (omega arith)
  erase_loop_lem (false ∷ ks) kept (y ∷ stale) (x ∷ rest) ui (suc s) e f g =
      ap (erase_loop ks (suc ui) (suc s)) (move_lem kept y stale x rest ui s e f)
      ∙ erase_loop_lem ks (kept ++ x ∷ []) (stale ++ x ∷ []) rest (suc ui) (suc s)
          (omega (arith, length-append kept (x ∷ []), length-append stale (x ∷ [])))
          (omega (arith, length-append stale (x ∷ []))) (omega arith)
      ∙ sym (regroup kept x (unflagged rest ks))

  -- The loop that moves elements within the vector leaves exactly the elements that are not flagged, in
  -- their order, if there is a flag for every element.
  pub vector_multi_erase_lem :
      (vec : List A) (want_kill : List Bool)
      → length want_kill ≡ length vec
      → vector_multi_erase vec want_kill ≡ unflagged vec want_kill
  unfolding vector_multi_erase
  vector_multi_erase_lem vec ks h = erase_loop_lem ks [] [] vec 0 0 (omega arith) refl h

-- The loop over sorted offsets, from the last of them.
module _ {ℓ} {A : Type ℓ} where
  unfoldable pub erase_down : List ℕ → List A → List A
  unfolding erase_at
  erase_down [] xs = xs
  erase_down (i ∷ is) xs = erase_at i (erase_down is xs)

  -- The elements whose place, counted from `off`, is not listed.
  abbrev pub unlisted : List ℕ → ℕ → List A → List A
  unlisted is off [] = []
  unlisted is off (x ∷ xs) =
      let rest = unlisted is (suc off) xs in if elem off is then rest else x ∷ rest

above_elem : (n : ℕ) (is : List ℕ) → All (λ j. n < j) is → (m : ℕ) → m ≤ n → elem m is ≡ false
above_elem n [] h m l = refl
above_elem n (i ∷ is) h m l = ground (arith, above_elem n is h.1 m)

module _ {ℓ} {A : Type ℓ} where
  -- Before the first listed place nothing is missing.
  unlisted_past :
      (i : ℕ) (is : List ℕ) (off : ℕ) (xs : List A)
      → i < off
      → unlisted (i ∷ is) off xs ≡ unlisted is off xs
  unlisted_past i is off [] h = refl
  unlisted_past i is off (x ∷ xs) h = ground (arith, unlisted_past i is (suc off) xs)

  erase_at-unlisted :
      (i : ℕ) (is : List ℕ) (off k : ℕ) (xs : List A)
      → All (λ j. i < j) is
      → off + k ≡ i
      → erase_at k (unlisted is off xs) ≡ unlisted (i ∷ is) off xs
  unfolding erase_at
  erase_at-unlisted i is off k [] h e = refl
  erase_at-unlisted i is off zero (x ∷ xs) h e =
      ground (arith, above_elem i is h off, unlisted_past i is (suc off) xs)
  erase_at-unlisted i is off (suc k) (x ∷ xs) h e =
      ground (arith, above_elem i is h off, erase_at-unlisted i is (suc off) k xs h)

  unlisted_nil : (off : ℕ) (ys : List A) → unlisted [] off ys ≡ ys
  unlisted_nil off [] = refl
  unlisted_nil off (y ∷ ys) = ap (λ t. y ∷ t) (unlisted_nil (suc off) ys)

  erase_down_lem :
      (is : List ℕ) (xs : List A) → IsAscending is → erase_down is xs ≡ unlisted is 0 xs
  unfolding erase_down
  erase_down_lem [] xs h = sym (unlisted_nil 0 xs)
  erase_down_lem (i ∷ is) xs h =
      ap (erase_at i) (erase_down_lem is xs h.1) ∙ erase_at-unlisted i is 0 i xs h.0 (omega arith)

  unlisted-sort :
      (is : List ℕ) (off : ℕ) (xs : List A) → unlisted (sort is) off xs ≡ unlisted is off xs
  unlisted-sort is off [] = refl
  unlisted-sort is off (x ∷ xs) = ground (arith, elem-sort off is, unlisted-sort is (suc off) xs)

  -- Erasing distinct offsets, sorted and from the back, erases the elements at those places of the
  -- original vector and no other.
  pub erase_down-sort :
      (is : List ℕ) (xs : List A) → IsDistinct is → erase_down (sort is) xs ≡ unlisted is 0 xs
  erase_down-sort is xs h =
      erase_down_lem (sort is) xs (sort-IsAscending is h) ∙ unlisted-sort is 0 xs
