-- ===== src/Surface/Remove.antt =====
-- `removeElements` of src/gl/isoSurface.cpp.
use depict_isosurfaces.Prelude.{
  ℕ, zero, suc, ◌+◌, ◌-◌, ◌≤◌, ◌<◌, ◌≡◌, refl, sym, ap, ◌∙◌, subst, Bool, true, false, ◌||◌, Option,
  none, some, List, [], ◌∷◌, take, set, get_elem?, get_elem?-set_ne, length, length-set, is_empty,
  ◌==◌, if◌then◌else◌, arith, Bool-cases, inl, inr,
}

abbrev pub one_if : Bool → ℕ
one_if true = 1
one_if false = 0

module _ {A : Type 0} where
  -- `std::swap(vec[i], vec[j])`
  abbrev swap_with : List A → ℕ → ℕ → Option A → Option A → List A
  swap_with v i j (some a) (some b) = set (set v i b) j a
  swap_with v i j x y = v

  unfoldable pub swap_at : List A → ℕ → ℕ → List A
  swap_at v i j = swap_with v i j (get_elem? v i) (get_elem? v j)

  -- The loop, from the last of the positions to the first, with its offset.
  unfoldable pub swap_loop : List ℕ → List A → List A × ℕ
  swap_loop [] v = (v, length v - 1)
  swap_loop (e ∷ es) v = let (w, offset) = swap_loop es v in (swap_at w e offset, offset - 1)

  unfoldable pub remove_elements : List ℕ → List A → List A
  remove_elements elems v =
      let (w, offset) = swap_loop elems v in
      if is_empty v || is_empty elems
      then v
      else if length v == length elems
      then []
      else take (offset + 1) w

  -- How many elements pass a test.
  abbrev pub count : (A → Bool) → List A → ℕ
  count p [] = 0
  count p (x ∷ xs) = one_if (p x) + count p xs

  -- The same for the elements at some positions.
  abbrev pub at_position : (A → Bool) → Option A → ℕ
  at_position p none = 0
  at_position p (some a) = one_if (p a)

  abbrev pub count_at : (A → Bool) → List ℕ → List A → ℕ
  count_at p [] v = 0
  count_at p (e ∷ es) v = at_position p (get_elem? v e) + count_at p es v

  take-set_ge : (v : List A) (o i : ℕ) (x : A) → o ≤ i → take o (set v i x) ≡ take o v
  take-set_ge [] o i x h = refl
  take-set_ge (y ∷ v) zero i x h = refl
  take-set_ge (y ∷ v) (suc o) zero x h = absurd (omega arith)
  take-set_ge (y ∷ v) (suc o) (suc i) x h = ap (λ xs. y ∷ xs) (take-set_ge v o i x (omega arith))

  count-take-suc :
      (p : A → Bool) (v : List A) (o : ℕ) (b : A)
      → get_elem? v o ≡ some b
      → count p (take (suc o) v) ≡ count p (take o v) + one_if (p b)
  count-take-suc p [] o b h = absurd (cc)
  count-take-suc p (y ∷ v) zero b h = let same : y ≡ b = cc h in rw same (omega arith)
  count-take-suc p (y ∷ v) (suc o) b h = omega (arith, count-take-suc p v o b h)

  count-take-set :
      (p : A → Bool) (v : List A) (o e : ℕ) (a b : A)
      → e < o
      → get_elem? v e ≡ some a
      → count p (take o (set v e b)) + one_if (p a) ≡ count p (take o v) + one_if (p b)
  count-take-set p v zero e a b h k = absurd (omega arith)
  count-take-set p [] (suc o) e a b h k = absurd (cc)
  count-take-set p (y ∷ v) (suc o) zero a b h k = let same : y ≡ a = cc k in rw same (omega arith)
  count-take-set p (y ∷ v) (suc o) (suc e) a b h k =
      omega (arith, count-take-set p v o e a b (omega arith) k)

  get_some : (v : List A) (i : ℕ) → i < length v → (a : A) × (get_elem? v i ≡ some a)
  get_some [] i h = absurd (omega arith)
  get_some (x ∷ v) zero h = (x, refl)
  get_some (x ∷ v) (suc i) h = get_some v i (omega arith)

  swap_out :
      (p : A → Bool) (v : List A) (o e : ℕ) (a b : A)
      → e ≤ o
      → get_elem? v e ≡ some a
      → get_elem? v o ≡ some b
      → count p (take o (set (set v e b) o a)) + one_if (p a) ≡ count p (take (suc o) v)
  swap_out p v o e a b h at_e at_o =
      let last = count-take-suc p v o b at_o in
      let cut = take-set_ge (set v e b) o o a (omega arith) in
      elim (Bool-cases (e == o)) [
        | inl u ↦
            let same : e ≡ o = ground arith in
            let equal : a ≡ b =
              cc (sym at_e, subst (λ i. get_elem? v i ≡ some b) (sym same) at_o) in
            rw (cut, take-set_ge v o e b (omega arith), equal) (sym last)
        | inr u ↦
            let one = count-take-set p v o e a b (ground (arith, h, u)) at_e in
            rw cut (omega (arith, last, one))
      ]

  -- Swapping the element at `e` to the end of the first `o + 1` takes it out of the first `o`.
  pub count-swap_at :
      (p : A → Bool) (v : List A) (o e : ℕ)
      → e ≤ o
      → o < length v
      → count p (take o (swap_at v e o)) + at_position p (get_elem? v e) ≡ count p (take (suc o) v)
  unfolding swap_at
  count-swap_at p v o e h k = of_some (get_some v e (omega arith)) (get_some v o k)
    where
      of_some :
          (a : A) × (get_elem? v e ≡ some a)
          → (b : A) × (get_elem? v o ≡ some b)
          → count p (take o (swap_with v e o (get_elem? v e) (get_elem? v o)))
              + at_position p (get_elem? v e)
            ≡ count p (take (suc o) v)
      of_some (a, at_e) (b, at_o) = rw (at_e, at_o) (swap_out p v o e a b h at_e at_o)

  pub swap_at-keeps :
      (v : List A) (i j : ℕ)
      → (length (swap_at v i j) ≡ length v)
        × ((k : ℕ) → k < i → k < j → get_elem? (swap_at v i j) k ≡ get_elem? v k)
  unfolding swap_at
  swap_at-keeps v i j = of_options (get_elem? v i) (get_elem? v j)
    where
      of_options :
          (x y : Option A)
          → (length (swap_with v i j x y) ≡ length v)
            × ((k : ℕ) → k < i → k < j → get_elem? (swap_with v i j x y) k ≡ get_elem? v k)
      of_options none y = (refl, λ k a b. refl)
      of_options (some a) none = (refl, λ k a b. refl)
      of_options (some a) (some b) = (
        length-set (set v i b) j a ∙ length-set v i b,
        λ k h l.
            get_elem?-set_ne (set v i b) j k a (λ e. absurd (omega arith))
            ∙ get_elem?-set_ne v i k b (λ e. absurd (omega arith)),
      )
