-- ===== src/Surface/Removed.antt =====
-- What `removeElements` of src/gl/isoSurface.cpp leaves.
use depict_isosurfaces.Prelude.{
  IsRising, IsRising-fits, ℕ, zero, suc, ◌+◌, ◌-◌, ◌≤◌, ◌<◌, ◌≡◌, refl, sym, ap, ◌∙◌, Bool, List,
  [], ◌∷◌, take, drop, take_all, get_elem?, length, length-take, ◌==◌, arith, Bool-cases, inl, inr,
}
use depict_isosurfaces.Surface.Remove.{
  swap_at, swap_loop, remove_elements, count, at_position, count_at, count-swap_at, swap_at-keeps,
}

module _ {A : Type 0} (p : A → Bool) where
  -- After the loop.
  record IsSwapped (low : ℕ) (es : List ℕ) (v w : List A) (offset : ℕ) : Type 0 where
    size : length w ≡ length v
    end : offset + length es + 1 ≡ length v
    below : (k : ℕ) → k < low → get_elem? w k ≡ get_elem? v k
    counts : count p (take (suc offset) w) + count_at p es v ≡ count p v

  IsSwapped-next :
      (low e : ℕ) (es : List ℕ) (v w : List A) (o : ℕ)
      → low ≤ e
      → e ≤ o
      → 0 < o
      → o < length w
      → IsSwapped (suc e) es v w o
      → IsSwapped low (e ∷ es) v (swap_at w e o) (o - 1)
  IsSwapped-next low e es v w o from h pos inside s =
      let (keeps, same) = swap_at-keeps w e o in
      let out = count-swap_at p w o e h inside in
      let at_e = ap (at_position p) (s.below e (omega arith)) in
      let end = s.end in
      let counts = s.counts in
      let back : suc (o - 1) ≡ o = omega arith in
      record {
        size = keeps ∙ s.size;
        end = omega (arith, end, pos);
        below = λ k l. same k (omega arith) (omega arith) ∙ s.below k (omega arith);
        counts = rw back (omega (arith, out, at_e, counts));
      }

  swap_loop-IsSwapped :
      (low : ℕ) (es : List ℕ) (v : List A)
      → IsRising low (length v) es
      → length es < length v
      → let after = swap_loop es v in IsSwapped low es v after.0 after.1
  unfolding swap_loop
  swap_loop-IsSwapped low [] v h k =
      let whole : suc (length v - 1) ≡ length v = omega arith in
      record {
        size = refl;
        end = omega arith;
        below = λ k l. refl;
        counts = rw (whole, take_all (length v) v (omega arith)) (omega arith);
      }
  swap_loop-IsSwapped low (e ∷ es) v h k =
      let ih = swap_loop-IsSwapped (suc e) es v h.1 (omega arith) in
      let fits = IsRising-fits (suc e) (length v) es h.1 in
      let end = ih.end in
      let size = ih.size in
      IsSwapped-next low e es v (swap_loop es v).0 (swap_loop es v).1 h.0 (omega (arith, end, fits))
        (omega (arith, end, k)) (omega (arith, end, size)) ih

  count-drop :
      (low : ℕ) (v : List A)
      → low < length v
      → count p (drop low v) ≡ at_position p (get_elem? v low) + count p (drop (suc low) v)
  count-drop low [] h = absurd (omega arith)
  count-drop zero (x ∷ v) h = refl
  count-drop (suc low) (x ∷ v) h = count-drop low v (omega arith)

  drop_end : (v : List A) (n : ℕ) → length v ≤ n → count p (drop n v) ≡ 0
  drop_end [] zero h = refl
  drop_end [] (suc n) h = refl
  drop_end (x ∷ v) zero h = absurd (omega arith)
  drop_end (x ∷ v) (suc n) h = drop_end v n (omega arith)

  -- As many positions as there are elements are all of them.
  count_at-all :
      (low : ℕ) (es : List ℕ) (v : List A)
      → IsRising low (length v) es
      → low + length es ≡ length v
      → count_at p es v ≡ count p (drop low v)
  count_at-all low [] v h k = sym (drop_end v low (omega arith))
  count_at-all low (e ∷ es) v h k =
      let fits = IsRising-fits (suc e) (length v) es h.1 in
      let from = h.0 in
      let same : e ≡ low = omega (arith, fits, from, k) in
      let rest = count_at-all (suc e) es v h.1 (omega (arith, same, k)) in
      rw (rest, same) (sym (count-drop low v (omega (arith, k))))

  -- `removeElements` with positions in rising order, each inside, takes out exactly the elements at
  -- these positions, whatever the order in which it leaves the others: of the elements that pass a
  -- test, those that are left and those that were at the positions are as many as there were. The
  -- vector becomes shorter by the number of the positions.
  pub remove_elements_lem :
      (elems : List ℕ) (v : List A)
      → IsRising 0 (length v) elems
      → (count p (remove_elements elems v) + count_at p elems v ≡ count p v)
        × (length (remove_elements elems v) + length elems ≡ length v)
  unfolding remove_elements
  remove_elements_lem [] [] h = (refl, refl)
  remove_elements_lem (e ∷ es) [] h =
      let fits = IsRising-fits (suc e) 0 es h.1 in absurd (omega (arith, fits))
  remove_elements_lem [] (x ∷ v) h = (omega arith, omega arith)
  remove_elements_lem (e ∷ es) (x ∷ v) h =
      let after = swap_loop (e ∷ es) (x ∷ v) in
      let fits = IsRising-fits 0 (length (x ∷ v)) (e ∷ es) h in
      elim (Bool-cases (length (x ∷ v) == length (e ∷ es))) [
        | inl u ↦
            let same : length (x ∷ v) ≡ length (e ∷ es) = ground arith in
            let all = count_at-all 0 (e ∷ es) (x ∷ v) h (omega (arith, same)) in
            rw u (omega (arith, all), omega (arith, same))
        | inr u ↦
            let fewer : length (e ∷ es) < length (x ∷ v) = ground (arith, fits, u) in
            let s = swap_loop-IsSwapped 0 (e ∷ es) (x ∷ v) h fewer in
            let next : after.1 + 1 ≡ suc after.1 = omega arith in
            let end = s.end in
            let size = s.size in
            let cut = length-take (suc after.1) after.0 in
            rw (u, next) (s.counts, omega (arith, cut, end, size))
      ]
