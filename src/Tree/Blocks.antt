-- ===== src/Tree/Blocks.antt =====
-- What the block masks of `getAccumulatedPropagationMaps` (src/backend/filtertree.cpp) hold.
use depict_isosurfaces.Prelude.{
  ℕ, zero, suc, ◌≤◌, ◌<◌, ◌≡◌, refl, ap, ◌∙◌, true, false, ◌&&◌, ◌||◌, List, [], ◌∷◌, arith, ◌==◌,
  ==_refl, ltb, elem, Bool-cases, inl, inr,
}
use depict_isosurfaces.Tree.Order.{TreeOps}
use depict_isosurfaces.Tree.Caches.{positions, elem-positions}
use depict_isosurfaces.Tree.Masks.{
  Mask, no_bits, FilterMasks, has_mask, mask_of, insert_mask, children_mask, block_mask,
  block_level, block_loop, block_types,
}

has_mask-insert_mask :
    (i : ℕ) (m : Mask) (ms : List (ℕ × Mask)) (j : ℕ)
    → has_mask (insert_mask i m ms) j ≡ ((j == i) || has_mask ms j)
unfolding insert_mask has_mask
has_mask-insert_mask i m ms j = elim (Bool-cases (has_mask ms i)) [
  | inl u ↦ rw u (elim (Bool-cases (j == i)) [
    | inl v ↦ let same : j ≡ i = ground arith in rw same (ground (arith, u))
    | inr v ↦ ground arith
  ])
  | inr u ↦ rw u refl
]

module _ (t : TreeOps) (f : FilterMasks) (children : ℕ → List ℕ) where
  children_mask_none :
      (cs : List ℕ) (m : Mask) (b : ℕ) → m b ≡ false → children_mask f cs m b ≡ false
  unfolding children_mask
  children_mask_none [] m b h = h
  children_mask_none (c ∷ cs) m b h = elim (Bool-cases (f.have_cache c)) [
    | inl u ↦ rw u (children_mask_none cs (λ x. m x && f.refresh_block c x) b (rw h refl))
    | inr u ↦ rw u refl
  ]

  block_mask_lem : (i b : ℕ) → block_mask t f children i b ≡ (f.have_cache i && f.refresh_block i b)
  unfolding block_mask
  block_mask_lem i b = rw (children_mask_none (children i) no_bits b refl) refl

  -- Every mask of the map is its filter's own.
  abbrev IsOwn : List (ℕ × Mask) → Type 0
  IsOwn ms =
      (i b : ℕ) → has_mask ms i ≡ true → mask_of ms i b ≡ (f.have_cache i && f.refresh_block i b)

  insert_mask-IsOwn :
      (i : ℕ) (ms : List (ℕ × Mask))
      → IsOwn ms
      → IsOwn (insert_mask i (block_mask t f children i) ms)
  unfolding insert_mask mask_of has_mask
  insert_mask-IsOwn i ms own = elim (Bool-cases (has_mask ms i)) [
    | inl u ↦ rw u own
    | inr u ↦ rw u (λ j b e. elim (Bool-cases (j == i)) [
      | inl v ↦ let same : j ≡ i = ground arith in rw same (rw (==_refl i) (block_mask_lem i b))
      | inr v ↦ rw v (own j b (rw v at e))
    ])
  ]

  block_level-IsOwn :
      (ui : ℕ) (its : List ℕ) (ms : List (ℕ × Mask))
      → IsOwn ms
      → IsOwn (block_level t f children ui its ms)
  unfolding block_level
  block_level-IsOwn ui [] ms own = own
  block_level-IsOwn ui (i ∷ its) ms own = elim (Bool-cases (t.depth i == ui)) [
    | inl u ↦ rw u (
        block_level-IsOwn ui its (insert_mask i (block_mask t f children i) ms)
          (insert_mask-IsOwn i ms own))
    | inr u ↦ rw u (block_level-IsOwn ui its ms own)
  ]

  has_mask-block_level :
      (ui : ℕ) (its : List ℕ) (ms : List (ℕ × Mask)) (j : ℕ)
      → has_mask (block_level t f children ui its ms) j
        ≡ ((elem j its && (t.depth j == ui)) || has_mask ms j)
  unfolding block_level
  has_mask-block_level ui [] ms j = refl
  has_mask-block_level ui (i ∷ its) ms j =
      let mask = block_mask t f children i in
      let level_of : (j == i) ≡ true → t.depth j ≡ t.depth i = λ e. ap t.depth (ground arith) in
      elim (Bool-cases (t.depth i == ui)) [
        | inl u ↦
            let rest = has_mask-block_level ui its (insert_mask i mask ms) j in
            let more = has_mask-insert_mask i mask ms j in
            rw u (rest ∙ rw more (ground (arith, u, level_of)))
        | inr u ↦ rw u (has_mask-block_level ui its ms j ∙ ground (arith, u, level_of))
      ]

  block_loop-IsOwn :
      (n : ℕ) (ms : List (ℕ × Mask)) → IsOwn ms → IsOwn (block_loop t f children n ms)
  unfolding block_loop
  block_loop-IsOwn zero ms own = own
  block_loop-IsOwn (suc n) ms own =
      let every = positions t.size 0 in
      block_loop-IsOwn n (block_level t f children n every ms) (block_level-IsOwn n every ms own)

  has_mask-block_loop :
      (n : ℕ) (ms : List (ℕ × Mask)) (j : ℕ)
      → j < t.size
      → has_mask (block_loop t f children n ms) j ≡ (ltb (t.depth j) n || has_mask ms j)
  unfolding block_loop
  has_mask-block_loop zero ms j h = ground arith
  has_mask-block_loop (suc n) ms j h =
      let every = positions t.size 0 in
      let present = (elem-positions t.size 0 j).1 (omega arith, omega arith) in
      let once = has_mask-block_level n every ms j in
      let rest = has_mask-block_loop n (block_level t f children n every ms) j h in
      rest ∙ rw once (rw present (ground arith))

  -- The accumulated block mask of a filter is what it blocks itself if it has a cache, and nothing
  -- without one: what its children block never counts.
  pub block_types_lem :
      (max_depth i b : ℕ)
      → i < t.size
      → t.depth i ≤ max_depth
      → mask_of (block_types t f children max_depth) i b ≡ (f.have_cache i && f.refresh_block i b)
  unfolding block_types has_mask
  block_types_lem max_depth i b h d =
      block_loop-IsOwn (suc max_depth) [] (λ j c e. absurd (cc)) i b
        (has_mask-block_loop (suc max_depth) [] i h ∙ ground arith)
