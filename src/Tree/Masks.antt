-- ===== src/Tree/Masks.antt =====
-- `FilterTree::getAccumulatedPropagationMaps` of src/backend/filtertree.cpp: which stream types a filter
-- may emit, and which it blocks. A mask is its bits.
use depict_isosurfaces.Prelude.{
  IsRising, IsRising-fits, elem-IsRising, ℕ, zero, suc, ◌<◌, ◌≡◌, refl, Bool, true, false, not,
  ◌&&◌, ◌||◌, List, [], ◌∷◌, arith, ◌==◌, ==_refl, if◌then◌else◌, elem, Bool-cases, inl, inr, ◌⊎◌,
  ◌↔◌,
}
use depict_isosurfaces.Tree.Order.{TreeOps, IsPreOrder}
use depict_isosurfaces.Tree.Caches.{positions, elem-positions, positions_rise}

abbrev pub Mask : Type 0
Mask = ℕ → Bool

abbrev pub no_bits : Mask
no_bits b = false

-- What a filter says of itself.
pub record FilterMasks : Type 0 where
  pub refresh_emit : ℕ → Mask
  pub refresh_block : ℕ → Mask
  pub have_cache : ℕ → Bool
  pub mask_all : Mask

-- `map<Filter*, size_t>`: `find`, `operator[]` and `insert`, which keeps what is there.
unfoldable pub has_mask : List (ℕ × Mask) → ℕ → Bool
has_mask [] i = false
has_mask ((k, m) ∷ ms) i = (i == k) || has_mask ms i

unfoldable pub mask_of : List (ℕ × Mask) → ℕ → Mask
mask_of [] i = no_bits
mask_of ((k, m) ∷ ms) i = let rest = mask_of ms i in if i == k then m else rest

unfoldable pub insert_mask : ℕ → Mask → List (ℕ × Mask) → List (ℕ × Mask)
unfolding has_mask
insert_mask i m ms = if has_mask ms i then ms else (i, m) ∷ ms

module _ (t : TreeOps) (f : FilterMasks) where
  -- `curEmit`
  unfoldable pub cur_emit : List (ℕ × Mask) → ℕ → Mask
  unfolding mask_of
  cur_emit emit_types i b =
      if t.depth i == 0
      then f.refresh_emit i b
      else (mask_of emit_types (t.parent i) b && (not (f.refresh_block i b) && f.mask_all b))
        || f.refresh_emit i b

  unfoldable pub emit_loop : List ℕ → List (ℕ × Mask) → List (ℕ × Mask)
  unfolding cur_emit insert_mask
  emit_loop [] emit_types = emit_types
  emit_loop (i ∷ is) emit_types = emit_loop is (insert_mask i (cur_emit emit_types i) emit_types)

  -- `begin_breadth_first` goes into a `tree<Filter *>::iterator`, which walks in pre-order to the end.
  unfoldable pub emit_types : List (ℕ × Mask)
  unfolding emit_loop positions
  emit_types = emit_loop (positions t.size 0) []

-- The loop over the children, which stops at the first one without a cache.
unfoldable pub children_mask : FilterMasks → List ℕ → Mask → Mask
children_mask f [] mask = mask
children_mask f (c ∷ cs) mask =
    let rest = children_mask f cs (λ b. mask b && f.refresh_block c b) in
    if f.have_cache c then rest else no_bits

module _ (t : TreeOps) (f : FilterMasks) (children : ℕ → List ℕ) where
  -- `blockMask`, which begins as 0x0.
  unfoldable pub block_mask : ℕ → Mask
  unfolding children_mask
  block_mask i b = f.have_cache i && (children_mask f (children i) no_bits b || f.refresh_block i b)

  -- The filters at one depth.
  unfoldable pub block_level : ℕ → List ℕ → List (ℕ × Mask) → List (ℕ × Mask)
  unfolding block_mask insert_mask
  block_level ui [] block_types = block_types
  block_level ui (it ∷ its) block_types =
      block_level ui its
        (if t.depth it == ui then insert_mask it (block_mask it) block_types else block_types)

  -- `for(ui = max_depth() + 1; ui; ) { ui--; ... }`
  unfoldable pub block_loop : ℕ → List (ℕ × Mask) → List (ℕ × Mask)
  unfolding block_level positions
  block_loop zero block_types = block_types
  block_loop (suc ui) block_types = block_loop ui (block_level ui (positions t.size 0) block_types)

  unfoldable pub block_types : ℕ → List (ℕ × Mask)
  unfolding block_loop
  block_types max_depth = block_loop (suc max_depth) []

module _ (t : TreeOps) (f : FilterMasks) where
  -- A stream type that leaves a filter: its own, or one that comes in and is not blocked.
  pub data Emits : ℕ → ℕ → Type 0 where
    own : (i b : ℕ) → f.refresh_emit i b ≡ true → Emits i b
    passed :
        (i b : ℕ)
        → 0 < t.depth i
        → Emits (t.parent i) b
        → f.refresh_block i b ≡ false
        → f.mask_all b ≡ true
        → Emits i b

  Emits-cases :
      (i b : ℕ)
      → Emits i b
      → (f.refresh_emit i b ≡ true)
        ⊎ ((0 < t.depth i)
            × Emits (t.parent i) b
            × (f.refresh_block i b ≡ false)
            × (f.mask_all b ≡ true))
  Emits-cases _ _ (own i b h) = inl h
  Emits-cases _ _ (passed i b d e k m) = inr (d, e, k, m)

  -- The filters that are not to do have their masks.
  pub record IsFilled (todo : List ℕ) (ms : List (ℕ × Mask)) : Type 0 where
    pub has : (i : ℕ) → i < t.size → has_mask ms i ≡ not (elem i todo)
    pub right : (i b : ℕ) → has_mask ms i ≡ true → (mask_of ms i b ≡ true) ↔ Emits i b

  cur_emit_iff :
      (ms : List (ℕ × Mask)) (i b : ℕ)
      → (0 < t.depth i → (mask_of ms (t.parent i) b ≡ true) ↔ Emits (t.parent i) b)
      → (cur_emit t f ms i b ≡ true) ↔ Emits i b
  unfolding cur_emit
  cur_emit_iff ms i b up = (
    (λ e. elim (Bool-cases (f.refresh_emit i b)) [
      | inl u ↦ own i b u
      | inr u ↦
          let in_mask : (0 < t.depth i)
              × (mask_of ms (t.parent i) b ≡ true)
              × (f.refresh_block i b ≡ false)
              × (f.mask_all b ≡ true) =
            ground arith in
          passed i b in_mask.0 ((up in_mask.0).0 in_mask.1) in_mask.2 in_mask.3
    ]),
    λ e. elim (Emits-cases i b e) [
      | inl u ↦ ground arith
      | inr (deep, above, k, m) ↦ let u = (up deep).1 above in ground arith
    ],
  )

  parent_filled :
      (pre : IsPreOrder t) (i : ℕ) (is : List ℕ) (ms : List (ℕ × Mask))
      → i < t.size
      → IsRising (suc i) t.size is
      → IsFilled (i ∷ is) ms
      → 0 < t.depth i
      → has_mask ms (t.parent i) ≡ true
  parent_filled pre i is ms h up filled deep =
      let before = pre.parent_before i h deep in
      let has = filled.has (t.parent i) (omega (arith, before, h)) in
      let done = elem-IsRising (suc i) t.size (t.parent i) is up (omega (arith, before)) in
      ground (arith, has, done, before)

  fill_step :
      (pre : IsPreOrder t) (i : ℕ) (is : List ℕ) (ms : List (ℕ × Mask))
      → i < t.size
      → IsRising (suc i) t.size is
      → IsFilled (i ∷ is) ms
      → IsFilled is (insert_mask i (cur_emit t f ms i) ms)
  unfolding insert_mask has_mask mask_of
  fill_step pre i is ms h up filled =
      let fresh : has_mask ms i ≡ false = ground (arith, filled.has i h) in
      let k = elem-IsRising (suc i) t.size i is up (omega arith) in
      rw fresh (record {
        has = λ j m. elim (Bool-cases (j == i)) [
          | inl u ↦ let same : j ≡ i = ground arith in rw same (ground (arith, k))
          | inr u ↦ ground (arith, filled.has j m)
        ];
        right = λ j b e. elim (Bool-cases (j == i)) [
          | inl u ↦
              let same : j ≡ i = ground arith in
              rw same (
                rw (==_refl i) (
                  cur_emit_iff ms i b (λ deep.
                    filled.right (t.parent i) b (parent_filled pre i is ms h up filled deep))))
          | inr u ↦ rw u (filled.right j b (rw u at e))
        ];
      })

  emit_loop_lem :
      (pre : IsPreOrder t) (low : ℕ) (is : List ℕ) (ms : List (ℕ × Mask))
      → IsRising low t.size is
      → IsFilled is ms
      → IsFilled [] (emit_loop t f is ms)
  unfolding emit_loop
  emit_loop_lem pre low [] ms up filled = filled
  emit_loop_lem pre low (i ∷ is) ms up filled =
      let fits = IsRising-fits (suc i) t.size is up.1 in
      emit_loop_lem pre (suc i) is (insert_mask i (cur_emit t f ms i) ms) up.1
        (fill_step pre i is ms (omega (arith, fits)) up.1 filled)

  -- After the walk the emit mask of a filter has exactly the stream types that the filter emits itself
  -- or that reach it from above without being blocked on the way, by it included.
  pub emit_types_iff :
      (pre : IsPreOrder t) (i b : ℕ)
      → i < t.size
      → (mask_of (emit_types t f) i b ≡ true) ↔ Emits i b
  unfolding emit_types has_mask
  emit_types_iff pre i b h =
      let start : IsFilled (positions t.size 0) [] = record {
        has = λ j k. rw ((elem-positions t.size 0 j).1 (omega arith, omega (arith, k))) refl;
        right = λ j c e. absurd (cc);
      } in
      let filled = emit_loop_lem pre 0 (positions t.size 0) [] (positions_rise t.size) start in
      filled.right i b (filled.has i h)
