-- ===== src/Tree/Starts.antt =====
-- `FilterTree::getFilterRefreshStarts` of src/backend/filtertree.cpp: the filters from which a refresh
-- begins.
use depict_isosurfaces.Prelude.{
  ℕ, zero, suc, ◌≡◌, refl, sym, subst, Bool, true, false, not, ◌&&◌, ◌||◌, List, [], ◌∷◌, ◌++◌,
  arith, ◌==◌, if◌then◌else◌, elem, elem-append, Bool-cases, inl, inr,
}
use depict_isosurfaces.Tree.Order.{TreeOps, is_child}
use depict_isosurfaces.Tree.Caches.{positions}
use depict_isosurfaces.Tree.Masks.{Mask, FilterMasks, mask_of, emit_types, block_types}

-- `isChildFilt`
unfoldable pub below_any : TreeOps → List ℕ → ℕ → Bool
unfolding is_child
below_any t [] it = false
below_any t (s ∷ seeds) it = is_child t s it || below_any t seeds it

-- The walk, over the test that makes a filter a seed.
unfoldable pub seed_loop : TreeOps → (ℕ → Bool) → List ℕ → List ℕ → List ℕ
unfolding below_any
seed_loop t test [] seeds = seeds
seed_loop t test (it ∷ its) seeds =
    seed_loop t test its
      (if below_any t seeds it then seeds else if test it then seeds ++ it ∷ [] else seeds)

-- `blockMask &= accumulatedBlockTypes[*itJ]` over the children, from ~0.
unfoldable pub all_block : (ℕ → Mask) → List ℕ → Mask
all_block block [] b = true
all_block block (c ∷ cs) b = block c b && all_block block cs b

-- Whether one of the bits below `n` is set.
unfoldable pub any_bit : ℕ → Mask → Bool
any_bit zero m = false
any_bit (suc n) m = m n || any_bit n m

module _ (t : TreeOps) (f : FilterMasks) (children : ℕ → List ℕ) (max_depth : ℕ) where
  -- `emitMask & ((~blockMask) & STREAMTYPE_MASK_ALL)`
  abbrev pub open_bits : ℕ → Mask
  open_bits it b =
      mask_of (emit_types t f) it b
      && (not (all_block (mask_of (block_types t f children max_depth)) (children it) b)
          && f.mask_all b)

  -- Whether it is not zero, as an int.
  unfoldable pub is_open : ℕ → Bool
  unfolding all_block any_bit emit_types block_types mask_of
  is_open it = any_bit 32 (open_bits it)

  -- `is_leaf` is the look-up in the leaf map. The walk begins at `begin_breadth_first`, but its
  -- variable is a `tree<Filter *>::iterator`, which goes on in pre-order to the end.
  unfoldable pub refresh_starts : (ℕ → Bool) → List ℕ
  unfolding seed_loop is_open positions
  refresh_starts is_leaf =
      if t.size == 0
      then []
      else seed_loop t (λ it. is_leaf it || is_open it) (positions t.size 0) []

-- A seed, or below one.
abbrev pub started : TreeOps → List ℕ → ℕ → Bool
started t seeds j = elem j seeds || below_any t seeds j

module _ (t : TreeOps) (test : ℕ → Bool) where
  pub below_any-append :
      (ss rs : List ℕ) (j : ℕ) → below_any t (ss ++ rs) j ≡ (below_any t ss j || below_any t rs j)
  unfolding below_any
  below_any-append [] rs j = refl
  below_any-append (s ∷ ss) rs j = ground (arith, below_any-append ss rs j)

  -- One round of the loop.
  abbrev next : List ℕ → ℕ → List ℕ
  next seeds it =
      if below_any t seeds it then seeds else if test it then seeds ++ it ∷ [] else seeds

  started-next :
      (seeds : List ℕ) (it j : ℕ) → started t seeds j ≡ true → started t (next seeds it) j ≡ true
  started-next seeds it j h =
      ground (arith, elem-append j seeds (it ∷ []), below_any-append seeds (it ∷ []) j)

  started_kept :
      (its seeds : List ℕ) (j : ℕ)
      → started t seeds j ≡ true
      → started t (seed_loop t test its seeds) j ≡ true
  unfolding seed_loop
  started_kept [] seeds j h = h
  started_kept (it ∷ its) seeds j h = started_kept its (next seeds it) j (started-next seeds it j h)

  settle : (seeds : List ℕ) (it : ℕ) → test it ≡ true → started t (next seeds it) it ≡ true
  settle seeds it h = ground (arith, elem-append it seeds (it ∷ []))

  -- Each filter that passes the test is a seed in the end, or below one.
  pub seed_loop_covers :
      (its seeds : List ℕ) (j : ℕ)
      → elem j its ≡ true
      → test j ≡ true
      → started t (seed_loop t test its seeds) j ≡ true
  unfolding seed_loop
  seed_loop_covers [] seeds j h k = absurd (cc)
  seed_loop_covers (it ∷ its) seeds j h k = elim (Bool-cases (j == it)) [
    | inl u ↦
        let same : j ≡ it = ground arith in
        started_kept its (next seeds it) j (
          subst (λ x. started t (next seeds it) x ≡ true) (sym same)
            (settle seeds it (subst (λ x. test x ≡ true) same k)))
    | inr u ↦ seed_loop_covers its (next seeds it) j (ground arith) k
  ]
