-- ===== src/Tree/Seeds.antt =====
-- What `getFilterRefreshStarts` (src/backend/filtertree.cpp) promises of the filters that it returns.
use depict_isosurfaces.Prelude.{
  IsRising, IsRising-fits, ℕ, zero, suc, ◌≤◌, ◌<◌, ◌≡◌, refl, sym, ◌∙◌, Bool, true, false, ◌&&◌,
  ◌||◌, List, [], ◌∷◌, ◌++◌, arith, ◌==◌, elem, elem-append, Bool-cases, inl, inr, ◌⊎◌,
}
use depict_isosurfaces.Basics.Sort.{IsDistinct}
use depict_isosurfaces.Tree.Order.{TreeOps, IsPreOrder, is_child, is_child_iff}
use depict_isosurfaces.Tree.Caches.{positions, elem-positions, positions_rise}
use depict_isosurfaces.Tree.Masks.{
  Mask, FilterMasks, mask_of, emit_types, block_types, Emits, emit_types_iff,
}
use depict_isosurfaces.Tree.Blocks.{block_types_lem}
use depict_isosurfaces.Tree.Starts.{
  below_any, seed_loop, all_block, any_bit, open_bits, is_open, refresh_starts, started,
  seed_loop_covers,
}

IsDistinct-snoc :
    (xs : List ℕ) (x : ℕ) → elem x xs ≡ false → IsDistinct xs → IsDistinct (xs ++ x ∷ [])
IsDistinct-snoc [] x h d = (refl, tt)
IsDistinct-snoc (y ∷ ys) x h d = (
  ground (arith, elem-append y ys (x ∷ []), d.0, h),
  IsDistinct-snoc ys x (ground (arith, h)) d.1,
)

elem_snoc : (s x : ℕ) (xs : List ℕ) → elem s (xs ++ x ∷ []) ≡ true → (elem s xs ≡ true) ⊎ (s ≡ x)
elem_snoc s x xs h = elim (Bool-cases (elem s xs)) [
  | inl u ↦ inl u
  | inr u ↦ inr (ground (arith, elem-append s xs (x ∷ []), h))
]

module _ (t : TreeOps) (pre : IsPreOrder t) where
  below_none :
      (seeds : List ℕ) (x s : ℕ)
      → below_any t seeds x ≡ false
      → elem s seeds ≡ true
      → is_child t s x ≡ false
  unfolding below_any
  below_none [] x s h k = absurd (cc)
  below_none (y ∷ ys) x s h k = elim (Bool-cases (s == y)) [
    | inl u ↦ let same : s ≡ y = ground arith in rw same (ground arith)
    | inr u ↦ below_none ys x s (ground arith) (ground arith)
  ]

  not_later : (p c : ℕ) → c < t.size → c ≤ p → is_child t p c ≡ false
  not_later p c h d = elim (Bool-cases (is_child t p c)) [
    | inl u ↦ let below = (is_child_iff t pre p c h).0 u in absurd (omega (arith, below.0, d))
    | inr u ↦ u
  ]

  -- Seeds of which none is below another.
  pub record IsApart (seeds : List ℕ) : Type 0 where
    pub distinct : IsDistinct seeds
    pub apart : (a b : ℕ) → elem a seeds ≡ true → elem b seeds ≡ true → is_child t a b ≡ false

  -- The seeds are in front of the filters to come.
  abbrev pub IsAhead : List ℕ → ℕ → Type 0
  IsAhead seeds low = (s : ℕ) → elem s seeds ≡ true → s < low

  IsAhead-snoc : (seeds : List ℕ) (x : ℕ) → IsAhead seeds x → IsAhead (seeds ++ x ∷ []) (suc x)
  IsAhead-snoc seeds x a s e = elim (elem_snoc s x seeds e) [
    | inl u ↦ let before = a s u in omega (arith, before)
    | inr u ↦ omega (arith, u)
  ]

  IsApart-snoc :
      (seeds : List ℕ) (x : ℕ)
      → x < t.size
      → below_any t seeds x ≡ false
      → IsAhead seeds x
      → IsApart seeds
      → IsApart (seeds ++ x ∷ [])
  IsApart-snoc seeds x h k a p =
      let new : elem x seeds ≡ false =
        elim (Bool-cases (elem x seeds)) as (λ y. elem x seeds ≡ false) [
          | inl u ↦ let other = a x u in absurd (omega (arith, other))
          | inr u ↦ u
        ] in
      record {
        distinct = IsDistinct-snoc seeds x new p.distinct;
        apart = λ c d m n. elim (elem_snoc c x seeds m) [
          | inl u ↦ elim (elem_snoc d x seeds n) [
            | inl v ↦ p.apart c d u v
            | inr v ↦ rw v (below_none seeds x c k u)
          ]
          | inr u ↦ elim (elem_snoc d x seeds n) [
            | inl v ↦
                let before = a d v in
                rw u (not_later x d (omega (arith, before, h)) (omega (arith, before)))
            | inr v ↦ rw u (rw v (not_later x x h (omega arith)))
          ]
        ];
      }

  seed_loop-IsApart :
      (test : ℕ → Bool) (low : ℕ) (its seeds : List ℕ)
      → IsRising low t.size its
      → IsAhead seeds low
      → IsApart seeds
      → IsApart (seed_loop t test its seeds)
  unfolding seed_loop
  seed_loop-IsApart test low [] seeds up a p = p
  seed_loop-IsApart test low (x ∷ xs) seeds (from, up) a p =
      let fits = IsRising-fits (suc x) t.size xs up in
      let ahead : IsAhead seeds x = λ s e. let before = a s e in omega (arith, before, from) in
      let later : IsAhead seeds (suc x) = λ s e. let before = ahead s e in omega (arith, before) in
      elim (Bool-cases (below_any t seeds x)) [
        | inl u ↦ rw u (seed_loop-IsApart test (suc x) xs seeds up later p)
        | inr u ↦ elim (Bool-cases (test x)) [
          | inl v ↦
              rw (u, v)
                (seed_loop-IsApart test (suc x) xs (seeds ++ x ∷ []) up (IsAhead-snoc seeds x ahead)
                  (IsApart-snoc seeds x (omega (arith, fits)) u ahead p))
          | inr v ↦ rw (u, v) (seed_loop-IsApart test (suc x) xs seeds up later p)
        ]
      ]

  all_block-true :
      (block : ℕ → Mask) (cs : List ℕ) (b c : ℕ)
      → all_block block cs b ≡ true
      → elem c cs ≡ true
      → block c b ≡ true
  unfolding all_block
  all_block-true block [] b c h k = absurd (cc)
  all_block-true block (d ∷ cs) b c h k = elim (Bool-cases (c == d)) [
    | inl u ↦ let same : c ≡ d = ground arith in rw same (ground arith)
    | inr u ↦ all_block-true block cs b c (ground arith) (ground arith)
  ]

  any_bit-false : (n : ℕ) (m : Mask) (b : ℕ) → any_bit n m ≡ false → b < n → m b ≡ false
  unfolding any_bit
  any_bit-false zero m b h k = absurd (omega arith)
  any_bit-false (suc n) m b h k = elim (Bool-cases (b == n)) [
    | inl u ↦ let same : b ≡ n = ground arith in rw same (ground arith)
    | inr u ↦ any_bit-false n m b (ground arith) (ground arith)
  ]

module _ (t : TreeOps) (pre : IsPreOrder t) (f : FilterMasks) (children : ℕ → List ℕ)
    (max_depth : ℕ) (is_leaf : ℕ → Bool) where
  -- The filters from which a refresh begins are distinct and none is below another, at any depth.
  pub refresh_starts-IsApart : IsApart t pre (refresh_starts t f children max_depth is_leaf)
  unfolding refresh_starts
  refresh_starts-IsApart =
      let none : IsApart t pre [] = record { distinct = tt; apart = λ a b m n. absurd (cc) } in
      elim (Bool-cases (t.size == 0)) [
        | inl u ↦ rw u none
        | inr u ↦ rw u (
            seed_loop-IsApart t pre (λ it. is_leaf it || is_open t f children max_depth it) 0
              (positions t.size 0) [] (positions_rise t.size) (λ s e. absurd (cc)) none)
      ]

  starts_cover :
      (i : ℕ)
      → i < t.size
      → (is_leaf i || is_open t f children max_depth i) ≡ true
      → started t (refresh_starts t f children max_depth is_leaf) i ≡ true
  unfolding refresh_starts
  starts_cover i h k =
      let some_filter : (t.size == 0) ≡ false = ground arith in
      rw some_filter (
        seed_loop_covers t (λ it. is_leaf it || is_open t f children max_depth it)
          (positions t.size 0) [] i ((elem-positions t.size 0 i).1 (omega arith, omega (arith, h)))
          k)

  -- A refresh begins at or above each leaf, so that every filter whose output is shown is refreshed.
  pub refresh_starts_cover :
      (i : ℕ)
      → i < t.size
      → is_leaf i ≡ true
      → started t (refresh_starts t f children max_depth is_leaf) i ≡ true
  refresh_starts_cover i h k = starts_cover i h (ground (arith, k))

  -- A filter that a refresh passes over, being neither a start nor below one, is no leaf, and whatever
  -- stream type of STREAMTYPE_MASK_ALL may leave it, among the 32 of the masks, each of its children has
  -- a cache and blocks; the children are in the tree and no deeper than its `max_depth`.
  pub refresh_starts_skip :
      (i b c : ℕ)
      → i < t.size
      → started t (refresh_starts t f children max_depth is_leaf) i ≡ false
      → b < 32
      → f.mask_all b ≡ true
      → Emits t f i b
      → elem c (children i) ≡ true
      → c < t.size
      → t.depth c ≤ max_depth
      → (is_leaf i ≡ false) × (f.have_cache c ≡ true) × (f.refresh_block c b ≡ true)
  unfolding is_open
  refresh_starts_skip i b c h skipped small known emits child inside deep =
      elim (Bool-cases (is_leaf i || is_open t f children max_depth i)) [
        | inl u ↦ absurd (cc (starts_cover i h u, skipped))
        | inr u ↦
            let block = mask_of (block_types t f children max_depth) in
            let emit = mask_of (emit_types t f) i in
            let bits = open_bits t f children max_depth i in
            let shut : any_bit 32 bits ≡ false = ground arith in
            let at_bit = any_bit-false t pre 32 bits b shut small in
            let sent : emit b ≡ true = (emit_types_iff t f pre i b h).1 emits in
            let all : all_block block (children i) b ≡ true = ground (arith, at_bit, sent, known) in
            let own : (f.have_cache c && f.refresh_block c b) ≡ true =
              sym (block_types_lem t f children max_depth c b inside deep)
              ∙ all_block-true t pre block (children i) b c all child in
            (ground (arith, u), ground (arith, own), ground (arith, own))
      ]
