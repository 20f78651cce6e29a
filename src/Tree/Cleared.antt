-- ===== src/Tree/Cleared.antt =====
-- What the operations of the filter tree (src/backend/filtertree.cpp) do to the caches of its filters.
use depict_isosurfaces.Prelude.{
  ℕ, zero, suc, ◌+◌, ◌-◌, ◌≤◌, ◌<◌, ◌≡◌, refl, sym, subst, ◌∙◌, Bool, true, false, not, ◌&&◌, ◌||◌,
  List, [], ◌∷◌, some, arith, ◌==◌, elem, elem-keep, keep, All, Bool-cases, inl, inr, ◌⊎◌, ◌↔◌,
}
use depict_isosurfaces.Tree.Order.{
  TreeOps, IsPreOrder, is_child, is_child_iff, subtree, subtree_iff,
}
use depict_isosurfaces.Tree.Caches.{
  Caches, clear_at, positions, clear_cache, clear_tested, clear_cache_by_type, clear_monitored,
  set_filter_property, reparent_refused, reparent_clear, clear_each_lem, elem-positions,
}

bool_ext : (a b : Bool) → (a ≡ true) ↔ (b ≡ true) → a ≡ b
bool_ext true b h = sym (h.0 refl)
bool_ext false true h = h.1 refl
bool_ext false false h = refl

positions-All : (m n it : ℕ) → it + n ≤ m → All (λ i. i < m) (positions n it)
unfolding positions
positions-All m zero it h = tt
positions-All m (suc n) it h = (omega (arith, h), positions-All m n (suc it) (omega (arith, h)))

module _ (t : TreeOps) (pre : IsPreOrder t) where
  elem-subtree :
      (f j : ℕ) → f < t.size → j < t.size → elem j (subtree t f) ≡ ((j == f) || is_child t f j)
  elem-subtree f j h k =
      let s = subtree_iff t pre f j h k in
      bool_ext (elem j (subtree t f)) ((j == f) || is_child t f j) (
        (λ e. elim (s.0 e) [ inl u ↦ ground arith | inr u ↦ ground arith ]),
        (λ e. elim (Bool-cases (j == f)) [
          | inl u ↦ s.1 (inl (ground arith))
          | inr u ↦ s.1 (inr (ground arith))
        ]),
      )

  not_own_child : (f : ℕ) → f < t.size → is_child t f f ≡ false
  not_own_child f h = elim (Bool-cases (is_child t f f)) [
    | inl e ↦ absurd (omega (arith, ((is_child_iff t pre f f h).0 e).0))
    | inr e ↦ e
  ]

  -- clearCache of a filter clears the filter itself if asked to and its children at any depth, and
  -- leaves every other cache alone.
  pub clear_cache_lem :
      (f j : ℕ) (include_self : Bool) (cached : Caches)
      → f < t.size
      → j < t.size
      → clear_cache t (some f) include_self cached j
        ≡ (cached j && not ((include_self && (j == f)) || is_child t f j))
  unfolding clear_cache
  clear_cache_lem f j b cached h k =
      rw
        (
          clear_each_lem (keep (λ it. b || not (it == f)) (subtree t f)) cached j,
          elem-keep (λ it. b || not (it == f)) (subtree t f) j,
          elem-subtree f j h k,
        )
        (elim (Bool-cases (j == f)) [
          | inl u ↦
              let same : j ≡ f = ground arith in rw same (rw (not_own_child f h) (ground arith))
          | inr u ↦ ground arith
        ])

  -- setFilterProperty, where the filter takes the value and asks for an update, clears the caches of
  -- its children at any depth and no other; a value that it refuses or that needs no update leaves
  -- the caches as the filter left them.
  pub set_filter_property_lem :
      (f j : ℕ) (accepted need_update : Bool) (cached : Caches)
      → f < t.size
      → j < t.size
      → ((set_filter_property t f (accepted, need_update, cached)).0 ≡ accepted)
        × ((set_filter_property t f (accepted, need_update, cached)).1 j
            ≡ (cached j && not (accepted && need_update && is_child t f j)))
  unfolding set_filter_property clear_cache
  set_filter_property_lem f j false n cached h k = (refl, ground arith)
  set_filter_property_lem f j true false cached h k = (refl, ground arith)
  set_filter_property_lem f j true true cached h k = (refl, clear_cache_lem f j false cached h k)

  -- A filter that passes the test, or is below one that does.
  abbrev IsHit : (ℕ → Bool) → ℕ → ℕ → Type 0
  IsHit test j i = (test i ≡ true) × ((j ≡ i) ⊎ (is_child t i j ≡ true))

  hit : (ℕ → Bool) → ℕ → ℕ → Bool
  hit test j i = test i && ((j == i) || is_child t i j)

  any_hit : (ℕ → Bool) → ℕ → List ℕ → Bool
  unfolding hit
  any_hit test j [] = false
  any_hit test j (i ∷ is) = hit test j i || any_hit test j is

  hit-IsHit : (test : ℕ → Bool) (j i : ℕ) → hit test j i ≡ true → IsHit test j i
  unfolding hit
  hit-IsHit test j i u = (
    ground arith,
    elim (Bool-cases (j == i)) [ inl v ↦ inl (ground arith) | inr v ↦ inr (ground arith) ],
  )

  any_hit-false :
      (test : ℕ → Bool) (j : ℕ) (its : List ℕ)
      → (any_hit test j its ≡ false) ↔ ((i : ℕ) → elem i its ≡ true → ¬ IsHit test j i)
  unfolding any_hit hit
  any_hit-false test j [] = ((λ e i m. absurd (cc)), λ e. refl)
  any_hit-false test j (x ∷ its) =
      let rest = any_hit-false test j its in
      (
        (λ e i m b. elim (Bool-cases (i == x)) [
          | inl u ↦
              let same : i ≡ x = ground arith in
              let p : IsHit test j x = subst (λ y. IsHit test j y) same b in
              elim p.1 [ inl v ↦ ground arith | inr v ↦ ground arith ]
          | inr u ↦ rest.0 (ground arith) i (ground arith) b
        ]),
        λ e. elim (Bool-cases (hit test j x)) [
          | inl u ↦ absurd (e x (ground arith) (hit-IsHit test j x u))
          | inr u ↦ rw u (rest.1 (λ i m. e i (ground arith)))
        ],
      )

  clear_tested_lem :
      (test : ℕ → Bool) (its : List ℕ) (j : ℕ) (cached : Caches)
      → All (λ i. i < t.size) its
      → j < t.size
      → clear_tested t test its cached j ≡ (cached j && not (any_hit test j its))
  unfolding clear_tested any_hit hit
  clear_tested_lem test [] j cached h k = ground arith
  clear_tested_lem test (x ∷ its) j cached h k =
      let one = clear_cache_lem x j true cached h.0 k in
      elim (Bool-cases (test x)) [
        | inl e ↦ rw e (
            clear_tested_lem test its j (clear_cache t (some x) true cached) h.1 k
            ∙ rw one (ground arith))
        | inr e ↦ rw e (clear_tested_lem test its j cached h.1 k)
      ]

  clear_all_lem :
      (test : ℕ → Bool) (j : ℕ) (cached : Caches)
      → j < t.size
      → (clear_tested t test (positions t.size 0) cached j ≡ true)
        ↔ ((cached j ≡ true) × ((i : ℕ) → i < t.size → ¬ IsHit test j i))
  clear_all_lem test j cached k =
      let every = positions t.size 0 in
      let e =
        clear_tested_lem test every j cached (positions-All t.size t.size 0 (omega arith)) k in
      let none_hit = any_hit-false test j every in
      let place = elem-positions t.size 0 in
      (
        (λ h.
            let both : (cached j ≡ true) × (any_hit test j every ≡ false) = ground (arith, e, h) in
            (both.0, λ i m. none_hit.0 both.1 i ((place i).1 (omega arith, omega (arith, m))))),
        λ h.
            let clean = none_hit.1 (λ i m. h.1 i (omega (arith, ((place i).0 m).1))) in
            rw e (ground (arith, h.0, clean)),
      )

  -- clearCacheByType leaves a cache exactly if it was there and neither its filter nor any filter
  -- above it has the type.
  pub clear_cache_by_type_lem :
      (get_type : ℕ → ℕ) (type j : ℕ) (cached : Caches)
      → j < t.size
      → (clear_cache_by_type t get_type type cached j ≡ true) ↔ (
          (cached j ≡ true)
          × ((i : ℕ) → i < t.size → get_type i ≡ type → ¬ ((j ≡ i) ⊎ (is_child t i j ≡ true))))
  unfolding clear_cache_by_type
  clear_cache_by_type_lem get_type type j cached k =
      let all = clear_all_lem (λ it. get_type it == type) j cached k in
      (
        (λ e. ((all.0 e).0, λ i m q b. (all.0 e).1 i m (ground arith, b))),
        λ e. all.1 (e.0, λ i m b. e.1 i m (ground (arith, b.0)) b.1),
      )

  -- Before a refresh a cache is left exactly if it was there and no filter above it, nor its own, is
  -- one whose monitor asks for a refresh.
  pub clear_monitored_lem :
      (needs_refresh : ℕ → Bool) (j : ℕ) (cached : Caches)
      → j < t.size
      → (clear_monitored t needs_refresh cached j ≡ true) ↔ (
          (cached j ≡ true)
          × ((i : ℕ)
              → i < t.size
              → ¬ ((needs_refresh i ≡ true) × ((j ≡ i) ⊎ (is_child t i j ≡ true)))))
  unfolding clear_monitored
  clear_monitored_lem needs_refresh j cached k = clear_all_lem needs_refresh j cached k

  -- reparentFilter refuses exactly the filter itself and its children at any depth as the new parent.
  -- Otherwise the cache of the filter and those of its children are cleared and no filter before it
  -- in the pre-order loses its cache.
  pub reparent_lem :
      (f p j : ℕ) (cached : Caches)
      → f < t.size
      → p < t.size
      → j < t.size
      → (reparent_refused t f p ≡ ((p == f) || is_child t f p))
        × (((j ≡ f) ⊎ (is_child t f j ≡ true)) → reparent_clear t f cached j ≡ false)
        × (j < f → reparent_clear t f cached j ≡ cached j)
  unfolding reparent_refused reparent_clear clear_at
  reparent_lem f p j cached h k l =
      let tests = λ (it : ℕ). not (t.depth f == t.depth it) in
      let range = positions (t.size - f) f in
      let each = clear_each_lem (keep tests range) cached j in
      let kept = elem-keep tests range j in
      let place = elem-positions (t.size - f) f j in
      (
        elem-subtree f p h k,
        (λ c. elim c [
          | inl u ↦ ground (arith, u)
          | inr u ↦
              let below = (is_child_iff t pre f j l).0 u in
              let deeper = below.1 j below.0 (omega arith) in
              let within = place.1 (omega (arith, below.0), omega arith) in
              ground (arith, each, kept, within, deeper)
        ]),
        λ m.
            let outside = elim (Bool-cases (elem j range)) as (λ x. elem j range ≡ false) [
              | inl u ↦ absurd (omega (arith, m, (place.0 u).0))
              | inr u ↦ u
            ] in
            ground (arith, each, kept, outside, m),
      )
