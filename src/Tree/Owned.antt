-- ===== src/Tree/Owned.antt =====
-- What `FilterRefreshCollector` (src/backend/filtertree.cpp) owns through any use of it.
use depict_isosurfaces.Prelude.{
  ℕ, zero, suc, ◌+◌, ◌≤◌, ◌≡◌, refl, Bool, true, false, not, ◌&&◌, List, [], ◌∷◌, some, arith,
  if◌then◌else◌, elem, keep, drop, get_elem?, Bool-cases, inl, inr,
}
use depict_isosurfaces.Tree.Collector.{
  Collector, flat, in_nodes, found, track_pointers, forget_one, forget_pointers, collect_all,
  resize, collect_to_level, count, tally, count-append, count-elem, count-flat, flat-append,
  count-keep, count-erase_in,
}

module _ (tracks_self : ℕ → Bool) where
  -- No pointer is owned twice, and no level holds one that tracks itself: `checkSanity`.
  pub record IsSane (c : Collector) : Type 0 where
    pub once : (p : ℕ) → tally p c ≤ 1
    pub untracked : (p : ℕ) → tracks_self p ≡ true → count p (flat c.nodes) ≡ 0

  -- The streams that a filter returns: no pointer twice, and none that was deleted.
  pub record IsOutput (c : Collector) (v : List ℕ) : Type 0 where
    pub distinct : (p : ℕ) → count p v ≤ 1
    pub live : (p : ℕ) → elem p v ≡ true → count p c.deleted ≡ 0

  -- The calls of a refresh.
  pub data Step : Collector → Collector → Type 0 where
    track : (c : Collector) (v : List ℕ) → IsOutput c v → Step c (track_pointers tracks_self v c)
    forget : (c : Collector) (v : List ℕ) → Step c (forget_pointers v c)
    all : (c : Collector) → Step c (collect_all c)
    to_level : (c : Collector) (level : ℕ) → Step c (collect_to_level level c)

  pub data Reach : Collector → Type 0 where
    start : Reach (record { nodes = []; forgotten_nodes = []; deleted = [] })
    next : (c d : Collector) → Reach c → Step c d → Reach d

  count_forget :
      (p q : ℕ) (c : Collector)
      → (tally q (forget_one p c) ≡ tally q c)
        × (count q (flat (forget_one p c).nodes) ≤ count q (flat c.nodes))
  unfolding forget_one count
  count_forget p q c = elim (Bool-cases (in_nodes p c.nodes)) [
    | inl e ↦ let h = count-erase_in p q c.nodes e in rw e (ground (arith, h), omega (arith, h))
    | inr e ↦ rw e (refl, omega arith)
  ]

  count-forget_pointers :
      (v : List ℕ) (q : ℕ) (c : Collector)
      → (tally q (forget_pointers v c) ≡ tally q c)
        × (count q (flat (forget_pointers v c).nodes) ≤ count q (flat c.nodes))
  unfolding forget_pointers
  count-forget_pointers [] q c = (refl, omega arith)
  count-forget_pointers (p ∷ v) q c =
      let one = count_forget p q c in
      let rest = count-forget_pointers v q (forget_one p c) in
      (omega (arith, one.0, rest.0), omega (arith, one.1, rest.1))

  count-resize :
      (level q : ℕ) (ls : List (List ℕ))
      → count q (flat (resize level ls)) + count q (flat (drop level ls)) ≡ count q (flat ls)
  unfolding resize flat count
  count-resize zero q ls = omega arith
  count-resize (suc n) q [] = omega (arith, count-resize n q [])
  count-resize (suc n) q (l ∷ ls) = omega (
    arith,
    count-resize n q ls,
    count-append q l (flat (resize n ls)),
    count-append q l (flat ls),
  )

  drop_level :
      (level q : ℕ) (ls : List (List ℕ))
      → count q (flat (drop (suc level) ls)) ≤ count q (flat (drop level ls))
  unfolding flat
  drop_level zero q [] = omega arith
  drop_level zero q (l ∷ ls) = omega (arith, count-append q l (flat ls))
  drop_level (suc n) q [] = omega arith
  drop_level (suc n) q (l ∷ ls) = drop_level n q ls

  count_track :
      (c : Collector) (v : List ℕ) (p : ℕ)
      → count p (flat (track_pointers tracks_self v c).nodes)
        ≡ count p (flat c.nodes) + (if not (tracks_self p) && not (found c p) then count p v else 0)
  unfolding track_pointers flat count
  count_track c v p =
      let tests = λ (q : ℕ). not (tracks_self q) && not (found c q) in
      omega (
        arith,
        flat-append p c.nodes (keep tests v ∷ []),
        count-append p (keep tests v) [],
        count-keep tests p v,
      )

  track_once :
      (c : Collector) (v : List ℕ) (p : ℕ)
      → IsOutput c v
      → IsSane c
      → tally p (track_pointers tracks_self v c) ≤ 1
  unfolding track_pointers
  track_once c v p o s =
      let now = count_track c v p in
      let before = s.once p in
      elim (Bool-cases (not (tracks_self p) && not (found c p))) [
        | inl e ↦
            let outside : in_nodes p c.nodes ≡ false = ground arith in
            let unforgotten : elem p c.forgotten_nodes ≡ false = ground arith in
            let none_tracked = count-flat p c.nodes outside in
            let none_forgotten = count-elem p c.forgotten_nodes unforgotten in
            let one = o.distinct p in
            elim (Bool-cases (elem p v)) [
              | inl u ↦
                  let dead = o.live p u in
                  ground (arith, now, none_tracked, none_forgotten, one, dead, e)
              | inr u ↦ let none = count-elem p v u in ground (arith, now, none, before, e)
            ]
        | inr e ↦ ground (arith, now, before, e)
      ]

  track-IsSane :
      (c : Collector) (v : List ℕ)
      → IsOutput c v
      → IsSane c
      → IsSane (track_pointers tracks_self v c)
  track-IsSane c v o s = record {
    once = λ p. track_once c v p o s;
    untracked = λ p h. ground (arith, count_track c v p, s.untracked p h, h);
  }

  level_count :
      (level q : ℕ) (c : Collector)
      → (tally q (collect_to_level level c) ≤ tally q c)
        × (count q (flat (collect_to_level level c).nodes) ≤ count q (flat c.nodes))
  unfolding collect_to_level
  level_count level q c =
      let cut = count-resize level q c.nodes in
      let less = drop_level level q c.nodes in
      let gone = count-append q c.deleted (flat (drop (suc level) c.nodes)) in
      (omega (arith, cut, less, gone), omega (arith, cut))

  Step-IsSane : (c d : Collector) → Step c d → IsSane c → IsSane d
  unfolding collect_all flat count
  Step-IsSane _ _ (track c v o) s = track-IsSane c v o s
  Step-IsSane _ _ (forget c v) s = record {
    once = λ p. omega (arith, s.once p, (count-forget_pointers v p c).0);
    untracked = λ p h. omega (arith, s.untracked p h, (count-forget_pointers v p c).1);
  }
  Step-IsSane _ _ (all c) s = record {
    once = λ p. omega (arith, s.once p, count-append p c.deleted (flat c.nodes));
    untracked = λ p h. refl;
  }
  Step-IsSane _ _ (to_level c level) s = record {
    once = λ p. omega (arith, s.once p, (level_count level p c).0);
    untracked = λ p h. omega (arith, s.untracked p h, (level_count level p c).1);
  }

  -- Through every sequence of calls in which the filters return live streams, none twice, each pointer
  -- is tracked, forgotten or deleted once at most: none is deleted twice, and none that was forgotten
  -- is deleted. No stream that tracks itself is tracked.
  pub Reach-IsSane : (c : Collector) → Reach c → IsSane c
  unfolding flat count
  Reach-IsSane _ start = record { once = λ p. omega arith; untracked = λ p h. refl }
  Reach-IsSane _ (next c d r step) = Step-IsSane c d step (Reach-IsSane c r)

  elem-count : (p : ℕ) (xs : List ℕ) → elem p xs ≡ true → 1 ≤ count p xs
  unfolding count
  elem-count p [] h = absurd (cc)
  elem-count p (x ∷ xs) h = ground (arith, elem-count p xs)

  drop_at :
      (level q : ℕ) (ls : List (List ℕ)) (l : List ℕ)
      → get_elem? ls level ≡ some l
      → count q (flat (drop level ls)) ≡ count q l + count q (flat (drop (suc level) ls))
  unfolding flat
  drop_at level q [] l h = absurd (cc)
  drop_at zero q (k ∷ ls) l h = let same : k ≡ l = cc in rw same (count-append q l (flat ls))
  drop_at (suc n) q (k ∷ ls) l h = drop_at n q ls l h

  -- collectToLevel loses the level it is called with: a pointer of that level is owned before the call,
  -- and after it is neither tracked nor forgotten nor deleted.
  pub collect_to_level-lost :
      (c : Collector) (level p : ℕ) (l : List ℕ)
      → Reach c
      → get_elem? c.nodes level ≡ some l
      → elem p l ≡ true
      → (tally p c ≡ 1) × (tally p (collect_to_level level c) ≡ 0)
  unfolding collect_to_level
  collect_to_level-lost c level p l r h e =
      let once = (Reach-IsSane c r).once p in
      let cut = count-resize level p c.nodes in
      let at_level = drop_at level p c.nodes l h in
      let present = elem-count p l e in
      let gone = count-append p c.deleted (flat (drop (suc level) c.nodes)) in
      (
        omega (arith, once, cut, at_level, present),
        omega (arith, once, cut, at_level, present, gone),
      )
