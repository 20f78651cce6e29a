-- ===== src/Tree/Flow.antt =====
-- How streams flow through `refreshFilterTree` (src/backend/filtertree.cpp): what each filter is called
-- with.
use depict_isosurfaces.Prelude.{
  ℕ, zero, suc, ◌-◌, ◌≤◌, ◌<◌, ◌≡◌, refl, subst, ◌∙◌, Bool, true, false, List, [], ◌∷◌, ◌++◌, some,
  arith, ◌==◌, take, get_elem?, length, length-take, Bool-cases, inl, inr, ◌⊎◌, ltb, ltb→lt,
}
use depict_isosurfaces.Tree.Order.{TreeOps, IsPreOrder, is_child, is_child_iff}
use depict_isosurfaces.Tree.Refresh.{Data, pop_pointer_stack, top}

pub get_elem?-length :
    {A : Type 0} (xs : List A) (i : ℕ) (x : A) → get_elem? xs i ≡ some x → i < length xs
get_elem?-length [] i x h = absurd (cc)
get_elem?-length (y ∷ ys) zero x h = omega arith
get_elem?-length (y ∷ ys) (suc i) x h = omega (arith, get_elem?-length ys i x h)

pub get_elem?-take :
    {A : Type 0} (n i : ℕ) (xs : List A) → i < n → get_elem? (take n xs) i ≡ get_elem? xs i
get_elem?-take zero i xs h = absurd (omega arith)
get_elem?-take (suc n) i [] h = refl
get_elem?-take (suc n) zero (x ∷ xs) h = refl
get_elem?-take (suc n) (suc i) (x ∷ xs) h = get_elem?-take n i xs (omega arith)

pub get_elem?-append :
    {A : Type 0} (xs ys : List A) (i : ℕ) (x : A)
    → get_elem? xs i ≡ some x
    → get_elem? (xs ++ ys) i ≡ some x
get_elem?-append [] ys i x h = absurd (cc)
get_elem?-append (y ∷ xs) ys zero x h = h
get_elem?-append (y ∷ xs) ys (suc i) x h = get_elem?-append xs ys i x h

pub get_elem?-snoc :
    {A : Type 0} (xs : List A) (x : A) → get_elem? (xs ++ x ∷ []) (length xs) ≡ some x
get_elem?-snoc [] x = refl
get_elem?-snoc (y ∷ xs) x = get_elem?-snoc xs x

module _ (t : TreeOps) (pre : IsPreOrder t) (is_leaf : ℕ → Bool)
    (leaf_law : (i : ℕ) → i < t.size → 0 < t.depth i → is_leaf (t.parent i) ≡ false)
    (tracks_self : ℕ → Bool) (refresh : ℕ → Data → ℕ × Data) where
  -- The streams that leave a filter when the streams of the start are passed down the tree.
  pub data Flows (base : ℕ) : ℕ → Data → Type 0 where
    from_start : Flows base base (refresh base []).1
    from_parent :
        (i : ℕ) (input : Data)
        → is_child t base i ≡ true
        → Flows base (t.parent i) input
        → Flows base i (refresh i input).1

  -- What a filter below a start is to be called with.
  abbrev pub IsInput : ℕ → ℕ → Data → Type 0
  IsInput base f input =
      ((f ≡ base) × (input ≡ [])) ⊎ ((is_child t base f ≡ true) × Flows base (t.parent f) input)

  -- A filter of the subtree whose children may still follow at position `it`.
  pub record IsOpen (base it p : ℕ) : Type 0 where
    pub inside : (p ≡ base) ⊎ (is_child t base p ≡ true)
    pub earlier : p < it
    pub parent : is_leaf p ≡ false
    pub deeper : (x : ℕ) → p < x → x < it → t.depth p < t.depth x

  -- The stack has the empty streams at its bottom, and those of every open filter at its depth.
  pub record IsStack (base it : ℕ) (stack : List Data) : Type 0 where
    pub bottom : get_elem? stack 0 ≡ some []
    pub held :
        (p : ℕ)
        → IsOpen base it p
        → (d : Data) × (get_elem? stack (suc (t.depth p - t.depth base)) ≡ some d) × Flows base p d

  pub top_at :
      (n : ℕ) (stack : List Data) (d : Data)
      → get_elem? stack n ≡ some d
      → top (pop_pointer_stack (suc n) stack) ≡ some d
  top_at n stack d h =
      let long = get_elem?-length stack n d h in
      let size : length (take (suc n) stack) - 1 ≡ n =
        omega (arith, length-take (suc n) stack, long) in
      rw size (get_elem?-take (suc n) n stack (omega arith) ∙ h)

  below_depth : (base f : ℕ) → f < t.size → is_child t base f ≡ true → t.depth base < t.depth f
  below_depth base f h k =
      let below = (is_child_iff t pre base f h).0 k in below.1 f below.0 (omega arith)

  -- The parent of a filter below the start is open when the walk comes to the filter.
  parent-IsOpen : (base f : ℕ) → f < t.size → is_child t base f ≡ true → IsOpen base f (t.parent f)
  parent-IsOpen base f h k =
      let below = (is_child_iff t pre base f h).0 k in
      let depth = below_depth base f h k in
      let deep : 0 < t.depth f = omega (arith, depth) in
      let up = pre.depth_parent f h deep in
      let before = pre.parent_before f h deep in
      record {
        inside = elim (Bool-cases (t.parent f == base)) [
          | inl u ↦ inl (ground arith)
          | inr u ↦ elim (Bool-cases (ltb base (t.parent f))) [
            | inl v ↦ inr (
                (is_child_iff t pre base (t.parent f) (omega (arith, before, h))).1
                  (ltb→lt base (t.parent f) v, λ j l m. below.1 j l (omega (arith, m, before))))
            | inr v ↦
                let under : t.parent f < base = ground arith in
                absurd (omega (arith, pre.between f base h deep under below.0, depth))
          ]
        ];
        earlier = before;
        parent = leaf_law f h deep;
        deeper = λ x l m. omega (arith, up, pre.between f x h deep l m);
      }

  -- The stack has at the depth of a filter what the filter is to be called with.
  pub IsInput-at :
      (base f : ℕ) (stack : List Data)
      → f < t.size
      → (f ≡ base) ⊎ (is_child t base f ≡ true)
      → IsStack base f stack
      → (input : Data) × (get_elem? stack (t.depth f - t.depth base) ≡ some input)
        × IsInput base f input
  IsInput-at base f stack h c s = elim c [
    | inl u ↦
        let level : t.depth f - t.depth base ≡ 0 = rw u (omega arith) in
        ([], rw level s.bottom, inl (u, refl))
    | inr u ↦
        let depth = below_depth base f h u in
        let up = pre.depth_parent f h (omega (arith, depth)) in
        let (d, at, flows) = s.held (t.parent f) (parent-IsOpen base f h u) in
        let level : suc (t.depth (t.parent f) - t.depth base) ≡ t.depth f - t.depth base =
          omega (arith, depth, up) in
        (d, subst (λ n. get_elem? stack n ≡ some d) level at, inr (u, flows))
  ]

  Flows-on : (base f : ℕ) (input : Data) → IsInput base f input → Flows base f (refresh f input).1
  Flows-on base f input i = elim i [
    | inl (u, v) ↦ rw (u, v) from_start
    | inr (u, v) ↦ from_parent f input u v
  ]

  -- What was open stays on the stack when it is popped to the depth of a later filter.
  pub held_popped :
      (base f q : ℕ) (stack : List Data)
      → f < t.size
      → (f ≡ base) ⊎ (is_child t base f ≡ true)
      → IsStack base f stack
      → IsOpen base (suc f) q
      → q < f
      → (d : Data) × (get_elem?
            (pop_pointer_stack (suc (t.depth f - t.depth base)) stack)
            (suc (t.depth q - t.depth base))
          ≡ some d)
        × Flows base q d
  held_popped base f q stack h c s o l =
      let (d, at, flows) = s.held q (record {
        inside = o.inside;
        earlier = l;
        parent = o.parent;
        deeper = λ x k m. o.deeper x k (omega arith);
      }) in
      let lower = o.deeper f l (omega arith) in
      let low : t.depth base ≤ t.depth q = elim o.inside as (λ x. t.depth base ≤ t.depth q) [
        | inl u ↦ rw u (omega arith)
        | inr u ↦ omega (arith, below_depth base q (omega (arith, l, h)) u)
      ] in
      (
        d,
        get_elem?-take (suc (t.depth f - t.depth base)) (suc (t.depth q - t.depth base)) stack
              (omega (arith, lower, low))
            ∙ at,
        flows,
      )

  -- After a leaf.
  pub popped-IsStack :
      (base f : ℕ) (stack : List Data)
      → f < t.size
      → (f ≡ base) ⊎ (is_child t base f ≡ true)
      → IsStack base f stack
      → is_leaf f ≡ true
      → IsStack base (suc f) (pop_pointer_stack (suc (t.depth f - t.depth base)) stack)
  popped-IsStack base f stack h c s leaf = record {
    bottom = get_elem?-take (suc (t.depth f - t.depth base)) 0 stack (omega arith) ∙ s.bottom;
    held = λ q o. elim (Bool-cases (q == f)) [
      | inl u ↦
          let same : q ≡ f = ground arith in
          let inner = subst (λ x. is_leaf x ≡ false) same o.parent in absurd (cc (inner, leaf))
      | inr u ↦
          let earlier = o.earlier in held_popped base f q stack h c s o (ground (arith, earlier, u))
    ];
  }

  -- After a filter with children.
  pub pushed-IsStack :
      (base f : ℕ) (stack : List Data) (input : Data)
      → f < t.size
      → (f ≡ base) ⊎ (is_child t base f ≡ true)
      → IsStack base f stack
      → get_elem? stack (t.depth f - t.depth base) ≡ some input
      → IsInput base f input
      → IsStack base
          (suc f)
          (pop_pointer_stack (suc (t.depth f - t.depth base)) stack ++ (refresh f input).1 ∷ [])
  pushed-IsStack base f stack input h c s at is_input =
      let level = suc (t.depth f - t.depth base) in
      let popped = pop_pointer_stack level stack in
      let cur = (refresh f input).1 in
      let size : length popped ≡ level = omega (
        arith,
        length-take level stack,
        get_elem?-length stack (t.depth f - t.depth base) input at,
      ) in
      record {
        bottom =
            get_elem?-append popped (cur ∷ []) 0 []
              (get_elem?-take level 0 stack (omega arith) ∙ s.bottom);
        held = λ q o. elim (Bool-cases (q == f)) [
          | inl u ↦
              let same : q ≡ f = ground arith in
              rw same (
                cur,
                subst (λ n. get_elem? (popped ++ cur ∷ []) n ≡ some cur) size
                    (get_elem?-snoc popped cur),
                Flows-on base f input is_input,
              )
          | inr u ↦
              let earlier = o.earlier in
              let (d, place, flows) =
                held_popped base f q stack h c s o (ground (arith, earlier, u)) in
              (
                d,
                get_elem?-append popped (cur ∷ []) (suc (t.depth q - t.depth base)) d place,
                flows,
              )
        ];
      }
