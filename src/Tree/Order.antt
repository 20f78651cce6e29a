-- ===== src/Tree/Order.antt =====
-- The tree of filters as src/backend/filtertree.cpp walks it: `FilterTree::isChild`, and the loop
-- over a filter and what is below it. A pre-order iterator is its position in the pre-order.
use depict_isosurfaces.Prelude.{
  ℕ, zero, suc, ◌+◌, ◌-◌, ◌≤◌, ◌<◌, ◌≡◌, refl, subst, Bool, true, false, not, ◌&&◌, ◌||◌, List, [],
  ◌∷◌, arith, ◌==◌, leb, leb→le, ltb, ltb→lt, if◌then◌else◌, elem, Bool-cases, inl, inr, ◌⊎◌, ◌↔◌,
}

-- What the code calls of tree.hh: the number of nodes, `depth(it)` and `parent(it)`.
pub record TreeOps : Type 0 where
  pub size : ℕ
  pub depth : ℕ → ℕ
  pub parent : ℕ → ℕ

-- What a pre-order is: a parent is the last node before its child that is not as deep, and is one
-- level above it.
pub record IsPreOrder (t : TreeOps) : Type 0 where
  pub parent_before : (i : ℕ) → i < t.size → 0 < t.depth i → t.parent i < i
  pub depth_parent : (i : ℕ) → i < t.size → 0 < t.depth i → suc (t.depth (t.parent i)) ≡ t.depth i
  pub between :
      (i j : ℕ) → i < t.size → 0 < t.depth i → t.parent i < j → j < i → t.depth i ≤ t.depth j

-- `while(depth(child)) { child = parent(child); if(child == test_parent) return true; }`
unfoldable pub climb : TreeOps → ℕ → ℕ → ℕ → Bool
climb t test_parent zero child = false
climb t test_parent (suc n) child =
    let above = climb t test_parent n (t.parent child) in
    if t.depth child == 0 then false else (t.parent child == test_parent) || above

-- The depth is the number of rounds.
unfoldable pub is_child : TreeOps → ℕ → ℕ → Bool
unfolding climb
is_child t test_parent child = climb t test_parent (t.depth child) child

-- `for(it = f; it != end(); ++it) { if(depth(f) >= depth(it) && it != f) break; ... }`: where it goes.
unfoldable pub walk : TreeOps → ℕ → ℕ → ℕ → List ℕ
walk t f zero it = []
walk t f (suc n) it =
    let rest = walk t f n (suc it) in
    if leb (t.depth it) (t.depth f) && not (it == f) then [] else it ∷ rest

unfoldable pub subtree : TreeOps → ℕ → List ℕ
unfolding walk
subtree t f = walk t f (t.size - f) f

module _ (t : TreeOps) where
  -- Between the two positions every node is deeper than the first.
  abbrev pub IsBelow : ℕ → ℕ → Type 0
  IsBelow p c = (p < c) × ((j : ℕ) → p < j → j ≤ c → t.depth p < t.depth j)

  below_step :
      (p c j : ℕ)
      → t.parent c ≡ p
      → suc (t.depth (t.parent c)) ≡ t.depth c
      → (j < c → t.depth c ≤ t.depth j)
      → j ≤ c
      → t.depth p < t.depth j
  below_step p c j same up gap m = elim (Bool-cases (j == c)) [
    | inl u ↦
        let same_j : j ≡ c = ground arith in
        rw same_j (subst (λ x. t.depth x < t.depth c) same (omega (arith, up)))
    | inr u ↦
        let before : j < c = ground arith in
        subst (λ x. t.depth x < t.depth j) same (omega (arith, up, gap before))
  ]

  climb_sound : (pre : IsPreOrder t) (p n c : ℕ) → c < t.size → climb t p n c ≡ true → IsBelow p c
  unfolding climb
  climb_sound pre p zero c h k = absurd (cc)
  climb_sound pre p (suc n) c h k = elim (Bool-cases (t.depth c == 0)) [
    | inl e ↦ absurd (cc (rw e at k))
    | inr e ↦
        let deep : 0 < t.depth c = ground arith in
        let lt = pre.parent_before c h deep in
        let up = pre.depth_parent c h deep in
        let gap = pre.between c in
        elim (Bool-cases (t.parent c == p)) [
          | inl q ↦
              let same : t.parent c ≡ p = ground arith in
              (
                subst (λ x. x < c) same lt,
                λ j l m. below_step p c j same up (λ g. gap j h deep (omega (arith, same, l)) g) m,
              )
          | inr q ↦
              let rest = climb_sound pre p n (t.parent c) (omega (arith, lt, h)) (rw (e, q) at k) in
              (
                omega (arith, rest.0, lt),
                λ j l m. elim (Bool-cases (leb j (t.parent c))) [
                  | inl u ↦ rest.1 j l (leb→le j (t.parent c) u)
                  | inr u ↦
                      let past : t.parent c < j = ground arith in
                      let deeper =
                        below_step (t.parent c) c j refl up (λ g. gap j h deep past g) m in
                      omega (arith, deeper, rest.1 (t.parent c) rest.0 (omega arith))
                ],
              )
        ]
  ]

  climb_complete :
      (pre : IsPreOrder t) (p n c : ℕ)
      → c < t.size
      → t.depth c ≤ n
      → IsBelow p c
      → climb t p n c ≡ true
  unfolding climb
  climb_complete pre p zero c h d b = absurd (omega (arith, d, b.1 c b.0))
  climb_complete pre p (suc n) c h d b =
      let deep : 0 < t.depth c = omega (arith, b.1 c b.0) in
      let lt = pre.parent_before c h deep in
      let up = pre.depth_parent c h deep in
      elim (Bool-cases (ltb p (t.parent c))) [
        | inl e ↦
            let above =
              climb_complete pre p n (t.parent c) (omega (arith, lt, h)) (omega (arith, up, d))
                (ltb→lt p (t.parent c) e, λ j l m. b.1 j l (omega (arith, m, lt))) in
            ground arith
        | inr e ↦ elim (Bool-cases (t.parent c == p)) [
          | inl q ↦ ground arith
          | inr q ↦
              let under : t.parent c < p = ground arith in
              absurd (omega (arith, pre.between c p h deep under b.0, b.1 c b.0))
        ]
      ]

  -- In a tree in pre-order `isChild(parent, child)` holds exactly if the child comes after the parent
  -- and every node from there up to the child is deeper than the parent.
  pub is_child_iff :
      (pre : IsPreOrder t) (p c : ℕ) → c < t.size → (is_child t p c ≡ true) ↔ IsBelow p c
  unfolding is_child
  is_child_iff pre p c h =
      (climb_sound pre p (t.depth c) c h, climb_complete pre p (t.depth c) c h (omega arith))

  -- Every node after `f` and before `it` is deeper than `f`.
  abbrev Deeper : ℕ → ℕ → Type 0
  Deeper f it = (i : ℕ) → f < i → i < it → t.depth f < t.depth i

  Deeper-suc : (f it : ℕ) → Deeper f it → (f < it → t.depth f < t.depth it) → Deeper f (suc it)
  Deeper-suc f it g k i l m = elim (Bool-cases (i == it)) [
    | inl u ↦ let same : i ≡ it = ground arith in rw same (k (subst (λ x. f < x) same l))
    | inr u ↦ g i l (ground arith)
  ]

  walk_sound :
      (f n it j : ℕ)
      → f ≤ it
      → Deeper f it
      → elem j (walk t f n it) ≡ true
      → (it ≤ j) × (j < it + n) × Deeper f (suc j)
  unfolding walk
  walk_sound f zero it j h g k = absurd (cc)
  walk_sound f (suc n) it j h g k =
      elim (Bool-cases (leb (t.depth it) (t.depth f) && not (it == f))) [
        | inl e ↦ absurd (cc (rw e at k))
        | inr e ↦
            let deeper = Deeper-suc f it g (λ l. ground arith) in
            elim (Bool-cases (j == it)) [
              | inl u ↦
                  let same : j ≡ it = ground arith in rw same (omega arith, omega arith, deeper)
              | inr u ↦
                  let rest = walk_sound f n (suc it) j (omega (arith, h)) deeper (rw (e, u) at k) in
                  (omega (arith, rest.0), omega (arith, rest.1), rest.2)
            ]
      ]

  walk_complete :
      (f n it j : ℕ)
      → f ≤ it
      → it ≤ j
      → j < it + n
      → Deeper f (suc j)
      → elem j (walk t f n it) ≡ true
  unfolding walk
  walk_complete f zero it j h l m g = absurd (omega arith)
  walk_complete f (suc n) it j h l m g =
      elim (Bool-cases (leb (t.depth it) (t.depth f) && not (it == f))) [
        | inl e ↦
            let past : f < it = ground arith in
            let deeper = g it past (omega (arith, l)) in absurd (ground arith)
        | inr e ↦ elim (Bool-cases (j == it)) [
          | inl u ↦ ground arith
          | inr u ↦
              let rest =
                walk_complete f n (suc it) j (omega (arith, h)) (ground arith) (omega (arith, m))
                  g in
              rw e (ground arith)
        ]
      ]

  -- In a tree in pre-order the loop that breaks at the first node that is not below a filter passes
  -- over the filter and its children, at any depth, and over nothing else.
  pub subtree_iff :
      (pre : IsPreOrder t) (f j : ℕ)
      → f < t.size
      → j < t.size
      → (elem j (subtree t f) ≡ true) ↔ ((j ≡ f) ⊎ (is_child t f j ≡ true))
  unfolding subtree
  subtree_iff pre f j h k =
      let child = is_child_iff pre f j k in
      (
        (λ e.
            let w = walk_sound f (t.size - f) f j (omega arith) (λ i l m. absurd (omega arith)) e in
            elim (Bool-cases (j == f)) [
              | inl u ↦ inl (ground arith)
              | inr u ↦ inr (child.1 (ground (arith, w.0), λ i l m. w.2 i l (omega arith)))
            ]),
        (λ c. elim c [
          | inl u ↦ rw u (
              walk_complete f (t.size - f) f f (omega arith) (omega arith) (omega arith)
                (λ i l m. absurd (omega arith)))
          | inr b ↦
              let below = child.0 b in
              walk_complete f (t.size - f) f j (omega arith) (omega (arith, below.0)) (omega arith)
                (λ i l m. below.1 i l (omega arith))
        ]),
      )
