-- ===== src/Tree/Paths/Named.antt =====
-- The path stack of `FilterTree::serialiseToStringPaths` (src/backend/filtertree.cpp) from filter to filter.
use depict_isosurfaces.Prelude.{
  ℕ, zero, suc, ◌+◌, ◌-◌, ◌<◌, ◌≡◌, refl, sym, ap, ◌∙◌, subst, true, false, some, List, [], ◌∷◌,
  ◌++◌, take, get_elem?, length, length-take, length-append, ◌==◌, arith, Bool-cases, inl, inr, ◌⊎◌,
}
use depict_isosurfaces.State.Stashes.{text_eq_refl}
use depict_isosurfaces.Tree.Order.{TreeOps, IsPreOrder}
use depict_isosurfaces.Tree.Refresh.{top}
use depict_isosurfaces.Tree.Flow.{
  get_elem?-length, get_elem?-take, get_elem?-append, get_elem?-snoc,
}
use depict_isosurfaces.Tree.Paths.{Text, has_path}

has_path-member :
    (paths : List Text) (i : ℕ) (s : Text) → get_elem? paths i ≡ some s → has_path paths s ≡ true
unfolding has_path
has_path-member [] i s h = absurd (cc)
has_path-member (p ∷ ps) zero s h = let same : p ≡ s = cc h in rw (same, text_eq_refl s)
has_path-member (p ∷ ps) (suc i) s h = ground (arith, has_path-member ps i s h)

-- An element of a list with one more at the end.
snoc_cases :
    (paths : List Text) (path s : Text) (i : ℕ)
    → get_elem? (paths ++ path ∷ []) i ≡ some s
    → (get_elem? paths i ≡ some s) ⊎ ((i ≡ length paths) × (path ≡ s))
snoc_cases [] path s zero h = inr (refl, cc h)
snoc_cases [] path s (suc i) h = absurd (cc)
snoc_cases (p ∷ ps) path s zero h = inl h
snoc_cases (p ∷ ps) path s (suc i) h = elim (snoc_cases ps path s i h) [
  | inl k ↦ inl k
  | inr (e, q) ↦ inr (ap suc e, q)
]

pub top-take :
    (n : ℕ) (stack : List Text) (s : Text)
    → get_elem? stack n ≡ some s
    → top (take (n + 1) stack) ≡ some s
top-take n stack s h =
    let long = get_elem?-length stack n s h in
    let size : length (take (n + 1) stack) - 1 ≡ n =
      omega (arith, length-take (n + 1) stack, long) in
    rw size (get_elem?-take (n + 1) n stack (omega arith) ∙ h)

module _ (t : TreeOps) (pre : IsPreOrder t) (type_string : ℕ → Text) where
  -- The path of a filter begins with that of its parent.
  abbrev pub Extends : List Text → ℕ → Type 0
  Extends paths i =
      (q : Text) × (tail : Text) × (get_elem? paths (t.parent i) ≡ some q)
      × (get_elem? paths i ≡ some (q ++ tail))

  abbrev pub AreApart : List Text → Type 0
  AreApart paths =
      (i j : ℕ) (s : Text) → get_elem? paths i ≡ some s → get_elem? paths j ≡ some s → i ≡ j

  -- Before the filter `it`.
  pub record IsNamed (it : ℕ) (stack paths : List Text) : Type 0 where
    pub count : length paths ≡ it
    pub bottom : get_elem? stack 0 ≡ some []
    pub held :
        (p : ℕ)
        → p < it
        → ((x : ℕ) → p < x → x < it → t.depth p < t.depth x)
        → (s : Text) × (get_elem? stack (suc (t.depth p)) ≡ some s) × (get_elem? paths p ≡ some s)
    pub apart : AreApart paths
    pub extends : (i : ℕ) → i < it → 0 < t.depth i → Extends paths i

  -- What is on top of the stack for the next filter: the path of its parent, if it has one.
  pub above :
      (it : ℕ) (stack paths : List Text)
      → it < t.size
      → IsNamed it stack paths
      → (s : Text) × (get_elem? stack (t.depth it) ≡ some s)
        × (0 < t.depth it → get_elem? paths (t.parent it) ≡ some s)
  above it stack paths lt named = elim (Bool-cases (t.depth it == 0)) [
    | inl u ↦
        let at : 0 ≡ t.depth it = ground arith in
        ([], subst (λ d. get_elem? stack d ≡ some []) at named.bottom, λ k. absurd (omega arith))
    | inr u ↦
        let deep : 0 < t.depth it = ground arith in
        let p = t.parent it in
        let level = pre.depth_parent it lt deep in
        let between = pre.between it in
        let (s, held, path) =
          named.held p (pre.parent_before it lt deep)
            (λ x a b. omega (arith, level, between x lt deep a b)) in
        (s, subst (λ d. get_elem? stack d ≡ some s) level held, λ k. path)
  ]

  next_apart :
      (paths : List Text) (path : Text)
      → AreApart paths
      → has_path paths path ≡ false
      → AreApart (paths ++ path ∷ [])
  next_apart paths path apart free i j s h k = elim (snoc_cases paths path s i h) [
    | inl a ↦ elim (snoc_cases paths path s j k) [
      | inl b ↦ apart i j s a b
      | inr (e, q) ↦ absurd (cc (taken i s a q))
    ]
    | inr (e, q) ↦ elim (snoc_cases paths path s j k) [
      | inl b ↦ absurd (cc (taken j s b q))
      | inr (f, r) ↦ e ∙ sym f
    ]
  ]
    where
      taken : (i : ℕ) (s : Text) → get_elem? paths i ≡ some s → path ≡ s → true ≡ false
      taken i s a q = cc (subst (λ p. has_path paths p ≡ false) q free, has_path-member paths i s a)

  next_held :
      (it : ℕ) (stack paths : List Text) (s path : Text)
      → IsNamed it stack paths
      → get_elem? stack (t.depth it) ≡ some s
      → (p : ℕ) → p < suc it
      → ((x : ℕ) → p < x → x < suc it → t.depth p < t.depth x)
      → (r : Text) × (get_elem? (take (t.depth it + 1) stack ++ path ∷ []) (suc (t.depth p))
          ≡ some r)
        × (get_elem? (paths ++ path ∷ []) p ≡ some r)
  next_held it stack paths s path named at p h open_p = elim (Bool-cases (p == it)) [
    | inl u ↦
        let same : it ≡ p = ground arith in
        let count = named.count in
        let popped = take (t.depth it + 1) stack in
        let long = get_elem?-length stack (t.depth it) s at in
        let size : length popped ≡ suc (t.depth it) =
          omega (arith, length-take (t.depth it + 1) stack, long) in
        subst
          (λ i.
            (r : Text) × (get_elem? (popped ++ path ∷ []) (suc (t.depth i)) ≡ some r)
            × (get_elem? (paths ++ path ∷ []) i ≡ some r))
          same
          (
            path,
            subst (λ d. get_elem? (popped ++ path ∷ []) d ≡ some path) size
                (get_elem?-snoc popped path),
            subst (λ d. get_elem? (paths ++ path ∷ []) d ≡ some path) count
                (get_elem?-snoc paths path),
          )
    | inr u ↦
        let before : p < it = ground arith in
        let lower = open_p it before (omega arith) in
        let (r, held, named_p) = named.held p before (λ x a b. open_p x a (omega arith)) in
        (
          r,
          get_elem?-append (take (t.depth it + 1) stack) (path ∷ []) (suc (t.depth p)) r (
              get_elem?-take (t.depth it + 1) (suc (t.depth p)) stack (omega (arith, lower))
              ∙ held),
          get_elem?-append paths (path ∷ []) p r named_p,
        )
  ]

  next-Extends :
      (it : ℕ) (paths : List Text) (s tail : Text)
      → it < t.size
      → length paths ≡ it
      → ((i : ℕ) → i < it → 0 < t.depth i → Extends paths i)
      → (0 < t.depth it → get_elem? paths (t.parent it) ≡ some s)
      → (i : ℕ) → i < suc it
      → 0 < t.depth i
      → Extends (paths ++ (s ++ tail) ∷ []) i
  next-Extends it paths s tail lt count extends up i h deep = elim (Bool-cases (i == it)) [
    | inl u ↦
        let same : i ≡ it = ground arith in
        let parent = up (subst (λ j. 0 < t.depth j) same deep) in
        subst (Extends (paths ++ (s ++ tail) ∷ [])) (sym same) (
          s,
          tail,
          get_elem?-append paths ((s ++ tail) ∷ []) (t.parent it) s parent,
          subst (λ d. get_elem? (paths ++ (s ++ tail) ∷ []) d ≡ some (s ++ tail)) count
              (get_elem?-snoc paths (s ++ tail)),
        )
    | inr u ↦
        let (q, r, parent, path) = extends i (ground arith) deep in
        (
          q,
          r,
          get_elem?-append paths ((s ++ tail) ∷ []) (t.parent i) q parent,
          get_elem?-append paths ((s ++ tail) ∷ []) i (q ++ r) path,
        )
  ]

  pub IsNamed-next :
      (it : ℕ) (stack paths : List Text) (s tail : Text)
      → it < t.size
      → IsNamed it stack paths
      → get_elem? stack (t.depth it) ≡ some s
      → (0 < t.depth it → get_elem? paths (t.parent it) ≡ some s)
      → has_path paths (s ++ tail) ≡ false
      → IsNamed
          (suc it)
          (take (t.depth it + 1) stack ++ (s ++ tail) ∷ [])
          (paths ++ (s ++ tail) ∷ [])
  IsNamed-next it stack paths s tail lt named at up free =
      let count = named.count in
      record {
        count = omega (arith, length-append paths ((s ++ tail) ∷ []), count);
        bottom =
            get_elem?-append (take (t.depth it + 1) stack) ((s ++ tail) ∷ []) 0 []
              (get_elem?-take (t.depth it + 1) 0 stack (omega arith) ∙ named.bottom);
        held = next_held it stack paths s (s ++ tail) named at;
        apart = next_apart paths (s ++ tail) named.apart free;
        extends = next-Extends it paths s tail lt count named.extends up;
      }
