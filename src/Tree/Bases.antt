-- ===== src/Tree/Bases.antt =====
-- `refreshFilterTree` (src/backend/filtertree.cpp) as a whole, over all of its starts.
use depict_isosurfaces.Prelude.{
  ℕ, ◌-◌, ◌≤◌, ◌<◌, ◌≡◌, refl, ap, sym, subst, ◌∙◌, Bool, true, false, List, [], ◌∷◌, some, arith,
  ◌==◌, get_elem?, All, elem, Bool-cases, inl, inr,
}
use depict_isosurfaces.Tree.Order.{TreeOps, IsPreOrder, is_child_iff}
use depict_isosurfaces.Tree.Collector.{track_pointers, collect_all}
use depict_isosurfaces.Tree.Refresh.{
  Data, Run, refresh_below, refresh_bases, finish, initial, refresh_filter_tree,
}
use depict_isosurfaces.Tree.Calls.{callers, IsCall, Inside, IsGood, refresh_below_lem}

module _ (t : TreeOps) (pre : IsPreOrder t) (is_leaf : ℕ → Bool)
    (leaf_law : (i : ℕ) → i < t.size → 0 < t.depth i → is_leaf (t.parent i) ≡ false)
    (tracks_self : ℕ → Bool) (refresh : ℕ → Data → ℕ × Data) (bases : List ℕ) where
  refresh_bases-failed :
      (bs : List ℕ) (run : Run)
      → (run.err_code == 0) ≡ false
      → refresh_bases t is_leaf tracks_self refresh bs run ≡ some run
  unfolding refresh_bases
  refresh_bases-failed [] run e = refl
  refresh_bases-failed (b ∷ bs) run e = rw (e, refresh_bases) (refresh_bases-failed bs run e)

  -- Every filter at or below one of the starts was called.
  abbrev pub Covers : List ℕ → Run → Type 0
  Covers bs run =
      (b x : ℕ)
      → elem b bs ≡ true
      → x < t.size
      → Inside t pre is_leaf leaf_law tracks_self refresh bases b x
      → elem x (callers run.calls) ≡ true

  -- Between two starts.
  record IsBetween (run : Run) : Type 0 where
    pub bottom : run.err_code ≡ 0 → get_elem? run.in_data_stack 0 ≡ some []
    pub called : All (IsCall t pre is_leaf leaf_law tracks_self refresh bases) run.calls

  Inside-le :
      (b x : ℕ) → x < t.size → Inside t pre is_leaf leaf_law tracks_self refresh bases b x → b ≤ x
  Inside-le b x h i = elim i [
    | inl u ↦ omega (arith, u)
    | inr u ↦ omega (arith, ((is_child_iff t pre b x h).0 u).0)
  ]

  start-IsGood :
      (base : ℕ) (run : Run)
      → base < t.size
      → IsBetween run
      → IsGood t pre is_leaf leaf_law tracks_self refresh bases (callers run.calls) base base run
  start-IsGood base run h w = record {
    stacked = λ e. record {
      bottom = w.bottom e;
      held = λ q o.
          let early = o.earlier in
          absurd (omega (arith, early, Inside-le base q (omega (arith, early, h)) o.inside));
    };
    called = w.called;
    kept = λ x e. e;
    complete = λ e x l m i. absurd (omega arith);
  }

  base_lem :
      (base : ℕ) (run : Run)
      → base < t.size
      → elem base bases ≡ true
      → IsBetween run
      → (r : Run) × (refresh_below t is_leaf tracks_self refresh base (t.size - base) base run
          ≡ some r)
        × IsBetween r
        × ((x : ℕ) → elem x (callers run.calls) ≡ true → elem x (callers r.calls) ≡ true)
        × (r.err_code ≡ 0
            → (x : ℕ) → x < t.size
            → Inside t pre is_leaf leaf_law tracks_self refresh bases base x
            → elem x (callers r.calls) ≡ true)
  base_lem base run h b w =
      let (r, e, g) =
        refresh_below_lem t pre is_leaf leaf_law tracks_self refresh bases (callers run.calls) base
          (t.size - base) base run (omega arith) b (start-IsGood base run h w) in
      (
        r,
        e,
        record { bottom = λ z. (g.stacked z).bottom; called = g.called },
        g.kept,
        λ z x l i. g.complete z x (Inside-le base x l i) (omega arith) i,
      )

  bases_lem :
      (bs : List ℕ) (run : Run)
      → All (λ b. (elem b bases ≡ true) × (b < t.size)) bs
      → IsBetween run
      → (r : Run) × (refresh_bases t is_leaf tracks_self refresh bs run ≡ some r)
        × All (IsCall t pre is_leaf leaf_law tracks_self refresh bases) r.calls
        × ((x : ℕ) → elem x (callers run.calls) ≡ true → elem x (callers r.calls) ≡ true)
        × (r.err_code ≡ 0 → Covers bs r)
  unfolding refresh_bases
  bases_lem [] run h w = (run, refl, w.called, (λ x e. e), λ z b x e. absurd (cc))
  bases_lem (base ∷ bs) run h w = elim (Bool-cases (run.err_code == 0)) [
    | inl z ↦
        let ready : Run = record run {
          collector = track_pointers tracks_self [] (collect_all run.collector);
        } in
        let (next, e, between, kept, all) =
          base_lem base ready h.0.1 h.0.0 (record { bottom = w.bottom; called = w.called }) in
        let (r, k, called, later, covers) = bases_lem bs next h.1 between in
        (
          r,
          rw (z, e, refresh_bases) k,
          called,
          (λ x c. later x (kept x c)),
          λ done b x c l i. elim (Bool-cases (next.err_code == 0)) [
            | inl fine ↦ elim (Bool-cases (b == base)) [
              | inl u ↦
                  let same : b ≡ base = ground arith in
                  later x (
                    all (ground arith) x l (
                      subst (λ y. Inside t pre is_leaf leaf_law tracks_self refresh bases y x) same
                        i))
              | inr u ↦ covers done b x (ground arith) l i
            ]
            | inr failed ↦
                let stopped : some next ≡ some r = sym (refresh_bases-failed bs next failed) ∙ k in
                let same : next ≡ r = cc stopped in
                let code : next.err_code ≡ 0 = ap (λ y. y.err_code) same ∙ done in
                absurd (ground arith)
          ],
        )
    | inr z ↦ (
      run,
      rw (z, refresh_bases) (refresh_bases-failed bs run z),
      w.called,
      (λ x e. e),
      λ done. absurd (ground arith),
    )
  ]

  bases_in :
      (bs : List ℕ)
      → ((b : ℕ) → elem b bs ≡ true → (elem b bases ≡ true) × (b < t.size))
      → All (λ b. (elem b bases ≡ true) × (b < t.size)) bs
  bases_in [] h = tt
  bases_in (b ∷ bs) h = (h b (ground arith), bases_in bs (λ c e. h c (ground arith)))

  -- A refresh from starts in the tree never asks for the top of an empty stack. Each call of a filter is
  -- of one at or below a start, with no streams at the start and below it with those that flow down to
  -- its parent from there; and unless a filter reports an error, each filter at or below a start is
  -- called.
  pub refresh_filter_tree_lem :
      ((b : ℕ) → elem b bases ≡ true → b < t.size)
      → (r : Run) × (refresh_filter_tree t is_leaf tracks_self refresh bases ≡ some r)
        × All (IsCall t pre is_leaf leaf_law tracks_self refresh bases) r.calls
        × (r.err_code ≡ 0 → Covers bases r)
  unfolding refresh_filter_tree finish
  refresh_filter_tree_lem h =
      let (r, e, called, _, covers) =
        bases_lem bases (initial t is_leaf tracks_self refresh) (bases_in bases (λ b k. (k, h b k)))
          (record { bottom = λ z. refl; called = tt }) in
      elim (Bool-cases (r.err_code == 0)) [
        | inl u ↦ (
          finish t is_leaf tracks_self refresh r,
          rw (e, refresh_filter_tree) refl,
          rw u called,
          rw u covers,
        )
        | inr u ↦ (r, rw (e, u, refresh_filter_tree) refl, called, covers)
      ]
