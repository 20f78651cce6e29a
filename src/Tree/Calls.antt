-- ===== src/Tree/Calls.antt =====
-- The walk below one start of `refreshFilterTree` (src/backend/filtertree.cpp), and what it keeps true.
use depict_isosurfaces.Prelude.{
  ℕ, zero, suc, ◌+◌, ◌-◌, ◌≤◌, ◌<◌, ◌≡◌, refl, sym, subst, Bool, true, false, ◌||◌, List, [], ◌∷◌,
  ◌++◌, some, arith, ◌==◌, is_empty, All, elem, Bool-cases, inl, inr, ◌⊎◌,
}
use depict_isosurfaces.Tree.Order.{TreeOps, IsPreOrder, is_child}
use depict_isosurfaces.Tree.Collector.{collect_to_level}
use depict_isosurfaces.Tree.Refresh.{
  Data, Run, pop_pointer_stack, record_call, refresh_one, visit, refresh_below,
}
use depict_isosurfaces.Tree.Flow.{
  IsInput, IsStack, top_at, IsInput-at, popped-IsStack, pushed-IsStack,
}

All-snoc :
    {A : Type 0} (P : A → Type 0) (xs : List A) (x : A) → All P xs → P x → All P (xs ++ x ∷ [])
All-snoc P [] x h k = (k, tt)
All-snoc P (y ∷ ys) x h k = (h.0, All-snoc P ys x h.1 k)

-- The filters that were called.
abbrev pub callers : List (ℕ × Data) → List ℕ
callers [] = []
callers (c ∷ cs) = c.0 ∷ callers cs

callers-snoc :
    (x : ℕ) (cs : List (ℕ × Data)) (c : ℕ × Data)
    → elem x (callers (cs ++ c ∷ [])) ≡ (elem x (callers cs) || (x == c.0))
callers-snoc x [] c = ground arith
callers-snoc x (d ∷ cs) c = ground (arith, callers-snoc x cs c)

module _ (t : TreeOps) (pre : IsPreOrder t) (is_leaf : ℕ → Bool)
    (leaf_law : (i : ℕ) → i < t.size → 0 < t.depth i → is_leaf (t.parent i) ≡ false)
    (tracks_self : ℕ → Bool) (refresh : ℕ → Data → ℕ × Data) (bases : List ℕ) where
  -- A call of a filter at or below one of the starts, with the streams that flow to it from there.
  abbrev pub IsCall : ℕ × Data → Type 0
  IsCall c =
      (b : ℕ) × (elem b bases ≡ true) × IsInput t pre is_leaf leaf_law tracks_self refresh b c.0 c.1

  abbrev Stacked : ℕ → ℕ → List Data → Type 0
  Stacked base it stack = IsStack t pre is_leaf leaf_law tracks_self refresh base it stack

  abbrev pub Inside : ℕ → ℕ → Type 0
  Inside base f = (f ≡ base) ⊎ (is_child t base f ≡ true)

  -- Below a start, when the walk is at `it`; `old` are the filters that were called before.
  pub record IsGood (old : List ℕ) (base it : ℕ) (run : Run) : Type 0 where
    pub stacked : run.err_code ≡ 0 → Stacked base it run.in_data_stack
    pub called : All IsCall run.calls
    pub kept : (x : ℕ) → elem x old ≡ true → elem x (callers run.calls) ≡ true
    pub complete :
        run.err_code ≡ 0
        → (x : ℕ) → base ≤ x
        → x < it
        → Inside base x
        → elem x (callers run.calls) ≡ true

  record_call-calls :
      (f : ℕ) (input : Data) (run : Run)
      → (record_call t is_leaf tracks_self refresh f input run).calls ≡ run.calls ++ (f, input) ∷ []
  unfolding record_call
  record_call-calls f input run = elim (Bool-cases ((refresh f input).0 == 0)) [
    | inl u ↦ elim (Bool-cases (is_leaf f)) [
      | inl v ↦ elim (Bool-cases (is_empty (refresh f input).1)) [
        | inl w ↦ rw (u, v, w) refl
        | inr w ↦ rw (u, v, w) refl
      ]
      | inr v ↦ rw (u, v) refl
    ]
    | inr u ↦ rw u refl
  ]

  record_call-stack :
      (base f : ℕ) (input : Data) (run : Run)
      → (is_leaf f ≡ true → Stacked base (suc f) run.in_data_stack)
      → Stacked base (suc f) (run.in_data_stack ++ (refresh f input).1 ∷ [])
      → (record_call t is_leaf tracks_self refresh f input run).err_code ≡ 0
      → run.err_code ≡ 0
      → Stacked base (suc f) (record_call t is_leaf tracks_self refresh f input run).in_data_stack
  unfolding record_call
  record_call-stack base f input run leaf inner e z = elim (Bool-cases ((refresh f input).0 == 0)) [
    | inl u ↦ elim (Bool-cases (is_leaf f)) [
      | inl v ↦ elim (Bool-cases (is_empty (refresh f input).1)) [
        | inl w ↦ rw (u, v, w) (leaf v)
        | inr w ↦ rw (u, v, w) (leaf v)
      ]
      | inr v ↦ rw (u, v) inner
    ]
    | inr u ↦ let failed : (refresh f input).0 ≡ 0 = rw u at e in absurd (ground arith)
  ]

  refresh_one_lem :
      (old : List ℕ) (base f : ℕ) (run : Run)
      → f < t.size
      → elem base bases ≡ true
      → (f ≡ base) ⊎ (is_child t base f ≡ true)
      → IsGood old base f run
      → run.err_code ≡ 0
      → (r : Run) × (refresh_one t is_leaf tracks_self refresh base f run ≡ some r)
        × IsGood old base (suc f) r
  unfolding refresh_one
  refresh_one_lem old base f run h b c g z =
      let stack = run.in_data_stack in
      let s = g.stacked z in
      let (input, at, is_input) =
        IsInput-at t pre is_leaf leaf_law tracks_self refresh base f stack h c s in
      let rel = t.depth f - t.depth base in
      let popped : Run = record run {
        in_data_stack = pop_pointer_stack (suc rel) stack;
        collector = collect_to_level (suc rel) run.collector;
      } in
      let found = top_at t pre is_leaf leaf_law tracks_self refresh rel stack input at in
      let calls = record_call-calls f input popped in
      (
        record_call t is_leaf tracks_self refresh f input popped,
        rw (found, refresh_one) refl,
        record {
          stacked = λ e.
              record_call-stack base f input popped
                (λ leaf.
                  popped-IsStack t pre is_leaf leaf_law tracks_self refresh base f stack h c s leaf)
                (pushed-IsStack t pre is_leaf leaf_law tracks_self refresh base f stack input h c s
                  at is_input)
                e z;
          called =
              subst (All IsCall) (sym calls)
                (All-snoc IsCall run.calls (f, input) g.called (base, b, is_input));
          kept = λ x e. rw (calls, callers-snoc x run.calls (f, input)) (rw (g.kept x e) refl);
          complete = λ e x l m i.
              rw (calls, callers-snoc x run.calls (f, input))
                (elim (Bool-cases (x == f)) [
                  | inl u ↦ ground (arith, u)
                  | inr u ↦ rw (g.complete z x l (ground (arith, m, u)) i) refl
                ]);
        },
      )

  -- A filter outside the subtree is passed over.
  skipped-IsStack :
      (base f : ℕ) (stack : List Data)
      → ¬ ((f ≡ base) ⊎ (is_child t base f ≡ true))
      → Stacked base f stack
      → Stacked base (suc f) stack
  skipped-IsStack base f stack out s = record {
    bottom = s.bottom;
    held = λ q o. elim (Bool-cases (q == f)) [
      | inl u ↦
          let same : q ≡ f = ground arith in
          absurd (out (subst (λ x. (x ≡ base) ⊎ (is_child t base x ≡ true)) same o.inside))
      | inr u ↦
          let earlier = o.earlier in
          s.held q (record {
            inside = o.inside;
            earlier = ground (arith, earlier, u);
            parent = o.parent;
            deeper = λ x k m. o.deeper x k (omega arith);
          })
    ];
  }

  outside : (base f : ℕ) → ((f == base) || is_child t base f) ≡ false → ¬ Inside base f
  outside base f u c = elim c [ inl v ↦ ground arith | inr v ↦ ground arith ]

  visit_lem :
      (old : List ℕ) (base f : ℕ) (run : Run)
      → f < t.size
      → elem base bases ≡ true
      → IsGood old base f run
      → (r : Run) × (visit t is_leaf tracks_self refresh base f run ≡ some r)
        × IsGood old base (suc f) r
  unfolding visit
  visit_lem old base f run h b g = elim (Bool-cases (run.err_code == 0)) [
    | inl z ↦
        let fine : run.err_code ≡ 0 = ground arith in
        elim (Bool-cases ((f == base) || is_child t base f)) [
          | inl u ↦
              let c : (f ≡ base) ⊎ (is_child t base f ≡ true) = elim (Bool-cases (f == base)) [
                | inl v ↦ inl (ground arith)
                | inr v ↦ inr (ground arith)
              ] in
              let (r, e, good) = refresh_one_lem old base f run h b c g fine in
              (r, rw (z, u) e, good)
          | inr u ↦ (
            run,
            rw (z, u) refl,
            record {
              stacked =
                  λ e. skipped-IsStack base f run.in_data_stack (outside base f u) (g.stacked e);
              called = g.called;
              kept = g.kept;
              complete = λ e x l m i. elim (Bool-cases (x == f)) [
                | inl v ↦
                    let same : x ≡ f = ground arith in
                    absurd (outside base f u (subst (Inside base) same i))
                | inr v ↦ g.complete e x l (ground (arith, m, v)) i
              ];
            },
          )
        ]
    | inr z ↦ (
      run,
      rw z refl,
      record {
        stacked = λ e. absurd (ground arith);
        called = g.called;
        kept = g.kept;
        complete = λ e. absurd (ground arith);
      },
    )
  ]

  pub refresh_below_lem :
      (old : List ℕ) (base n f : ℕ) (run : Run)
      → f + n ≤ t.size
      → elem base bases ≡ true
      → IsGood old base f run
      → (r : Run) × (refresh_below t is_leaf tracks_self refresh base n f run ≡ some r)
        × IsGood old base (f + n) r
  unfolding refresh_below
  refresh_below_lem old base zero f run h b g =
      (run, refl, subst (λ x. IsGood old base x run) (omega arith) g)
  refresh_below_lem old base (suc n) f run h b g =
      let (next, e, good) = visit_lem old base f run (omega arith) b g in
      let (r, k, done) = refresh_below_lem old base n (suc f) next (omega (arith, h)) b good in
      (r, rw (e, refresh_below) k, subst (λ x. IsGood old base x r) (omega arith) done)
