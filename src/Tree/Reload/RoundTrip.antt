-- ===== src/Tree/Reload/RoundTrip.antt =====
-- A saved tree of filters read back: `FilterTree::saveXML` and `loadXML` of
-- src/backend/filtertree.cpp together.
use depict_isosurfaces.Prelude.{
  ℕ, ◌≡◌, refl, sym, ap, ap₂, ◌∙◌, subst, false, Option, none, some, List, [], ◌∷◌, ◌++◌,
  append_assoc, append-nil, arith, All, elem,
}
use depict_isosurfaces.Tree.Xml.{Tag, space, opens, closes, save_from}
use depict_isosurfaces.Tree.Load.{
  Node, Listing, TreeCalls, IsTree, Loader, node, keys, loader, add_item,
}
use depict_isosurfaces.Tree.Reload.Spaced.{tag_run}
use depict_isosurfaces.Tree.Reload.Open.{IsAt, newest-IsOpen}
use depict_isosurfaces.Tree.Reload.Steps.{tag_run-closes, tag_run_child}
use depict_isosurfaces.Tree.Reload.Roots.{tag_run_second, tag_run_later}
use depict_isosurfaces.Tree.Reload.Saved.{
  Root, IsBelow, IsBranch, branch, in_order, last_first, shape, shape-append, save_from-IsStep,
}

module _ {F X : Type 0} (calls : TreeCalls F) (laws : IsTree calls) (write_state : F → Option X)
    (read_state : X → Option F)
    (reads : (f : F) (x : X) → write_state f ≡ some x → read_state x ≡ some f) where
  -- The tags are read to the end, and the tree is `xs`.
  abbrev pub Gives : Loader F → List (Tag X) → List (ℕ × F) → Type 0
  Gives l ts xs = (t : Listing F) × (tag_run calls read_state l ts ≡ some (0, t)) × (shape t ≡ xs)

  Gives-shape :
      (l : Loader F) (ts : List (Tag X)) (xs ys : List (ℕ × F))
      → xs ≡ ys
      → Gives l ts xs
      → Gives l ts ys
  Gives-shape l ts xs ys e g = subst (Gives l ts) e g

  Gives-run :
      (l g : Loader F) (ts us : List (Tag X)) (xs : List (ℕ × F))
      → tag_run calls read_state l ts ≡ tag_run calls read_state g us
      → Gives g us xs
      → Gives l ts xs
  Gives-run l g ts us xs e (t, run, same) = (t, e ∙ run, same)

  run_end :
      (front cur back : Listing F) (l : Loader F) (d : ℕ) (ts : List (Tag X))
      → IsAt front cur back l d
      → save_from write_state d d [] ≡ some ts
      → Gives l ts (shape front ++ shape cur ++ shape back)
  unfolding save_from
  run_end front cur back l d ts at saved =
      let all : closes d (space ∷ []) ≡ ts = cc saved in
      let deep = at.deep in
      let (last, run) =
        tag_run-closes calls laws read_state d l (space ∷ []) (omega (arith, deep)) in
      (
        l.filters,
        subst (λ us. tag_run calls read_state l us ≡ some (0, l.filters)) all run,
        rw (at.filters_are, shape-append, shape-append),
      )

  grown-shape :
      (ns : Listing F) (m : Node F) (e : ℕ) (f : F) (xs ys : List (ℕ × F))
      → m.depth ≡ e
      → m.filter ≡ f
      → (shape (ns ++ m ∷ []) ++ xs) ++ ys ≡ (shape ns ++ (e, f) ∷ xs) ++ ys
  grown-shape ns m e f xs ys depth filter =
      let last : shape (m ∷ []) ≡ (e, f) ∷ [] = ap₂ (λ a b. (a, b) ∷ []) depth filter in
      let all = shape-append ns (m ∷ []) ∙ ap (λ zs. shape ns ++ zs) last in
      ap (λ zs. (zs ++ xs) ++ ys) all
      ∙ ap (λ zs. zs ++ ys) (append_assoc (shape ns) ((e, f) ∷ []) xs)

  -- From inside a root after the first.
  run_rest :
      (rest : List (Root F)) (xs : List (ℕ × F)) (front : Listing F) (n : Node F)
      (cs back : Listing F) (l : Loader F) (d : ℕ) (ts : List (Tag X))
      → IsAt front (n ∷ cs) back l d
      → l.last_top ≡ some n.key
      → elem n.key (keys front) ≡ false
      → n.depth ≡ 0
      → IsBelow d xs
      → All IsBranch rest
      → save_from write_state d d (xs ++ in_order rest) ≡ some ts
      → Gives l ts (shape front ++ last_first rest ((shape (n ∷ cs) ++ xs) ++ shape back))
  run_rest [] [] front n cs back l d ts at top first level below brs saved =
      let saved_end = run_end front (n ∷ cs) back l d ts at saved in
      Gives-shape l ts _ _
        (append_assoc (shape front) (shape (n ∷ cs)) (shape back)
          ∙ ap (λ zs. shape front ++ (zs ++ shape back)) (sym (append-nil (shape (n ∷ cs)))))
        saved_end
  run_rest (r ∷ rs) [] front n cs back l d ts at top first level below brs saved =
      let step = save_from-IsStep write_state d 0 r.0 (r.1 ++ in_order rs) ts saved in
      let (g, m, run, root) =
        tag_run_later calls laws read_state front back n cs l d step.written r.0 step.others at top
          first level (reads r.0 step.written step.writes) in
      let ih =
        run_rest rs r.1 front m [] ((n ∷ cs) ++ back) g 0 step.others root.at root.top root.fresh
          root.level brs.0 brs.1 step.saves in
      let back_shape =
        shape-append (n ∷ cs) back
        ∙ ap (λ zs. zs ++ shape back) (sym (append-nil (shape (n ∷ cs)))) in
      let branch_shape =
        grown-shape [] m 0 r.0 r.1 (shape ((n ∷ cs) ++ back)) root.level root.same
        ∙ ap (λ zs. branch r ++ zs) back_shape in
      Gives-run l g ts step.others _ (ap (tag_run calls read_state l) step.all ∙ run)
        (Gives-shape g step.others _ _ (ap (λ zs. shape front ++ last_first rs zs) branch_shape) ih)
  run_rest rest ((e, f) ∷ xs) front n cs back l d ts at top first level below brs saved =
      let step = save_from-IsStep write_state d e f (xs ++ in_order rest) ts saved in
      let (g, m, run, on, tops, depth, filter) =
        tag_run_child calls laws read_state front (n ∷ cs) back l d e step.written f step.others at
          below.1 below.0 (reads f step.written step.writes) in
      let ih =
        run_rest rest xs front n (cs ++ m ∷ []) back g e step.others on (tops ∙ top) first level
          below.2 brs step.saves in
      let all_shape =
        ap (λ zs. shape front ++ last_first rest zs)
          (grown-shape (n ∷ cs) m e f xs (shape back) depth filter) in
      Gives-run l g ts step.others _ (ap (tag_run calls read_state l) step.all ∙ run)
        (Gives-shape g step.others _ _ all_shape ih)

  -- From inside the first root.
  run_first :
      (rest : List (Root F)) (xs : List (ℕ × F)) (cur : Listing F) (l : Loader F) (d : ℕ)
      (ts : List (Tag X))
      → IsAt [] cur [] l d
      → l.last_top ≡ none
      → IsBelow d xs
      → All IsBranch rest
      → save_from write_state d d (xs ++ in_order rest) ≡ some ts
      → Gives l ts ((shape cur ++ xs) ++ last_first rest [])
  run_first [] [] cur l d ts at top below brs saved =
      Gives-shape l ts _ _ (ap (λ zs. zs ++ []) (sym (append-nil (shape cur))))
        (run_end [] cur [] l d ts at saved)
  run_first (r ∷ rs) [] cur l d ts at top below brs saved =
      let step = save_from-IsStep write_state d 0 r.0 (r.1 ++ in_order rs) ts saved in
      let (g, m, run, root) =
        tag_run_second calls laws read_state cur l d step.written r.0 step.others at top
          (reads r.0 step.written step.writes) in
      let ih =
        run_rest rs r.1 cur m [] [] g 0 step.others root.at root.top root.fresh root.level brs.0
          brs.1 step.saves in
      let all_shape =
        ap (λ zs. shape cur ++ last_first rs zs)
          (grown-shape [] m 0 r.0 r.1 [] root.level root.same)
        ∙ ap (λ zs. zs ++ last_first rs (branch r ++ [])) (sym (append-nil (shape cur))) in
      Gives-run l g ts step.others _ (ap (tag_run calls read_state l) step.all ∙ run)
        (Gives-shape g step.others _ _ all_shape ih)
  run_first rest ((e, f) ∷ xs) cur l d ts at top below brs saved =
      let step = save_from-IsStep write_state d e f (xs ++ in_order rest) ts saved in
      let (g, m, run, on, tops, depth, filter) =
        tag_run_child calls laws read_state [] cur [] l d e step.written f step.others at below.1
          below.0 (reads f step.written step.writes) in
      let ih =
        run_first rest xs (cur ++ m ∷ []) g e step.others on (tops ∙ top) below.2 brs step.saves in
      Gives-run l g ts step.others _ (ap (tag_run calls read_state l) step.all ∙ run) (
        Gives-shape g step.others _ _ (grown-shape cur m e f xs (last_first rest []) depth filter)
          ih)

  -- The first root goes into an empty tree.
  pub run_to_end :
      (first : Root F) (rest : List (Root F)) (ts : List (Tag X))
      → IsBranch first
      → All IsBranch rest
      → save_from write_state 0 0 (branch first ++ in_order rest) ≡ some ts
      → Gives (loader [] none none []) ts (branch first ++ last_first rest [])
  unfolding add_item opens closes
  run_to_end first rest ts br brs saved =
      let step = save_from-IsStep write_state 0 0 first.0 (first.1 ++ in_order rest) ts saved in
      let law = laws.insert_end [] first.0 in
      let out = calls.insert [] none first.0 in
      let m = node out.0 0 first.0 in
      let g = loader out.1 (some out.0) none [] in
      let at : IsAt [] (m ∷ []) [] g 0 = record {
        filters_are = law.1;
        path = (newest-IsOpen [] [] m refl, tt);
        deep = refl;
        ends = tt;
      } in
      let read = reads first.0 step.written step.writes in
      let ih = run_first rest first.1 (m ∷ []) g 0 step.others at refl br brs step.saves in
      Gives-run (loader [] none none []) g ts step.others _
        (ap (tag_run calls read_state (loader [] none none [])) step.all ∙ rw (read, tag_run) refl)
        ih
