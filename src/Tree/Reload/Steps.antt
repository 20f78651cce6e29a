-- ===== src/Tree/Reload/Steps.antt =====
-- One filter's tags, as `FilterTree::saveXML` writes them and `loadXML` reads them
-- (src/backend/filtertree.cpp).
use depict_isosurfaces.Prelude.{
  ℕ, zero, suc, ◌-◌, ◌≤◌, ◌<◌, ◌≡◌, refl, sym, ◌∙◌, subst, Option, some, List, [], ◌∷◌, ◌++◌,
  length, arith, drop, length-drop, ◌==◌, Bool-cases, inl, inr,
}
use depict_isosurfaces.Tree.Xml.{move, Tag, space, element, opens, closes}
use depict_isosurfaces.Tree.Load.{Node, Listing, TreeCalls, IsTree, Loader, node, loader}
use depict_isosurfaces.Tree.Reload.Spaced.{tag_run}
use depict_isosurfaces.Tree.Reload.Open.{AllOpen, IsAt, drop-AllOpen, open-is_empty, add_item-child}

module _ {F X : Type 0} (calls : TreeCalls F) (laws : IsTree calls)
    (read_state : X → Option F) where
  abbrev run_tags : Loader F → List (Tag X) → Option (ℕ × Listing F)
  run_tags l ts = tag_run calls read_state l ts

  -- Closing tags take filters off the stack.
  pub tag_run-closes :
      (k : ℕ) (l : Loader F) (ts : List (Tag X))
      → k ≤ length l.tree_node_stack
      → (last : Option ℕ) × (run_tags l (closes k ts)
          ≡ run_tags (loader l.filters last l.last_top (drop k l.tree_node_stack)) ts)
  unfolding closes
  tag_run-closes k l ts h = of_stack k l.last_filt l.tree_node_stack h
    where
      of_stack :
          (k : ℕ) (prev : Option ℕ) (stack : List (Option ℕ))
          → k ≤ length stack
          → (last : Option ℕ) × (run_tags (loader l.filters prev l.last_top stack) (closes k ts)
              ≡ run_tags (loader l.filters last l.last_top (drop k stack)) ts)
      of_stack zero prev stack h = (prev, refl)
      of_stack (suc k) prev [] h = absurd (omega arith)
      of_stack (suc k) prev (s ∷ ss) h = of_stack k s ss (omega arith)

  -- Tags that lead to a depth below some root leave its filters down to there on the stack.
  pub tag_run-move :
      (front cur back : Listing F) (l : Loader F) (d e : ℕ) (ts : List (Tag X))
      → IsAt front cur back l d
      → e ≤ suc d
      → (last : Option ℕ) × (stack : List (Option ℕ)) × (run_tags l (move d e ts)
          ≡ run_tags (loader l.filters last l.last_top stack) ts)
        × (length stack ≡ e)
        × AllOpen front cur stack
  unfolding opens closes
  tag_run-move front cur back l d e ts at h = elim (Bool-cases (e == suc d)) [
    | inl u ↦
        let up : e - d ≡ 1 = ground arith in
        let down : d - e ≡ 0 = ground arith in
        let some_filter =
          open-is_empty front cur back l.filters l.last_filt (length l.tree_node_stack)
            at.filters_are at.path.0 in
        (
          l.last_filt,
          l.last_filt ∷ l.tree_node_stack,
          rw (up, down) (rw some_filter),
          ground (arith, at.deep, u),
          at.path,
        )
    | inr u ↦
        let up : e - d ≡ 0 = ground arith in
        let below : e ≤ d = ground arith in
        let deep = at.deep in
        let (last, same) = tag_run-closes (d - e) l ts (omega arith) in
        (
          last,
          drop (d - e) l.tree_node_stack,
          subst
              (λ i.
                run_tags l (opens i (closes (d - e) ts))
                ≡ run_tags (loader l.filters last l.last_top (drop (d - e) l.tree_node_stack)) ts)
              (sym up) same,
          omega (arith, length-drop (d - e) l.tree_node_stack, deep, below),
          drop-AllOpen front cur (d - e) l.tree_node_stack at.path.1,
        )
  ]

  -- A filter that is not a root, with the tags before it.
  pub tag_run_child :
      (front cur back : Listing F) (l : Loader F) (d e : ℕ) (x : X) (f : F) (ts : List (Tag X))
      → IsAt front cur back l d
      → e ≤ suc d
      → 0 < e
      → read_state x ≡ some f
      → (g : Loader F) × (m : Node F) × (run_tags l (move d e (space ∷ element x ∷ ts))
          ≡ run_tags g ts)
        × IsAt front (cur ++ m ∷ []) back g e
        × (g.last_top ≡ l.last_top)
        × (m.depth ≡ e)
        × (m.filter ≡ f)
  tag_run_child front cur back l d e x f ts at h pos reads =
      let (last, stack, run, deep, path) =
        tag_run-move front cur back l d e (space ∷ element x ∷ ts) at h in
      from_stack last stack run deep path
    where
      from_stack :
          (last : Option ℕ) (stack : List (Option ℕ))
          → run_tags l (move d e (space ∷ element x ∷ ts))
            ≡ run_tags (loader l.filters last l.last_top stack) (space ∷ element x ∷ ts)
          → length stack ≡ e
          → AllOpen front cur stack
          → (g : Loader F) × (m : Node F) × (run_tags l (move d e (space ∷ element x ∷ ts))
              ≡ run_tags g ts)
            × IsAt front (cur ++ m ∷ []) back g e
            × (g.last_top ≡ l.last_top)
            × (m.depth ≡ e)
            × (m.filter ≡ f)
      from_stack last [] run deep path = absurd (omega arith)
      from_stack last (s ∷ ss) run deep path =
          let (same, on) =
            add_item-child calls laws front cur back l.filters last l.last_top s ss f at.filters_are
              path at.ends in
          let out = calls.append_child l.filters s f in
          let m = node out.0 (suc (length ss)) f in
          (
            loader out.1 (some m.key) l.last_top (s ∷ ss),
            m,
            run ∙ rw (reads, tag_run) (rw same),
            subst
                (λ i.
                  IsAt front (cur ++ m ∷ []) back (loader out.1 (some m.key) l.last_top (s ∷ ss)) i)
                deep on,
            refl,
            deep,
            refl,
          )
