-- ===== src/Tree/Reload/Roots.antt =====
-- A root's tags, as `FilterTree::saveXML` writes them and `loadXML` reads them
-- (src/backend/filtertree.cpp).
use depict_isosurfaces.Prelude.{
  ℕ, ◌≡◌, refl, sym, ap, ◌∙◌, subst, false, Option, none, some, List, [], ◌∷◌, ◌++◌, append_assoc,
  append-nil, is_empty, length, arith, elem,
}
use depict_isosurfaces.Tree.Xml.{move, Tag, space, element}
use depict_isosurfaces.Tree.Load.{
  Node, Listing, TreeCalls, IsTree, Loader, Ends, node, keys, loader, add_item,
}
use depict_isosurfaces.Tree.Reload.Spaced.{tag_run}
use depict_isosurfaces.Tree.Reload.Open.{IsAt, elem-keys, open-is_empty, newest-IsOpen}
use depict_isosurfaces.Tree.Reload.Steps.{tag_run-move}

module _ {F X : Type 0} (calls : TreeCalls F) (laws : IsTree calls)
    (read_state : X → Option F) where
  abbrev run_tags : Loader F → List (Tag X) → Option (ℕ × Listing F)
  run_tags l ts = tag_run calls read_state l ts

  -- The new root of the filter `f` stands alone between `front` and `back`.
  pub record IsRoot (front back : Listing F) (g : Loader F) (m : Node F) (f : F) : Type 0 where
    pub at : IsAt front (m ∷ []) back g 0
    pub top : g.last_top ≡ some m.key
    pub fresh : elem m.key (keys front) ≡ false
    pub level : m.depth ≡ 0
    pub same : m.filter ≡ f

  -- What `insert(lastTop, f)` is to do to the tree.
  abbrev Inserts : Listing F → Listing F → Loader F → F → Type 0
  Inserts front back l f =
      let out = calls.insert l.filters l.last_top f in
      (elem out.0 (keys front) ≡ false) × (out.1 ≡ front ++ (node out.0 0 f ∷ []) ++ back)

  tag_run_inserted :
      (front cur back front_to back_to : Listing F) (l : Loader F) (d : ℕ) (x : X) (f : F)
      (ts : List (Tag X))
      → IsAt front cur back l d
      → Inserts front_to back_to l f
      → Ends 0 back_to
      → read_state x ≡ some f
      → (g : Loader F) × (m : Node F) × (run_tags l (move d 0 (space ∷ element x ∷ ts))
          ≡ run_tags g ts)
        × IsRoot front_to back_to g m f
  unfolding add_item
  tag_run_inserted front cur back front_to back_to l d x f ts at ins ends reads =
      let (last, stack, run, deep, path) =
        tag_run-move calls laws read_state front cur back l d 0 (space ∷ element x ∷ ts) at
          (omega arith) in
      from_stack last stack run deep
    where
      some_filter : is_empty l.filters ≡ false
      some_filter =
          open-is_empty front cur back l.filters l.last_filt (length l.tree_node_stack)
            at.filters_are at.path.0

      from_stack :
          (last : Option ℕ) (stack : List (Option ℕ))
          → run_tags l (move d 0 (space ∷ element x ∷ ts))
            ≡ run_tags (loader l.filters last l.last_top stack) (space ∷ element x ∷ ts)
          → length stack ≡ 0
          → (g : Loader F) × (m : Node F) × (run_tags l (move d 0 (space ∷ element x ∷ ts))
              ≡ run_tags g ts)
            × IsRoot front_to back_to g m f
      from_stack last (s ∷ ss) run deep = absurd (omega arith)
      from_stack last [] run deep =
          let out = calls.insert l.filters l.last_top f in
          let m = node out.0 0 f in
          (
            loader out.1 (some m.key) (some m.key) [],
            m,
            run ∙ rw (reads, tag_run) (rw some_filter),
            record {
              at = record {
                filters_are = ins.1;
                path = (newest-IsOpen front_to [] m (rw append-nil ins.0), tt);
                deep = refl;
                ends = ends;
              };
              top = refl;
              fresh = ins.0;
              level = refl;
              same = refl;
            },
          )

  -- The second root goes after everything, since `lastTop` is still the end of the empty tree.
  pub tag_run_second :
      (cur : Listing F) (l : Loader F) (d : ℕ) (x : X) (f : F) (ts : List (Tag X))
      → IsAt [] cur [] l d
      → l.last_top ≡ none
      → read_state x ≡ some f
      → (g : Loader F) × (m : Node F) × (run_tags l (move d 0 (space ∷ element x ∷ ts))
          ≡ run_tags g ts)
        × IsRoot cur [] g m f
  tag_run_second cur l d x f ts at top reads =
      let whole : l.filters ≡ cur = at.filters_are ∙ append-nil cur in
      let law = laws.insert_end l.filters f in
      let out = calls.insert l.filters none f in
      let ins : Inserts cur [] l f = rw top (
        subst (λ ns. elem out.0 (keys ns) ≡ false) whole law.0,
        law.1
            ∙ ap (λ ns. ns ++ node out.0 0 f ∷ []) whole
            ∙ sym (append-nil (cur ++ node out.0 0 f ∷ [])),
      ) in
      tag_run_inserted [] cur [] cur [] l d x f ts at ins tt reads

  -- Every later root goes before the one before it.
  pub tag_run_later :
      (front back : Listing F) (n : Node F) (cs : Listing F) (l : Loader F) (d : ℕ) (x : X) (f : F)
      (ts : List (Tag X))
      → IsAt front (n ∷ cs) back l d
      → l.last_top ≡ some n.key
      → elem n.key (keys front) ≡ false
      → n.depth ≡ 0
      → read_state x ≡ some f
      → (g : Loader F) × (m : Node F) × (run_tags l (move d 0 (space ∷ element x ∷ ts))
          ≡ run_tags g ts)
        × IsRoot front ((n ∷ cs) ++ back) g m f
  tag_run_later front back n cs l d x f ts at top first level reads =
      let whole : l.filters ≡ front ++ n ∷ (cs ++ back) =
        at.filters_are ∙ append_assoc front (n ∷ cs) back in
      let law = laws.insert_before front n (cs ++ back) f first level in
      let at_top = rw (sym whole, sym top) at law in
      let out = calls.insert l.filters l.last_top f in
      let ins : Inserts front ((n ∷ cs) ++ back) l f = (
        elem-keys out.0 front (n ∷ (cs ++ back))
            (subst (λ ns. elem out.0 (keys ns) ≡ false) whole at_top.0),
        at_top.1 ∙ sym (append_assoc front (node out.0 0 f ∷ []) ((n ∷ cs) ++ back)),
      ) in
      tag_run_inserted front (n ∷ cs) back front ((n ∷ cs) ++ back) l d x f ts at ins
        (omega (arith, level)) reads
