-- ===== src/Tree/Reload/Whole.antt =====
-- `FilterTree::saveXML` and `loadXML` (src/backend/filtertree.cpp) on whole trees.
use depict_isosurfaces.Prelude.{
  ℕ, suc, ◌+◌, ◌≤◌, ◌≡◌, sym, ◌∙◌, subst, true, Option, none, some, List, [], ◌∷◌, ◌++◌, arith, All,
  length,
}
use depict_isosurfaces.Tree.Xml.{Xml, Tag, text, weight, tags, save_xml}
use depict_isosurfaces.Tree.Load.{Listing, TreeCalls, IsTree, loader, load_xml}
use depict_isosurfaces.Tree.Reload.Spaced.{starts_space, spaced, load_loop-tag_run}
use depict_isosurfaces.Tree.Reload.Saved.{
  Root, IsBranch, branch, in_order, last_first, shape, save_from-IsSpaced,
}
use depict_isosurfaces.Tree.Reload.RoundTrip.{Gives, run_to_end}

module _ {F X : Type 0} (calls : TreeCalls F) (laws : IsTree calls) (write_state : F → Option X)
    (read_state : X → Option F)
    (reads : (f : F) (x : X) → write_state f ≡ some x → read_state x ≡ some f) where
  load_xml-tags :
      (x : Xml X) (ts : List (Tag X)) (xs : List (ℕ × F))
      → tags x ≡ ts
      → starts_space ts ≡ true
      → spaced ts ≡ true
      → Gives calls laws write_state read_state reads (loader [] none none []) ts xs
      → (t : Listing F) × (load_xml calls read_state x ≡ some (0, t)) × (shape t ≡ xs)
  unfolding load_xml
  load_xml-tags x ts xs same starts sp gives =
      of_tags x (subst (λ us. starts_space us ≡ true) (sym same) starts)
        (subst (λ us. spaced us ≡ true) (sym same) sp)
        (subst (λ us. Gives calls laws write_state read_state reads (loader [] none none []) us xs)
          (sym same) gives)
    where
      of_tags :
          (x : Xml X)
          → starts_space (tags x) ≡ true
          → spaced (tags x) ≡ true
          → Gives calls laws write_state read_state reads (loader [] none none []) (tags x) xs
          → (t : Listing F) × (load_xml calls read_state x ≡ some (0, t)) × (shape t ≡ xs)
      of_tags (text r) starts sp (t, run, same) = (
        t,
        load_loop-tag_run calls read_state (suc (weight (text r) + weight (text r)))
              (loader [] none none []) r (r ∷ []) (omega arith) (omega arith) sp
            ∙ run,
        same,
      )
      of_tags _ starts sp gives = absurd (cc)

  -- A saved tree reads back without an error: every filter keeps its depth and what is below its root,
  -- the first root stays the first, and the later roots come back in the reverse order. The
  -- conditions: the filters' own states read back, tree.hh does what it documents, and the file has
  -- the tags that `saveXML` wrote.
  pub load_xml-save_xml :
      (first : Root F) (rest : List (Root F)) (ts : List (Tag X)) (x : Xml X)
      → IsBranch first
      → All IsBranch rest
      → save_xml write_state (branch first ++ in_order rest) ≡ some ts
      → tags x ≡ ts
      → (t : Listing F) × (load_xml calls read_state x ≡ some (0, t))
        × (shape t ≡ branch first ++ last_first rest [])
  unfolding save_xml
  load_xml-save_xml first rest ts x br brs saved same =
      let sp = save_from-IsSpaced write_state 0 (branch first ++ in_order rest) ts saved in
      load_xml-tags x ts (branch first ++ last_first rest []) same sp.0 sp.1
        (run_to_end calls laws write_state read_state reads first rest ts br brs saved)

  -- A saved tree with one root or two reads back as it was, filter by filter with its depth, under
  -- the same conditions.
  pub load_xml-save_xml_two :
      (first : Root F) (rest : List (Root F)) (ts : List (Tag X)) (x : Xml X)
      → length rest ≤ 1
      → IsBranch first
      → All IsBranch rest
      → save_xml write_state (branch first ++ in_order rest) ≡ some ts
      → tags x ≡ ts
      → (t : Listing F) × (load_xml calls read_state x ≡ some (0, t))
        × (shape t ≡ branch first ++ in_order rest)
  load_xml-save_xml_two first [] ts x h br brs saved same =
      load_xml-save_xml first [] ts x br brs saved same
  load_xml-save_xml_two first (r ∷ []) ts x h br brs saved same =
      load_xml-save_xml first (r ∷ []) ts x br brs saved same
  load_xml-save_xml_two first (r ∷ q ∷ rs) ts x h br brs saved same = absurd (omega arith)
