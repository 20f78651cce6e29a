-- ===== src/Tree/Reload/Fuel.antt =====
-- The end of the loop of `FilterTree::loadXML` (src/backend/filtertree.cpp).
use depict_isosurfaces.Prelude.{
  ℕ, zero, suc, ◌+◌, ◌≤◌, ◌<◌, ◌≡◌, ◌≢◌, refl, Option, none, some, List, [], ◌∷◌, arith, is_empty,
  length, Bool-cases, Option-cases, inl, inr,
}
use depict_isosurfaces.Tree.Xml.{Xml, done, text, entry, children, unknown, next, weight}
use depict_isosurfaces.Tree.Load.{
  Listing, TreeCalls, Loader, Loaded, loader, add_item, push, load_loop, load_xml,
}
use depict_isosurfaces.Tree.Reload.Spaced.{weights, add_item-stack}

module _ {F X : Type 0} (calls : TreeCalls F) (read_state : X → Option F) where
  weight-next : (x : Xml X) → weight (next x) ≤ weight x
  weight-next done = omega arith
  weight-next (text r) = omega arith
  weight-next (entry x r) = omega arith
  weight-next (children k r) = omega arith
  weight-next (unknown r) = omega arith

  abbrev Ends : ℕ → Loader F → Xml X → List (Xml X) → Type 0
  Ends n l rest nodes =
      length l.tree_node_stack ≤ length nodes
      → weight rest + weights nodes < n
      → (out : ℕ × Listing F) × (load_loop calls read_state n l rest nodes ≡ some out)

  done-Ends :
      (n : ℕ)
      → ((l : Loader F) (r : Xml X) (nodes : List (Xml X)) → Ends n l r nodes)
      → (l : Loader F) (stack : List (Option ℕ)) (nodes : List (Xml X))
      → Ends (suc n) (loader l.filters l.last_filt l.last_top stack) done nodes
  unfolding load_loop
  done-Ends n ih l [] nodes h k = ((0, l.filters), refl)
  done-Ends n ih l (s ∷ ss) [] h k = absurd (omega arith)
  done-Ends n ih l (s ∷ ss) (r ∷ rs) h k =
      ih (loader l.filters s l.last_top ss) r rs (omega arith) (omega arith)

  load_loop-Ends :
      (n : ℕ) (l : Loader F) (rest : Xml X) (nodes : List (Xml X)) → Ends n l rest nodes
  unfolding load_loop
  load_loop-Ends zero l rest nodes h k = absurd (omega arith)
  load_loop-Ends (suc n) l done nodes h k =
      done-Ends n (load_loop-Ends n) l l.tree_node_stack nodes h k
  load_loop-Ends (suc n) l (text r) nodes h k = load_loop-Ends n l r nodes h (omega arith)
  load_loop-Ends (suc n) l (unknown r) nodes h k = load_loop-Ends n l r nodes h (omega arith)
  load_loop-Ends (suc n) l (entry x r) nodes h k = elim (Option-cases (read_state x)) [
    | inl e ↦ ((1, []), rw (e, load_loop))
    | inr (f, e) ↦
        let same = add_item-stack calls read_state l f in
        rw (e, load_loop) (load_loop-Ends n (add_item calls l f) r nodes (rw same h) (omega arith))
  ]
  load_loop-Ends (suc n) l (children kids r) nodes h k = elim (Bool-cases (is_empty l.filters)) [
    | inl e ↦ ((1, []), rw (e, load_loop))
    | inr e ↦
        rw (e, load_loop)
          (of_kids kids (
            load_loop-Ends n (push l) (next kids) (r ∷ nodes) (omega arith)
              (omega (arith, weight-next kids))))
  ]
    where
      of_kids :
          (kids : Xml X)
          → (out : ℕ × Listing F) × (load_loop calls read_state n (push l) (next kids) (r ∷ nodes)
              ≡ some out)
          → (out : ℕ × Listing F) × ((elim kids as (λ y. Loaded F) [
            | done ↦ some (1, [])
            | _ ↦ load_loop calls read_state n (push l) (next kids) (r ∷ nodes)
          ])
              ≡ some out)
      of_kids done below = ((1, []), refl)
      of_kids (text _) below = below
      of_kids (entry _ _) below = below
      of_kids (children _ _) below = below
      of_kids (unknown _) below = below

  start :
      (x : Xml X)
      → (out : ℕ × Listing F) × (load_loop calls read_state
            (suc (weight x + weight x))
            (loader [] none none [])
            (next x)
            (next x ∷ [])
          ≡ some out)
  start x =
      load_loop-Ends (suc (weight x + weight x)) (loader [] none none []) (next x) (next x ∷ [])
        (omega arith) (omega (arith, weight-next x))

  -- `loadXML` ends on every list of nodes that is not empty: it returns a code and a tree, and neither
  -- the fuel nor the stack of XML nodes is used up.
  pub load_xml_ends :
      (x : Xml X) → x ≢ done → (out : ℕ × Listing F) × (load_xml calls read_state x ≡ some out)
  unfolding load_xml
  load_xml_ends done h = absurd (h refl)
  load_xml_ends (text r) h = start (text r)
  load_xml_ends (entry y r) h = start (entry y r)
  load_xml_ends (children k r) h = start (children k r)
  load_xml_ends (unknown r) h = start (unknown r)
