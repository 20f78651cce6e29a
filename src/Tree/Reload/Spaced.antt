-- ===== src/Tree/Reload/Spaced.antt =====
-- `FilterTree::loadXML` of src/backend/filtertree.cpp read tag by tag, for files with text after
-- each opening tag.
use depict_isosurfaces.Prelude.{
  ℕ, zero, suc, ◌+◌, ◌≤◌, ◌<◌, ◌≡◌, refl, Bool, true, false, ◌&&◌, Option, none, some, List, [],
  ◌∷◌, if◌then◌else◌, is_empty, length, arith, Option-cases, inl, inr,
}
use depict_isosurfaces.Tree.Xml.{
  Xml, Tag, done, text, entry, children, unknown, space, element, open_children, close_children,
  other, weight, tags_then,
}
use depict_isosurfaces.Tree.Load.{
  Node, TreeCalls, Loader, Loaded, loader, add_item, push, load_loop,
}

module _ {X : Type 0} where
  abbrev pub starts_space : List (Tag X) → Bool
  starts_space (space ∷ ts) = true
  starts_space ts = false

  -- Every opening tag is followed by text.
  abbrev pub spaced : List (Tag X) → Bool
  spaced [] = true
  spaced (open_children ∷ ts) = starts_space ts && spaced ts
  spaced (t ∷ ts) = spaced ts

  -- What follows the lists of siblings that are open.
  abbrev pub after_all : List (Option ℕ) → List (Xml X) → List (Tag X)
  after_all [] nodes = []
  after_all (s ∷ stack) [] = []
  after_all (s ∷ stack) (r ∷ nodes) = close_children ∷ tags_then r (after_all stack nodes)

  abbrev pub weights : List (Xml X) → ℕ
  weights [] = 0
  weights (r ∷ rs) = weight r + weights rs

module _ {F X : Type 0} (calls : TreeCalls F) (read_state : X → Option F) where
  abbrev pub tag_run : Loader F → List (Tag X) → Loaded F
  tag_run l [] = some (0, l.filters)
  tag_run l (space ∷ ts) = tag_run l ts
  tag_run l (other ∷ ts) = tag_run l ts
  tag_run l (element x ∷ ts) = elim (read_state x) [
    | none ↦ some (1, [])
    | some f ↦ tag_run (add_item calls l f) ts
  ]
  tag_run l (open_children ∷ ts) =
      let below = tag_run (push l) ts in if is_empty l.filters then some (1, []) else below
  tag_run l (close_children ∷ ts) = elim l.tree_node_stack [
    | [] ↦ none
    | top ∷ stack ↦ tag_run (loader l.filters top l.last_top stack) ts
  ]

  abbrev after : Loader F → Xml X → List (Xml X) → List (Tag X)
  after l rest nodes = tags_then rest (after_all l.tree_node_stack nodes)

  -- The loop is at `rest` with the fuel that `n` stands for.
  abbrev Runs : ℕ → Loader F → Xml X → List (Xml X) → Type 0
  Runs n l rest nodes =
      length l.tree_node_stack ≤ length nodes
      → weight rest + weights nodes < n
      → spaced (after l rest nodes) ≡ true
      → load_loop calls read_state n l rest nodes ≡ tag_run l (after l rest nodes)

  pub add_item-stack :
      (l : Loader F) (f : F) → (add_item calls l f).tree_node_stack ≡ l.tree_node_stack
  unfolding add_item
  add_item-stack l f = of_fields l.filters l.last_filt l.last_top l.tree_node_stack
    where
      of_fields :
          (fs : List (Node F)) (last top : Option ℕ) (stack : List (Option ℕ))
          → (add_item calls (loader fs last top stack) f).tree_node_stack ≡ stack
      of_fields [] last top stack = refl
      of_fields (n ∷ ns) last top [] = refl
      of_fields (n ∷ ns) last top (s ∷ ss) = refl

  at_end :
      (n : ℕ)
      → ((l : Loader F) (r : Xml X) (nodes : List (Xml X)) → Runs n l r nodes)
      → (fs : List (Node F)) (last top : Option ℕ) (stack : List (Option ℕ)) (nodes : List (Xml X))
      → Runs (suc n) (loader fs last top stack) done nodes
  unfolding load_loop
  at_end n ih fs last top [] nodes h k q = refl
  at_end n ih fs last top (s ∷ ss) [] h k q = absurd (omega arith)
  at_end n ih fs last top (s ∷ ss) (r ∷ rs) h k q =
      ih (loader fs s top ss) r rs (omega arith) (omega arith) q

  at_children :
      (n : ℕ)
      → ((l : Loader F) (r : Xml X) (nodes : List (Xml X)) → Runs n l r nodes)
      → (l : Loader F) (kids r : Xml X) (nodes : List (Xml X))
      → Runs (suc n) l (children kids r) nodes
  unfolding load_loop
  at_children n ih l (text kids) r nodes h k q =
      rw (ih (push l) kids (r ∷ nodes) (omega arith) (omega arith) q)
  at_children n ih l _ r nodes h k q = absurd (cc)

  pub load_loop-tag_run :
      (n : ℕ) (l : Loader F) (rest : Xml X) (nodes : List (Xml X)) → Runs n l rest nodes
  unfolding load_loop
  load_loop-tag_run zero l rest nodes h k q = absurd (omega arith)
  load_loop-tag_run (suc n) l done nodes h k q =
      at_end n (load_loop-tag_run n) l.filters l.last_filt l.last_top l.tree_node_stack nodes h k q
  load_loop-tag_run (suc n) l (text r) nodes h k q = load_loop-tag_run n l r nodes h (omega arith) q
  load_loop-tag_run (suc n) l (unknown r) nodes h k q =
      load_loop-tag_run n l r nodes h (omega arith) q
  load_loop-tag_run (suc n) l (entry x r) nodes h k q = elim (Option-cases (read_state x)) [
    | inl e ↦ rw (e, load_loop)
    | inr (f, e) ↦
        let same = add_item-stack l f in
        let ih = load_loop-tag_run n (add_item calls l f) r nodes in
        rw (e, load_loop) (rw same at ih h (omega arith) q)
  ]
  load_loop-tag_run (suc n) l (children kids r) nodes h k q =
      at_children n (load_loop-tag_run n) l kids r nodes h k q
