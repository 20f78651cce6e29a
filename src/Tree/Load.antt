-- ===== src/Tree/Load.antt =====
-- `FilterTree::loadXML` of src/backend/filtertree.cpp: the loop over the elements of a state file
-- with its two stacks. What it calls of tree.hh is a parameter.
use depict_isosurfaces.Prelude.{
  ℕ, zero, suc, ◌+◌, ◌≤◌, ◌<◌, ◌≡◌, false, Option, none, some, List, [], ◌∷◌, ◌++◌, map,
  if◌then◌else◌, is_empty, elem, All,
}
use depict_isosurfaces.Tree.Xml.{Xml, done, text, entry, children, unknown, next, weight}

-- A node of the tree in the pre-order listing of the tree. An iterator holds the key of its node,
-- and nothing when it is `end()`, so that it stays on its node when others are inserted.
pub record Node (F : Type 0) : Type 0 where
  pub key : ℕ
  pub depth : ℕ
  pub filter : F

abbrev pub Listing : Type 0 → Type 0
Listing F = List (Node F)

-- `insert(position, x)` and `append_child(position, x)` of tree.hh: the iterator they return and
-- the new listing.
pub record TreeCalls (F : Type 0) : Type 0 where
  pub insert : Listing F → Option ℕ → F → ℕ × Listing F
  pub append_child : Listing F → Option ℕ → F → ℕ × Listing F

module _ {F : Type 0} where
  abbrev pub node : ℕ → ℕ → F → Node F
  node k d f = record { key = k; depth = d; filter = f }

  abbrev pub keys : Listing F → List ℕ
  keys ns = map (λ n. n.key) ns

  -- The subtree of a node at depth `d` ends before `ns`.
  abbrev pub Ends : ℕ → Listing F → Type 0
  Ends d [] = Unit
  Ends d (n ∷ ns) = n.depth ≤ d

-- What tree.hh documents: `insert` puts a sibling just before the position, at `end()` after
-- everything; `append_child` puts a last child below the position; the iterator is a new one.
pub record IsTree {F : Type 0} (calls : TreeCalls F) : Type 0 where
  pub insert_end :
      (ns : Listing F) (f : F)
      → let out = calls.insert ns none f in
        (elem out.0 (keys ns) ≡ false) × (out.1 ≡ ns ++ node out.0 0 f ∷ [])
  pub insert_before :
      (a : Listing F) (n : Node F) (b : Listing F) (f : F)
      → elem n.key (keys a) ≡ false
      → n.depth ≡ 0
      → let out = calls.insert (a ++ n ∷ b) (some n.key) f in
        (elem out.0 (keys (a ++ n ∷ b)) ≡ false) × (out.1 ≡ a ++ node out.0 0 f ∷ n ∷ b)
  pub append_last :
      (a : Listing F) (n : Node F) (below b : Listing F) (f : F)
      → elem n.key (keys a) ≡ false
      → All (λ m. n.depth < m.depth) below
      → Ends n.depth b
      → let out = calls.append_child (a ++ n ∷ below ++ b) (some n.key) f in
        (elem out.0 (keys (a ++ n ∷ below ++ b)) ≡ false)
        × (out.1 ≡ a ++ n ∷ below ++ node out.0 (suc n.depth) f ∷ b)

-- `filters`, `lastFilt`, `lastTop` and `treeNodeStack`.
pub record Loader (F : Type 0) : Type 0 where
  pub filters : Listing F
  pub last_filt : Option ℕ
  pub last_top : Option ℕ
  pub tree_node_stack : List (Option ℕ)

module _ {F : Type 0} where
  abbrev pub loader : Listing F → Option ℕ → Option ℕ → List (Option ℕ) → Loader F
  loader ns last top stack = record {
    filters = ns;
    last_filt = last;
    last_top = top;
    tree_node_stack = stack;
  }

-- What the loop does in place of returning: `some (0, filters)` for success, `some (1, [])` after
-- `clear()`; nothing when the fuel or the stack of XML nodes is used up.
abbrev pub Loaded : Type 0 → Type 0
Loaded F = Option (ℕ × Listing F)

module _ {F : Type 0} (calls : TreeCalls F) where
  -- "Add the new item the tree"
  unfoldable pub add_item : Loader F → F → Loader F
  add_item l f =
      if is_empty l.filters
      then (let out = calls.insert l.filters none f in
          loader out.1 (some out.0) l.last_top l.tree_node_stack)
      else elim l.tree_node_stack [
        | [] ↦
            let out = calls.insert l.filters l.last_top f in
            loader out.1 (some out.0) (some out.0) []
        | top ∷ stack ↦
            let out = calls.append_child l.filters top f in
            loader out.1 (some out.0) l.last_top (top ∷ stack)
      ]

module _ {F : Type 0} where
  abbrev pub push : Loader F → Loader F
  push l = loader l.filters l.last_filt l.last_top (l.last_filt ∷ l.tree_node_stack)

module _ {F X : Type 0} (calls : TreeCalls F) (read_state : X → Option F) where
  -- The loop. `rest` is what follows `nodePtr` under its parent, and `nodes` what follows each
  -- entry of `nodeStack`.
  unfoldable pub load_loop : ℕ → Loader F → Xml X → List (Xml X) → Loaded F
  unfolding add_item
  load_loop zero l rest nodes = none
  load_loop (suc n) l done nodes = elim l.tree_node_stack [
    | [] ↦ some (0, l.filters)
    | top ∷ stack ↦ elim nodes [
      | [] ↦ none
      | r ∷ rs ↦ load_loop n (loader l.filters top l.last_top stack) r rs
    ]
  ]
  load_loop (suc n) l (text r) nodes = load_loop n l r nodes
  load_loop (suc n) l (unknown r) nodes = load_loop n l r nodes
  load_loop (suc n) l (entry x r) nodes = elim (read_state x) [
    | none ↦ some (1, [])
    | some f ↦ load_loop n (add_item calls l f) r nodes
  ]
  load_loop (suc n) l (children k r) nodes =
      let below = load_loop n (push l) (next k) (r ∷ nodes) in
      if is_empty l.filters then some (1, []) else elim k [ done ↦ some (1, []) | _ ↦ below ]

  -- `loadXML` on the nodes below <filtertree>; `node->next` of no node at all is an error.
  unfoldable pub load_xml : Xml X → Loaded F
  unfolding load_loop
  load_xml x = elim x as (λ y. Loaded F) [
    | done ↦ none
    | _ ↦ load_loop (suc (weight x + weight x)) (loader [] none none []) (next x) (next x ∷ [])
  ]
