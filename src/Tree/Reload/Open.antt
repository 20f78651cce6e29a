-- ===== src/Tree/Reload/Open.antt =====
-- Where `FilterTree::loadXML` (src/backend/filtertree.cpp) is in the tree it builds: the filters that
-- it may still give children to.
use depict_isosurfaces.Prelude.{
  ℕ, zero, suc, ◌≤◌, ◌<◌, ◌≡◌, refl, sym, ap, ◌∙◌, subst, false, Option, some, List, [], ◌∷◌, ◌++◌,
  ◌&&◌, append_assoc, is_empty, length, arith, elem, elem-append, All, All-append, drop,
}
use depict_isosurfaces.Tree.Load.{
  Node, Listing, TreeCalls, IsTree, Loader, Ends, node, keys, loader, add_item,
}

module _ {F : Type 0} where
  pub keys-append : (a b : Listing F) → keys (a ++ b) ≡ keys a ++ keys b
  keys-append [] b = refl
  keys-append (n ∷ a) b = ap (λ ks. n.key ∷ ks) (keys-append a b)

  pub elem-keys :
      (k : ℕ) (a b : Listing F) → elem k (keys (a ++ b)) ≡ false → elem k (keys a) ≡ false
  elem-keys k a b h = ground (arith, keys-append a b, elem-append k (keys a) (keys b))

  -- The iterator `s` is at a node of `cur` at depth `d` whose subtree reaches to the end of `cur`.
  pub record IsOpen (front cur : Listing F) (s : Option ℕ) (d : ℕ) : Type 0 where
    pub before : Listing F
    pub at : Node F
    pub below : Listing F
    pub whole : cur ≡ before ++ at ∷ below
    pub here : s ≡ some at.key
    pub level : at.depth ≡ d
    pub first : elem at.key (keys (front ++ before)) ≡ false
    pub deeper : All (λ m. at.depth < m.depth) below

  abbrev pub AllOpen : Listing F → Listing F → List (Option ℕ) → Type 0
  AllOpen front cur [] = Unit
  AllOpen front cur (s ∷ ss) = IsOpen front cur s (length ss) × AllOpen front cur ss

  grow-IsOpen :
      (front cur : Listing F) (s : Option ℕ) (d : ℕ) (m : Node F)
      → d < m.depth
      → IsOpen front cur s d
      → IsOpen front (cur ++ m ∷ []) s d
  grow-IsOpen front cur s d m h o = record {
    before = o.before;
    at = o.at;
    below = o.below ++ m ∷ [];
    whole = rw (o.whole, append_assoc) refl;
    here = o.here;
    level = o.level;
    first = o.first;
    deeper =
        All-append (λ m. o.at.depth < m.depth) o.below (m ∷ []) o.deeper
          (omega (arith, o.level), tt);
  }

  pub grow-AllOpen :
      (front cur : Listing F) (ss : List (Option ℕ)) (m : Node F)
      → length ss ≤ m.depth
      → AllOpen front cur ss
      → AllOpen front (cur ++ m ∷ []) ss
  grow-AllOpen front cur [] m h o = tt
  grow-AllOpen front cur (s ∷ ss) m h o = (
    grow-IsOpen front cur s (length ss) m (omega arith) o.0,
    grow-AllOpen front cur ss m (omega arith) o.1,
  )

  pub drop-AllOpen :
      (front cur : Listing F) (k : ℕ) (ss : List (Option ℕ))
      → AllOpen front cur ss
      → AllOpen front cur (drop k ss)
  drop-AllOpen front cur zero ss o = o
  drop-AllOpen front cur (suc k) [] o = tt
  drop-AllOpen front cur (suc k) (s ∷ ss) o = drop-AllOpen front cur k ss o.1

  -- The root in progress is `cur`, and roots stand before and after it.
  pub record IsAt (front cur back : Listing F) (l : Loader F) (depth : ℕ) : Type 0 where
    pub filters_are : l.filters ≡ front ++ cur ++ back
    pub path : AllOpen front cur (l.last_filt ∷ l.tree_node_stack)
    pub deep : length l.tree_node_stack ≡ depth
    pub ends : Ends 0 back

  -- A new last node of `cur` is open.
  pub newest-IsOpen :
      (front cur : Listing F) (m : Node F)
      → elem m.key (keys (front ++ cur)) ≡ false
      → IsOpen front (cur ++ m ∷ []) (some m.key) m.depth
  newest-IsOpen front cur m h = record {
    before = cur;
    at = m;
    below = [];
    whole = refl;
    here = refl;
    level = refl;
    first = h;
    deeper = tt;
  }

  pub Ends-weaken : (d : ℕ) (b : Listing F) → Ends 0 b → Ends d b
  Ends-weaken d [] h = tt
  Ends-weaken d (n ∷ b) h = omega arith

  is_empty-append : (a b : Listing F) → is_empty (a ++ b) ≡ (is_empty a && is_empty b)
  is_empty-append [] b = refl
  is_empty-append (n ∷ a) b = refl

  -- Somewhere there is a filter.
  pub open-is_empty :
      (front cur back fs : Listing F) (s : Option ℕ) (d : ℕ)
      → fs ≡ front ++ cur ++ back
      → IsOpen front cur s d
      → is_empty fs ≡ false
  open-is_empty front cur back fs s d whole o =
      rw (whole, o.whole, is_empty-append, is_empty-append, is_empty-append)
        (ground (arith, is_empty front, is_empty o.before))

module _ {F : Type 0} (calls : TreeCalls F) (laws : IsTree calls) where
  -- The law of `append_child` at an iterator that is open.
  append_child-open :
      (front cur back fs : Listing F) (s : Option ℕ) (d : ℕ) (f : F)
      → fs ≡ front ++ cur ++ back
      → IsOpen front cur s d
      → Ends 0 back
      → let out = calls.append_child fs s f in
        (elem out.0 (keys fs) ≡ false)
        × (out.1 ≡ front ++ (cur ++ node out.0 (suc d) f ∷ []) ++ back)
  append_child-open front cur back fs s d f whole o ends =
      let a = front ++ o.before in
      let split : fs ≡ a ++ o.at ∷ o.below ++ back = rw (whole, o.whole) (simp append_assoc) in
      let law =
        laws.append_last a o.at o.below back f o.first o.deeper
          (Ends-weaken o.at.depth back ends) in
      let at_s = rw (sym split, sym o.here) at law in
      let out = calls.append_child fs s f in
      let same : out.1 ≡ front ++ (cur ++ node out.0 (suc o.at.depth) f ∷ []) ++ back =
        at_s.1 ∙ rw o.whole (simp append_assoc) in
      (at_s.0, rw o.level at same)

  -- A filter read with filters on the stack goes after everything below the top one.
  pub add_item-child :
      (front cur back fs : Listing F) (last top s : Option ℕ) (ss : List (Option ℕ)) (f : F)
      → fs ≡ front ++ cur ++ back
      → AllOpen front cur (s ∷ ss)
      → Ends 0 back
      → let out = calls.append_child fs s f in
        let m = node out.0 (suc (length ss)) f in
        (add_item calls (loader fs last top (s ∷ ss)) f ≡ loader out.1 (some m.key) top (s ∷ ss))
        × IsAt front (cur ++ m ∷ []) back (loader out.1 (some m.key) top (s ∷ ss)) m.depth
  unfolding add_item
  add_item-child front cur back fs last top s ss f whole path ends =
      let law = append_child-open front cur back fs s (length ss) f whole path.0 ends in
      let out = calls.append_child fs s f in
      let m = node out.0 (suc (length ss)) f in
      let fresh : elem m.key (keys (front ++ cur)) ≡ false =
        elem-keys m.key (front ++ cur) back
          (subst (λ x. elem m.key (keys x) ≡ false) whole law.0) in
      (
        rw (open-is_empty front cur back fs s (length ss) whole path.0),
        record {
          filters_are = law.1;
          path = (
            newest-IsOpen front cur m fresh,
            grow-AllOpen front cur (s ∷ ss) m (omega arith) path,
          );
          deep = refl;
          ends = ends;
        },
      )
