-- ===== src/State/Undo.antt =====
-- The undo and redo stacks of `TreeState` (src/backend/state.h and state.cpp), and the operations of
-- the tree that go through them.
use depict_isosurfaces.Prelude.{
  ℕ, suc, ◌-◌, ◌≡◌, refl, ap, sym, ◌∙◌, Bool, true, false, List, [], ◌∷◌, ◌++◌, Option, none, some,
  arith, ltb, if◌then◌else◌, length, length-append, inl, inr, ◌≢◌, Option-cases,
}

abbrev pub max_undo_size : ℕ
max_undo_size = 10

-- STATE_MODIFIED_NONE to STATE_MODIFIED_DATA
pub data ModifyLevel : Type 0 where
  unmodified view ancillary contents : ModifyLevel

-- The part of `TreeState` that the stacks concern, over the type of filter trees. The front of a deque
-- is the head of its list.
pub record Stacks {ℓ} (T : Type ℓ) : Type ℓ where
  pub filter_tree : T
  pub undo : List T
  pub redo : List T
  pub level : ModifyLevel

module _ {ℓ} {T : Type ℓ} where
  abbrev pub pop_front : List T → List T
  pop_front [] = []
  pop_front (t ∷ ts) = ts

  abbrev pub grow : T → Option (List T × T) → Option (List T × T)
  grow t none = some ([], t)
  grow t (some (init, last)) = some (t ∷ init, last)

  -- `back()` and `pop_back()`
  abbrev pub unsnoc : List T → Option (List T × T)
  unsnoc [] = none
  unsnoc (t ∷ ts) = grow t (unsnoc ts)

-- `FilterTree`'s copy constructor, which clones every filter without its cache.
module _ {ℓ} {T : Type ℓ} (clone : T → T) where
  unfoldable pub push_undo_stack : Stacks T → Stacks T
  push_undo_stack s =
      let room = if ltb max_undo_size (length s.undo) then pop_front s.undo else s.undo in
      record s { undo = room ++ clone s.filter_tree ∷ []; redo = [] }

  abbrev pub trim_redo : List T → List T
  trim_redo redo = if ltb max_undo_size (length redo) then pop_front redo else redo

  abbrev pub undo_to : Bool → Stacks T → Option (List T × T) → Option (Stacks T)
  undo_to restore s none = none
  undo_to restore s (some (rest, last)) = some (record {
    filter_tree = if restore then last else s.filter_tree;
    undo = rest;
    redo = trim_redo (s.redo ++ clone s.filter_tree ∷ []);
    level = contents;
  })

  -- `none` where the assertion fails: there is nothing to undo.
  unfoldable pub pop_undo_stack : Bool → Stacks T → Option (Stacks T)
  pop_undo_stack restore s = undo_to restore s (unsnoc s.undo)

  abbrev pub redo_to : Stacks T → Option (List T × T) → Option (Stacks T)
  redo_to s none = none
  redo_to s (some (rest, last)) = some (record {
    filter_tree = last;
    undo = s.undo ++ clone s.filter_tree ∷ [];
    redo = rest;
    level = contents;
  })

  -- `none` where there is nothing to redo.
  unfoldable pub pop_redo_stack : Stacks T → Option (Stacks T)
  pop_redo_stack s = redo_to s (unsnoc s.redo)

  abbrev refused : Option (Stacks T) → Option (Bool × Stacks T)
  refused none = none
  refused (some s) = some (false, s)

  -- `setFilterProperty` and `reparentFilter`: the change of the tree is tried after a push, and the push
  -- is taken back if the tree refuses it.
  unfoldable pub try_change : (T → Bool × T) → Stacks T → Option (Bool × Stacks T)
  unfolding push_undo_stack pop_undo_stack
  try_change change s =
      let pushed = push_undo_stack s in
      let (done, tree) = change pushed.filter_tree in
      let tried = record pushed { filter_tree = tree } in
      if done then some (true, tried) else refused (pop_undo_stack false tried)

module _ {ℓ} {T : Type ℓ} where
  pub unsnoc-snoc : (ts : List T) (t : T) → unsnoc (ts ++ t ∷ []) ≡ some (ts, t)
  unsnoc-snoc [] t = refl
  unsnoc-snoc (x ∷ ts) t = rw (unsnoc-snoc ts t)

  unsnoc_cons : (t : T) (ts : List T) → unsnoc (t ∷ ts) ≢ none
  unsnoc_cons t [] h = cc
  unsnoc_cons t (x ∷ ts) h = elim (Option-cases (unsnoc (x ∷ ts))) [
    | inl e ↦ unsnoc_cons x ts e
    | inr (p, e) ↦ let k : grow t (some p) ≡ none = ap (grow t) (sym e) ∙ h in cc
  ]

  unsnoc-some : (ts init : List T) (t : T) → unsnoc ts ≡ some (init, t) → (ts ≡ init ++ t ∷ [])
  unsnoc-some [] init t h = absurd (cc)
  unsnoc-some (x ∷ []) init t h = ground arith
  unsnoc-some (x ∷ y ∷ ts) init t h = elim (Option-cases (unsnoc (y ∷ ts))) [
    | inl e ↦ absurd (unsnoc_cons y ts e)
    | inr ((i, l), e) ↦
        let k : some (x ∷ i, l) ≡ some (init, t) = sym (ap (grow x) e) ∙ h in
        let p : (x ∷ i ≡ init) × (l ≡ t) = (cc k, cc k) in
        rw (← p.0, ← p.1) (ap (λ r. x ∷ r) (unsnoc-some (y ∷ ts) i l e))
  ]

  pub length-unsnoc :
      (ts init : List T) (t : T) → unsnoc ts ≡ some (init, t) → length ts ≡ suc (length init)
  length-unsnoc ts init t h =
      omega (arith, ap length (unsnoc-some ts init t h), length-append init (t ∷ []))

  pub length-pop_front : (ts : List T) → length (pop_front ts) ≡ length ts - 1
  length-pop_front [] = omega arith
  length-pop_front (t ∷ ts) = omega arith
