-- ===== src/State/Limits.antt =====
-- The undo and redo stacks stay within their limits whatever the user does, and undo and redo take each
-- other back.
use depict_isosurfaces.Prelude.{
  ◌+◌, ◌≤◌, ◌<◌, ◌≡◌, refl, ap, subst, ◌∙◌, Bool, true, false, List, [], ◌∷◌, ◌++◌, Option, none,
  some, arith, ltb, if◌then◌else◌, length, length-append, ◌≢◌,
}
use depict_isosurfaces.State.Undo.{
  Stacks, contents, max_undo_size, pop_front, unsnoc, unsnoc-snoc, length-unsnoc, length-pop_front,
  trim_redo, push_undo_stack, pop_undo_stack, pop_redo_stack, try_change, undo_to, redo_to,
}

-- At most one entry more than the limit on both stacks together, and no more than the limit to redo.
pub record IsBounded {ℓ} {T : Type ℓ} (s : Stacks T) : Type 0 where
  pub total : length s.undo + length s.redo ≤ max_undo_size + 1
  pub redo_fits : length s.redo ≤ max_undo_size

module _ {ℓ} {T : Type ℓ} (clone : T → T) where
  push_undo_stack-IsBounded : (s : Stacks T) → IsBounded s → IsBounded (push_undo_stack clone s)
  unfolding push_undo_stack
  push_undo_stack-IsBounded s b = ground (
    arith,
    length-pop_front s.undo,
    length-append (pop_front s.undo) (clone s.filter_tree ∷ []),
    length-append s.undo (clone s.filter_tree ∷ []),
  )

  undo_to-IsBounded :
      (restore : Bool) (s s' : Stacks T) (o : Option (List T × T))
      → unsnoc s.undo ≡ o
      → IsBounded s
      → undo_to clone restore s o ≡ some s'
      → IsBounded s'
  undo_to-IsBounded restore s s' none e b h = absurd (cc)
  undo_to-IsBounded restore s s' (some (rest, last)) e b h = ground (
    arith,
    length-unsnoc s.undo rest last,
    length-append s.redo (clone s.filter_tree ∷ []),
    length-pop_front (s.redo ++ clone s.filter_tree ∷ []),
  )

  redo_to-IsBounded :
      (s s' : Stacks T) (o : Option (List T × T))
      → unsnoc s.redo ≡ o
      → IsBounded s
      → redo_to clone s o ≡ some s'
      → IsBounded s'
  redo_to-IsBounded s s' none e b h = absurd (cc)
  redo_to-IsBounded s s' (some (rest, last)) e b h =
      ground
        (arith, length-unsnoc s.redo rest last, length-append s.undo (clone s.filter_tree ∷ []))

  undo-IsBounded :
      (restore : Bool) (s s' : Stacks T)
      → IsBounded s
      → pop_undo_stack clone restore s ≡ some s'
      → IsBounded s'
  unfolding pop_undo_stack
  undo-IsBounded restore s s' b h = undo_to-IsBounded restore s s' (unsnoc s.undo) refl b h

  redo-IsBounded : (s s' : Stacks T) → IsBounded s → pop_redo_stack clone s ≡ some s' → IsBounded s'
  unfolding pop_redo_stack
  redo-IsBounded s s' b h = redo_to-IsBounded s s' (unsnoc s.redo) refl b h

  retree-IsBounded : (s : Stacks T) (t : T) → IsBounded s → IsBounded (record s { filter_tree = t })
  retree-IsBounded s t b = record { total = b.total; redo_fits = b.redo_fits }

  -- What a refused change leaves: the tree as the attempt left it, the undo entries from before (without
  -- the oldest, if there were more than the limit), and the redo entries replaced by the present tree.
  abbrev pub refused_state : Stacks T → T → Stacks T
  refused_state s t = record {
    filter_tree = t;
    undo = if ltb max_undo_size (length s.undo) then pop_front s.undo else s.undo;
    redo = clone t ∷ [];
    level = contents;
  }

  -- A change that the tree refuses is taken back from the undo entries, but the entries to redo are lost
  -- and the present tree becomes one.
  pub try_change_refused :
      (change : T → Bool × T) (s : Stacks T) (t : T)
      → change s.filter_tree ≡ (false, t)
      → try_change clone change s ≡ some (false, refused_state s t)
  unfolding try_change push_undo_stack pop_undo_stack
  try_change_refused change s t h = rw h (
      rw (
        unsnoc-snoc (if ltb max_undo_size (length s.undo) then pop_front s.undo else s.undo)
          (clone s.filter_tree)))

  try_change_done :
      (change : T → Bool × T) (s : Stacks T) (t : T)
      → change s.filter_tree ≡ (true, t)
      → try_change clone change s
        ≡ some (true, record (push_undo_stack clone s) { filter_tree = t })
  unfolding try_change push_undo_stack
  try_change_done change s t h = rw h

  refused_state-IsBounded : (s : Stacks T) (t : T) → IsBounded s → IsBounded (refused_state s t)
  refused_state-IsBounded s t b = ground (arith, length-pop_front s.undo)

  try_change-IsBounded :
      (change : T → Bool × T) (s s' : Stacks T) (done : Bool)
      → IsBounded s
      → try_change clone change s ≡ some (done, s')
      → IsBounded s'
  try_change-IsBounded change s s' done b h = go (change s.filter_tree) refl
    where
      go : (r : Bool × T) → change s.filter_tree ≡ r → IsBounded s'
      go (true, t) e =
          let k : record (push_undo_stack clone s) { filter_tree = t } ≡ s' =
            cc (h, try_change_done change s t e) in
          subst IsBounded k
            (retree-IsBounded (push_undo_stack clone s) t (push_undo_stack-IsBounded s b))
      go (false, t) e =
          let k : refused_state s t ≡ s' = cc (h, try_change_refused change s t e) in
          subst IsBounded k (refused_state-IsBounded s t b)

-- What can happen to the stacks. An edit pushes and changes the tree (`addFilter`, `copyFilter`,
-- `removeFilterSubtree`, `applyBindings`); `retree` changes the tree without a push (`addFilterTree`,
-- `swapFilterTree`); `clear` is `clearUndoRedoStacks`.
pub data Step {ℓ} {T : Type ℓ} (clone : T → T) (s : Stacks T) : Stacks T → Type ℓ where
  edit : (t : T) → Step clone s (record (push_undo_stack clone s) { filter_tree = t })
  attempt :
      (change : T → Bool × T) (done : Bool) {s' : Stacks T}
      → try_change clone change s ≡ some (done, s')
      → Step clone s s'
  undo_step :
      (restore : Bool) {s' : Stacks T} → pop_undo_stack clone restore s ≡ some s' → Step clone s s'
  redo_step : {s' : Stacks T} → pop_redo_stack clone s ≡ some s' → Step clone s s'
  retree : (t : T) → Step clone s (record s { filter_tree = t })
  clear : Step clone s (record s { undo = []; redo = [] })

pub data Reach {ℓ} {T : Type ℓ} (clone : T → T) (s : Stacks T) : Stacks T → Type ℓ where
  here : Reach clone s s
  next : {t u : Stacks T} → Reach clone s t → Step clone t u → Reach clone s u

module _ {ℓ} {T : Type ℓ} (clone : T → T) where
  Step-IsBounded : {s s' : Stacks T} → Step clone s s' → IsBounded s → IsBounded s'
  Step-IsBounded {s} (edit t) b =
      retree-IsBounded clone (push_undo_stack clone s) t (push_undo_stack-IsBounded clone s b)
  Step-IsBounded {s} (attempt change done {s' = u} h) b =
      try_change-IsBounded clone change s u done b h
  Step-IsBounded {s} (undo_step restore {s' = u} h) b = undo-IsBounded clone restore s u b h
  Step-IsBounded {s} (redo_step {s' = u} h) b = redo-IsBounded clone s u b h
  Step-IsBounded {s} (retree t) b = retree-IsBounded clone s t b
  Step-IsBounded clear b = record { total = omega arith; redo_fits = omega arith }

  -- From a state within the limits every sequence of edits, refused or not, undos and redos stays within
  -- them: eleven entries on both stacks together, and ten to redo. So the assertion of a redo holds
  -- wherever there is something to redo: at most ten entries are left to undo.
  pub Reach-IsBounded :
      {s s' : Stacks T}
      → IsBounded s
      → Reach clone s s'
      → IsBounded s' × (s'.redo ≢ [] → length s'.undo ≤ max_undo_size)
  Reach-IsBounded {s} {s'} b r = let c = all r in (c, room s' c)
    where
      all : {u : Stacks T} → Reach clone s u → IsBounded u
      all here = b
      all (next r st) = Step-IsBounded st (all r)

      room : (u : Stacks T) → IsBounded u → u.redo ≢ [] → length u.undo ≤ max_undo_size
      room u c n = ground arith

  -- With fewer than ten entries to redo, a redo takes an undo back: the tree is a clone of the one before
  -- it, and both stacks have the entries from before, the newest to undo cloned.
  pub redo_after_undo :
      (s : Stacks T) (rest : List T) (last : T)
      → s.undo ≡ rest ++ last ∷ []
      → length s.redo < max_undo_size
      → (s' : Stacks T) × (pop_undo_stack clone true s ≡ some s')
        × (s'.filter_tree ≡ last)
        × (pop_redo_stack clone s'
            ≡ some (record {
              filter_tree = clone s.filter_tree;
              undo = rest ++ clone last ∷ [];
              redo = s.redo;
              level = contents;
            }))
  unfolding pop_undo_stack pop_redo_stack
  redo_after_undo s rest last e h = (
    s',
    ap (undo_to clone true s) (ap unsnoc e ∙ unsnoc-snoc rest last)
        ∙ ap (λ r. some (with_redo r)) fits,
    refl,
    ap (redo_to clone s') (unsnoc-snoc s.redo (clone s.filter_tree)),
  )
    where
      with_redo : List T → Stacks T
      with_redo r = record { filter_tree = last; undo = rest; redo = r; level = contents }

      s' : Stacks T
      s' = with_redo (s.redo ++ clone s.filter_tree ∷ [])

      fits :
          trim_redo clone (s.redo ++ clone s.filter_tree ∷ []) ≡ s.redo ++ clone s.filter_tree ∷ []
      fits = ground (arith, length-append s.redo (clone s.filter_tree ∷ []))
