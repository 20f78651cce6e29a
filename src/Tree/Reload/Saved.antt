-- ===== src/Tree/Reload/Saved.antt =====
-- What `FilterTree::saveXML` (src/backend/filtertree.cpp) has written, filter by filter, and the order
-- of the roots.
use depict_isosurfaces.Prelude.{
  ℕ, zero, suc, ◌+◌, ◌-◌, ◌≤◌, ◌<◌, ◌≡◌, refl, sym, ap, subst, true, Option, some, List, [], ◌∷◌,
  ◌++◌, arith, >>=-some, map,
}
use depict_isosurfaces.Tree.Xml.{Tag, space, element, move, closes, opens, save_from}
use depict_isosurfaces.Tree.Load.{Listing}
use depict_isosurfaces.Tree.Reload.Spaced.{starts_space, spaced}

-- A filter without a parent, and the filters below it with their depths, in pre-order.
abbrev pub Root : Type 0 → Type 0
Root F = F × List (ℕ × F)

module _ {F : Type 0} where
  abbrev pub branch : Root F → List (ℕ × F)
  branch (f, below) = (0, f) ∷ below

  -- After a filter at depth `d` and below the same root: each filter is at most one level deeper than
  -- the one before it.
  abbrev pub IsBelow : ℕ → List (ℕ × F) → Type 0
  IsBelow d [] = Unit
  IsBelow d ((e, f) ∷ xs) = (0 < e) × (e ≤ suc d) × IsBelow e xs

  abbrev pub IsBranch : Root F → Type 0
  IsBranch r = IsBelow 0 r.1

  abbrev pub in_order : List (Root F) → List (ℕ × F)
  in_order [] = []
  in_order (r ∷ rs) = branch r ++ in_order rs

  -- Each root before the one that it follows, and all before `after`.
  abbrev pub last_first : List (Root F) → List (ℕ × F) → List (ℕ × F)
  last_first [] after = after
  last_first (r ∷ rs) after = last_first rs (branch r ++ after)

  abbrev pub shape : Listing F → List (ℕ × F)
  shape ns = map (λ n. (n.depth, n.filter)) ns

  pub shape-append : (a b : Listing F) → shape (a ++ b) ≡ shape a ++ shape b
  shape-append [] b = refl
  shape-append (n ∷ a) b = ap (λ xs. (n.depth, n.filter) ∷ xs) (shape-append a b)

module _ {F X : Type 0} (write_state : F → Option X) where
  -- The tags of the filters after the first.
  pub record IsStep (d e : ℕ) (f : F) (ys : List (ℕ × F)) (ts : List (Tag X)) : Type 0 where
    pub written : X
    pub others : List (Tag X)
    pub writes : write_state f ≡ some written
    pub saves : save_from write_state e e ys ≡ some others
    pub all : ts ≡ move d e (space ∷ element written ∷ others)

  pub save_from-IsStep :
      (d e : ℕ) (f : F) (ys : List (ℕ × F)) (ts : List (Tag X))
      → save_from write_state d d ((e, f) ∷ ys) ≡ some ts
      → IsStep d e f ys ts
  unfolding save_from
  save_from-IsStep d e f ys ts h =
      let count : (d + (e - d)) - (d - e) ≡ e = omega arith in
      let (x, writes, then) = >>=-some (write_state f) _ ts h in
      let (others, saves, all) =
        >>=-some (save_from write_state e ((d + (e - d)) - (d - e)) ys) _ ts then in
      record {
        written = x;
        others = others;
        writes = writes;
        saves = rw count at saves;
        all = cc all;
      }

module _ {X : Type 0} where
  abbrev IsSpaced : List (Tag X) → Type 0
  IsSpaced ts = (starts_space ts ≡ true) × (spaced ts ≡ true)

  closes-IsSpaced : (n : ℕ) (ts : List (Tag X)) → IsSpaced ts → IsSpaced (closes n ts)
  unfolding closes
  closes-IsSpaced zero ts h = h
  closes-IsSpaced (suc n) ts h = (refl, (closes-IsSpaced n ts h).1)

  opens-IsSpaced : (n : ℕ) (ts : List (Tag X)) → IsSpaced ts → IsSpaced (opens n ts)
  unfolding opens
  opens-IsSpaced zero ts h = h
  opens-IsSpaced (suc n) ts h = let rest = opens-IsSpaced n ts h in (refl, rw (rest.0, rest.1))

  move-IsSpaced : (d e : ℕ) (ts : List (Tag X)) → IsSpaced ts → IsSpaced (move d e ts)
  move-IsSpaced d e ts h = opens-IsSpaced (e - d) (closes (d - e) ts) (closes-IsSpaced (d - e) ts h)

module _ {F X : Type 0} (write_state : F → Option X) where
  -- `saveXML` ends each tag with a line break.
  pub save_from-IsSpaced :
      (d : ℕ) (xs : List (ℕ × F)) (ts : List (Tag X))
      → save_from write_state d d xs ≡ some ts
      → IsSpaced ts
  unfolding save_from
  save_from-IsSpaced d [] ts h =
      let same : closes d (space ∷ []) ≡ ts = cc h in
      subst IsSpaced same (closes-IsSpaced d (space ∷ []) (refl, refl))
  save_from-IsSpaced d ((e, f) ∷ xs) ts h =
      let step = save_from-IsStep write_state d e f xs ts h in
      let rest = save_from-IsSpaced e xs step.others step.saves in
      subst IsSpaced (sym step.all)
        (move-IsSpaced d e (space ∷ element step.written ∷ step.others) (refl, rest.1))
