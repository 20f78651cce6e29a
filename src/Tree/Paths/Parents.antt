-- ===== src/Tree/Paths/Parents.antt =====
-- The paths that `FilterTree::serialiseToStringPaths` (src/backend/filtertree.cpp) gives to the filters
-- of a tree.
use depict_isosurfaces.Prelude.{
  ℕ, zero, suc, ◌+◌, ◌^◌, ◌<◌, ◌≡◌, refl, subst, false, some, List, [], ◌∷◌, ◌++◌, take, length,
  arith,
}
use depict_isosurfaces.Tree.Order.{TreeOps, IsPreOrder}
use depict_isosurfaces.Tree.Paths.{Text, has_path, path_loop, serialise_to_string_paths}
use depict_isosurfaces.Tree.Paths.Nonce.{test_path_lem}
use depict_isosurfaces.Tree.Paths.Named.{IsNamed, AreApart, Extends, above, IsNamed-next, top-take}

module _ (t : TreeOps) (pre : IsPreOrder t) (type_string : ℕ → Text) where
  path_loop_lem :
      (n it : ℕ) (stack paths : List Text)
      → it + n ≡ t.size
      → t.size < 2 ^ 32
      → IsNamed t pre type_string it stack paths
      → (out : List Text) × (last : List Text) × (path_loop t type_string n it stack paths
          ≡ some out)
        × IsNamed t pre type_string t.size last out
  unfolding path_loop
  path_loop_lem zero it stack paths size small named =
      let end : it ≡ t.size = omega (arith, size) in
      (paths, stack, refl, subst (λ i. IsNamed t pre type_string i stack paths) end named)
  path_loop_lem (suc n) it stack paths size small named =
      let lt : it < t.size = omega (arith, size) in
      let count = named.count in
      let (s, at, up) = above t pre type_string it stack paths lt named in
      let (path, found, (free, (tail, same))) =
        test_path_lem paths s (type_string it) (omega (arith, count, lt, small)) in
      let next =
        IsNamed-next t pre type_string it stack paths s tail lt named at up
          (subst (λ p. has_path paths p ≡ false) same free) in
      let (out, last, run, done) =
        path_loop_lem n (suc it) (take (t.depth it + 1) stack ++ (s ++ tail) ∷ [])
          (paths ++ (s ++ tail) ∷ []) (omega (arith, size)) small next in
      (out, last, rw (top-take (t.depth it) stack s at, found, same) run, done)

  -- `serialiseToStringPaths` gives every filter a path of its own, and the path of a filter with a
  -- parent begins with the parent's path; the loop that looks for a free path always finds one. The
  -- condition: the filters are fewer than an unsigned int can count.
  pub serialise_to_string_paths_lem :
      t.size < 2 ^ 32
      → (paths : List Text) × (serialise_to_string_paths t type_string ≡ some paths)
        × (length paths ≡ t.size)
        × AreApart t pre type_string paths
        × ((i : ℕ) → i < t.size → 0 < t.depth i → Extends t pre type_string paths i)
  unfolding serialise_to_string_paths
  serialise_to_string_paths_lem small =
      let start : IsNamed t pre type_string 0 ([] ∷ []) [] = record {
        count = refl;
        bottom = refl;
        held = λ p h k. absurd (omega arith);
        apart = λ i j s h k. absurd (cc h);
        extends = λ i h k. absurd (omega arith);
      } in
      let (out, last, run, named) = path_loop_lem t.size 0 ([] ∷ []) [] (omega arith) small start in
      (out, run, named.count, named.apart, named.extends)
