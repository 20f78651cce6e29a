-- ===== src/Surface/Grid.antt =====
-- The triangles that `marchingCubes` of src/gl/isoSurface.cpp finds in all cells.
use depict_isosurfaces.Prelude.{
  ℕ, zero, suc, ◌+◌, ◌-◌, ◌≤◌, ◌<◌, ◌≡◌, refl, sym, ap, ◌∙◌, subst, Bool, true, ◌||◌, Option, some,
  List, [], ◌∷◌, ◌++◌, ◌==◌, All, All-append, All-map, arith, Bool-cases, inl, inr,
}
use depict_isosurfaces.Surface.Edges.{Bins, Cell, add_cells, get_edge_cell}
use depict_isosurfaces.Surface.Unique.{IsCell}
use depict_isosurfaces.Surface.Cube.{Triangle, march_cell, collect, marching_cubes}
use depict_isosurfaces.Surface.March.{edge_id, is_crossed, corners, march_cell_lem}
use depict_isosurfaces.Surface.Ends.{lower_end, axis_of, get_edge_cell-edge_id}

corners-append : (ts us : List Triangle) → corners (ts ++ us) ≡ corners ts ++ corners us
corners-append [] us = refl
corners-append ((p, q, r) ∷ ts) us = ap (λ (ids : List ℕ). p ∷ q ∷ r ∷ ids) (corners-append ts us)

module _ (P : ℕ → Type 0) where
  -- There are triangles, and `P` holds for the number of each corner.
  abbrev IsGood : Option (List Triangle) → Type 0
  IsGood found = (ts : List Triangle) × (found ≡ some ts) × All P (corners ts)

  collect-IsGood :
      (n i : ℕ) (f : ℕ → Option (List Triangle))
      → ((j : ℕ) → i ≤ j → j < i + n → IsGood (f j))
      → IsGood (collect n i f)
  collect-IsGood zero i f h = ([], refl, tt)
  collect-IsGood (suc n) i f h =
      let (ts, found, good) = h i (omega arith) (omega arith) in
      let (us, others, rest) =
        collect-IsGood n (suc i) f (λ j k l. h j (omega arith) (omega arith)) in
      (
        ts ++ us,
        rw (found, others),
        subst (All P) (sym (corners-append ts us))
            (All-append P (corners ts) (corners us) good rest),
      )

module _ (bins : Bins) (below : Cell → Bool) where
  -- A corner of a triangle: its number is that of an edge of a cell of the grid, the surface passes
  -- between the ends of that edge, and `getEdgeCell` finds the edge.
  abbrev pub IsVertex : ℕ → Type 0
  IsVertex id =
      (cell : Cell) × (e : ℕ) × IsCell bins cell
      × (id ≡ edge_id bins cell e)
      × (is_crossed below cell e ≡ true)
      × (get_edge_cell bins id ≡ some (add_cells cell (lower_end e), axis_of e))

  march_cell-IsGood :
      (cell : Cell) → IsCell bins cell → IsGood IsVertex (march_cell bins below cell)
  march_cell-IsGood cell h =
      let (ts, found, crossed, all) = march_cell_lem bins below cell in
      (
        ts,
        found,
        All-map _ IsVertex
            (λ id (e, lt, same, cross). (
              cell,
              e,
              h,
              same,
              cross,
              ap (get_edge_cell bins) same ∙ get_edge_cell-edge_id bins cell e h lt,
            ))
            (corners ts) crossed,
      )

  -- The loops of `marchingCubes` end without reading a number that has not been set, and every corner
  -- of every triangle is on an edge of a cell of the grid whose ends are on different sides of the
  -- surface, at the place and along the axis to which `getEdgeCell` leads back from its number.
  pub marching_cubes_lem :
      (ts : List Triangle) × (marching_cubes bins below ≡ some ts) × All IsVertex (corners ts)
  unfolding marching_cubes
  marching_cubes_lem = elim (Bool-cases ((bins.nx == 1) || ((bins.ny == 1) || (bins.nz == 1)))) [
    | inl e ↦ ([], rw e, tt)
    | inr e ↦
        let (ts, found, good) =
          collect-IsGood IsVertex (bins.nx - 1) 0
            (λ x.
              collect (bins.ny - 1) 0
                (λ y. collect (bins.nz - 1) 0 (λ z. march_cell bins below (x, y, z))))
            (λ x x0 xn.
              collect-IsGood IsVertex (bins.ny - 1) 0
                (λ y. collect (bins.nz - 1) 0 (λ z. march_cell bins below (x, y, z)))
                (λ y y0 yn.
                  collect-IsGood IsVertex (bins.nz - 1) 0 (λ z. march_cell bins below (x, y, z))
                    (λ z z0 zn.
                      march_cell-IsGood (x, y, z) (omega arith, omega arith, omega arith)))) in
        (ts, rw e found, good)
  ]
