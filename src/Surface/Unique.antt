-- ===== src/Surface/Unique.antt =====
-- Cells and edges from their numbers: `getEdgeCell` after `getCellUniqueEdgeIndex` and
-- `deprecatedGetEdgeUniqueIndex` of src/common/voxels.h.
use depict_isosurfaces.Prelude.{
  ℕ, zero, suc, ◌+◌, ◌-◌, ◌*◌, ◌/◌, ◌%◌, ◌≤◌, ◌<◌, ◌≡◌, sym, ap, ◌∙◌, subst, All, List, [], ◌∷◌,
  get_elem?, some, arith,
}
use native.Mathlib.Nat.{
  div-eq_of_lt, add-mul-div_right, add-mul, mul_comm, mul_assoc, mul-le-mul_right,
}
use depict_isosurfaces.Surface.Edges.{
  Bins, Cell, cell_index, get_cell_unique_edge_index, edge_shift, edge_shifts, no_shift, add_cells,
  deprecated_get_edge_unique_index, split_index, get_edge_cell,
}

-- A quotient with its remainder.
quotient : (n q r : ℕ) → r < n → (r + q * n) / n ≡ q
quotient n q r h =
    add-mul-div_right r q (omega arith) ∙ ap (λ k. k + q) (div-eq_of_lt h) ∙ omega arith

-- A row that starts below `m` ends below `m * n`.
row_bound : (n m q r : ℕ) → r < n → q < m → r + q * n < m * n
row_bound n m q r h k =
    let rows : (q + 1) * n ≤ m * n = mul-le-mul_right n (omega arith) in
    let next = add-mul q 1 n in omega (arith, rows, next)

abbrev IsStep : Cell → Type 0
IsStep (x, y, z) = (x ≤ 1) × (y ≤ 1) × (z ≤ 1)

no_shift-IsStep : (cs : List Cell) (i : ℕ) → All IsStep cs → IsStep (no_shift (get_elem? cs i))
no_shift-IsStep [] i h = (omega arith, omega arith, omega arith)
no_shift-IsStep (c ∷ cs) zero h = h.0
no_shift-IsStep (c ∷ cs) (suc i) h = no_shift-IsStep cs i h.1

edge_shift-IsStep : (i : ℕ) → IsStep (edge_shift i)
edge_shift-IsStep i = no_shift-IsStep edge_shifts i (ground arith)

cell_eq : (a b c x y z : ℕ) → a ≡ x → b ≡ y → c ≡ z → ◌≡◌ {A = Cell} (a, b, c) (x, y, z)
cell_eq a b c x y z p q r = rw (p, q, r)

module _ (bins : Bins) where
  -- The positions of the corners of the cells: one more than the cells in each direction.
  abbrev pub IsCorner : Cell → Type 0
  IsCorner (x, y, z) = (x < bins.nx + 1) × (y < bins.ny + 1) × (z < bins.nz + 1)

  plane_bound :
      (x y z : ℕ) → IsCorner (x, y, z) → z + y * (bins.nz + 1) < (bins.nz + 1) * (bins.ny + 1)
  plane_bound x y z (hx, hy, hz) =
      omega (
        arith,
        row_bound (bins.nz + 1) (bins.ny + 1) y z hz hy,
        mul_comm (bins.ny + 1) (bins.nz + 1),
      )

  split-cell_index : (c : Cell) → IsCorner c → split_index bins (cell_index bins c) ≡ c
  unfolding cell_index split_index
  split-cell_index (x, y, z) h =
      let plane = (bins.nz + 1) * (bins.ny + 1) in
      let row = bins.nz + 1 in
      let whole : z + y * row + x * row * (bins.ny + 1) ≡ (z + y * row) + x * plane =
        ap (λ k. z + y * row + k) (mul_assoc x row (bins.ny + 1)) in
      let at_x = quotient plane x (z + y * row) (plane_bound x y z h) in
      let in_plane : ((z + y * row) + x * plane) - x * plane ≡ z + y * row = omega arith in
      let at_y = quotient row y z h.2 in
      let in_row : (z + y * row) - y * row ≡ z = omega arith in
      rw (whole, at_x, in_plane, at_y, in_row)

  get_edge_cell_lem :
      (c : Cell) (i : ℕ)
      → IsCorner c
      → i < 12
      → get_edge_cell bins (12 * cell_index bins c + i) ≡ some (c, i / 4)
  unfolding get_edge_cell
  get_edge_cell_lem c i h k =
      let index = cell_index bins c in
      let axis : (12 * index + i) % 12 / 4 ≡ i / 4 = omega arith in
      let cell : (12 * index + i) / 12 ≡ index = omega arith in
      rw (cell, split-cell_index c h, axis) (ground arith)

  -- `getEdgeCell` gives back the cell and the axis of an edge from the number that
  -- `getCellUniqueEdgeIndex` gave it, and the number also keeps the index of the edge, for every cell
  -- position up to the number of bins and every index below 12.
  pub get_edge_cell-get_cell_unique_edge_index :
      (c : Cell) (i : ℕ)
      → IsCorner c
      → i < 12
      → let id = get_cell_unique_edge_index bins c i in
        (get_edge_cell bins id ≡ some (c, i / 4)) × (id % 12 ≡ i)
  unfolding get_cell_unique_edge_index
  get_edge_cell-get_cell_unique_edge_index c i h k = (get_edge_cell_lem c i h k, omega arith)

  -- Every number of an edge is below twelve times the number of cell positions.
  pub get_cell_unique_edge_index-lt :
      (c : Cell) (i : ℕ)
      → IsCorner c
      → i < 12
      → get_cell_unique_edge_index bins c i < 12 * ((bins.nx + 1) * ((bins.nz + 1) * (bins.ny + 1)))
  unfolding get_cell_unique_edge_index cell_index
  get_cell_unique_edge_index-lt (x, y, z) i h k =
      let row = bins.nz + 1 in
      let plane = (bins.nz + 1) * (bins.ny + 1) in
      let whole : z + y * row + x * row * (bins.ny + 1) ≡ (z + y * row) + x * plane =
        ap (λ k. z + y * row + k) (mul_assoc x row (bins.ny + 1)) in
      let all = row_bound plane (bins.nx + 1) x (z + y * row) (plane_bound x y z h) h.0 in
      omega (arith, whole, all)

  -- In a cell of the voxels: one less than the bins in each direction.
  abbrev pub IsCell : Cell → Type 0
  IsCell (x, y, z) = (x < bins.nx) × (y < bins.ny) × (z < bins.nz)

  shifted-IsCorner : (c : Cell) (i : ℕ) → IsCell c → i < 12 → IsCorner (add_cells c (edge_shift i))
  shifted-IsCorner (x, y, z) i h k =
      let small = edge_shift-IsStep i in
      (omega (arith, small.0), omega (arith, small.1), omega (arith, small.2))

  -- The number that `deprecatedGetEdgeUniqueIndex` gives an edge of a cell leads back to the position
  -- at which that edge begins and to its axis.
  pub get_edge_cell-deprecated :
      (c : Cell) (i : ℕ)
      → IsCell c
      → i < 12
      → get_edge_cell bins (deprecated_get_edge_unique_index bins c i)
        ≡ some (add_cells c (edge_shift i), i / 4)
  unfolding deprecated_get_edge_unique_index
  get_edge_cell-deprecated c i h k =
      get_edge_cell_lem (add_cells c (edge_shift i)) i (shifted-IsCorner c i h k) k

  -- Two cells never give an edge the same number by `deprecatedGetEdgeUniqueIndex`, not even an edge
  -- that both have: equal numbers are of the same cell and the same index.
  pub deprecated_get_edge_unique_index_apart :
      (c d : Cell) (i j : ℕ)
      → IsCell c
      → IsCell d
      → i < 12
      → j < 12
      → deprecated_get_edge_unique_index bins c i ≡ deprecated_get_edge_unique_index bins d j
      → (c ≡ d) × (i ≡ j)
  unfolding deprecated_get_edge_unique_index
  deprecated_get_edge_unique_index_apart c d i j hc hd hi hj same =
      let a = cell_index bins (add_cells c (edge_shift i)) in
      let b = cell_index bins (add_cells d (edge_shift j)) in
      let index : i ≡ j = omega (arith, same) in
      let position : a ≡ b = omega (arith, same) in
      let cells =
        sym (split-cell_index (add_cells c (edge_shift i)) (shifted-IsCorner c i hc hi))
        ∙ ap (split_index bins) position
        ∙ split-cell_index (add_cells d (edge_shift j)) (shifted-IsCorner d j hd hj) in
      let same_shift =
        subst (λ k. add_cells c (edge_shift i) ≡ add_cells d (edge_shift k)) (sym index) cells in
      let at_x = ap (λ (w : Cell). w.0) same_shift in
      let at_y = ap (λ (w : Cell). w.1) same_shift in
      let at_z = ap (λ (w : Cell). w.2) same_shift in
      (
        cell_eq c.0 c.1 c.2 d.0 d.1 d.2 (omega (arith, at_x)) (omega (arith, at_y))
            (omega (arith, at_z)),
        index,
      )
