-- ===== src/Surface/Edges.antt =====
-- The numbers of the edges of voxel cells: `getCellUniqueEdgeIndex`, `deprecatedGetEdgeUniqueIndex`
-- and `getEdgeCell` of src/common/voxels.h.
use depict_isosurfaces.Prelude.{
  ℕ, ◌+◌, ◌-◌, ◌*◌, ◌/◌, ◌%◌, Option, none, some, ◌&&◌, ltb, if◌then◌else◌, List, [], ◌∷◌,
  get_elem?,
}

-- `binCount`.
pub record Bins : Type 0 where
  pub nx : ℕ
  pub ny : ℕ
  pub nz : ℕ

-- x, y and z.
abbrev pub Cell : Type 0
Cell = ℕ × ℕ × ℕ

-- The switch over the index: how far the edge's cell is from the given one.
abbrev pub edge_shifts : List Cell
edge_shifts =
    (0, 0, 0)
    ∷ (0, 1, 0)
    ∷ (0, 0, 1)
    ∷ (0, 1, 1)
    ∷ (0, 0, 0)
    ∷ (0, 0, 1)
    ∷ (1, 0, 0)
    ∷ (1, 0, 1)
    ∷ (0, 0, 0)
    ∷ (0, 1, 0)
    ∷ (1, 0, 0)
    ∷ (1, 1, 0)
    ∷ []

abbrev pub no_shift : Option Cell → Cell
no_shift none = (0, 0, 0)
no_shift (some c) = c

abbrev pub edge_shift : ℕ → Cell
edge_shift index = no_shift (get_elem? edge_shifts index)

abbrev pub add_cells : Cell → Cell → Cell
add_cells (x, y, z) (a, b, c) = (x + a, y + b, z + c)

module _ (bins : Bins) where
  -- `z + y*(binCount[2]+1) + x*(binCount[2]+1)*(binCount[1]+1)`
  unfoldable pub cell_index : Cell → ℕ
  cell_index (x, y, z) = z + y * (bins.nz + 1) + x * (bins.nz + 1) * (bins.ny + 1)

  unfoldable pub get_cell_unique_edge_index : Cell → ℕ → ℕ
  unfolding cell_index
  get_cell_unique_edge_index cell index = 12 * cell_index cell + index

  unfoldable pub deprecated_get_edge_unique_index : Cell → ℕ → ℕ
  unfolding cell_index
  deprecated_get_edge_unique_index cell index =
      12 * cell_index (add_cells cell (edge_shift index)) + index

  -- x, y and z by division.
  unfoldable pub split_index : ℕ → Cell
  split_index cell =
      let plane = (bins.nz + 1) * (bins.ny + 1) in
      let x = cell / plane in
      let in_plane = cell - x * plane in
      let y = in_plane / (bins.nz + 1) in (x, y, in_plane - y * (bins.nz + 1))

  -- The cell and the axis; nothing where the assertion fails.
  unfoldable pub get_edge_cell : ℕ → Option (Cell × ℕ)
  get_edge_cell id =
      let axis = id % 12 / 4 in
      let c = split_index (id / 12) in
      if ltb c.0 (bins.nx + 1) && (ltb c.1 (bins.ny + 1) && ltb c.2 (bins.nz + 1))
      then some (c, axis)
      else none
