-- ===== src/Surface/Cube.antt =====
-- One cube of `marchingCubes` of src/gl/isoSurface.cpp. The comparison of a voxel with the value of
-- the surface, `getData(...) <= isoValue`, is a parameter.
use depict_isosurfaces.Prelude.{
  ℕ, zero, suc, ◌+◌, ◌-◌, ◌/◌, ◌%◌, ◌^◌, Bool, ◌||◌, Option, none, some, List, [], ◌∷◌, ◌++◌, ◌==◌,
  if◌then◌else◌, ◌>>=◌,
}
use depict_isosurfaces.Surface.Edges.{Bins, Cell, add_cells, deprecated_get_edge_unique_index}
use depict_isosurfaces.Surface.Flags.{cube_edge_flags}
use depict_isosurfaces.Surface.Table.{triangle_connection_table}

-- An access of an array; the ones below stay inside.
abbrev pub nth : List ℕ → ℕ → ℕ
nth [] i = 0
nth (x ∷ xs) zero = x
nth (x ∷ xs) (suc i) = nth xs i

abbrev pub row_at : List (List ℕ) → ℕ → List ℕ
row_at [] i = []
row_at (r ∷ rs) zero = r
row_at (r ∷ rs) (suc i) = row_at rs i

abbrev cell_at : List Cell → ℕ → Cell
cell_at [] i = (0, 0, 0)
cell_at (c ∷ cs) zero = c
cell_at (c ∷ cs) (suc i) = cell_at cs i

-- `VERTEX_OFFSET`.
abbrev pub vertex_offset : ℕ → Cell
vertex_offset v =
    cell_at
      ((0, 0, 0)
        ∷ (1, 0, 0)
        ∷ (1, 1, 0)
        ∷ (0, 1, 0)
        ∷ (0, 0, 1)
        ∷ (1, 0, 1)
        ∷ (1, 1, 1)
        ∷ (0, 1, 1)
        ∷ [])
      v

-- `a2iEdgeConnection`: the two ends of each edge.
abbrev pub edge_starts : List ℕ
edge_starts = 0 ∷ 1 ∷ 2 ∷ 3 ∷ 4 ∷ 5 ∷ 6 ∷ 7 ∷ 0 ∷ 1 ∷ 2 ∷ 3 ∷ []

abbrev pub edge_start : ℕ → ℕ
edge_start e = nth edge_starts e

abbrev pub edge_ends : List ℕ
edge_ends = 1 ∷ 2 ∷ 3 ∷ 0 ∷ 5 ∷ 6 ∷ 7 ∷ 4 ∷ 4 ∷ 5 ∷ 6 ∷ 7 ∷ []

abbrev pub edge_end : ℕ → ℕ
edge_end e = nth edge_ends e

-- `edgeRemap`.
abbrev pub edge_remaps : List ℕ
edge_remaps = 0 ∷ 6 ∷ 1 ∷ 4 ∷ 2 ∷ 7 ∷ 3 ∷ 5 ∷ 8 ∷ 10 ∷ 11 ∷ 9 ∷ []

abbrev pub edge_remap : ℕ → ℕ
edge_remap e = nth edge_remaps e

-- `aiCubeEdgeFlags[index]` and `a2iTriangleConnectionTable[index]`.
unfoldable pub edge_flags : ℕ → ℕ
edge_flags index = nth cube_edge_flags index

unfoldable pub triangle_row : ℕ → List ℕ
triangle_row index = row_at triangle_connection_table index

-- `n & (1 << i)`
abbrev pub bit : ℕ → ℕ → Bool
bit n i = n / 2 ^ i % 2 == 1

abbrev pub Triangle : Type 0
Triangle = ℕ × ℕ × ℕ

module _ (below : Cell → Bool) where
  abbrev pub is_below : Cell → ℕ → Bool
  is_below cell v = below (add_cells cell (vertex_offset v))

  -- `if(f <= isoValue) iFlagIndex |= 1<<iVertexTest;` for the vertices from `v` on, whose bits are
  -- not set before.
  abbrev flag_bits : Cell → ℕ → ℕ → ℕ
  flag_bits cell zero v = 0
  flag_bits cell (suc n) v =
      let rest = flag_bits cell n (suc v) in if is_below cell v then 2 ^ v + rest else rest

  unfoldable pub flag_index : Cell → ℕ
  flag_index cell = flag_bits cell 8 0

-- The triangles of a row of the table, at most `n`; none where an edge has not been set.
abbrev pub row_triangles : (ℕ → Option ℕ) → ℕ → List ℕ → Option (List Triangle)
row_triangles vertex (suc n) (a ∷ b ∷ c ∷ rest) =
    let others = row_triangles vertex n rest in
    do p ← vertex a; q ← vertex b; r ← vertex c; ts ← others; some ((p, q, r) ∷ ts)
row_triangles vertex n row = some []

module _ (bins : Bins) (below : Cell → Bool) where
  -- `asEdgeVertex[iEdge]`, which is set only where the flag of the edge is.
  unfoldable pub edge_vertex : Cell → ℕ → ℕ → Option ℕ
  edge_vertex cell flags e =
      if bit flags e then some (deprecated_get_edge_unique_index bins cell (edge_remap e)) else none

  -- What the loop over the cells adds for one.
  unfoldable pub march_cell : Cell → Option (List Triangle)
  march_cell cell =
      let index = flag_index below cell in
      let flags = edge_flags index in
      let found = row_triangles (edge_vertex cell flags) 5 (triangle_row index) in
      if flags == 0 then some [] else found

-- A loop that collects triangles, from `i` on.
abbrev pub collect : ℕ → ℕ → (ℕ → Option (List Triangle)) → Option (List Triangle)
collect zero i f = some []
collect (suc n) i f = let others = collect n (suc i) f in do ts ← f i; us ← others; some (ts ++ us)

-- The loops over the cells, in the order of one thread.
unfoldable pub marching_cubes : Bins → (Cell → Bool) → Option (List Triangle)
marching_cubes bins below =
    if (bins.nx == 1) || ((bins.ny == 1) || (bins.nz == 1))
    then some []
    else collect (bins.nx - 1) 0 (λ x.
      collect (bins.ny - 1) 0 (λ y. collect (bins.nz - 1) 0 (λ z. march_cell bins below (x, y, z))))
