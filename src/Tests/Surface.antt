-- ===== src/Tests/Surface.antt =====
-- Cells and surfaces on small grids of voxels, for src/common/voxels.h and src/gl/isoSurface.cpp.
use depict_isosurfaces.Prelude.{
  ℕ, ◌+◌, ◌*◌, length, ◌%◌, ◌<◌, ◌≡◌, refl, Bool, true, ◌&&◌, some, List, [], ◌∷◌, ◌==◌, All, elem,
  arith,
}
use depict_isosurfaces.Surface.Edges.{
  Bins, Cell, cell_index, get_cell_unique_edge_index, deprecated_get_edge_unique_index,
  get_edge_cell,
}
use depict_isosurfaces.Surface.Unique.{
  get_edge_cell-get_cell_unique_edge_index, get_cell_unique_edge_index-lt,
  deprecated_get_edge_unique_index_apart,
}
use depict_isosurfaces.Surface.Cube.{
  Triangle, flag_index, triangle_row, edge_flags, edge_vertex, march_cell, marching_cubes,
}
use depict_isosurfaces.Surface.March.{edge_id, is_crossed, corners, march_cell_lem, IsCrossedId}
use depict_isosurfaces.Surface.Ends.{get_edge_cell-edge_id}
use depict_isosurfaces.Surface.Faces.{x_axis, is_open, face_edges}
use depict_isosurfaces.Surface.Closed.{neighbours_fit, open_on_face, share_face}
use depict_isosurfaces.Surface.Remove.{swap_at, swap_loop, remove_elements, count, count_at}
use depict_isosurfaces.Surface.Removed.{remove_elements_lem}
use depict_isosurfaces.Surface.Grid.{marching_cubes_lem, IsVertex}

abbrev grid : Bins
grid = record { nx = 4; ny = 5; nz = 6 }

-- One voxel is below the value of the surface.
abbrev spot : Cell → Bool
spot (x, y, z) = (x == 1) && ((y == 1) && (z == 1))

get_edge_cell-get_cell_unique_edge_index_example :
    (get_edge_cell grid (get_cell_unique_edge_index grid (1, 2, 3) 7) ≡ some ((1, 2, 3), 1))
    × (get_cell_unique_edge_index grid (1, 2, 3) 7 % 12 ≡ 7)
get_edge_cell-get_cell_unique_edge_index_example =
    get_edge_cell-get_cell_unique_edge_index grid (1, 2, 3) 7
      (omega arith, omega arith, omega arith) (omega arith)

get_cell_unique_edge_index-lt_example :
    get_cell_unique_edge_index grid (4, 5, 6) 11 < 12 * (5 * (7 * 6))
get_cell_unique_edge_index-lt_example =
    get_cell_unique_edge_index-lt grid (4, 5, 6) 11 (omega arith, omega arith, omega arith)
      (omega arith)

deprecated_get_edge_unique_index_apart_example :
    ◌≡◌ {A = Cell} (1, 2, 3) (1, 2, 3) × ◌≡◌ {A = ℕ} 7 7
deprecated_get_edge_unique_index_apart_example =
    deprecated_get_edge_unique_index_apart grid (1, 2, 3) (1, 2, 3) 7 7
      (omega arith, omega arith, omega arith) (omega arith, omega arith, omega arith) (omega arith)
      (omega arith) refl

get_edge_cell-edge_id_example : get_edge_cell grid (edge_id grid (1, 2, 3) 6) ≡ some ((1, 3, 4), 0)
get_edge_cell-edge_id_example =
    get_edge_cell-edge_id grid (1, 2, 3) 6 (omega arith, omega arith, omega arith) (omega arith)

march_cell_lem_example :
    (ts : List Triangle) × (march_cell grid spot (0, 0, 0) ≡ some ts)
    × All (IsCrossedId grid spot (0, 0, 0)) (corners ts)
    × ((e : ℕ)
        → e < 12
        → elem (edge_id grid (0, 0, 0) e) (corners ts) ≡ is_crossed spot (0, 0, 0) e)
march_cell_lem_example = march_cell_lem grid spot (0, 0, 0)

spot_in_cell : march_cell grid spot (0, 0, 0) ≡ some ((599, 99, 523) ∷ [])
unfolding march_cell flag_index triangle_row edge_flags edge_vertex deprecated_get_edge_unique_index
    cell_index
spot_in_cell = refl

marching_cubes_lem_example :
    (ts : List Triangle) × (marching_cubes grid spot ≡ some ts)
    × All (IsVertex grid spot) (corners ts)
marching_cubes_lem_example = marching_cubes_lem grid spot

neighbours_fit_example :
    All
      (λ e.
        All
          (λ f.
            is_open (triangle_row (flag_index spot (0, 0, 0))) e.0 f.0
            ≡ is_open (triangle_row (flag_index spot (1, 0, 0))) f.1 e.1)
          (face_edges x_axis))
      (face_edges x_axis)
neighbours_fit_example = neighbours_fit spot (0, 0, 0) x_axis

spot_side : is_open (triangle_row (flag_index spot (0, 0, 0))) 10 6 ≡ true
unfolding triangle_row flag_index
spot_side = refl

open_on_face_example : share_face 10 6 ≡ true
open_on_face_example = open_on_face spot (0, 0, 0) 10 6 (omega arith) (omega arith) spot_side

abbrev four_numbers : List ℕ
four_numbers = 10 ∷ 11 ∷ 12 ∷ 13 ∷ []

-- Two of four numbers are taken out; the first that is left comes from the end.
remove_elements_run : remove_elements (0 ∷ 2 ∷ []) four_numbers ≡ 13 ∷ 11 ∷ []
unfolding remove_elements swap_loop swap_at
remove_elements_run = refl

-- The positions 0 and 3 in falling order leave the 13 of position 3, and take out the 12.
remove_elements_unsorted : remove_elements (3 ∷ 0 ∷ []) four_numbers ≡ 13 ∷ 11 ∷ []
unfolding remove_elements swap_loop swap_at
remove_elements_unsorted = refl

remove_elements_lem_example :
    let left = remove_elements (0 ∷ 2 ∷ []) four_numbers in
    (count (λ x. x == 12) left + count_at (λ x. x == 12) (0 ∷ 2 ∷ []) four_numbers
      ≡ count (λ x. x == 12) four_numbers)
    × (length left + 2 ≡ 4)
remove_elements_lem_example =
    remove_elements_lem (λ x. x == 12) (0 ∷ 2 ∷ []) four_numbers
      (omega arith, (omega arith, omega arith))
