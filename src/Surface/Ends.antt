-- ===== src/Surface/Ends.antt =====
-- `edgeRemap` of src/gl/isoSurface.cpp between the edges of a cube there and those of
-- src/common/voxels.h.
use depict_isosurfaces.Prelude.{
  ℕ, ◌/◌, ◌<◌, ◌≡◌, refl, ap, ◌∙◌, min, Bool, true, not, ◌&&◌, some, ◌==◌, if◌then◌else◌, arith,
  all_below_lem, &&-true, ==_iff, ap₂,
}
use depict_isosurfaces.Surface.Edges.{Bins, Cell, add_cells, edge_shift, get_edge_cell}
use depict_isosurfaces.Surface.Unique.{IsCell, get_edge_cell-deprecated}
use depict_isosurfaces.Surface.Cube.{vertex_offset, edge_start, edge_end, edge_remap}
use depict_isosurfaces.Surface.March.{edge_id, edge_remap-lt}

-- The end of an edge of the cube that is lower along its axis.
abbrev pub lower_end : ℕ → Cell
lower_end e =
    let (x, y, z) = vertex_offset (edge_start e) in
    let (u, v, w) = vertex_offset (edge_end e) in (min x u, min y v, min z w)

-- The axis along which the ends of the edge differ.
abbrev pub axis_of : ℕ → ℕ
axis_of e =
    let (x, y, z) = vertex_offset (edge_start e) in
    let (u, v, w) = vertex_offset (edge_end e) in
    if not (x == u) then 0 else if not (y == v) then 1 else 2

abbrev pub same_cell : Cell → Cell → Bool
same_cell (x, y, z) (u, v, w) = (x == u) && ((y == v) && (z == w))

pub same_cell-eq : (c d : Cell) → same_cell c d ≡ true → c ≡ d
same_cell-eq (x, y, z) (u, v, w) h = rw (x_eq, y_eq, z_eq)
  where
    x_eq : x ≡ u
    x_eq = ground (arith, h)

    y_eq : y ≡ v
    y_eq = ground (arith, h)

    z_eq : z ≡ w
    z_eq = ground (arith, h)

abbrev ends_ok : ℕ → Bool
ends_ok e = same_cell (edge_shift (edge_remap e)) (lower_end e) && (edge_remap e / 4 == axis_of e)

-- The number that `marchingCubes` keeps for an edge of a cell leads back to the lower of its two
-- ends and to the axis along which they differ.
pub get_edge_cell-edge_id :
    (bins : Bins) (cell : Cell) (e : ℕ)
    → IsCell bins cell
    → e < 12
    → get_edge_cell bins (edge_id bins cell e) ≡ some (add_cells cell (lower_end e), axis_of e)
get_edge_cell-edge_id bins cell e h k =
    let ok =
      &&-true (same_cell (edge_shift (edge_remap e)) (lower_end e)) _
        (all_below_lem ends_ok 12 e refl k) in
    get_edge_cell-deprecated bins cell (edge_remap e) h (edge_remap-lt e)
    ∙ ap (λ (c : Cell × ℕ). some c)
        (pair_eq (same_cell-eq (edge_shift (edge_remap e)) (lower_end e) ok.0)
          ((==_iff (edge_remap e / 4) (axis_of e)).0 ok.1))
  where
    pair_eq :
        edge_shift (edge_remap e) ≡ lower_end e
        → edge_remap e / 4 ≡ axis_of e
        → ◌≡◌ {A = Cell × ℕ}
            (add_cells cell (edge_shift (edge_remap e)), edge_remap e / 4)
            (add_cells cell (lower_end e), axis_of e)
    pair_eq p q = ap₂ (λ (c : Cell) (a : ℕ). (add_cells cell c, a)) p q
