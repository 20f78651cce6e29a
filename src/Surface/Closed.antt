-- ===== src/Surface/Closed.antt =====
-- The triangles of neighbouring cells in `marchingCubes` of src/gl/isoSurface.cpp fit together.
use depict_isosurfaces.Prelude.{
  ℕ, ◌<◌, ◌≡◌, refl, sym, ap, ◌∙◌, Bool, true, not, ◌&&◌, ◌||◌, elem, all_below, all_below_lem,
  List, [], ◌∷◌, ltb, ltb→lt, All, arith, &&-true,
}
use depict_isosurfaces.Surface.Edges.{Cell, add_cells}
use depict_isosurfaces.Surface.Cube.{row_at, bit, vertex_offset, triangle_row, flag_index}
use depict_isosurfaces.Surface.Table.{triangle_connection_table}
use depict_isosurfaces.Surface.Bits.{bit-flag_index, flag_index-lt}
use depict_isosurfaces.Surface.Ends.{same_cell, same_cell-eq}
use depict_isosurfaces.Surface.Faces.{
  Axis, x_axis, y_axis, z_axis, unit, face_vertices, face_edges, is_open, upper_part, lower_part,
  all_of, rows_agree,
}

-- A vertex of the upper face is the one below it in the next cube.
abbrev vertex_ok : Axis → ℕ × ℕ → Bool
vertex_ok axis v =
    same_cell (add_cells (unit axis) (vertex_offset v.1)) (vertex_offset v.0)
    && (ltb v.0 8 && ltb v.1 8)

vertices_ok : (axis : Axis) → all_of (vertex_ok axis) (face_vertices axis) ≡ true
vertices_ok x_axis = refl
vertices_ok y_axis = refl
vertices_ok z_axis = refl

add_cells_assoc : (c d e : Cell) → add_cells (add_cells c d) e ≡ add_cells c (add_cells d e)
add_cells_assoc (x, y, z) (u, v, w) (p, q, r) =
    same_cell-eq (add_cells (add_cells (x, y, z) (u, v, w)) (p, q, r))
      (add_cells (x, y, z) (add_cells (u, v, w) (p, q, r))) (ground arith)

module _ (below : Cell → Bool) (cell : Cell) (axis : Axis) where
  abbrev following : Cell
  following = add_cells cell (unit axis)

  same_vertex :
      (v : ℕ × ℕ)
      → vertex_ok axis v ≡ true
      → bit (flag_index below cell) v.0 ≡ bit (flag_index below following) v.1
  same_vertex v h =
      let place = same_cell (add_cells (unit axis) (vertex_offset v.1)) (vertex_offset v.0) in
      let parts = &&-true place _ h in
      let small = &&-true (ltb v.0 8) (ltb v.1 8) parts.1 in
      let at =
        same_cell-eq (add_cells (unit axis) (vertex_offset v.1)) (vertex_offset v.0) parts.0 in
      bit-flag_index below cell v.0 (ltb→lt v.0 8 small.0)
      ∙ ap (λ (c : Cell). below (add_cells cell c)) (sym at)
      ∙ sym (ap below (add_cells_assoc cell (unit axis) (vertex_offset v.1)))
      ∙ sym (bit-flag_index below following v.1 (ltb→lt v.1 8 small.1))

  parts_same :
      (vs : List (ℕ × ℕ))
      → all_of (vertex_ok axis) vs ≡ true
      → upper_part (flag_index below cell) vs ≡ lower_part (flag_index below following) vs
  parts_same [] h = refl
  parts_same ((u, l) ∷ vs) h =
      let parts = &&-true (vertex_ok axis (u, l)) (all_of (vertex_ok axis) vs) h in
      rw (same_vertex (u, l) parts.0, parts_same vs parts.1)

  -- On the face between two neighbouring cells the triangles of the one fit those of the other: a side
  -- between two edges of the face is left open by the triangles of one cell exactly if its reverse
  -- is left open by those of the other, for every field of voxels and along each axis.
  pub neighbours_fit :
      let row = triangle_row (flag_index below cell) in
      let next_row = triangle_row (flag_index below (add_cells cell (unit axis))) in
      All
        (λ e. All (λ f. is_open row e.0 f.0 ≡ is_open next_row f.1 e.1) (face_edges axis))
        (face_edges axis)
  neighbours_fit =
      rows_agree axis (flag_index below cell) (flag_index below following)
        (flag_index-lt below cell) (flag_index-lt below following)
        (parts_same (face_vertices axis) (vertices_ok axis))

-- Both edges are on one of the six faces of the cube.
abbrev uppers : List (ℕ × ℕ) → List ℕ
uppers [] = []
uppers (e ∷ es) = e.0 ∷ uppers es

abbrev lowers : List (ℕ × ℕ) → List ℕ
lowers [] = []
lowers (e ∷ es) = e.1 ∷ lowers es

abbrev on_faces : Axis → ℕ → ℕ → Bool
on_faces axis a b =
    (elem a (uppers (face_edges axis)) && elem b (uppers (face_edges axis)))
    || (elem a (lowers (face_edges axis)) && elem b (lowers (face_edges axis)))

abbrev pub share_face : ℕ → ℕ → Bool
share_face a b = on_faces x_axis a b || (on_faces y_axis a b || on_faces z_axis a b)

abbrev side_ok : ℕ → ℕ → ℕ → Bool
side_ok i a b = not (is_open (row_at triangle_connection_table i) a b) || share_face a b

abbrev inside_ok : ℕ → Bool
inside_ok i = all_below (λ a. all_below (side_ok i a) 12) 12

inside_all : all_below inside_ok 256 ≡ true
inside_all = refl

-- Inside a cell the triangles leave no side open: a side whose reverse no other triangle of the cell
-- has is between two edges of one face of the cell, for every field of voxels.
pub open_on_face :
    (below : Cell → Bool) (cell : Cell) (a b : ℕ)
    → a < 12
    → b < 12
    → is_open (triangle_row (flag_index below cell)) a b ≡ true
    → share_face a b ≡ true
unfolding triangle_row
open_on_face below cell a b h k open_side =
    let i = flag_index below cell in
    let in_cell = all_below_lem inside_ok 256 i inside_all (flag_index-lt below cell) in
    let from_a = all_below_lem (λ a. all_below (side_ok i a) 12) 12 a in_cell h in
    use_open (is_open (row_at triangle_connection_table i) a b) (share_face a b) open_side
      (all_below_lem (side_ok i a) 12 b from_a k)
  where
    use_open : (o s : Bool) → o ≡ true → (not o || s) ≡ true → s ≡ true
    use_open o s p q = ground arith
