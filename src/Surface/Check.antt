-- ===== src/Surface/Check.antt =====
-- The two tables of src/gl/isoSurface.cpp against the cube they are about.
use depict_isosurfaces.Prelude.{
  ℕ, ◌%◌, ◌≤◌, ◌<◌, ◌≡◌, refl, Bool, true, not, ◌&&◌, List, [], ◌∷◌, ◌==◌, ltb, leb, elem, length,
  &&-true, all_below, all_below_lem, leb→le, ==_iff,
}
use depict_isosurfaces.Surface.Flags.{cube_edge_flags}
use depict_isosurfaces.Surface.Table.{triangle_connection_table}
use depict_isosurfaces.Surface.Cube.{
  nth, row_at, edge_flags, triangle_row, bit, edge_start, edge_end,
}
use depict_isosurfaces.Surface.Bits.{same_bool, same_bool-eq}

-- The ends of the edge `e` are on different sides in the configuration `i`.
abbrev pub differ : ℕ → ℕ → Bool
differ i e = not (same_bool (bit i (edge_start e)) (bit i (edge_end e)))

abbrev edge_ok : ℕ → ℕ → List ℕ → ℕ → Bool
edge_ok i flags row e = same_bool (bit flags e) (differ i e) && same_bool (elem e row) (differ i e)

abbrev pub all_small : List ℕ → Bool
all_small [] = true
all_small (e ∷ es) = ltb e 12 && all_small es

abbrev row_ok : ℕ → ℕ → List ℕ → Bool
row_ok i flags row =
    all_below (edge_ok i flags row) 12
    && (all_small row && ((length row % 3 == 0) && leb (length row) 15))

abbrev table_ok : ℕ → Bool
table_ok i = row_ok i (nth cube_edge_flags i) (row_at triangle_connection_table i)

tables_ok : all_below table_ok 256 ≡ true
tables_ok = refl

-- What the tables hold for the configuration `i`.
pub record IsRow (i flags : ℕ) (row : List ℕ) : Type 0 where
  pub flag : (e : ℕ) → e < 12 → bit flags e ≡ differ i e
  pub in_row : (e : ℕ) → e < 12 → elem e row ≡ differ i e
  pub small : all_small row ≡ true
  pub whole : length row % 3 ≡ 0
  pub short : length row ≤ 15

-- For every configuration the flags are those of the edges whose ends differ, and the row of
-- triangles has these edges and no others.
pub tables-IsRow : (i : ℕ) → i < 256 → IsRow i (edge_flags i) (triangle_row i)
unfolding edge_flags triangle_row
tables-IsRow i h =
    let flags = nth cube_edge_flags i in
    let row = row_at triangle_connection_table i in
    let ok = all_below_lem table_ok 256 i tables_ok h in
    let edges = &&-true (all_below (edge_ok i flags row) 12) _ ok in
    let small = &&-true (all_small row) _ edges.1 in
    let sizes = &&-true (length row % 3 == 0) _ small.1 in
    let edge = λ (e : ℕ) (k : e < 12).
      &&-true (same_bool (bit flags e) (differ i e)) _
        (all_below_lem (edge_ok i flags row) 12 e edges.0 k) in
    record {
      flag = λ e k. same_bool-eq (bit flags e) (differ i e) (edge e k).0;
      in_row = λ e k. same_bool-eq (elem e row) (differ i e) (edge e k).1;
      small = small.0;
      whole = (==_iff (length row % 3) 0).0 sizes.0;
      short = leb→le (length row) 15 sizes.1;
    }
