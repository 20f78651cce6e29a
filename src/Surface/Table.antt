-- ===== src/Surface/Table.antt =====
-- `a2iTriangleConnectionTable` of src/gl/isoSurface.cpp.
mod Low
mod High
use depict_isosurfaces.Prelude.{ℕ, List, ◌++◌}
use depict_isosurfaces.Surface.Table.Low.{low_rows}
use depict_isosurfaces.Surface.Table.High.{high_rows}

abbrev pub triangle_connection_table : List (List ℕ)
triangle_connection_table = low_rows ++ high_rows
