-- ===== src/Surface.antt =====
-- Isosurfaces of voxel data: src/gl/isoSurface.cpp and the edges of src/common/voxels.h.
pub mod Edges
pub mod Unique
pub mod Flags
pub mod Table
pub mod Cube
pub mod Bits
pub mod Check
pub mod March
pub mod Ends
pub mod Faces
pub mod Closed
pub mod Grid
pub mod Remove
pub mod Removed
