-- ===== src/Tree/Reload.antt =====
-- Loading what was saved: `FilterTree::saveXML` and `loadXML` of src/backend/filtertree.cpp.
pub mod Spaced
pub mod Open
pub mod Steps
pub mod Roots
pub mod Saved
pub mod RoundTrip
pub mod Whole
pub mod Fuel
