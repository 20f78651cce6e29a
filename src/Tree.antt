-- ===== src/Tree.antt =====
-- The tree of filters: src/backend/filtertree.cpp.
pub mod Order
pub mod Caches
pub mod Cleared
pub mod Collector
pub mod Owned
pub mod Masks
pub mod Blocks
pub mod Starts
pub mod Seeds
pub mod Outputs
pub mod Refresh
pub mod Flow
pub mod Calls
pub mod Bases
pub mod Hazards
pub mod Xml
pub mod Load
pub mod Reload
pub mod Paths
