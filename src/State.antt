-- ===== src/State.antt =====
-- src/backend/state.cpp: the state of an analysis.
pub mod Undo
pub mod Limits
pub mod FilterMap
pub mod Stashes
pub mod Merge
