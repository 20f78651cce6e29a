-- ===== src/Filter.antt =====
-- The base class of filters: src/backend/filter.cpp and src/backend/filter.h.
pub mod Keys
pub mod Props
pub mod Consistent
pub mod Lookup
