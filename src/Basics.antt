-- ===== src/Basics.antt =====
-- src/common/basics.h and basics.cpp: helpers over vectors and numbers that other parts call.
pub mod Ranges
pub mod Sort
pub mod Erase
pub mod Ids
pub mod IdMoves
pub mod Select
pub mod Selected
pub mod Vacancies
pub mod Misread
