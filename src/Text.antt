-- ===== src/Text.antt =====
-- src/common/stringFuncs.cpp. A string is the list of its characters' codes; a `const char *` is
-- the list of those before its terminator.
pub mod Split
pub mod Decimal
pub mod Strip
pub mod Hex
pub mod Find
pub mod Choice
pub mod Digits
pub mod Paths
pub mod Letters
pub mod Version
