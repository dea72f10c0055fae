-- ===== src/Literals.antt =====
-- compiler/literals.cpp: the values of number literals.
pub mod Text
pub mod Integers
pub mod Suffixes
pub mod Int128
pub mod Floats
pub mod Tests
