-- ===== src/Patterns.antt =====
-- compiler/patterns.cpp and compiler/matchinvoke.cpp: patterns of static values and their unification.
pub mod Objects
pub mod Construct
pub mod Deref
pub mod Plain
pub mod Trips
pub mod Compound
pub mod RoundTrip
pub mod Unify
pub mod Cells
pub mod Match
pub mod Tests
