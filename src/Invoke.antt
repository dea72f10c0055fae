-- ===== src/Invoke.antt =====
-- compiler/matchinvoke.cpp: whether an overload takes a call.
pub mod Overload
pub mod Arguments
pub mod Reset
pub mod Tests
