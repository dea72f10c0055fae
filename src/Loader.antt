-- ===== src/Loader.antt =====
-- compiler/loader.cpp, lines 166-181 and 741-838: modules are initialised behind those they import.
pub mod Init
pub mod After
pub mod Order
pub mod Closure
pub mod Tests
