-- ===== src/Syntax.antt =====
-- compiler/ceramic.hpp, lines 534-1470: the syntax tree, but for the caches in its nodes.
pub mod Node
pub mod Tree
pub mod Places
pub mod Clone
pub mod Code
pub mod Tests
