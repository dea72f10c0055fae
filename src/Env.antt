-- ===== src/Env.antt =====
-- compiler/env.cpp: names, scopes, and the symbols that modules import from one another.
pub mod EditDistance
pub mod Module
pub mod Symbols
pub mod Lookup
pub mod Scope
pub mod Tests
