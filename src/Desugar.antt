-- ===== src/Desugar.antt =====
-- compiler/desugar.cpp: syntax that stands for other syntax.
pub mod Build
pub mod Exprs
pub mod Statements
pub mod Overloads
pub mod Branches
pub mod Rethrow
pub mod Modules
pub mod Chars
pub mod Tests
