-- ===== src/Lexer.antt =====
-- compiler/lexer.cpp
pub mod Scan
pub mod Token
pub mod Names
pub mod Literals
pub mod Skips
pub mod Doc
pub mod Tokenize
pub mod Progress
pub mod Yields
pub mod Kinds
pub mod Llvm
pub mod Heads
pub mod Identifiers
pub mod Strings
pub mod Tests
