-- ===== src/Parser.antt =====
-- compiler/parser.cpp: from tokens to the syntax tree.
pub mod State
pub mod Errors
pub mod Terminals
pub mod Exprs
pub mod Spans
pub mod Operators
pub mod Arguments
pub mod Statements
pub mod Grammar
pub mod Outcome
pub mod Total
pub mod Recovers
pub mod Brackets
pub mod Apply
pub mod Tests
