-- ===== src/Lexer/Progress.antt =====
-- The scanners of compiler/lexer.cpp move forward: what they leave is a suffix of their input.
mod Words
mod Comments
pub use Words.*
pub use Comments.*
