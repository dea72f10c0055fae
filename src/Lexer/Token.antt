-- ===== src/Lexer/Token.antt =====
-- compiler/lexer.hpp, and lexer.cpp lines 42-66: tokens, and the source range being read.
use ceramic.Prelude.{ℕ, ◌+◌, ◌-◌, ◌%◌, ◌^◌, Option, none, Bytes, length}

pub data TokenKind : Type 0 where
  t_none t_uopstring t_opstring t_symbol t_keyword t_identifier t_opidentifier : TokenKind
  t_string_literal t_char_literal t_int_literal t_float_literal t_static_index : TokenKind
  t_space t_line_comment t_block_comment t_llvm : TokenKind
  t_doc_start t_doc_property t_doc_text t_doc_end : TokenKind

-- `location` is the offset in the source, `none` for a `Location` that is not `ok()`.
pub record Token : Type 0 where
  pub location : Option ℕ
  pub str : Bytes
  pub token_kind : TokenKind

-- `Token(tokenKind, str)`, and `Token(tokenKind)` with the empty text.
abbrev pub token : TokenKind → Bytes → Token
token k s = record { location = none; str = s; token_kind = k }

-- The variables `begin` (with the bytes up to `end`) and `beginOffset` that `initLexer` sets.
pub record Range : Type 0 where
  pub begin : Bytes
  pub begin_offset : ℕ

-- `unsigned(ptr - begin) + beginOffset`, where `ptr` is the bytes left; `unsigned` has 32 bits.
unfoldable pub location_for : Range → Bytes → ℕ
location_for w ptr = ((length w.begin - length ptr) % 2 ^ 32 + w.begin_offset) % 2 ^ 32
