-- ===== src/Lexer/Kinds.antt =====
-- compiler/lexer.cpp: the kinds of the tokens that each scanner makes, and their locations.
use ceramic.Prelude.{◌≡◌, refl, Bool, true, false, none, List, [], ◌∷◌, Bytes, if◌then◌else◌}
use ceramic.Lexer.Scan.{◌>>◌, pure, str}
use ceramic.Lexer.Scan.Progress.{failed, After-elim, Tail-str}
use ceramic.Lexer.Yields.{Yields, Yields-pure, Yields-<|>, Yields->>=, Yields->>}
use ceramic.Lexer.Token.{
  Token, TokenKind, token, t_uopstring, t_opstring, t_symbol, t_keyword, t_identifier,
  t_opidentifier, t_string_literal, t_char_literal, t_int_literal, t_float_literal, t_static_index,
  t_space, t_line_comment, t_block_comment, t_doc_start,
}
use ceramic.Lexer.Names.{keyword_identifier, symbol_of, symbols, symbol, op, op_identifier}
use ceramic.Lexer.Literals.{
  char_token, single_quote_string, triple_quote_body, string_token, int_token, float_token,
  static_index,
}
use ceramic.Lexer.Skips.{space, line_comment, block_comment}

-- The kinds that `nextToken` makes, but for `t_llvm`.
abbrev pub plain_kind : TokenKind → Bool
plain_kind t_uopstring = true
plain_kind t_opstring = true
plain_kind t_symbol = true
plain_kind t_keyword = true
plain_kind t_identifier = true
plain_kind t_opidentifier = true
plain_kind t_string_literal = true
plain_kind t_char_literal = true
plain_kind t_int_literal = true
plain_kind t_float_literal = true
plain_kind t_static_index = true
plain_kind t_space = true
plain_kind t_line_comment = true
plain_kind t_block_comment = true
plain_kind t_doc_start = true
plain_kind _ = false

abbrev pub IsPlain : Token → Type 0
IsPlain x = (x.location ≡ none) × (plain_kind x.token_kind ≡ true)

token-IsPlain : (k : TokenKind) (s : Bytes) → plain_kind k ≡ true → IsPlain (token k s)
token-IsPlain k s h = (refl, h)

ruleset plain = (Yields-pure, Yields-<|>, Yields->>=, Yields->>, token-IsPlain, refl)

keyword_kind : (b : Bool) → plain_kind (if b then t_keyword else t_identifier) ≡ true
keyword_kind true = refl
keyword_kind false = refl

pub keyword_identifier-IsPlain : Yields IsPlain keyword_identifier
unfolding keyword_identifier
keyword_identifier-IsPlain = search (plain, keyword_kind)

pub op-IsPlain : Yields IsPlain op
unfolding op
op-IsPlain = search plain

pub op_identifier-IsPlain : Yields IsPlain op_identifier
unfolding op_identifier
op_identifier-IsPlain = search plain depth 9

symbol_of-IsPlain : (ws : List Bytes) → Yields IsPlain (symbol_of ws)
unfolding symbol_of
symbol_of-IsPlain [] s = failed
symbol_of-IsPlain (w ∷ ws) s =
    Yields-<|> (str w >> pure (token t_symbol w)) (symbol_of ws) (search plain)
      (symbol_of-IsPlain ws) s

pub symbol-IsPlain : Yields IsPlain symbol
unfolding symbol
symbol-IsPlain = symbol_of-IsPlain symbols

pub char_token-IsPlain : Yields IsPlain char_token
unfolding char_token
char_token-IsPlain = search plain depth 9

pub single_quote_string-IsPlain : Yields IsPlain single_quote_string
unfolding single_quote_string
single_quote_string-IsPlain = search plain depth 9

pub triple_quote_body-IsPlain : Yields IsPlain triple_quote_body
unfolding triple_quote_body
triple_quote_body-IsPlain = search plain depth 9

pub string_token-IsPlain : Yields IsPlain string_token
unfolding string_token
string_token-IsPlain s =
    After-elim (str (34 ∷ 34 ∷ 34 ∷ []) s) _ (λ _. triple_quote_body) (Tail-str _ s)
      (single_quote_string-IsPlain s) (λ _ r _. triple_quote_body-IsPlain r)

pub int_token-IsPlain : Yields IsPlain int_token
unfolding int_token
int_token-IsPlain = search plain depth 9

pub float_token-IsPlain : Yields IsPlain float_token
unfolding float_token
float_token-IsPlain = search plain depth 9

pub static_index-IsPlain : Yields IsPlain static_index
unfolding static_index
static_index-IsPlain = search plain depth 9

pub space-IsPlain : Yields IsPlain space
unfolding space
space-IsPlain = search plain depth 9

pub line_comment-IsPlain : Yields IsPlain line_comment
unfolding line_comment
line_comment-IsPlain = search plain depth 9

pub block_comment-IsPlain : Yields IsPlain block_comment
unfolding block_comment
block_comment-IsPlain = search plain depth 9
