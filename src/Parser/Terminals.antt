-- ===== src/Parser/Terminals.antt =====
-- compiler/parser.cpp, lines 348-494: symbols, keywords, operators and names.
use ceramic.Prelude.{
  ℕ, zero, suc, Bool, true, false, ◌&&◌, none, some, List, [], ◌∷◌, Bytes, codes, length, bytes_eq,
  if◌then◌else◌,
}
use ceramic.Lexer.Token.{
  Token, TokenKind, t_uopstring, t_opstring, t_symbol, t_keyword, t_identifier, t_opidentifier,
  t_string_literal, t_char_literal, t_int_literal, t_float_literal, t_static_index,
}
use ceramic.Parser.State.{
  Parser, parsed, failed, out_of_fuel, ◌>>=◌, ◌>>◌, pure, bind, attempt, advance, record_expected,
  opt_symbol, at_location, many,
}
use ceramic.Syntax.Node.{Identifier, Location}

abbrev pub is_symbol : TokenKind → Bool
is_symbol t_symbol = true
is_symbol k = false

abbrev pub is_keyword : TokenKind → Bool
is_keyword t_keyword = true
is_keyword k = false

abbrev pub is_opstring : TokenKind → Bool
is_opstring t_opstring = true
is_opstring k = false

abbrev pub is_uopstring : TokenKind → Bool
is_uopstring t_uopstring = true
is_uopstring k = false

abbrev pub is_name : TokenKind → Bool
is_name t_identifier = true
is_name t_opidentifier = true
is_name k = false

abbrev pub is_identifier : TokenKind → Bool
is_identifier t_identifier = true
is_identifier k = false

abbrev pub is_operator_name : TokenKind → Bool
is_operator_name t_opidentifier = true
is_operator_name k = false

abbrev pub is_int : TokenKind → Bool
is_int t_int_literal = true
is_int k = false

abbrev pub is_float : TokenKind → Bool
is_float t_float_literal = true
is_float k = false

abbrev pub is_char : TokenKind → Bool
is_char t_char_literal = true
is_char k = false

abbrev pub is_string : TokenKind → Bool
is_string t_string_literal = true
is_string k = false

abbrev pub is_static_index : TokenKind → Bool
is_static_index t_static_index = true
is_static_index k = false

-- `unsigned p = position; if (!next(t) || !test) { recordExpected(p, what); return false; }`
unfoldable pub terminal : (Token → Bool) → Bytes → Parser Token
terminal test what st = elim st.rest [
  | [] ↦ failed (record_expected st.position what st)
  | t ∷ ts ↦
      let st' = advance ts st in
      if test t then parsed t st' else failed (record_expected st.position what st')
]

-- The same where nothing is recorded.
unfoldable pub token_of : (TokenKind → Bool) → Parser Token
token_of test st = elim st.rest [
  | [] ↦ failed st
  | t ∷ ts ↦ if test t.token_kind then parsed t (advance ts st) else failed (advance ts st)
]

unfoldable pub opstring : Parser Bytes
opstring = terminal (λ t. is_opstring t.token_kind) (codes "operator") >>= λ t. pure t.str

unfoldable pub uopstring : Parser Bytes
uopstring = terminal (λ t. is_uopstring t.token_kind) (codes "operator") >>= λ t. pure t.str

unfoldable pub opsymbol : Bytes → Parser Token
opsymbol s = terminal (λ t. is_opstring t.token_kind && bytes_eq t.str s) s

unfoldable pub symbol : Bytes → Parser Token
symbol s = terminal (λ t. is_symbol t.token_kind && bytes_eq t.str s) s

unfoldable pub keyword : Bytes → Parser Token
keyword s = terminal (λ t. is_keyword t.token_kind && bytes_eq t.str s) s

unfoldable pub ellipsis : Parser Token
ellipsis = symbol (codes "..")

-- `Identifier::get`, whose third argument is for an operator.
unfoldable pub identifier : Parser Identifier
identifier = at_location λ l. terminal (λ t. is_name t.token_kind) (codes "identifier") >>= λ t.
    pure (record { str = t.str; is_operator = is_operator_name t.token_kind; location = l })

-- After an item: a comma and the next item; a comma after the last one is read.
unfoldable pub comma_rounds : {A : Type 0} → ℕ → Parser A → Parser (List A)
comma_rounds zero m st = out_of_fuel
comma_rounds (suc f) m st =
    let more = comma_rounds f m in
    bind (attempt (symbol (codes ",")) st) λ c. elim c [
      | none ↦ pure []
      | some t ↦
          attempt m >>= λ r. elim r [ none ↦ pure [] | some a ↦ more >>= λ as'. pure (a ∷ as') ]
    ]

unfoldable pub after_commas : {A : Type 0} → Parser A → Parser (List A)
after_commas m st = comma_rounds (suc (length st.rest)) m st

unfoldable pub comma_list : {A : Type 0} → Parser A → Parser (List A)
comma_list m = m >>= λ a. after_commas m >>= λ as'. pure (a ∷ as')

-- The same, but a comma is read only with an item after it.
unfoldable pub list_no_tail : {A : Type 0} → Parser A → Parser (List A)
list_no_tail m = m >>= λ a. many (symbol (codes ",") >> m) >>= λ as'. pure (a ∷ as')

unfoldable pub identifier_list : Parser (List Identifier)
identifier_list = comma_list identifier

unfoldable pub identifier_list_no_tail : Parser (List Identifier)
identifier_list_no_tail = list_no_tail identifier

-- `DottedName`: its location and its parts.
unfoldable pub dotted_name : Parser (Location × List Identifier)
dotted_name = at_location λ l. identifier >>= λ x.
    many (opt_symbol (symbol (codes ".") >> identifier)) >>= λ xs. pure (l, x ∷ xs)
