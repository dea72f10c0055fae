-- ===== src/Lexer/Names.antt =====
-- compiler/lexer.cpp, lines 92-249: keywords, identifiers, symbols and operators.
use ceramic.Prelude.{
  ℕ, Bool, ◌&&◌, ◌||◌, Option, List, [], ◌∷◌, Bytes, codes, contains, contains_char, leb, ◌==◌,
  if◌then◌else◌,
}
use ceramic.Lexer.Scan.{Scan, ◌>>=◌, ◌>>◌, ◌<|>◌, pure, satisfy, char, str, many}
use ceramic.Lexer.Token.{
  Token, token, t_keyword, t_identifier, t_symbol, t_opstring, t_uopstring, t_opidentifier,
}

abbrev pub within : ℕ → ℕ → ℕ → Bool
within lo hi c = leb lo c && leb c hi

unfoldable pub ident_char1 : ℕ → Bool
ident_char1 x = within b'a' b'z' x || within b'A' b'Z' x || x == b'_' || x == b'?'

unfoldable pub ident_char2 : ℕ → Bool
ident_char2 x =
    within b'a' b'z' x || within b'A' b'Z' x || within b'0' b'9' x || x == b'_' || x == b'?'

unfoldable pub ident_str : Scan Bytes
ident_str = do c ← satisfy ident_char1; cs ← many (satisfy ident_char2); pure (c ∷ cs)

abbrev pub keywords : List Bytes
keywords =
    codes "public"
    ∷ codes "private"
    ∷ codes "import"
    ∷ codes "as"
    ∷ codes "record"
    ∷ codes "variant"
    ∷ codes "instance"
    ∷ codes "define"
    ∷ codes "overload"
    ∷ codes "default"
    ∷ codes "external"
    ∷ codes "alias"
    ∷ codes "rvalue"
    ∷ codes "ref"
    ∷ codes "forward"
    ∷ codes "inline"
    ∷ codes "noinline"
    ∷ codes "forceinline"
    ∷ codes "enum"
    ∷ codes "var"
    ∷ codes "and"
    ∷ codes "or"
    ∷ codes "not"
    ∷ codes "if"
    ∷ codes "else"
    ∷ codes "goto"
    ∷ codes "return"
    ∷ codes "while"
    ∷ codes "switch"
    ∷ codes "case"
    ∷ codes "break"
    ∷ codes "continue"
    ∷ codes "for"
    ∷ codes "in"
    ∷ codes "true"
    ∷ codes "false"
    ∷ codes "try"
    ∷ codes "catch"
    ∷ codes "throw"
    ∷ codes "finally"
    ∷ codes "onerror"
    ∷ codes "staticassert"
    ∷ codes "eval"
    ∷ codes "when"
    ∷ codes "newtype"
    ∷ codes "__FILE__"
    ∷ codes "__LINE__"
    ∷ codes "__COLUMN__"
    ∷ codes "__ARG__"
    ∷ []

unfoldable pub is_keyword : Bytes → Bool
is_keyword = contains keywords

unfoldable pub keyword_identifier : Scan Token
keyword_identifier = do
  name ← ident_str
  pure (token (if is_keyword name then t_keyword else t_identifier) name)

-- In the order in which they are tried.
abbrev pub symbols : List Bytes
symbols =
    codes ".."
    ∷ codes "::"
    ∷ codes "^"
    ∷ codes "@"
    ∷ codes "("
    ∷ codes ")"
    ∷ codes "["
    ∷ codes "]"
    ∷ codes "{"
    ∷ codes "}"
    ∷ codes ":"
    ∷ codes ";"
    ∷ codes ","
    ∷ codes "."
    ∷ codes "#"
    ∷ []

unfoldable pub symbol_of : List Bytes → Scan Token
symbol_of [] s = Option.none
symbol_of (w ∷ ws) s = ((str w >> pure (token t_symbol w)) <|> symbol_of ws) s

unfoldable pub symbol : Scan Token
symbol = symbol_of symbols

abbrev pub opchars : Bytes
opchars = codes "=!<>+-*/\\%~|&"

unfoldable pub opchar : ℕ → Bool
opchar c = contains_char opchars c

-- At least one operator byte; the loop keeps the position behind the last one.
unfoldable pub opstring : Scan Bytes
opstring = do c ← satisfy opchar; cs ← many (satisfy opchar); pure (c ∷ cs)

unfoldable pub op : Scan Token
op = do
  name ← opstring
  (char b':' >> pure (token t_uopstring name)) <|> pure (token t_opstring name)

unfoldable pub op_identifier : Scan Token
op_identifier = do char b'('; name ← opstring; char b')'; pure (token t_opidentifier name)
