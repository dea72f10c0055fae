-- ===== src/Lexer/Literals.antt =====
-- compiler/lexer.cpp, lines 251-576: digits, characters, strings, integers and floats.
use ceramic.Prelude.{
  ℕ, ◌+◌, ◌-◌, ◌*◌, ◌||◌, Option, none, some, [], ◌∷◌, codes, ◌==◌, if◌then◌else◌,
}
use ceramic.Lexer.Scan.{
  Scan, ◌>>=◌, ◌>>◌, ◌<|>◌, pure, next, satisfy, char, str, many, optional, not_ahead, captured,
}
use ceramic.Lexer.Token.{
  Token, token, t_char_literal, t_string_literal, t_int_literal, t_float_literal, t_static_index,
}
use ceramic.Lexer.Names.{within}

unfoldable pub hex_value : ℕ → Option ℕ
hex_value c =
    if within b'0' b'9' c
    then some (c - b'0')
    else if within b'a' b'f' c
    then some (c - b'a' + 10)
    else if within b'A' b'F' c
    then some (c - b'A' + 10)
    else none

unfoldable pub hex_digit : Scan ℕ
hex_digit [] = none
hex_digit (c ∷ cs) = elim (hex_value c) [ none ↦ none | some d ↦ some (d, cs) ]

unfoldable pub decimal_digit : Scan ℕ
decimal_digit = do c ← satisfy (within b'0' b'9'); pure (c - b'0')

unfoldable pub hex_escape_char : Scan ℕ
hex_escape_char = do digit1 ← hex_digit; digit2 ← hex_digit; pure (digit1 * 16 + digit2)

-- The `switch` on the byte behind the backslash.
unfoldable pub escape_code : ℕ → Scan ℕ
escape_code c =
    if c == b'n'
    then pure 10
    else if c == b'r'
    then pure 13
    else if c == b't'
    then pure 9
    else if c == b'f'
    then pure 12
    else if c == 92 || c == 39 || c == 34 || c == 36
    then pure c
    else if c == b'0'
    then pure 0
    else if c == b'x'
    then hex_escape_char
    else (λ s. none)

unfoldable pub escape_char : Scan ℕ
escape_char = do char 92; c ← next; escape_code c

unfoldable pub plain_char : Scan ℕ
plain_char = do not_ahead (char 92); next

unfoldable pub one_char : Scan ℕ
one_char = escape_char <|> plain_char

unfoldable pub char_token : Scan Token
char_token = do
  char 39
  not_ahead (char 39)
  v ← one_char
  char 39
  pure (token t_char_literal (v ∷ []))

-- The loop leaves at the closing quote, and fails where it meets neither that nor a character.
unfoldable pub single_quote_string : Scan Token
single_quote_string = do
  char 34
  body ← many (not_ahead (char 34) >> one_char)
  char 34
  pure (token t_string_literal body)

-- Three quotes that a fourth does not follow.
unfoldable pub triple_end : Scan (Unit {0})
triple_end = do str (34 ∷ 34 ∷ 34 ∷ []); not_ahead (char 34)

unfoldable pub triple_quote_body : Scan Token
triple_quote_body = do
  body ← many (not_ahead triple_end >> one_char)
  triple_end
  pure (token t_string_literal body)

-- Behind three quotes there is no way back to the string with one.
unfoldable pub string_token : Scan Token
string_token s = elim (str (34 ∷ 34 ∷ 34 ∷ []) s) [
  | none ↦ single_quote_string s
  | some (_, r) ↦ triple_quote_body r
]

unfoldable pub opt_numeric_separator : Scan (Unit {0})
opt_numeric_separator = optional (char b'_')

-- The last round reads a separator too, and stops at what is no digit.
unfoldable pub separated {ℓ} : {A : Type ℓ} → Scan A → Scan (Unit {0})
separated digit = do _ ← many (opt_numeric_separator >> digit); opt_numeric_separator

unfoldable pub decimal_digits : Scan (Unit {0})
decimal_digits = separated decimal_digit

unfoldable pub hex_digits : Scan (Unit {0})
hex_digits = separated hex_digit

unfoldable pub hex_int : Scan (Unit {0})
hex_int = do str (codes "0x"); _ ← hex_digit; hex_digits

unfoldable pub decimal_int : Scan (Unit {0})
decimal_int = do _ ← decimal_digit; decimal_digits

unfoldable pub sign : Scan ℕ
sign = satisfy (λ c. c == b'+' || c == b'-')

unfoldable pub int_token : Scan Token
int_token = do
  text ← captured (optional sign >> (hex_int <|> decimal_int))
  pure (token t_int_literal text)

unfoldable pub exponent_part : Scan (Unit {0})
exponent_part = do satisfy (λ c. c == b'e' || c == b'E'); optional sign; decimal_int

unfoldable pub fractional_part : Scan (Unit {0})
fractional_part = char b'.' >> decimal_digits

unfoldable pub hex_exponent_part : Scan (Unit {0})
hex_exponent_part = do satisfy (λ c. c == b'p' || c == b'P'); optional sign; decimal_int

unfoldable pub hex_fractional_part : Scan (Unit {0})
hex_fractional_part = char b'.' >> hex_digits

unfoldable pub hex_float_tail : Scan (Unit {0})
hex_float_tail = optional hex_fractional_part >> hex_exponent_part

unfoldable pub decimal_float_tail : Scan (Unit {0})
decimal_float_tail s = elim (fractional_part s) [
  | none ↦ exponent_part s
  | some (_, r) ↦ optional exponent_part r
]

-- Once a hexadecimal integer is read there is no way back to the decimal form.
unfoldable pub float_body : Scan (Unit {0})
float_body s = elim (hex_int s) [
  | none ↦ (decimal_int >> decimal_float_tail) s
  | some (_, r) ↦ hex_float_tail r
]

unfoldable pub float_token : Scan Token
float_token = do text ← captured (optional sign >> float_body); pure (token t_float_literal text)

-- Lines 771-798.
unfoldable pub static_index : Scan Token
static_index = do
  char b'.'
  text ← captured (hex_int <|> decimal_int)
  pure (token t_static_index text)
