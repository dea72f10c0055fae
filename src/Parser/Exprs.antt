-- ===== src/Parser/Exprs.antt =====
-- compiler/parser.cpp, lines 496-902: literals, lists, atomic expressions and suffixes.
use ceramic.Prelude.{
  ℕ, zero, true, false, Option, none, some, List, [], ◌∷◌, Bytes, codes, bytes_eq, if◌then◌else◌,
  ◌==◌,
}
use ceramic.Desugar.Build.{at, one_expr, append_exprs}
use ceramic.Lexer.Token.{Token}
use ceramic.Parser.State.{
  Parser, Result, parsed, failed, aborted, out_of_fuel, ◌>>=◌, ◌>>◌, ◌<|>◌, pure, abort, attempt,
  record_expected, opt_symbol, at_location, many,
}
use ceramic.Parser.Terminals.{
  symbol, keyword, token_of, identifier, comma_list, is_int, is_float, is_char, is_string,
  is_identifier, is_static_index,
}
use ceramic.Syntax.Node.{Location, dereference}
use ceramic.Syntax.Tree.{
  Expr, ExprList, OptExpr, Statement, no_expr, an_expr, no_exprs, add_expr, bool_literal,
  int_literal, float_literal, char_literal, string_literal, tuple, paren, name_ref, file_expr,
  line_expr, column_expr, arg_expr, eval_expr, call, indexing, field_ref, static_indexing,
  variadic_op,
}

-- The functions that call each other without an end in sight, and `strtoul` with base 0: its value and
-- the text behind the number.
pub record Grammar : Type 0 where
  pub expression : Parser Expr
  pub prefix_expr : Parser Expr
  pub statement : Parser Statement
  pub strtoul : Bytes → ℕ × Bytes

unfoldable pub to_exprs : List Expr → ExprList
to_exprs [] = no_exprs
to_exprs (e ∷ es) = add_expr e (to_exprs es)

unfoldable pub bool_literal_expr : Parser Expr
bool_literal_expr = at_location λ l.
    (keyword (codes "true") >> pure (bool_literal (at l) true))
    <|> (keyword (codes "false") >> pure (bool_literal (at l) false))

unfoldable pub without_separators : Bytes → Bytes
without_separators [] = []
without_separators (c ∷ cs) =
    let rest = without_separators cs in if c == b'_' then rest else c ∷ rest

unfoldable pub clean_numeric_separator : Bytes → Bytes → Bytes
clean_numeric_separator op s =
    if bytes_eq op (codes "-") then b'-' ∷ without_separators s else without_separators s

-- The suffix is a name that follows.
unfoldable pub suffix_text : Option Token → Bytes
suffix_text none = []
suffix_text (some t) = t.str

unfoldable pub int_literal_expr : Bytes → Parser Expr
int_literal_expr op = at_location λ l. token_of is_int >>= λ t.
    attempt (token_of is_identifier) >>= λ s.
    pure (int_literal (at l) (clean_numeric_separator op t.str) (suffix_text s))

unfoldable pub float_literal_expr : Bytes → Parser Expr
float_literal_expr op = at_location λ l. token_of is_float >>= λ t.
    attempt (token_of is_identifier) >>= λ s.
    pure (float_literal (at l) (clean_numeric_separator op t.str) (suffix_text s))

-- The token of a character holds one byte.
unfoldable pub first_byte : Bytes → ℕ
first_byte [] = zero
first_byte (c ∷ cs) = c

unfoldable pub char_literal_expr : Parser Expr
char_literal_expr =
    at_location λ l. token_of is_char >>= λ t. pure (char_literal (at l) (first_byte t.str))

unfoldable pub string_literal_expr : Parser Expr
string_literal_expr = at_location λ l. token_of is_string >>= λ t.
    pure (string_literal (at l) (record { str = t.str; is_operator = false; location = l }))

unfoldable pub literal : Parser Expr
literal =
    bool_literal_expr
    <|> int_literal_expr (codes "+")
    <|> float_literal_expr (codes "+")
    <|> char_literal_expr
    <|> string_literal_expr

unfoldable pub name_ref_expr : Parser Expr
name_ref_expr = at_location λ l. identifier >>= λ x. pure (name_ref (at l) x)

unfoldable pub keyword_expr : Bytes → (Location → Expr) → Parser Expr
keyword_expr s make = at_location λ l. keyword s >> pure (make l)

unfoldable pub arg_name_expr : Parser Expr
arg_name_expr =
    at_location λ l. keyword (codes "__ARG__") >> identifier >>= λ x. pure (arg_expr (at l) x)

-- A failure is recorded with the place where the alternatives begin.
unfoldable pub or_expected : {A : Type 0} → ℕ → Bytes → Result A → Result A
or_expected p what (parsed a st) = parsed a st
or_expected p what (failed st) = failed (record_expected p what st)
or_expected p what aborted = aborted
or_expected p what out_of_fuel = out_of_fuel

unfoldable pub expected : {A : Type 0} → Bytes → Parser A → Parser A
expected what m st = or_expected st.position what (m st)

unfoldable pub string_literal_suffix : Parser (Expr → Expr)
string_literal_suffix =
    at_location λ l. string_literal_expr >>= λ s. pure (λ base. call (at l) base (one_expr s))

unfoldable pub field_ref_suffix : Parser (Expr → Expr)
field_ref_suffix = at_location λ l.
    opt_symbol (symbol (codes ".")) >> identifier >>= λ x. pure (λ base. field_ref (at l) base x)

-- The base is added behind the operands, of which there are none.
unfoldable pub dereference_suffix : Parser (Expr → Expr)
dereference_suffix = at_location λ l.
    opt_symbol (symbol (codes "^"))
    >> pure (λ base. variadic_op (at l) dereference (append_exprs no_exprs (one_expr base)))

unfoldable pub apply_suffixes : Expr → List (Expr → Expr) → Expr
apply_suffixes x [] = x
apply_suffixes x (f ∷ fs) = apply_suffixes (f x) fs

module _ (g : Grammar) where
  unfoldable pub opt_expression : Parser OptExpr
  opt_expression = (g.expression >>= λ e. pure (an_expr e)) <|> pure no_expr

  unfoldable pub expression_list : Parser ExprList
  expression_list = comma_list g.expression >>= λ es. pure (to_exprs es)

  unfoldable pub opt_expression_list : Parser ExprList
  opt_expression_list = expression_list <|> pure no_exprs

  -- A list between two symbols.
  unfoldable pub bracketed : Bytes → Bytes → Parser ExprList
  bracketed left right =
      opt_symbol (symbol left) >> opt_expression_list >>= λ es. symbol right >> pure es

  unfoldable pub tuple_expr : Parser Expr
  tuple_expr = at_location λ l. bracketed (codes "[") (codes "]") >>= λ es. pure (tuple (at l) es)

  unfoldable pub paren_expr : Parser Expr
  paren_expr = at_location λ l. bracketed (codes "(") (codes ")") >>= λ es. pure (paren (at l) es)

  unfoldable pub eval_expr_expr : Parser Expr
  eval_expr_expr =
      at_location λ l. keyword (codes "eval") >> g.expression >>= λ e. pure (eval_expr (at l) e)

  unfoldable pub atomic_expr : Parser Expr
  atomic_expr = expected (codes "expression") (
      name_ref_expr
      <|> paren_expr
      <|> literal
      <|> tuple_expr
      <|> keyword_expr (codes "__FILE__") (λ l. file_expr (at l))
      <|> keyword_expr (codes "__LINE__") (λ l. line_expr (at l))
      <|> keyword_expr (codes "__COLUMN__") (λ l. column_expr (at l))
      <|> arg_name_expr
      <|> eval_expr_expr)

  unfoldable pub indexing_suffix : Parser (Expr → Expr)
  indexing_suffix =
      at_location
        λ l. bracketed (codes "[") (codes "]") >>= λ es. pure (λ base. indexing (at l) base es)

  unfoldable pub call_suffix : Parser (Expr → Expr)
  call_suffix =
      at_location
        λ l. bracketed (codes "(") (codes ")") >>= λ es. pure (λ base. call (at l) base es)

  -- What `strtoul` leaves is an error.
  unfoldable pub static_index_of : Location → ℕ × Bytes → Parser (Expr → Expr)
  static_index_of l (n, []) = pure (λ base. static_indexing (at l) base n)
  static_index_of l (n, c ∷ cs) = abort

  unfoldable pub static_indexing_suffix : Parser (Expr → Expr)
  static_indexing_suffix =
      at_location λ l. token_of is_static_index >>= λ t. static_index_of l (g.strtoul t.str)

  unfoldable pub suffix : Parser (Expr → Expr)
  suffix =
      string_literal_suffix <|> indexing_suffix <|> call_suffix <|> field_ref_suffix
      <|> static_indexing_suffix <|> dereference_suffix

  unfoldable pub suffix_expr : Parser Expr
  suffix_expr = atomic_expr >>= λ x. many suffix >>= λ fs. pure (apply_suffixes x fs)
