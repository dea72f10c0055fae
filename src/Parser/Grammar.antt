-- ===== src/Parser/Grammar.antt =====
-- compiler/parser.cpp, lines 1184-1335 and 4100-4220: lambdas, expressions, and the knot of the grammar.
use ceramic.Prelude.{ℕ, zero, suc, ◌+◌, ◌*◌, false, Bytes, codes, length}
use ceramic.Desugar.Build.{at, one_expr}
use ceramic.Parser.Arguments.{arguments}
use ceramic.Parser.Exprs.{Grammar}
use ceramic.Parser.Operators.{or_exprs, if_expr, prefix_expr_body}
use ceramic.Parser.Spans.{spanned}
use ceramic.Parser.State.{
  Parser, State, out_of_fuel, ◌>>=◌, ◌>>◌, ◌<|>◌, pure, at_location, local_flags,
}
use ceramic.Parser.Statements.{return_kind, block_statement}
use ceramic.Parser.Statements.Forms.{statement_body}
use ceramic.Parser.Terminals.{symbol, opsymbol, ellipsis, identifier}
use ceramic.Syntax.Node.{LambdaCapture, ref_capture, value_capture, stateless, dont_care}
use ceramic.Syntax.Tree.{
  Expr, Statement, FormalArgs, formal_arg, no_args, add_arg, no_expr, add_expr, lambda, unpack,
  tuple, string_literal, return_statement,
}

-- A name alone is an argument; without arguments that can be read there are none.
unfoldable pub lambda_name : Parser FormalArgs
lambda_name = identifier >>= λ x.
    pure (add_arg (formal_arg x.location x no_expr dont_care no_expr false) no_args)

unfoldable pub lambda_arrow : Parser LambdaCapture
lambda_arrow =
    (opsymbol (codes "->") >> pure ref_capture)
    <|> (opsymbol (codes "=>") >> pure value_capture)
    <|> (opsymbol (codes "~>") >> pure stateless)

module _ (g : Grammar) where
  unfoldable pub lambda_args : Parser FormalArgs
  lambda_args = lambda_name <|> arguments g <|> pure no_args

  unfoldable pub lambda_expr_body : Parser Statement
  lambda_expr_body = at_location λ l. return_kind >>= λ k.
      g.expression >>= λ e. pure (return_statement l k (one_expr e) false false)

  unfoldable pub lambda_body : Parser Statement
  lambda_body = lambda_expr_body <|> block_statement g

  unfoldable pub lambda_expr : Parser Expr
  lambda_expr = at_location λ l. local_flags lambda_args >>= λ (args, var_arg, as_conversion).
      lambda_arrow >>= λ c. lambda_body >>= λ s. pure (lambda (at l) c args var_arg as_conversion s)

  unfoldable pub unpack_expr : Parser Expr
  unpack_expr = at_location λ l. ellipsis >> g.expression >>= λ e. pure (unpack (at l) e)

  unfoldable pub pair_expr : Parser Expr
  pair_expr = at_location λ l. identifier >>= λ x. symbol (codes ":") >> g.expression >>= λ e.
      pure (tuple (at l) (add_expr (string_literal (at l) x) (one_expr e)))

  unfoldable pub expression_body : Parser Expr
  expression_body = at_location λ start.
      (lambda_expr <|> pair_expr <|> or_exprs g <|> if_expr g <|> unpack_expr) >>= λ x.
      at_location λ end. pure (spanned start end x)

-- The functions with calls nested as deep as the fuel.
unfoldable pub grammar : (Bytes → ℕ × Bytes) → ℕ → Grammar
grammar strtoul zero = record {
  expression = λ st. out_of_fuel;
  prefix_expr = λ st. out_of_fuel;
  statement = λ st. out_of_fuel;
  strtoul = strtoul;
}
grammar strtoul (suc f) =
    let g = grammar strtoul f in
    record {
      expression = expression_body g;
      prefix_expr = prefix_expr_body g;
      statement = statement_body g;
      strtoul = strtoul;
    }

-- Three levels for each token, and three more.
unfoldable pub enough : State → ℕ
enough st = 3 * length st.rest + 3

unfoldable pub expression : (Bytes → ℕ × Bytes) → Parser Expr
unfolding enough
expression strtoul st = (grammar strtoul (enough st)).expression st

unfoldable pub statement : (Bytes → ℕ × Bytes) → Parser Statement
unfolding enough
statement strtoul st = (grammar strtoul (enough st)).statement st
