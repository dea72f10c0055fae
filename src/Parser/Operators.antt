-- ===== src/Parser/Operators.antt =====
-- compiler/parser.cpp, lines 902-1160: operators, and expressions with keywords.
use ceramic.Prelude.{true, none, some, List, [], ◌∷◌, Bytes, codes}
use ceramic.Desugar.Build.{at, nowhere, one_expr}
use ceramic.Parser.Exprs.{
  Grammar, int_literal_expr, float_literal_expr, suffix_expr, apply_suffixes,
}
use ceramic.Parser.State.{
  Parser, ◌>>=◌, ◌>>◌, ◌<|>◌, pure, fail, attempt, at_location, many, many_committed,
}
use ceramic.Parser.Terminals.{symbol, keyword, opsymbol, opstring}
use ceramic.Syntax.Node.{address_of, not_op, prefix_op, infix_op, if_op}
use ceramic.Syntax.Tree.{
  Expr, ExprList, no_exprs, add_expr, name_ref, variadic_op, and_expr, or_expr, dispatch_expr,
  static_expr,
}

unfoldable pub plus_or_minus : Parser Bytes
plus_or_minus =
    (opsymbol (codes "+") >> pure (codes "+")) <|> (opsymbol (codes "-") >> pure (codes "-"))

unfoldable pub signed_literal : Bytes → Parser Expr
signed_literal op = int_literal_expr op <|> float_literal_expr op

-- Fails where one of the operators is next.
unfoldable pub none_next : List Bytes → Parser (Unit {0})
none_next [] = pure tt
none_next (s ∷ ss) = attempt (opsymbol s) >>= λ r. elim r [ none ↦ none_next ss | some t ↦ fail ]

unfoldable pub operator_op : Parser Bytes
operator_op =
    none_next (codes "<--" ∷ codes "-->" ∷ codes "=>" ∷ codes "->" ∷ codes "~>" ∷ codes "=" ∷ [])
    >> opstring

-- The name of an operator, which has no location.
unfoldable pub operator_ref : Bytes → Expr
operator_ref op = name_ref nowhere (record { str = op; is_operator = true; location = none })

-- The operators with their right operands, in turn.
unfoldable pub operands : List (Bytes × Expr) → ExprList
operands [] = no_exprs
operands ((op, e) ∷ es) = add_expr (operator_ref op) (add_expr e (operands es))

module _ (g : Grammar) where
  unfoldable pub address_of_expr : Parser Expr
  address_of_expr = at_location λ l.
      symbol (codes "@") >> g.prefix_expr >>= λ e. pure (variadic_op (at l) address_of (one_expr e))

  unfoldable pub dispatch_of_expr : Parser Expr
  dispatch_of_expr =
      at_location λ l. opsymbol (codes "*") >> g.prefix_expr >>= λ e. pure (dispatch_expr (at l) e)

  unfoldable pub static_of_expr : Parser Expr
  static_of_expr =
      at_location λ l. symbol (codes "#") >> g.prefix_expr >>= λ e. pure (static_expr (at l) e)

  unfoldable pub preop_expr : Parser Expr
  preop_expr =
      (plus_or_minus >>= λ op. signed_literal op)
      <|> (at_location λ l. operator_op >>= λ op. g.prefix_expr >>= λ e.
          pure (variadic_op (at l) prefix_op (add_expr (operator_ref op) (one_expr e))))

  unfoldable pub prefix_expr_body : Parser Expr
  prefix_expr_body =
      address_of_expr <|> dispatch_of_expr <|> preop_expr <|> static_of_expr <|> suffix_expr g

  unfoldable pub operand : Bytes → Parser (Bytes × Expr)
  operand op = g.prefix_expr >>= λ e. pure (op, e)

  unfoldable pub operator_tail : Parser (Expr → Expr)
  operator_tail = at_location λ l. operator_op >>= λ op. operand op >>= λ e.
      many_committed operator_op operand >>= λ es.
      pure (λ x. variadic_op (at l) infix_op (add_expr x (operands (e ∷ es))))

  unfoldable pub operator_expr : Parser Expr
  operator_expr = g.prefix_expr >>= λ x. many operator_tail >>= λ fs. pure (apply_suffixes x fs)

  unfoldable pub not_expr : Parser Expr
  not_expr = at_location λ l. attempt (keyword (codes "not")) >>= λ r. elim r [
    | none ↦ operator_expr
    | some t ↦ operator_expr >>= λ e. pure (variadic_op (at l) not_op (one_expr e))
  ]

  unfoldable pub and_expr_tail : Parser (Expr → Expr)
  and_expr_tail =
      at_location λ l. keyword (codes "and") >> not_expr >>= λ y. pure (λ x. and_expr (at l) x y)

  unfoldable pub and_exprs : Parser Expr
  and_exprs = not_expr >>= λ x. many and_expr_tail >>= λ fs. pure (apply_suffixes x fs)

  unfoldable pub or_expr_tail : Parser (Expr → Expr)
  or_expr_tail =
      at_location λ l. keyword (codes "or") >> and_exprs >>= λ y. pure (λ x. or_expr (at l) x y)

  unfoldable pub or_exprs : Parser Expr
  or_exprs = and_exprs >>= λ x. many or_expr_tail >>= λ fs. pure (apply_suffixes x fs)

  unfoldable pub if_expr : Parser Expr
  if_expr = at_location λ l. keyword (codes "if") >> symbol (codes "(") >> g.expression >>= λ e1.
      symbol (codes ")") >> g.expression >>= λ e2. keyword (codes "else") >> g.expression >>= λ e3.
      pure (variadic_op (at l) if_op (add_expr e1 (add_expr e2 (one_expr e3))))
