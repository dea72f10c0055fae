-- ===== src/Parser/Statements/Forms.antt =====
-- compiler/parser.cpp, lines 1579-2120: the forms of statements.
use ceramic.Prelude.{
  ℕ, zero, suc, true, false, Option, none, some, List, [], ◌∷◌, Bytes, codes, length,
}
use ceramic.Desugar.Build.{one_expr}
use ceramic.Parser.Arguments.{opt_expr_type_spec}
use ceramic.Parser.Exprs.{Grammar, expression_list, opt_expression_list, opt_expression, to_exprs}
use ceramic.Parser.Operators.{operator_ref}
use ceramic.Parser.State.{
  Parser, out_of_fuel, ◌>>=◌, ◌>>◌, ◌<|>◌, pure, bind, attempt, at_location, many, many_committed,
  peek,
}
use ceramic.Parser.Terminals.{
  symbol, keyword, opsymbol, uopstring, ellipsis, identifier, identifier_list,
}
use ceramic.Syntax.Node.{Location, Identifier, prefix_op, infix_op}
use ceramic.Syntax.Tree.{
  Expr, OptExpr, ExprList, no_expr, add_expr, Statement, OptStatement, CaseBlock, CaseBlocks, Catch,
  assignment, init_assignment, variadic_assignment, return_statement, if_statement,
  switch_statement, expr_statement, while_statement, break_statement, continue_statement,
  for_statement, try_statement, static_for, finally_statement, on_error, eval_statement,
  static_assert_statement, no_statement, a_statement, case_block, catch_block,
}
use ceramic.Parser.Statements.{
  block_statement, goto_stmt, keyword_statement, local_binding, return_kind, throw_of, to_cases,
  to_catches, to_statements,
}

module _ (g : Grammar) where
  unfoldable pub assigned : Bytes → (Location → ExprList → ExprList → Statement) → Parser Statement
  assigned op make = at_location λ l. expression_list g >>= λ es.
      opsymbol op >> expression_list g >>= λ fs. symbol (codes ";") >> pure (make l es fs)

  unfoldable pub prefix_update : Parser Statement
  prefix_update = at_location λ l. uopstring >>= λ op. g.expression >>= λ e.
      symbol (codes ";")
      >> pure (variadic_assignment l prefix_op (add_expr (operator_ref op) (one_expr e)))

  unfoldable pub update_assignment : Parser Statement
  update_assignment = at_location λ l. g.expression >>= λ d. uopstring >>= λ op.
      g.expression >>= λ e.
      symbol (codes ";")
      >> pure
          (variadic_assignment l infix_op (add_expr (operator_ref op) (add_expr d (one_expr e))))

  unfoldable pub return_stmt : Parser Statement
  return_stmt = at_location λ l. keyword (codes "return") >> return_kind >>= λ k.
      opt_expression_list g >>= λ es.
      symbol (codes ";") >> pure (return_statement l k es false false)

  unfoldable pub statement_expr_statement : Parser Statement
  statement_expr_statement =
      local_binding g
      <|> assigned (codes "=") assignment
      <|> assigned (codes "<--") init_assignment
      <|> update_assignment

  -- A tail that is followed by `;` is a statement, which has no location.
  unfoldable pub condition_rounds : ℕ → Parser (List Statement × Expr)
  condition_rounds zero st = out_of_fuel
  condition_rounds (suc f) st =
      let more = condition_rounds f in
      bind (attempt statement_expr_statement st) λ r. elim r [
        | some s ↦ more >>= λ (ss, e). pure (s ∷ ss, e)
        | none ↦ g.expression >>= λ tail. attempt (symbol (codes ";")) >>= λ c. elim c [
          | none ↦ pure ([], tail)
          | some t ↦ more >>= λ (ss, e). pure (expr_statement none tail ∷ ss, e)
        ]
      ]

  unfoldable pub statement_expression : Parser (List Statement × Expr)
  statement_expression st = condition_rounds (suc (length st.rest)) st

  -- In round brackets.
  unfoldable pub condition : Parser (List Statement × Expr)
  condition = symbol (codes "(") >> statement_expression >>= λ c. symbol (codes ")") >> pure c

  unfoldable pub opt_else : Parser OptStatement
  opt_else = attempt (keyword (codes "else")) >>= λ r. elim r [
    | none ↦ pure no_statement
    | some t ↦ g.statement >>= λ s. pure (a_statement s)
  ]

  unfoldable pub if_stmt : Parser Statement
  if_stmt = at_location λ l. keyword (codes "if") >> condition >>= λ (ss, e).
      g.statement >>= λ s. opt_else >>= λ t. pure (if_statement l (to_statements ss) e s t)

  unfoldable pub case_list : Parser ExprList
  case_list = keyword (codes "case") >> symbol (codes "(") >> expression_list g >>= λ es.
      symbol (codes ")") >> pure es

  unfoldable pub case_block_item : Parser CaseBlock
  case_block_item =
      at_location λ l. case_list >>= λ es. g.statement >>= λ s. pure (case_block l es s)

  unfoldable pub case_block_list : Parser CaseBlocks
  case_block_list = case_block_item >>= λ b. many case_block_item >>= λ bs. pure (to_cases (b ∷ bs))

  unfoldable pub switch_stmt : Parser Statement
  switch_stmt = at_location λ l. keyword (codes "switch") >> condition >>= λ (ss, e).
      case_block_list >>= λ cs.
      opt_else >>= λ t. pure (switch_statement l (to_statements ss) e cs t)

  unfoldable pub expr_stmt : Parser Statement
  expr_stmt = at_location λ l. g.expression >>= λ e. symbol (codes ";") >> pure (expr_statement l e)

  unfoldable pub while_stmt : Parser Statement
  while_stmt = at_location λ l. keyword (codes "while") >> condition >>= λ (ss, e).
      g.statement >>= λ s. pure (while_statement l (to_statements ss) e s)

  unfoldable pub for_stmt : Parser Statement
  for_stmt = at_location λ l.
      keyword (codes "for") >> symbol (codes "(") >> identifier_list >>= λ xs.
      keyword (codes "in") >> g.expression >>= λ e.
      symbol (codes ")") >> g.statement >>= λ s. pure (for_statement l xs e s)

  unfoldable pub opt_context : Parser (Option Identifier)
  opt_context = attempt (keyword (codes "in")) >>= λ r. elim r [
    | none ↦ pure none
    | some t ↦ identifier >>= λ x. pure (some x)
  ]

  unfoldable pub catch_item : Parser Catch
  catch_item = at_location λ l. keyword (codes "catch") >> symbol (codes "(") >> identifier >>= λ x.
      opt_expr_type_spec g >>= λ type. opt_context >>= λ context.
      symbol (codes ")") >> block_statement g >>= λ s. pure (catch_block l x type context s)

  unfoldable pub try_stmt : Parser Statement
  try_stmt = at_location λ l. keyword (codes "try") >> block_statement g >>= λ s.
      catch_item >>= λ c. many catch_item >>= λ cs. pure (try_statement l s (to_catches (c ∷ cs)))

  -- What stands between `throw` and `;`.
  unfoldable pub thrown : Parser (OptExpr × OptExpr)
  thrown = peek (symbol (codes ";")) >>= λ b. elim b [
    | true ↦ pure (no_expr, no_expr)
    | false ↦ opt_expression g >>= λ e. attempt (keyword (codes "in")) >>= λ r. elim r [
      | none ↦ pure (e, no_expr)
      | some t ↦ opt_expression g >>= λ context. pure (e, context)
    ]
  ]

  unfoldable pub throw_stmt : Parser Statement
  throw_stmt =
      at_location
        λ l. keyword (codes "throw") >> thrown >>= λ r. symbol (codes ";") >> pure (throw_of l r)

  unfoldable pub static_for_stmt : Parser Statement
  static_for_stmt = at_location λ l.
      ellipsis >> keyword (codes "for") >> symbol (codes "(") >> identifier >>= λ x.
      keyword (codes "in") >> expression_list g >>= λ es.
      symbol (codes ")") >> g.statement >>= λ s. pure (static_for l x es s)

  -- `finally` and `onerror`.
  unfoldable pub guarded : Bytes → (Location → Statement → Statement) → Parser Statement
  guarded s make = at_location λ l. keyword s >> g.statement >>= λ t. pure (make l t)

  unfoldable pub eval_stmt : Parser Statement
  eval_stmt = at_location λ l. keyword (codes "eval") >> expression_list g >>= λ es.
      symbol (codes ";") >> pure (eval_statement l es)

  unfoldable pub static_assert : Parser Statement
  static_assert = at_location λ l.
      keyword (codes "staticassert") >> symbol (codes "(") >> g.expression >>= λ e.
      many_committed (symbol (codes ",")) (λ t. g.expression) >>= λ es.
      symbol (codes ")") >> symbol (codes ";") >> pure (static_assert_statement l e (to_exprs es))

  unfoldable pub statement_body : Parser Statement
  statement_body =
      block_statement g
      <|> assigned (codes "=") assignment
      <|> assigned (codes "<--") init_assignment
      <|> update_assignment
      <|> prefix_update
      <|> if_stmt
      <|> switch_stmt
      <|> return_stmt
      <|> eval_stmt
      <|> expr_stmt
      <|> while_stmt
      <|> keyword_statement (codes "break") break_statement
      <|> keyword_statement (codes "continue") continue_statement
      <|> for_stmt
      <|> static_for_stmt
      <|> try_stmt
      <|> throw_stmt
      <|> guarded (codes "finally") finally_statement
      <|> guarded (codes "onerror") on_error
      <|> static_assert
      <|> goto_stmt
