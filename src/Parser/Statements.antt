-- ===== src/Parser/Statements.antt =====
-- compiler/parser.cpp, lines 1163-1196 and 1443-2120: statements.
pub mod Forms
use ceramic.Prelude.{
  ℕ, zero, suc, true, false, Option, none, some, List, [], ◌∷◌, Bytes, codes, length, if◌then◌else◌,
}
use ceramic.Desugar.Build.{one_expr}
use ceramic.Parser.Arguments.{opt_pattern_vars_with_cond, bindings_body, opt_expr_type_spec}
use ceramic.Parser.Errors.{record_parse_error, begin_item, synchronize_block, too_many, is_text}
use ceramic.Parser.Exprs.{Grammar, expression_list, opt_expression_list, opt_expression, to_exprs}
use ceramic.Parser.Operators.{operator_ref}
use ceramic.Parser.State.{
  Parser, Result, parsed, failed, aborted, out_of_fuel, ◌>>=◌, ◌>>◌, ◌<|>◌, pure, bind, attempt,
  opt_symbol, at_location, many, many_committed, peek, local_flags,
}
use ceramic.Parser.Terminals.{
  symbol, keyword, opsymbol, uopstring, ellipsis, identifier, identifier_list,
}
use ceramic.Syntax.Node.{
  Location, Identifier, ReturnKind, return_value, return_ref, return_forward, BindingKind,
  var_binding, ref_binding, alias_binding, forward_binding, prefix_op, infix_op,
}
use ceramic.Syntax.Tree.{
  Expr, OptExpr, ExprList, no_expr, add_expr, Statement, OptStatement, Statements, CaseBlock,
  CaseBlocks, Catch, Catches, block, label, binding, assignment, init_assignment,
  variadic_assignment, goto_statement, return_statement, if_statement, switch_statement,
  expr_statement, while_statement, break_statement, continue_statement, for_statement,
  try_statement, throw_statement, static_for, finally_statement, on_error, eval_statement,
  static_assert_statement, no_statement, a_statement, no_statements, add_statement, case_block,
  no_cases, add_case, catch_block, no_catches, add_catch,
}

unfoldable pub to_statements : List Statement → Statements
to_statements [] = no_statements
to_statements (s ∷ ss) = add_statement s (to_statements ss)

unfoldable pub to_cases : List CaseBlock → CaseBlocks
to_cases [] = no_cases
to_cases (b ∷ bs) = add_case b (to_cases bs)

unfoldable pub to_catches : List Catch → Catches
to_catches [] = no_catches
to_catches (b ∷ bs) = add_catch b (to_catches bs)

unfoldable pub return_kind : Parser ReturnKind
return_kind =
    (keyword (codes "ref") >> pure return_ref)
    <|> (keyword (codes "forward") >> pure return_forward)
    <|> pure return_value

unfoldable pub label_def : Parser Statement
label_def = at_location λ l. identifier >>= λ x. symbol (codes ":") >> pure (label l x)

unfoldable pub binding_kind : Parser BindingKind
binding_kind =
    (keyword (codes "var") >> pure var_binding)
    <|> (keyword (codes "ref") >> pure ref_binding)
    <|> (keyword (codes "alias") >> pure alias_binding)
    <|> (keyword (codes "forward") >> pure forward_binding)

unfoldable pub goto_stmt : Parser Statement
goto_stmt = at_location λ l.
    keyword (codes "goto") >> identifier >>= λ x. symbol (codes ";") >> pure (goto_statement l x)

unfoldable pub keyword_statement : Bytes → (Location → Statement) → Parser Statement
keyword_statement s make = at_location λ l. keyword s >> symbol (codes ";") >> pure (make l)

-- `if (!symbol("}")) recordParseError();`, where the position stays behind a wrong token.
unfoldable pub recorded : {A : Type 0} → A → Result A → Result A
unfolding record_parse_error
recorded a (parsed b st) = parsed b st
recorded a (failed st) = parsed a (record_parse_error st)
recorded a aborted = aborted
recorded a out_of_fuel = out_of_fuel

unfoldable pub close_block : Parser (Unit {0})
unfolding recorded
close_block st = recorded tt ((symbol (codes "}") >> pure tt) st)

-- After an item that cannot be read: the end of the block, or the next statement, unless there are too many errors.
unfoldable pub recover : Parser (List Statement) → Parser (List Statement)
unfolding record_parse_error synchronize_block
recover more st = elim st.rest [
  | [] ↦ parsed [] st
  | t ∷ ts ↦
      if is_text (codes "}") t
      then parsed [] st
      else let st' = synchronize_block (record_parse_error st) in
        if too_many st'.report
        then parsed [] (record st' { report = record st'.report { parse_error_overflow = true } })
        else more st'
]

unfoldable pub item_rounds : ℕ → Parser Statement → Parser (List Statement)
unfolding begin_item recover
item_rounds zero item st = out_of_fuel
item_rounds (suc f) item st =
    let more = item_rounds f item in
    bind (attempt item (begin_item st))
      λ r. elim r [ none ↦ recover more | some s ↦ more >>= λ ss. pure (s ∷ ss) ]

-- `Throw` with what it throws and the context, and without what they are desugared to.
unfoldable pub throw_of : Location → OptExpr × OptExpr → Statement
throw_of l (e, context) = throw_statement l e context no_expr no_expr

module _ (g : Grammar) where
  unfoldable pub local_binding : Parser Statement
  local_binding = at_location λ l. binding_kind >>= λ k. opt_pattern_vars_with_cond g >>= λ (vs, e).
      local_flags (bindings_body g) >>= λ (args, var_arg, as_conversion).
      attempt (opt_symbol (symbol (codes ","))) >>= λ c.
      opsymbol (codes "=") >> expression_list g >>= λ es.
      symbol (codes ";") >> pure (binding l k vs [] e args es var_arg)

  unfoldable pub block_item : Parser Statement
  block_item = label_def <|> local_binding <|> g.statement

  unfoldable pub block_items : Parser (List Statement)
  block_items st = item_rounds (suc (length st.rest)) block_item st

  unfoldable pub block_statement : Parser Statement
  block_statement = at_location λ l.
      symbol (codes "{") >> block_items >>= λ ss. close_block >> pure (block l (to_statements ss))
