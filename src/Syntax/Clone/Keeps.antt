-- ===== src/Syntax/Clone/Keeps.antt =====
-- compiler/clone.cpp: the trees that a copy keeps whole.
use ceramic.Prelude.{◌≡◌, false, []}
use ceramic.Syntax.Tree.{
  Expr, OptExpr, ExprList, FormalArg, FormalArgs, Statement, OptStatement, Statements, CaseBlock,
  CaseBlocks, Catch, Catches, bool_literal, int_literal, float_literal, char_literal,
  string_literal, file_expr, line_expr, column_expr, arg_expr, name_ref, tuple, paren, indexing,
  call, field_ref, static_indexing, variadic_op, and_expr, or_expr, lambda, unpack, static_expr,
  dispatch_expr, foreign_expr, object_expr, eval_expr, no_expr, an_expr, no_exprs, add_expr,
  formal_arg, no_args, add_arg, block, label, binding, assignment, init_assignment,
  variadic_assignment, goto_statement, return_statement, if_statement, switch_statement,
  expr_statement, while_statement, break_statement, continue_statement, for_statement,
  foreign_statement, try_statement, throw_statement, static_for, finally_statement, on_error,
  unreachable, eval_statement, static_assert_statement, no_statement, a_statement, no_statements,
  add_statement, case_block, no_cases, add_case, catch_block, no_catches, add_catch,
}

-- No return is marked, as the parser marks a body that is one expression, and no binding has the types of
-- its pattern variables yet.
abbrev mutual
  pub KeepsExpr : Expr → Type 0
  KeepsExpr (bool_literal _ _) = Unit
  KeepsExpr (int_literal _ _ _) = Unit
  KeepsExpr (float_literal _ _ _) = Unit
  KeepsExpr (char_literal _ _) = Unit
  KeepsExpr (string_literal _ _) = Unit
  KeepsExpr (file_expr _) = Unit
  KeepsExpr (line_expr _) = Unit
  KeepsExpr (column_expr _) = Unit
  KeepsExpr (arg_expr _ _) = Unit
  KeepsExpr (name_ref _ _) = Unit
  KeepsExpr (tuple _ es) = KeepsExprList es
  KeepsExpr (paren _ es) = KeepsExprList es
  KeepsExpr (indexing _ e es) = KeepsExpr e × KeepsExprList es
  KeepsExpr (call _ e es) = KeepsExpr e × KeepsExprList es
  KeepsExpr (field_ref _ e _) = KeepsExpr e
  KeepsExpr (static_indexing _ e _) = KeepsExpr e
  KeepsExpr (variadic_op _ _ es) = KeepsExprList es
  KeepsExpr (and_expr _ e1 e2) = KeepsExpr e1 × KeepsExpr e2
  KeepsExpr (or_expr _ e1 e2) = KeepsExpr e1 × KeepsExpr e2
  KeepsExpr (lambda _ _ args _ _ s) = KeepsFormalArgs args × KeepsStatement s
  KeepsExpr (unpack _ e) = KeepsExpr e
  KeepsExpr (static_expr _ e) = KeepsExpr e
  KeepsExpr (dispatch_expr _ e) = KeepsExpr e
  KeepsExpr (foreign_expr _ _ _) = Unit
  KeepsExpr (object_expr _ _) = Unit
  KeepsExpr (eval_expr _ e) = KeepsExpr e

  pub KeepsOptExpr : OptExpr → Type 0
  KeepsOptExpr no_expr = Unit
  KeepsOptExpr (an_expr e) = KeepsExpr e

  pub KeepsExprList : ExprList → Type 0
  KeepsExprList no_exprs = Unit
  KeepsExprList (add_expr e es) = KeepsExpr e × KeepsExprList es

  pub KeepsFormalArg : FormalArg → Type 0
  KeepsFormalArg (formal_arg _ _ o1 _ o2 _) = KeepsOptExpr o1 × KeepsOptExpr o2

  pub KeepsFormalArgs : FormalArgs → Type 0
  KeepsFormalArgs no_args = Unit
  KeepsFormalArgs (add_arg a args) = KeepsFormalArg a × KeepsFormalArgs args

  pub KeepsStatement : Statement → Type 0
  KeepsStatement (block _ ss) = KeepsStatements ss
  KeepsStatement (label _ _) = Unit
  KeepsStatement (binding _ _ _ types o args es _) =
      (types ≡ []) × KeepsOptExpr o × KeepsFormalArgs args × KeepsExprList es
  KeepsStatement (assignment _ es1 es2) = KeepsExprList es1 × KeepsExprList es2
  KeepsStatement (init_assignment _ es1 es2) = KeepsExprList es1 × KeepsExprList es2
  KeepsStatement (variadic_assignment _ _ es) = KeepsExprList es
  KeepsStatement (goto_statement _ _) = Unit
  KeepsStatement (return_statement _ _ es b1 b2) = (b1 ≡ false) × (b2 ≡ false) × KeepsExprList es
  KeepsStatement (if_statement _ ss e s t) =
      KeepsStatements ss × KeepsExpr e × KeepsStatement s × KeepsOptStatement t
  KeepsStatement (switch_statement _ ss e cs t) =
      KeepsStatements ss × KeepsExpr e × KeepsCaseBlocks cs × KeepsOptStatement t
  KeepsStatement (expr_statement _ e) = KeepsExpr e
  KeepsStatement (while_statement _ ss e s) = KeepsStatements ss × KeepsExpr e × KeepsStatement s
  KeepsStatement (break_statement _) = Unit
  KeepsStatement (continue_statement _) = Unit
  KeepsStatement (for_statement _ _ e s) = KeepsExpr e × KeepsStatement s
  KeepsStatement (foreign_statement _ _ _) = Unit
  KeepsStatement (try_statement _ s cs) = KeepsStatement s × KeepsCatches cs
  KeepsStatement (throw_statement _ o1 o2 o3 o4) =
      KeepsOptExpr o1 × KeepsOptExpr o2 × KeepsOptExpr o3 × KeepsOptExpr o4
  KeepsStatement (static_for _ _ es s) = KeepsExprList es × KeepsStatement s
  KeepsStatement (finally_statement _ s) = KeepsStatement s
  KeepsStatement (on_error _ s) = KeepsStatement s
  KeepsStatement (unreachable _) = Unit
  KeepsStatement (eval_statement _ _) = Unit
  KeepsStatement (static_assert_statement _ e es) = KeepsExpr e × KeepsExprList es

  pub KeepsOptStatement : OptStatement → Type 0
  KeepsOptStatement no_statement = Unit
  KeepsOptStatement (a_statement s) = KeepsStatement s

  pub KeepsStatements : Statements → Type 0
  KeepsStatements no_statements = Unit
  KeepsStatements (add_statement s ss) = KeepsStatement s × KeepsStatements ss

  pub KeepsCaseBlock : CaseBlock → Type 0
  KeepsCaseBlock (case_block _ es s) = KeepsExprList es × KeepsStatement s

  pub KeepsCaseBlocks : CaseBlocks → Type 0
  KeepsCaseBlocks no_cases = Unit
  KeepsCaseBlocks (add_case c cs) = KeepsCaseBlock c × KeepsCaseBlocks cs

  pub KeepsCatch : Catch → Type 0
  KeepsCatch (catch_block _ _ o _ s) = KeepsOptExpr o × KeepsStatement s

  pub KeepsCatches : Catches → Type 0
  KeepsCatches no_catches = Unit
  KeepsCatches (add_catch c cs) = KeepsCatch c × KeepsCatches cs
