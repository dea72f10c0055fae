-- ===== src/Syntax/Clone/Same.antt =====
-- compiler/clone.cpp: what a copy keeps.
use ceramic.Prelude.{◌≡◌, refl}
use ceramic.Syntax.Clone.{
  clone_expr, clone_opt_expr, clone_expr_list, clone_formal_arg, clone_formal_args, clone_statement,
  clone_opt_statement, clone_statements, clone_case_block, clone_case_blocks, clone_catch,
  clone_catches,
}
use ceramic.Syntax.Clone.Keeps.{
  KeepsExpr, KeepsOptExpr, KeepsExprList, KeepsFormalArg, KeepsFormalArgs, KeepsStatement,
  KeepsOptStatement, KeepsStatements, KeepsCaseBlock, KeepsCaseBlocks, KeepsCatch, KeepsCatches,
}
use ceramic.Syntax.Tree.{
  Expr, OptExpr, ExprList, FormalArg, FormalArgs, Statement, OptStatement, Statements, CaseBlock,
  CaseBlocks, Catch, Catches, bool_literal, int_literal, float_literal, char_literal,
  string_literal, file_expr, line_expr, column_expr, arg_expr, name_ref, tuple, paren, indexing,
  call, field_ref, static_indexing, variadic_op, and_expr, or_expr, lambda, unpack, static_expr,
  dispatch_expr, foreign_expr, object_expr, eval_expr, no_expr, an_expr, no_exprs, add_expr,
  formal_arg, no_args, add_arg, block, label, binding, assignment, init_assignment,
  variadic_assignment, goto_statement, return_statement, if_statement, switch_statement,
  expr_statement, while_statement, break_statement, continue_statement, for_statement,
  foreign_statement, try_statement, throw_statement, static_for, finally_statement, on_error,
  unreachable, eval_statement, static_assert_statement, no_statement, a_statement, no_statements,
  add_statement, case_block, no_cases, add_case, catch_block, no_catches, add_catch,
}

mutual
  unfolding clone_expr clone_opt_expr clone_expr_list clone_formal_arg clone_formal_args
      clone_statement clone_opt_statement clone_statements clone_case_block clone_case_blocks
      clone_catch clone_catches

  pub clone_expr-Keeps : (x : Expr) → KeepsExpr x → clone_expr x ≡ x
  clone_expr-Keeps (bool_literal p b) k = refl
  clone_expr-Keeps (int_literal p text1 text2) k = refl
  clone_expr-Keeps (float_literal p text1 text2) k = refl
  clone_expr-Keeps (char_literal p n) k = refl
  clone_expr-Keeps (string_literal p x) k = refl
  clone_expr-Keeps (file_expr p) k = refl
  clone_expr-Keeps (line_expr p) k = refl
  clone_expr-Keeps (column_expr p) k = refl
  clone_expr-Keeps (arg_expr p x) k = refl
  clone_expr-Keeps (name_ref p x) k = refl
  clone_expr-Keeps (tuple p es) k = cc (clone_expr_list-Keeps es k)
  clone_expr-Keeps (paren p es) k = cc (clone_expr_list-Keeps es k)
  clone_expr-Keeps (indexing p e es) k = cc (clone_expr-Keeps e k.0, clone_expr_list-Keeps es k.1)
  clone_expr-Keeps (call p e es) k = cc (clone_expr-Keeps e k.0, clone_expr_list-Keeps es k.1)
  clone_expr-Keeps (field_ref p e x) k = cc (clone_expr-Keeps e k)
  clone_expr-Keeps (static_indexing p e n) k = cc (clone_expr-Keeps e k)
  clone_expr-Keeps (variadic_op p op es) k = cc (clone_expr_list-Keeps es k)
  clone_expr-Keeps (and_expr p e1 e2) k = cc (clone_expr-Keeps e1 k.0, clone_expr-Keeps e2 k.1)
  clone_expr-Keeps (or_expr p e1 e2) k = cc (clone_expr-Keeps e1 k.0, clone_expr-Keeps e2 k.1)
  clone_expr-Keeps (lambda p by args b1 b2 s) k =
      cc (clone_formal_args-Keeps args k.0, clone_statement-Keeps s k.1)
  clone_expr-Keeps (unpack p e) k = cc (clone_expr-Keeps e k)
  clone_expr-Keeps (static_expr p e) k = cc (clone_expr-Keeps e k)
  clone_expr-Keeps (dispatch_expr p e) k = cc (clone_expr-Keeps e k)
  clone_expr-Keeps (foreign_expr p place e) k = refl
  clone_expr-Keeps (object_expr p obj) k = refl
  clone_expr-Keeps (eval_expr p e) k = cc (clone_expr-Keeps e k)

  pub clone_opt_expr-Keeps : (x : OptExpr) → KeepsOptExpr x → clone_opt_expr x ≡ x
  clone_opt_expr-Keeps no_expr k = refl
  clone_opt_expr-Keeps (an_expr e) k = cc (clone_expr-Keeps e k)

  pub clone_expr_list-Keeps : (x : ExprList) → KeepsExprList x → clone_expr_list x ≡ x
  clone_expr_list-Keeps no_exprs k = refl
  clone_expr_list-Keeps (add_expr e es) k =
      cc (clone_expr-Keeps e k.0, clone_expr_list-Keeps es k.1)

  pub clone_formal_arg-Keeps : (x : FormalArg) → KeepsFormalArg x → clone_formal_arg x ≡ x
  clone_formal_arg-Keeps (formal_arg l x o1 temp o2 b) k =
      cc (clone_opt_expr-Keeps o1 k.0, clone_opt_expr-Keeps o2 k.1)

  pub clone_formal_args-Keeps : (x : FormalArgs) → KeepsFormalArgs x → clone_formal_args x ≡ x
  clone_formal_args-Keeps no_args k = refl
  clone_formal_args-Keeps (add_arg a args) k =
      cc (clone_formal_arg-Keeps a k.0, clone_formal_args-Keeps args k.1)

  pub clone_statement-Keeps : (x : Statement) → KeepsStatement x → clone_statement x ≡ x
  clone_statement-Keeps (block l ss) k = cc (clone_statements-Keeps ss k)
  clone_statement-Keeps (label l x) k = refl
  clone_statement-Keeps (binding l kind vars types o args es b) k = cc (
    clone_opt_expr-Keeps o k.1,
    clone_formal_args-Keeps args k.2,
    clone_expr_list-Keeps es k.3,
    k.0,
  )
  clone_statement-Keeps (assignment l es1 es2) k =
      cc (clone_expr_list-Keeps es1 k.0, clone_expr_list-Keeps es2 k.1)
  clone_statement-Keeps (init_assignment l es1 es2) k =
      cc (clone_expr_list-Keeps es1 k.0, clone_expr_list-Keeps es2 k.1)
  clone_statement-Keeps (variadic_assignment l op es) k = cc (clone_expr_list-Keeps es k)
  clone_statement-Keeps (goto_statement l x) k = refl
  clone_statement-Keeps (return_statement l kind es b1 b2) k =
      cc (clone_expr_list-Keeps es k.2, k.0, k.1)
  clone_statement-Keeps (if_statement l ss e s t) k = cc (
    clone_statements-Keeps ss k.0,
    clone_expr-Keeps e k.1,
    clone_statement-Keeps s k.2,
    clone_opt_statement-Keeps t k.3,
  )
  clone_statement-Keeps (switch_statement l ss e cs t) k = cc (
    clone_statements-Keeps ss k.0,
    clone_expr-Keeps e k.1,
    clone_case_blocks-Keeps cs k.2,
    clone_opt_statement-Keeps t k.3,
  )
  clone_statement-Keeps (expr_statement l e) k = cc (clone_expr-Keeps e k)
  clone_statement-Keeps (while_statement l ss e s) k =
      cc (clone_statements-Keeps ss k.0, clone_expr-Keeps e k.1, clone_statement-Keeps s k.2)
  clone_statement-Keeps (break_statement l) k = refl
  clone_statement-Keeps (continue_statement l) k = refl
  clone_statement-Keeps (for_statement l xs e s) k =
      cc (clone_expr-Keeps e k.0, clone_statement-Keeps s k.1)
  clone_statement-Keeps (foreign_statement l place s) k = refl
  clone_statement-Keeps (try_statement l s cs) k =
      cc (clone_statement-Keeps s k.0, clone_catches-Keeps cs k.1)
  clone_statement-Keeps (throw_statement l o1 o2 o3 o4) k = cc (
    clone_opt_expr-Keeps o1 k.0,
    clone_opt_expr-Keeps o2 k.1,
    clone_opt_expr-Keeps o3 k.2,
    clone_opt_expr-Keeps o4 k.3,
  )
  clone_statement-Keeps (static_for l x es s) k =
      cc (clone_expr_list-Keeps es k.0, clone_statement-Keeps s k.1)
  clone_statement-Keeps (finally_statement l s) k = cc (clone_statement-Keeps s k)
  clone_statement-Keeps (on_error l s) k = cc (clone_statement-Keeps s k)
  clone_statement-Keeps (unreachable l) k = refl
  clone_statement-Keeps (eval_statement l es) k = refl
  clone_statement-Keeps (static_assert_statement l e es) k =
      cc (clone_expr-Keeps e k.0, clone_expr_list-Keeps es k.1)

  pub clone_opt_statement-Keeps :
      (x : OptStatement) → KeepsOptStatement x → clone_opt_statement x ≡ x
  clone_opt_statement-Keeps no_statement k = refl
  clone_opt_statement-Keeps (a_statement s) k = cc (clone_statement-Keeps s k)

  pub clone_statements-Keeps : (x : Statements) → KeepsStatements x → clone_statements x ≡ x
  clone_statements-Keeps no_statements k = refl
  clone_statements-Keeps (add_statement s ss) k =
      cc (clone_statement-Keeps s k.0, clone_statements-Keeps ss k.1)

  pub clone_case_block-Keeps : (x : CaseBlock) → KeepsCaseBlock x → clone_case_block x ≡ x
  clone_case_block-Keeps (case_block l es s) k =
      cc (clone_expr_list-Keeps es k.0, clone_statement-Keeps s k.1)

  pub clone_case_blocks-Keeps : (x : CaseBlocks) → KeepsCaseBlocks x → clone_case_blocks x ≡ x
  clone_case_blocks-Keeps no_cases k = refl
  clone_case_blocks-Keeps (add_case c cs) k =
      cc (clone_case_block-Keeps c k.0, clone_case_blocks-Keeps cs k.1)

  pub clone_catch-Keeps : (x : Catch) → KeepsCatch x → clone_catch x ≡ x
  clone_catch-Keeps (catch_block l x o y s) k =
      cc (clone_opt_expr-Keeps o k.0, clone_statement-Keeps s k.1)

  pub clone_catches-Keeps : (x : Catches) → KeepsCatches x → clone_catches x ≡ x
  clone_catches-Keeps no_catches k = refl
  clone_catches-Keeps (add_catch c cs) k = cc (clone_catch-Keeps c k.0, clone_catches-Keeps cs k.1)
