-- ===== src/Syntax/Clone.antt =====
-- compiler/clone.cpp: the copy of a tree.
pub mod Keeps
pub mod Same
use ceramic.Prelude.{ℕ, Bool, false, Option, none, some, List, [], ◌∷◌, Bytes}
use ceramic.Syntax.Tree.{
  Expr, OptExpr, ExprList, FormalArg, FormalArgs, Statement, OptStatement, Statements, CaseBlock,
  CaseBlocks, Catch, Catches, bool_literal, int_literal, float_literal, char_literal,
  string_literal, file_expr, line_expr, column_expr, arg_expr, name_ref, tuple, paren, indexing,
  call, field_ref, static_indexing, variadic_op, and_expr, or_expr, lambda, unpack, static_expr,
  dispatch_expr, foreign_expr, object_expr, eval_expr, no_expr, an_expr, no_exprs, add_expr,
  formal_arg, no_args, add_arg, block, label, binding, assignment, init_assignment,
  variadic_assignment, goto_statement, return_statement, if_statement, switch_statement,
  expr_statement, while_statement, break_statement, continue_statement, for_statement,
  foreign_statement, try_statement, throw_statement, static_for, finally_statement, on_error,
  unreachable, eval_statement, static_assert_statement, no_statement, a_statement, no_statements,
  add_statement, case_block, no_cases, add_case, catch_block, no_catches, add_catch,
}

-- What is shared with the original, and not copied, is the same tree here.
unfoldable mutual
  pub clone_expr : Expr → Expr
  clone_expr (bool_literal p b) = bool_literal p b
  clone_expr (int_literal p text1 text2) = int_literal p text1 text2
  clone_expr (float_literal p text1 text2) = float_literal p text1 text2
  clone_expr (char_literal p n) = char_literal p n
  clone_expr (string_literal p x) = string_literal p x
  clone_expr (file_expr p) = file_expr p
  clone_expr (line_expr p) = line_expr p
  clone_expr (column_expr p) = column_expr p
  clone_expr (arg_expr p x) = arg_expr p x
  clone_expr (name_ref p x) = name_ref p x
  clone_expr (tuple p es) = tuple p (clone_expr_list es)
  clone_expr (paren p es) = paren p (clone_expr_list es)
  clone_expr (indexing p e es) = indexing p (clone_expr e) (clone_expr_list es)
  clone_expr (call p e es) = call p (clone_expr e) (clone_expr_list es)
  clone_expr (field_ref p e x) = field_ref p (clone_expr e) x
  clone_expr (static_indexing p e n) = static_indexing p (clone_expr e) n
  clone_expr (variadic_op p op es) = variadic_op p op (clone_expr_list es)
  clone_expr (and_expr p e1 e2) = and_expr p (clone_expr e1) (clone_expr e2)
  clone_expr (or_expr p e1 e2) = or_expr p (clone_expr e1) (clone_expr e2)
  clone_expr (lambda p by args b1 b2 s) =
      lambda p by (clone_formal_args args) b1 b2 (clone_statement s)
  clone_expr (unpack p e) = unpack p (clone_expr e)
  clone_expr (static_expr p e) = static_expr p (clone_expr e)
  clone_expr (dispatch_expr p e) = dispatch_expr p (clone_expr e)
  clone_expr (foreign_expr p place e) = foreign_expr p place e
  clone_expr (object_expr p obj) = object_expr p obj
  clone_expr (eval_expr p e) = eval_expr p (clone_expr e)

  pub clone_opt_expr : OptExpr → OptExpr
  clone_opt_expr no_expr = no_expr
  clone_opt_expr (an_expr e) = an_expr (clone_expr e)

  pub clone_expr_list : ExprList → ExprList
  clone_expr_list no_exprs = no_exprs
  clone_expr_list (add_expr e es) = add_expr (clone_expr e) (clone_expr_list es)

  pub clone_formal_arg : FormalArg → FormalArg
  clone_formal_arg (formal_arg l x o1 temp o2 b) =
      formal_arg l x (clone_opt_expr o1) temp (clone_opt_expr o2) b

  pub clone_formal_args : FormalArgs → FormalArgs
  clone_formal_args no_args = no_args
  clone_formal_args (add_arg a args) = add_arg (clone_formal_arg a) (clone_formal_args args)

  pub clone_statement : Statement → Statement
  clone_statement (block l ss) = block l (clone_statements ss)
  clone_statement (label l x) = label l x
  clone_statement (binding l kind vars types o args es b) =
      binding l kind vars [] (clone_opt_expr o) (clone_formal_args args) (clone_expr_list es) b
  clone_statement (assignment l es1 es2) = assignment l (clone_expr_list es1) (clone_expr_list es2)
  clone_statement (init_assignment l es1 es2) =
      init_assignment l (clone_expr_list es1) (clone_expr_list es2)
  clone_statement (variadic_assignment l op es) = variadic_assignment l op (clone_expr_list es)
  clone_statement (goto_statement l x) = goto_statement l x
  clone_statement (return_statement l kind es b1 b2) =
      return_statement l kind (clone_expr_list es) false false
  clone_statement (if_statement l ss e s t) =
      if_statement l (clone_statements ss) (clone_expr e) (clone_statement s)
        (clone_opt_statement t)
  clone_statement (switch_statement l ss e cs t) =
      switch_statement l (clone_statements ss) (clone_expr e) (clone_case_blocks cs)
        (clone_opt_statement t)
  clone_statement (expr_statement l e) = expr_statement l (clone_expr e)
  clone_statement (while_statement l ss e s) =
      while_statement l (clone_statements ss) (clone_expr e) (clone_statement s)
  clone_statement (break_statement l) = break_statement l
  clone_statement (continue_statement l) = continue_statement l
  clone_statement (for_statement l xs e s) = for_statement l xs (clone_expr e) (clone_statement s)
  clone_statement (foreign_statement l place s) = foreign_statement l place s
  clone_statement (try_statement l s cs) = try_statement l (clone_statement s) (clone_catches cs)
  clone_statement (throw_statement l o1 o2 o3 o4) =
      throw_statement l (clone_opt_expr o1) (clone_opt_expr o2) (clone_opt_expr o3)
        (clone_opt_expr o4)
  clone_statement (static_for l x es s) = static_for l x (clone_expr_list es) (clone_statement s)
  clone_statement (finally_statement l s) = finally_statement l (clone_statement s)
  clone_statement (on_error l s) = on_error l (clone_statement s)
  clone_statement (unreachable l) = unreachable l
  clone_statement (eval_statement l es) = eval_statement l es
  clone_statement (static_assert_statement l e es) =
      static_assert_statement l (clone_expr e) (clone_expr_list es)

  pub clone_opt_statement : OptStatement → OptStatement
  clone_opt_statement no_statement = no_statement
  clone_opt_statement (a_statement s) = a_statement (clone_statement s)

  pub clone_statements : Statements → Statements
  clone_statements no_statements = no_statements
  clone_statements (add_statement s ss) = add_statement (clone_statement s) (clone_statements ss)

  pub clone_case_block : CaseBlock → CaseBlock
  clone_case_block (case_block l es s) = case_block l (clone_expr_list es) (clone_statement s)

  pub clone_case_blocks : CaseBlocks → CaseBlocks
  clone_case_blocks no_cases = no_cases
  clone_case_blocks (add_case c cs) = add_case (clone_case_block c) (clone_case_blocks cs)

  pub clone_catch : Catch → Catch
  clone_catch (catch_block l x o y s) = catch_block l x (clone_opt_expr o) y (clone_statement s)

  pub clone_catches : Catches → Catches
  clone_catches no_catches = no_catches
  clone_catches (add_catch c cs) = add_catch (clone_catch c) (clone_catches cs)
