-- ===== src/Syntax/Places.antt =====
-- The locations of nodes.
use ceramic.Syntax.Node.{Location}
use ceramic.Syntax.Tree.{
  Expr, Statement, bool_literal, int_literal, float_literal, char_literal, string_literal,
  file_expr, line_expr, column_expr, arg_expr, name_ref, tuple, paren, indexing, call, field_ref,
  static_indexing, variadic_op, and_expr, or_expr, lambda, unpack, static_expr, dispatch_expr,
  foreign_expr, object_expr, eval_expr, block, label, binding, assignment, init_assignment,
  variadic_assignment, goto_statement, return_statement, if_statement, switch_statement,
  expr_statement, while_statement, break_statement, continue_statement, for_statement,
  foreign_statement, try_statement, throw_statement, static_for, finally_statement, on_error,
  unreachable, eval_statement, static_assert_statement,
}

abbrev pub expr_location : Expr → Location
expr_location (bool_literal p _) = p.location
expr_location (int_literal p _ _) = p.location
expr_location (float_literal p _ _) = p.location
expr_location (char_literal p _) = p.location
expr_location (string_literal p _) = p.location
expr_location (file_expr p) = p.location
expr_location (line_expr p) = p.location
expr_location (column_expr p) = p.location
expr_location (arg_expr p _) = p.location
expr_location (name_ref p _) = p.location
expr_location (tuple p _) = p.location
expr_location (paren p _) = p.location
expr_location (indexing p _ _) = p.location
expr_location (call p _ _) = p.location
expr_location (field_ref p _ _) = p.location
expr_location (static_indexing p _ _) = p.location
expr_location (variadic_op p _ _) = p.location
expr_location (and_expr p _ _) = p.location
expr_location (or_expr p _ _) = p.location
expr_location (lambda p _ _ _ _ _) = p.location
expr_location (unpack p _) = p.location
expr_location (static_expr p _) = p.location
expr_location (dispatch_expr p _) = p.location
expr_location (foreign_expr p _ _) = p.location
expr_location (object_expr p _) = p.location
expr_location (eval_expr p _) = p.location

abbrev pub statement_location : Statement → Location
statement_location (block l _) = l
statement_location (label l _) = l
statement_location (binding l _ _ _ _ _ _ _) = l
statement_location (assignment l _ _) = l
statement_location (init_assignment l _ _) = l
statement_location (variadic_assignment l _ _) = l
statement_location (goto_statement l _) = l
statement_location (return_statement l _ _ _ _) = l
statement_location (if_statement l _ _ _ _) = l
statement_location (switch_statement l _ _ _ _) = l
statement_location (expr_statement l _) = l
statement_location (while_statement l _ _ _) = l
statement_location (break_statement l) = l
statement_location (continue_statement l) = l
statement_location (for_statement l _ _ _) = l
statement_location (foreign_statement l _ _) = l
statement_location (try_statement l _ _) = l
statement_location (throw_statement l _ _ _ _) = l
statement_location (static_for l _ _ _) = l
statement_location (finally_statement l _) = l
statement_location (on_error l _) = l
statement_location (unreachable l) = l
statement_location (eval_statement l _) = l
statement_location (static_assert_statement l _ _) = l
