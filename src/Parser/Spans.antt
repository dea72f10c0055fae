-- ===== src/Parser/Spans.antt =====
-- compiler/parser.cpp, lines 1330-1334: where an expression starts and ends.
use ceramic.Prelude.{Bool, true, false}
use ceramic.Syntax.Node.{Location, Place}
use ceramic.Syntax.Tree.{
  Expr, bool_literal, int_literal, float_literal, char_literal, string_literal, file_expr,
  line_expr, column_expr, arg_expr, name_ref, tuple, paren, indexing, call, field_ref,
  static_indexing, variadic_op, and_expr, or_expr, lambda, unpack, static_expr, dispatch_expr,
  foreign_expr, object_expr, eval_expr,
}

-- `x->startLocation = start; x->endLocation = end;`
unfoldable pub between : Location → Location → Place → Place
between start end p = record p { start_location = start; end_location = end }

unfoldable pub spanned : Location → Location → Expr → Expr
unfolding between
spanned start end (bool_literal p x1) = bool_literal (between start end p) x1
spanned start end (int_literal p x1 x2) = int_literal (between start end p) x1 x2
spanned start end (float_literal p x1 x2) = float_literal (between start end p) x1 x2
spanned start end (char_literal p x1) = char_literal (between start end p) x1
spanned start end (string_literal p x1) = string_literal (between start end p) x1
spanned start end (file_expr p) = file_expr (between start end p)
spanned start end (line_expr p) = line_expr (between start end p)
spanned start end (column_expr p) = column_expr (between start end p)
spanned start end (arg_expr p x1) = arg_expr (between start end p) x1
spanned start end (name_ref p x1) = name_ref (between start end p) x1
spanned start end (tuple p x1) = tuple (between start end p) x1
spanned start end (paren p x1) = paren (between start end p) x1
spanned start end (indexing p x1 x2) = indexing (between start end p) x1 x2
spanned start end (call p x1 x2) = call (between start end p) x1 x2
spanned start end (field_ref p x1 x2) = field_ref (between start end p) x1 x2
spanned start end (static_indexing p x1 x2) = static_indexing (between start end p) x1 x2
spanned start end (variadic_op p x1 x2) = variadic_op (between start end p) x1 x2
spanned start end (and_expr p x1 x2) = and_expr (between start end p) x1 x2
spanned start end (or_expr p x1 x2) = or_expr (between start end p) x1 x2
spanned start end (lambda p x1 x2 x3 x4 x5) = lambda (between start end p) x1 x2 x3 x4 x5
spanned start end (unpack p x1) = unpack (between start end p) x1
spanned start end (static_expr p x1) = static_expr (between start end p) x1
spanned start end (dispatch_expr p x1) = dispatch_expr (between start end p) x1
spanned start end (foreign_expr p x1 x2) = foreign_expr (between start end p) x1 x2
spanned start end (object_expr p x1) = object_expr (between start end p) x1
spanned start end (eval_expr p x1) = eval_expr (between start end p) x1

abbrev pub is_unpack : Expr → Bool
is_unpack (unpack p e) = true
is_unpack e = false
