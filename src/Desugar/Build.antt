-- ===== src/Desugar/Build.antt =====
-- The nodes that compiler/desugar.cpp makes, by the constructors of compiler/ceramic.hpp.
use ceramic.Prelude.{
  ℕ, zero, suc, ◌+◌, ◌/◌, ◌%◌, false, none, List, [], ◌∷◌, Bytes, ltb, if◌then◌else◌,
}
use ceramic.Syntax.Node.{Location, Identifier, Place, primitive_named, operator_named, dont_care}
use ceramic.Syntax.Tree.{
  Expr, ExprList, no_exprs, add_expr, object_expr, no_expr, FormalArg, FormalArgs, formal_arg,
  no_args, add_arg, Statements, no_statements, add_statement,
}

-- `Identifier::get` with a location.
abbrev pub identifier_at : Bytes → Location → Identifier
identifier_at s l = record { str = s; is_operator = false; location = l }

-- The place of a node whose `location` is set, and of one that is left as it is made.
abbrev pub at : Location → Place
at l = record { location = l; start_location = none; end_location = none }

abbrev pub nowhere : Place
nowhere = at none

-- `operator_expr_…()` and `primitive_expr_…()`
abbrev pub operator_expr : Bytes → Expr
operator_expr name = object_expr nowhere (operator_named name)

abbrev pub primitive_expr : Bytes → Expr
primitive_expr name = object_expr nowhere (primitive_named name)

abbrev pub one_expr : Expr → ExprList
one_expr e = add_expr e no_exprs

abbrev pub append_exprs : ExprList → ExprList → ExprList
append_exprs no_exprs es = es
append_exprs (add_expr d ds) es = add_expr d (append_exprs ds es)

abbrev pub append_args : FormalArgs → FormalArgs → FormalArgs
append_args no_args as' = as'
append_args (add_arg a args) as' = add_arg a (append_args args as')

abbrev pub append_statements : Statements → Statements → Statements
append_statements no_statements ts = ts
append_statements (add_statement s ss) ts = add_statement s (append_statements ss ts)

-- An argument with a name alone.
abbrev pub plain_arg : Identifier → FormalArg
plain_arg x = formal_arg none x no_expr dont_care no_expr false

-- `identV` and `identVtoFormalV`
unfoldable pub ident_v : Identifier → FormalArgs
ident_v x = add_arg (plain_arg x) no_args

unfoldable pub ident_v_to_formal_v : List Identifier → FormalArgs
ident_v_to_formal_v [] = no_args
ident_v_to_formal_v (x ∷ xs) = add_arg (plain_arg x) (ident_v_to_formal_v xs)

-- A number as a stream prints it.
show_onto : ℕ → ℕ → Bytes → Bytes
show_onto zero n done = done
show_onto (suc f) n done =
    let rest = show_onto f (n / 10) ((b'0' + n % 10) ∷ done) in
    if ltb n 10 then (b'0' + n % 10) ∷ done else rest

unfoldable pub show : ℕ → Bytes
unfolding show_onto
show n = show_onto (suc n) n []
