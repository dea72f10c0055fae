-- ===== src/Desugar/Statements.antt =====
-- compiler/desugar.cpp, lines 108-381: loops, handlers of exceptions and switches.
use ceramic.Prelude.{false, Option, none, some, List, [], ◌∷◌, Bytes, codes}
use ceramic.Desugar.Build.{
  identifier_at, at, nowhere, operator_expr, primitive_expr, one_expr, append_statements, ident_v,
  ident_v_to_formal_v,
}
use ceramic.Syntax.Node.{
  Location, Identifier, var_binding, ref_binding, forward_binding, BindingKind,
}
use ceramic.Syntax.Places.{expr_location, statement_location}
use ceramic.Syntax.Tree.{
  Expr, OptExpr, ExprList, no_exprs, add_expr, no_expr, an_expr, name_ref, paren, call, FormalArgs,
  Statement, OptStatement, Statements, CaseBlocks, Catch, Catches, block, binding, if_statement,
  while_statement, expr_statement, unreachable, no_statement, a_statement, no_statements,
  add_statement, case_block, no_cases, add_case, catch_block, no_catches, add_catch,
}

-- `Binding(kind, args, values)`
unfoldable pub bind : Location → BindingKind → FormalArgs → Expr → Statement
bind l kind args e = binding l kind [] [] no_expr args (one_expr e) false

abbrev operator_call : Location → Bytes → Expr → Expr
operator_call l name e = call (at l) (operator_expr name) (one_expr e)

-- The round of the loop: the values of the iterator are bound in front of the body.
unfoldable pub for_body : List Identifier → Location → Identifier → Statement → Statement
unfolding bind ident_v_to_formal_v
for_body variables l value_var body = block l (
    add_statement
      (bind none forward_binding (ident_v_to_formal_v variables)
        (operator_call l (codes "getValue") (name_ref (at l) value_var)))
      (add_statement body no_statements))

-- `l` is the location of the loop; what is made takes that of its body, but for the loop and the
-- name of the expression.
unfoldable pub desugar_for_statement : Location → List Identifier → Expr → Statement → Statement
unfolding bind ident_v for_body
desugar_for_statement l variables e body =
    let expr_var = identifier_at (codes "%expr") l in
    let iter_var = identifier_at (codes "%iter") l in
    let value_var = identifier_at (codes "%value") l in
    let k = statement_location body in
    block k (
      add_statement (bind k forward_binding (ident_v expr_var) e) (
        add_statement
          (bind k forward_binding (ident_v iter_var)
            (operator_call k (codes "iterator") (name_ref (at l) expr_var)))
          (add_statement
            (while_statement l
              (add_statement
                (bind k var_binding (ident_v value_var)
                  (operator_call k (codes "nextValue") (name_ref (at k) iter_var)))
                no_statements)
              (operator_call k (codes "hasValue?") (name_ref (at k) value_var))
              (for_body variables k value_var body))
            no_statements)))

-- The name of the exception and that of its context.
unfoldable pub make_exception_vars : Location → Identifier → Option Identifier → List Identifier
make_exception_vars l x (some context) = x ∷ context ∷ []
make_exception_vars l x none = x ∷ identifier_at (codes "%context") l ∷ []

-- What a handler runs: the exception is bound, then bound again for `throw;`, then comes the body.
unfoldable pub handler : Location → Identifier → Option Identifier → Expr → Statement → Statement
unfolding bind ident_v ident_v_to_formal_v make_exception_vars
handler l x context getter body = block l (
    add_statement
      (bind x.location var_binding (ident_v_to_formal_v (make_exception_vars l x context)) getter)
      (add_statement
        (bind x.location ref_binding (ident_v (identifier_at (codes "%exception") l))
          (name_ref nowhere (identifier_at x.str l)))
        (add_statement body no_statements)))

-- The arguments of the test and of the getter of a handler with a type.
abbrev as_type_args : Identifier → Identifier → Expr → ExprList
as_type_args exp_var x type = add_expr type (one_expr (name_ref (at x.location) exp_var))

abbrev pub exception_is : Identifier → Identifier → Expr → Expr
exception_is exp_var x type =
    call (at (expr_location type)) (operator_expr (codes "exceptionIs?"))
      (as_type_args exp_var x type)

-- The call that gives the exception and its context to a handler, by its type.
unfoldable pub exception_getter : Identifier → Identifier → OptExpr → Expr
exception_getter exp_var x (an_expr type) =
    call (at x.location) (operator_expr (codes "exceptionAs")) (as_type_args exp_var x type)
exception_getter exp_var x no_expr =
    call (at x.location) (operator_expr (codes "exceptionAsAny"))
      (one_expr (name_ref nowhere exp_var))

-- What follows the last handler where none takes every exception.
unfoldable pub continue_exception : Location → Identifier → Statement
continue_exception first exp_var = block first (
    add_statement
      (expr_statement first
        (operator_call first (codes "continueException") (name_ref (at first) exp_var)))
      (add_statement (unreachable none) no_statements))

-- The loop over the handlers, from the inside: each is the `elsePart` of the one before. Those behind a handler of
-- every exception are dropped, with a warning.
unfoldable pub catch_chain : Location → Identifier → Catches → Statement
unfolding handler continue_exception exception_getter
catch_chain first exp_var no_catches = continue_exception first exp_var
catch_chain first exp_var (add_catch (catch_block l x (an_expr type) context body) cs) =
    if_statement l no_statements (exception_is exp_var x type)
      (handler l x context (exception_getter exp_var x (an_expr type)) body)
      (a_statement (catch_chain first exp_var cs))
catch_chain first exp_var (add_catch (catch_block l x no_expr context body) cs) =
    handler l x context (exception_getter exp_var x no_expr) body

abbrev catch_location : Catch → Location
catch_location (catch_block l _ _ _ _) = l

-- `none` where the assertion that there is a handler fails.
unfoldable pub desugar_catch_blocks : Catches → Option Statement
unfolding bind ident_v_to_formal_v catch_chain
desugar_catch_blocks no_catches = none
desugar_catch_blocks (add_catch c cs) =
    let first = catch_location c in
    let exp_var = identifier_at (codes "%exp") first in
    some (
      block first (
        add_statement
          (bind first var_binding (ident_v_to_formal_v (exp_var ∷ []))
            (call (at first) (primitive_expr (codes "activeException")) no_exprs))
          (add_statement (catch_chain first exp_var (add_catch c cs)) no_statements)))

-- `desugaredExpr` and `desugaredContext`, from the fields of the statement.
unfoldable pub desugar_throw : Location → OptExpr → OptExpr → OptExpr → OptExpr → OptExpr × OptExpr
desugar_throw l e context (an_expr d) desugared_context = (an_expr d, desugared_context)
desugar_throw l (an_expr e) context no_expr desugared_context = (an_expr e, context)
desugar_throw l no_expr context no_expr desugared_context = (
  an_expr (name_ref nowhere (identifier_at (codes "%exception") l)),
  an_expr (name_ref nowhere (identifier_at (codes "%context") l)),
)

-- The test of a case: `thing` is the value that is switched on.
abbrev pub case_condition : Expr → Location → ExprList → Expr
case_condition thing l labels =
    call (at l) (operator_expr (codes "case?")) (add_expr thing (one_expr (paren (at l) labels)))

-- The cases, each the `elsePart` of the one before, and the default case last.
unfoldable pub case_chain : Expr → CaseBlocks → OptStatement → OptStatement
case_chain thing no_cases default = default
case_chain thing (add_case (case_block l labels body) cs) default = a_statement (
    if_statement l no_statements (case_condition thing l labels) body (case_chain thing cs default))

-- `none` where the block would end in a null statement: there is no case and no default.
unfoldable pub desugar_switch_statement :
    Location → Statements → Expr → CaseBlocks → OptStatement → Option Statement
unfolding bind ident_v case_chain
desugar_switch_statement l expr_statements e cs default =
    let thing = identifier_at (codes "%case") (expr_location e) in
    let bound = bind (expr_location e) forward_binding (ident_v thing) e in
    elim (case_chain (name_ref (at (expr_location e)) thing) cs default) [
      | no_statement ↦ none
      | a_statement root ↦ some (
          block l (
            append_statements expr_statements
              (add_statement bound (add_statement root no_statements))))
    ]
