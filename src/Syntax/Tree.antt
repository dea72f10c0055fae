-- ===== src/Syntax/Tree.antt =====
-- compiler/ceramic.hpp, lines 666-1350: expressions, statements and their lists.
use ceramic.Prelude.{ℕ, Bool, Option, List, Bytes}
use ceramic.Syntax.Node.{
  Location, Identifier, Place, VariadicOpKind, LambdaCapture, BindingKind, ReturnKind,
  ValueTempness, PatternVar, Foreign, Object,
}

-- One constructor for each class; its fields in their order, with the location first. The list after the
-- pattern variables of a binding is `patternTypes`, and the last two fields of a return are `isExprReturn` and
-- `isReturnSpecs`.
mutual
  pub data Expr : Type 0 where
    bool_literal : Place → Bool → Expr
    int_literal : Place → Bytes → Bytes → Expr
    float_literal : Place → Bytes → Bytes → Expr
    char_literal : Place → ℕ → Expr
    string_literal : Place → Identifier → Expr
    file_expr : Place → Expr
    line_expr : Place → Expr
    column_expr : Place → Expr
    arg_expr : Place → Identifier → Expr
    name_ref : Place → Identifier → Expr
    tuple : Place → ExprList → Expr
    paren : Place → ExprList → Expr
    indexing : Place → Expr → ExprList → Expr
    call : Place → Expr → ExprList → Expr
    field_ref : Place → Expr → Identifier → Expr
    static_indexing : Place → Expr → ℕ → Expr
    variadic_op : Place → VariadicOpKind → ExprList → Expr
    and_expr : Place → Expr → Expr → Expr
    or_expr : Place → Expr → Expr → Expr
    lambda : Place → LambdaCapture → FormalArgs → Bool → Bool → Statement → Expr
    unpack : Place → Expr → Expr
    static_expr : Place → Expr → Expr
    dispatch_expr : Place → Expr → Expr
    foreign_expr : Place → Foreign → Expr → Expr
    object_expr : Place → Object → Expr
    eval_expr : Place → Expr → Expr

  pub data OptExpr : Type 0 where
    no_expr : OptExpr
    an_expr : Expr → OptExpr

  pub data ExprList : Type 0 where
    no_exprs : ExprList
    add_expr : Expr → ExprList → ExprList

  pub data FormalArg : Type 0 where
    formal_arg : Location → Identifier → OptExpr → ValueTempness → OptExpr → Bool → FormalArg

  pub data FormalArgs : Type 0 where
    no_args : FormalArgs
    add_arg : FormalArg → FormalArgs → FormalArgs

  pub data Statement : Type 0 where
    block : Location → Statements → Statement
    label : Location → Identifier → Statement
    binding :
        Location
        → BindingKind
        → List PatternVar
        → List ℕ
        → OptExpr
        → FormalArgs
        → ExprList
        → Bool
        → Statement
    assignment : Location → ExprList → ExprList → Statement
    init_assignment : Location → ExprList → ExprList → Statement
    variadic_assignment : Location → VariadicOpKind → ExprList → Statement
    goto_statement : Location → Identifier → Statement
    return_statement : Location → ReturnKind → ExprList → Bool → Bool → Statement
    if_statement : Location → Statements → Expr → Statement → OptStatement → Statement
    switch_statement : Location → Statements → Expr → CaseBlocks → OptStatement → Statement
    expr_statement : Location → Expr → Statement
    while_statement : Location → Statements → Expr → Statement → Statement
    break_statement : Location → Statement
    continue_statement : Location → Statement
    for_statement : Location → List Identifier → Expr → Statement → Statement
    foreign_statement : Location → Foreign → Statement → Statement
    try_statement : Location → Statement → Catches → Statement
    throw_statement : Location → OptExpr → OptExpr → OptExpr → OptExpr → Statement
    static_for : Location → Identifier → ExprList → Statement → Statement
    finally_statement : Location → Statement → Statement
    on_error : Location → Statement → Statement
    unreachable : Location → Statement
    eval_statement : Location → ExprList → Statement
    static_assert_statement : Location → Expr → ExprList → Statement

  pub data OptStatement : Type 0 where
    no_statement : OptStatement
    a_statement : Statement → OptStatement

  pub data Statements : Type 0 where
    no_statements : Statements
    add_statement : Statement → Statements → Statements

  pub data CaseBlock : Type 0 where
    case_block : Location → ExprList → Statement → CaseBlock

  pub data CaseBlocks : Type 0 where
    no_cases : CaseBlocks
    add_case : CaseBlock → CaseBlocks → CaseBlocks

  pub data Catch : Type 0 where
    catch_block : Location → Identifier → OptExpr → Option Identifier → Statement → Catch

  pub data Catches : Type 0 where
    no_catches : Catches
    add_catch : Catch → Catches → Catches
