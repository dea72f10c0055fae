-- ===== src/Desugar/Exprs.antt =====
-- compiler/desugar.cpp, lines 12-106 and 383-388: expressions.
use ceramic.Prelude.{
  ℕ, ◌-◌, ◌∷◌, Bool, true, false, Option, none, some, Bytes, codes, bytes_eq, ltb, if◌then◌else◌,
}
use ceramic.Desugar.Build.{
  at, nowhere, operator_expr, primitive_expr, one_expr, show, identifier_at,
}
use ceramic.Syntax.Node.{
  Identifier, Place, VariadicOpKind, dereference, address_of, not_op, prefix_op, infix_op, if_op,
  module_object, identifier_object, size_value, module_named,
}
use ceramic.Syntax.Tree.{
  Expr, ExprList, add_expr, object_expr, static_expr, name_ref, field_ref, call, int_literal,
  foreign_expr, indexing,
}

-- `(int)c` printed, where a `char` above 127 is negative.
unfoldable pub char_text : ℕ → Bytes
char_text c = if ltb c 128 then show c else b'-' ∷ show (256 - c)

unfoldable pub desugar_char_literal : ℕ → Expr
unfolding char_text
desugar_char_literal c =
    call nowhere (operator_expr (codes "charLiteral"))
      (one_expr (int_literal nowhere (char_text c) (codes "ss")))

-- The tree of the imported module names: of each name the module, if it is one, and the names below it.
mutual
  pub data ModuleNode : Type 0 where
    module_node : Option ℕ → ModuleNames → ModuleNode

  pub data ModuleNames : Type 0 where
    no_names : ModuleNames
    add_name : Bytes → ModuleNode → ModuleNames → ModuleNames

abbrev pub find_node : Bytes → ModuleNames → Option ModuleNode
find_node k no_names = none
find_node k (add_name j x t) = if bytes_eq j k then some x else find_node k t

-- The chain of names down to a `NameRef`, where `x` is the name of the `FieldRef` and `e` its expression.
unfoldable pub dotted_imported_module : Expr → Bytes → ModuleNames → Option ℕ
dotted_imported_module (field_ref _ e y) x t = elim (find_node x t) [
  | none ↦ none
  | some (module_node _ below) ↦ dotted_imported_module e y.str below
]
dotted_imported_module (name_ref _ y) x t = elim (find_node x t) [
  | none ↦ none
  | some (module_node _ below) ↦ elim (find_node y.str below) [
    | none ↦ none
    | some (module_node m _) ↦ m
  ]
]
dotted_imported_module _ x t = none

abbrev pub is_dotted : Expr → Bool
is_dotted (field_ref _ _ _) = true
is_dotted (name_ref _ _) = true
is_dotted _ = false

-- `isDottedModuleName` with `desugared`.
unfoldable pub desugar_field_ref : Place → Expr → Identifier → ModuleNames → Bool × Expr
unfolding dotted_imported_module
desugar_field_ref p e x t =
    let plain =
      call (at p.location) (operator_expr (codes "fieldRef"))
        (add_expr e (one_expr (object_expr nowhere (identifier_object x)))) in
    elim (if is_dotted e then dotted_imported_module e x.str t else none) [
      | some m ↦ (true, object_expr nowhere (module_object m))
      | none ↦ (false, plain)
    ]

unfoldable pub desugar_static_indexing : Place → Expr → ℕ → Expr
desugar_static_indexing p e index =
    call (at p.location) (operator_expr (codes "staticIndex"))
      (add_expr e (one_expr (static_expr nowhere (object_expr nowhere (size_value index)))))

unfoldable pub lookup_callable : VariadicOpKind → Expr
lookup_callable dereference = operator_expr (codes "dereference")
lookup_callable address_of = primitive_expr (codes "addressOf")
lookup_callable not_op = primitive_expr (codes "boolNot")
lookup_callable prefix_op = operator_expr (codes "prefixOperator")
lookup_callable infix_op = operator_expr (codes "infixOperator")
lookup_callable if_op = operator_expr (codes "ifExpression")

unfoldable pub desugar_variadic_op : Place → VariadicOpKind → ExprList → Expr
unfolding lookup_callable
desugar_variadic_op p op es = call (at p.location) (lookup_callable op) es

unfoldable pub wrap_into_static : Place → Expr → Expr
wrap_into_static p e =
    indexing p
      (foreign_expr nowhere (module_named (codes "prelude"))
        (name_ref nowhere (identifier_at (codes "Static") none)))
      (one_expr e)
