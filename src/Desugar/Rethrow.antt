-- ===== src/Desugar/Rethrow.antt =====
-- compiler/desugar.cpp, lines 189-195 and 320-333: the names that `throw;` stands for, and the names that a handler
-- binds.
use ceramic.Prelude.{
  ◌≡◌, refl, Bool, true, false, ◌||◌, Option, none, some, Bytes, codes, bytes_eq, arith,
}
use ceramic.Desugar.Build.{identifier_at, nowhere, ident_v, ident_v_to_formal_v}
use ceramic.Desugar.Statements.{bind, make_exception_vars, handler, desugar_throw}
use ceramic.Syntax.Node.{Location, Identifier}
use ceramic.Syntax.Tree.{
  Expr, no_expr, an_expr, name_ref, FormalArgs, formal_arg, no_args, add_arg, Statement, Statements,
  block, binding, no_statements, add_statement,
}

abbrev pub named : Bytes → FormalArgs → Bool
named name no_args = false
named name (add_arg (formal_arg _ x _ _ _ _) args) = bytes_eq x.str name || named name args

-- Whether a binding among the statements of the block binds the name.
abbrev pub bound_in : Bytes → Statements → Bool
bound_in name no_statements = false
bound_in name (add_statement (binding _ _ _ _ _ args _ _) ss) = named name args || bound_in name ss
bound_in name (add_statement (block _ _) ss) = bound_in name ss
bound_in name (add_statement _ ss) = bound_in name ss

abbrev pub bound_by : Bytes → Statement → Bool
bound_by name (block l ss) = bound_in name ss
bound_by name (binding _ _ _ _ _ _ _ _) = false
bound_by name _ = false

-- Statements that bind nothing in the block around them.
abbrev pub binds_nothing : Statement → Bool
binds_nothing (binding _ _ _ _ _ _ _ _) = false
binds_nothing (block _ _) = true
binds_nothing _ = true

abbrev pub context_named : Option Identifier → Bytes → Bool
context_named none name = bytes_eq (codes "%context") name
context_named (some c) name = bytes_eq c.str name

bound_in-body :
    (name : Bytes) (body : Statement)
    → binds_nothing body ≡ true
    → bound_in name (add_statement body no_statements) ≡ false
bound_in-body name (binding _ _ _ _ _ _ _ _) h = cc
bound_in-body name (block _ _) h = refl
bound_in-body name _ h = refl

-- A handler binds the name that a `throw;` in its body stands for, and it binds the name of the context for
-- it exactly if the source gives the context no name of its own.
pub handler-binds_rethrown :
    (l m : Location) (x : Identifier) (context : Option Identifier) (getter : Expr)
    (body : Statement)
    → binds_nothing body ≡ true
    → bytes_eq x.str (codes "%context") ≡ false
    → (desugar_throw m no_expr no_expr no_expr no_expr ≡ (
      an_expr (name_ref nowhere (identifier_at (codes "%exception") m)),
      an_expr (name_ref nowhere (identifier_at (codes "%context") m)),
    ))
      × (bound_by (codes "%exception") (handler l x context getter body) ≡ true)
      × (bound_by (codes "%context") (handler l x context getter body)
          ≡ context_named context (codes "%context"))
unfolding desugar_throw handler bind make_exception_vars ident_v ident_v_to_formal_v
handler-binds_rethrown l m x none getter body b h =
    (refl, ground arith, ground (arith, bound_in-body (codes "%context") body b))
handler-binds_rethrown l m x (some c) getter body b h =
    (refl, ground arith, ground (arith, bound_in-body (codes "%context") body b))
