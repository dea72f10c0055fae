-- ===== src/Desugar/Overloads.antt =====
-- compiler/desugar.cpp, lines 452-516: overloads whose arguments are converted.
pub mod Order
use ceramic.Prelude.{
  ℕ, zero, suc, ◌+◌, Bool, true, false, Option, none, some, List, [], ◌∷◌, ◌++◌, Bytes, codes,
}
use ceramic.Desugar.Build.{
  identifier_at, at, nowhere, operator_expr, one_expr, append_exprs, append_args, show,
}
use ceramic.Desugar.Exprs.{wrap_into_static}
use ceramic.Syntax.Clone.{clone_opt_expr}
use ceramic.Syntax.Code.{Code}
use ceramic.Syntax.Node.{
  Location, Identifier, Place, PatternVar, dont_care, forward_value, return_forward,
}
use ceramic.Syntax.Places.{statement_location}
use ceramic.Syntax.Tree.{
  Expr, OptExpr, ExprList, no_expr, an_expr, no_exprs, add_expr, name_ref, call, unpack, FormalArg,
  FormalArgs, formal_arg, no_args, add_arg, Statement, return_statement, a_statement, no_statement,
  OptStatement,
}

pub data InlineAttribute : Type 0 where
  ignore inline force_inline never_inline : InlineAttribute

-- The fields of an `Overload` that are read or set here; `env` and `module` are addresses.
pub record Overload : Type 0 where
  pub location : Location
  pub module_address : ℕ
  pub env : ℕ
  pub target : Expr
  pub code : Code
  pub call_by_name : Bool
  pub is_inline : InlineAttribute
  pub has_as_conversion : Bool

-- `%asArg0 : Static[V]`, and so on: the argument for the pattern variable with the index.
unfoldable pub static_arg : ℕ → PatternVar → FormalArg
static_arg i v =
    let l = v.name.location in
    formal_arg l (identifier_at (codes "%asArg" ++ show i) none)
      (an_expr (
        wrap_into_static (record { location = none; start_location = l; end_location = l })
          (name_ref nowhere v.name)))
      dont_care no_expr false

-- Each is inserted in front of those before it.
unfoldable pub static_args : ℕ → List PatternVar → FormalArgs → FormalArgs
static_args i [] args = args
static_args i (v ∷ vs) args = static_args (suc i) vs (add_arg (static_arg i v) args)

-- The pattern variables in the call, in their order.
unfoldable pub static_call_args : List PatternVar → ExprList
static_call_args [] = no_exprs
static_call_args (v ∷ vs) = add_expr (name_ref nowhere v.name) (static_call_args vs)

-- The copy of an argument, which is forwarded, with the type to convert to if there is one.
unfoldable pub converted_arg : FormalArg → FormalArg
converted_arg (formal_arg l x type temp no_expr b) =
    formal_arg l x (clone_opt_expr type) forward_value no_expr b
converted_arg (formal_arg l x type temp (an_expr e) b) =
    formal_arg l x (an_expr e) forward_value (clone_opt_expr (an_expr e)) b

unfoldable pub converted_args : FormalArgs → FormalArgs
unfolding converted_arg
converted_args no_args = no_args
converted_args (add_arg a args) = add_arg (converted_arg a) (converted_args args)

-- The argument in the call: its name, or its conversion.
unfoldable pub passed_arg : FormalArg → Expr
passed_arg (formal_arg l x type temp no_expr b) = name_ref (at l) x
passed_arg (formal_arg l x type temp (an_expr e) b) =
    call (at l) (operator_expr (codes "asExpression")) (add_expr (name_ref nowhere x) (one_expr e))

unfoldable pub passed_args : FormalArgs → ExprList
unfolding passed_arg
passed_args no_args = no_exprs
passed_args (add_arg a args) = add_expr (passed_arg a) (passed_args args)

-- The overload with the converted arguments, and the one that is left, which calls it.
unfoldable pub as_specialised : Overload → Overload
unfolding static_args converted_args
as_specialised x = record {
  location = x.location;
  module_address = x.module_address;
  env = x.env;
  target = x.target;
  code = record {
    location = x.location;
    pattern_vars = x.code.pattern_vars;
    predicate = no_expr;
    formal_args =
        append_args (static_args 0 x.code.pattern_vars no_args) (converted_args x.code.formal_args);
    return_specs = [];
    var_return_spec = none;
    body = x.code.body;
    llvm_body = none;
    has_var_arg = false;
    return_specs_declared = false;
  };
  call_by_name = x.call_by_name;
  is_inline = x.is_inline;
  has_as_conversion = false;
}

unfoldable pub as_stub : Overload → Statement → Overload
unfolding static_call_args passed_args
as_stub x body =
    let args =
      append_exprs (static_call_args x.code.pattern_vars) (passed_args x.code.formal_args) in
    record x {
      code = record (x.code) {
        body = a_statement (
            return_statement none return_forward
              (one_expr (unpack nowhere (call (at (statement_location body)) x.target args))) true
              false);
      };
      is_inline = force_inline;
    }

-- The specialised overload and what becomes of `x`, by its body; `none` where the code follows a null body.
unfoldable pub as_overloads : Overload → OptStatement → Option (Overload × Overload)
unfolding as_specialised as_stub
as_overloads x no_statement = none
as_overloads x (a_statement body) = some (as_specialised x, as_stub x body)

unfoldable pub desugar_as_overload : Overload → Option (Overload × Overload)
unfolding as_overloads
desugar_as_overload x = as_overloads x x.code.body
