-- ===== src/Syntax/Code.antt =====
-- compiler/ceramic.hpp, lines 1408-1470, and compiler/clone.cpp, lines 8-22: code and its copy.
use ceramic.Prelude.{arith, ◌≡◌, refl, Bool, Option, none, some, List, [], ◌∷◌, Bytes}
use ceramic.Syntax.Clone.{clone_expr, clone_opt_expr, clone_formal_args, clone_opt_statement}
use ceramic.Syntax.Clone.Keeps.{KeepsExpr, KeepsOptExpr, KeepsFormalArgs, KeepsOptStatement}
use ceramic.Syntax.Clone.Same.{
  clone_expr-Keeps, clone_opt_expr-Keeps, clone_formal_args-Keeps, clone_opt_statement-Keeps,
}
use ceramic.Syntax.Node.{Location, Identifier, PatternVar}
use ceramic.Syntax.Tree.{Expr, OptExpr, FormalArgs, OptStatement}

pub record ReturnSpec : Type 0 where
  pub location : Location
  pub spec_type : Expr
  pub name : Option Identifier

pub record Code : Type 0 where
  pub location : Location
  pub pattern_vars : List PatternVar
  pub predicate : OptExpr
  pub formal_args : FormalArgs
  pub return_specs : List ReturnSpec
  pub var_return_spec : Option ReturnSpec
  pub body : OptStatement
  pub llvm_body : Option Bytes
  pub has_var_arg : Bool
  pub return_specs_declared : Bool

-- The location is not copied.
unfoldable pub clone_return_spec : ReturnSpec → ReturnSpec
clone_return_spec r = record { location = none; spec_type = clone_expr r.spec_type; name = r.name }

unfoldable pub clone_return_specs : List ReturnSpec → List ReturnSpec
unfolding clone_return_spec
clone_return_specs [] = []
clone_return_specs (r ∷ rs) = clone_return_spec r ∷ clone_return_specs rs

unfoldable pub clone_opt_return_spec : Option ReturnSpec → Option ReturnSpec
unfolding clone_return_spec
clone_opt_return_spec none = none
clone_opt_return_spec (some r) = some (clone_return_spec r)

unfoldable pub clone_code : Code → Code
clone_code x = record {
  location = x.location;
  pattern_vars = x.pattern_vars;
  predicate = clone_opt_expr x.predicate;
  formal_args = clone_formal_args x.formal_args;
  return_specs = clone_return_specs x.return_specs;
  var_return_spec = clone_opt_return_spec x.var_return_spec;
  body = clone_opt_statement x.body;
  llvm_body = x.llvm_body;
  has_var_arg = x.has_var_arg;
  return_specs_declared = x.return_specs_declared;
}

abbrev pub KeepsReturnSpec : ReturnSpec → Type 0
KeepsReturnSpec r = KeepsExpr r.spec_type

-- The specifications with no location.
abbrev pub unplaced : ReturnSpec → ReturnSpec
unplaced r = record r { location = none }

abbrev pub all_unplaced : List ReturnSpec → List ReturnSpec
all_unplaced [] = []
all_unplaced (r ∷ rs) = unplaced r ∷ all_unplaced rs

abbrev pub opt_unplaced : Option ReturnSpec → Option ReturnSpec
opt_unplaced none = none
opt_unplaced (some r) = some (unplaced r)

abbrev pub KeepsReturnSpecs : List ReturnSpec → Type 0
KeepsReturnSpecs [] = Unit
KeepsReturnSpecs (r ∷ rs) = KeepsReturnSpec r × KeepsReturnSpecs rs

abbrev pub KeepsOptReturnSpec : Option ReturnSpec → Type 0
KeepsOptReturnSpec none = Unit
KeepsOptReturnSpec (some r) = KeepsReturnSpec r

pub record KeepsCode (x : Code) : Type 0 where
  pub in_predicate : KeepsOptExpr x.predicate
  pub in_args : KeepsFormalArgs x.formal_args
  pub in_specs : KeepsReturnSpecs x.return_specs
  pub in_var_spec : KeepsOptReturnSpec x.var_return_spec
  pub in_body : KeepsOptStatement x.body

clone_return_spec-Keeps : (r : ReturnSpec) → KeepsReturnSpec r → clone_return_spec r ≡ unplaced r
unfolding clone_return_spec
clone_return_spec-Keeps r h = ground (arith, clone_expr-Keeps r.spec_type h)

clone_return_specs-Keeps :
    (rs : List ReturnSpec) → KeepsReturnSpecs rs → clone_return_specs rs ≡ all_unplaced rs
unfolding clone_return_specs
clone_return_specs-Keeps [] h = refl
clone_return_specs-Keeps (r ∷ rs) h =
    cc (clone_return_spec-Keeps r h.0, clone_return_specs-Keeps rs h.1)

clone_opt_return_spec-Keeps :
    (r : Option ReturnSpec) → KeepsOptReturnSpec r → clone_opt_return_spec r ≡ opt_unplaced r
unfolding clone_opt_return_spec
clone_opt_return_spec-Keeps none h = refl
clone_opt_return_spec-Keeps (some r) h = cc (clone_return_spec-Keeps r h)

-- The copy of a procedure's code is that code, with every location but those of the return specifications,
-- where no return in it is marked as one expression or as return specifications and no binding has
-- pattern types.
pub clone_code-Keeps :
    (x : Code)
    → KeepsCode x
    → clone_code x ≡ record x {
      return_specs = all_unplaced x.return_specs;
      var_return_spec = opt_unplaced x.var_return_spec;
    }
unfolding clone_code
clone_code-Keeps x h = ground (
  arith,
  clone_opt_expr-Keeps x.predicate h.in_predicate,
  clone_formal_args-Keeps x.formal_args h.in_args,
  clone_return_specs-Keeps x.return_specs h.in_specs,
  clone_opt_return_spec-Keeps x.var_return_spec h.in_var_spec,
  clone_opt_statement-Keeps x.body h.in_body,
)
