-- ===== src/Syntax/Tests.antt =====
-- Copies of concrete trees, and the theorem on copies at a concrete input.
use ceramic.Prelude.{◌≡◌, refl, true, false, none, some, [], ◌∷◌, codes}
use ceramic.Syntax.Clone.{clone_statement}
use ceramic.Syntax.Code.{Code, clone_code, clone_code-Keeps, KeepsCode, all_unplaced, opt_unplaced}
use ceramic.Syntax.Node.{Identifier, Place, var_binding, return_value, dont_care, ref_capture}
use ceramic.Syntax.Tree.{
  no_expr, an_expr, no_exprs, add_expr, name_ref, int_literal, lambda, call, no_args, add_arg,
  formal_arg, Statement, a_statement, no_statements, add_statement, block, binding,
  return_statement, unreachable,
}

abbrev here : Place
here = record { location = some (1, 2); start_location = some (1, 2); end_location = some (1, 5) }

abbrev x : Identifier
x = record { str = codes "x"; is_operator = false; location = some (1, 3) }

-- `var x = f(1);` with `f` a lambda, then `return x;`.
abbrev body : Statement
body = block (some (1, 0)) (
    add_statement
      (binding (some (1, 4)) var_binding [] [] no_expr
        (add_arg (formal_arg none x no_expr dont_care no_expr false) no_args)
        (add_expr
          (call here (lambda here ref_capture no_args false false (unreachable none))
            (add_expr (int_literal here (codes "1") []) no_exprs))
          no_exprs)
        false)
      (add_statement
        (return_statement (some (1, 9)) return_value (add_expr (name_ref here x) no_exprs) false
          false)
        no_statements))

abbrev sample : Code
sample = record {
  location = some (1, 0);
  pattern_vars = record { name = x; is_multi = false } ∷ [];
  predicate = an_expr (name_ref here x);
  formal_args = no_args;
  return_specs = record { location = some (1, 7); spec_type = name_ref here x; name = none } ∷ [];
  var_return_spec = none;
  body = a_statement body;
  llvm_body = none;
  has_var_arg = true;
  return_specs_declared = true;
}

sample-Keeps : KeepsCode sample
sample-Keeps = record {
  in_predicate = tt;
  in_args = tt;
  in_specs = (tt, tt);
  in_var_spec = tt;
  in_body = ((refl, tt, ((tt, tt), tt), (((tt, tt), (tt, tt)), tt)), ((refl, refl, (tt, tt)), tt));
}

clone_code-Keeps_example : clone_code sample ≡ record sample {
  return_specs = all_unplaced sample.return_specs;
  var_return_spec = opt_unplaced sample.var_return_spec;
}
clone_code-Keeps_example = clone_code-Keeps sample sample-Keeps

-- The body of a procedure with return specifications that is one expression: the copy is not marked.
clone_return_specs_lost :
    clone_statement (return_statement none return_value no_exprs true true)
    ≡ return_statement none return_value no_exprs false false
unfolding clone_statement
clone_return_specs_lost = refl
