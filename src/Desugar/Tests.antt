-- ===== src/Desugar/Tests.antt =====
-- Desugared statements and expressions on concrete trees, and their theorems at concrete inputs.
use ceramic.Prelude.{◌≡◌, refl, Bool, true, false, none, some, [], ◌∷◌, Bytes, codes, arith}
use ceramic.Desugar.Branches.{
  taken, switch_block, or_taken, first_case, case_thing, desugar_switch_statement-first_case,
  handled, first_taker, catch_chain-first_taker,
}
use ceramic.Desugar.Build.{identifier_at, nowhere, one_expr, show}
use ceramic.Desugar.Chars.{literal_argument, desugar_char_literal-parse_int_literal}
use ceramic.Desugar.Exprs.{
  wrap_into_static, char_text, desugar_char_literal, dotted_imported_module, no_names,
}
use ceramic.Desugar.Modules.{import_module_name, dotted_imported_module-import_module_name}
use ceramic.Desugar.Overloads.{
  static_arg, Overload, ignore, desugar_as_overload, as_specialised, as_stub,
}
use ceramic.Desugar.Overloads.Order.{
  Statics, desugar_as_overload-Statics, leading_variables, leading_names, stub_args,
}
use ceramic.Desugar.Rethrow.{bound_by, handler-binds_rethrown}
use ceramic.Desugar.Statements.{
  handler, desugar_throw, catch_chain, desugar_switch_statement, case_condition,
}
use ceramic.Literals.Integers.{parse_int_literal}
use ceramic.Literals.Tests.{decimal}
use ceramic.Literals.Text.{int8, literal}
use ceramic.Syntax.Node.{Identifier, PatternVar, dont_care}
use ceramic.Syntax.Tree.{
  Expr, no_expr, an_expr, name_ref, no_args, add_arg, formal_arg, Statement, if_statement,
  no_statement, a_statement, no_statements, break_statement, unreachable, CaseBlocks, no_cases,
  add_case, case_block, Catches, no_catches, add_catch, catch_block,
}

abbrev var : Bytes → Expr
var s = name_ref nowhere (identifier_at s none)

abbrev cases : CaseBlocks
cases =
    add_case (case_block none (one_expr (var (codes "one"))) (break_statement none))
      (add_case (case_block none (one_expr (var (codes "two"))) (unreachable none)) no_cases)

-- `if (case?(%case, (one))) break; else if (case?(%case, (two))) …`
abbrev root : Statement
root =
    if_statement none no_statements
      (case_condition (case_thing (var (codes "x"))) none (one_expr (var (codes "one"))))
      (break_statement none)
      (a_statement (
        if_statement none no_statements
          (case_condition (case_thing (var (codes "x"))) none (one_expr (var (codes "two"))))
          (unreachable none) no_statement))

desugared_switch :
    desugar_switch_statement none no_statements (var (codes "x")) cases no_statement
    ≡ some (switch_block none no_statements (var (codes "x")) root)
unfolding desugar_switch_statement
desugared_switch = refl

desugar_switch_statement-first_case_example :
    (r : Statement) × (switch_block none no_statements (var (codes "x")) root
      ≡ switch_block none no_statements (var (codes "x")) r)
    × ((holds : Expr → Bool)
        → taken holds r
          ≡ or_taken (first_case holds (case_thing (var (codes "x"))) cases) holds no_statement)
desugar_switch_statement-first_case_example =
    desugar_switch_statement-first_case none no_statements (var (codes "x")) cases no_statement
      (switch_block none no_statements (var (codes "x")) root) desugared_switch

abbrev e_var : Identifier
e_var = identifier_at (codes "e") none

-- `catch (e : Error) …` and `catch (e) …`
abbrev handlers : Catches
handlers =
    add_catch (catch_block none e_var (an_expr (var (codes "Error"))) none (break_statement none))
      (add_catch (catch_block none e_var no_expr none (unreachable none)) no_catches)

catch_chain-first_taker_example :
    taken (λ _. false) (catch_chain none (identifier_at (codes "%exp") none) handlers)
    ≡ some (
        handled none
          (identifier_at (codes "%exp") none)
          (first_taker (λ _. false) (identifier_at (codes "%exp") none) handlers))
catch_chain-first_taker_example =
    catch_chain-first_taker (λ _. false) none (identifier_at (codes "%exp") none) handlers

-- `catch (e, c) { throw; }`: the context is bound as `c`, and `throw;` asks for `%context`.
handler-binds_rethrown_example :
    (desugar_throw none no_expr no_expr no_expr no_expr ≡ (
      an_expr (name_ref nowhere (identifier_at (codes "%exception") none)),
      an_expr (name_ref nowhere (identifier_at (codes "%context") none)),
    ))
    × (bound_by (codes "%exception") (
          handler none e_var
            (some (identifier_at (codes "c") none))
            (var (codes "g"))
            (unreachable none))
        ≡ true)
    × (bound_by (codes "%context") (
          handler none e_var
            (some (identifier_at (codes "c") none))
            (var (codes "g"))
            (unreachable none))
        ≡ false)
handler-binds_rethrown_example =
    handler-binds_rethrown none none e_var (some (identifier_at (codes "c") none)) (var (codes "g"))
      (unreachable none) refl refl

dotted_imported_module-import_module_name_example :
    dotted_imported_module
      (var (codes "a"))
      (codes "b")
      (import_module_name none (codes "a" ∷ codes "b" ∷ []) 7 no_names)
    ≡ some 7
dotted_imported_module-import_module_name_example =
    dotted_imported_module-import_module_name (var (codes "a")) (codes "b") (codes "a" ∷ [])
      (codes "a" ∷ codes "b" ∷ []) 7 no_names refl

abbrev pattern_variable : Bytes → PatternVar
pattern_variable s = record { name = identifier_at s none; is_multi = false }

-- `[T, U] f(x : T as U) …`
abbrev converting : Overload
converting = record {
  location = none;
  module_address = 1;
  env = 2;
  target = var (codes "f");
  code = record {
    location = none;
    pattern_vars = pattern_variable (codes "T") ∷ pattern_variable (codes "U") ∷ [];
    predicate = no_expr;
    formal_args =
        add_arg
          (formal_arg none (identifier_at (codes "x") none) (an_expr (var (codes "T"))) dont_care
            (an_expr (var (codes "U"))) false)
          no_args;
    return_specs = [];
    var_return_spec = none;
    body = a_statement (unreachable none);
    llvm_body = none;
    has_var_arg = false;
    return_specs_declared = false;
  };
  call_by_name = false;
  is_inline = ignore;
  has_as_conversion = true;
}

desugared_overload :
    desugar_as_overload converting
    ≡ some (as_specialised converting, as_stub converting (unreachable none))
unfolding desugar_as_overload
desugared_overload = refl

desugar_as_overload-Statics_example :
    Statics converting (as_specialised converting) (as_stub converting (unreachable none))
desugar_as_overload-Statics_example =
    desugar_as_overload-Statics converting (as_specialised converting)
      (as_stub converting (unreachable none)) desugared_overload

-- The call passes `T`, then `U`, and the overload expects `U`, then `T`.
as_overload_swaps :
    (leading_names 2 (stub_args (as_stub converting (unreachable none)).code.body)
      ≡ identifier_at (codes "T") none ∷ identifier_at (codes "U") none ∷ [])
    × (leading_variables 2 (as_specialised converting).code.formal_args
        ≡ identifier_at (codes "U") none ∷ identifier_at (codes "T") none ∷ [])
unfolding as_specialised as_stub static_arg wrap_into_static
as_overload_swaps = (refl, refl)

char_text-a : char_text 97 ≡ codes "97"
unfolding char_text show
char_text-a = refl

desugar_char_literal-parse_int_literal_example :
    parse_int_literal decimal
      (λ _. none)
      false
      none
      (literal_argument (desugar_char_literal 97)).0
      (literal_argument (desugar_char_literal 97)).1
    ≡ literal (record { number_type = int8; bits = 97 })
desugar_char_literal-parse_int_literal_example =
    desugar_char_literal-parse_int_literal decimal (λ _. none) none 97 (omega arith)
      (rw char_text-a)
