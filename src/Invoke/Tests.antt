-- ===== src/Invoke/Tests.antt =====
-- Matches of concrete calls, and the theorems on them at concrete inputs.
use ceramic.Prelude.{◌≡◌, refl, true, false, none, some, [], ◌∷◌, arith}
use ceramic.Invoke.Arguments.{collect-variadic}
use ceramic.Invoke.Overload.{
  Formal, Overload, MatchResult, collect, var_arg_size, match_invoke, match_success,
  match_multi_argument_error, one_variable, one_binding, reset_patterns, empty_at, match_arguments,
  arity_error, unify_arguments, unify_fixed, unify_variadic, unify_multi_static, as_objects,
  elem_at, arg_key, types_from, before, later, or_error, after_arguments, bind_variables, succeed,
  predicate_holds, add_fixed, add_var, or_else, var_arg_position,
}
use ceramic.Invoke.Reset.{AllEmpty, match_invoke-AllEmpty}
use ceramic.Patterns.Construct.{◌>>=◌}
use ceramic.Patterns.Deref.{deref_pattern, objects_to_patterns, object_to_pattern}
use ceramic.Patterns.Cells.{deref_cells, with_values, cell_values, cell_value}
use ceramic.Patterns.Objects.{
  cell_at, multi_cell_at, number_type, static_object, type_object, no_patterns, multi_list, no_tail,
  object_kind,
}
use ceramic.Patterns.Tests.{nothing_bound, only_tuples, empty_store}
use ceramic.Patterns.Unify.{Store, fill, fill_cell, unify_object_pattern, unify_multi}

abbrev plain_formal : Formal
plain_formal = record { name = 5; var_arg = false; typed = true; pattern = some (cell_at 1) }

abbrev rest_formal : Formal
rest_formal = record { name = 6; var_arg = true; typed = true; pattern = none }

abbrev last_formal : Formal
last_formal = record { name = 7; var_arg = false; typed = false; pattern = none }

-- Two arguments for a procedure that has one in front of a variadic one and one behind it.
collect-variadic_example :
    collect
      (number_type 1 ∷ number_type 2 ∷ [])
      (var_arg_size 2 3)
      0
      0
      (plain_formal ∷ rest_formal ∷ last_formal ∷ [])
    ≡ some (record {
      fixed = (5, number_type 1) ∷ (7, number_type 2) ∷ [];
      var_arg = some (6, 1);
      var_types = [];
    })
collect-variadic_example =
    collect-variadic (plain_formal ∷ []) (last_formal ∷ []) rest_formal (number_type 1 ∷ []) []
      (number_type 2 ∷ []) (refl, tt) (refl, tt) refl refl refl (ground arith)

abbrev unary : Overload
unary = record {
  callable_pattern = cell_at 0;
  formals = plain_formal ∷ [];
  has_var_arg = false;
  var_arg_pattern = multi_cell_at 2;
  variables = one_variable 10 0 ∷ one_variable 11 1 ∷ [];
  predicate = none;
}

abbrev filled : Store
filled = fill_cell 1 (type_object (number_type 3)) (fill_cell 0 (static_object 9) empty_store)

abbrev the_result : MatchResult
the_result =
    match_success
      (one_binding 10 (static_object 9) ∷ one_binding 11 (type_object (number_type 3)) ∷ [])
      (record { fixed = (5, number_type 3) ∷ []; var_arg = none; var_types = [] }) 1

matched_unary :
    match_invoke nothing_bound only_tuples 10 2 unary
      (static_object 9)
      (number_type 3 ∷ [])
      empty_store
    ≡ some (the_result, reset_patterns unary.variables filled)
unfolding match_invoke reset_patterns empty_at ◌>>=◌ object_kind match_arguments arity_error
    unify_arguments unify_fixed unify_variadic unify_multi_static as_objects elem_at arg_key
    types_from before later or_error after_arguments bind_variables succeed predicate_holds collect
    add_fixed add_var or_else var_arg_position var_arg_size deref_cells with_values cell_values
    cell_value deref_pattern objects_to_patterns object_to_pattern fill unify_multi
    unify_object_pattern fill_cell
matched_unary = refl

match_invoke-AllEmpty_example : AllEmpty unary.variables (reset_patterns unary.variables filled)
match_invoke-AllEmpty_example =
    match_invoke-AllEmpty nothing_bound only_tuples 10 2 unary (static_object 9)
      (number_type 3 ∷ []) empty_store (reset_patterns unary.variables filled) the_result
      matched_unary

-- Types of variadic arguments that do not match are said to start behind all the formal arguments.
abbrev variadic : Overload
variadic = record {
  callable_pattern = cell_at 0;
  formals = rest_formal ∷ [];
  has_var_arg = true;
  var_arg_pattern = multi_list no_patterns no_tail;
  variables = one_variable 10 0 ∷ [];
  predicate = none;
}

error_place :
    match_invoke nothing_bound only_tuples 10 2 variadic
      (static_object 9)
      (number_type 3 ∷ [])
      empty_store
    ≡ some (
      match_multi_argument_error 1,
      reset_patterns variadic.variables (fill_cell 0 (static_object 9) empty_store),
    )
unfolding match_invoke reset_patterns empty_at ◌>>=◌ object_kind match_arguments arity_error
    unify_arguments unify_fixed unify_variadic unify_multi_static as_objects elem_at arg_key
    types_from before later or_error after_arguments bind_variables succeed predicate_holds collect
    add_fixed add_var or_else var_arg_position var_arg_size deref_cells with_values cell_values
    cell_value deref_pattern objects_to_patterns object_to_pattern fill unify_multi
    unify_object_pattern fill_cell
error_place = refl
