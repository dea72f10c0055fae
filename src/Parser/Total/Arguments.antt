-- ===== src/Parser/Total/Arguments.antt =====
-- compiler/parser.cpp, lines 1337-1440 and 2202-2500: patterns, arguments and bindings end.
use ceramic.Prelude.{ℕ, zero, suc, ◌≤◌, ◌<◌, Bool, true, false, Bool-cases, inl, inr, codes, arith}
use ceramic.Parser.Arguments.{
  dotted_name_ref, atomic_pattern, var_arg_type_spec, opt_var_arg_type_spec, opt_arg_tempness,
  set_var_arg, set_as_conversion, opt_dots, make_static_formal_arg, string_formal_arg, pattern_var,
  opt_pattern_var_list, indexed_rounds, more_args, pattern_suffix, pattern_expr, type_spec,
  opt_type_spec, opt_expr_type_spec, arg_type, as_type, value_formal_arg, static_formal_arg,
  formal_arg_at, formal_args, arguments_body, arguments, binding_arg, bindings_body, opt_predicate,
  pattern_vars_with_cond, opt_pattern_vars_with_cond,
}
use ceramic.Parser.Exprs.{Grammar}
use ceramic.Parser.State.{Parser, State, ◌>>◌, fail, pure}
use ceramic.Parser.Terminals.{symbol}
use ceramic.Parser.Outcome.{After, success, failure}
use ceramic.Parser.Total.{
  left, Total, Eats, Total-of_Eats, Eats-mono, Eats-fail, Eats-abort, Total-pure, Total->>=,
  Total->>, Total-option, Eats->>=_first, Eats->>=_second, Eats-at_location, Eats->>_first,
}
use ceramic.Parser.Total.Rounds.{Total-attempt, After-attempt, After-cons}
use ceramic.Parser.Total.Exprs.{
  Eats-name_ref_expr, Eats-int_literal_expr, Eats-string_literal_expr, Eats-field_ref_suffix,
  Eats-bracketed,
}
use ceramic.Parser.Total.Terminals.{
  totals, eats, firsts, terminals, Eats-ellipsis, Eats-identifier, Eats-keyword, Eats-symbol,
}
use ceramic.Syntax.Node.{Location}
use ceramic.Syntax.Tree.{Expr}

Eats-atomic_pattern : (n : ℕ) → Eats n atomic_pattern
unfolding atomic_pattern dotted_name_ref
Eats-atomic_pattern n =
    search (firsts, totals, Eats-name_ref_expr, Eats-field_ref_suffix, Eats-int_literal_expr) depth
      16

Total-opt_var_arg_type_spec : (n : ℕ) → Total n opt_var_arg_type_spec
unfolding opt_var_arg_type_spec var_arg_type_spec
Total-opt_var_arg_type_spec n =
    search (totals, terminals, Total-of_Eats, Eats-name_ref_expr) depth 16

Total-opt_arg_tempness : (n : ℕ) → Total n opt_arg_tempness
unfolding opt_arg_tempness
Total-opt_arg_tempness n = search (totals, terminals, Total-of_Eats) depth 16

Total-set_var_arg : (n : ℕ) → Total n set_var_arg
unfolding set_var_arg fail
Total-set_var_arg n st l = elim (Bool-cases st.has_var_arg) [
  | inl e ↦ rw e failure
  | inr e ↦ rw e (success (omega arith))
]

Total-set_as_conversion : (n : ℕ) → Total n set_as_conversion
unfolding set_as_conversion
Total-set_as_conversion n st l = success (omega arith)

Total-opt_dots : (n : ℕ) → Total n opt_dots
unfolding opt_dots
Total-opt_dots n = Total->>= n _ _ (Total-attempt n _ (Total-of_Eats n _ (Eats-ellipsis n))) λ r.
    Total-option n r _ _ (Total-pure n _)
      (λ t. Total->> n _ _ (Total-set_var_arg n) (Total-pure n _))

Total-make_static_formal_arg :
    (n index : ℕ) (e : Expr) (l : Location) → Total n (make_static_formal_arg index e l)
unfolding make_static_formal_arg
Total-make_static_formal_arg n index e l = search totals depth 6

Eats-string_formal_arg : (n index : ℕ) → Eats n (string_formal_arg index)
unfolding string_formal_arg
Eats-string_formal_arg n index =
    search (firsts, totals, Eats-string_literal_expr, Total-make_static_formal_arg) depth 8

Eats-pattern_var : (n : ℕ) → Eats n pattern_var
unfolding pattern_var
Eats-pattern_var n =
    Eats->>=_second n _ _ (Total-attempt n _ (Total-of_Eats n _ (Eats-ellipsis n)))
      λ r. Eats->>=_first n _ _ (Eats-identifier n) (λ x. Total-pure n _)

Total-opt_pattern_var_list : (n : ℕ) → Total n opt_pattern_var_list
unfolding opt_pattern_var_list
Total-opt_pattern_var_list n = search (totals, terminals, Total-of_Eats, Eats-pattern_var) depth 8

Total-indexed_rounds :
    {A : Type 0} (n f index : ℕ) (m : ℕ → Parser A) (st : State)
    → ((i : ℕ) → Total n (m i))
    → left st < n
    → left st < f
    → After (λ _ t. left t ≤ left st) (indexed_rounds f index m st)
unfolding indexed_rounds pure
Total-indexed_rounds n zero index m st h l k = absurd (omega (arith, k))
Total-indexed_rounds n (suc f) index m st h l k =
    After-attempt n (symbol (codes ",") >> m index) st _
      (Eats->>_first n _ (m index) (Eats-symbol n _) (h index)) l (λ t i. success (omega arith))
      (λ a t i.
        After-cons a (indexed_rounds f (suc index) m) t
          (Total-indexed_rounds n f (suc index) m t h (omega (arith, l, i)) (omega (arith, k, i))))

Total-more_args :
    {A : Type 0} (n : ℕ) (m : ℕ → Parser A) → ((i : ℕ) → Total n (m i)) → Total n (more_args m)
unfolding more_args
Total-more_args n m h st l = Total-indexed_rounds n (suc (left st)) 1 m st h l (omega arith)

module _ (g : Grammar) (n : ℕ) (on_expr : Eats n g.expression) where
  Eats-pattern_expr : Eats (suc n) (pattern_expr g)
  unfolding pattern_expr pattern_suffix
  Eats-pattern_expr =
      search (eats, totals, Total-of_Eats, Eats-atomic_pattern, Eats-bracketed, Eats-mono) depth 16

  Total-opt_type_spec : Total (suc n) (opt_type_spec g)
  unfolding opt_type_spec type_spec
  Total-opt_type_spec = search (totals, terminals, Total-of_Eats, Eats-pattern_expr) depth 16

  pub Total-opt_expr_type_spec : Total (suc n) (opt_expr_type_spec g)
  unfolding opt_expr_type_spec
  Total-opt_expr_type_spec = search (eats, totals, terminals, Total-of_Eats) depth 16

  Total-arg_type : (b : Bool) → Total (suc n) (arg_type g b)
  unfolding arg_type
  Total-arg_type true = Total-opt_var_arg_type_spec (suc n)
  Total-arg_type false = Total-opt_type_spec

  Total-as_type : (b : Bool) → Total (suc n) (as_type g b)
  unfolding as_type
  Total-as_type true = Total-of_Eats (suc n) _ (Eats-fail (suc n))
  Total-as_type false =
      search (totals, Total-of_Eats, Eats-pattern_expr, Total-set_as_conversion) depth 8

  Eats-value_formal_arg : Eats (suc n) (value_formal_arg g)
  unfolding value_formal_arg
  Eats-value_formal_arg = Eats-at_location (suc n) _ λ l.
      Eats->>=_second (suc n) _ _ (Total-opt_arg_tempness (suc n)) λ tempness.
        Eats->>=_second (suc n) _ _ (Total-opt_dots (suc n)) λ var_arg.
          Eats->>=_first (suc n) _ _ (Eats-identifier (suc n)) λ x.
            Total->>= (suc n) _ _ (Total-arg_type var_arg) λ type.
              Total->>= (suc n) _ _
                (Total-attempt (suc n) _ (Total-of_Eats (suc n) _ (Eats-keyword (suc n) _)))
                λ r.
                  Total-option (suc n) r _ _ (Total-pure (suc n) _)
                    (λ t. Total->>= (suc n) _ _ (Total-as_type var_arg) (λ w. Total-pure (suc n) _))

  Eats-static_formal_arg : (i : ℕ) → Eats (suc n) (static_formal_arg g i)
  unfolding static_formal_arg
  Eats-static_formal_arg i =
      search (eats, totals, terminals, Total-of_Eats, Eats-abort, Total-make_static_formal_arg)
        depth 16

  Eats-formal_arg_at : (i : ℕ) → Eats (suc n) (formal_arg_at g i)
  unfolding formal_arg_at
  Eats-formal_arg_at i =
      search (eats, Eats-value_formal_arg, Eats-static_formal_arg, Eats-string_formal_arg) depth 8

  Total-arguments_body : Total (suc n) (arguments_body g)
  unfolding arguments_body formal_args
  Total-arguments_body = search (totals, Total-of_Eats, Eats-formal_arg_at, Total-more_args) depth 8

  pub Eats-arguments : Eats (suc n) (arguments g)
  unfolding arguments
  Eats-arguments = search (firsts, totals, terminals, Total-of_Eats, Total-arguments_body) depth 16

  Eats-binding_arg : Eats (suc n) (binding_arg g)
  unfolding binding_arg
  Eats-binding_arg = Eats-at_location (suc n) _ λ l.
      Eats->>=_second (suc n) _ _ (Total-opt_dots (suc n)) λ var_arg.
        Eats->>=_first (suc n) _ _ (Eats-identifier (suc n))
          λ x. Total->>= (suc n) _ _ (Total-arg_type var_arg) (λ type. Total-pure (suc n) _)

  pub Eats-bindings_body : Eats (suc n) (bindings_body g)
  unfolding bindings_body
  Eats-bindings_body = search (firsts, totals, terminals, Total-of_Eats, Eats-binding_arg) depth 16

  Eats-pattern_vars_with_cond : Eats (suc n) (pattern_vars_with_cond g)
  unfolding pattern_vars_with_cond opt_predicate
  Eats-pattern_vars_with_cond =
      search (eats, totals, terminals, Total-of_Eats, Total-opt_pattern_var_list) depth 24

  pub Total-opt_pattern_vars_with_cond : Total (suc n) (opt_pattern_vars_with_cond g)
  unfolding opt_pattern_vars_with_cond
  Total-opt_pattern_vars_with_cond =
      search (totals, Total-of_Eats, Eats-pattern_vars_with_cond) depth 8
