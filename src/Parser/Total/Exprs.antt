-- ===== src/Parser/Total/Exprs.antt =====
-- compiler/parser.cpp, lines 496-902: literals, atomic expressions and suffixes read tokens and end.
use ceramic.Prelude.{ℕ, suc, ◌<◌, Bytes, [], ◌∷◌}
use ceramic.Parser.Exprs.{
  Grammar, bool_literal_expr, int_literal_expr, float_literal_expr, char_literal_expr,
  string_literal_expr, literal, name_ref_expr, keyword_expr, arg_name_expr, or_expected, expected,
  string_literal_suffix, field_ref_suffix, dereference_suffix, opt_expression, expression_list,
  opt_expression_list, bracketed, tuple_expr, paren_expr, eval_expr_expr, atomic_expr,
  indexing_suffix, call_suffix, static_index_of, static_indexing_suffix, suffix, suffix_expr,
}
use ceramic.Parser.State.{Parser, Result, parsed, failed, aborted, out_of_fuel}
use ceramic.Parser.Outcome.{After, success, failure, stopped}
use ceramic.Parser.Total.{left, Total, Eats, Total-of_Eats, Eats-mono, Eats-abort, Total-pure}
use ceramic.Parser.Total.Terminals.{totals, eats, firsts, terminals}
use ceramic.Syntax.Node.{Location}
use ceramic.Syntax.Tree.{Expr}

pub Eats-bool_literal_expr : (n : ℕ) → Eats n bool_literal_expr
unfolding bool_literal_expr
Eats-bool_literal_expr n = search (firsts, totals, terminals) depth 16

pub Eats-int_literal_expr : (n : ℕ) (op : Bytes) → Eats n (int_literal_expr op)
unfolding int_literal_expr
Eats-int_literal_expr n op = search (firsts, totals, terminals, Total-of_Eats) depth 16

pub Eats-float_literal_expr : (n : ℕ) (op : Bytes) → Eats n (float_literal_expr op)
unfolding float_literal_expr
Eats-float_literal_expr n op = search (firsts, totals, terminals, Total-of_Eats) depth 16

Eats-char_literal_expr : (n : ℕ) → Eats n char_literal_expr
unfolding char_literal_expr
Eats-char_literal_expr n = search (firsts, totals, terminals) depth 16

pub Eats-string_literal_expr : (n : ℕ) → Eats n string_literal_expr
unfolding string_literal_expr
Eats-string_literal_expr n = search (firsts, totals, terminals) depth 16

Eats-literal : (n : ℕ) → Eats n literal
unfolding literal
Eats-literal n =
    search
      (
        firsts, Eats-bool_literal_expr, Eats-int_literal_expr, Eats-float_literal_expr,
        Eats-char_literal_expr, Eats-string_literal_expr,
      )
      depth 16

pub Eats-name_ref_expr : (n : ℕ) → Eats n name_ref_expr
unfolding name_ref_expr
Eats-name_ref_expr n = search (firsts, totals, terminals) depth 16

Eats-keyword_expr : (n : ℕ) (s : Bytes) (make : Location → Expr) → Eats n (keyword_expr s make)
unfolding keyword_expr
Eats-keyword_expr n s make = search (firsts, totals, terminals) depth 16

Eats-arg_name_expr : (n : ℕ) → Eats n arg_name_expr
unfolding arg_name_expr
Eats-arg_name_expr n = search (firsts, totals, terminals, Total-of_Eats) depth 16

Eats-expected :
    {A : Type 0} (n : ℕ) (what : Bytes) (m : Parser A) → Eats n m → Eats n (expected what m)
unfolding expected or_expected
Eats-expected {A} n what m h st l = go (m st) (h st l)
  where
    go :
        (r : Result A)
        → After (λ _ t. left t < left st) r
        → After (λ _ t. left t < left st) (or_expected st.position what r)
    go (parsed a t) (success k) = success k
    go (failed t) k = failure
    go aborted k = stopped
    go out_of_fuel k = elim k [ ]

Eats-string_literal_suffix : (n : ℕ) → Eats n string_literal_suffix
unfolding string_literal_suffix
Eats-string_literal_suffix n = search (firsts, totals, Eats-string_literal_expr) depth 16

pub Eats-field_ref_suffix : (n : ℕ) → Eats n field_ref_suffix
unfolding field_ref_suffix
Eats-field_ref_suffix n = search (firsts, totals, terminals, Total-of_Eats) depth 16

Eats-dereference_suffix : (n : ℕ) → Eats n dereference_suffix
unfolding dereference_suffix
Eats-dereference_suffix n = search (firsts, totals, terminals) depth 16

module _ (g : Grammar) (n : ℕ) (on_expr : Eats n g.expression) where
  pub Total-opt_expression : Total n (opt_expression g)
  unfolding opt_expression
  Total-opt_expression = search (totals, Total-of_Eats) depth 16

  pub Eats-expression_list : Eats n (expression_list g)
  unfolding expression_list
  Eats-expression_list = search (firsts, totals, terminals) depth 16

  pub Total-opt_expression_list : Total n (opt_expression_list g)
  unfolding opt_expression_list
  Total-opt_expression_list = search (totals, Total-of_Eats, Eats-expression_list) depth 16

  pub Eats-bracketed : (s t : Bytes) → Eats (suc n) (bracketed g s t)
  unfolding bracketed
  Eats-bracketed s t =
      search (eats, totals, terminals, Total-of_Eats, Total-opt_expression_list) depth 16

  Eats-tuple_expr : Eats (suc n) (tuple_expr g)
  unfolding tuple_expr
  Eats-tuple_expr = search (eats, totals, Eats-bracketed) depth 16

  Eats-paren_expr : Eats (suc n) (paren_expr g)
  unfolding paren_expr
  Eats-paren_expr = search (eats, totals, Eats-bracketed) depth 16

  Eats-eval_expr_expr : Eats (suc n) (eval_expr_expr g)
  unfolding eval_expr_expr
  Eats-eval_expr_expr = search (eats, totals, terminals, Total-of_Eats) depth 16

  pub Eats-atomic_expr : Eats (suc n) (atomic_expr g)
  unfolding atomic_expr
  Eats-atomic_expr =
      search
        (
          Eats-expected, eats, Eats-name_ref_expr, Eats-paren_expr, Eats-literal, Eats-tuple_expr,
          Eats-keyword_expr, Eats-arg_name_expr, Eats-eval_expr_expr,
        )
        depth 16

  Eats-indexing_suffix : Eats (suc n) (indexing_suffix g)
  unfolding indexing_suffix
  Eats-indexing_suffix = search (eats, totals, Eats-bracketed) depth 16

  Eats-call_suffix : Eats (suc n) (call_suffix g)
  unfolding call_suffix
  Eats-call_suffix = search (eats, totals, Eats-bracketed) depth 16

  Total-static_index_of : (l : Location) (r : ℕ × Bytes) → Total n (static_index_of g l r)
  unfolding static_index_of
  Total-static_index_of l (k, []) = Total-pure n _
  Total-static_index_of l (k, c ∷ cs) = Total-of_Eats n _ (Eats-abort n)

  Eats-static_indexing_suffix : Eats (suc n) (static_indexing_suffix g)
  unfolding static_indexing_suffix
  Eats-static_indexing_suffix = search (eats, terminals, Total-static_index_of) depth 16

  pub Eats-suffix : Eats (suc n) (suffix g)
  unfolding suffix
  Eats-suffix =
      search
        (
          eats, Eats-string_literal_suffix, Eats-indexing_suffix, Eats-call_suffix,
          Eats-field_ref_suffix, Eats-static_indexing_suffix, Eats-dereference_suffix,
        )
        depth 16

  pub Eats-suffix_expr : Eats (suc n) (suffix_expr g)
  unfolding suffix_expr
  Eats-suffix_expr = search (eats, totals, Eats-atomic_expr, Eats-mono, Eats-suffix) depth 16
