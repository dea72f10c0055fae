-- ===== src/Parser/Total/Operators.antt =====
-- compiler/parser.cpp, lines 902-1160: operators read tokens and end.
use ceramic.Prelude.{ℕ, suc, Bytes, List, [], ◌∷◌}
use ceramic.Parser.Exprs.{Grammar}
use ceramic.Parser.Operators.{
  plus_or_minus, signed_literal, none_next, operator_op, address_of_expr, dispatch_of_expr,
  static_of_expr, preop_expr, prefix_expr_body, operand, operator_tail, operator_expr, not_expr,
  and_expr_tail, and_exprs, or_expr_tail, or_exprs, if_expr,
}
use ceramic.Parser.Total.{
  Total, Eats, Total-of_Eats, Eats-fail, Eats-option, Eats->>=_second, Total-pure, Total->>=,
  Total-option, Eats-at_location, Eats->>_second,
}
use ceramic.Parser.Total.Rounds.{Total-attempt}
use ceramic.Parser.Total.Exprs.{Eats-int_literal_expr, Eats-float_literal_expr, Eats-suffix_expr}
use ceramic.Parser.Total.Terminals.{
  totals, eats, firsts, terminals, Eats-opsymbol, Eats-keyword, Eats-opstring,
}

Eats-plus_or_minus : (n : ℕ) → Eats n plus_or_minus
unfolding plus_or_minus
Eats-plus_or_minus n = search (firsts, totals, terminals) depth 16

Eats-signed_literal : (n : ℕ) (op : Bytes) → Eats n (signed_literal op)
unfolding signed_literal
Eats-signed_literal n op = search (firsts, Eats-int_literal_expr, Eats-float_literal_expr) depth 16

Total-none_next : (n : ℕ) (ss : List Bytes) → Total n (none_next ss)
unfolding none_next
Total-none_next n [] = Total-pure n _
Total-none_next n (s ∷ ss) =
    Total->>= n _ _ (Total-attempt n _ (Total-of_Eats n _ (Eats-opsymbol n s)))
      λ r. Total-option n r _ _ (Total-none_next n ss) (λ t. Total-of_Eats n _ (Eats-fail n))

Eats-operator_op : (n : ℕ) → Eats n operator_op
unfolding operator_op
Eats-operator_op n = Eats->>_second n _ _ (Total-none_next n _) (Eats-opstring n)

module _ (g : Grammar) (n : ℕ) (on_prefix : Eats n g.prefix_expr) where
  Total-operand : (op : Bytes) → Total n (operand g op)
  unfolding operand
  Total-operand op = search (totals, Total-of_Eats) depth 16

  Eats-operator_tail : Eats n (operator_tail g)
  unfolding operator_tail
  Eats-operator_tail = search (firsts, totals, Eats-operator_op, Total-operand) depth 16

  Eats-operator_expr : Eats n (operator_expr g)
  unfolding operator_expr
  Eats-operator_expr = search (firsts, totals, Eats-operator_tail) depth 16

  Eats-not_expr : Eats n (not_expr g)
  unfolding not_expr
  Eats-not_expr = Eats-at_location n _ λ l.
      Eats->>=_second n _ _ (Total-attempt n _ (Total-of_Eats n _ (Eats-keyword n _))) λ r.
        Eats-option n r _ _ Eats-operator_expr
          (λ t. search (firsts, totals, Eats-operator_expr) depth 16)

  Eats-and_expr_tail : Eats n (and_expr_tail g)
  unfolding and_expr_tail
  Eats-and_expr_tail = search (firsts, totals, terminals, Eats-not_expr, Total-of_Eats) depth 16

  Eats-and_exprs : Eats n (and_exprs g)
  unfolding and_exprs
  Eats-and_exprs = search (firsts, totals, Eats-not_expr, Eats-and_expr_tail) depth 16

  Eats-or_expr_tail : Eats n (or_expr_tail g)
  unfolding or_expr_tail
  Eats-or_expr_tail = search (firsts, totals, terminals, Eats-and_exprs, Total-of_Eats) depth 16

  pub Eats-or_exprs : Eats n (or_exprs g)
  unfolding or_exprs
  Eats-or_exprs = search (firsts, totals, Eats-and_exprs, Eats-or_expr_tail) depth 16

module _ (g : Grammar) (n : ℕ) (on_expr : Eats n g.expression) where
  pub Eats-if_expr : Eats (suc n) (if_expr g)
  unfolding if_expr
  Eats-if_expr = search (eats, totals, terminals, Total-of_Eats) depth 24

  -- Each call but the first stands behind a token.
  pub Eats-prefix_expr_body : Eats n g.prefix_expr → Eats (suc n) (prefix_expr_body g)
  unfolding prefix_expr_body address_of_expr dispatch_of_expr static_of_expr preop_expr
  Eats-prefix_expr_body on_prefix =
      search
        (
          eats, totals, terminals, Total-of_Eats, Eats-plus_or_minus, Eats-signed_literal,
          Eats-operator_op, Eats-suffix_expr,
        )
        depth 16
