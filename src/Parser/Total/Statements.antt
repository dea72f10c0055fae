-- ===== src/Parser/Total/Statements.antt =====
-- compiler/parser.cpp, lines 199-247 and 1163-2120: recovery and statements end.
pub mod Nested
pub mod Recovery
use ceramic.Prelude.{
  ℕ, zero, suc, ◌≤◌, ◌<◌, Bool, true, false, Option, none, some, List, Bytes, codes, arith,
}
use ceramic.Parser.Exprs.{Grammar}
use ceramic.Parser.State.{Parser, State, pure, ◌>>=◌, ◌>>◌}
use ceramic.Parser.Statements.{
  return_kind, label_def, binding_kind, goto_stmt, keyword_statement, close_block, local_binding,
  block_item, block_items, block_statement,
}
use ceramic.Parser.Statements.Forms.{
  assigned, prefix_update, update_assignment, return_stmt, statement_expr_statement,
  condition_rounds, statement_expression, condition, opt_else, if_stmt, case_list, case_block_item,
  case_block_list, switch_stmt, expr_stmt, while_stmt, for_stmt, opt_context, catch_item, try_stmt,
  thrown, throw_stmt, static_for_stmt, guarded, eval_stmt, static_assert, statement_body,
}
use ceramic.Parser.Terminals.{symbol, keyword}
use ceramic.Parser.Outcome.{After, Always, success, After-bind, After-map, After-of_Always}
use ceramic.Parser.Total.{
  left, Total, Eats, Eats-zero, Total-of_Eats, Eats-mono, Total-mono, Total-pure, Total-bool,
  Total->>=, Total-option,
}
use ceramic.Parser.Total.Rounds.{Total-attempt, After-attempt}
use ceramic.Parser.Total.Arguments.{
  Total-opt_expr_type_spec, Eats-bindings_body, Total-opt_pattern_vars_with_cond,
}
use ceramic.Parser.Total.Exprs.{
  Eats-expression_list, Total-opt_expression_list, Total-opt_expression,
}
use ceramic.Parser.Total.Statements.Recovery.{Items, Always-close_block, Always-item_rounds}
use ceramic.Parser.Total.Terminals.{
  totals, eats, firsts, terminals, Total-peek, Eats-identifier_list, Eats-symbol, Eats-keyword,
  Eats-identifier,
}
use ceramic.Syntax.Node.{Location}
use ceramic.Syntax.Tree.{Expr, Statement, ExprList}

pub Total-return_kind : (n : ℕ) → Total n return_kind
unfolding return_kind
Total-return_kind n = search (totals, terminals, Total-of_Eats) depth 16

Eats-label_def : (n : ℕ) → Eats n label_def
unfolding label_def
Eats-label_def n = search (firsts, totals, terminals, Total-of_Eats) depth 16

Eats-binding_kind : (n : ℕ) → Eats n binding_kind
unfolding binding_kind
Eats-binding_kind n = search (firsts, totals, terminals) depth 16

Eats-goto_stmt : (n : ℕ) → Eats n goto_stmt
unfolding goto_stmt
Eats-goto_stmt n = search (firsts, totals, terminals, Total-of_Eats) depth 16

Eats-keyword_statement :
    (n : ℕ) (s : Bytes) (make : Location → Statement) → Eats n (keyword_statement s make)
unfolding keyword_statement
Eats-keyword_statement n s make = search (firsts, totals, terminals, Total-of_Eats) depth 16

Total-opt_context : (g : Grammar) (n : ℕ) → Total n (opt_context g)
unfolding opt_context
Total-opt_context g n =
    Total->>= n _ _ (Total-attempt n _ (Total-of_Eats n _ (Eats-keyword n _))) λ r.
      Total-option n r _ _ (Total-pure n _)
        (λ t. Total->>= n _ _ (Total-of_Eats n _ (Eats-identifier n)) (λ x. Total-pure n _))

-- What begins with an expression, and what only holds expressions.
module _ (g : Grammar) (n : ℕ) (on_expr : Eats (suc n) g.expression) where
  Eats-local_binding : Eats (suc n) (local_binding g)
  unfolding local_binding
  Eats-local_binding =
      let below : Eats n g.expression = Eats-mono n g.expression on_expr in
      let vars = Total-opt_pattern_vars_with_cond g n below in
      let args = Eats-bindings_body g n below in
      search
        (
          firsts, totals, terminals, Total-of_Eats, Eats-binding_kind, vars, args,
          Eats-expression_list,
        )
        depth 24

  Eats-assigned :
      (op : Bytes) (make : Location → ExprList → ExprList → Statement)
      → Eats (suc n) (assigned g op make)
  unfolding assigned
  Eats-assigned op make =
      search (firsts, totals, terminals, Total-of_Eats, Eats-expression_list) depth 16

  Eats-prefix_update : Eats (suc n) (prefix_update g)
  unfolding prefix_update
  Eats-prefix_update = search (firsts, totals, terminals, Total-of_Eats) depth 16

  Eats-update_assignment : Eats (suc n) (update_assignment g)
  unfolding update_assignment
  Eats-update_assignment = search (firsts, totals, terminals, Total-of_Eats) depth 16

  Eats-return_stmt : Eats (suc n) (return_stmt g)
  unfolding return_stmt
  Eats-return_stmt =
      search
        (firsts, totals, terminals, Total-of_Eats, Total-return_kind, Total-opt_expression_list)
        depth 16

  Eats-statement_expr_statement : Eats (suc n) (statement_expr_statement g)
  unfolding statement_expr_statement
  Eats-statement_expr_statement =
      search (firsts, Eats-local_binding, Eats-assigned, Eats-update_assignment) depth 8

  Total-condition_rounds :
      (f : ℕ) (st : State)
      → left st < suc n
      → left st < f
      → After (λ _ t. left t ≤ left st) (condition_rounds g f st)
  unfolding condition_rounds pure ◌>>=◌
  Total-condition_rounds zero st l k = absurd (omega (arith, k))
  Total-condition_rounds (suc f) st l k =
      After-attempt (suc n) _ st _ Eats-statement_expr_statement l
        (λ t i.
          After-bind (g.expression t) _
            (λ e u j.
              After-map _ (λ _ v j'. omega (arith, j, j'))
                (After-attempt (suc n) _ u _ (Eats-symbol (suc n) _) (omega (arith, l, i, j))
                  (λ v j'. success (omega arith))
                  (λ c v j'.
                    After-bind (condition_rounds g f v) _ (λ r w i'. success i')
                      (Total-condition_rounds f v (omega (arith, l, i, j, j'))
                        (omega (arith, k, i, j, j'))))))
            (on_expr t (omega (arith, l, i))))
        (λ s t i.
          After-bind (condition_rounds g f t) _ (λ r w i'. success i')
            (Total-condition_rounds f t (omega (arith, l, i)) (omega (arith, k, i))))

  Total-statement_expression : Total (suc n) (statement_expression g)
  unfolding statement_expression
  Total-statement_expression st l = Total-condition_rounds (suc (left st)) st l (omega arith)

  Eats-condition : Eats (suc n) (condition g)
  unfolding condition
  Eats-condition =
      search (firsts, totals, terminals, Total-of_Eats, Total-statement_expression) depth 16

  Eats-case_list : Eats (suc n) (case_list g)
  unfolding case_list
  Eats-case_list = search (firsts, totals, terminals, Total-of_Eats, Eats-expression_list) depth 16

  Eats-expr_stmt : Eats (suc n) (expr_stmt g)
  unfolding expr_stmt
  Eats-expr_stmt = search (firsts, totals, terminals, Total-of_Eats) depth 16

  Total-thrown : Total (suc n) (thrown g)
  unfolding thrown
  Total-thrown =
      Total->>= (suc n) _ _ (Total-peek (suc n) _ (Total-of_Eats (suc n) _ (Eats-symbol (suc n) _)))
        λ b. Total-bool (suc n) b _ _ (Total-pure (suc n) _) (
          Total->>= (suc n) _ _ (Total-opt_expression g (suc n) on_expr) λ e.
            Total->>= (suc n) _ _
              (Total-attempt (suc n) _ (Total-of_Eats (suc n) _ (Eats-keyword (suc n) _)))
              λ r. Total-option (suc n) r _ _ (Total-pure (suc n) _) (λ t.
                Total->>= (suc n) _ _ (Total-opt_expression g (suc n) on_expr)
                  (λ context. Total-pure (suc n) _)))

  Eats-throw_stmt : Eats (suc n) (throw_stmt g)
  unfolding throw_stmt
  Eats-throw_stmt = search (firsts, totals, terminals, Total-of_Eats, Total-thrown) depth 16

  Eats-eval_stmt : Eats (suc n) (eval_stmt g)
  unfolding eval_stmt
  Eats-eval_stmt = search (firsts, totals, terminals, Total-of_Eats, Eats-expression_list) depth 16

  Eats-static_assert : Eats (suc n) (static_assert g)
  unfolding static_assert
  Eats-static_assert = search (firsts, totals, terminals, Total-of_Eats) depth 24

Eats-bound : (g : Grammar) (n : ℕ) → Eats n g.expression → Eats n (local_binding g)
Eats-bound g zero on_expr = Eats-zero (local_binding g)
Eats-bound g (suc n) on_expr = Eats-local_binding g n on_expr

module _ (g : Grammar) (n : ℕ) (on_expr : Eats n g.expression) (on_stmt : Eats n g.statement) where
  Eats-block_item : Eats n (block_item g)
  unfolding block_item
  Eats-block_item = search (firsts, Eats-label_def, Eats-bound) depth 8

  pub Always-block_items : (st : State) → left st < n → Always (Items st) (block_items g st)
  unfolding block_items
  Always-block_items st l =
      Always-item_rounds n (suc (left st)) (block_item g) st Eats-block_item l (omega arith)
