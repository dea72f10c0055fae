-- ===== src/Parser/Total/Statements/Nested.antt =====
-- compiler/parser.cpp, lines 1443-2104: statements with statements in them read tokens and end.
use ceramic.Prelude.{ℕ, suc, Bytes}
use ceramic.Parser.Exprs.{Grammar}
use ceramic.Parser.Statements.{close_block, block_items, block_statement}
use ceramic.Parser.Statements.Forms.{
  condition, opt_else, if_stmt, case_list, case_block_item, case_block_list, switch_stmt,
  while_stmt, for_stmt, catch_item, try_stmt, static_for_stmt, guarded, statement_body,
}
use ceramic.Parser.Outcome.{After-map, After-of_Always}
use ceramic.Parser.Total.{
  Total, Eats, Total-of_Eats, Eats-mono, Total-pure, Total->>=, Total-option,
}
use ceramic.Parser.Total.Rounds.{Total-attempt}
use ceramic.Parser.Total.Arguments.{Total-opt_expr_type_spec}
use ceramic.Parser.Total.Exprs.{Eats-expression_list}
use ceramic.Parser.Total.Statements.Recovery.{Always-close_block}
use ceramic.Parser.Total.Terminals.{
  totals, eats, firsts, terminals, Eats-identifier_list, Eats-keyword,
}
use ceramic.Syntax.Node.{Location}
use ceramic.Syntax.Tree.{Statement}
use ceramic.Parser.Total.Statements.{
  Always-block_items, Eats-assigned, Eats-condition, Eats-eval_stmt, Eats-expr_stmt, Eats-goto_stmt,
  Eats-keyword_statement, Eats-prefix_update, Eats-return_stmt, Eats-static_assert, Eats-throw_stmt,
  Eats-update_assignment, Total-opt_context,
}

-- What holds statements, behind a token.
module _ (g : Grammar) (n : ℕ) (on_expr : Eats (suc n) g.expression)
    (on_stmt : Eats n g.statement) where
  Total-close_block : Total n close_block
  Total-close_block st l = After-map _ (λ a t h. h.0) (After-of_Always _ (Always-close_block st))

  Total-block_items : Total n (block_items g)
  Total-block_items st l =
      After-map _ (λ ss t h. h.0)
        (After-of_Always _ (Always-block_items g n (Eats-mono n g.expression on_expr) on_stmt st l))

  pub Eats-block_statement : Eats (suc n) (block_statement g)
  unfolding block_statement
  Eats-block_statement =
      search (eats, totals, terminals, Total-block_items, Total-close_block) depth 16

  Total-condition : Total n (condition g)
  Total-condition = Total-of_Eats n _ (Eats-mono n _ (Eats-condition g n on_expr))

  Total-opt_else : Total n (opt_else g)
  unfolding opt_else
  Total-opt_else = Total->>= n _ _ (Total-attempt n _ (Total-of_Eats n _ (Eats-keyword n _))) λ r.
      Total-option n r _ _ (Total-pure n _)
        (λ t. Total->>= n _ _ (Total-of_Eats n _ on_stmt) (λ s. Total-pure n _))

  Eats-if_stmt : Eats (suc n) (if_stmt g)
  unfolding if_stmt
  Eats-if_stmt =
      search (eats, totals, terminals, Total-of_Eats, Total-condition, Total-opt_else) depth 16

  Eats-case_block_item : Eats (suc n) (case_block_item g)
  unfolding case_block_item case_list
  Eats-case_block_item =
      search (eats, totals, terminals, Total-of_Eats, Eats-expression_list, Eats-mono) depth 16

  Total-case_block_list : Total n (case_block_list g)
  unfolding case_block_list
  Total-case_block_list =
      search (totals, Total-of_Eats, (Eats-mono n (case_block_item g) Eats-case_block_item)) depth
        16

  Eats-switch_stmt : Eats (suc n) (switch_stmt g)
  unfolding switch_stmt
  Eats-switch_stmt =
      search
        (
          eats, totals, terminals, Total-of_Eats, Total-condition, Total-case_block_list,
          Total-opt_else,
        )
        depth 16

  Eats-while_stmt : Eats (suc n) (while_stmt g)
  unfolding while_stmt
  Eats-while_stmt = search (eats, totals, terminals, Total-of_Eats, Total-condition) depth 16

  Eats-for_stmt : Eats (suc n) (for_stmt g)
  unfolding for_stmt
  Eats-for_stmt =
      search
        (
          eats,
          totals,
          terminals,
          Total-of_Eats,
          Eats-identifier_list,
          (Eats-mono n g.expression on_expr),
        )
        depth 24

  Eats-catch_item : Eats (suc n) (catch_item g)
  unfolding catch_item
  Eats-catch_item =
      search
        (
          firsts,
          totals,
          terminals,
          Total-of_Eats,
          Total-opt_context,
          Eats-block_statement,
          (Total-opt_expr_type_spec g n (Eats-mono n g.expression on_expr)),
        )
        depth 24

  Eats-try_stmt : Eats (suc n) (try_stmt g)
  unfolding try_stmt
  Eats-try_stmt =
      search (firsts, totals, terminals, Total-of_Eats, Eats-block_statement, Eats-catch_item) depth
        24

  Eats-static_for_stmt : Eats (suc n) (static_for_stmt g)
  unfolding static_for_stmt
  Eats-static_for_stmt =
      search
        (
          eats,
          totals,
          terminals,
          Total-of_Eats,
          (Eats-expression_list g n (Eats-mono n g.expression on_expr)),
        )
        depth 24

  Eats-guarded :
      (s : Bytes) (make : Location → Statement → Statement) → Eats (suc n) (guarded g s make)
  unfolding guarded
  Eats-guarded s make = search (eats, totals, terminals, Total-of_Eats) depth 16

  pub Eats-statement_body : Eats (suc n) (statement_body g)
  unfolding statement_body
  Eats-statement_body =
      search
        (
          eats, Eats-block_statement, Eats-assigned, Eats-update_assignment, Eats-prefix_update,
          Eats-if_stmt, Eats-switch_stmt, Eats-return_stmt, Eats-eval_stmt, Eats-expr_stmt,
          Eats-while_stmt, Eats-keyword_statement, Eats-for_stmt, Eats-static_for_stmt,
          Eats-try_stmt, Eats-throw_stmt, Eats-guarded, Eats-static_assert, Eats-goto_stmt,
        )
        depth 32
