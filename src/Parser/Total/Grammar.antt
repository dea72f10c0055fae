-- ===== src/Parser/Total/Grammar.antt =====
-- compiler/parser.cpp, lines 1184-1335: the grammar ends with the fuel that it is given.
use ceramic.Prelude.{ℕ, zero, suc, ◌≤◌, ◌<◌, ◌+◌, ◌*◌, Bytes, arith}
use ceramic.Parser.Exprs.{Grammar}
use ceramic.Parser.Grammar.{
  lambda_name, lambda_arrow, lambda_args, lambda_expr_body, lambda_body, lambda_expr, unpack_expr,
  pair_expr, expression_body, grammar, enough, expression, statement,
}
use ceramic.Parser.State.{State}
use ceramic.Parser.Statements.{block_statement}
use ceramic.Parser.Outcome.{After}
use ceramic.Parser.Total.{
  left, Total, Eats, Eats-zero, Total-of_Eats, Eats-mono, Eats-at_location, Eats->>=,
  Eats->>=_second,
}
use ceramic.Parser.Total.Arguments.{Eats-arguments}
use ceramic.Parser.Total.Operators.{Eats-or_exprs, Eats-if_expr, Eats-prefix_expr_body}
use ceramic.Parser.Total.Statements.{Total-return_kind}
use ceramic.Parser.Total.Statements.Nested.{Eats-block_statement, Eats-statement_body}
use ceramic.Parser.Total.Terminals.{totals, eats, firsts, terminals}

Eats-lambda_arrow : (n : ℕ) → Eats n lambda_arrow
unfolding lambda_arrow
Eats-lambda_arrow n = search (firsts, totals, terminals) depth 16

module _ (g : Grammar) (n : ℕ) (on_expr : Eats n g.expression) where
  Total-lambda_args : Total (suc n) (lambda_args g)
  unfolding lambda_args lambda_name
  Total-lambda_args = search (totals, terminals, Total-of_Eats, Eats-arguments) depth 16

  Eats-lambda_expr_body : Eats n (lambda_expr_body g)
  unfolding lambda_expr_body
  Eats-lambda_expr_body = search (firsts, Eats->>=_second, totals, Total-return_kind) depth 8

  Eats-unpack_expr : Eats (suc n) (unpack_expr g)
  unfolding unpack_expr
  Eats-unpack_expr = search (eats, totals, terminals, Total-of_Eats) depth 16

  Eats-pair_expr : Eats (suc n) (pair_expr g)
  unfolding pair_expr
  Eats-pair_expr = search (eats, totals, terminals, Total-of_Eats) depth 16

Eats-inner_block :
    (g : Grammar) (n : ℕ) → Eats n g.expression → Eats n g.statement → Eats n (block_statement g)
Eats-inner_block g zero on_expr on_stmt = Eats-zero (block_statement g)
Eats-inner_block g (suc n) on_expr on_stmt =
    Eats-block_statement g n on_expr (Eats-mono n g.statement on_stmt)

module _ (g : Grammar) (n : ℕ) (on_expr : Eats n g.expression) (on_stmt : Eats n g.statement) where
  Eats-lambda_body : Eats n (lambda_body g)
  unfolding lambda_body
  Eats-lambda_body = search (firsts, Eats-lambda_expr_body, Eats-inner_block) depth 8

  Eats-lambda_expr : Eats (suc n) (lambda_expr g)
  unfolding lambda_expr
  Eats-lambda_expr =
      search
        (
          Eats-at_location, Eats->>=, Eats->>=_second, totals, Total-of_Eats, Eats-lambda_arrow,
          Eats-lambda_body, Total-lambda_args,
        )
        depth 16

  Eats-expression_body : Eats (suc n) g.prefix_expr → Eats (suc n) (expression_body g)
  unfolding expression_body
  Eats-expression_body on_prefix =
      search
        (
          firsts, totals, Eats-lambda_expr, Eats-pair_expr, Eats-or_exprs, Eats-if_expr,
          Eats-unpack_expr,
        )
        depth 16

-- With enough fuel for `n` tokens, each of the three functions reads a token.
pub data Served (g : Grammar) (f n : ℕ) : Type 0 where
  served :
      (3 * n ≤ f + 2 → Eats n g.prefix_expr)
      → (3 * n ≤ f + 1 → Eats n g.expression)
      → (3 * n ≤ f → Eats n g.statement)
      → Served g f n

Served-step :
    (strtoul : Bytes → ℕ × Bytes) (f n : ℕ)
    → Served (grammar strtoul f) f n
    → Served (grammar strtoul f) f (suc n)
    → Served (grammar strtoul (suc f)) (suc f) (suc n)
unfolding grammar
Served-step strtoul f n (served p e s) (served p' e' s') =
    served (λ l. Eats-prefix_expr_body g n (e (omega (arith, l))) (p (omega (arith, l))))
      (λ l.
        Eats-expression_body g n (e (omega (arith, l))) (s (omega (arith, l)))
          (p' (omega (arith, l))))
      (λ l. Eats-statement_body g n (e' (omega (arith, l))) (s (omega (arith, l))))
  where
    g : Grammar
    g = grammar strtoul f

pub grammar-Served : (strtoul : Bytes → ℕ × Bytes) (f n : ℕ) → Served (grammar strtoul f) f n
grammar-Served strtoul f zero = served (λ l. Eats-zero _) (λ l. Eats-zero _) (λ l. Eats-zero _)
grammar-Served strtoul zero (suc n) =
    served (λ l. absurd (omega (arith, l))) (λ l. absurd (omega (arith, l)))
      (λ l. absurd (omega (arith, l)))
grammar-Served strtoul (suc f) (suc n) =
    Served-step strtoul f n (grammar-Served strtoul f n) (grammar-Served strtoul f (suc n))

pub After-expression :
    (strtoul : Bytes → ℕ × Bytes) (st : State)
    → After (λ _ t. left t < left st) (expression strtoul st)
unfolding expression enough
After-expression strtoul st = elim (grammar-Served strtoul (enough st) (suc (left st))) [
  | served p e s ↦ e (omega arith) st (omega arith)
]

pub After-statement :
    (strtoul : Bytes → ℕ × Bytes) (st : State)
    → After (λ _ t. left t < left st) (statement strtoul st)
unfolding statement enough
After-statement strtoul st = elim (grammar-Served strtoul (enough st) (suc (left st))) [
  | served p e s ↦ s (omega arith) st (omega arith)
]

-- With whatever `strtoul`, parsing an expression and parsing a statement from any state never run out of fuel: they
-- fail, an error is raised, or they succeed and read one token at least.
pub expression-statement_After :
    (strtoul : Bytes → ℕ × Bytes) (st : State)
    → After (λ _ t. left t < left st) (expression strtoul st)
      × After (λ _ t. left t < left st) (statement strtoul st)
expression-statement_After strtoul st = (After-expression strtoul st, After-statement strtoul st)
