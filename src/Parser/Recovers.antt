-- ===== src/Parser/Recovers.antt =====
-- compiler/parser.cpp, lines 199-247 and 1512-1595: a block is always read.
use ceramic.Prelude.{ℕ, suc, ◌≤◌, ◌<◌, ◌≡◌, refl, true, List, ◌∷◌, Bytes, codes, arith}
use ceramic.Lexer.Token.{Token}
use ceramic.Parser.Errors.{is_text}
use ceramic.Parser.Exprs.{Grammar}
use ceramic.Parser.Grammar.{grammar, enough}
use ceramic.Parser.State.{State, parsed, advance, ◌>>=◌, ◌>>◌, bind, pure, at_location}
use ceramic.Parser.Statements.{block_statement, block_items, close_block}
use ceramic.Parser.Terminals.{symbol, terminal}
use ceramic.Parser.Outcome.{Always, always, Always-bind}
use ceramic.Parser.Total.{Eats, Eats-mono, left}
use ceramic.Parser.Total.Grammar.{served, grammar-Served}
use ceramic.Parser.Total.Statements.{Always-block_items}
use ceramic.Parser.Total.Statements.Recovery.{Ends, Closes, Always-close_block}
use ceramic.Syntax.Tree.{Statement, block}

-- A block was read from `st` on: its items up to `t`, and its end.
pub data ReadBlock (st : State) : Statement → State → Type 0 where
  read :
      {l : _} {ss : _} {u : State} (t : State)
      → left t < left st
      → left u ≤ left t
      → Ends t
      → Closes t u
      → ReadBlock st (block l ss) u

symbol-reads :
    (s : Bytes) (st : State) (t : Token) (ts : List Token)
    → st.rest ≡ t ∷ ts
    → is_text s t ≡ true
    → symbol s st ≡ parsed t (advance ts st)
unfolding symbol terminal
symbol-reads s st t ts e h = rw (e, h) refl

block_statement-ReadBlock :
    (g : Grammar) (st : State) (b : Token) (ts : List Token)
    → Eats (left st) g.expression
    → Eats (left st) g.statement
    → st.rest ≡ b ∷ ts
    → is_text (codes "{") b ≡ true
    → Always (ReadBlock st) (block_statement g st)
unfolding block_statement at_location ◌>>=◌ ◌>>◌ bind pure advance
block_statement-ReadBlock g st b ts on_expr on_stmt e h =
    rw (symbol-reads (codes "{") st b ts e h) (
      Always-bind (block_items g (advance ts st)) _
        (λ ss t i.
          Always-bind (close_block t) _
            (λ x u j. always (read t (omega (arith, shorter, i.0)) j.0 i.1 j.1))
            (Always-close_block t))
        (Always-block_items g (left st) on_expr on_stmt (advance ts st) shorter))
  where
    shorter : left (advance ts st) < left st
    shorter = rw e (omega arith)

-- From `{` on, a block is read whatever follows, or a literal or an argument gives the parsing up: its items
-- end in front of `}`, at the end of the input or with too many errors; and behind them either `}` is
-- read, or there is an error on record.
pub block_statement-Recovers :
    (strtoul : Bytes → ℕ × Bytes) (st : State) (b : Token) (ts : List Token)
    → st.rest ≡ b ∷ ts
    → is_text (codes "{") b ≡ true
    → Always (ReadBlock st) (block_statement (grammar strtoul (enough st)) st)
unfolding enough
block_statement-Recovers strtoul st b ts e h =
    elim (grammar-Served strtoul (enough st) (suc (left st))) [
      | served p x s ↦
          block_statement-ReadBlock (grammar strtoul (enough st)) st b ts
            (Eats-mono (left st) _ (x (omega arith))) (Eats-mono (left st) _ (s (omega arith))) e h
    ]
