-- ===== src/Parser/Brackets.antt =====
-- compiler/parser.cpp, lines 2501-2525: skipping the pattern variables in front of a top-level item.
pub mod Ends
use ceramic.Prelude.{
  ℕ, zero, suc, ◌<◌, ◌≡◌, refl, subst, Bool, true, false, not, ◌||◌, Bool-cases, inl, inr, List, [],
  ◌∷◌, Bytes, codes, length, arith, if◌then◌else◌,
}
use ceramic.Lexer.Token.{Token}
use ceramic.Parser.Errors.{is_text}
use ceramic.Parser.State.{
  Parser, State, Result, parsed, failed, aborted, out_of_fuel, restore, advance, record_expected,
}
use ceramic.Parser.Terminals.{symbol, terminal}
use ceramic.Parser.Total.{left}

-- What the two calls of `symbol` in a round did; a token that is neither bracket is passed over, and at the end
-- of the input nothing is.
unfoldable pub close_step : (ℕ → Parser (Unit {0})) → ℕ → Result Token → Result (Unit {0})
close_step continue b (parsed t st) = continue b st
close_step continue b (failed st) = continue (suc b) st
close_step continue b aborted = aborted
close_step continue b out_of_fuel = out_of_fuel

unfoldable pub open_step : State → (ℕ → Parser (Unit {0})) → ℕ → Result Token → Result (Unit {0})
unfolding close_step restore
open_step saved continue b (parsed t st) = continue (suc (suc b)) st
open_step saved continue b (failed st) =
    close_step continue b (symbol (codes "]") (restore saved st))
open_step saved continue b aborted = aborted
open_step saved continue b out_of_fuel = out_of_fuel

-- `while (bracket)`, a round for each unit of fuel.
unfoldable pub skip_brackets : ℕ → ℕ → Parser (Unit {0})
unfolding open_step
skip_brackets f zero st = parsed tt st
skip_brackets zero (suc b) st = out_of_fuel
skip_brackets (suc f) (suc b) st = open_step st (skip_brackets f) b (symbol (codes "[") st)

-- Where `[[` is next, nothing is skipped.
unfoldable pub skip_second : ℕ → State → State → Result Token → Result (Unit {0})
skip_second f p q (parsed t st) = parsed tt (restore p st)
skip_second f p q (failed st) = skip_brackets f 1 (restore q st)
skip_second f p q aborted = aborted
skip_second f p q out_of_fuel = out_of_fuel

unfoldable pub skip_first : ℕ → State → Result Token → Result (Unit {0})
unfolding skip_second
skip_first f p (parsed t st) = skip_second f p st (symbol (codes "[") st)
skip_first f p (failed st) = parsed tt (restore p st)
skip_first f p aborted = aborted
skip_first f p out_of_fuel = out_of_fuel

unfoldable pub skip_opt_pattern_var : ℕ → Parser (Unit {0})
unfolding skip_first
skip_opt_pattern_var f st = skip_first f st (symbol (codes "[") st)
