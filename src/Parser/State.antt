-- ===== src/Parser/State.antt =====
-- compiler/parser.cpp, lines 10-76: the variables of the parser, and how its functions are put together.
use ceramic.Prelude.{
  ℕ, zero, suc, Bool, true, false, Option, none, some, List, [], ◌∷◌, ◌++◌, Bytes, length, contains,
  ltb, ◌==◌, if◌then◌else◌,
}
use ceramic.Lexer.Token.{Token}
use ceramic.Syntax.Node.{Location}

-- `headline`, the range of the `Span`, and `suggestion`.
pub record Diagnostic : Type 0 where
  pub headline : Bytes
  pub start_offset : ℕ
  pub end_offset : ℕ
  pub suggestion : Option Bytes

-- What is kept for error messages. `source` is the address of `parseSource`, `tokens` are all tokens,
-- and `full_errors` is `shouldPrintFullMatchErrors`.
pub record Report : Type 0 where
  pub source : ℕ
  pub source_size : ℕ
  pub tokens : List Token
  pub full_errors : Bool
  pub max_position : ℕ
  pub fail_position : ℕ
  pub fail_expected : List Bytes
  pub suppress_expected : Bool
  pub track_expected : Bool
  pub parse_errors : List Diagnostic
  pub parse_error_overflow : Bool

-- `position`, and the tokens from there on. The flags are the variables that `hasVarArg` and `hasAsConversion`
-- refer to in a function that takes them by reference.
pub record State : Type 0 where
  pub rest : List Token
  pub position : ℕ
  pub has_var_arg : Bool
  pub has_as_conversion : Bool
  pub report : Report

-- A function returns true with a value, or false; `aborted` is a call of `error`.
pub data Result (A : Type 0) : Type 0 where
  parsed : A → State → Result A
  failed : State → Result A
  aborted : Result A
  out_of_fuel : Result A

abbrev pub Parser : Type 0 → Type 0
Parser A = State → Result A

-- `restore(p)` of the position that `save()` gave in an earlier state.
unfoldable pub restore : State → State → State
restore saved st = record st { rest = saved.rest; position = saved.position }

unfoldable pub bind : {A B : Type 0} → Result A → (A → Parser B) → Result B
bind (parsed a st) k = k a st
bind (failed st) k = failed st
bind aborted k = aborted
bind out_of_fuel k = out_of_fuel

-- `if (!m) return false; ...`
infixl 5 ◌>>=◌ ◌>>◌
unfoldable pub ◌>>=◌ : {A B : Type 0} → Parser A → (A → Parser B) → Parser B
unfolding bind
◌>>=◌ m k st = bind (m st) k

unfoldable pub ◌>>◌ : {A B : Type 0} → Parser A → Parser B → Parser B
unfolding bind
◌>>◌ m k st = bind (m st) (λ _. k)

unfoldable pub pure : {A : Type 0} → A → Parser A
pure a st = parsed a st

unfoldable pub fail : {A : Type 0} → Parser A
fail st = failed st

unfoldable pub abort : {A : Type 0} → Parser A
abort st = aborted

unfoldable pub or_else : {A : Type 0} → State → Result A → Parser A → Result A
or_else saved (parsed a st) k = parsed a st
or_else saved (failed st) k = k (restore saved st)
or_else saved aborted k = aborted
or_else saved out_of_fuel k = out_of_fuel

-- `p = save(); if (m) return true; if (restore(p), k) return true;`
infixl 6 ◌<|>◌
unfoldable pub ◌<|>◌ : {A : Type 0} → Parser A → Parser A → Parser A
unfolding or_else restore
◌<|>◌ m k st = or_else st (m st) k

-- `p = save(); if (!m) restore(p);`, with what was read.
unfoldable pub attempt : {A : Type 0} → Parser A → Parser (Option A)
unfolding ◌<|>◌ ◌>>=◌ pure
attempt m = (m >>= λ a. pure (some a)) <|> pure none

-- `while (true) { p = save(); if (!m) { restore(p); break; } ... }`, the values in their order.
unfoldable pub rounds : {A : Type 0} → ℕ → Parser A → Parser (List A)
unfolding attempt
rounds zero m st = out_of_fuel
rounds (suc f) m st =
    let more = rounds f m in
    bind (attempt m st) λ r. elim r [ none ↦ pure [] | some a ↦ more >>= λ as'. pure (a ∷ as') ]

-- Each round reads a token at least: one for each token, and the one that stops.
unfoldable pub many : {A : Type 0} → Parser A → Parser (List A)
unfolding rounds
many m st = rounds (suc (length st.rest)) m st

-- `currentLocation()`; at the end of the tokens it is none.
unfoldable pub current_location : State → Location
current_location st = elim st.rest [
  | [] ↦ none
  | t ∷ ts ↦ elim t.location [ none ↦ none | some o ↦ some (st.report.source, o) ]
]

-- `Location location = currentLocation(); ...`
unfoldable pub at_location : {A : Type 0} → (Location → Parser A) → Parser A
unfolding current_location
at_location k st = k (current_location st) st

unfoldable pub later : ℕ → ℕ → ℕ
later m p = if ltb m p then p else m

-- `next(t)` where there is a token; interactive input is not modelled.
unfoldable pub advance : List Token → State → State
unfolding later
advance ts st = record st {
  rest = ts;
  position = suc st.position;
  report = record st.report { max_position = later st.report.max_position st.position };
}

unfoldable pub add_expected : ℕ → Bytes → Report → Report
add_expected p what r =
    if r.track_expected
    then if p == r.fail_position
      then if contains r.fail_expected what
        then r
        else record r { fail_expected = r.fail_expected ++ (what ∷ []) }
      else r
    else r

-- Texts are compared where the code compares their addresses.
unfoldable pub record_expected : ℕ → Bytes → State → State
unfolding add_expected
record_expected p what st =
    let r = st.report in
    if r.suppress_expected
    then st
    else if ltb r.fail_position p
    then record st {
      report = add_expected p what (record r { fail_position = p; fail_expected = [] });
    }
    else record st { report = add_expected p what r }

unfoldable pub with_suppressed : Bool → State → State
with_suppressed b st = record st { report = record st.report { suppress_expected = b } }

unfoldable pub end_probe : {A : Type 0} → State → Result A → Result A
unfolding with_suppressed restore
end_probe saved (parsed a st) = parsed a (with_suppressed saved.report.suppress_expected st)
end_probe saved (failed st) =
    failed (restore saved (with_suppressed saved.report.suppress_expected st))
end_probe saved aborted = aborted
end_probe saved out_of_fuel = out_of_fuel

-- `optSymbol(probe)`
unfoldable pub opt_symbol : {A : Type 0} → Parser A → Parser A
unfolding end_probe with_suppressed
opt_symbol probe st = end_probe st (probe (with_suppressed true st))

unfoldable pub with_flags : Bool → Bool → State → State
with_flags v a st = record st { has_var_arg = v; has_as_conversion = a }

unfoldable pub end_flags : {A : Type 0} → State → Result A → Result (A × Bool × Bool)
unfolding with_flags
end_flags outer (parsed a st) =
    parsed (a, st.has_var_arg, st.has_as_conversion)
      (with_flags outer.has_var_arg outer.has_as_conversion st)
end_flags outer (failed st) = failed (with_flags outer.has_var_arg outer.has_as_conversion st)
end_flags outer aborted = aborted
end_flags outer out_of_fuel = out_of_fuel

-- A function that declares the two variables, and their values at the end.
unfoldable pub local_flags : {A : Type 0} → Parser A → Parser (A × Bool × Bool)
unfolding end_flags with_flags
local_flags m st = end_flags st (m (with_flags false false st))

-- Whether `m` succeeds, with the position restored.
unfoldable pub peek_end : {A : Type 0} → State → Result A → Result Bool
unfolding restore
peek_end saved (parsed a st) = parsed true (restore saved st)
peek_end saved (failed st) = parsed false (restore saved st)
peek_end saved aborted = aborted
peek_end saved out_of_fuel = out_of_fuel

unfoldable pub peek : {A : Type 0} → Parser A → Parser Bool
unfolding peek_end
peek m st = peek_end st (m st)

-- `while (start) { if (!cont) return false; ... } restore(p);`
unfoldable pub committed_rounds : {A B : Type 0} → ℕ → Parser A → (A → Parser B) → Parser (List B)
unfolding attempt
committed_rounds zero start cont st = out_of_fuel
committed_rounds (suc f) start cont st =
    let more = committed_rounds f start cont in
    bind (attempt start st)
      λ r. elim r [ none ↦ pure [] | some a ↦ cont a >>= λ b. more >>= λ bs. pure (b ∷ bs) ]

unfoldable pub many_committed : {A B : Type 0} → Parser A → (A → Parser B) → Parser (List B)
unfolding committed_rounds
many_committed start cont st = committed_rounds (suc (length st.rest)) start cont st
