-- ===== src/Parser/Apply.antt =====
-- compiler/parser.cpp, lines 4073-4180: parsing a range of a source.
pub mod Answers
use ceramic.Prelude.{
  ℕ, zero, suc, Bool, true, false, ◌&&◌, ◌||◌, not, Option, none, some, List, [], ◌∷◌, ◌++◌, Bytes,
  length, bytes_eq, ◌==◌, if◌then◌else◌,
}
use ceramic.Lexer.Token.{Token}
use ceramic.Lexer.Tokenize.{Outcome, tokens, invalid_token, invalid_doc_token, tokenize}
use ceramic.Parser.Errors.{build_parse_error}
use ceramic.Parser.Grammar.{grammar, enough, expression}
use ceramic.Parser.State.{
  Parser, State, Report, Diagnostic, Result, parsed, failed, aborted, out_of_fuel,
}
use ceramic.Parser.Statements.{block_items}
use ceramic.Syntax.Tree.{Expr, Statement}

-- The source: its address, its bytes and `shouldPrintFullMatchErrors`.
pub record Source : Type 0 where
  pub address : ℕ
  pub data_bytes : Bytes
  pub full_errors : Bool

-- The variables at the start of a run.
unfoldable pub start_of : Source → List Token → Bool → State
start_of source ts track = record {
  rest = ts;
  position = zero;
  has_var_arg = false;
  has_as_conversion = false;
  report = record {
    source = source.address;
    source_size = length source.data_bytes;
    tokens = ts;
    full_errors = source.full_errors;
    max_position = zero;
    fail_position = zero;
    fail_expected = [];
    suppress_expected = false;
    track_expected = track;
    parse_errors = [];
    parse_error_overflow = false;
  };
}

-- What a run leaves: the node if the function returned true, `parseErrors` and `parseErrorOverflow`.
pub data Run (A : Type 0) : Type 0 where
  ran : Option A → List Diagnostic → Bool → Run A
  raised : Run A
  never : Run A

-- `if ((!ok || position < t.size()) && parseErrors.empty()) parseErrors.push_back(buildParseError());`
unfoldable pub errors_of : Bool → State → List Diagnostic
errors_of ok st = elim st.report.parse_errors [
  | d ∷ ds ↦ d ∷ ds
  | [] ↦ elim st.rest [
    | [] ↦ if ok then [] else build_parse_error st.report ∷ []
    | t ∷ ts ↦ build_parse_error st.report ∷ []
  ]
]

unfoldable pub run_of : {A : Type 0} → Result A → Run A
unfolding errors_of
run_of (parsed a st) = ran (some a) (errors_of true st) st.report.parse_error_overflow
run_of (failed st) = ran none (errors_of false st) st.report.parse_error_overflow
run_of aborted = raised
run_of out_of_fuel = never

unfoldable pub run : {A : Type 0} → Source → List Token → Parser A → Bool → Run A
unfolding run_of start_of
run source ts parser track = run_of (parser (start_of source ts track))

-- `u.headline == d.headline && u.primary.startOffset == d.primary.startOffset`
unfoldable pub same : Diagnostic → Diagnostic → Bool
same u d = bytes_eq u.headline d.headline && u.start_offset == d.start_offset

unfoldable pub is_dup : List Diagnostic → Diagnostic → Bool
unfolding same
is_dup [] d = false
is_dup (u ∷ us) d = same u d || is_dup us d

-- The rest of `errs` behind the list `uniq`.
unfoldable pub add_unique : List Diagnostic → List Diagnostic → List Diagnostic
unfolding is_dup
add_unique uniq [] = uniq
add_unique uniq (d ∷ ds) = add_unique (if is_dup uniq d then uniq else uniq ++ (d ∷ [])) ds

-- The node; or the diagnostics that are displayed, with or without the note on too many errors, before
-- `CompilerError`; or an error that is raised earlier; or no node and no error.
pub data Applied (A : Type 0) : Type 0 where
  node : A → Applied A
  rejected : List Diagnostic → Bool → Applied A
  lexical_error : ℕ → Applied A
  error_raised : Applied A
  no_node : Applied A
  endless : Applied A

-- What is returned, or thrown where there are errors. Without errors the function returned true.
unfoldable pub conclude : {A : Type 0} → Run A → Applied A
unfolding add_unique
conclude (ran a (d ∷ ds) overflow) = rejected (add_unique [] (d ∷ ds)) overflow
conclude (ran (some a) [] overflow) = node a
conclude (ran none [] overflow) = no_node
conclude raised = error_raised
conclude never = endless

-- Where there are errors, all is done again with `trackExpected`.
unfoldable pub replay : {A : Type 0} → Run A → Run A → Run A
replay (ran a [] overflow) again = ran a [] overflow
replay (ran a (d ∷ ds) overflow) again = again
replay raised again = raised
replay never again = never

unfoldable pub apply_tokens : {A : Type 0} → Source → Parser A → Outcome → Applied A
unfolding run replay conclude
apply_tokens source parser (tokens ts) =
    conclude (replay (run source ts parser false) (run source ts parser true))
apply_tokens source parser (invalid_token l) = lexical_error l
apply_tokens source parser (invalid_doc_token l) = lexical_error l
apply_tokens source parser Outcome.out_of_fuel = endless

-- Not interactive, so that `addTokens` is null. `block` is what the lexer's `docIsBlock` is before.
unfoldable pub apply_parser : {A : Type 0} → Bool → Source → ℕ → ℕ → Parser A → Applied A
unfolding apply_tokens tokenize
apply_parser block source offset count parser =
    apply_tokens source parser (tokenize block source.data_bytes offset count)

unfoldable pub parse_expr : (Bytes → ℕ × Bytes) → Bool → Source → ℕ → ℕ → Applied Expr
unfolding apply_parser
parse_expr strtoul block source offset count =
    apply_parser block source offset count (expression strtoul)

-- `blockItems` with the grammar.
unfoldable pub statements : (Bytes → ℕ × Bytes) → Parser (List Statement)
unfolding enough
statements strtoul st = block_items (grammar strtoul (enough st)) st

unfoldable pub parse_statements :
    (Bytes → ℕ × Bytes) → Bool → Source → ℕ → ℕ → Applied (List Statement)
unfolding apply_parser statements
parse_statements strtoul block source offset count =
    apply_parser block source offset count (statements strtoul)
