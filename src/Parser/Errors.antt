-- ===== src/Parser/Errors.antt =====
-- compiler/parser.cpp, lines 78-247: diagnostics of syntax errors, and recovery from them.
pub mod Boundary
use ceramic.Prelude.{
  ℕ, zero, suc, ◌+◌, ◌-◌, ◌%◌, ◌^◌, Bool, true, false, not, ◌&&◌, Option, none, some, List, [], ◌∷◌,
  ◌++◌, Bytes, codes, length, bytes_eq, contains, leb, ◌==◌, if◌then◌else◌,
}
use ceramic.Lexer.Token.{Token}
use ceramic.Parser.State.{State, Report, Diagnostic}
use ceramic.Parser.Terminals.{is_symbol, is_keyword}

abbrev terminators : List Bytes
terminators = codes ";" ∷ codes "}" ∷ codes ")" ∷ codes "]" ∷ codes "," ∷ codes ":" ∷ []

-- The texts of the first list that are in the second.
unfoldable pub those_in : List Bytes → List Bytes → List Bytes
those_in [] expected = []
those_in (p ∷ ps) expected =
    let rest = those_in ps expected in if contains expected p then p ∷ rest else rest

-- Adds each text that is not there yet.
unfoldable pub add_unseen : List Bytes → List Bytes → List Bytes
add_unseen ordered [] = ordered
add_unseen ordered (e ∷ es) =
    add_unseen (if contains ordered e then ordered else ordered ++ (e ∷ [])) es

-- Terminators first, then expressions, then the rest.
unfoldable pub ranked : List Bytes → List Bytes
unfolding those_in add_unseen
ranked expected =
    add_unseen (those_in terminators expected ++ those_in (codes "expression" ∷ []) expected)
      expected

unfoldable pub token_at : List Token → ℕ → Option Token
token_at [] n = none
token_at (t ∷ ts) zero = some t
token_at (t ∷ ts) (suc n) = token_at ts n

unfoldable pub first_text : List Bytes → Bytes
first_text [] = []
first_text (e ∷ es) = e

-- A missing comma comes before a missing closing bracket where another item follows.
unfoldable pub lead_of : Bytes → List Bytes → Option Token → Bytes
lead_of lead expected none = lead
lead_of lead expected (some t) =
    let closers = codes ")" ∷ codes "]" ∷ codes "}" ∷ codes ";" ∷ codes "," ∷ [] in
    if contains (codes ")" ∷ codes "]" ∷ []) lead
      && contains expected (codes ",")
      && not (contains closers t.str)
    then codes ","
    else lead

unfoldable pub offset_of : Token → ℕ
offset_of t = elim t.location [ none ↦ zero | some o ↦ o ]

-- Behind a token, in 32 bits.
unfoldable pub end_of_token : Token → ℕ
unfolding offset_of
end_of_token t = (offset_of t + length t.str % 2 ^ 32) % 2 ^ 32

unfoldable pub quoted : Bytes → Bytes
quoted s = codes "`" ++ (s ++ codes "`")

unfoldable pub suggestion_for : Bytes → Option Bytes
unfolding quoted
suggestion_for lead =
    if contains (codes ";" ∷ codes "}" ∷ codes ")" ∷ codes "]" ∷ codes "," ∷ []) lead
    then some (codes "add " ++ (quoted lead ++ codes " here"))
    else none

-- What was found: its text and its range.
unfoldable pub found_at : Report → Option Token → Bytes × ℕ × ℕ
unfolding quoted offset_of end_of_token
found_at r none = (codes "end of input", r.source_size % 2 ^ 32, r.source_size % 2 ^ 32)
found_at r (some t) = (quoted t.str, offset_of t, end_of_token t)

unfoldable pub expected_text : List Bytes → Bytes → Bytes → Bytes
unfolding quoted
expected_text [] lead found = codes "unexpected " ++ found
expected_text (e ∷ es) lead found =
    let shown =
      if contains (codes "identifier" ∷ codes "operator" ∷ codes "expression" ∷ []) lead
      then lead
      else quoted lead in
    codes "expected " ++ (shown ++ (codes ", found " ++ found))

unfoldable pub general_error : List Bytes → Bytes → Bytes × ℕ × ℕ → Diagnostic
unfolding expected_text suggestion_for
general_error ordered lead (found, start, end) = record {
  headline = expected_text ordered lead found;
  start_offset = start;
  end_offset = end;
  suggestion = suggestion_for lead;
}

-- A missing delimiter is reported behind the token before it, if there is one.
unfoldable pub error_at : Report → List Bytes → Bytes → ℕ → Diagnostic
unfolding general_error found_at suggestion_for quoted
error_at r ordered lead zero = general_error ordered lead (found_at r (token_at r.tokens zero))
error_at r ordered lead (suc p) = elim (token_at r.tokens p) [
  | none ↦ general_error ordered lead (found_at r (token_at r.tokens (suc p)))
  | some prev ↦
      if contains (codes ";" ∷ codes "}" ∷ codes ")" ∷ codes "]" ∷ codes "," ∷ []) lead
      then record {
        headline = codes "expected " ++ quoted lead;
        start_offset = end_of_token prev;
        end_offset = end_of_token prev;
        suggestion = suggestion_for lead;
      }
      else general_error ordered lead (found_at r (token_at r.tokens (suc p)))
]

-- `failPosition`, or `maxPosition` where nothing was expected.
unfoldable pub error_position : Report → ℕ
error_position r = elim r.fail_expected [ [] ↦ r.max_position | e ∷ es ↦ r.fail_position ]

unfoldable pub build_parse_error : Report → Diagnostic
unfolding ranked lead_of first_text error_at error_position
build_parse_error r =
    let p = error_position r in
    let ordered = ranked r.fail_expected in
    error_at r ordered (lead_of (first_text ordered) r.fail_expected (token_at r.tokens p)) p

-- `parseErrors.size() >= maxParseErrors && !shouldPrintFullMatchErrors`
unfoldable pub too_many : Report → Bool
too_many r = leb 20 (length r.parse_errors) && not r.full_errors

unfoldable pub report_error : Report → Report
unfolding too_many build_parse_error
report_error r =
    if too_many r
    then record r { parse_error_overflow = true }
    else record r { parse_errors = r.parse_errors ++ (build_parse_error r ∷ []) }

unfoldable pub record_parse_error : State → State
unfolding report_error
record_parse_error st = record st { report = report_error st.report }

unfoldable pub begin_item : State → State
begin_item st = record st {
  report = record st.report {
    max_position = st.position;
    fail_position = st.position;
    fail_expected = [];
  };
}

unfoldable pub is_stmt_start_kw : Bytes → Bool
is_stmt_start_kw = contains (
    codes "if"
    ∷ codes "while"
    ∷ codes "for"
    ∷ codes "return"
    ∷ codes "switch"
    ∷ codes "break"
    ∷ codes "continue"
    ∷ codes "throw"
    ∷ codes "var"
    ∷ codes "ref"
    ∷ codes "alias"
    ∷ codes "forward"
    ∷ codes "try"
    ∷ codes "goto"
    ∷ codes "eval"
    ∷ codes "static"
    ∷ [])

abbrev pub is_text : Bytes → Token → Bool
is_text s t = is_symbol t.token_kind && bytes_eq t.str s

-- One round of the loop: on with a depth, or the end in front of the token or behind it.
pub data Skip : Type 0 where
  go_on : ℕ → Skip
  stop_here stop_after : Skip

unfoldable pub skip_step : ℕ → Bool → Token → Skip
unfolding is_stmt_start_kw
skip_step depth first t =
    if is_text (codes "{") t
    then go_on (suc depth)
    else if is_text (codes "}") t
    then (if depth == 0 then stop_here else go_on (depth - 1))
    else if depth == 0 && not first
    then (if is_text (codes ";") t
        then stop_after
        else if is_keyword t.token_kind && is_stmt_start_kw t.str
        then stop_here
        else go_on depth)
    else go_on depth

-- The tokens from the next boundary of a statement on, inside `depth` blocks, with the position.
unfoldable pub skip_statement : ℕ → Bool → ℕ → List Token → List Token × ℕ
unfolding skip_step
skip_statement depth first p [] = ([], p)
skip_statement depth first p (t ∷ ts) = elim (skip_step depth first t) [
  | go_on d ↦ skip_statement d false (suc p) ts
  | stop_here ↦ (t ∷ ts, p)
  | stop_after ↦ (ts, suc p)
]

unfoldable pub moved_to : State → List Token × ℕ → State
moved_to st (ts, p) = record st { rest = ts; position = p }

unfoldable pub synchronize_block : State → State
unfolding skip_statement moved_to
synchronize_block st = moved_to st (skip_statement 0 true st.position st.rest)
