-- ===== src/Parser/Apply/Answers.antt =====
-- compiler/parser.cpp, lines 4073-4180: what parsing a range of a source comes to.
use ceramic.Prelude.{
  ℕ, suc, ◌≤◌, ◌≡◌, refl, Bool, true, false, Bool-cases, inl, inr, Option, none, some, List, [],
  ◌∷◌, ◌++◌, Bytes, if◌then◌else◌, arith,
}
use ceramic.Lexer.Token.{Token}
use ceramic.Lexer.Tokenize.{Outcome, tokens, invalid_token, invalid_doc_token, tokenize}
use ceramic.Lexer.Tokenize.Locations.{tokenize-ne-out_of_fuel}
use ceramic.Parser.Apply.{
  Source, start_of, Run, ran, raised, never, errors_of, run_of, run, is_dup, add_unique, Applied,
  node, rejected, lexical_error, error_raised, conclude, replay, apply_tokens, apply_parser,
  parse_expr, statements, parse_statements,
}
use ceramic.Parser.Errors.{build_parse_error}
use ceramic.Parser.Grammar.{expression, grammar, enough}
use ceramic.Parser.State.{Parser, State, Result, Diagnostic, parsed, failed, aborted, out_of_fuel}
use ceramic.Parser.Outcome.{After, After-map, After-of_Always}
use ceramic.Parser.Total.{left}
use ceramic.Parser.Total.Grammar.{After-expression, served, grammar-Served}
use ceramic.Parser.Total.Statements.{Always-block_items}

-- No diagnostic has the headline and the place of an earlier one.
pub data Distinct : List Diagnostic → Type 0 where
  no_more : Distinct []
  one_more :
      {us : List Diagnostic} (d : Diagnostic)
      → Distinct us
      → is_dup us d ≡ false
      → Distinct (us ++ (d ∷ []))

Distinct-add_unique : (us ds : List Diagnostic) → Distinct us → Distinct (add_unique us ds)
unfolding add_unique
Distinct-add_unique us [] h = h
Distinct-add_unique us (d ∷ ds) h = elim (Bool-cases (is_dup us d)) [
  | inl e ↦ rw e (Distinct-add_unique us ds h)
  | inr e ↦ rw e (Distinct-add_unique (us ++ (d ∷ [])) ds (one_more d h e))
]

add_unique-first :
    (u : Diagnostic) (us ds : List Diagnostic)
    → (vs : List Diagnostic) × add_unique (u ∷ us) ds ≡ u ∷ vs
unfolding add_unique
add_unique-first u us [] = (us, refl)
add_unique-first u us (d ∷ ds) = elim (Bool-cases (is_dup (u ∷ us) d)) [
  | inl e ↦ rw e (add_unique-first u us ds)
  | inr e ↦ rw e (add_unique-first u (us ++ (d ∷ [])) ds)
]

-- The first error is displayed first.
Distinct-errors :
    (d : Diagnostic) (ds : List Diagnostic)
    → (vs : List Diagnostic) × (add_unique [] (d ∷ ds) ≡ d ∷ vs) × Distinct (d ∷ vs)
unfolding add_unique is_dup
Distinct-errors d ds =
    let (vs, e) = add_unique-first d [] ds in
    (vs, e, rw⁻¹ e (Distinct-add_unique (d ∷ []) ds (one_more d no_more refl)))

-- A run that ends: the function returned true, read all tokens and kept no error; or there is an error; or one
-- was raised.
data Ran {A : Type 0} (m : Result A) : Run A → Type 0 where
  good :
      {a : A} {o : Bool} (t : State)
      → m ≡ parsed a t
      → t.rest ≡ []
      → t.report.parse_errors ≡ []
      → Ran m (ran (some a) [] o)
  bad : {r : Option A} {o : Bool} (d : Diagnostic) (ds : List Diagnostic) → Ran m (ran r (d ∷ ds) o)
  thrown : Ran m raised

data Errors (ok : Bool) (st : State) : List Diagnostic → Type 0 where
  no_error : ok ≡ true → st.rest ≡ [] → st.report.parse_errors ≡ [] → Errors ok st []
  an_error : {d : Diagnostic} {ds : List Diagnostic} → Errors ok st (d ∷ ds)

errors_of-Errors : (ok : Bool) (st : State) → Errors ok st (errors_of ok st)
unfolding errors_of
errors_of-Errors ok st = go st.report.parse_errors st.rest ok refl refl refl
  where
    go :
        (ds : List Diagnostic) (ts : List Token) (b : Bool)
        → st.report.parse_errors ≡ ds
        → st.rest ≡ ts
        → ok ≡ b
        → Errors ok st (elim ds [
          | d ∷ es ↦ d ∷ es
          | [] ↦ elim ts [
            | [] ↦ if b then [] else build_parse_error st.report ∷ []
            | t ∷ us ↦ build_parse_error st.report ∷ []
          ]
        ])
    go [] [] true e f h = no_error h f e
    go [] [] false e f h = an_error
    go [] (t ∷ ts) b e f h = an_error
    go (d ∷ ds) ts b e f h = an_error

good_run :
    {A : Type 0} (a : A) (st : State) (ds : List Diagnostic)
    → Errors true st ds
    → Ran (parsed a st) (ran (some a) ds st.report.parse_error_overflow)
good_run a st [] (no_error h f e) = good st refl f e
good_run a st (d ∷ ds) h = bad d ds

bad_run :
    {A : Type 0} (st : State) (ds : List Diagnostic)
    → Errors false st ds
    → Ran {A = A} (failed st) (ran none ds st.report.parse_error_overflow)
bad_run st [] (no_error h f e) = absurd (cc h)
bad_run st (d ∷ ds) h = bad d ds

run_of-Ran : {A : Type 0} {P : A → State → Type 0} (m : Result A) → After P m → Ran m (run_of m)
unfolding run_of
run_of-Ran (parsed a st) h = good_run a st _ (errors_of-Errors true st)
run_of-Ran (failed st) h = bad_run st _ (errors_of-Errors false st)
run_of-Ran aborted h = thrown
run_of-Ran out_of_fuel h = elim h [ ]

-- What parsing comes to: a node that a run returned, which read all of the tokens and kept no error; errors
-- to display, one at least and each of them once; or an error that was raised.
pub data Answers {A : Type 0} (parser : Parser A) (source : Source) (offset count : ℕ)
    (block : Bool) : Applied A → Type 0 where
  answered :
      {a : A} (ts : List Token) (track : Bool) (t : State)
      → tokenize block source.data_bytes offset count ≡ tokens ts
      → parser (start_of source ts track) ≡ parsed a t
      → t.rest ≡ []
      → t.report.parse_errors ≡ []
      → Answers parser source offset count block (node a)
  reported :
      (d : Diagnostic) (ds : List Diagnostic) (overflow : Bool)
      → Distinct (d ∷ ds)
      → Answers parser source offset count block (rejected (d ∷ ds) overflow)
  bad_token :
      (l : ℕ)
      → tokenize block source.data_bytes offset count ≡ invalid_token l
      → Answers parser source offset count block (lexical_error l)
  bad_doc_token :
      (l : ℕ)
      → tokenize block source.data_bytes offset count ≡ invalid_doc_token l
      → Answers parser source offset count block (lexical_error l)
  threw : Answers parser source offset count block error_raised

module _ {A : Type 0} (parser : Parser A) (source : Source) (offset count : ℕ) (block : Bool) where
  conclude-Answers :
      (ts : List Token) (track : Bool) (r : Run A)
      → tokenize block source.data_bytes offset count ≡ tokens ts
      → Ran (parser (start_of source ts track)) r
      → Answers parser source offset count block (conclude r)
  unfolding conclude
  conclude-Answers ts track (ran (some a) [] o) k (good t e f g) = answered ts track t k e f g
  conclude-Answers ts track (ran none [] o) k h = elim h [ ]
  conclude-Answers ts track never k h = elim h [ ]
  conclude-Answers ts track (ran r (d ∷ ds) o) k h =
      let (vs, e, i) = Distinct-errors d ds in rw e (reported d vs o i)
  conclude-Answers ts track raised k thrown = threw

  replay-Answers :
      (ts : List Token) (r s : Run A)
      → tokenize block source.data_bytes offset count ≡ tokens ts
      → Ran (parser (start_of source ts false)) r
      → Ran (parser (start_of source ts true)) s
      → Answers parser source offset count block (conclude (replay r s))
  unfolding replay
  replay-Answers ts (ran a [] o) s k h i = conclude-Answers ts false (ran a [] o) k h
  replay-Answers ts (ran a (d ∷ ds) o) s k h i = conclude-Answers ts true s k i
  replay-Answers ts raised s k h i = conclude-Answers ts false raised k h
  replay-Answers ts never s k h i = elim h [ ]

  pub apply_parser-Answers :
      {P : State → A → State → Type 0}
      → ((st : State) → After (P st) (parser st))
      → Answers parser source offset count block (apply_parser block source offset count parser)
  unfolding apply_parser apply_tokens run
  apply_parser-Answers h = go (tokenize block source.data_bytes offset count) refl
    where
      go :
          (o : Outcome)
          → tokenize block source.data_bytes offset count ≡ o
          → Answers parser source offset count block (apply_tokens source parser o)
      go (tokens ts) e =
          replay-Answers ts _ _ e (run_of-Ran _ (h (start_of source ts false)))
            (run_of-Ran _ (h (start_of source ts true)))
      go (invalid_token l) e = bad_token l e
      go (invalid_doc_token l) e = bad_doc_token l e
      go Outcome.out_of_fuel e =
          absurd (tokenize-ne-out_of_fuel block source.data_bytes offset count e)

After-statements :
    (strtoul : Bytes → ℕ × Bytes) (st : State)
    → After (λ _ t. left t ≤ left st) (statements strtoul st)
unfolding statements enough
After-statements strtoul st = elim (grammar-Served strtoul (enough st) (suc (left st))) [
  | served p e s ↦
      After-map _ (λ ss t h. h.0)
        (After-of_Always _ (
          Always-block_items (grammar strtoul (enough st)) (suc (left st)) (e (omega arith))
            (s (omega arith)) st (omega arith)))
]

-- Parsing an expression, or statements, in a range of a source ends with a node that a run over all of the
-- range's tokens returned without an error; or with errors to display, of which there is one at least and no two
-- have the same headline and place; or with an error that is raised: the lexer's, or another.
pub parse-Answers :
    (strtoul : Bytes → ℕ × Bytes) (block : Bool) (source : Source) (offset count : ℕ)
    → Answers
        (expression strtoul)
        source
        offset
        count
        block
        (parse_expr strtoul block source offset count)
      × Answers
          (statements strtoul)
          source
          offset
          count
          block
          (parse_statements strtoul block source offset count)
unfolding parse_expr parse_statements
parse-Answers strtoul block source offset count = (
  apply_parser-Answers (expression strtoul) source offset count block (After-expression strtoul),
  apply_parser-Answers (statements strtoul) source offset count block (After-statements strtoul),
)
