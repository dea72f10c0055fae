-- ===== src/Parser/Total/Statements/Recovery.antt =====
-- compiler/parser.cpp, lines 199-247 and 1540-1585: recovery drops tokens, and blocks end.
use ceramic.Prelude.{
  ℕ, zero, suc, ◌≤◌, ◌<◌, ◌≡◌, Bool, true, false, Bool-cases, inl, inr, List, [], ◌∷◌, ◌++◌, refl,
  Option, none, some, Bytes, codes, length, arith,
}
use ceramic.Lexer.Token.{Token}
use ceramic.Parser.Errors.{
  Skip, go_on, stop_here, stop_after, skip_step, skip_statement, moved_to, synchronize_block,
  record_parse_error, report_error, build_parse_error, begin_item, is_text, too_many,
}
use ceramic.Parser.State.{
  Parser, State, ◌>>=◌, ◌>>◌, bind, pure, advance, record_expected, attempt, Report, Diagnostic,
}
use ceramic.Parser.Statements.{close_block, recorded, recover, item_rounds}
use ceramic.Parser.Terminals.{symbol, terminal}
use ceramic.Parser.Outcome.{Always, always, Always-map, Always-bind}
use ceramic.Parser.Total.{left, Eats}
use ceramic.Parser.Total.Rounds.{Tried, Tried-attempt}
use ceramic.Syntax.Tree.{Statement}

-- Whether an error is kept, or one was too many.
unfoldable pub has_errors : Report → Bool
has_errors r = elim r.parse_errors [ [] ↦ r.parse_error_overflow | d ∷ ds ↦ true ]

abbrev skipped : ℕ → Bool → ℕ → List Token → ℕ
skipped d first p ts = length (skip_statement d first p ts).0

length-skip_round :
    (s : Skip) (p : ℕ) (t : Token) (ts : List Token)
    → ((d : ℕ) → skipped d false (suc p) ts ≤ length ts)
    → length
        (elim s as (λ _. List Token × ℕ) [
          | go_on d ↦ skip_statement d false (suc p) ts
          | stop_here ↦ (t ∷ ts, p)
          | stop_after ↦ (ts, suc p)
        ]).0
      ≤ suc (length ts)
length-skip_round (go_on d) p t ts h = omega (arith, h d)
length-skip_round stop_here p t ts h = omega arith
length-skip_round stop_after p t ts h = omega arith

length-skip_statement :
    (d : ℕ) (first : Bool) (p : ℕ) (ts : List Token) → skipped d first p ts ≤ length ts
unfolding skip_statement
length-skip_statement d first p [] = omega arith
length-skip_statement d first p (t ∷ ts) =
    length-skip_round (skip_step d first t) p t ts (λ d'. length-skip_statement d' false (suc p) ts)

-- The first token is read, unless the block ends with it.
skip_step-first :
    (t : Token) → is_text (codes "}") t ≡ false → (d : ℕ) × skip_step 0 true t ≡ go_on d
unfolding skip_step
skip_step-first t h = elim (Bool-cases (is_text (codes "{") t)) [
  | inl e ↦ (1, ground (arith, e, h))
  | inr e ↦ (0, ground (arith, e, h))
]

pub skip_statement-first :
    (p : ℕ) (t : Token) (ts : List Token)
    → is_text (codes "}") t ≡ false
    → skipped 0 true p (t ∷ ts) ≤ length ts
unfolding skip_statement
skip_statement-first p t ts h =
    let (d, e) = skip_step-first t h in rw (e, length) (length-skip_statement d false (suc p) ts)

left-synchronize_block :
    (st : State) (t : Token) (ts : List Token)
    → is_text (codes "}") t ≡ false
    → left (synchronize_block (record_parse_error (record st { rest = t ∷ ts }))) ≤ length ts
unfolding synchronize_block moved_to record_parse_error
left-synchronize_block st t ts h = skip_statement-first st.position t ts h

-- Where the items of a block end: in front of `}`, at the end of the input, or with too many errors.
pub data Ends (t : State) : Type 0 where
  at_end : t.rest ≡ [] → Ends t
  at_brace : (b : Token) (us : List Token) → t.rest ≡ b ∷ us → is_text (codes "}") b ≡ true → Ends t
  overflow : t.report.parse_error_overflow ≡ true → Ends t

-- The items are read up to there, without a failure.
abbrev pub Items : State → List Statement → State → Type 0
Items st ss t = left t ≤ left st × Ends t

Always-recover :
    (st : State) (more : Parser (List Statement))
    → ((t : State) → left t < left st → Always (Items t) (more t))
    → Always (Items st) (recover more st)
unfolding recover
Always-recover st more h = go st.rest h
  where
    go :
        (ts : List Token)
        → ((t : State) → left t < length ts → Always (Items t) (more t))
        → Always (Items (record st { rest = ts })) (recover more (record st { rest = ts }))
    go [] h = always (omega arith, at_end refl)
    go (t ∷ ts) h = elim (Bool-cases (is_text (codes "}") t)) [
      | inl e ↦ rw e (always (omega arith, at_brace t ts refl e))
      | inr e ↦
          let st' = synchronize_block (record_parse_error (record st { rest = t ∷ ts })) in
          let i = left-synchronize_block st t ts e in
          rw e (elim (Bool-cases (too_many st'.report)) [
            | inl o ↦ rw o (always (omega (arith, i), overflow refl))
            | inr o ↦
                rw o
                  (Always-map _ (λ ss u j. (omega (arith, i, j.0), j.1)) (h st' (omega (arith, i))))
          ])
    ]

Always-item_round :
    (st t : State) (more : Parser (List Statement)) (r : Option Statement)
    → Tried st r t
    → ((u : State) → left u < left st → Always (Items u) (more u))
    → Always (Items st) (
        (elim r as (λ _. Parser (List Statement)) [
          | none ↦ recover more
          | some s ↦ more >>= λ ss. pure (s ∷ ss)
        ])
          t)
unfolding pure ◌>>=◌
Always-item_round st t more none i h =
    Always-map _ (λ ss u j. (omega (arith, i, j.0), j.1))
      (Always-recover t more (λ u j. h u (omega (arith, i, j))))
Always-item_round st t more (some s) i h =
    Always-bind (more t) (λ ss. pure (s ∷ ss)) (λ ss u j. always (omega (arith, i, j.0), j.1))
      (h t i)

pub Always-item_rounds :
    (n f : ℕ) (item : Parser Statement) (st : State)
    → Eats n item
    → left st < n
    → left st < f
    → Always (Items st) (item_rounds f item st)
unfolding item_rounds begin_item
Always-item_rounds n zero item st h l k = absurd (omega (arith, k))
Always-item_rounds n (suc f) item st h l k =
    Always-bind (attempt item (begin_item st)) _
      (λ r t i.
        Always-item_round st t (item_rounds f item) r i
          (λ u j. Always-item_rounds n f item u h (omega (arith, l, j)) (omega (arith, k, j))))
      (Tried-attempt n item (begin_item st) h l)

-- A block ends behind `}`, or with an error that is kept or counted as too many.
pub data Closes (t u : State) : Type 0 where
  closed : (b : Token) → t.rest ≡ b ∷ u.rest → is_text (codes "}") b ≡ true → Closes t u
  reported : has_errors u.report ≡ true → Closes t u

left-record_expected :
    (p : ℕ) (what : Bytes) (st : State) → left (record_expected p what st) ≡ left st
unfolding record_expected
left-record_expected p what st = ground arith

has_errors-added :
    (r : Report) (d : Diagnostic) (es : List Diagnostic)
    → has_errors (record r { parse_errors = es ++ (d ∷ []) }) ≡ true
unfolding has_errors
has_errors-added r d [] = refl
has_errors-added r d (e ∷ es) = refl

has_errors-overflow : (r : Report) → has_errors (record r { parse_error_overflow = true }) ≡ true
unfolding has_errors
has_errors-overflow r = go r.parse_errors
  where
    go : (es : List Diagnostic) → elim es [ [] ↦ true | d ∷ ds ↦ true ] ≡ true
    go [] = refl
    go (d ∷ ds) = refl

has_errors-report_error : (r : Report) → has_errors (report_error r) ≡ true
unfolding report_error
has_errors-report_error r = elim (Bool-cases (too_many r)) [
  | inl e ↦ rw e (has_errors-overflow r)
  | inr e ↦ rw e (has_errors-added r (build_parse_error r) r.parse_errors)
]

-- What is recorded leaves the tokens.
left-recorded :
    (p : ℕ) (what : Bytes) (st : State)
    → left (record_parse_error (record_expected p what st)) ≡ left st
unfolding record_parse_error
left-recorded p what st = left-record_expected p what st

pub Always-close_block :
    (st : State) → Always (λ _ t. left t ≤ left st × Closes st t) (close_block st)
unfolding close_block symbol terminal recorded ◌>>◌ ◌>>=◌ bind pure advance record_parse_error
Always-close_block st = go st.rest
  where
    go :
        (ts : List Token)
        → Always
            (λ _ t. left t ≤ length ts × Closes (record st { rest = ts }) t)
            (close_block (record st { rest = ts }))
    go [] =
        let st' = record st { rest = [] } in
        always (
          omega (arith, left-recorded st.position (codes "}") st'),
          reported (has_errors-report_error (record_expected st.position (codes "}") st').report),
        )
    go (t ∷ us) = elim (Bool-cases (is_text (codes "}") t)) [
      | inl e ↦ rw e (always (omega arith, closed t refl e))
      | inr e ↦
          let st' = advance us (record st { rest = t ∷ us }) in
          rw e (
            always (
              omega (arith, left-recorded st.position (codes "}") st'),
              reported
                  (has_errors-report_error (record_expected st.position (codes "}") st').report),
            ))
    ]
