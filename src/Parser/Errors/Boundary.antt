-- ===== src/Parser/Errors/Boundary.antt =====
-- compiler/parser.cpp, lines 214-246: where recovery in a block goes on.
use ceramic.Prelude.{
  ℕ, zero, suc, ◌+◌, ◌-◌, ◌≡◌, refl, Bool, true, false, not, ◌&&◌, ◌||◌, Bool-cases, inl, inr,
  Option, none, some, List, [], ◌∷◌, ◌++◌, codes, length, arith, ◌==◌, if◌then◌else◌,
}
use ceramic.Lexer.Token.{Token}
use ceramic.Parser.Errors.{
  Skip, go_on, stop_here, stop_after, skip_step, skip_statement, moved_to, synchronize_block,
  is_text, is_stmt_start_kw,
}
use ceramic.Parser.State.{State}
use ceramic.Parser.Terminals.{is_keyword}

-- How many of the braces are open behind these tokens, if each that closes has one to close.
abbrev pub open_braces : ℕ → List Token → Option ℕ
open_braces d [] = some d
open_braces d (t ∷ ts) =
    let deeper = open_braces (suc d) ts in
    let out : Option ℕ = elim d [ zero ↦ none | suc e ↦ open_braces e ts ] in
    let on = open_braces d ts in
    if is_text (codes "{") t then deeper else if is_text (codes "}") t then out else on

-- Whether a token ends the block, or begins a statement.
abbrev pub is_start : Token → Bool
is_start t = is_text (codes "}") t || (is_keyword t.token_kind && is_stmt_start_kw t.str)

-- Why the tokens are skipped up to here: the input ends; or braces match, and a token that ends the block or
-- begins a statement is next, or the last token was `;`.
pub data Stops (d : ℕ) (skipped rest : List Token) : Type 0 where
  input_ended : rest ≡ [] → Stops d skipped rest
  start_next :
      (t : Token) (ts : List Token)
      → open_braces d skipped ≡ some 0
      → rest ≡ t ∷ ts
      → is_start t ≡ true
      → Stops d skipped rest
  semicolon_read :
      (t : Token) (ts : List Token)
      → open_braces d ts ≡ some 0
      → skipped ≡ ts ++ (t ∷ [])
      → is_text (codes ";") t ≡ true
      → Stops d skipped rest

-- The tokens that are skipped, which the position counts.
pub data Skipped (d p : ℕ) (ts rest : List Token) (q : ℕ) : Type 0 where
  skip_of :
      (skipped : List Token)
      → ts ≡ skipped ++ rest
      → q ≡ p + length skipped
      → Stops d skipped rest
      → Skipped d p ts rest q

-- What a round does with a token.
data Step (d : ℕ) (t : Token) : Skip → Type 0 where
  opens : is_text (codes "{") t ≡ true → Step d t (go_on (suc d))
  closes :
      (e : ℕ)
      → d ≡ suc e
      → is_text (codes "{") t ≡ false
      → is_text (codes "}") t ≡ true
      → Step d t (go_on e)
  passes : is_text (codes "{") t ≡ false → is_text (codes "}") t ≡ false → Step d t (go_on d)
  starts : d ≡ 0 → is_start t ≡ true → Step d t stop_here
  ends : d ≡ 0 → is_text (codes ";") t ≡ true → Step d t stop_after

suc-ne-zero : (e : ℕ) → (suc e == 0) ≡ false
suc-ne-zero e = ground arith

suc-minus_one : (e : ℕ) → suc e - 1 ≡ e
suc-minus_one e = omega arith

Step-brace :
    (d : ℕ) (t : Token)
    → is_text (codes "{") t ≡ false
    → is_text (codes "}") t ≡ true
    → Step d t (if d == 0 then stop_here else go_on (d - 1))
Step-brace zero t o c = starts refl (rw c refl)
Step-brace (suc e) t o c = rw (suc-ne-zero e, suc-minus_one e) (closes e refl o c)

Step-plain :
    (d : ℕ) (first : Bool) (t : Token)
    → is_text (codes "{") t ≡ false
    → is_text (codes "}") t ≡ false
    → Step d t (
        if d == 0 && not first
        then (if is_text (codes ";") t
            then stop_after
            else if is_keyword t.token_kind && is_stmt_start_kw t.str
            then stop_here
            else go_on d)
        else go_on d)
Step-plain zero true t o c = passes o c
Step-plain (suc e) first t o c = rw (suc-ne-zero e) (passes o c)
Step-plain zero false t o c = elim (Bool-cases (is_text (codes ";") t)) [
  | inl s ↦ rw s (ends refl s)
  | inr s ↦ elim (Bool-cases (is_keyword t.token_kind && is_stmt_start_kw t.str)) [
    | inl k ↦ rw (s, k) (starts refl (rw (c, k) refl))
    | inr k ↦ rw (s, k) (passes o c)
  ]
]

skip_step-Step : (d : ℕ) (first : Bool) (t : Token) → Step d t (skip_step d first t)
unfolding skip_step
skip_step-Step d first t = elim (Bool-cases (is_text (codes "{") t)) [
  | inl o ↦ rw o (opens o)
  | inr o ↦ elim (Bool-cases (is_text (codes "}") t)) [
    | inl c ↦ rw (o, c) (Step-brace d t o c)
    | inr c ↦ rw (o, c) (Step-plain d first t o c)
  ]
]

-- One more token in front, from the depth `d` to `e`.
Stops-cons :
    (d e : ℕ) (t : Token) (skipped rest : List Token)
    → ((ts : List Token) → open_braces d (t ∷ ts) ≡ open_braces e ts)
    → Stops e skipped rest
    → Stops d (t ∷ skipped) rest
Stops-cons d e t skipped rest h (input_ended k) = input_ended k
Stops-cons d e t skipped rest h (start_next u us k i j) = start_next u us (cc (h skipped, k)) i j
Stops-cons d e t skipped rest h (semicolon_read u us k i j) =
    semicolon_read u (t ∷ us) (cc (h us, k)) (rw i refl) j

Skipped-cons :
    (d e p q : ℕ) (t : Token) (ts rest : List Token)
    → ((us : List Token) → open_braces d (t ∷ us) ≡ open_braces e us)
    → Skipped e (suc p) ts rest q
    → Skipped d p (t ∷ ts) rest q
Skipped-cons d e p q t ts rest h (skip_of skipped i j k) =
    skip_of (t ∷ skipped) (rw i refl) (omega (arith, j)) (Stops-cons d e t skipped rest h k)

Skipped-round :
    (d p : ℕ) (t : Token) (ts : List Token) (s : Skip)
    → Step d t s
    → ((e : ℕ)
        → Skipped e
            (suc p)
            ts
            (skip_statement e false (suc p) ts).0
            (skip_statement e false (suc p) ts).1)
    → (let r = elim s as (λ _. List Token × ℕ) [
      | go_on e ↦ skip_statement e false (suc p) ts
      | stop_here ↦ (t ∷ ts, p)
      | stop_after ↦ (ts, suc p)
    ] in
        Skipped d p (t ∷ ts) r.0 r.1)
Skipped-round d p t ts (go_on _) (opens o) h =
    Skipped-cons d (suc d) p _ t ts _ (λ us. rw o refl) (h (suc d))
Skipped-round d p t ts (go_on _) (closes e i o c) h =
    Skipped-cons d e p _ t ts _ (λ us. rw (o, c, i) refl) (h e)
Skipped-round d p t ts (go_on _) (passes o c) h =
    Skipped-cons d d p _ t ts _ (λ us. rw (o, c) refl) (h d)
Skipped-round d p t ts stop_here (starts i k) h =
    skip_of [] refl (omega arith) (start_next t ts (rw i refl) refl k)
Skipped-round d p t ts stop_after (ends i k) h =
    skip_of (t ∷ []) refl (omega arith) (semicolon_read t [] (rw i refl) refl k)

skip_statement-Skipped :
    (d : ℕ) (first : Bool) (p : ℕ) (ts : List Token)
    → Skipped d p ts (skip_statement d first p ts).0 (skip_statement d first p ts).1
unfolding skip_statement
skip_statement-Skipped d first p [] = skip_of [] refl (omega arith) (input_ended refl)
skip_statement-Skipped d first p (t ∷ ts) =
    Skipped-round d p t ts (skip_step d first t) (skip_step-Step d first t)
      (λ e. skip_statement-Skipped e false (suc p) ts)

-- Recovery in a block skips the tokens that the position counts, to the end of the input or to a point where
-- the braces that were skipped match, and the block ends, a statement begins, or `;` was the last token.
pub synchronize_block-Skipped :
    (st : State)
    → Skipped 0 st.position st.rest (synchronize_block st).rest (synchronize_block st).position
unfolding synchronize_block moved_to
synchronize_block-Skipped st = skip_statement-Skipped 0 true st.position st.rest
