-- ===== src/Parser/Brackets/Ends.antt =====
-- compiler/parser.cpp, lines 2501-2525: when the skipping of pattern variables ends.
use ceramic.Prelude.{
  ℕ, zero, suc, ◌<◌, ◌≡◌, refl, subst, Bool, true, false, not, ◌||◌, Bool-cases, inl, inr, List, [],
  ◌∷◌, Bytes, codes, length, arith, if◌then◌else◌,
}
use ceramic.Lexer.Token.{Token}
use ceramic.Parser.Errors.{is_text}
use ceramic.Parser.State.{
  State, Result, parsed, failed, aborted, out_of_fuel, restore, advance, record_expected,
}
use ceramic.Parser.Terminals.{symbol, terminal}
use ceramic.Parser.Total.{left}
use ceramic.Parser.Brackets.{
  close_step, open_step, skip_brackets, skip_first, skip_opt_pattern_var, skip_second,
}

-- Whether the brackets that are open are closed.
abbrev pub is_closed : ℕ → List Token → Bool
is_closed zero ts = true
is_closed (suc b) [] = false
is_closed (suc b) (t ∷ ts) =
    let deeper = is_closed (suc (suc b)) ts in
    let out = is_closed b ts in
    let on = is_closed (suc b) ts in
    if is_text (codes "[") t then deeper else if is_text (codes "]") t then out else on

-- Whether the bracket in front of these tokens is, or another rule's since a second one follows.
abbrev pub is_closed_after : List Token → Bool
is_closed_after [] = false
is_closed_after (t ∷ ts) = is_text (codes "[") t || is_closed 1 (t ∷ ts)

abbrev pub is_skippable : List Token → Bool
is_skippable [] = true
is_skippable (t ∷ ts) = not (is_text (codes "[") t) || is_closed_after ts

-- What skipping comes to with some fuel, where `n` tokens are left: it ends only if the brackets are closed; it
-- does not end if they are not, or if there is less fuel than tokens.
pub data Scanned (f n : ℕ) (closed : Bool) : Result (Unit {0}) → Type 0 where
  ends : {st : State} → closed ≡ true → Scanned f n closed (parsed tt st)
  hangs : closed ≡ false → Scanned f n closed out_of_fuel
  short : f < n → Scanned f n closed out_of_fuel

Scanned-mono :
    {f m g n : ℕ} {c d : Bool} {r : Result (Unit {0})}
    → (f < m → g < n)
    → d ≡ c
    → Scanned f m c r
    → Scanned g n d r
Scanned-mono h e (ends k) = ends (cc (e, k))
Scanned-mono h e (hangs k) = hangs (cc (e, k))
Scanned-mono h e (short k) = short (h k)

-- What `symbol` does.
data Symbol (s : Bytes) (st : State) : Result Token → Type 0 where
  taken :
      {u : State} (t : Token) (ts : List Token)
      → st.rest ≡ t ∷ ts
      → is_text s t ≡ true
      → u.rest ≡ ts
      → Symbol s st (parsed t u)
  passed :
      {u : State} (t : Token) (ts : List Token)
      → st.rest ≡ t ∷ ts
      → is_text s t ≡ false
      → u.rest ≡ ts
      → Symbol s st (failed u)
  no_token : {u : State} → st.rest ≡ [] → u.rest ≡ [] → Symbol s st (failed u)

rest-record_expected :
    (p : ℕ) (what : Bytes) (st : State) → (record_expected p what st).rest ≡ st.rest
unfolding record_expected
rest-record_expected p what st = ground arith

symbol-Symbol : (s : Bytes) (st : State) → Symbol s st (symbol s st)
unfolding symbol terminal advance
symbol-Symbol s st = go st.rest refl
  where
    go : (ts : List Token) → st.rest ≡ ts → Symbol s st (symbol s (record st { rest = ts }))
    go [] e = no_token e (rest-record_expected st.position s (record st { rest = [] }))
    go (t ∷ ts) e = elim (Bool-cases (is_text s t)) [
      | inl h ↦ rw h (taken t ts e h refl)
      | inr h ↦ rw h (
          passed t ts e h
            (rest-record_expected st.position s (advance ts (record st { rest = t ∷ ts }))))
    ]

longer :
    {f : ℕ} (u saved : State) (t : Token) (ts : List Token)
    → saved.rest ≡ t ∷ ts
    → u.rest ≡ ts
    → f < left u
    → suc f < left saved
longer u saved t ts e i l = rw e (rw⁻¹ i (omega (arith, l)))

module _ (f b : ℕ)
    (h : (c : ℕ) (u : State) → Scanned f (left u) (is_closed c u.rest) (skip_brackets f c u)) where
  -- A round at the end of the input comes to what the next one does.
  at_end-Scanned :
      (u saved : State)
      → saved.rest ≡ []
      → u.rest ≡ []
      → Scanned (suc f) (left saved) (is_closed (suc b) saved.rest) (skip_brackets f (suc b) u)
  at_end-Scanned u saved e i =
      Scanned-mono (λ l. absurd (omega (arith, subst (λ r. f < length r) i l))) (rw (e, i) refl)
        (h (suc b) u)

  close_step-Scanned :
      (saved : State) (r : Result Token)
      → Symbol (codes "]") saved r
      → ((t : Token) (ts : List Token) → saved.rest ≡ t ∷ ts → is_text (codes "[") t ≡ false)
      → Scanned
          (suc f)
          (left saved)
          (is_closed (suc b) saved.rest)
          (close_step (skip_brackets f) b r)
  unfolding close_step
  close_step-Scanned saved (parsed _ u) (taken t ts e k i) g =
      Scanned-mono (longer u saved t ts e i) (rw (e, g t ts e, k, i) refl) (h b u)
  close_step-Scanned saved (failed u) (passed t ts e k i) g =
      Scanned-mono (longer u saved t ts e i) (rw (e, g t ts e, k, i) refl) (h (suc b) u)
  close_step-Scanned saved (failed u) (no_token e i) g = at_end-Scanned u saved e i
  close_step-Scanned saved aborted k g = elim k [ ]
  close_step-Scanned saved out_of_fuel k g = elim k [ ]

  open_step-Scanned :
      (saved : State) (r : Result Token)
      → Symbol (codes "[") saved r
      → Scanned
          (suc f)
          (left saved)
          (is_closed (suc b) saved.rest)
          (open_step saved (skip_brackets f) b r)
  unfolding open_step restore
  open_step-Scanned saved (parsed _ u) (taken t ts e k i) =
      Scanned-mono (longer u saved t ts e i) (rw (e, k, i) refl) (h (suc (suc b)) u)
  open_step-Scanned saved (failed u) (passed t ts e k i) =
      close_step-Scanned (restore saved u) (symbol (codes "]") (restore saved u))
        (symbol-Symbol (codes "]") (restore saved u)) (λ t' ts' e'. cc (e, e', k))
  open_step-Scanned saved (failed u) (no_token e i) =
      close_step-Scanned (restore saved u) (symbol (codes "]") (restore saved u))
        (symbol-Symbol (codes "]") (restore saved u)) (λ t' ts' e'. absurd (cc (e, e')))
  open_step-Scanned saved aborted k = elim k [ ]
  open_step-Scanned saved out_of_fuel k = elim k [ ]

skip_brackets-Scanned :
    (f b : ℕ) (st : State) → Scanned f (left st) (is_closed b st.rest) (skip_brackets f b st)
unfolding skip_brackets
skip_brackets-Scanned f zero st = ends refl
skip_brackets-Scanned zero (suc b) st = go st.rest
  where
    go : (ts : List Token) → Scanned zero (length ts) (is_closed (suc b) ts) out_of_fuel
    go [] = hangs refl
    go (t ∷ ts) = short (omega arith)
skip_brackets-Scanned (suc f) (suc b) st =
    open_step-Scanned f b (λ c u. skip_brackets-Scanned f c u) st (symbol (codes "[") st)
      (symbol-Symbol (codes "[") st)

skip_second-Scanned :
    (f : ℕ) (p q : State) (r : Result Token)
    → Symbol (codes "[") q r
    → Scanned f (left q) (is_closed_after q.rest) (skip_second f p q r)
unfolding skip_second restore
skip_second-Scanned f p q (parsed _ u) (taken t ts e k i) = ends (rw (e, k) refl)
skip_second-Scanned f p q (failed u) (passed t ts e k i) =
    Scanned-mono (λ l. l) (rw (e, k) refl) (skip_brackets-Scanned f 1 (restore q u))
skip_second-Scanned f p q (failed u) (no_token e i) =
    Scanned-mono (λ l. l) (rw e refl) (skip_brackets-Scanned f 1 (restore q u))
skip_second-Scanned f p q aborted k = elim k [ ]
skip_second-Scanned f p q out_of_fuel k = elim k [ ]

skip_first-Scanned :
    (f : ℕ) (p : State) (r : Result Token)
    → Symbol (codes "[") p r
    → Scanned f (left p) (is_skippable p.rest) (skip_first f p r)
unfolding skip_first
skip_first-Scanned f p (parsed _ u) (taken t ts e k i) =
    Scanned-mono (λ l. rw e (rw⁻¹ i (omega (arith, l)))) (rw (e, k, i) refl)
      (skip_second-Scanned f p u (symbol (codes "[") u) (symbol-Symbol (codes "[") u))
skip_first-Scanned f p (failed u) (passed t ts e k i) = ends (rw (e, k) refl)
skip_first-Scanned f p (failed u) (no_token e i) = ends (rw e refl)
skip_first-Scanned f p aborted k = elim k [ ]
skip_first-Scanned f p out_of_fuel k = elim k [ ]

-- Skipping the pattern variables in front of a top-level item, with any fuel: it ends only if there are none
-- or their brackets are closed, or the first two brackets stand together; otherwise it never ends; and a fuel of as
-- many rounds as tokens left is enough to tell.
pub skip_opt_pattern_var-Scanned :
    (f : ℕ) (st : State) → Scanned f (left st) (is_skippable st.rest) (skip_opt_pattern_var f st)
unfolding skip_opt_pattern_var
skip_opt_pattern_var-Scanned f st =
    skip_first-Scanned f st (symbol (codes "[") st) (symbol-Symbol (codes "[") st)
