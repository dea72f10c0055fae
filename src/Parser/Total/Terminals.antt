-- ===== src/Parser/Total/Terminals.antt =====
-- compiler/parser.cpp, lines 348-494: terminals and lists read tokens and end.
use ceramic.Prelude.{
  ℕ, zero, suc, ◌≤◌, ◌<◌, Bool, false, List, [], ◌∷◌, Bytes, length, Bool-cases, inl, inr,
  if◌then◌else◌, arith, codes,
}
use ceramic.Lexer.Token.{Token, TokenKind}
use ceramic.Parser.State.{
  Parser, State, Result, parsed, failed, aborted, out_of_fuel, ◌>>=◌, ◌>>◌, pure, many, advance,
  local_flags, with_flags, end_flags, peek, peek_end, restore, committed_rounds, many_committed,
  record_expected,
}
use ceramic.Parser.Terminals.{
  terminal, token_of, opstring, uopstring, opsymbol, symbol, keyword, ellipsis, identifier,
  comma_rounds, after_commas, comma_list, list_no_tail, identifier_list, identifier_list_no_tail,
  dotted_name,
}
use ceramic.Parser.Outcome.{After, success, failure, stopped, After-bind, After-map}
use ceramic.Parser.Total.{
  left, Total, Eats, Total-of_Eats, Eats-mono, Total-mono, Total-pure, Total-<|>, Eats-<|>,
  Total-at_location, Eats-at_location, Total-if, Total-opt_symbol, Eats-opt_symbol, Total->>=,
  Total->>, Eats->>=, Eats->>, Eats->>=_first, Eats->>_first, Total-option,
}
use ceramic.Parser.Total.Rounds.{After-attempt, After-cons, Total-attempt, Total-many}

Eats-terminal : (n : ℕ) (test : Token → Bool) (what : Bytes) → Eats n (terminal test what)
unfolding terminal advance
Eats-terminal n test what st l = go st.rest
  where
    go :
        (ts : List Token)
        → After
            (λ _ t. left t < length ts)
            (elim ts [
              | [] ↦ failed (record_expected st.position what st)
              | t ∷ us ↦
                  let st' = advance us st in
                  if test t then parsed t st' else failed (record_expected st.position what st')
            ])
    go [] = failure
    go (t ∷ us) = elim (Bool-cases (test t)) [
      | inl e ↦ rw e (success (omega arith))
      | inr e ↦ rw e failure
    ]

pub Eats-token_of : (n : ℕ) (test : TokenKind → Bool) → Eats n (token_of test)
unfolding token_of advance
Eats-token_of n test st l = go st.rest
  where
    go :
        (ts : List Token)
        → After
            (λ _ t. left t < length ts)
            (elim ts [
              | [] ↦ failed st
              | t ∷ us ↦
                  if test t.token_kind then parsed t (advance us st) else failed (advance us st)
            ])
    go [] = failure
    go (t ∷ us) = elim (Bool-cases (test t.token_kind)) [
      | inl e ↦ rw e (success (omega arith))
      | inr e ↦ rw e failure
    ]

pub Eats-opstring : (n : ℕ) → Eats n opstring
unfolding opstring
Eats-opstring n = Eats->>=_first n _ _ (Eats-terminal n _ _) (λ t. Total-pure n t.str)

pub Eats-uopstring : (n : ℕ) → Eats n uopstring
unfolding uopstring
Eats-uopstring n = Eats->>=_first n _ _ (Eats-terminal n _ _) (λ t. Total-pure n t.str)

pub Eats-opsymbol : (n : ℕ) (s : Bytes) → Eats n (opsymbol s)
unfolding opsymbol
Eats-opsymbol n s = Eats-terminal n _ s

pub Eats-symbol : (n : ℕ) (s : Bytes) → Eats n (symbol s)
unfolding symbol
Eats-symbol n s = Eats-terminal n _ s

pub Eats-keyword : (n : ℕ) (s : Bytes) → Eats n (keyword s)
unfolding keyword
Eats-keyword n s = Eats-terminal n _ s

pub Eats-ellipsis : (n : ℕ) → Eats n ellipsis
unfolding ellipsis
Eats-ellipsis n = Eats-symbol n _

pub Eats-identifier : (n : ℕ) → Eats n identifier
unfolding identifier
Eats-identifier n =
    Eats-at_location n _ λ l. Eats->>=_first n _ _ (Eats-terminal n _ _) (λ t. Total-pure n _)

module _ {A : Type 0} where
  Total-comma_rounds :
      (n f : ℕ) (m : Parser A) (st : State)
      → Eats n m
      → left st < n
      → left st < f
      → After (λ _ t. left t ≤ left st) (comma_rounds f m st)
  unfolding comma_rounds pure ◌>>=◌
  Total-comma_rounds n zero m st h l k = absurd (omega (arith, k))
  Total-comma_rounds n (suc f) m st h l k =
      After-attempt n (symbol (codes ",")) st _ (Eats-symbol n _) l (λ t i. success (omega arith))
        (λ c t i.
          After-attempt n m t _ h (omega (arith, l, i)) (λ u j. success (omega arith))
            (λ a u j.
              After-cons a (comma_rounds f m) u
                (Total-comma_rounds n f m u h (omega (arith, l, i, j)) (omega (arith, k, i, j)))))

  Total-after_commas : (n : ℕ) (m : Parser A) → Eats n m → Total n (after_commas m)
  unfolding after_commas
  Total-after_commas n m h st l = Total-comma_rounds n (suc (left st)) m st h l (omega arith)

  pub Eats-comma_list : (n : ℕ) (m : Parser A) → Eats n m → Eats n (comma_list m)
  unfolding comma_list
  Eats-comma_list n m h =
      Eats->>=_first n m _ h
        λ a. Total->>= n (after_commas m) _ (Total-after_commas n m h) (λ as'. Total-pure n _)

  pub Eats-list_no_tail : (n : ℕ) (m : Parser A) → Eats n m → Eats n (list_no_tail m)
  unfolding list_no_tail
  Eats-list_no_tail n m h = Eats->>=_first n m _ h λ a.
      Total->>= n (many (symbol (codes ",") >> m)) _
        (Total-many n (symbol (codes ",") >> m)
          (Eats->>_first n _ m (Eats-symbol n _) (Total-of_Eats n m h)))
        (λ as'. Total-pure n _)

  Total-flags :
      (n : ℕ) (m : Parser A) (st : State)
      → Total n m
      → left st < n
      → After (λ _ t. left t ≤ left st) (local_flags m st)
  unfolding local_flags with_flags
  Total-flags n m st h l = go (m (with_flags false false st)) (h (with_flags false false st) l)
    where
      go :
          (r : Result A)
          → After (λ _ t. left t ≤ left st) r
          → After (λ _ t. left t ≤ left st) (end_flags st r)
      go (parsed a t) (success k) = success k
      go (failed t) k = failure
      go aborted k = stopped
      go out_of_fuel k = elim k [ ]

  pub Total-local_flags : (n : ℕ) (m : Parser A) → Total n m → Total n (local_flags m)
  Total-local_flags n m h st l = Total-flags n m st h l

  pub Total-peek : (n : ℕ) (m : Parser A) → Total n m → Total n (peek m)
  unfolding peek restore
  Total-peek n m h st l = go (m st) (h st l)
    where
      go :
          (r : Result A)
          → After (λ _ t. left t ≤ left st) r
          → After (λ _ t. left t ≤ left st) (peek_end st r)
      go (parsed a t) (success k) = success (omega arith)
      go (failed t) k = success (omega arith)
      go aborted k = stopped
      go out_of_fuel k = elim k [ ]

module _ {A B : Type 0} where
  Total-committed_rounds :
      (n f : ℕ) (m : Parser A) (k : A → Parser B) (st : State)
      → Eats n m
      → ((a : A) → Total n (k a))
      → left st < n
      → left st < f
      → After (λ _ t. left t ≤ left st) (committed_rounds f m k st)
  unfolding committed_rounds pure ◌>>=◌
  Total-committed_rounds n zero m k st h g l i = absurd (omega (arith, i))
  Total-committed_rounds n (suc f) m k st h g l i =
      After-attempt n m st _ h l (λ t j. success (omega arith))
        (λ a t j.
          After-bind (k a t) _
            (λ b u i'.
              After-map _ (λ _ v j'. omega (arith, i', j'))
                (After-cons b (committed_rounds f m k) u (
                  Total-committed_rounds n f m k u h g (omega (arith, l, j, i'))
                    (omega (arith, i, j, i')))))
            (g a t (omega (arith, l, j))))

  pub Total-many_committed :
      (n : ℕ) (m : Parser A) (k : A → Parser B)
      → Eats n m
      → ((a : A) → Total n (k a))
      → Total n (many_committed m k)
  unfolding many_committed
  Total-many_committed n m k h g st l =
      Total-committed_rounds n (suc (left st)) m k st h g l (omega arith)

-- For `search`: what ends, what reads a token first, and terminals.
pub ruleset totals = (
  Total-pure, Total-<|>, Total-at_location, Total-if, Total-opt_symbol, Total->>=, Total->>,
  Total-option, Total-attempt, Total-many, Total-local_flags, Total-peek, Total-many_committed,
)

pub ruleset eats = (Eats-<|>, Eats-at_location, Eats-opt_symbol, Eats->>=, Eats->>)

pub ruleset firsts = (Eats-<|>, Eats-at_location, Eats-opt_symbol, Eats->>=_first, Eats->>_first)

pub ruleset terminals = (
  Eats-token_of, Eats-opstring, Eats-uopstring, Eats-opsymbol, Eats-symbol, Eats-keyword,
  Eats-ellipsis, Eats-identifier, Eats-comma_list, Eats-list_no_tail,
)

pub Eats-identifier_list : (n : ℕ) → Eats n identifier_list
unfolding identifier_list
Eats-identifier_list n = search terminals depth 6

pub Eats-identifier_list_no_tail : (n : ℕ) → Eats n identifier_list_no_tail
unfolding identifier_list_no_tail
Eats-identifier_list_no_tail n = search terminals depth 6

pub Eats-dotted_name : (n : ℕ) → Eats n dotted_name
unfolding dotted_name
Eats-dotted_name n = search (firsts, totals, terminals, Total-of_Eats) depth 16
