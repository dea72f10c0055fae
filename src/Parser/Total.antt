-- ===== src/Parser/Total.antt =====
-- compiler/parser.cpp: that parsers end and read tokens, by rules for how they are put together.
pub mod Rounds
pub mod Terminals
pub mod Exprs
pub mod Operators
pub mod Arguments
pub mod Statements
pub mod Grammar
use ceramic.Prelude.{
  ℕ, zero, suc, ◌≤◌, ◌<◌, ◌≡◌, refl, Bool, true, false, Option, none, some, List, [], ◌∷◌, Bytes,
  length, if◌then◌else◌, arith,
}
use ceramic.Parser.State.{
  Parser, State, Result, parsed, failed, aborted, out_of_fuel, restore, bind, ◌>>=◌, ◌>>◌, pure,
  fail, abort, or_else, ◌<|>◌, attempt, rounds, many, at_location, current_location, end_probe,
  with_suppressed, opt_symbol, end_flags, with_flags, local_flags, peek_end, peek, committed_rounds,
  many_committed,
}
use ceramic.Syntax.Node.{Location}
use ceramic.Parser.Outcome.{After, After-bind, After-map, After-or_else, failure, stopped, success}

abbrev pub left : State → ℕ
left st = length st.rest

-- With less than `n` tokens left there is a result, and no token comes back; and a success reads one at least.
abbrev pub Total : {A : Type 0} → ℕ → Parser A → Type 0
Total n m = (st : State) → left st < n → After (λ _ t. left t ≤ left st) (m st)

abbrev pub Eats : {A : Type 0} → ℕ → Parser A → Type 0
Eats n m = (st : State) → left st < n → After (λ _ t. left t < left st) (m st)

module _ {A : Type 0} where
  pub Eats-zero : (m : Parser A) → Eats 0 m
  Eats-zero m st l = absurd (omega (arith, l))

  pub Total-of_Eats : (n : ℕ) (m : Parser A) → Eats n m → Total n m
  Total-of_Eats n m h st l = After-map (m st) (λ a t k. omega (arith, k)) (h st l)

  pub Eats-mono : (n : ℕ) (m : Parser A) → Eats (suc n) m → Eats n m
  Eats-mono n m h st l = h st (omega (arith, l))

  pub Total-mono : (n : ℕ) (m : Parser A) → Total (suc n) m → Total n m
  Total-mono n m h st l = h st (omega (arith, l))

  pub Total-pure : (n : ℕ) (a : A) → Total n (pure a)
  unfolding pure
  Total-pure n a st l = success (omega arith)

  pub Eats-fail : (n : ℕ) → Eats n (fail {A = A})
  unfolding fail
  Eats-fail n st l = failure

  pub Eats-abort : (n : ℕ) → Eats n (abort {A = A})
  unfolding abort
  Eats-abort n st l = stopped

  pub Total-<|> : (n : ℕ) (m k : Parser A) → Total n m → Total n k → Total n (m <|> k)
  unfolding ◌<|>◌ restore
  Total-<|> n m k h g st l = After-or_else st (m st) k (h st l) (λ t. g (restore st t) l)

  pub Eats-<|> : (n : ℕ) (m k : Parser A) → Eats n m → Eats n k → Eats n (m <|> k)
  unfolding ◌<|>◌ restore
  Eats-<|> n m k h g st l = After-or_else st (m st) k (h st l) (λ t. g (restore st t) l)

  pub Total-at_location :
      (n : ℕ) (k : Location → Parser A) → ((l : Location) → Total n (k l)) → Total n (at_location k)
  unfolding at_location
  Total-at_location n k h st l = h (current_location st) st l

  pub Eats-at_location :
      (n : ℕ) (k : Location → Parser A) → ((l : Location) → Eats n (k l)) → Eats n (at_location k)
  unfolding at_location
  Eats-at_location n k h st l = h (current_location st) st l

  pub Total-if :
      (n : ℕ) (b : Bool) (m k : Parser A) → Total n m → Total n k → Total n (if b then m else k)
  Total-if n true m k h g = h
  Total-if n false m k h g = g

  pub Total-bool :
      (n : ℕ) (b : Bool) (m k : Parser A)
      → Total n m
      → Total n k
      → Total n (elim b [ true ↦ m | false ↦ k ])
  Total-bool n true m k h g = h
  Total-bool n false m k h g = g

  pub Total-opt_symbol : (n : ℕ) (m : Parser A) → Total n m → Total n (opt_symbol m)
  unfolding opt_symbol with_suppressed
  Total-opt_symbol n m h st l = go (m (with_suppressed true st)) (h (with_suppressed true st) l)
    where
      go :
          (r : Result A)
          → After (λ _ t. left t ≤ left st) r
          → After (λ _ t. left t ≤ left st) (end_probe st r)
      go (parsed a t) (success k) = success k
      go (failed t) k = failure
      go aborted k = stopped
      go out_of_fuel k = elim k [ ]

  pub Eats-opt_symbol : (n : ℕ) (m : Parser A) → Eats n m → Eats n (opt_symbol m)
  unfolding opt_symbol with_suppressed
  Eats-opt_symbol n m h st l = go (m (with_suppressed true st)) (h (with_suppressed true st) l)
    where
      go :
          (r : Result A)
          → After (λ _ t. left t < left st) r
          → After (λ _ t. left t < left st) (end_probe st r)
      go (parsed a t) (success k) = success k
      go (failed t) k = failure
      go aborted k = stopped
      go out_of_fuel k = elim k [ ]

module _ {A B : Type 0} where
  pub Total->>= :
      (n : ℕ) (m : Parser A) (k : A → Parser B)
      → Total n m
      → ((a : A) → Total n (k a))
      → Total n (m >>= k)
  unfolding ◌>>=◌
  Total->>= n m k h g st l =
      After-bind (m st) k
        (λ a t i. After-map (k a t) (λ b u j. omega (arith, i, j)) (g a t (omega (arith, l, i))))
        (h st l)

  pub Total->> : (n : ℕ) (m : Parser A) (k : Parser B) → Total n m → Total n k → Total n (m >> k)
  unfolding ◌>>=◌ ◌>>◌
  Total->> n m k h g = Total->>= n m (λ _. k) h (λ _. g)

  -- What comes first reads a token, so that less are left for the rest.
  pub Eats->>= :
      (n : ℕ) (m : Parser A) (k : A → Parser B)
      → Eats (suc n) m
      → ((a : A) → Total n (k a))
      → Eats (suc n) (m >>= k)
  unfolding ◌>>=◌
  Eats->>= n m k h g st l =
      After-bind (m st) k
        (λ a t i. After-map (k a t) (λ b u j. omega (arith, i, j)) (g a t (omega (arith, l, i))))
        (h st l)

  pub Eats->> :
      (n : ℕ) (m : Parser A) (k : Parser B) → Eats (suc n) m → Total n k → Eats (suc n) (m >> k)
  unfolding ◌>>=◌ ◌>>◌
  Eats->> n m k h g = Eats->>= n m (λ _. k) h (λ _. g)

  pub Eats->>=_first :
      (n : ℕ) (m : Parser A) (k : A → Parser B)
      → Eats n m
      → ((a : A) → Total n (k a))
      → Eats n (m >>= k)
  unfolding ◌>>=◌
  Eats->>=_first n m k h g st l =
      After-bind (m st) k
        (λ a t i. After-map (k a t) (λ b u j. omega (arith, i, j)) (g a t (omega (arith, l, i))))
        (h st l)

  pub Eats->>_first : (n : ℕ) (m : Parser A) (k : Parser B) → Eats n m → Total n k → Eats n (m >> k)
  unfolding ◌>>=◌ ◌>>◌
  Eats->>_first n m k h g = Eats->>=_first n m (λ _. k) h (λ _. g)

  -- What comes second reads a token.
  pub Eats->>=_second :
      (n : ℕ) (m : Parser A) (k : A → Parser B)
      → Total n m
      → ((a : A) → Eats n (k a))
      → Eats n (m >>= k)
  unfolding ◌>>=◌
  Eats->>=_second n m k h g st l =
      After-bind (m st) k
        (λ a t i. After-map (k a t) (λ b u j. omega (arith, i, j)) (g a t (omega (arith, l, i))))
        (h st l)

  pub Eats->>_second :
      (n : ℕ) (m : Parser A) (k : Parser B) → Total n m → Eats n k → Eats n (m >> k)
  unfolding ◌>>=◌ ◌>>◌
  Eats->>_second n m k h g = Eats->>=_second n m (λ _. k) h (λ _. g)

  pub Total-option :
      (n : ℕ) (r : Option A) (x : Parser B) (y : A → Parser B)
      → Total n x
      → ((a : A) → Total n (y a))
      → Total n (elim r [ none ↦ x | some a ↦ y a ])
  Total-option n none x y h g = h
  Total-option n (some a) x y h g = g a

  pub Eats-option :
      (n : ℕ) (r : Option A) (x : Parser B) (y : A → Parser B)
      → Eats n x
      → ((a : A) → Eats n (y a))
      → Eats n (elim r [ none ↦ x | some a ↦ y a ])
  Eats-option n none x y h g = h
  Eats-option n (some a) x y h g = g a
