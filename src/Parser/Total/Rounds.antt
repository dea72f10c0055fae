-- ===== src/Parser/Total/Rounds.antt =====
-- compiler/parser.cpp: attempts and loops end and read tokens.
use ceramic.Prelude.{ℕ, zero, suc, ◌≤◌, ◌<◌, Option, none, some, List, ◌∷◌, arith}
use ceramic.Parser.State.{
  Parser, State, Result, parsed, failed, aborted, out_of_fuel, restore, bind, ◌>>=◌, pure, or_else,
  ◌<|>◌, attempt, rounds, many,
}
use ceramic.Parser.Outcome.{
  After, After-bind, After-map, After-of_Always, Always, always, given_up, success,
}
use ceramic.Parser.Total.{Eats, Total, Total-<|>, Total->>=, Total-pure, left}

-- An attempt that succeeds reads a token.
abbrev pub Tried : {A : Type 0} → State → Option A → State → Type 0
Tried st none t = left t ≤ left st
Tried st (some a) t = left t < left st

module _ {A : Type 0} where
  pub Tried-attempt :
      (n : ℕ) (m : Parser A) (st : State)
      → Eats n m
      → left st < n
      → Always (Tried st) (attempt m st)
  unfolding attempt ◌<|>◌ ◌>>=◌ pure restore bind or_else
  Tried-attempt n m st h l = go (m st) (h st l)
    where
      go :
          (r : Result A)
          → After (λ _ t. left t < left st) r
          → Always (Tried st) (or_else st (bind r (λ a. pure (some a))) (pure none))
      go (parsed a t) (success k) = always k
      go (failed t) k = always (omega arith)
      go aborted k = given_up
      go out_of_fuel k = elim k [ ]

  pub Total-attempt : (n : ℕ) (m : Parser A) → Total n m → Total n (attempt m)
  unfolding attempt
  Total-attempt n m h =
      Total-<|> n (m >>= λ a. pure (some a)) (pure none)
        (Total->>= n m (λ a. pure (some a)) h (λ a. Total-pure n (some a))) (Total-pure n none)

  -- A round: an attempt, and what is done with less tokens if it succeeds.
  pub After-attempt :
      {B : Type 0} (n : ℕ) (m : Parser A) (st : State) (k : Option A → Parser B)
      → Eats n m
      → left st < n
      → ((t : State) → left t ≤ left st → After (λ _ u. left u ≤ left t) (k none t))
      → ((a : A) (t : State) → left t < left st → After (λ _ u. left u ≤ left t) (k (some a) t))
      → After (λ _ u. left u ≤ left st) (bind (attempt m st) k)
  After-attempt {B} n m st k h l f g =
      After-bind (attempt m st) k each (After-of_Always (attempt m st) (Tried-attempt n m st h l))
    where
      each : (r : Option A) (t : State) → Tried st r t → After (λ _ u. left u ≤ left st) (k r t)
      each none t i = After-map (k none t) (λ b u j. omega (arith, i, j)) (f t i)
      each (some a) t i = After-map (k (some a) t) (λ b u j. omega (arith, i, j)) (g a t i)

  -- One more item in front of those of the rounds left.
  pub After-cons :
      (a : A) (more : Parser (List A)) (t : State)
      → After (λ _ u. left u ≤ left t) (more t)
      → After (λ _ u. left u ≤ left t) ((more >>= λ as'. pure (a ∷ as')) t)
  unfolding ◌>>=◌ pure
  After-cons a more t h =
      After-bind (more t) (λ as'. pure (a ∷ as')) (λ as' u j. success (omega (arith, j))) h

  Total-rounds :
      (n f : ℕ) (m : Parser A) (st : State)
      → Eats n m
      → left st < n
      → left st < f
      → After (λ _ t. left t ≤ left st) (rounds f m st)
  unfolding rounds pure
  Total-rounds n zero m st h l k = absurd (omega (arith, k))
  Total-rounds n (suc f) m st h l k =
      After-attempt n m st _ h l (λ t i. success (omega arith))
        (λ a t i.
          After-cons a (rounds f m) t
            (Total-rounds n f m t h (omega (arith, l, i)) (omega (arith, k, i))))

  pub Total-many : (n : ℕ) (m : Parser A) → Eats n m → Total n (many m)
  unfolding many
  Total-many n m h st l = Total-rounds n (suc (left st)) m st h l (omega arith)
