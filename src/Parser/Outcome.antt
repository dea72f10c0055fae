-- ===== src/Parser/Outcome.antt =====
-- compiler/parser.cpp: what holds of the result of a function.
use ceramic.Parser.State.{
  Parser, State, Result, parsed, failed, aborted, out_of_fuel, restore, bind, or_else,
}

-- What holds of the value and the state of a success; there is always fuel.
pub data After {A : Type 0} (P : A → State → Type 0) : Result A → Type 0 where
  success : {a : A} {st : State} → P a st → After P (parsed a st)
  failure : {st : State} → After P (failed st)
  stopped : After P aborted

-- The same where there is no failure.
pub data Always {A : Type 0} (P : A → State → Type 0) : Result A → Type 0 where
  always : {a : A} {st : State} → P a st → Always P (parsed a st)
  given_up : Always P aborted

pub After-map :
    {A : Type 0} {P Q : A → State → Type 0} (r : Result A)
    → ((a : A) (st : State) → P a st → Q a st)
    → After P r
    → After Q r
After-map (parsed a st) f (success h) = success (f a st h)
After-map (failed st) f h = failure
After-map aborted f h = stopped
After-map out_of_fuel f h = elim h [ ]

pub After-of_Always : {A : Type 0} {P : A → State → Type 0} (r : Result A) → Always P r → After P r
After-of_Always (parsed a st) (always h) = success h
After-of_Always (failed st) h = failure
After-of_Always aborted h = stopped
After-of_Always out_of_fuel h = elim h [ ]

pub Always-map :
    {A : Type 0} {P Q : A → State → Type 0} (r : Result A)
    → ((a : A) (st : State) → P a st → Q a st)
    → Always P r
    → Always Q r
Always-map (parsed a st) f (always h) = always (f a st h)
Always-map (failed st) f h = elim h [ ]
Always-map aborted f h = given_up
Always-map out_of_fuel f h = elim h [ ]

pub Always-bind :
    {A B : Type 0} {P : A → State → Type 0} {Q : B → State → Type 0} (r : Result A)
    (k : A → Parser B)
    → ((a : A) (st : State) → P a st → Always Q (k a st))
    → Always P r
    → Always Q (bind r k)
unfolding bind
Always-bind (parsed a st) k f (always h) = f a st h
Always-bind (failed st) k f h = elim h [ ]
Always-bind aborted k f h = given_up
Always-bind out_of_fuel k f h = elim h [ ]

pub After-bind :
    {A B : Type 0} {P : A → State → Type 0} {Q : B → State → Type 0} (r : Result A)
    (k : A → Parser B)
    → ((a : A) (st : State) → P a st → After Q (k a st))
    → After P r
    → After Q (bind r k)
unfolding bind
After-bind (parsed a st) k f (success h) = f a st h
After-bind (failed st) k f h = failure
After-bind aborted k f h = stopped
After-bind out_of_fuel k f h = elim h [ ]

pub After-or_else :
    {A : Type 0} {P : A → State → Type 0} (saved : State) (r : Result A) (k : Parser A)
    → After P r
    → ((st : State) → After P (k (restore saved st)))
    → After P (or_else saved r k)
unfolding or_else
After-or_else saved (parsed a st) k h f = h
After-or_else saved (failed st) k h f = f st
After-or_else saved aborted k h f = stopped
After-or_else saved out_of_fuel k h f = elim h [ ]
