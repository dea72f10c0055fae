-- ===== src/Invoke/Reset.antt =====
-- compiler/matchinvoke.cpp, lines 64-171: the patterns of an overload after a match.
use ceramic.Prelude.{
  ℕ, ◌≡◌, subst, Bool, true, false, Option, none, some, List, [], ◌∷◌, length, arith,
}
use ceramic.Invoke.Overload.{
  Overload, Variable, one_variable, multi_variable, MatchResult, empty_at, reset_patterns,
  bind_variables, succeed, unify_arguments, arity_error, after_arguments, match_arguments,
  match_invoke, var_arg_size, Binding,
}
use ceramic.Patterns.Cells.{deref_cells}
use ceramic.Patterns.Construct.{◌>>=◌}
use ceramic.Patterns.Deref.{Context}
use ceramic.Patterns.Objects.{CeramicType, Object}
use ceramic.Patterns.Unify.{Equality, Store, unify_object_pattern}

-- No cell of the variables holds anything.
abbrev pub AllEmpty : List Variable → Store → Type 0
AllEmpty [] st = Unit
AllEmpty (one_variable x a ∷ vs) st = (st.cells a ≡ none) × AllEmpty vs st
AllEmpty (multi_variable x a ∷ vs) st = (st.multi_cells a ≡ none) × AllEmpty vs st

emptied : {A : Type 0} (a : ℕ) (f : ℕ → Option A) → empty_at a f a ≡ none
unfolding empty_at
emptied a f = ground arith

still_empty : {A : Type 0} (a b : ℕ) (f : ℕ → Option A) → f b ≡ none → empty_at a f b ≡ none
unfolding empty_at
still_empty a b f h = ground arith

cells_reset :
    (vs : List Variable) (st : Store) (b : ℕ)
    → st.cells b ≡ none
    → (reset_patterns vs st).cells b ≡ none
unfolding reset_patterns
cells_reset [] st b h = h
cells_reset (one_variable x a ∷ vs) st b h =
    cells_reset vs (record st { cells = empty_at a st.cells }) b (still_empty a b st.cells h)
cells_reset (multi_variable x a ∷ vs) st b h =
    cells_reset vs (record st { multi_cells = empty_at a st.multi_cells }) b h

multi_cells_reset :
    (vs : List Variable) (st : Store) (b : ℕ)
    → st.multi_cells b ≡ none
    → (reset_patterns vs st).multi_cells b ≡ none
unfolding reset_patterns
multi_cells_reset [] st b h = h
multi_cells_reset (one_variable x a ∷ vs) st b h =
    multi_cells_reset vs (record st { cells = empty_at a st.cells }) b h
multi_cells_reset (multi_variable x a ∷ vs) st b h =
    multi_cells_reset vs (record st { multi_cells = empty_at a st.multi_cells }) b
      (still_empty a b st.multi_cells h)

reset_patterns-AllEmpty : (vs : List Variable) (st : Store) → AllEmpty vs (reset_patterns vs st)
unfolding reset_patterns
reset_patterns-AllEmpty [] st = tt
reset_patterns-AllEmpty (one_variable x a ∷ vs) st =
    let st' = record st { cells = empty_at a st.cells } in
    (cells_reset vs st' a (emptied a st.cells), reset_patterns-AllEmpty vs st')
reset_patterns-AllEmpty (multi_variable x a ∷ vs) st =
    let st' = record st { multi_cells = empty_at a st.multi_cells } in
    (multi_cells_reset vs st' a (emptied a st.multi_cells), reset_patterns-AllEmpty vs st')

abbrev finished : MatchResult → Store → Option (MatchResult × Store)
finished r st = some (r, st)

at_end :
    (vs : List Variable) (st st' : Store) (r r' : MatchResult)
    → finished r (reset_patterns vs st) ≡ finished r' st'
    → AllEmpty vs st'
at_end vs st st' r r' h = subst (AllEmpty vs) (cc h) (reset_patterns-AllEmpty vs st)

after_arguments-AllEmpty :
    (c : Context) (g : ℕ) (o : Overload) (keys : List CeramicType) (e : Option MatchResult)
    (st st' : Store) (r : MatchResult)
    → after_arguments c g o keys (e, st) ≡ finished r st'
    → AllEmpty o.variables st'
unfolding after_arguments ◌>>=◌
after_arguments-AllEmpty c g o keys (some e) st st' r h = at_end o.variables st st' e r h
after_arguments-AllEmpty c g o keys none st st' r h =
    bound (bind_variables (deref_cells c g st) o.variables) h
  where
    chosen :
        (m : Option MatchResult)
        → (m >>= λ s. finished s (reset_patterns o.variables st)) ≡ finished r st'
        → AllEmpty o.variables st'
    chosen none h = absurd (cc h)
    chosen (some s) h = at_end o.variables st st' s r h

    bound :
        (b : Option (List Binding))
        → (b >>= λ bs. succeed o keys bs >>= λ s. finished s (reset_patterns o.variables st))
          ≡ finished r st'
        → AllEmpty o.variables st'
    bound none h = absurd (cc h)
    bound (some bs) h = chosen (succeed o keys bs) h

match_arguments-AllEmpty :
    (c : Context) (q : Equality) (f g : ℕ) (o : Overload) (keys : List CeramicType) (b : Bool)
    (st st' : Store) (e : Option MatchResult) (r : MatchResult)
    → match_arguments c q f g o keys (b, st) e ≡ finished r st'
    → AllEmpty o.variables st'
unfolding match_arguments ◌>>=◌
match_arguments-AllEmpty c q f g o keys false st st' e r h = at_end o.variables st st' _ r h
match_arguments-AllEmpty c q f g o keys true st st' (some e) r h = at_end o.variables st st' e r h
match_arguments-AllEmpty c q f g o keys true st st' none r h =
    go
      (unify_arguments q c.by_ref f o keys (var_arg_size (length keys) (length o.formals)) 0 0
        o.formals st)
      h
  where
    go :
        (m : Option (Option MatchResult × Store))
        → (m >>= λ x. after_arguments c g o keys x) ≡ finished r st'
        → AllEmpty o.variables st'
    go none h = absurd (cc h)
    go (some (e, st1)) h = after_arguments-AllEmpty c g o keys e st1 st' r h

-- However a match ends, but for an error of the program, every cell of the overload's pattern variables is empty
-- for the next one.
pub match_invoke-AllEmpty :
    (c : Context) (q : Equality) (f g : ℕ) (o : Overload) (callable : Object)
    (keys : List CeramicType) (st st' : Store) (r : MatchResult)
    → match_invoke c q f g o callable keys st ≡ some (r, st')
    → AllEmpty o.variables st'
unfolding match_invoke ◌>>=◌
match_invoke-AllEmpty c q f g o callable keys st st' r h =
    go (unify_object_pattern q c.by_ref f callable o.callable_pattern st) h
  where
    go :
        (u : Option (Bool × Store))
        → (u >>= λ x. match_arguments c q f g o keys x (arity_error o (length keys)))
          ≡ finished r st'
        → AllEmpty o.variables st'
    go none h = absurd (cc h)
    go (some (b, st1)) h =
        match_arguments-AllEmpty c q f g o keys b st1 st' (arity_error o (length keys)) r h
