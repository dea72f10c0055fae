-- ===== src/Invoke/Overload.antt =====
-- compiler/matchinvoke.cpp, lines 64-191: matching a call with an overload whose patterns are initialised.
use ceramic.Prelude.{
  ℕ, zero, suc, ◌+◌, ◌-◌, ◌%◌, ◌^◌, Bool, true, false, Option, none, some, List, [], ◌∷◌, ◌++◌,
  length, ◌==◌, ltb, if◌then◌else◌,
}
use ceramic.Patterns.Cells.{deref_cells}
use ceramic.Patterns.Construct.{◌>>=◌}
use ceramic.Patterns.Deref.{Context, deref_pattern, deref_multi, objects_to_patterns}
use ceramic.Patterns.Objects.{
  Declaration, CeramicType, Object, Objects, Pattern, MultiPattern, type_object, no_objects,
  add_object, cell_at, multi_cell_at, multi_list, no_tail,
}
use ceramic.Patterns.Unify.{Equality, Store, unify_object_pattern, unify_multi}

-- A formal argument with its pattern; `typed` is whether a type is written. Only a typed argument that is not
-- variadic has a pattern of its own.
pub record Formal : Type 0 where
  pub name : ℕ
  pub var_arg : Bool
  pub typed : Bool
  pub pattern : Option Pattern

-- A pattern variable with its cell.
pub data Variable : Type 0 where
  one_variable : ℕ → ℕ → Variable
  multi_variable : ℕ → ℕ → Variable

pub data Binding : Type 0 where
  one_binding : ℕ → Object → Binding
  multi_binding : ℕ → Objects → Binding

-- `predicate` is evaluated in the environment of the bindings.
pub record Overload : Type 0 where
  pub callable_pattern : Pattern
  pub formals : List Formal
  pub has_var_arg : Bool
  pub var_arg_pattern : MultiPattern
  pub variables : List Variable
  pub predicate : Option (List Binding → Option Bool)

-- The arguments of a match: the fixed ones by name, and the variadic one's name, position and types.
pub record Arguments : Type 0 where
  pub fixed : List (ℕ × CeramicType)
  pub var_arg : Option (ℕ × ℕ)
  pub var_types : List CeramicType

pub data MatchResult : Type 0 where
  match_success : List Binding → Arguments → ℕ → MatchResult
  match_callable_error : MatchResult
  match_arity_error : ℕ → ℕ → Bool → MatchResult
  match_argument_error : ℕ → CeramicType → MatchResult
  match_multi_argument_error : ℕ → MatchResult
  match_predicate_error : MatchResult

unfoldable pub elem_at : List CeramicType → ℕ → Option CeramicType
elem_at [] n = none
elem_at (t ∷ ts) zero = some t
elem_at (t ∷ ts) (suc n) = elem_at ts n

-- `argsKey[i + j]`, an `unsigned` sum.
unfoldable pub arg_key : List CeramicType → ℕ → ℕ → Option CeramicType
arg_key keys i j = elem_at keys ((i + j) % 2 ^ 32)

-- `argsKey.size() - formalArgs.size() + 1` of `size_t`, cut to `unsigned`.
unfoldable pub var_arg_size : ℕ → ℕ → ℕ
var_arg_size keys formals = (keys + (2 ^ 64 - formals) + 1) % 2 ^ 64 % 2 ^ 32

-- The loop over `j` for as many rounds.
unfoldable pub types_from : List CeramicType → ℕ → ℕ → ℕ → Option (List CeramicType)
types_from keys i j zero = some []
types_from keys i j (suc n) =
    arg_key keys i j >>= λ t. types_from keys i (suc j) n >>= λ ts. some (t ∷ ts)

-- `--j` after the loop, or `varArgSize - 1`.
unfoldable pub before : ℕ → ℕ
before j = (j + (2 ^ 32 - 1)) % 2 ^ 32

-- `j` after the loop.
unfoldable pub later : ℕ → ℕ → ℕ
later j w = if ltb j w then w else j

unfoldable pub add_fixed : ℕ → CeramicType → Arguments → Arguments
add_fixed name t r = record r { fixed = (name, t) ∷ r.fixed }

-- The last variadic argument gives the name and the position.
unfoldable pub or_else : Option (ℕ × ℕ) → ℕ × ℕ → Option (ℕ × ℕ)
or_else none x = some x
or_else (some y) x = some y

unfoldable pub add_var : ℕ → ℕ → List CeramicType → Arguments → Arguments
add_var name i ts r = record r {
  var_arg = or_else r.var_arg (name, i);
  var_types = ts ++ r.var_types;
}

-- The loop that fills the result.
unfoldable pub collect : List CeramicType → ℕ → ℕ → ℕ → List Formal → Option Arguments
collect keys w i j [] = some (record { fixed = []; var_arg = none; var_types = [] })
collect keys w i j (x ∷ xs) = elim x.var_arg [
  | true ↦
      (types_from keys i j (w - j) >>= λ ts.
      collect keys w (suc i) (before (later j w)) xs >>= λ r. some (add_var x.name i ts r))
  | false ↦
      (arg_key keys i j >>= λ t. collect keys w (suc i) j xs >>= λ r. some (add_fixed x.name t r))
]

unfoldable pub as_objects : List CeramicType → Objects
as_objects [] = no_objects
as_objects (t ∷ ts) = add_object (type_object t) (as_objects ts)

unfoldable pub unify_multi_static :
    Equality → Declaration → ℕ → MultiPattern → List CeramicType → Store → Option (Bool × Store)
unify_multi_static q r f m ts st =
    objects_to_patterns r (as_objects ts) >>= λ ps. unify_multi q r f m (multi_list ps no_tail) st

-- An error of the match, if there is one, with the store.
abbrev pub Matched : Type 0
Matched = Option (Option MatchResult × Store)

unfoldable pub or_error : Bool × Store → MatchResult → (Store → Matched) → Matched
or_error (true, st) e next = next st
or_error (false, st) e next = some (some e, st)

unfoldable pub unify_fixed :
    Equality
    → Declaration
    → ℕ
    → List CeramicType
    → ℕ
    → Option Pattern
    → Store
    → (Store → Matched)
    → Matched
unify_fixed q r f keys n none st next = next st
unify_fixed q r f keys n (some p) st next = elem_at keys n >>= λ t.
    unify_object_pattern q r f (type_object t) p st >>= λ u.
    or_error u (match_argument_error n t) next

unfoldable pub unify_variadic :
    Equality
    → Declaration
    → ℕ
    → Overload
    → List CeramicType
    → ℕ
    → ℕ
    → ℕ
    → Bool
    → Store
    → (ℕ → Store → Matched)
    → Matched
unify_variadic q r f o keys w i j false st next = next (before w) st
unify_variadic q r f o keys w i j true st next = types_from keys i j (w - j) >>= λ ts.
    unify_multi_static q r f o.var_arg_pattern ts st >>= λ u.
    or_error u (match_multi_argument_error (length o.formals)) (next (before (later j w)))

-- The loop that unifies the types of the arguments with the patterns.
unfoldable pub unify_arguments :
    Equality
    → Declaration
    → ℕ
    → Overload
    → List CeramicType
    → ℕ
    → ℕ
    → ℕ
    → List Formal
    → Store
    → Matched
unify_arguments q r f o keys w i j [] st = some (none, st)
unify_arguments q r f o keys w i j (x ∷ xs) st = elim x.var_arg [
  | true ↦
      unify_variadic q r f o keys w i j x.typed st
        λ j' st'. unify_arguments q r f o keys w (suc i) j' xs st'
  | false ↦
      unify_fixed q r f keys ((i + j) % 2 ^ 32) x.pattern st
        λ st'. unify_arguments q r f o keys w (suc i) j xs st'
]

unfoldable pub arity_error : Overload → ℕ → Option MatchResult
arity_error o keys =
    if o.has_var_arg
    then (if ltb (suc keys) (length o.formals)
        then some (match_arity_error (length o.formals) keys true)
        else none)
    else if length o.formals == keys
    then none
    else some (match_arity_error (length o.formals) keys false)

unfoldable pub empty_at : {A : Type 0} → ℕ → (ℕ → Option A) → ℕ → Option A
empty_at a cells b = if a == b then none else cells b

unfoldable pub reset_patterns : List Variable → Store → Store
reset_patterns [] st = st
reset_patterns (one_variable x a ∷ vs) st =
    reset_patterns vs (record st { cells = empty_at a st.cells })
reset_patterns (multi_variable x a ∷ vs) st =
    reset_patterns vs (record st { multi_cells = empty_at a st.multi_cells })

-- A variable whose cells are not all filled is an error.
unfoldable pub bind_variables : Context → List Variable → Option (List Binding)
bind_variables c [] = some []
bind_variables c (one_variable x a ∷ vs) = deref_pattern c (cell_at a) >>= λ r.
    r >>= λ o. bind_variables c vs >>= λ bs. some (one_binding x o ∷ bs)
bind_variables c (multi_variable x a ∷ vs) = deref_multi c (multi_cell_at a) >>= λ r.
    r >>= λ os. bind_variables c vs >>= λ bs. some (multi_binding x os ∷ bs)

unfoldable pub predicate_holds : Option (List Binding → Option Bool) → List Binding → Option Bool
predicate_holds none bs = some true
predicate_holds (some p) bs = p bs

-- The position of the last variadic argument, or 0.
unfoldable pub position_or_zero : Option (ℕ × ℕ) → ℕ
position_or_zero none = zero
position_or_zero (some (_, i)) = i

-- Without a variadic argument the position is behind the fixed ones.
unfoldable pub var_arg_position : Overload → Arguments → ℕ
var_arg_position o r = if o.has_var_arg then position_or_zero r.var_arg else length r.fixed % 2 ^ 32

-- What is done with the patterns reset.
unfoldable pub succeed : Overload → List CeramicType → List Binding → Option MatchResult
succeed o keys bs = predicate_holds o.predicate bs >>= λ b. elim b [
  | false ↦ some match_predicate_error
  | true ↦
      (collect keys (var_arg_size (length keys) (length o.formals)) 0 0 o.formals >>= λ r.
      some (match_success bs r (var_arg_position o r)))
]

unfoldable pub after_arguments :
    Context
    → ℕ
    → Overload
    → List CeramicType
    → Option MatchResult × Store
    → Option (MatchResult × Store)
after_arguments c g o keys (some e, st) = some (e, reset_patterns o.variables st)
after_arguments c g o keys (none, st) = bind_variables (deref_cells c g st) o.variables >>= λ bs.
    succeed o keys bs >>= λ r. some (r, reset_patterns o.variables st)

unfoldable pub match_arguments :
    Context
    → Equality
    → ℕ
    → ℕ
    → Overload
    → List CeramicType
    → Bool × Store
    → Option MatchResult
    → Option (MatchResult × Store)
match_arguments c q f g o keys (false, st) arity =
    some (match_callable_error, reset_patterns o.variables st)
match_arguments c q f g o keys (true, st) (some e) = some (e, reset_patterns o.variables st)
match_arguments c q f g o keys (true, st) none =
    unify_arguments q c.by_ref f o keys (var_arg_size (length keys) (length o.formals)) 0 0
      o.formals st
    >>= λ m. after_arguments c g o keys m

-- The patterns are reset on every return. `f` bounds the nesting of unification, `g` how many cells hold each other.
unfoldable pub match_invoke :
    Context
    → Equality
    → ℕ
    → ℕ
    → Overload
    → Object
    → List CeramicType
    → Store
    → Option (MatchResult × Store)
match_invoke c q f g o callable keys st =
    unify_object_pattern q c.by_ref f callable o.callable_pattern st >>= λ u.
    match_arguments c q f g o keys u (arity_error o (length keys))
