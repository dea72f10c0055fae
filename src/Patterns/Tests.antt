-- ===== src/Patterns/Tests.antt =====
-- Patterns of concrete values, and the theorems on them at concrete inputs.
use ceramic.Prelude.{◌≡◌, refl, Bool, true, false, none, some, ◌==◌, ◌&&◌, if◌then◌else◌, arith}
use ceramic.Patterns.Cells.{
  Settled, deref_cells, cell_values, with_values, cell_value, multi_cell_value, deref_cells-Solves,
}
use ceramic.Patterns.Construct.{params_fit, ◌>>=◌}
use ceramic.Patterns.Deref.{
  compute_struct, make_tuple_value, all_statics, is_static, Context, deref_pattern,
  object_to_pattern, deref_object, if_bound,
}
use ceramic.Patterns.Match.{unify_object_pattern-deref_pattern}
use ceramic.Patterns.Objects.{
  Declaration, Object, Pattern, Head, MultiPattern, no_head, head_of, cell_at, pattern_cell,
  pattern_struct, multi_cell_at, multi_list, no_patterns, add_pattern, no_tail, a_tail, Objects,
  no_objects, add_object, Elements, no_elements, static_element, value_element, evalue_to_statics,
  other_value, prim_op, record_decl, variant_decl, static_object, other_object, pattern_object,
  multi_pattern_object, tuple_value, int_value, bool_value, type_object, number_type, record_type,
  code_pointer_type, array_type, no_types, add_type, no_returns, add_return, one_object, count,
  object_kind,
}
use ceramic.Patterns.Plain.{PlainObject, PlainElements, is_kept, is_value}
use ceramic.Patterns.RoundTrip.{EvaluatesTuples, deref_pattern-object_to_pattern}
use ceramic.Patterns.Unify.{
  Store, Equality, fill, fill_cell, fill_multi, unify, unify_object_pattern,
}
use ceramic.Patterns.Unify.Equal.{Lawful, unify-Equal}
use ceramic.Patterns.Unify.Sound.{PlainStore, Extends}

abbrev pub by_ref : Declaration
by_ref = record { address = 1; params = 1; var_param = false }

abbrev vector : Declaration
vector = record { address = 2; params = 1; var_param = false }

-- The evaluator on concrete objects: values, and others as static elements.
abbrev evaluated : Objects → Elements
evaluated no_objects = no_elements
evaluated (add_object o os) =
    if is_value o then value_element o (evaluated os) else static_element o (evaluated os)

abbrev pub nothing_bound : Context
nothing_bound = record {
  one = λ _. some none;
  many = λ _. some none;
  evaluate_tuple = λ os. some (tuple_value (evaluated os));
  by_ref = by_ref;
}

-- `CodePointer[[Vector[Int], ByRef[Int]]]`-like: a function from a vector to a reference to an array.
abbrev code_type : Object
code_type = type_object (
    code_pointer_type
      (add_type (record_type vector (one_object (type_object (number_type 5)))) no_types)
      (add_return true (array_type (number_type 5) 4) no_returns))

code_type-Plain : PlainObject by_ref code_type
unfolding params_fit count
code_type-Plain = ((((tt, tt), refl), tt), ((tt, ground arith), refl, tt))

kept-value : (o : Object) → is_kept o ≡ true → is_value o ≡ false
kept-value (tuple_value es) h = absurd (cc h)
kept-value (int_value n) h = absurd (cc h)
kept-value (bool_value b) h = absurd (cc h)
kept-value (other_value n) h = absurd (cc h)
kept-value (other_object n) h = refl
kept-value (pattern_object p) h = refl
kept-value (multi_pattern_object m) h = refl
kept-value (type_object t) h = refl
kept-value (prim_op p) h = refl
kept-value (record_decl d) h = refl
kept-value (variant_decl d) h = refl
kept-value (static_object n) h = refl

evaluated-evalue_to_statics :
    (es : Elements) → PlainElements by_ref es → evaluated (evalue_to_statics es) ≡ es
unfolding evalue_to_statics
evaluated-evalue_to_statics no_elements p = refl
evaluated-evalue_to_statics (static_element o es) ((i, k), p) =
    rw (kept-value o k, evaluated-evalue_to_statics es p) refl
evaluated-evalue_to_statics (value_element o es) ((i, k), p) =
    rw (k, evaluated-evalue_to_statics es p) refl

nothing_bound-EvaluatesTuples : EvaluatesTuples nothing_bound
nothing_bound-EvaluatesTuples es p = rw (evaluated-evalue_to_statics es p) refl

deref_pattern-object_to_pattern_example :
    (p : Pattern) × (object_to_pattern by_ref code_type ≡ some p)
    × (deref_pattern nothing_bound p ≡ some (some code_type))
deref_pattern-object_to_pattern_example =
    deref_pattern-object_to_pattern nothing_bound code_type nothing_bound-EvaluatesTuples
      code_type-Plain

abbrev is_null : Head → Bool
is_null no_head = true
is_null (head_of o) = false

abbrev pub only_tuples : Equality
only_tuples = record { same_head = λ h h'. is_null h && is_null h'; object_equals = λ x y. false }

only_tuples-Lawful : Lawful by_ref only_tuples
only_tuples-Lawful = (heads, λ x y v w h. absurd (cc h))
  where
    heads : (h h' : Head) → (is_null h && is_null h') ≡ true → h ≡ h'
    heads no_head no_head e = refl
    heads no_head (head_of o) e = absurd (cc e)
    heads (head_of o) h' e = absurd (cc e)

abbrev pub empty_store : Store
empty_store = record { cells = λ _. none; multi_cells = λ _. none }

empty_store-Plain : PlainStore by_ref empty_store
empty_store-Plain = (λ a o h. absurd (cc h), λ a m h. absurd (cc h))

abbrev the_value : Object
the_value = tuple_value (value_element (int_value 3) (value_element (bool_value true) no_elements))

-- `[A, ..B]`
abbrev the_pattern : Pattern
the_pattern =
    pattern_struct no_head
      (multi_list (add_pattern (cell_at 0) no_patterns) (a_tail (multi_cell_at 1)))

abbrev rest_bound : MultiPattern
rest_bound = multi_list (add_pattern (pattern_cell (bool_value true)) no_patterns) no_tail

abbrev the_store : Store
the_store = fill_cell 0 (int_value 3) (fill_multi 1 rest_bound empty_store)

matched :
    unify_object_pattern only_tuples by_ref 20 the_value the_pattern empty_store
    ≡ some (true, the_store)
unfolding unify_object_pattern object_to_pattern fill_cell fill_multi object_kind ◌>>=◌
matched = refl

unified :
    unify only_tuples by_ref 21 (pattern_cell the_value) the_pattern empty_store
    ≡ some (true, the_store)
unfolding unify object_to_pattern fill_cell fill_multi object_kind ◌>>=◌
unified = refl

the_store-Settled : Settled nothing_bound 1 the_store
unfolding deref_cells cell_values with_values cell_value multi_cell_value deref_pattern fill_cell
    fill_multi fill deref_object ◌>>=◌ if_bound
the_store-Settled = ((λ a. one (0 == a)), λ a. many (1 == a))
  where
    d0 : Context
    d0 = with_values nothing_bound (cell_values nothing_bound 0 the_store)

    d1 : Context
    d1 = with_values nothing_bound (cell_values nothing_bound 1 the_store)

    one :
        (b : Bool)
        → cell_value d0 (if b then some (int_value 3) else none)
          ≡ cell_value d1 (if b then some (int_value 3) else none)
    one true = refl
    one false = refl

    many :
        (b : Bool)
        → multi_cell_value d0 (if b then some rest_bound else none)
          ≡ multi_cell_value d1 (if b then some rest_bound else none)
    many true = refl
    many false = refl

unify_object_pattern-deref_pattern_example :
    deref_pattern (deref_cells nothing_bound 1 the_store) the_pattern ≡ some (some the_value)
unify_object_pattern-deref_pattern_example =
    unify_object_pattern-deref_pattern nothing_bound only_tuples only_tuples-Lawful
      nothing_bound-EvaluatesTuples 20 1 the_value the_pattern empty_store the_store
      ((tt, refl), ((tt, refl), tt)) ((tt, tt), tt) empty_store-Plain matched the_store-Settled

unify-Equal_example :
    Extends empty_store the_store
    × (deref_pattern (deref_cells nothing_bound 1 the_store) (pattern_cell the_value)
        ≡ deref_pattern (deref_cells nothing_bound 1 the_store) the_pattern)
unfolding deref_cells with_values
unify-Equal_example =
    unify-Equal (deref_cells nothing_bound 1 the_store) only_tuples only_tuples-Lawful
      nothing_bound-EvaluatesTuples 21 (pattern_cell the_value) the_pattern empty_store the_store
      ((tt, refl), ((tt, refl), tt)) ((tt, tt), tt) empty_store-Plain unified
      (deref_cells-Solves nothing_bound 1 the_store the_store-Settled)

-- The pattern of `[#3]` has the value `[3]`, whose element has another type.
abbrev static_three : Object
static_three = tuple_value (static_element (int_value 3) no_elements)

static_lost :
    (object_to_pattern by_ref static_three >>= λ p. deref_pattern nothing_bound p)
    ≡ some (some (tuple_value (value_element (int_value 3) no_elements)))
unfolding object_to_pattern deref_pattern deref_object if_bound ◌>>=◌ compute_struct
    make_tuple_value all_statics is_static
static_lost = refl
