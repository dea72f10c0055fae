-- ===== src/Patterns/RoundTrip.antt =====
-- compiler/patterns.cpp, lines 15-275: the pattern of a value has that value.
use ceramic.Prelude.{◌≡◌, refl, true, false, Bool-cases, inl, inr, arith, some}
use ceramic.Patterns.Construct.{◌>>=◌, return_types}
use ceramic.Patterns.Deref.{
  Context, make_tuple_value, compute_struct, is_static, all_statics, elements_to_patterns,
  deref_pattern, deref_object, object_to_pattern, objects_to_patterns, type_to_pattern,
  types_to_patterns, returns_to_patterns, opt_to_patterns,
}
use ceramic.Patterns.Objects.{
  prim_tuple, prim_union, Object, Objects, CeramicType, CeramicTypes, ReturnTypes, OptType,
  pattern_object, multi_pattern_object, Declaration, Elements, no_elements, static_element,
  value_element, static_elements, evalue_to_statics, tuple_value, int_value, bool_value,
  other_value, type_object, prim_op, record_decl, variant_decl, static_object, other_object,
  no_objects, add_object, number_type, pointer_type, code_pointer_type, ccode_pointer_type,
  array_type, vec_type, tuple_type, union_type, static_type, record_type, variant_type, other_type,
  no_types, add_type, no_type, a_type, no_returns, add_return, Pattern, head_of, no_head,
  pattern_cell, type_objects,
}
use ceramic.Patterns.Plain.{
  PlainOrPattern, PlainObject, PlainElements, is_value, PlainObjects, PlainType, PlainTypes,
  PlainOptType, PlainReturns,
}
use ceramic.Patterns.Trips.{
  Trips, TripsAll, trips_nil, trips_nil_types, Trips-add_type, Trips-one_type, trips_nil_returns,
  Trips-add_return, Trips-pointer, Trips-static, compute_tuple, compute_union, compute_record,
  compute_variant, Trips-add, Trips-struct,
}
use ceramic.Patterns.Compound.{
  opt_types, Trips-code_pointer, Trips-ccode_pointer, Trips-array, Trips-vec,
}

-- The evaluator makes a tuple of the elements: values, and what stands for itself as static elements.
abbrev pub EvaluatesTuples : Context → Type 0
EvaluatesTuples c =
    (es : Elements)
    → PlainElements c.by_ref es
    → c.evaluate_tuple (evalue_to_statics es) ≡ some (tuple_value es)

is_static-value : (o : Object) → is_value o ≡ true → is_static o ≡ false
unfolding is_static
is_static-value (tuple_value es) h = refl
is_static-value (int_value n) h = refl
is_static-value (bool_value b) h = refl
is_static-value (other_value n) h = refl
is_static-value (other_object n) h = refl
is_static-value (pattern_object p) h = refl
is_static-value (multi_pattern_object m) h = refl
is_static-value (type_object t) h = absurd (cc h)
is_static-value (prim_op p) h = absurd (cc h)
is_static-value (record_decl d) h = absurd (cc h)
is_static-value (variant_decl d) h = absurd (cc h)
is_static-value (static_object n) h = absurd (cc h)

-- Elements that are all static by `makeTupleValue` are static elements.
static_elements-evalue_to_statics :
    (r : Declaration) (es : Elements)
    → PlainElements r es
    → all_statics (evalue_to_statics es) ≡ true
    → static_elements (evalue_to_statics es) ≡ es
unfolding static_elements evalue_to_statics all_statics
static_elements-evalue_to_statics r no_elements p h = refl
static_elements-evalue_to_statics r (static_element o es) (i, p) h =
    rw (static_elements-evalue_to_statics r es p (ground (arith, h))) refl
static_elements-evalue_to_statics r (value_element o es) ((i, v), p) h =
    absurd (ground (arith, h, is_static-value o v))

make_tuple_value_lem :
    (c : Context) (es : Elements)
    → EvaluatesTuples c
    → PlainElements c.by_ref es
    → compute_struct c no_head (evalue_to_statics es) ≡ some (some (tuple_value es))
unfolding compute_struct make_tuple_value ◌>>=◌
make_tuple_value_lem c es h p = elim (Bool-cases (all_statics (evalue_to_statics es))) [
  | inl k ↦ rw (k, static_elements-evalue_to_statics c.by_ref es p k) refl
  | inr k ↦ rw (k, h es p) refl
]

Trips-self :
    (c : Context) (o : Object)
    → deref_object c o ≡ some (some o)
    → PlainOrPattern c.by_ref o
    → Trips c (some (pattern_cell o)) o
unfolding deref_pattern
Trips-self c o h p = (pattern_cell o, refl, h, p)

mutual
  unfolding object_to_pattern objects_to_patterns type_to_pattern types_to_patterns
      returns_to_patterns opt_to_patterns deref_object elements_to_patterns evalue_to_statics

  pub object-Trips :
      (c : Context)
      → EvaluatesTuples c
      → (o : Object) → PlainObject c.by_ref o
      → Trips c (object_to_pattern c.by_ref o) o
  object-Trips c h (pattern_object q) p = elim p [ ]
  object-Trips c h (multi_pattern_object m) p = elim p [ ]
  object-Trips c h (tuple_value es) p =
      Trips-struct c (elements_to_patterns c.by_ref es) no_head (evalue_to_statics es)
        (tuple_value es) (elements_trip c h es p) (make_tuple_value_lem c es h p)
  object-Trips c h (type_object t) p = type-Trips c h t p
  object-Trips c h (int_value n) p = Trips-self c (int_value n) refl p
  object-Trips c h (bool_value b) p = Trips-self c (bool_value b) refl p
  object-Trips c h (other_value n) p = Trips-self c (other_value n) refl p
  object-Trips c h (prim_op q) p = Trips-self c (prim_op q) refl p
  object-Trips c h (record_decl d) p = Trips-self c (record_decl d) refl p
  object-Trips c h (variant_decl d) p = Trips-self c (variant_decl d) refl p
  object-Trips c h (static_object n) p = Trips-self c (static_object n) refl p
  object-Trips c h (other_object n) p = Trips-self c (other_object n) refl p

  elements_trip :
      (c : Context)
      → EvaluatesTuples c
      → (es : Elements) → PlainElements c.by_ref es
      → TripsAll c (elements_to_patterns c.by_ref es) (evalue_to_statics es)
  elements_trip c h no_elements p = trips_nil c
  elements_trip c h (static_element o es) ((p, k), ps) =
      Trips-add c (object_to_pattern c.by_ref o) o (elements_to_patterns c.by_ref es)
        (evalue_to_statics es) (object-Trips c h o p) (elements_trip c h es ps)
  elements_trip c h (value_element o es) ((p, k), ps) =
      Trips-add c (object_to_pattern c.by_ref o) o (elements_to_patterns c.by_ref es)
        (evalue_to_statics es) (object-Trips c h o p) (elements_trip c h es ps)

  objects_trip :
      (c : Context)
      → EvaluatesTuples c
      → (os : Objects) → PlainObjects c.by_ref os
      → TripsAll c (objects_to_patterns c.by_ref os) os
  objects_trip c h no_objects p = trips_nil c
  objects_trip c h (add_object o os) (p, ps) =
      Trips-add c (object_to_pattern c.by_ref o) o (objects_to_patterns c.by_ref os) os
        (object-Trips c h o p) (objects_trip c h os ps)

  type-Trips :
      (c : Context)
      → EvaluatesTuples c
      → (t : CeramicType) → PlainType c.by_ref t
      → Trips c (type_to_pattern c.by_ref t) (type_object t)
  type-Trips c h (number_type n) p = Trips-self c (type_object (number_type n)) refl p
  type-Trips c h (other_type n) p = Trips-self c (type_object (other_type n)) refl p
  type-Trips c h (pointer_type t) p =
      Trips-pointer c (type_to_pattern c.by_ref t) t (type-Trips c h t p)
  type-Trips c h (code_pointer_type args rs) (p, q) =
      Trips-code_pointer c (types_to_patterns c.by_ref args) (returns_to_patterns c.by_ref rs) args
        rs q (types_trip c h args p) (returns_trip c h rs q)
  type-Trips c h (ccode_pointer_type conv args b o) (p, q) =
      Trips-ccode_pointer c conv b (types_to_patterns c.by_ref args) (opt_to_patterns c.by_ref o)
        args o (types_trip c h args p) (opt_trips c h o q)
  type-Trips c h (array_type t n) (p, k) =
      Trips-array c (type_to_pattern c.by_ref t) t n k (type-Trips c h t p)
  type-Trips c h (vec_type t n) (p, number, k) =
      Trips-vec c (type_to_pattern c.by_ref t) t n number k (type-Trips c h t p)
  type-Trips c h (tuple_type ts) p =
      Trips-struct c (types_to_patterns c.by_ref ts) (head_of (prim_op prim_tuple))
        (type_objects ts) (type_object (tuple_type ts)) (types_trip c h ts p) (compute_tuple c ts)
  type-Trips c h (union_type ts) p =
      Trips-struct c (types_to_patterns c.by_ref ts) (head_of (prim_op prim_union))
        (type_objects ts) (type_object (union_type ts)) (types_trip c h ts p) (compute_union c ts)
  type-Trips c h (static_type o) p =
      Trips-static c (object_to_pattern c.by_ref o) o (object-Trips c h o p)
  type-Trips c h (record_type d os) (p, k) =
      Trips-struct c (objects_to_patterns c.by_ref os) (head_of (record_decl d)) os
        (type_object (record_type d os)) (objects_trip c h os p) (compute_record c d os k)
  type-Trips c h (variant_type d os) (p, k) =
      Trips-struct c (objects_to_patterns c.by_ref os) (head_of (variant_decl d)) os
        (type_object (variant_type d os)) (objects_trip c h os p) (compute_variant c d os k)

  types_trip :
      (c : Context)
      → EvaluatesTuples c
      → (ts : CeramicTypes) → PlainTypes c.by_ref ts
      → TripsAll c (types_to_patterns c.by_ref ts) (type_objects ts)
  types_trip c h no_types p = trips_nil_types c
  types_trip c h (add_type t ts) (p, ps) =
      Trips-add_type c (type_to_pattern c.by_ref t) t (types_to_patterns c.by_ref ts) ts
        (type-Trips c h t p) (types_trip c h ts ps)

  opt_trips :
      (c : Context)
      → EvaluatesTuples c
      → (o : OptType) → PlainOptType c.by_ref o
      → TripsAll c (opt_to_patterns c.by_ref o) (type_objects (opt_types o))
  opt_trips c h no_type p = trips_nil_types c
  opt_trips c h (a_type t) p = Trips-one_type c (type_to_pattern c.by_ref t) t (type-Trips c h t p)

  returns_trip :
      (c : Context)
      → EvaluatesTuples c
      → (rs : ReturnTypes) → PlainReturns c.by_ref rs
      → TripsAll c (returns_to_patterns c.by_ref rs) (type_objects (return_types c.by_ref rs))
  returns_trip c h no_returns p = trips_nil_returns c
  returns_trip c h (add_return b t rs) (p, f, ps) =
      Trips-add_return c (type_to_pattern c.by_ref t) b t (returns_to_patterns c.by_ref rs) rs f
        (type-Trips c h t p) (returns_trip c h rs ps)

-- Every value without patterns in it, such as a type with its parameters, has a pattern, and `derefDeep` of that
-- pattern gives the value back, if no tuple in it has a static element that is a value, such as `#3`, or a
-- record or variant without parameters, and the evaluator makes tuples of the other elements.
pub deref_pattern-object_to_pattern :
    (c : Context) (o : Object)
    → EvaluatesTuples c
    → PlainObject c.by_ref o
    → (p : Pattern) × (object_to_pattern c.by_ref o ≡ some p) × (deref_pattern c p ≡ some (some o))
deref_pattern-object_to_pattern c o h p = let t = object-Trips c h o p in (t.0, t.1, t.2)

pub deref_object-Plain :
    (c : Context) (o : Object) → PlainObject c.by_ref o → deref_object c o ≡ some (some o)
unfolding deref_object
deref_object-Plain c (pattern_object p) h = elim h [ ]
deref_object-Plain c (multi_pattern_object m) h = elim h [ ]
deref_object-Plain c (tuple_value os) h = refl
deref_object-Plain c (int_value n) h = refl
deref_object-Plain c (bool_value b) h = refl
deref_object-Plain c (other_value n) h = refl
deref_object-Plain c (type_object t) h = refl
deref_object-Plain c (prim_op p) h = refl
deref_object-Plain c (record_decl d) h = refl
deref_object-Plain c (variant_decl d) h = refl
deref_object-Plain c (static_object n) h = refl
deref_object-Plain c (other_object n) h = refl
