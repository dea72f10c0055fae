-- ===== src/Patterns/Trips.antt =====
-- compiler/patterns.cpp, lines 15-275: patterns that have a value, put together.
use ceramic.Prelude.{ℕ, ◌<◌, ◌%◌, ◌^◌, ◌≡◌, refl, Bool, true, false, Option, some, arith}
use ceramic.Patterns.Construct.{
  ◌>>=◌, static_to_type, static_to_types, elements_to_types, unwrap_params, unwrap_by_ref,
  unwrap_returns, add_unwrapped, return_type, return_types, params_fit, construct_primitive,
  construct_type,
}
use ceramic.Patterns.Deref.{
  Context, make_tuple_value, compute_struct, is_static, all_statics, if_bound, deref_pattern,
  deref_multi, deref_items, deref_tail, struct_of, prim_struct, one_pattern, by_ref_pattern,
}
use ceramic.Patterns.Objects.{
  prim_pointer, prim_tuple, prim_union, prim_static, Declaration, Object, Objects, CeramicType,
  CeramicTypes, ReturnTypes, tuple_value, type_object, prim_op, record_decl, variant_decl,
  static_elements, no_objects, add_object, number_type, pointer_type, code_pointer_type,
  ccode_pointer_type, array_type, vec_type, tuple_type, union_type, static_type, record_type,
  variant_type, other_type, no_types, add_type, no_returns, add_return, Pattern, Patterns, Head,
  head_of, no_head, no_patterns, add_pattern, type_objects,
}
use ceramic.Patterns.Plain.{ReturnFits, PlainReturns, PlainPattern, PlainPatterns}

-- The pattern is made, it has the value, and no patterns are in its values.
abbrev pub Trips : Context → Option Pattern → Object → Type 0
Trips c made o =
    (p : Pattern) × (made ≡ some p) × (deref_pattern c p ≡ some (some o)) × PlainPattern c.by_ref p

abbrev pub TripsAll : Context → Option Patterns → Objects → Type 0
TripsAll c made os =
    (ps : Patterns) × (made ≡ some ps)
    × (deref_items c ps ≡ some (some os))
    × PlainPatterns c.by_ref ps

pub trips_nil : (c : Context) → TripsAll c (some no_patterns) no_objects
unfolding deref_items
trips_nil c = (no_patterns, refl, refl, tt)

pub Trips-add :
    (c : Context) (m : Option Pattern) (o : Object) (ms : Option Patterns) (os : Objects)
    → Trips c m o
    → TripsAll c ms os
    → TripsAll c (m >>= λ p. ms >>= λ ps. some (add_pattern p ps)) (add_object o os)
unfolding deref_items ◌>>=◌ if_bound
Trips-add c m o ms os (p, e, d, w) (ps, es, ds, ws) =
    (add_pattern p ps, rw (e, es) refl, rw (d, ds) refl, (w, ws))

pub Trips-struct :
    (c : Context) (ms : Option Patterns) (h : Head) (os : Objects) (o : Object)
    → TripsAll c ms os
    → compute_struct c h os ≡ some (some o)
    → Trips c (ms >>= λ ps. some (struct_of h ps)) o
unfolding deref_pattern deref_multi deref_tail ◌>>=◌ if_bound
Trips-struct c ms h os o (ps, es, ds, ws) k =
    (struct_of h ps, rw es refl, rw (ds, k) refl, (ws, tt))

pub Trips-return :
    (c : Context) (m : Option Pattern) (b : Bool) (t : CeramicType) (ms : Option Patterns)
    (os : Objects)
    → ReturnFits c.by_ref b t
    → Trips c m (type_object t)
    → TripsAll c ms os
    → TripsAll c
        (m >>= λ p. ms >>= λ ps. some (add_pattern (by_ref_pattern c.by_ref b p) ps))
        (add_object (type_object (return_type c.by_ref b t)) os)
unfolding deref_pattern deref_multi deref_tail deref_items ◌>>=◌ if_bound by_ref_pattern
    compute_struct construct_type return_type
Trips-return c m false t ms os f (p, e, d, w) (ps, es, ds, ws) =
    (add_pattern p ps, rw (e, es) refl, rw (d, ds) refl, (w, ws))
Trips-return c m true t ms os f (p, e, d, w) (ps, es, ds, ws) = (
  add_pattern (struct_of (head_of (record_decl c.by_ref)) (one_pattern p)) ps,
  rw (e, es) refl,
  rw (d, ds, f) refl,
  (((w, tt), tt), ws),
)

pub static_to_types-type_objects : (ts : CeramicTypes) → static_to_types (type_objects ts) ≡ some ts
unfolding static_to_types type_objects static_to_type ◌>>=◌
static_to_types-type_objects no_types = refl
static_to_types-type_objects (add_type t ts) = rw (static_to_types-type_objects ts) refl

pub all_statics-type_objects : (ts : CeramicTypes) → all_statics (type_objects ts) ≡ true
unfolding all_statics is_static type_objects
all_statics-type_objects no_types = refl
all_statics-type_objects (add_type t ts) = rw (all_statics-type_objects ts) refl

pub elements_to_types-type_objects :
    (ts : CeramicTypes) → elements_to_types (static_elements (type_objects ts)) ≡ some ts
unfolding elements_to_types static_elements type_objects static_to_type ◌>>=◌
elements_to_types-type_objects no_types = refl
elements_to_types-type_objects (add_type t ts) = rw (elements_to_types-type_objects ts) refl

-- A tuple of types, as in a code pointer.
pub Trips-type_tuple :
    (c : Context) (ms : Option Patterns) (ts : CeramicTypes)
    → TripsAll c ms (type_objects ts)
    → Trips c
        (ms >>= λ ps. some (struct_of no_head ps))
        (tuple_value (static_elements (type_objects ts)))
unfolding compute_struct make_tuple_value ◌>>=◌
Trips-type_tuple c ms ts trip =
    Trips-struct c ms no_head (type_objects ts) (tuple_value (static_elements (type_objects ts)))
      trip (rw (all_statics-type_objects ts) refl)

unwrap_return :
    (r : Declaration) (b : Bool) (t : CeramicType)
    → ReturnFits r b t
    → unwrap_by_ref r (return_type r b t) ≡ some (b, t)
unfolding unwrap_by_ref return_type unwrap_params ◌>>=◌
unwrap_return r true t f = ground arith
unwrap_return r false (record_type d os) f = rw f refl
unwrap_return r false (number_type n) f = refl
unwrap_return r false (pointer_type t) f = refl
unwrap_return r false (code_pointer_type ts rs) f = refl
unwrap_return r false (ccode_pointer_type cc ts b o) f = refl
unwrap_return r false (array_type t n) f = refl
unwrap_return r false (vec_type t n) f = refl
unwrap_return r false (tuple_type ts) f = refl
unwrap_return r false (union_type ts) f = refl
unwrap_return r false (static_type o) f = refl
unwrap_return r false (variant_type d os) f = refl
unwrap_return r false (other_type n) f = refl

pub unwrap_return_types :
    (r : Declaration) (rs : ReturnTypes)
    → PlainReturns r rs
    → unwrap_returns r (return_types r rs) ≡ some rs
unfolding unwrap_returns return_types add_unwrapped ◌>>=◌
unwrap_return_types r no_returns p = refl
unwrap_return_types r (add_return b t rs) (_, f, ps) =
    rw (unwrap_return r b t f, unwrap_return_types r rs ps) refl

pub size_kept : (n : ℕ) → n < 2 ^ 32 → n % 2 ^ 32 % 2 ^ 32 ≡ n
size_kept n h = ground arith

pub trips_nil_types : (c : Context) → TripsAll c (some no_patterns) (type_objects no_types)
unfolding type_objects
trips_nil_types c = trips_nil c

pub Trips-add_type :
    (c : Context) (m : Option Pattern) (t : CeramicType) (ms : Option Patterns) (ts : CeramicTypes)
    → Trips c m (type_object t)
    → TripsAll c ms (type_objects ts)
    → TripsAll c (m >>= λ p. ms >>= λ ps. some (add_pattern p ps)) (type_objects (add_type t ts))
unfolding type_objects
Trips-add_type c m t ms ts = Trips-add c m (type_object t) ms (type_objects ts)

pub Trips-one_type :
    (c : Context) (m : Option Pattern) (t : CeramicType)
    → Trips c m (type_object t)
    → TripsAll c (m >>= λ p. some (one_pattern p)) (type_objects (add_type t no_types))
unfolding ◌>>=◌ type_objects
Trips-one_type c m t trip =
    Trips-add c m (type_object t) (some no_patterns) no_objects trip (trips_nil c)

pub trips_nil_returns :
    (c : Context) → TripsAll c (some no_patterns) (type_objects (return_types c.by_ref no_returns))
unfolding type_objects return_types
trips_nil_returns c = trips_nil c

pub Trips-add_return :
    (c : Context) (m : Option Pattern) (b : Bool) (t : CeramicType) (ms : Option Patterns)
    (rs : ReturnTypes)
    → ReturnFits c.by_ref b t
    → Trips c m (type_object t)
    → TripsAll c ms (type_objects (return_types c.by_ref rs))
    → TripsAll c
        (m >>= λ p. ms >>= λ ps. some (add_pattern (by_ref_pattern c.by_ref b p) ps))
        (type_objects (return_types c.by_ref (add_return b t rs)))
unfolding type_objects return_types
Trips-add_return c m b t ms rs = Trips-return c m b t ms (type_objects (return_types c.by_ref rs))

pub Trips-pointer :
    (c : Context) (m : Option Pattern) (t : CeramicType)
    → Trips c m (type_object t)
    → Trips c
        (m >>= λ p. some (prim_struct prim_pointer (one_pattern p)))
        (type_object (pointer_type t))
unfolding deref_pattern deref_multi deref_tail deref_items ◌>>=◌ if_bound compute_struct
    construct_type construct_primitive static_to_type
Trips-pointer c m t (p, e, d, w) =
    (prim_struct prim_pointer (one_pattern p), rw e refl, rw d refl, ((w, tt), tt))

pub Trips-static :
    (c : Context) (m : Option Pattern) (o : Object)
    → Trips c m o
    → Trips c
        (m >>= λ p. some (prim_struct prim_static (one_pattern p)))
        (type_object (static_type o))
unfolding deref_pattern deref_multi deref_tail deref_items ◌>>=◌ if_bound compute_struct
    construct_type construct_primitive
Trips-static c m o (p, e, d, w) =
    (prim_struct prim_static (one_pattern p), rw e refl, rw d refl, ((w, tt), tt))

pub compute_tuple :
    (c : Context) (ts : CeramicTypes)
    → compute_struct c (head_of (prim_op prim_tuple)) (type_objects ts)
      ≡ some (some (type_object (tuple_type ts)))
unfolding compute_struct construct_type construct_primitive ◌>>=◌
compute_tuple c ts = rw (static_to_types-type_objects ts) refl

pub compute_union :
    (c : Context) (ts : CeramicTypes)
    → compute_struct c (head_of (prim_op prim_union)) (type_objects ts)
      ≡ some (some (type_object (union_type ts)))
unfolding compute_struct construct_type construct_primitive ◌>>=◌
compute_union c ts = rw (static_to_types-type_objects ts) refl

pub compute_record :
    (c : Context) (d : Declaration) (os : Objects)
    → params_fit d os ≡ true
    → compute_struct c (head_of (record_decl d)) os ≡ some (some (type_object (record_type d os)))
unfolding compute_struct construct_type ◌>>=◌
compute_record c d os h = rw h refl

pub compute_variant :
    (c : Context) (d : Declaration) (os : Objects)
    → params_fit d os ≡ true
    → compute_struct c (head_of (variant_decl d)) os ≡ some (some (type_object (variant_type d os)))
unfolding compute_struct construct_type ◌>>=◌
compute_variant c d os h = rw h refl
