-- ===== src/Patterns/Compound.antt =====
-- compiler/patterns.cpp, lines 115-210, and compiler/analyzer.cpp, lines 1200-1240: types with several parts.
use ceramic.Prelude.{ℕ, ◌<◌, ◌^◌, ◌≡◌, refl, Bool, Option, some}
use ceramic.Patterns.Construct.{
  ◌>>=◌, static_to_type, static_to_type_tuple, static_to_int, static_to_bool,
  static_to_calling_conv, return_types, c_return, make_vec_type, construct_primitive,
  construct_type,
}
use ceramic.Patterns.Deref.{
  Context, make_tuple_value, compute_struct, if_bound, deref_pattern, deref_object, deref_multi,
  deref_items, deref_tail, cc_attribute, struct_of, prim_struct, two_patterns, size_pattern,
}
use ceramic.Patterns.Objects.{
  prim_code_pointer, prim_external_code_pointer, prim_array, prim_vec, CallingConv, cc_default,
  cc_stdcall, cc_fastcall, cc_thiscall, cc_llvm, CeramicType, CeramicTypes, ReturnTypes, OptType,
  bool_value, type_object, prim_op, code_pointer_type, ccode_pointer_type, array_type, vec_type,
  no_types, add_type, no_type, a_type, Pattern, Patterns, no_head, add_pattern, pattern_cell,
  type_objects,
}
use ceramic.Patterns.Plain.{IsNumber, PlainReturns}
use ceramic.Patterns.Trips.{
  Trips, TripsAll, size_kept, all_statics-type_objects, unwrap_return_types,
  elements_to_types-type_objects,
}

pub Trips-code_pointer :
    (c : Context) (ms ns : Option Patterns) (args : CeramicTypes) (rs : ReturnTypes)
    → PlainReturns c.by_ref rs
    → TripsAll c ms (type_objects args)
    → TripsAll c ns (type_objects (return_types c.by_ref rs))
    → Trips c
        (ms >>= λ ps. ns >>= λ qs. some (
          prim_struct prim_code_pointer
            (two_patterns (struct_of no_head ps) (struct_of no_head qs))))
        (type_object (code_pointer_type args rs))
unfolding deref_pattern deref_multi deref_tail deref_items ◌>>=◌ if_bound compute_struct
    construct_type construct_primitive static_to_type_tuple make_tuple_value
Trips-code_pointer c ms ns args rs plain (ps, e, d, w) (qs, k, g, v) = (
  prim_struct prim_code_pointer (two_patterns (struct_of no_head ps) (struct_of no_head qs)),
  rw (e, k) refl,
  rw
      (
        d,
        g,
        all_statics-type_objects args,
        all_statics-type_objects (return_types c.by_ref rs),
        elements_to_types-type_objects args,
        elements_to_types-type_objects (return_types c.by_ref rs),
        unwrap_return_types c.by_ref rs plain,
      )
      refl,
  (((w, tt), ((v, tt), tt)), tt),
)

calling_cc_attribute :
    (conv : CallingConv) → static_to_calling_conv (prim_op (cc_attribute conv)) ≡ some conv
unfolding static_to_calling_conv cc_attribute
calling_cc_attribute cc_default = refl
calling_cc_attribute cc_stdcall = refl
calling_cc_attribute cc_fastcall = refl
calling_cc_attribute cc_thiscall = refl
calling_cc_attribute cc_llvm = refl

abbrev pub opt_types : OptType → CeramicTypes
opt_types no_type = no_types
opt_types (a_type t) = add_type t no_types

c_return_lem : (o : OptType) → c_return (opt_types o) ≡ some o
unfolding c_return
c_return_lem no_type = refl
c_return_lem (a_type t) = refl

pub Trips-ccode_pointer :
    (c : Context) (conv : CallingConv) (b : Bool) (ms ns : Option Patterns) (args : CeramicTypes)
    (o : OptType)
    → TripsAll c ms (type_objects args)
    → TripsAll c ns (type_objects (opt_types o))
    → Trips c
        (ms >>= λ ps. ns >>= λ qs. some (
          prim_struct prim_external_code_pointer (
            add_pattern (pattern_cell (prim_op (cc_attribute conv))) (
              add_pattern
                (pattern_cell (bool_value b))
                (two_patterns (struct_of no_head ps) (struct_of no_head qs))))))
        (type_object (ccode_pointer_type conv args b o))
unfolding deref_pattern deref_object deref_multi deref_tail deref_items ◌>>=◌ if_bound
    compute_struct construct_type construct_primitive static_to_type_tuple static_to_bool
    make_tuple_value
Trips-ccode_pointer c conv b ms ns args o (ps, e, d, w) (qs, k, g, v) = (
  prim_struct prim_external_code_pointer (
      add_pattern (pattern_cell (prim_op (cc_attribute conv))) (
        add_pattern (pattern_cell (bool_value b))
          (two_patterns (struct_of no_head ps) (struct_of no_head qs)))),
  rw (e, k) refl,
  rw
      (
        d,
        g,
        all_statics-type_objects args,
        all_statics-type_objects (opt_types o),
        calling_cc_attribute conv,
        elements_to_types-type_objects args,
        elements_to_types-type_objects (opt_types o),
        c_return_lem o,
      )
      refl,
  ((tt, (tt, ((w, tt), ((v, tt), tt)))), tt),
)

pub Trips-array :
    (c : Context) (m : Option Pattern) (t : CeramicType) (n : ℕ)
    → n < 2 ^ 32
    → Trips c m (type_object t)
    → Trips c
        (m >>= λ p. some (prim_struct prim_array (two_patterns p (size_pattern n))))
        (type_object (array_type t n))
unfolding deref_pattern deref_object deref_multi deref_tail deref_items ◌>>=◌ if_bound
    compute_struct construct_type construct_primitive static_to_type static_to_int size_pattern
Trips-array c m t n h (p, e, d, w) = (
  prim_struct prim_array (two_patterns p (size_pattern n)),
  rw e refl,
  rw (d, size_kept n h) refl,
  ((w, (tt, tt)), tt),
)

pub Trips-vec :
    (c : Context) (m : Option Pattern) (t : CeramicType) (n : ℕ)
    → IsNumber t
    → n < 2 ^ 32
    → Trips c m (type_object t)
    → Trips c
        (m >>= λ p. some (prim_struct prim_vec (two_patterns p (size_pattern n))))
        (type_object (vec_type t n))
unfolding deref_pattern deref_object deref_multi deref_tail deref_items ◌>>=◌ if_bound
    compute_struct construct_type construct_primitive static_to_type static_to_int size_pattern
    make_vec_type
Trips-vec c m t n (k, number) h (p, e, d, w) = (
  prim_struct prim_vec (two_patterns p (size_pattern n)),
  rw e refl,
  rw (d, size_kept n h, number) refl,
  ((w, (tt, tt)), tt),
)
