-- ===== src/Patterns/Deref.antt =====
-- compiler/patterns.cpp, lines 15-275: the value of a pattern, and the pattern of a value.
use ceramic.Prelude.{ℕ, ◌%◌, ◌^◌, Bool, true, false, Option, none, some, if◌then◌else◌}
use ceramic.Patterns.Construct.{◌>>=◌, construct_type}
use ceramic.Patterns.Objects.{
  PrimOp, prim_pointer, prim_code_pointer, prim_external_code_pointer, prim_array, prim_vec,
  prim_tuple, prim_union, prim_static, attribute_ccall, attribute_std_call, attribute_fast_call,
  attribute_this_call, attribute_llvm_call, CallingConv, cc_default, cc_stdcall, cc_fastcall,
  cc_thiscall, cc_llvm, Declaration, Object, Objects, CeramicType, CeramicTypes, ReturnTypes,
  OptType, pattern_object, multi_pattern_object, Elements, no_elements, static_element,
  value_element, static_elements, tuple_value, int_value, bool_value, type_object, prim_op,
  record_decl, variant_decl, static_object, no_objects, add_object, pointer_type, code_pointer_type,
  ccode_pointer_type, array_type, vec_type, tuple_type, union_type, static_type, record_type,
  variant_type, no_types, add_type, no_type, a_type, no_returns, add_return, Pattern, Patterns,
  MultiPattern, OptMultiPattern, Head, cell_at, pattern_cell, pattern_struct, no_head, head_of,
  no_patterns, add_pattern, multi_cell_at, multi_list, no_tail, a_tail, append_objects,
}

-- What the functions take from elsewhere: the values of the cells, the evaluator on a tuple of values that are
-- not all static, and `primitive_ByRef()`. Values are as those of `derefDeep`.
pub record Context : Type 0 where
  pub one : ℕ → Option (Option Object)
  pub many : ℕ → Option (Option Objects)
  pub evaluate_tuple : Objects → Option Object
  pub by_ref : Declaration

unfoldable pub is_static : Object → Bool
is_static (type_object t) = true
is_static (prim_op p) = true
is_static (record_decl d) = true
is_static (variant_decl d) = true
is_static (static_object n) = true
is_static o = false

unfoldable pub all_statics : Objects → Bool
all_statics no_objects = true
all_statics (add_object o os) = if is_static o then all_statics os else false

unfoldable pub make_tuple_value : Context → Objects → Option Object
make_tuple_value c os =
    if all_statics os then some (tuple_value (static_elements os)) else c.evaluate_tuple os

unfoldable pub compute_struct : Context → Head → Objects → Option (Option Object)
compute_struct c no_head os = make_tuple_value c os >>= λ o. some (some o)
compute_struct c (head_of o) os = construct_type c.by_ref o os >>= λ t. some (some (type_object t))

-- A null result is passed on.
unfoldable pub if_bound : {A B : Type 0} → Option A → (A → Option (Option B)) → Option (Option B)
if_bound none f = some none
if_bound (some a) f = f a

-- `none` is an error, `some none` a null pointer.
unfoldable mutual
  pub deref_pattern : Context → Pattern → Option (Option Object)
  deref_pattern c (cell_at a) = c.one a
  deref_pattern c (pattern_cell o) = deref_object c o
  deref_pattern c (pattern_struct h m) = deref_multi c m >>= λ r. if_bound r (compute_struct c h)

  pub deref_object : Context → Object → Option (Option Object)
  deref_object c (pattern_object p) = deref_pattern c p
  deref_object c o = some (some o)

  pub deref_multi : Context → MultiPattern → Option (Option Objects)
  deref_multi c (multi_cell_at a) = c.many a
  deref_multi c (multi_list ps tail) =
      deref_items c ps >>= λ r. if_bound r λ os. deref_tail c tail os

  pub deref_items : Context → Patterns → Option (Option Objects)
  deref_items c no_patterns = some (some no_objects)
  deref_items c (add_pattern p ps) = deref_pattern c p >>= λ r.
      if_bound r λ o. deref_items c ps >>= λ rs. if_bound rs λ os. some (some (add_object o os))

  pub deref_tail : Context → OptMultiPattern → Objects → Option (Option Objects)
  deref_tail c no_tail os = some (some os)
  deref_tail c (a_tail m) os =
      deref_multi c m >>= λ r. if_bound r λ tail. some (some (append_objects os tail))

unfoldable pub cc_attribute : CallingConv → PrimOp
cc_attribute cc_default = attribute_ccall
cc_attribute cc_stdcall = attribute_std_call
cc_attribute cc_fastcall = attribute_fast_call
cc_attribute cc_thiscall = attribute_this_call
cc_attribute cc_llvm = attribute_llvm_call

abbrev pub struct_of : Head → Patterns → Pattern
struct_of h ps = pattern_struct h (multi_list ps no_tail)

abbrev pub prim_struct : PrimOp → Patterns → Pattern
prim_struct p ps = struct_of (head_of (prim_op p)) ps

abbrev pub one_pattern : Pattern → Patterns
one_pattern p = add_pattern p no_patterns

abbrev pub two_patterns : Pattern → Pattern → Patterns
two_patterns p1 p2 = add_pattern p1 (one_pattern p2)

-- The conversion to `int` keeps the 32 bits.
unfoldable pub size_pattern : ℕ → Pattern
size_pattern n = pattern_cell (int_value (n % 2 ^ 32))

-- Recursion under `ByRef` is on the type, whose pattern the record's is made of.
unfoldable pub by_ref_pattern : Declaration → Bool → Pattern → Pattern
by_ref_pattern by_ref true p = struct_of (head_of (record_decl by_ref)) (one_pattern p)
by_ref_pattern by_ref false p = p

unfoldable mutual
  pub object_to_pattern : Declaration → Object → Option Pattern
  object_to_pattern by_ref (pattern_object p) = some p
  object_to_pattern by_ref (multi_pattern_object m) = none
  object_to_pattern by_ref (tuple_value es) =
      elements_to_patterns by_ref es >>= λ ps. some (struct_of no_head ps)
  object_to_pattern by_ref (type_object t) = type_to_pattern by_ref t
  object_to_pattern by_ref o = some (pattern_cell o)

  -- The elements by `evalueToStatic`, which takes the object out of a static one.
  pub elements_to_patterns : Declaration → Elements → Option Patterns
  elements_to_patterns by_ref no_elements = some no_patterns
  elements_to_patterns by_ref (static_element o es) = object_to_pattern by_ref o >>= λ p.
      elements_to_patterns by_ref es >>= λ ps. some (add_pattern p ps)
  elements_to_patterns by_ref (value_element o es) = object_to_pattern by_ref o >>= λ p.
      elements_to_patterns by_ref es >>= λ ps. some (add_pattern p ps)

  pub objects_to_patterns : Declaration → Objects → Option Patterns
  objects_to_patterns by_ref no_objects = some no_patterns
  objects_to_patterns by_ref (add_object o os) = object_to_pattern by_ref o >>= λ p.
      objects_to_patterns by_ref os >>= λ ps. some (add_pattern p ps)

  pub type_to_pattern : Declaration → CeramicType → Option Pattern
  type_to_pattern by_ref (pointer_type t) =
      type_to_pattern by_ref t >>= λ p. some (prim_struct prim_pointer (one_pattern p))
  type_to_pattern by_ref (code_pointer_type args returns) = types_to_patterns by_ref args >>= λ ps.
      returns_to_patterns by_ref returns >>= λ qs.
      some
        (prim_struct prim_code_pointer (two_patterns (struct_of no_head ps) (struct_of no_head qs)))
  type_to_pattern by_ref (ccode_pointer_type cc args has_var_args r) =
      types_to_patterns by_ref args >>= λ ps. opt_to_patterns by_ref r >>= λ qs. some (
        prim_struct prim_external_code_pointer (
          add_pattern (pattern_cell (prim_op (cc_attribute cc))) (
            add_pattern (pattern_cell (bool_value has_var_args))
              (two_patterns (struct_of no_head ps) (struct_of no_head qs)))))
  type_to_pattern by_ref (array_type t n) = type_to_pattern by_ref t >>= λ p.
      some (prim_struct prim_array (two_patterns p (size_pattern n)))
  type_to_pattern by_ref (vec_type t n) = type_to_pattern by_ref t >>= λ p.
      some (prim_struct prim_vec (two_patterns p (size_pattern n)))
  type_to_pattern by_ref (tuple_type ts) =
      types_to_patterns by_ref ts >>= λ ps. some (prim_struct prim_tuple ps)
  type_to_pattern by_ref (union_type ts) =
      types_to_patterns by_ref ts >>= λ ps. some (prim_struct prim_union ps)
  type_to_pattern by_ref (static_type o) =
      object_to_pattern by_ref o >>= λ p. some (prim_struct prim_static (one_pattern p))
  type_to_pattern by_ref (record_type d os) =
      objects_to_patterns by_ref os >>= λ ps. some (struct_of (head_of (record_decl d)) ps)
  type_to_pattern by_ref (variant_type d os) =
      objects_to_patterns by_ref os >>= λ ps. some (struct_of (head_of (variant_decl d)) ps)
  type_to_pattern by_ref t = some (pattern_cell (type_object t))

  pub types_to_patterns : Declaration → CeramicTypes → Option Patterns
  types_to_patterns by_ref no_types = some no_patterns
  types_to_patterns by_ref (add_type t ts) = type_to_pattern by_ref t >>= λ p.
      types_to_patterns by_ref ts >>= λ ps. some (add_pattern p ps)

  pub returns_to_patterns : Declaration → ReturnTypes → Option Patterns
  returns_to_patterns by_ref no_returns = some no_patterns
  returns_to_patterns by_ref (add_return is_ref t rs) = type_to_pattern by_ref t >>= λ p.
      returns_to_patterns by_ref rs >>= λ ps. some (add_pattern (by_ref_pattern by_ref is_ref p) ps)

  pub opt_to_patterns : Declaration → OptType → Option Patterns
  opt_to_patterns by_ref no_type = some no_patterns
  opt_to_patterns by_ref (a_type t) = type_to_pattern by_ref t >>= λ p. some (one_pattern p)
