-- ===== src/Patterns/Construct.antt =====
-- compiler/analyzer.cpp, lines 107-206 and 1173-1268: the type that a constructor makes of static values.
use ceramic.Prelude.{ℕ, ◌%◌, ◌^◌, Bool, true, false, Option, none, some, ◌==◌, leb, if◌then◌else◌}
use ceramic.Patterns.Objects.{
  PrimOp, prim_pointer, prim_code_pointer, prim_external_code_pointer, prim_array, prim_vec,
  prim_tuple, prim_union, prim_static, attribute_ccall, attribute_std_call, attribute_fast_call,
  attribute_this_call, attribute_llvm_call, CallingConv, cc_default, cc_stdcall, cc_fastcall,
  cc_thiscall, cc_llvm, Declaration, Object, Objects, CeramicType, CeramicTypes, ReturnTypes,
  OptType, Elements, no_elements, static_element, value_element, tuple_value, int_value, bool_value,
  type_object, prim_op, record_decl, variant_decl, no_objects, add_object, number_type,
  pointer_type, code_pointer_type, ccode_pointer_type, array_type, vec_type, tuple_type, union_type,
  static_type, record_type, variant_type, no_types, add_type, no_type, a_type, no_returns,
  add_return, count,
}

infixl 5 ◌>>=◌
unfoldable pub ◌>>=◌ : {A B : Type 0} → Option A → (A → Option B) → Option B
none >>= f = none
some a >>= f = f a

unfoldable pub static_to_type : Object → Option CeramicType
static_to_type (type_object t) = some t
static_to_type o = none

-- The loops over `args`.
unfoldable pub static_to_types : Objects → Option CeramicTypes
static_to_types no_objects = some no_types
static_to_types (add_object o os) = do
  t ← static_to_type o
  ts ← static_to_types os
  some (add_type t ts)

-- The element types of the tuple are to be static, of types.
unfoldable pub elements_to_types : Elements → Option CeramicTypes
elements_to_types no_elements = some no_types
elements_to_types (static_element o es) = do
  t ← static_to_type o
  ts ← elements_to_types es
  some (add_type t ts)
elements_to_types (value_element o es) = none

unfoldable pub static_to_type_tuple : Object → Option CeramicTypes
static_to_type_tuple (type_object t) = some (add_type t no_types)
static_to_type_tuple (tuple_value es) = elements_to_types es
static_to_type_tuple o = none

unfoldable pub static_to_int : Object → Option ℕ
static_to_int (int_value n) = some n
static_to_int o = none

unfoldable pub static_to_bool : Object → Option Bool
static_to_bool (bool_value b) = some b
static_to_bool o = none

unfoldable pub static_to_calling_conv : Object → Option CallingConv
static_to_calling_conv (prim_op attribute_ccall) = some cc_default
static_to_calling_conv (prim_op attribute_std_call) = some cc_stdcall
static_to_calling_conv (prim_op attribute_fast_call) = some cc_fastcall
static_to_calling_conv (prim_op attribute_this_call) = some cc_thiscall
static_to_calling_conv (prim_op attribute_llvm_call) = some cc_llvm
static_to_calling_conv o = none

-- The type without `ByRef`, with whether it had it; an assertion that fails gives `none`.
unfoldable pub unwrap_params : Objects → Option CeramicType
unwrap_params (add_object (type_object t) no_objects) = some t
unwrap_params os = none

unfoldable pub unwrap_by_ref : Declaration → CeramicType → Option (Bool × CeramicType)
unwrap_by_ref by_ref (record_type d os) =
    if d.address == by_ref.address
    then (unwrap_params os >>= λ t. some (true, t))
    else some (false, record_type d os)
unwrap_by_ref by_ref t = some (false, t)

unfoldable pub add_unwrapped : Bool × CeramicType → ReturnTypes → ReturnTypes
add_unwrapped (b, t) rs = add_return b t rs

unfoldable pub unwrap_returns : Declaration → CeramicTypes → Option ReturnTypes
unwrap_returns by_ref no_types = some no_returns
unwrap_returns by_ref (add_type t ts) = do
  r ← unwrap_by_ref by_ref t
  rs ← unwrap_returns by_ref ts
  some (add_unwrapped r rs)

-- More than one return type is an error.
unfoldable pub c_return : CeramicTypes → Option OptType
c_return no_types = some no_type
c_return (add_type t no_types) = some (a_type t)
c_return ts = none

-- The element type of a Vec is an integer or a float.
unfoldable pub make_vec_type : CeramicType → ℕ → Option CeramicType
make_vec_type (number_type k) n = some (vec_type (number_type k) n)
make_vec_type t n = none

-- `ensureArity`, or `arityError2` with a `varParam`.
unfoldable pub params_fit : Declaration → Objects → Bool
params_fit d os = if d.var_param then leb d.params (count os) else count os == d.params

unfoldable pub construct_primitive : Declaration → PrimOp → Objects → Option CeramicType
construct_primitive by_ref prim_pointer (add_object o no_objects) =
    static_to_type o >>= λ t. some (pointer_type t)
construct_primitive by_ref prim_code_pointer (add_object o1 (add_object o2 no_objects)) = do
  args ← static_to_type_tuple o1
  returns ← static_to_type_tuple o2
  rs ← unwrap_returns by_ref returns
  some (code_pointer_type args rs)
construct_primitive by_ref prim_external_code_pointer
      (add_object o1 (add_object o2 (add_object o3 (add_object o4 no_objects)))) =
    do
      cc ← static_to_calling_conv o1
      has_var_args ← static_to_bool o2
      args ← static_to_type_tuple o3
      returns ← static_to_type_tuple o4
      r ← c_return returns
      some (ccode_pointer_type cc args has_var_args r)
construct_primitive by_ref prim_array (add_object o1 (add_object o2 no_objects)) = do
  t ← static_to_type o1
  n ← static_to_int o2
  some (array_type t (n % 2 ^ 32))
construct_primitive by_ref prim_vec (add_object o1 (add_object o2 no_objects)) = do
  t ← static_to_type o1
  n ← static_to_int o2
  make_vec_type t (n % 2 ^ 32)
construct_primitive by_ref prim_tuple os = static_to_types os >>= λ ts. some (tuple_type ts)
construct_primitive by_ref prim_union os = static_to_types os >>= λ ts. some (union_type ts)
construct_primitive by_ref prim_static (add_object o no_objects) = some (static_type o)
construct_primitive by_ref p os = none

unfoldable pub construct_type : Declaration → Object → Objects → Option CeramicType
construct_type by_ref (prim_op p) os = construct_primitive by_ref p os
construct_type by_ref (record_decl d) os = if params_fit d os then some (record_type d os) else none
construct_type by_ref (variant_decl d) os =
    if params_fit d os then some (variant_type d os) else none
construct_type by_ref o os = none

-- The type that `unwrapByRef` takes apart, which `recordType` makes of `ByRef` and the type.
unfoldable pub return_type : Declaration → Bool → CeramicType → CeramicType
return_type by_ref true t = record_type by_ref (add_object (type_object t) no_objects)
return_type by_ref false t = t

unfoldable pub return_types : Declaration → ReturnTypes → CeramicTypes
return_types by_ref no_returns = no_types
return_types by_ref (add_return b t rs) = add_type (return_type by_ref b t) (return_types by_ref rs)
