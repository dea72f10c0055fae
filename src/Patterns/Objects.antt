-- ===== src/Patterns/Objects.antt =====
-- compiler/ceramic.hpp, lines 2179-2460, and compiler/loader.hpp: static values, their types, and patterns of them.
use ceramic.Prelude.{ℕ, zero, suc, Bool}

pub data PrimOp : Type 0 where
  prim_pointer prim_code_pointer prim_external_code_pointer prim_array prim_vec prim_tuple
        prim_union prim_static :
      PrimOp
  attribute_ccall attribute_std_call attribute_fast_call attribute_this_call attribute_llvm_call :
      PrimOp
  other_prim : ℕ → PrimOp

pub data CallingConv : Type 0 where
  cc_default cc_stdcall cc_fastcall cc_thiscall cc_llvm : CallingConv

-- A record or variant: its address, how many parameters it has, and whether it has a `varParam`.
pub record Declaration : Type 0 where
  pub address : ℕ
  pub params : ℕ
  pub var_param : Bool

mutual
  -- A `VALUE_HOLDER` of a tuple has its elements; an `Int` has the 32 bits of its value. `static_object` is a PROCEDURE, INTRINSIC, GLOBAL_ALIAS, MODULE or IDENTIFIER.
  pub data Object : Type 0 where
    pattern_object : Pattern → Object
    multi_pattern_object : MultiPattern → Object
    tuple_value : Elements → Object
    int_value : ℕ → Object
    bool_value : Bool → Object
    other_value : ℕ → Object
    type_object : CeramicType → Object
    prim_op : PrimOp → Object
    record_decl : Declaration → Object
    variant_decl : Declaration → Object
    static_object : ℕ → Object
    other_object : ℕ → Object

  pub data Objects : Type 0 where
    no_objects : Objects
    add_object : Object → Objects → Objects

  -- An element of a type `Static[o]`, which holds nothing else, or one of another type, as a `VALUE_HOLDER`.
  pub data Elements : Type 0 where
    no_elements : Elements
    static_element value_element : Object → Elements → Elements

  -- The class `Type`.
  pub data CeramicType : Type 0 where
    number_type : ℕ → CeramicType
    pointer_type : CeramicType → CeramicType
    code_pointer_type : CeramicTypes → ReturnTypes → CeramicType
    ccode_pointer_type : CallingConv → CeramicTypes → Bool → OptType → CeramicType
    array_type : CeramicType → ℕ → CeramicType
    vec_type : CeramicType → ℕ → CeramicType
    tuple_type : CeramicTypes → CeramicType
    union_type : CeramicTypes → CeramicType
    static_type : Object → CeramicType
    record_type : Declaration → Objects → CeramicType
    variant_type : Declaration → Objects → CeramicType
    other_type : ℕ → CeramicType

  pub data CeramicTypes : Type 0 where
    no_types : CeramicTypes
    add_type : CeramicType → CeramicTypes → CeramicTypes

  pub data OptType : Type 0 where
    no_type : OptType
    a_type : CeramicType → OptType

  -- `returnTypes` with `returnIsRef`.
  pub data ReturnTypes : Type 0 where
    no_returns : ReturnTypes
    add_return : Bool → CeramicType → ReturnTypes → ReturnTypes

  -- A cell that is made empty has an address; one that is made with an object keeps it.
  pub data Pattern : Type 0 where
    cell_at : ℕ → Pattern
    pattern_cell : Object → Pattern
    pattern_struct : Head → MultiPattern → Pattern

  -- `PatternStruct::head`, which may be null.
  pub data Head : Type 0 where
    no_head : Head
    head_of : Object → Head

  pub data Patterns : Type 0 where
    no_patterns : Patterns
    add_pattern : Pattern → Patterns → Patterns

  -- Every cell for many values is made empty.
  pub data MultiPattern : Type 0 where
    multi_cell_at : ℕ → MultiPattern
    multi_list : Patterns → OptMultiPattern → MultiPattern

  pub data OptMultiPattern : Type 0 where
    no_tail : OptMultiPattern
    a_tail : MultiPattern → OptMultiPattern

unfoldable pub count : Objects → ℕ
count no_objects = zero
count (add_object o os) = suc (count os)

unfoldable pub append_objects : Objects → Objects → Objects
append_objects no_objects bs = bs
append_objects (add_object o os) bs = add_object o (append_objects os bs)

abbrev pub one_object : Object → Objects
one_object o = add_object o no_objects

abbrev pub two_objects : Object → Object → Objects
two_objects o1 o2 = add_object o1 (one_object o2)

-- The types as objects.
unfoldable pub type_objects : CeramicTypes → Objects
type_objects no_types = no_objects
type_objects (add_type t ts) = add_object (type_object t) (type_objects ts)

-- `evalueToStatic` of each element.
unfoldable pub evalue_to_statics : Elements → Objects
evalue_to_statics no_elements = no_objects
evalue_to_statics (static_element o es) = add_object o (evalue_to_statics es)
evalue_to_statics (value_element o es) = add_object o (evalue_to_statics es)

-- Elements of the types `staticType(o)`.
unfoldable pub static_elements : Objects → Elements
static_elements no_objects = no_elements
static_elements (add_object o os) = static_element o (static_elements os)

-- Whether `objKind` is PATTERN, MULTI_PATTERN or another.
pub data Kind : Type 0 where
  kind_pattern : Pattern → Kind
  kind_multi : Kind
  kind_other : Kind

unfoldable pub object_kind : Object → Kind
object_kind (pattern_object p) = kind_pattern p
object_kind (multi_pattern_object m) = kind_multi
object_kind o = kind_other
