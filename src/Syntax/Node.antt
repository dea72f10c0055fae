-- ===== src/Syntax/Node.antt =====
-- compiler/ceramic.hpp, lines 559-1350: what the nodes of the tree hold besides other nodes.
use ceramic.Prelude.{ℕ, Bool, Option, Bytes}

-- The source, by address, with the offset; `none` where it is not set.
abbrev pub Location : Type 0
Location = Option (ℕ × ℕ)

pub record Identifier : Type 0 where
  pub str : Bytes
  pub is_operator : Bool
  pub location : Location

-- `location`, `startLocation` and `endLocation` of an expression.
pub record Place : Type 0 where
  pub location : Location
  pub start_location : Location
  pub end_location : Location

pub data VariadicOpKind : Type 0 where
  dereference address_of not_op prefix_op infix_op if_op : VariadicOpKind

pub data LambdaCapture : Type 0 where
  ref_capture value_capture stateless : LambdaCapture

pub data BindingKind : Type 0 where
  var_binding ref_binding alias_binding forward_binding : BindingKind

pub data ReturnKind : Type 0 where
  return_value return_ref return_forward : ReturnKind

pub data ValueTempness : Type 0 where
  dont_care lvalue rvalue forward_value : ValueTempness

pub record PatternVar : Type 0 where
  pub name : Identifier
  pub is_multi : Bool

-- Where a synthetic expression or statement is evaluated: in a module, by name, or in an environment.
pub data Foreign : Type 0 where
  module_named : Bytes → Foreign
  foreign_env : ℕ → Foreign

-- The object of an `ObjectExpr`: a module, an identifier, a value of `SizeT`, what the module of primitives or
-- of operators has under a name, or another one, by address.
pub data Object : Type 0 where
  module_object : ℕ → Object
  identifier_object : Identifier → Object
  size_value : ℕ → Object
  primitive_named operator_named : Bytes → Object
  other_object : ℕ → Object
