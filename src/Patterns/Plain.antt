-- ===== src/Patterns/Plain.antt =====
-- compiler/patterns.cpp, lines 81-275: the values that `objectToPattern` is for.
use ceramic.Prelude.{ℕ, ◌<◌, ◌^◌, ◌≡◌, refl, Bool, true, false, not, ◌||◌, ◌==◌}
use ceramic.Patterns.Construct.{params_fit}
use ceramic.Patterns.Objects.{
  Kind, kind_pattern, kind_multi, kind_other, object_kind, MultiPattern, OptMultiPattern, cell_at,
  pattern_struct, multi_cell_at, multi_list, no_tail, a_tail, Declaration, Object, Objects,
  CeramicType, CeramicTypes, ReturnTypes, OptType, pattern_object, multi_pattern_object, Elements,
  no_elements, static_element, value_element, tuple_value, int_value, bool_value, other_value,
  type_object, prim_op, record_decl, variant_decl, static_object, other_object, no_objects,
  add_object, number_type, pointer_type, code_pointer_type, ccode_pointer_type, array_type,
  vec_type, tuple_type, union_type, static_type, record_type, variant_type, other_type, no_types,
  add_type, no_type, a_type, no_returns, add_return, Pattern, Patterns, no_patterns, add_pattern,
  pattern_cell, no_patterns, add_pattern, one_object,
}

-- A type that a function returns by value.
abbrev pub NotByRef : Declaration → CeramicType → Type 0
NotByRef by_ref (record_type d os) = (d.address == by_ref.address) ≡ false
NotByRef by_ref t = Unit

abbrev pub ReturnFits : Declaration → Bool → CeramicType → Type 0
ReturnFits by_ref true t = params_fit by_ref (one_object (type_object t)) ≡ true
ReturnFits by_ref false t = NotByRef by_ref t

abbrev pub IsNumber : CeramicType → Type 0
IsNumber t = (k : ℕ) × (t ≡ number_type k)

abbrev pub takes_params : Declaration → Bool
takes_params d = not (d.params == 0) || d.var_param

-- What stands for itself in an expression, and is no value of the program: not a record or variant without
-- parameters, which stands for its type.
abbrev pub is_kept : Object → Bool
is_kept (type_object t) = true
is_kept (prim_op p) = true
is_kept (record_decl d) = takes_params d
is_kept (variant_decl d) = takes_params d
is_kept (static_object n) = true
is_kept o = false

-- Whether an object is a `VALUE_HOLDER`.
abbrev pub is_value : Object → Bool
is_value (tuple_value es) = true
is_value (int_value n) = true
is_value (bool_value b) = true
is_value (other_value n) = true
is_value o = false

-- A value without patterns in it, whose types the program can make: parameters as their declaration has, sizes
-- of 32 bits. The static elements of its tuples stand for themselves, so that none is a value like that of `#3`.
abbrev mutual
  pub PlainObject : Declaration → Object → Type 0
  PlainObject r (pattern_object p) = ⊥
  PlainObject r (multi_pattern_object m) = ⊥
  PlainObject r (tuple_value es) = PlainElements r es
  PlainObject r (int_value n) = Unit
  PlainObject r (bool_value b) = Unit
  PlainObject r (other_value n) = Unit
  PlainObject r (type_object t) = PlainType r t
  PlainObject r (prim_op p) = Unit
  PlainObject r (record_decl d) = Unit
  PlainObject r (variant_decl d) = Unit
  PlainObject r (static_object n) = Unit
  PlainObject r (other_object n) = Unit

  pub PlainElements : Declaration → Elements → Type 0
  PlainElements r no_elements = Unit
  PlainElements r (static_element o es) = (PlainObject r o × is_kept o ≡ true) × PlainElements r es
  PlainElements r (value_element o es) = (PlainObject r o × is_value o ≡ true) × PlainElements r es

  pub PlainObjects : Declaration → Objects → Type 0
  PlainObjects r no_objects = Unit
  PlainObjects r (add_object o os) = PlainObject r o × PlainObjects r os

  pub PlainType : Declaration → CeramicType → Type 0
  PlainType r (number_type n) = Unit
  PlainType r (pointer_type t) = PlainType r t
  PlainType r (code_pointer_type ts rs) = PlainTypes r ts × PlainReturns r rs
  PlainType r (ccode_pointer_type cc ts b o) = PlainTypes r ts × PlainOptType r o
  PlainType r (array_type t n) = PlainType r t × (n < 2 ^ 32)
  PlainType r (vec_type t n) = PlainType r t × IsNumber t × (n < 2 ^ 32)
  PlainType r (tuple_type ts) = PlainTypes r ts
  PlainType r (union_type ts) = PlainTypes r ts
  PlainType r (static_type o) = PlainObject r o
  PlainType r (record_type d os) = PlainObjects r os × (params_fit d os ≡ true)
  PlainType r (variant_type d os) = PlainObjects r os × (params_fit d os ≡ true)
  PlainType r (other_type n) = Unit

  pub PlainTypes : Declaration → CeramicTypes → Type 0
  PlainTypes r no_types = Unit
  PlainTypes r (add_type t ts) = PlainType r t × PlainTypes r ts

  pub PlainOptType : Declaration → OptType → Type 0
  PlainOptType r no_type = Unit
  PlainOptType r (a_type t) = PlainType r t

  pub PlainReturns : Declaration → ReturnTypes → Type 0
  PlainReturns r no_returns = Unit
  PlainReturns r (add_return b t rs) = PlainType r t × ReturnFits r b t × PlainReturns r rs

-- A pattern whose values, but for those in cells, have no patterns in them.
abbrev mutual
  pub PlainPattern : Declaration → Pattern → Type 0
  PlainPattern r (cell_at a) = Unit
  PlainPattern r (pattern_cell o) = PlainOrPattern r o
  PlainPattern r (pattern_struct h m) = PlainMulti r m

  pub PlainOrPattern : Declaration → Object → Type 0
  PlainOrPattern r (pattern_object p) = PlainPattern r p
  PlainOrPattern r o = PlainObject r o

  pub PlainMulti : Declaration → MultiPattern → Type 0
  PlainMulti r (multi_cell_at a) = Unit
  PlainMulti r (multi_list ps tail) = PlainPatterns r ps × PlainTail r tail

  pub PlainPatterns : Declaration → Patterns → Type 0
  PlainPatterns r no_patterns = Unit
  PlainPatterns r (add_pattern p ps) = PlainPattern r p × PlainPatterns r ps

  pub PlainTail : Declaration → OptMultiPattern → Type 0
  PlainTail r no_tail = Unit
  PlainTail r (a_tail m) = PlainMulti r m

-- What a value is by its kind.
abbrev pub KindIs : Declaration → Kind → Object → Type 0
KindIs r (kind_pattern p) o = (o ≡ pattern_object p) × PlainPattern r p
KindIs r kind_multi o = ⊥
KindIs r kind_other o = PlainObject r o × (PlainOrPattern r o)

pub object_kind_lem :
    (r : Declaration) (o : Object) → PlainOrPattern r o → KindIs r (object_kind o) o
unfolding object_kind
object_kind_lem r (pattern_object p) h = (refl, h)
object_kind_lem r (multi_pattern_object m) h = h
object_kind_lem r (tuple_value os) h = (h, h)
object_kind_lem r (int_value n) h = (h, h)
object_kind_lem r (bool_value b) h = (h, h)
object_kind_lem r (other_value n) h = (h, h)
object_kind_lem r (type_object t) h = (h, h)
object_kind_lem r (prim_op q) h = (h, h)
object_kind_lem r (record_decl d) h = (h, h)
object_kind_lem r (variant_decl d) h = (h, h)
object_kind_lem r (static_object n) h = (h, h)
object_kind_lem r (other_object n) h = (h, h)

pub plain_or : (r : Declaration) (o : Object) → PlainObject r o → PlainOrPattern r o
plain_or r (pattern_object p) h = elim h [ ]
plain_or r (multi_pattern_object m) h = h
plain_or r (tuple_value os) h = h
plain_or r (int_value n) h = h
plain_or r (bool_value b) h = h
plain_or r (other_value n) h = h
plain_or r (type_object t) h = h
plain_or r (prim_op q) h = h
plain_or r (record_decl d) h = h
plain_or r (variant_decl d) h = h
plain_or r (static_object n) h = h
plain_or r (other_object n) h = h
