-- ===== src/Patterns/Unify.antt =====
-- compiler/patterns.cpp, lines 278-465: unification. A list with an index is the items from there on.
pub mod Sound
pub mod Empty
pub mod Equal
use ceramic.Prelude.{ℕ, zero, suc, Bool, true, false, Option, none, some, ◌==◌, if◌then◌else◌}
use ceramic.Patterns.Deref.{object_to_pattern}
use ceramic.Patterns.Objects.{
  PrimOp, prim_pointer, prim_code_pointer, prim_external_code_pointer, prim_array, prim_vec,
  prim_tuple, prim_union, prim_static, attribute_ccall, attribute_std_call, attribute_fast_call,
  attribute_this_call, attribute_llvm_call, other_prim, Declaration, Object, pattern_object,
  prim_op, record_decl, variant_decl, Kind, kind_pattern, kind_multi, kind_other, object_kind,
  Pattern, Patterns, MultiPattern, OptMultiPattern, Head, cell_at, pattern_cell, pattern_struct,
  no_head, head_of, no_patterns, add_pattern, multi_cell_at, multi_list, no_tail, a_tail,
}

-- The cells that were made empty: `PatternCell::obj` and `MultiPatternCell::data`, by address.
pub record Store : Type 0 where
  pub cells : ℕ → Option Object
  pub multi_cells : ℕ → Option MultiPattern

unfoldable pub fill : {A : Type 0} → ℕ → A → (ℕ → Option A) → ℕ → Option A
fill a x f b = if a == b then some x else f b

unfoldable pub fill_cell : ℕ → Object → Store → Store
fill_cell a o st = record st { cells = fill a o st.cells }

unfoldable pub fill_multi : ℕ → MultiPattern → Store → Store
fill_multi a m st = record st { multi_cells = fill a m st.multi_cells }

-- `==` on the addresses of heads, and `objectEquals`.
pub record Equality : Type 0 where
  pub same_head : Head → Head → Bool
  pub object_equals : Object → Object → Bool

-- Fuel bounds the nesting of calls. `none` is an error or the end of the fuel; `false` leaves the cells that were
-- filled on the way.
unfoldable mutual
  pub unify_objects : Equality → Declaration → ℕ → Object → Object → Store → Option (Bool × Store)
  unify_objects q r zero x y st = none
  unify_objects q r (suc f) x y st = unify_kinds q r f (object_kind x) (object_kind y) x y st

  pub unify_kinds :
      Equality → Declaration → ℕ → Kind → Kind → Object → Object → Store → Option (Bool × Store)
  unify_kinds q r zero j k x y st = none
  unify_kinds q r (suc f) (kind_pattern p) k x y st = unify_object_pattern q r f y p st
  unify_kinds q r (suc f) kind_multi k x y st = none
  unify_kinds q r (suc f) kind_other (kind_pattern p) x y st = unify_object_pattern q r f x p st
  unify_kinds q r (suc f) kind_other kind_multi x y st = none
  unify_kinds q r (suc f) kind_other kind_other x y st = some (q.object_equals x y, st)

  pub unify_object_pattern :
      Equality → Declaration → ℕ → Object → Pattern → Store → Option (Bool × Store)
  unify_object_pattern q r zero x p st = none
  unify_object_pattern q r (suc f) x p st = unify_kind_pattern q r f (object_kind x) x p st

  pub unify_kind_pattern :
      Equality → Declaration → ℕ → Kind → Object → Pattern → Store → Option (Bool × Store)
  unify_kind_pattern q r zero k x p st = none
  unify_kind_pattern q r (suc f) (kind_pattern p') x p st = unify q r f p' p st
  unify_kind_pattern q r (suc f) kind_multi x p st = none
  unify_kind_pattern q r (suc f) kind_other x (cell_at a) st =
      unify_object_cell q r f (st.cells a) a x st
  unify_kind_pattern q r (suc f) kind_other x (pattern_cell o) st = unify_objects q r f o x st
  unify_kind_pattern q r (suc f) kind_other x (pattern_struct h m) st =
      unify_object_struct q r f (object_to_pattern r x) h m st

  pub unify_object_cell :
      Equality → Declaration → ℕ → Option Object → ℕ → Object → Store → Option (Bool × Store)
  unify_object_cell q r zero c a x st = none
  unify_object_cell q r (suc f) none a x st = some (true, fill_cell a x st)
  unify_object_cell q r (suc f) (some o) a x st = unify_objects q r f o x st

  pub unify_object_struct :
      Equality
      → Declaration
      → ℕ
      → Option Pattern
      → Head
      → MultiPattern
      → Store
      → Option (Bool × Store)
  unify_object_struct q r zero p h m st = none
  unify_object_struct q r (suc f) none h m st = none
  unify_object_struct q r (suc f) (some (cell_at a)) h m st = some (false, st)
  unify_object_struct q r (suc f) (some (pattern_cell o)) h m st = some (false, st)
  unify_object_struct q r (suc f) (some (pattern_struct h' m')) h m st =
      unify_params q r f (q.same_head h' h) m' m st

  pub unify_params :
      Equality
      → Declaration
      → ℕ
      → Bool
      → MultiPattern
      → MultiPattern
      → Store
      → Option (Bool × Store)
  unify_params q r zero same m n st = none
  unify_params q r (suc f) false m n st = some (false, st)
  unify_params q r (suc f) true m n st = unify_multi q r f m n st

  pub unify : Equality → Declaration → ℕ → Pattern → Pattern → Store → Option (Bool × Store)
  unify q r zero p p' st = none
  unify q r (suc f) (cell_at a) p st = unify_cell q r f (st.cells a) a p st
  unify q r (suc f) (pattern_cell o) p st = unify_object_pattern q r f o p st
  unify q r (suc f) (pattern_struct h m) (cell_at a) st =
      unify_cell q r f (st.cells a) a (pattern_struct h m) st
  unify q r (suc f) (pattern_struct h m) (pattern_cell o) st =
      unify_object_pattern q r f o (pattern_struct h m) st
  unify q r (suc f) (pattern_struct h m) (pattern_struct h' m') st =
      unify_params q r f (q.same_head h h') m m' st

  pub unify_cell :
      Equality → Declaration → ℕ → Option Object → ℕ → Pattern → Store → Option (Bool × Store)
  unify_cell q r zero c a p st = none
  unify_cell q r (suc f) none a p st = some (true, fill_cell a (pattern_object p) st)
  unify_cell q r (suc f) (some o) a p st = unify_object_pattern q r f o p st

  pub unify_multi :
      Equality → Declaration → ℕ → MultiPattern → MultiPattern → Store → Option (Bool × Store)
  unify_multi q r zero m n st = none
  unify_multi q r (suc f) (multi_cell_at a) n st = unify_multi_cell q r f (st.multi_cells a) a n st
  unify_multi q r (suc f) (multi_list ps tail) n st = unify_list_multi q r f ps tail n st

  pub unify_multi_cell :
      Equality
      → Declaration
      → ℕ
      → Option MultiPattern
      → ℕ
      → MultiPattern
      → Store
      → Option (Bool × Store)
  unify_multi_cell q r zero c a n st = none
  unify_multi_cell q r (suc f) none a n st = some (true, fill_multi a n st)
  unify_multi_cell q r (suc f) (some m) a n st = unify_multi q r f m n st

  pub unify_list_multi :
      Equality
      → Declaration
      → ℕ
      → Patterns
      → OptMultiPattern
      → MultiPattern
      → Store
      → Option (Bool × Store)
  unify_list_multi q r zero ps tail n st = none
  unify_list_multi q r (suc f) ps tail (multi_cell_at a) st =
      unify_list_cell q r f (st.multi_cells a) a ps tail st
  unify_list_multi q r (suc f) ps tail (multi_list ps' tail') st =
      unify_lists q r f ps tail ps' tail' st

  pub unify_list_cell :
      Equality
      → Declaration
      → ℕ
      → Option MultiPattern
      → ℕ
      → Patterns
      → OptMultiPattern
      → Store
      → Option (Bool × Store)
  unify_list_cell q r zero c a ps tail st = none
  unify_list_cell q r (suc f) none a ps tail st = some (true, fill_multi a (multi_list ps tail) st)
  unify_list_cell q r (suc f) (some m) a ps tail st = unify_list_multi q r f ps tail m st

  pub unify_lists :
      Equality
      → Declaration
      → ℕ
      → Patterns
      → OptMultiPattern
      → Patterns
      → OptMultiPattern
      → Store
      → Option (Bool × Store)
  unify_lists q r zero ps tail ps' tail' st = none
  unify_lists q r (suc f) (add_pattern p ps) tail (add_pattern p' ps') tail' st =
      unify_rest q r f (unify q r f p p' st) ps tail ps' tail'
  unify_lists q r (suc f) (add_pattern p ps) tail no_patterns no_tail st = some (false, st)
  unify_lists q r (suc f) (add_pattern p ps) tail no_patterns (a_tail m) st =
      unify_list_multi q r f (add_pattern p ps) tail m st
  unify_lists q r (suc f) no_patterns (a_tail m) ps' tail' st =
      unify_list_multi q r f ps' tail' m st
  unify_lists q r (suc f) no_patterns no_tail ps' tail' st = unify_empty_list f ps' tail' st

  -- The items after the first, where those two unify.
  pub unify_rest :
      Equality
      → Declaration
      → ℕ
      → Option (Bool × Store)
      → Patterns
      → OptMultiPattern
      → Patterns
      → OptMultiPattern
      → Option (Bool × Store)
  unify_rest q r zero first ps tail ps' tail' = none
  unify_rest q r (suc f) none ps tail ps' tail' = none
  unify_rest q r (suc f) (some (false, st)) ps tail ps' tail' = some (false, st)
  unify_rest q r (suc f) (some (true, st)) ps tail ps' tail' =
      unify_lists q r f ps tail ps' tail' st

  pub unify_empty_list : ℕ → Patterns → OptMultiPattern → Store → Option (Bool × Store)
  unify_empty_list zero ps tail st = none
  unify_empty_list (suc f) (add_pattern p ps) tail st = some (false, st)
  unify_empty_list (suc f) no_patterns no_tail st = some (true, st)
  unify_empty_list (suc f) no_patterns (a_tail m) st = unify_empty f m st

  pub unify_empty : ℕ → MultiPattern → Store → Option (Bool × Store)
  unify_empty zero m st = none
  unify_empty (suc f) (multi_cell_at a) st = unify_empty_cell f (st.multi_cells a) a st
  unify_empty (suc f) (multi_list ps tail) st = unify_empty_list f ps tail st

  pub unify_empty_cell : ℕ → Option MultiPattern → ℕ → Store → Option (Bool × Store)
  unify_empty_cell zero c a st = none
  unify_empty_cell (suc f) none a st = some (true, fill_multi a (multi_list no_patterns no_tail) st)
  unify_empty_cell (suc f) (some m) a st = unify_empty f m st
