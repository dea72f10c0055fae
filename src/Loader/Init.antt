-- ===== src/Loader/Init.antt =====
-- compiler/loader.cpp, lines 741-838: `initModule` and the chain of imports that leads to a module.
use ceramic.Prelude.{
  ℕ, zero, suc, Bool, false, Option, none, some, List, [], ◌∷◌, ◌++◌, Bytes, bytes_eq, codes, ◌==◌,
  if◌then◌else◌,
}

pub data InitState : Type 0 where
  before running done : InitState

-- The fields of a `Module` that are read here; `declared` is the name in its declaration, as `toKey` gives it.
pub record Module : Type 0 where
  pub name : Bytes
  pub declared : Option Bytes
  pub imports : List ℕ
  pub init_state : InitState

-- The modules by address, and the ones whose attributes and items have been initialised, the last one first.
pub record State : Type 0 where
  pub modules : ℕ → Module
  pub initialised : List ℕ

pub data Outcome : Type 0 where
  initialised : State → Outcome
  import_loop : List Bytes → Outcome
  declared_otherwise : ℕ → Outcome
  out_of_fuel : Outcome

abbrev pub put_module : ℕ → Module → State → State
put_module m x st = record st { modules = λ k. if k == m then x else st.modules k }

abbrev pub set_state : ℕ → InitState → State → State
set_state m s st = put_module m (record (st.modules m) { init_state = s }) st

-- `none` where the module is imported by another name than the one it declares.
unfoldable pub name_module : Module → Option Module
name_module x = elim x.declared [
  | some d ↦
      if bytes_eq x.name []
      then some (record x { name = d })
      else if bytes_eq x.name d
      then some x
      else none
  | none ↦ if bytes_eq x.name [] then some (record x { name = codes "__main__" }) else some x
]

-- `!importChain.empty()` and `importChain.back() == m->moduleName`
unfoldable pub is_last : Bytes → List Bytes → Bool
is_last name [] = false
is_last name (x ∷ []) = bytes_eq x name
is_last name (x ∷ y ∷ ys) = is_last name (y ∷ ys)

-- The loop over the imports; an error ends it.
unfoldable pub init_imports : (ℕ → State → Outcome) → List ℕ → State → Outcome
init_imports init [] st = initialised st
init_imports init (i ∷ is) st = elim (init i st) [
  | initialised st' ↦ init_imports init is st'
  | import_loop c ↦ import_loop c
  | declared_otherwise m ↦ declared_otherwise m
  | out_of_fuel ↦ out_of_fuel
]

-- What follows the loop. The attributes and items are not looked into: only the order is kept.
unfoldable pub finish_module : ℕ → Outcome → Outcome
finish_module m (initialised st) =
    initialised (record (set_state m done st) { initialised = m ∷ st.initialised })
finish_module m (import_loop c) = import_loop c
finish_module m (declared_otherwise k) = declared_otherwise k
finish_module m out_of_fuel = out_of_fuel

-- Behind the checks of the name, for a module that is not done.
unfoldable pub init_named :
    (List Bytes → ℕ → State → Outcome) → List Bytes → ℕ → Module → InitState → State → Outcome
init_named init chain m x running st =
    if is_last x.name chain then initialised st else import_loop (chain ++ x.name ∷ [])
init_named init chain m x done st = initialised st
init_named init chain m x before st =
    finish_module m (init_imports (init (chain ++ x.name ∷ [])) x.imports (set_state m running st))

unfoldable pub init_step :
    (List Bytes → ℕ → State → Outcome) → List Bytes → ℕ → InitState → State → Outcome
init_step init chain m done st = initialised st
init_step init chain m s st = elim (name_module (st.modules m)) [
  | none ↦ declared_otherwise m
  | some x ↦ init_named init chain m x s (put_module m x st)
]

-- The fuel bounds the depth of the calls.
unfoldable pub init_module : ℕ → List Bytes → ℕ → State → Outcome
init_module zero chain m st = out_of_fuel
init_module (suc f) chain m st = init_step (init_module f) chain m (st.modules m).init_state st
