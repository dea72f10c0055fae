-- ===== src/Env/Module.antt =====
-- compiler/ceramic.hpp, lines 1923-2068: imports, modules and the store that holds them. An object
-- or a module is its address; the objects themselves are not looked into here.
use ceramic.Prelude.{ℕ, Bool, false, Option, List, [], ◌∷◌, ◌++◌, Bytes, ◌==◌, if◌then◌else◌, ◌||◌}

-- The parser leaves no `VISIBILITY_UNDEFINED` in an import or a member.
pub data Visibility : Type 0 where
  public private : Visibility

-- `visibility`, `name` and `alias` of a member that an import names.
pub record ImportedMember : Type 0 where
  pub visibility : Visibility
  pub name : Bytes
  pub alias : Option Bytes

-- `import a.b as c`, with the parts of the dotted name; `import a.*`; `import a.(b, c)`. The second
-- argument of the last two is the address of the module.
pub data Import : Type 0 where
  import_module : Visibility → Option Bytes → List Bytes → Import
  import_star : Visibility → ℕ → Import
  import_members : Visibility → ℕ → List ImportedMember → Import

-- `ImportSet` is a list of objects with no repetition, in the order of insertion.
abbrev pub Symbols : Type 0
Symbols = List (Bytes × List ℕ)

unfoldable pub contains_object : ℕ → List ℕ → Bool
contains_object o [] = false
contains_object o (x ∷ xs) = x == o || contains_object o xs

-- `ImportSet::insert`
unfoldable pub insert_object : ℕ → List ℕ → List ℕ
unfolding contains_object
insert_object o xs = if contains_object o xs then xs else xs ++ o ∷ []

pub record Module : Type 0 where
  pub imports : List Import
  pub globals : List (Bytes × ℕ)
  pub public_globals : List (Bytes × ℕ)
  pub public_symbols : Symbols
  pub all_symbols : Symbols
  pub public_symbols_loading : ℕ
  pub all_symbols_loading : ℕ
  pub public_symbols_loaded : Bool
  pub all_symbols_loaded : Bool
  pub is_intrinsics_module : Bool

-- The modules, by address.
abbrev pub Store : Type 0
Store = ℕ → Module

abbrev pub update : Store → ℕ → Module → Store
update st m x k = if k == m then x else st k

-- The errors that env.cpp raises, with the name that they are about.
pub data Message : Type 0 where
  name_redefined name_imported_already imported_name_not_found : Bytes → Message
  ambiguous_import undefined_name duplicate_name : Bytes → Message
  not_in_alias : Message

pub data Result {ℓ} (A : Type ℓ) : Type ℓ where
  ok : A → Result A
  failed : Message → Result A
  out_of_fuel : Result A

-- Code that changes the store.
abbrev pub M : Type 0 → Type 0
M A = Store → Result (A × Store)

infixl 5 ◌>>=◌ ◌>>◌
unfoldable pub ◌>>=◌ : {A B : Type 0} → M A → (A → M B) → M B
◌>>=◌ m f st = elim (m st) [
  | ok (a, st') ↦ f a st'
  | failed e ↦ failed e
  | out_of_fuel ↦ out_of_fuel
]

unfoldable pub ◌>>◌ : {A B : Type 0} → M A → M B → M B
unfolding ◌>>=◌
m >> k = m >>= λ _. k

unfoldable pub pure : {A : Type 0} → A → M A
pure a st = ok (a, st)

unfoldable pub raise : {A : Type 0} → Message → M A
raise e st = failed e

unfoldable pub read : {A : Type 0} → (Store → A) → M A
read f st = ok (f st, st)

unfoldable pub change : ℕ → (Module → Module) → M (Unit {0})
change m f st = ok (tt, update st m (f (st m)))
