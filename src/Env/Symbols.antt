-- ===== src/Env/Symbols.antt =====
-- compiler/env.cpp, lines 132-299: the symbols of a module, its own and the imported ones.
pub mod Keeps
pub mod Total
pub mod Imported
use ceramic.Prelude.{
  ℕ, zero, suc, ◌+◌, ◌-◌, Bool, true, false, not, ◌&&◌, Option, none, some, List, [], ◌∷◌, ◌++◌,
  Bytes, bytes_eq, contains, drop, find, put, leb, ◌==◌, if◌then◌else◌,
}
use ceramic.Env.Module.{
  Visibility, public, private, ImportedMember, Import, import_module, import_star, import_members,
  Symbols, insert_object, Module, Store, M, Message, name_imported_already, imported_name_not_found,
  out_of_fuel, ◌>>=◌, ◌>>◌, pure, raise, read, change,
}

-- LLVM's intrinsics, which no file of the repository lists: their names, each with the address of
-- the object that is made for the public symbols and of the one made for all symbols.
pub record Intrinsic : Type 0 where
  pub name : Bytes
  pub public_object : ℕ
  pub all_object : ℕ

-- `publicSymbols` and `allSymbols`, chosen by `publicOnly`.
abbrev pub symbols_of : Bool → Module → Symbols
symbols_of true x = x.public_symbols
symbols_of false x = x.all_symbols

abbrev pub loaded_of : Bool → Module → Bool
loaded_of true x = x.public_symbols_loaded
loaded_of false x = x.all_symbols_loaded

abbrev pub loading_of : Bool → Module → ℕ
loading_of true x = x.public_symbols_loading
loading_of false x = x.all_symbols_loading

abbrev pub with_symbols : Bool → Symbols → Module → Module
with_symbols true s x = record x { public_symbols = s }
with_symbols false s x = record x { all_symbols = s }

abbrev pub with_loading : Bool → ℕ → Module → Module
with_loading true n x = record x { public_symbols_loading = n }
with_loading false n x = record x { all_symbols_loading = n }

abbrev pub with_loaded : Bool → Module → Module
with_loaded true x = record x { public_symbols_loaded = true }
with_loaded false x = record x { all_symbols_loaded = true }

-- `operator[]` of the map: a missing entry is the empty set.
unfoldable pub symbol_set : Bytes → Symbols → List ℕ
symbol_set name s = elim (find name s) [ none ↦ [] | some objs ↦ objs ]

unfoldable pub insert_symbol : Bytes → ℕ → Symbols → Symbols
insert_symbol name o s = put name (insert_object o (symbol_set name s)) s

undot : Bytes → Bytes
undot [] = []
undot (c ∷ cs) = (if c == b'.' then b'_' else c) ∷ undot cs

-- Without `llvm.` in front, and with `_` for each dot.
unfoldable pub intrinsic_identifier : Bytes → Bytes
unfolding undot
intrinsic_identifier name = undot (drop 5 name)

unfoldable pub intrinsic_symbols : List Intrinsic → Symbols × Symbols → Symbols × Symbols
intrinsic_symbols [] tables = tables
intrinsic_symbols (i ∷ is) (pubs, alls) =
    let name = intrinsic_identifier i.name in
    intrinsic_symbols is
      (insert_symbol name i.public_object pubs, insert_symbol name i.all_object alls)

unfoldable pub get_intrinsic_symbols : List Intrinsic → Module → Module
get_intrinsic_symbols is x =
    let (pubs, alls) = intrinsic_symbols is ([], []) in
    record x {
      public_symbols = pubs;
      all_symbols = alls;
      public_symbols_loaded = true;
      all_symbols_loaded = true;
    }

-- `insertImported`: the new `result` and `specificImported`, or `none` for its error.
unfoldable pub insert_imported :
    Bytes → ℕ → List (Bytes × ℕ) → Symbols → List Bytes → Bool → Option (Symbols × List Bytes)
insert_imported name value globals result specific is_specific =
    if contains specific name
    then (if is_specific then none else some (result, specific))
    else elim (find name globals) [
      | some _ ↦ some (result, specific)
      | none ↦
          if is_specific
          then some (put name (insert_object value []) result, name ∷ specific)
          else some (insert_symbol name value result, specific)
    ]

-- One call on the table of module `m` that is being built.
unfoldable pub import_object : Bool → ℕ → Bytes → Bool → List Bytes → ℕ → M (List Bytes)
import_object public_only m name is_specific specific value = do
  x ← read (λ st. st m)
  elim (insert_imported name value x.globals (symbols_of public_only x) specific is_specific) [
    | none ↦ raise (name_imported_already name)
    | some (result, specific') ↦ change m (with_symbols public_only result) >> pure specific'
  ]

unfoldable pub import_objects : Bool → ℕ → Bytes → Bool → List Bytes → List ℕ → M (List Bytes)
import_objects public_only m name is_specific specific [] = pure specific
import_objects public_only m name is_specific specific (o ∷ os) =
    import_object public_only m name is_specific specific o >>= λ specific'.
    import_objects public_only m name is_specific specific' os

unfoldable pub import_table : Bool → ℕ → List Bytes → Symbols → M (List Bytes)
import_table public_only m specific [] = pure specific
import_table public_only m specific ((name, objs) ∷ table) =
    import_objects public_only m name false specific objs >>= λ specific'.
    import_table public_only m specific' table

abbrev pub is_private : Visibility → Bool
is_private private = true
is_private public = false

abbrev pub alias_or : Option Bytes → Bytes → Bytes
alias_or none name = name
alias_or (some alias) name = alias

unfoldable pub import_member : Bool → ℕ → List Bytes → ImportedMember → List ℕ → M (List Bytes)
import_member public_only m specific z [] = raise (imported_name_not_found z.name)
import_member public_only m specific z (o ∷ os) =
    import_objects public_only m (alias_or z.alias z.name) true specific (o ∷ os)

unfoldable pub import_members_of : Bool → ℕ → ℕ → List Bytes → List ImportedMember → M (List Bytes)
import_members_of public_only m source specific [] = pure specific
import_members_of public_only m source specific (z ∷ zs) =
    read (λ st. symbol_set z.name (symbols_of (not (is_private z.visibility)) (st source)))
    >>= λ objs. import_member public_only m specific z objs >>= λ specific'.
        import_members_of public_only m source specific' zs

-- The name that `import a` or `import a.b as c` brings in.
unfoldable pub module_name : Option Bytes → List Bytes → Option Bytes
module_name (some alias) parts = some alias
module_name none (part ∷ []) = some part
module_name none parts = none

unfoldable pub import_name : List Bytes → Option Bytes → M (List Bytes)
import_name specific none = pure specific
import_name specific (some name) =
    if contains specific name then raise (name_imported_already name) else pure (name ∷ specific)

abbrev pub import_visibility : Import → Visibility
import_visibility (import_module v _ _) = v
import_visibility (import_star v _) = v
import_visibility (import_members v _ _) = v

-- `get` is `getPublicSymbols` or `getAllSymbols`, by its first argument.
unfoldable pub import_one :
    (Bool → ℕ → M (Unit {0})) → Bool → ℕ → List Bytes → Import → M (List Bytes)
import_one get public_only m specific (import_module v alias parts) =
    import_name specific (module_name alias parts)
import_one get public_only m specific (import_star v source) =
    get true source
    >> (read (λ st. (st source).public_symbols) >>= import_table public_only m specific)
import_one get public_only m specific (import_members v source members) =
    get true source >> (get false source >> import_members_of public_only m source specific members)

unfoldable pub import_all :
    (Bool → ℕ → M (Unit {0})) → Bool → ℕ → List Bytes → List Import → M (Unit {0})
import_all get public_only m specific [] = pure tt
import_all get public_only m specific (i ∷ is) =
    if public_only && is_private (import_visibility i)
    then import_all get public_only m specific is
    else import_one get public_only m specific i >>= λ specific'.
        import_all get public_only m specific' is

unfoldable pub add_imported_symbols : (Bool → ℕ → M (Unit {0})) → Bool → ℕ → M (Unit {0})
add_imported_symbols get public_only m =
    read (λ st. (st m).imports) >>= import_all get public_only m []

unfoldable pub load_symbols : (Bool → ℕ → M (Unit {0})) → List Intrinsic → Bool → ℕ → M (Unit {0})
load_symbols get is public_only m = do
  x ← read (λ st. st m)
  if loaded_of public_only x
      then pure tt
      else if leb 1 (loading_of public_only x)
      then pure tt
      else if x.is_intrinsics_module
      then change m (get_intrinsic_symbols is)
      else change m (λ y. with_loading public_only (loading_of public_only y + 1) y)
        >> (add_imported_symbols get public_only m
            >> change m (λ y. with_loading public_only (loading_of public_only y - 1) y))

-- `getPublicSymbols` (true) and `getAllSymbols` (false). They return the table of the module, which
-- the callers here read from the store. The fuel bounds the depth of the calls.
unfoldable pub get_symbols : ℕ → List Intrinsic → Bool → ℕ → M (Unit {0})
get_symbols zero is public_only m st = out_of_fuel
get_symbols (suc f) is public_only m st = load_symbols (get_symbols f is) is public_only m st
