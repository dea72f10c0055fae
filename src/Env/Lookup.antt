-- ===== src/Env/Lookup.antt =====
-- compiler/env.cpp, lines 11-26 and 301-356: globals, and names looked up in a module.
pub mod Laws
use ceramic.Prelude.{
  ℕ, Bool, true, false, Option, none, some, List, [], ◌∷◌, Bytes, find, put, ◌==◌, if◌then◌else◌,
}
use ceramic.Env.Module.{
  Visibility, public, private, Symbols, Module, Store, update, M, Message, name_redefined,
  ambiguous_import, undefined_name, ◌>>=◌, ◌>>◌, pure, raise, read, change,
}
use ceramic.Env.Symbols.{
  Intrinsic, symbols_of, loaded_of, with_loaded, symbol_set, insert_symbol, get_symbols,
}

-- The module with the global added, as `addGlobal` does where the name is new.
unfoldable pub with_global : Bytes → Visibility → ℕ → Module → Module
with_global name public value x = record x {
  globals = put name value x.globals;
  all_symbols = insert_symbol name value x.all_symbols;
  public_globals = put name value x.public_globals;
  public_symbols = insert_symbol name value x.public_symbols;
}
with_global name private value x = record x {
  globals = put name value x.globals;
  all_symbols = insert_symbol name value x.all_symbols;
}

unfoldable pub add_global : ℕ → Bytes → Visibility → ℕ → M (Unit {0})
add_global m name visibility value = do
  x ← read (λ st. st m)
  elim (find name x.globals) [
    | some _ ↦ raise (name_redefined name)
    | none ↦ change m (with_global name visibility value)
  ]

-- The set that is found, once it is known which: none of it, the one object, or an error.
unfoldable pub only_object : Bytes → List ℕ → M (Option ℕ)
only_object name [] = pure none
only_object name (o ∷ []) = pure (some o)
only_object name (o ∷ p ∷ os) = raise (ambiguous_import name)

-- The first round of the `retry` loop, where the name is not there and the table is not loaded.
unfoldable pub load_if_missing : ℕ → List Intrinsic → Bool → ℕ → Bytes → M (Unit {0})
load_if_missing f is public_only m name = do
  x ← read (λ st. st m)
  elim (symbol_set name (symbols_of public_only x)) [
    | o ∷ os ↦ pure tt
    | [] ↦
        if loaded_of public_only x
        then pure tt
        else get_symbols f is public_only m >> change m (with_loaded public_only)
  ]

unfoldable pub lookup_public : ℕ → List Intrinsic → ℕ → Bytes → M (Option ℕ)
lookup_public f is m name =
    load_if_missing f is true m name
    >> (read (λ st. symbol_set name (st m).public_symbols) >>= only_object name)

unfoldable pub safe_lookup_public : ℕ → List Intrinsic → ℕ → Bytes → M ℕ
safe_lookup_public f is m name = do
  x ← lookup_public f is m name
  elim x [ none ↦ raise (undefined_name name) | some o ↦ pure o ]

-- The second round of the loop in `lookupPrivate`: a module that has not the name asks the prelude.
unfoldable pub private_or_prelude : ℕ → List Intrinsic → ℕ → ℕ → Bytes → List ℕ → M (Option ℕ)
private_or_prelude f is prelude m name [] =
    if m == prelude then pure none else lookup_public f is prelude name
private_or_prelude f is prelude m name (o ∷ os) = only_object name (o ∷ os)

unfoldable pub lookup_private : ℕ → List Intrinsic → ℕ → ℕ → Bytes → M (Option ℕ)
lookup_private f is prelude m name =
    load_if_missing f is false m name
    >> (read (λ st. symbol_set name (st m).all_symbols) >>= private_or_prelude f is prelude m name)
