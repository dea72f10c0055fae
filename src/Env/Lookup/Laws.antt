-- ===== src/Env/Lookup/Laws.antt =====
-- compiler/env.cpp, lines 11-26 and 301-356: a global that is added is found.
use ceramic.Prelude.{ℕ, ◌≡◌, some, List, [], ◌∷◌, Bytes, bytes_eq_iff, find-put, arith}
use ceramic.Env.Module.{
  Visibility, public, private, Store, ok, contains_object, insert_object, ◌>>=◌, ◌>>◌, pure, raise,
  read, change,
}
use ceramic.Env.Symbols.{Intrinsic, symbol_set, insert_symbol}
use ceramic.Env.Lookup.{
  with_global, add_global, only_object, load_if_missing, private_or_prelude, lookup_private,
}

symbol_set-insert_symbol :
    (name : Bytes) (o : ℕ) (s : List (Bytes × List ℕ))
    → symbol_set name s ≡ []
    → symbol_set name (insert_symbol name o s) ≡ o ∷ []
unfolding insert_symbol symbol_set insert_object contains_object
symbol_set-insert_symbol name o s h =
    ground (arith, find-put name name (o ∷ []) s, bytes_eq_iff name name)

lookup_private_found :
    (f : ℕ) (is : List Intrinsic) (prelude m : ℕ) (name : Bytes) (value : ℕ) (st : Store)
    → symbol_set name (st m).all_symbols ≡ value ∷ []
    → lookup_private f is prelude m name st ≡ ok (some value, st)
unfolding lookup_private load_if_missing private_or_prelude only_object ◌>>=◌ ◌>>◌ pure read
lookup_private_found f is prelude m name value st h = ground arith

add_global-symbol_set :
    (m : ℕ) (name : Bytes) (v : Visibility) (value : ℕ) (st st' : Store)
    → symbol_set name (st m).all_symbols ≡ []
    → add_global m name v value st ≡ ok (tt, st')
    → symbol_set name (st' m).all_symbols ≡ value ∷ []
unfolding add_global with_global ◌>>=◌ read raise change
add_global-symbol_set m name public value st st' h e =
    ground (arith, symbol_set-insert_symbol name value (st m).all_symbols h)
add_global-symbol_set m name private value st st' h e =
    ground (arith, symbol_set-insert_symbol name value (st m).all_symbols h)

-- A global that `addGlobal` accepts is what a private lookup of its name in that module finds, with no
-- module loaded for it, where no symbol of the name is recorded yet.
pub lookup_private-add_global :
    (f : ℕ) (is : List Intrinsic) (prelude m : ℕ) (name : Bytes) (v : Visibility) (value : ℕ)
    (st st' : Store)
    → symbol_set name (st m).all_symbols ≡ []
    → add_global m name v value st ≡ ok (tt, st')
    → lookup_private f is prelude m name st' ≡ ok (some value, st')
lookup_private-add_global f is prelude m name v value st st' h e =
    lookup_private_found f is prelude m name value st'
      (add_global-symbol_set m name v value st st' h e)
