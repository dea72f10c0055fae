-- ===== src/Env/Tests.antt =====
-- Imports and environments on concrete modules, and their theorems at concrete inputs.
use ceramic.Prelude.{
  ℕ, zero, suc, ◌≡◌, refl, true, false, not, Option, none, some, List, [], ◌∷◌, Bytes, bytes_eq,
  codes, find, put, if◌then◌else◌, arith,
}
use ceramic.Env.EditDistance.{edit_distance, levenshtein, edit_distance-levenshtein}
use ceramic.Env.Lookup.{
  load_if_missing, only_object, with_global, add_global, lookup_private, lookup_public,
}
use ceramic.Env.Lookup.Laws.{lookup_private-add_global}
use ceramic.Env.Module.{
  public, private, import_star, Module, Store, update, M, Result, ok, ◌>>=◌, ◌>>◌, pure, raise,
  read, change, insert_object, contains_object,
}
use ceramic.Env.Scope.{
  Frame, Env, in_module, inside, add_local, lookup_env, lookup_env_ex, found_locally,
  safe_lookup_env, Found,
}
use ceramic.Env.Scope.Laws.{
  object_only, lookup_env_ex-object, lookup_env_ex-flags, lookup_env-add_local, binds, frames,
  in_front,
}
use ceramic.Env.Symbols.{
  get_symbols, load_symbols, add_imported_symbols, import_all, import_one, import_table,
  import_objects, import_object, insert_imported, symbol_set, insert_symbol,
}
use ceramic.Env.Symbols.Imported.{insert_between, named_import_wins}
use ceramic.Env.Symbols.Keeps.{Ends, IsClosed, Same}
use ceramic.Env.Symbols.Total.{get_symbols-Ends}

kitten : edit_distance (codes "kitten") (codes "sitting") ≡ 3
unfolding edit_distance
kitten = refl

edit_distance-levenshtein_example :
    edit_distance (codes "ab") (codes "cab") ≡ levenshtein (codes "ba") (codes "bac")
edit_distance-levenshtein_example =
    edit_distance-levenshtein (codes "ab") (codes "cab") (omega arith)

-- A module with a public global, that imports all of the module at an address.
abbrev importing : ℕ → Bytes → ℕ → Module
importing source name value = record {
  imports = import_star public source ∷ [];
  globals = (name, value) ∷ [];
  public_globals = (name, value) ∷ [];
  public_symbols = (name, value ∷ []) ∷ [];
  all_symbols = (name, value ∷ []) ∷ [];
  public_symbols_loading = 0;
  all_symbols_loading = 0;
  public_symbols_loaded = false;
  all_symbols_loaded = false;
  is_intrinsics_module = false;
}

-- Two modules, at 0 and 1, that import each other.
abbrev circle : Store
circle zero = importing 1 (codes "f") 10
circle (suc _) = importing 0 (codes "g") 20

abbrev public_set : ℕ → Bytes → Result (Option ℕ × Store) → Option (Option ℕ)
public_set m name (ok (o, st)) = some o
public_set m name r = none

circle-sees : public_set 0 (codes "g") (lookup_public 6 [] 0 (codes "g") circle) ≡ some (some 20)
unfolding lookup_public get_symbols ◌>>◌ ◌>>=◌ load_if_missing only_object read symbol_set find put
    load_symbols change add_imported_symbols import_all import_one pure import_table import_objects
    import_object insert_imported insert_symbol contains_object insert_object raise
circle-sees = refl

circle-IsClosed : IsClosed 2 circle
circle-IsClosed zero h = ((omega arith), tt)
circle-IsClosed (suc k) h = ((omega arith), tt)

get_symbols-Ends_example : Ends (λ _ st'. Same circle st') (get_symbols 5 [] true 0 circle)
get_symbols-Ends_example =
    get_symbols-Ends 5 2 [] true 0 circle (omega arith) circle-IsClosed (omega arith)

named_import_wins_example :
    (final : List (Bytes × List ℕ)) × (insert_between
        (codes "f")
        (1 ∷ 2 ∷ [])
        3
        (4 ∷ [])
        []
        ([], [])
      ≡ some (final, codes "f" ∷ []))
    × (symbol_set (codes "f") final ≡ 3 ∷ [])
unfolding find
named_import_wins_example = named_import_wins (codes "f") (1 ∷ 2 ∷ []) (4 ∷ []) 3 [] [] [] refl refl

abbrev grown : Store
grown = update circle 0 (with_global (codes "h") private 30 (circle 0))

add_global-grown : add_global 0 (codes "h") private 30 circle ≡ ok (tt, grown)
unfolding add_global ◌>>=◌ read change find
add_global-grown = refl

symbol_set-circle : symbol_set (codes "h") (circle 0).all_symbols ≡ []
unfolding symbol_set find
symbol_set-circle = refl

lookup_private-add_global_example : lookup_private 9 [] 1 0 (codes "h") grown ≡ ok (some 30, grown)
lookup_private-add_global_example =
    lookup_private-add_global 9 [] 1 0 (codes "h") private 30 circle grown symbol_set-circle
      add_global-grown

abbrev a_frame : ℕ → Bytes → ℕ → Frame
a_frame address name value = record {
  address = address;
  exception_available = false;
  call_by_name_expr_head = none;
  entries = (name, value) ∷ [];
}

-- A block in a procedure, in a module.
abbrev block : Env
block = inside (a_frame 100 (codes "x") 1) (in_module (a_frame 200 (codes "y") 2) 0)

-- A module that has one global, `z`.
abbrev only_z : ℕ → Bytes → M (Option ℕ)
only_z m name = pure (if bytes_eq name (codes "z") then some 3 else none)

lookup_env_ex-object_example :
    object_only (lookup_env_ex only_z block (codes "z") (some 200) circle)
    ≡ safe_lookup_env only_z block (codes "z") circle
lookup_env_ex-object_example = lookup_env_ex-object only_z block (codes "z") (some 200) circle

abbrev found_y : Found
found_y = record { object = 2; is_non_local = true; is_global = false }

lookup_env_ex-y : lookup_env_ex only_z block (codes "y") (some 200) circle ≡ ok (found_y, circle)
unfolding lookup_env_ex find found_locally pure
lookup_env_ex-y = refl

lookup_env_ex-flags_example :
    (false ≡ not (binds (codes "y") (frames block)))
    × (true ≡ not (binds (codes "y") (in_front (some 200) (frames block))))
lookup_env_ex-flags_example =
    lookup_env_ex-flags only_z block (codes "y") (some 200) circle circle found_y lookup_env_ex-y

abbrev block_with_w : Env
block_with_w =
    inside
      (record (a_frame 100 (codes "x") 1) { entries = put (codes "w") 4 ((codes "x", 1) ∷ []) })
      (in_module (a_frame 200 (codes "y") 2) 0)

add_local-block : add_local block (codes "w") 4 circle ≡ ok (block_with_w, circle)
unfolding add_local find pure
add_local-block = refl

lookup_env-add_local_example : lookup_env only_z block_with_w (codes "y") circle ≡ (
    if bytes_eq (codes "w") (codes "y")
    then ok (some 4, circle)
    else lookup_env only_z block (codes "y") circle)
lookup_env-add_local_example =
    lookup_env-add_local only_z block block_with_w (codes "w") (codes "y") 4 circle circle
      add_local-block
