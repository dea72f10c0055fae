-- ===== src/Env/Symbols/Imported.antt =====
-- compiler/env.cpp, lines 203-222: named imports, star imports and globals of the same name.
use ceramic.Prelude.{
  ℕ, ◌≡◌, refl, true, false, Option, none, some, List, [], ◌∷◌, Bytes, bytes_eq_iff, contains, find,
  put, find-put, arith,
}
use ceramic.Env.Module.{Symbols, insert_object, contains_object}
use ceramic.Env.Symbols.{symbol_set, insert_symbol, insert_imported}

-- The objects that star imports bring under one name, inserted one after another.
abbrev pub insert_stars :
    Bytes → List ℕ → List (Bytes × ℕ) → Symbols × List Bytes → Option (Symbols × List Bytes)
insert_stars name [] globals s = some s
insert_stars name (v ∷ vs) globals (result, specific) =
    elim (insert_imported name v globals result specific false) [
      | none ↦ none
      | some s ↦ insert_stars name vs globals s
    ]

-- Star imports, then the named import, then star imports again.
abbrev pub insert_between :
    Bytes
    → List ℕ
    → ℕ
    → List ℕ
    → List (Bytes × ℕ)
    → Symbols × List Bytes
    → Option (Symbols × List Bytes)
insert_between name before w after globals s = elim (insert_stars name before globals s) [
  | none ↦ none
  | some (result, specific) ↦ elim (insert_imported name w globals result specific true) [
    | none ↦ none
    | some s' ↦ insert_stars name after globals s'
  ]
]

symbol_set-put :
    (name : Bytes) (objs : List ℕ) (s : Symbols) → symbol_set name (put name objs s) ≡ objs
unfolding symbol_set
symbol_set-put name objs s = ground (arith, find-put name name objs s, bytes_eq_iff name name)

stars_ignored :
    (name : Bytes) (vs : List ℕ) (globals : List (Bytes × ℕ)) (result : Symbols)
    (specific : List Bytes)
    → contains specific name ≡ true
    → insert_stars name vs globals (result, specific) ≡ some (result, specific)
unfolding insert_imported
stars_ignored name [] globals result specific h = refl
stars_ignored name (v ∷ vs) globals result specific h =
    ground (arith, stars_ignored name vs globals result specific)

-- Before the named import, star imports leave the names that are imported by name.
stars_before :
    (name : Bytes) (vs : List ℕ) (globals : List (Bytes × ℕ)) (result : Symbols)
    (specific : List Bytes)
    → contains specific name ≡ false
    → find name globals ≡ none
    → (result' : Symbols) × (insert_stars name vs globals (result, specific)
        ≡ some (result', specific))
unfolding insert_imported
stars_before name [] globals result specific h g = (result, refl)
stars_before name (v ∷ vs) globals result specific h g =
    let (final, e) = stars_before name vs globals (insert_symbol name v result) specific h g in
    (final, ground arith)

-- A named import wins over the star imports of its name, whether they come before it or behind
-- it: where the module has no global and no earlier named import of that name, the name stands for the
-- one object that was imported by name.
pub named_import_wins :
    (name : Bytes) (before after : List ℕ) (w : ℕ) (globals : List (Bytes × ℕ)) (result : Symbols)
    (specific : List Bytes)
    → contains specific name ≡ false
    → find name globals ≡ none
    → (final : Symbols) × (insert_between name before w after globals (result, specific)
        ≡ some (final, name ∷ specific))
      × (symbol_set name final ≡ w ∷ [])
unfolding insert_imported insert_object contains_object
named_import_wins name before after w globals result specific h g =
    let (table, e) = stars_before name before globals result specific h g in
    let final : Symbols = put name (w ∷ []) table in
    let same = (bytes_eq_iff name name).1 refl in
    (
      final,
      ground (arith, stars_ignored name after globals final (name ∷ specific)),
      symbol_set-put name (w ∷ []) table,
    )
