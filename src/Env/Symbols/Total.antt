-- ===== src/Env/Symbols/Total.antt =====
-- compiler/env.cpp, lines 171-201: `getPublicSymbols` and `getAllSymbols` come to an end on modules
-- that import one another in a circle.
use ceramic.Prelude.{
  ℕ, zero, suc, ◌+◌, ◌-◌, ◌≤◌, ◌<◌, ◌≡◌, refl, Bool, true, false, List, [], leb, if◌then◌else◌,
  arith,
}
use ceramic.Env.Module.{Store, update, M, ◌>>=◌, ◌>>◌, pure, read, change}
use ceramic.Env.Symbols.{
  Intrinsic, loaded_of, loading_of, with_loading, get_intrinsic_symbols, add_imported_symbols,
  load_symbols, get_symbols,
}
use ceramic.Env.Symbols.Keeps.{
  Ends, ended, Ends->>=, Same, Same-refl, idle_tables, IsClosed, Keeps, KeepsAll, Keeps-import_all,
}

-- The store when the code has marked a table as being loaded.
abbrev marked : Bool → ℕ → Store → Store
marked p m st = update st m (with_loading p (loading_of p (st m) + 1) (st m))

-- And with the mark taken away.
abbrev unmarked : Bool → ℕ → Store → Store
unmarked p m st = update st m (with_loading p (loading_of p (st m) - 1) (st m))

Same-unmarked :
    (p : Bool) (m : ℕ) (st st' : Store) → Same (marked p m st) st' → Same st (unmarked p m st')
Same-unmarked true m st st' h k = ground (arith, h k, h m)
Same-unmarked false m st st' h k = ground (arith, h k, h m)

IsClosed-marked :
    (n : ℕ) (p : Bool) (m : ℕ) (st : Store) → IsClosed n st → IsClosed n (marked p m st)
IsClosed-marked n p m st c k l = rw (imports p) (c k l)
  where
    imports : (q : Bool) → (marked q m st k).imports ≡ (st k).imports
    imports true = ground arith
    imports false = ground arith

-- The mark is the first on an idle table: one table fewer is idle.
idle_tables-marked_out :
    (n : ℕ) (p : Bool) (m : ℕ) (st : Store)
    → n ≤ m
    → idle_tables n (marked p m st) ≡ idle_tables n st
idle_tables-marked_out zero p m st h = refl
idle_tables-marked_out (suc n) true m st h = ground (arith, idle_tables-marked_out n true m st)
idle_tables-marked_out (suc n) false m st h = ground (arith, idle_tables-marked_out n false m st)

idle_tables-marked :
    (n : ℕ) (p : Bool) (m : ℕ) (st : Store)
    → m < n
    → loading_of p (st m) ≡ 0
    → suc (idle_tables n (marked p m st)) ≡ idle_tables n st
idle_tables-marked zero p m st h e = absurd (omega arith)
idle_tables-marked (suc n) true m st h e =
    ground (arith, idle_tables-marked n true m st, idle_tables-marked_out n true m st)
idle_tables-marked (suc n) false m st h e =
    ground (arith, idle_tables-marked n false m st, idle_tables-marked_out n false m st)

Same-intrinsic :
    (is : List Intrinsic) (m : ℕ) (st : Store)
    → Same st (update st m (get_intrinsic_symbols is (st m)))
unfolding get_intrinsic_symbols
Same-intrinsic is m st k = ground arith

if-Ends :
    (t : Bool) {P : Unit {0} → Store → Type 0} (m k : M (Unit {0})) (st : Store)
    → (t ≡ true → Ends P (m st))
    → (t ≡ false → Ends P (k st))
    → Ends P ((if t then m else k) st)
if-Ends true m k st h g = h refl
if-Ends false m k st h g = g refl

module _ (n f : ℕ) (get : Bool → ℕ → M (Unit {0})) (keeps : KeepsAll n f get) where
  add_imported_symbols-Keeps : (p : Bool) (m : ℕ) → m < n → Keeps n f (add_imported_symbols get p m)
  unfolding add_imported_symbols read ◌>>=◌
  add_imported_symbols-Keeps p m l st c b =
      Keeps-import_all n f get p m [] (st m).imports keeps (c m l) st c b

  -- The branch that marks the table, imports and takes the mark away.
  marks-Ends :
      (p : Bool) (m : ℕ) (st : Store)
      → m < n
      → IsClosed n st
      → loading_of p (st m) ≡ 0
      → idle_tables n st < suc f
      → Ends
          (λ _ st'. Same st st')
          ((change m (λ y. with_loading p (loading_of p y + 1) y)
              >> (add_imported_symbols get p m
                  >> change m (λ y. with_loading p (loading_of p y - 1) y)))
            st)
  unfolding ◌>>◌ change
  marks-Ends p m st l c e b =
      let fewer = idle_tables-marked n p m st l e in
      Ends->>= (add_imported_symbols get p m)
        (λ _. change m (λ y. with_loading p (loading_of p y - 1) y)) (marked p m st)
        (add_imported_symbols-Keeps p m l (marked p m st) (IsClosed-marked n p m st c)
          (omega arith))
        (λ _ st' s. ended (Same-unmarked p m st st' s))

  load_symbols-Ends :
      (is : List Intrinsic) (p : Bool) (m : ℕ) (st : Store)
      → m < n
      → IsClosed n st
      → idle_tables n st < suc f
      → Ends (λ _ st'. Same st st') (load_symbols get is p m st)
  unfolding load_symbols read ◌>>=◌ pure change
  load_symbols-Ends is p m st l c b =
      if-Ends (loaded_of p (st m)) _ _ st (λ _. ended (Same-refl st))
        λ _.
          if-Ends (leb 1 (loading_of p (st m))) _ _ st (λ _. ended (Same-refl st))
            λ e.
              if-Ends (st m).is_intrinsics_module _ _ st (λ _. ended (Same-intrinsic is m st))
                λ _. marks-Ends p m st l c (ground arith) b

get_symbols-Keeps : (f n : ℕ) (is : List Intrinsic) → KeepsAll n f (get_symbols f is)
unfolding get_symbols
get_symbols-Keeps zero n is p m l st c b = absurd (omega arith)
get_symbols-Keeps (suc f) n is p m l st c b =
    load_symbols-Ends n f (get_symbols f is) (get_symbols-Keeps f n is) is p m st l c b

-- Where imports lead to modules below `n`, loading the symbols of such a module comes to an end
-- within as many nested calls as there are tables that are not being loaded, and one more, however
-- the modules import one another; it fails or leaves the same tables marked as being loaded.
pub get_symbols-Ends :
    (f n : ℕ) (is : List Intrinsic) (public_only : Bool) (m : ℕ) (st : Store)
    → m < n
    → IsClosed n st
    → idle_tables n st < f
    → Ends (λ _ st'. Same st st') (get_symbols f is public_only m st)
get_symbols-Ends f n is public_only m st l c b = get_symbols-Keeps f n is public_only m l st c b
