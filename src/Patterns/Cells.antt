-- ===== src/Patterns/Cells.antt =====
-- compiler/patterns.cpp, lines 28-58: the values of cells, by what they hold.
use ceramic.Prelude.{ℕ, zero, suc, ◌≡◌, refl, Option, none, some, ◌∙◌}
use ceramic.Patterns.Deref.{Context, deref_object, deref_multi}
use ceramic.Patterns.Objects.{Object, Objects, MultiPattern}
use ceramic.Patterns.Unify.{Store}
use ceramic.Patterns.Unify.Sound.{Solves}

-- A cell that holds nothing gives a null pointer.
unfoldable pub cell_value : Context → Option Object → Option (Option Object)
cell_value c none = some none
cell_value c (some o) = deref_object c o

unfoldable pub multi_cell_value : Context → Option MultiPattern → Option (Option Objects)
multi_cell_value c none = some none
multi_cell_value c (some m) = deref_multi c m

abbrev pub CellValues : Type 0
CellValues = (ℕ → Option (Option Object)) × (ℕ → Option (Option Objects))

unfoldable pub with_values : Context → CellValues → Context
with_values c (one, many) = record c { one = one; many = many }

-- Fuel bounds how many cells hold each other; `none` is its end.
unfoldable pub cell_values : Context → ℕ → Store → CellValues
cell_values c zero st = ((λ _. none), (λ _. none))
cell_values c (suc f) st =
    let d = with_values c (cell_values c f st) in
    ((λ a. cell_value d (st.cells a)), (λ a. multi_cell_value d (st.multi_cells a)))

unfoldable pub deref_cells : Context → ℕ → Store → Context
deref_cells c f st = with_values c (cell_values c f st)

-- More fuel changes nothing.
abbrev pub Settled : Context → ℕ → Store → Type 0
Settled c f st =
    ((a : ℕ) → (deref_cells c f st).one a ≡ (deref_cells c (suc f) st).one a)
    × ((a : ℕ) → (deref_cells c f st).many a ≡ (deref_cells c (suc f) st).many a)

-- Where the fuel is enough for `derefDeep` of the cells, the values it gives them are those of what they hold.
pub deref_cells-Solves :
    (c : Context) (f : ℕ) (st : Store) → Settled c f st → Solves (deref_cells c f st) st
unfolding deref_cells cell_values with_values cell_value multi_cell_value
deref_cells-Solves c f st (s1, s2) = (λ a o h. s1 a ∙ rw h refl, λ a m h. s2 a ∙ rw h refl)
