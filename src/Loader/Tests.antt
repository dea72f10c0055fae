-- ===== src/Loader/Tests.antt =====
-- `initModule` on concrete modules, and its theorem at a concrete input.
use ceramic.Prelude.{
  ℕ, zero, suc, ◌≡◌, refl, Option, none, some, List, [], ◌∷◌, Bytes, codes, ◌==◌, if◌then◌else◌,
  arith,
}
use ceramic.Loader.Closure.{init_module-Ends, IsQuiet, IsLoaded}
use ceramic.Loader.Init.{
  before, done, Module, State, Outcome, initialised, import_loop, init_module, init_step,
  init_named, init_imports, finish_module, name_module, is_last,
}
use ceramic.Loader.Order.{Ends, state_of, IsClosed}

abbrev a_module : Bytes → List ℕ → Module
a_module name imports = record {
  name = name;
  declared = none;
  imports = imports;
  init_state = before;
}

abbrev start : (ℕ → Module) → State
start modules = record { modules = modules; initialised = [] }

-- A prelude that imports itself, at 0, and a program with no name that imports it.
abbrev program : State
program = start λ k. if k == 1 then a_module [] (0 ∷ []) else a_module (codes "prelude") (0 ∷ [])

abbrev order : Outcome → Option (List ℕ)
order (initialised st) = some st.initialised
order r = none

init_module-program : order (init_module 4 [] 1 program) ≡ some (1 ∷ 0 ∷ [])
unfolding init_module init_step init_named init_imports finish_module name_module is_last
init_module-program = refl

-- Two modules that import each other.
abbrev circle : State
circle = start λ k. if k == 1 then a_module (codes "b") (0 ∷ []) else a_module (codes "a") (1 ∷ [])

init_module-circle :
    init_module 4 [] 0 circle ≡ import_loop (codes "a" ∷ codes "b" ∷ codes "a" ∷ [])
unfolding init_module init_step init_named init_imports finish_module name_module is_last
init_module-circle = refl

program-IsClosed : IsClosed 2 program
program-IsClosed zero h = (omega arith, tt)
program-IsClosed (suc zero) h = (omega arith, tt)
program-IsClosed (suc (suc k)) h = absurd (omega arith)

program-IsQuiet : IsQuiet program
program-IsQuiet k = ground arith

program-IsLoaded : IsLoaded program
program-IsLoaded k e = absurd (ground arith)

init_module-Ends_example :
    Ends (λ st'. (state_of 1 st' ≡ done) × IsLoaded st' × IsQuiet st') (init_module 3 [] 1 program)
init_module-Ends_example =
    init_module-Ends 3 2 1 program (omega arith) program-IsClosed program-IsQuiet program-IsLoaded
      (omega arith)
