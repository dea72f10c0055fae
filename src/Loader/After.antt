-- ===== src/Loader/After.antt =====
-- compiler/loader.cpp, lines 755-838: how the states of modules change.
use ceramic.Prelude.{ℕ, zero, suc, ◌+◌, ◌≤◌, ◌<◌, ◌≡◌, refl, ◌∙◌, Bool, true, false, some, arith}
use ceramic.Loader.Init.{
  InitState, before, running, done, Module, State, put_module, set_state, name_module,
}

-- A call leaves a module as it is, or initialises it.
abbrev pub kept : InitState → InitState → Bool
kept before running = false
kept before s = true
kept running running = true
kept running s = false
kept done done = true
kept done s = false

kept_refl : (s : InitState) → kept s s ≡ true
kept_refl before = refl
kept_refl running = refl
kept_refl done = refl

kept_trans : (a b c : InitState) → kept a b ≡ true → kept b c ≡ true → kept a c ≡ true
kept_trans before before c h g = g
kept_trans before running c h g = ground arith
kept_trans before done before h g = ground arith
kept_trans before done running h g = ground arith
kept_trans before done done h g = refl
kept_trans running before c h g = ground arith
kept_trans running running c h g = g
kept_trans running done c h g = ground arith
kept_trans done before c h g = ground arith
kept_trans done running c h g = ground arith
kept_trans done done c h g = g

abbrev pub After : State → State → Type 0
After st st' =
    (k : ℕ)
    → (kept (st.modules k).init_state (st'.modules k).init_state ≡ true)
      × ((st'.modules k).imports ≡ (st.modules k).imports)

pub After-refl : (st : State) → After st st
After-refl st k = (kept_refl _, refl)

pub After-trans : (st st' st'' : State) → After st st' → After st' st'' → After st st''
After-trans st st' st'' h g k = (kept_trans _ _ _ (h k).0 (g k).0, (g k).1 ∙ (h k).1)

abbrev pub is_before : InitState → Bool
is_before before = true
is_before s = false

pub kept-is_before : (a b : InitState) → kept a b ≡ true → is_before a ≡ false → is_before b ≡ false
kept-is_before before b h g = ground arith
kept-is_before running before h g = ground arith
kept-is_before running running h g = refl
kept-is_before running done h g = refl
kept-is_before done before h g = ground arith
kept-is_before done running h g = refl
kept-is_before done done h g = refl

-- How many modules below `n` are not being or have not been initialised.
abbrev pub count : Bool → ℕ
count true = 1
count false = 0

abbrev pub count_before : ℕ → State → ℕ
count_before zero st = 0
count_before (suc n) st = count (is_before (st.modules n).init_state) + count_before n st

count-kept : (a b : InitState) → kept a b ≡ true → count (is_before b) ≤ count (is_before a)
count-kept before before h = omega arith
count-kept before running h = ground arith
count-kept before done h = omega arith
count-kept running before h = ground arith
count-kept running running h = omega arith
count-kept running done h = omega arith
count-kept done before h = ground arith
count-kept done running h = omega arith
count-kept done done h = omega arith

pub count_before-After :
    (n : ℕ) (st st' : State) → After st st' → count_before n st' ≤ count_before n st
count_before-After zero st st' h = omega arith
count_before-After (suc n) st st' h =
    omega (arith, count_before-After n st st' h, count-kept _ _ (h n).0)

pub name_module-keeps :
    (x y : Module)
    → name_module x ≡ some y
    → (y.init_state ≡ x.init_state) × (y.imports ≡ x.imports)
unfolding name_module
name_module-keeps x y h = ground arith

-- Naming the module changes no state and no import.
pub name_module_After :
    (m : ℕ) (x : Module) (st : State)
    → name_module (st.modules m) ≡ some x
    → After st (put_module m x st)
name_module_After m x st h k =
    let same = name_module-keeps (st.modules m) x h in
    (ground (arith, kept_refl (st.modules k).init_state, same), ground (arith, same))

pub count_before-running_out :
    (n m : ℕ) (st : State) → n ≤ m → count_before n (set_state m running st) ≡ count_before n st
count_before-running_out zero m st h = refl
count_before-running_out (suc n) m st h = ground (arith, count_before-running_out n m st)

pub count_before-running :
    (n m : ℕ) (st : State)
    → m < n
    → (st.modules m).init_state ≡ before
    → suc (count_before n (set_state m running st)) ≡ count_before n st
count_before-running zero m st h e = absurd (omega arith)
count_before-running (suc n) m st h e =
    ground (arith, count_before-running n m st, count_before-running_out n m st)

-- A module that is being initialised and the imports are done.
pub After-done :
    (m : ℕ) (st st' : State)
    → (st.modules m).init_state ≡ before
    → After (set_state m running st) st'
    → After st (set_state m done st')
After-done m st st' e h k = (ground (arith, h k, h m), ground (arith, h k, h m))
