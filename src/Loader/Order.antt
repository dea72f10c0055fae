-- ===== src/Loader/Order.antt =====
-- compiler/loader.cpp, lines 755-838: `initModule` comes to an end, and leaves no import behind.
use ceramic.Prelude.{
  ℕ, suc, ◌<◌, ◌≡◌, refl, sym, false, some, List, [], ◌∷◌, ◌++◌, Bytes, ◌==◌, arith, Bool-cases,
  ==_iff, inl, inr,
}
use ceramic.Loader.After.{
  After, After-refl, After-trans, After-done, kept-is_before, is_before, count_before,
  count_before-After, count_before-running, name_module_After, name_module-keeps,
}
use ceramic.Loader.Init.{
  InitState, before, running, done, Module, State, Outcome, initialised, import_loop,
  declared_otherwise, out_of_fuel, put_module, set_state, name_module, init_imports, finish_module,
  init_named,
}

-- The call comes to an end, and `P` holds of what it leaves if it does not fail.
pub data Ends (P : State → Type 0) : Outcome → Type 0 where
  ended : {st : State} → P st → Ends P (initialised st)
  looped : {c : List Bytes} → Ends P (import_loop c)
  misdeclared : {m : ℕ} → Ends P (declared_otherwise m)

abbrev pub state_of : ℕ → State → InitState
state_of m st = (st.modules m).init_state

abbrev pub AllVisited : State → List ℕ → Type 0
AllVisited st [] = Unit
AllVisited st (i ∷ is) = (is_before (state_of i st) ≡ false) × AllVisited st is

abbrev pub AllBelow : ℕ → List ℕ → Type 0
AllBelow n [] = Unit
AllBelow n (i ∷ is) = (i < n) × AllBelow n is

-- The initialisation of every import of a module that is done has begun.
abbrev pub IsOrdered : State → Type 0
IsOrdered st = (k : ℕ) → state_of k st ≡ done → AllVisited st (st.modules k).imports

abbrev pub IsClosed : ℕ → State → Type 0
IsClosed n st = (k : ℕ) → k < n → AllBelow n (st.modules k).imports

AllVisited-Later :
    (is : List ℕ) (st st' : State)
    → ((k : ℕ) → is_before (state_of k st) ≡ false → is_before (state_of k st') ≡ false)
    → AllVisited st is
    → AllVisited st' is
AllVisited-Later [] st st' h v = tt
AllVisited-Later (i ∷ is) st st' h (v, vs) = (h i v, AllVisited-Later is st st' h vs)

After-is_before :
    (st st' : State)
    → After st st'
    → (k : ℕ) → is_before (state_of k st) ≡ false
    → is_before (state_of k st') ≡ false
After-is_before st st' h k = kept-is_before _ _ (h k).0

pub IsClosed-After : (n : ℕ) (st st' : State) → After st st' → IsClosed n st → IsClosed n st'
IsClosed-After n st st' h c k l = rw ((h k).1) (c k l)

set_state-is_before :
    (m : ℕ) (s : InitState) (st : State)
    → is_before s ≡ false
    → (k : ℕ) → is_before (state_of k st) ≡ false
    → is_before (state_of k (set_state m s st)) ≡ false
set_state-is_before m s st e k h = ground arith

imports-set_state :
    (m : ℕ) (s : InitState) (st : State) (k : ℕ)
    → ((set_state m s st).modules k).imports ≡ (st.modules k).imports
imports-set_state m s st k = ground arith

IsOrdered-running : (m : ℕ) (st : State) → IsOrdered st → IsOrdered (set_state m running st)
IsOrdered-running m st o k e = rw (imports-set_state m running st k) (
    AllVisited-Later (st.modules k).imports st (set_state m running st)
      (set_state-is_before m running st refl) (o k old))
  where
    old : state_of k st ≡ done
    old = ground arith

IsOrdered-done :
    (m : ℕ) (st : State)
    → IsOrdered st
    → AllVisited st (st.modules m).imports
    → IsOrdered (set_state m done st)
IsOrdered-done m st o v k e = rw (imports-set_state m done st k) (
    AllVisited-Later (st.modules k).imports st (set_state m done st)
      (set_state-is_before m done st refl) visited)
  where
    visited : AllVisited st (st.modules k).imports
    visited = elim (Bool-cases (k == m)) [
      | inl t ↦ rw ((==_iff k m).0 t) v
      | inr t ↦ o k (ground (arith, e, t))
    ]

pub IsOrdered-name :
    (m : ℕ) (x : Module) (st : State)
    → name_module (st.modules m) ≡ some x
    → IsOrdered st
    → IsOrdered (put_module m x st)
IsOrdered-name m x st h o k e =
    let after = name_module_After m x st h in
    rw ((after k).1) (
      AllVisited-Later (st.modules k).imports st (put_module m x st)
        (After-is_before st (put_module m x st) after) (o k old))
  where
    old : state_of k st ≡ done
    old = ground (arith, name_module-keeps (st.modules m) x h, e)

-- What a call promises, on a store in order, where `f` bounds the modules not begun.
abbrev pub Promise : State → ℕ → State → Type 0
Promise st m st' = After st st' × IsOrdered st' × (is_before (state_of m st') ≡ false)

abbrev pub Good : ℕ → ℕ → (List Bytes → ℕ → State → Outcome) → Type 0
Good n f init =
    (chain : List Bytes) (m : ℕ) (st : State)
    → m < n
    → IsClosed n st
    → IsOrdered st
    → count_before n st < f
    → Ends (Promise st m) (init chain m st)

pub Ends-map :
    {P Q : State → Type 0} (r : Outcome) → ((s : State) → P s → Q s) → Ends P r → Ends Q r
Ends-map (initialised s) g (ended p) = ended (g s p)
Ends-map (import_loop c) g looped = looped
Ends-map (declared_otherwise k) g misdeclared = misdeclared
Ends-map out_of_fuel g h = elim h [ ]

-- The first import, then the others.
Ends-init_imports :
    {P Q : State → Type 0} (init : ℕ → State → Outcome) (i : ℕ) (is : List ℕ) (st : State)
    → Ends P (init i st)
    → ((s : State) → P s → Ends Q (init_imports init is s))
    → Ends Q (init_imports init (i ∷ is) st)
unfolding init_imports
Ends-init_imports {P} {Q} init i is st h next = go (init i st) h
  where
    go :
        (r : Outcome)
        → Ends P r
        → Ends Q (elim r [
          | initialised st' ↦ init_imports init is st'
          | import_loop c ↦ import_loop c
          | declared_otherwise m ↦ declared_otherwise m
          | out_of_fuel ↦ out_of_fuel
        ])
    go (initialised st1) (ended p) = next st1 p
    go (import_loop c) looped = looped
    go (declared_otherwise m) misdeclared = misdeclared
    go out_of_fuel h = elim h [ ]

Ends-finish_module :
    {P Q : State → Type 0} (m : ℕ) (r : Outcome)
    → ((st : State) → P st → Q (record (set_state m done st) { initialised = m ∷ st.initialised }))
    → Ends P r
    → Ends Q (finish_module m r)
unfolding finish_module
Ends-finish_module m (initialised s) g (ended p) = ended (g s p)
Ends-finish_module m (import_loop c) g looped = looped
Ends-finish_module m (declared_otherwise k) g misdeclared = misdeclared
Ends-finish_module m out_of_fuel g h = elim h [ ]

module _ (n f : ℕ) (init : List Bytes → ℕ → State → Outcome) (good : Good n f init) where
  init_imports-Ends :
      (chain : List Bytes) (is : List ℕ) (st : State)
      → AllBelow n is
      → IsClosed n st
      → IsOrdered st
      → count_before n st < f
      → Ends
          (λ st'. After st st' × IsOrdered st' × AllVisited st' is)
          (init_imports (init chain) is st)
  unfolding init_imports
  init_imports-Ends chain [] st b c o l = ended (After-refl st, o, tt)
  init_imports-Ends chain (i ∷ is) st (b, bs) c o l =
      Ends-init_imports (init chain) i is st (good chain i st b c o l) λ st1 (a, o1, v).
        Ends-map (init_imports (init chain) is st1)
          (λ st2 (a', o2, vs).
            (After-trans st st1 st2 a a', o2, (After-is_before st1 st2 a' i v, vs)))
          (init_imports-Ends chain is st1 bs (IsClosed-After n st st1 a c) o1
            (omega (arith, count_before-After n st st1 a)))

  -- The branch that initialises the imports and then the module.
  pub init_named-Ends :
      (chain : List Bytes) (m : ℕ) (x : Module) (st : State)
      → m < n
      → (st.modules m).imports ≡ x.imports
      → state_of m st ≡ before
      → IsClosed n st
      → IsOrdered st
      → count_before n st < suc f
      → Ends (Promise st m) (init_named init chain m x before st)
  unfolding init_named
  init_named-Ends chain m x st l same e c o b =
      Ends-finish_module m (init_imports (init (chain ++ x.name ∷ [])) x.imports marked)
        (λ st2 (a, o2, vs). (
          After-done m st st2 e a,
          IsOrdered-done m st2 o2 (rw ((a m).1, imports-set_state m running st m, same) vs),
          set_to_done st2,
        ))
        (init_imports-Ends (chain ++ x.name ∷ []) x.imports marked (rw (sym same) (c m l)) closed
          (IsOrdered-running m st o) fewer)
    where
      marked : State
      marked = set_state m running st

      set_to_done : (st2 : State) → is_before (state_of m (set_state m done st2)) ≡ false
      set_to_done st2 = ground arith

      closed : IsClosed n marked
      closed k h = rw (imports-set_state m running st k) (c k h)

      fewer : count_before n marked < f
      fewer = omega (arith, count_before-running n m st l e)
