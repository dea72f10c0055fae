-- ===== src/Loader/Closure.antt =====
-- compiler/loader.cpp, lines 755-838: a module is initialised with everything that it imports.
use ceramic.Prelude.{
  ℕ, zero, suc, ◌<◌, ◌≡◌, refl, Bool, true, false, Option, none, some, List, [], ◌∷◌, ◌++◌, Bytes,
  if◌then◌else◌, arith,
}
use ceramic.Loader.After.{
  After-refl, After-trans, kept, is_before, count_before, count_before-After, name_module_After,
  name_module-keeps,
}
use ceramic.Loader.Init.{
  InitState, before, running, done, Module, State, Outcome, initialised, import_loop,
  declared_otherwise, put_module, name_module, is_last, init_named, init_step, init_module,
}
use ceramic.Loader.Order.{
  Ends, ended, looped, misdeclared, Ends-map, state_of, AllVisited, IsOrdered, IsOrdered-name,
  IsClosed, IsClosed-After, Good, Promise, init_named-Ends,
}

Ends-named :
    (init : List Bytes → ℕ → State → Outcome) (chain : List Bytes) (m : ℕ) (s : InitState)
    (st : State) {P : State → Type 0}
    → ((x : Module)
        → name_module (st.modules m) ≡ some x
        → Ends P (init_named init chain m x s (put_module m x st)))
    → Ends P (elim (name_module (st.modules m)) [
      | none ↦ declared_otherwise m
      | some x ↦ init_named init chain m x s (put_module m x st)
    ])
Ends-named init chain m s st {P} h = go (name_module (st.modules m)) refl
  where
    go :
        (r : Option Module)
        → name_module (st.modules m) ≡ r
        → Ends P (elim r [
          | none ↦ declared_otherwise m
          | some x ↦ init_named init chain m x s (put_module m x st)
        ])
    go none e = misdeclared
    go (some x) e = h x e

-- A module that is being initialised, which is left as it is or is an import loop.
running-Ends :
    (init : List Bytes → ℕ → State → Outcome) (chain : List Bytes) (m : ℕ) (x : Module) (st : State)
    {P : State → Type 0}
    → P st
    → Ends P (init_named init chain m x running st)
unfolding init_named
running-Ends init chain m x st {P} p = go (is_last x.name chain)
  where
    go : (b : Bool) → Ends P (if b then initialised st else import_loop (chain ++ x.name ∷ []))
    go true = ended p
    go false = looped

module _ (n f : ℕ) (init : List Bytes → ℕ → State → Outcome) (good : Good n f init) where
  init_step-Ends :
      (chain : List Bytes) (m : ℕ) (s : InitState) (st : State)
      → state_of m st ≡ s
      → m < n
      → IsClosed n st
      → IsOrdered st
      → count_before n st < suc f
      → Ends (Promise st m) (init_step init chain m s st)
  unfolding init_step
  init_step-Ends chain m done st e l c o b = ended (After-refl st, o, ground arith)
  init_step-Ends chain m running st e l c o b = Ends-named init chain m running st λ x h.
      running-Ends init chain m x (put_module m x st) (
        name_module_After m x st h,
        IsOrdered-name m x st h o,
        ground (arith, name_module-keeps (st.modules m) x h),
      )
  init_step-Ends chain m before st e l c o b = Ends-named init chain m before st λ x h.
      let after = name_module_After m x st h in
      Ends-map (init_named init chain m x before (put_module m x st))
        (λ st' (a, o', v). (After-trans st (put_module m x st) st' after a, o', v))
        (init_named-Ends n f init good chain m x (put_module m x st) l (ground arith)
          (ground (arith, name_module-keeps (st.modules m) x h))
          (IsClosed-After n st (put_module m x st) after c) (IsOrdered-name m x st h o)
          (omega (arith, count_before-After n st (put_module m x st) after)))

init_module-Good : (f n : ℕ) → Good n f (init_module f)
unfolding init_module
init_module-Good zero n chain m st l c o b = absurd (omega arith)
init_module-Good (suc f) n chain m st l c o b =
    init_step-Ends n f (init_module f) (init_module-Good f n) chain m (state_of m st) st refl l c o
      b

abbrev pub is_running : InitState → Bool
is_running running = true
is_running s = false

-- No module is being initialised.
abbrev pub IsQuiet : State → Type 0
IsQuiet st = (k : ℕ) → is_running (state_of k st) ≡ false

abbrev pub AllDone : State → List ℕ → Type 0
AllDone st [] = Unit
AllDone st (i ∷ is) = (state_of i st ≡ done) × AllDone st is

-- Every import of a module that is done is done.
abbrev pub IsLoaded : State → Type 0
IsLoaded st = (k : ℕ) → state_of k st ≡ done → AllDone st (st.modules k).imports

kept-is_running : (a b : InitState) → kept a b ≡ true → is_running a ≡ false → is_running b ≡ false
kept-is_running before before h g = refl
kept-is_running before running h g = ground arith
kept-is_running before done h g = refl
kept-is_running running b h g = ground arith
kept-is_running done before h g = refl
kept-is_running done running h g = ground arith
kept-is_running done done h g = refl

only_done : (s : InitState) → is_before s ≡ false → is_running s ≡ false → s ≡ done
only_done before h g = ground arith
only_done running h g = ground arith
only_done done h g = refl

AllDone-AllVisited : (st : State) (is : List ℕ) → AllDone st is → AllVisited st is
AllDone-AllVisited st [] h = tt
AllDone-AllVisited st (i ∷ is) (h, hs) = (ground arith, AllDone-AllVisited st is hs)

AllVisited-AllDone : (st : State) (is : List ℕ) → IsQuiet st → AllVisited st is → AllDone st is
AllVisited-AllDone st [] q h = tt
AllVisited-AllDone st (i ∷ is) q (h, hs) = (only_done _ h (q i), AllVisited-AllDone st is q hs)

-- `initModule`, called with no module being initialised and where the imports of each initialised module are
-- initialised, comes to an end within as many nested calls as there are modules that are not, and one
-- more, whatever circles the imports have; it reports an error, or leaves the module initialised with
-- everything that it imports, directly or not, and again none being initialised.
pub init_module-Ends :
    (f n m : ℕ) (st : State)
    → m < n
    → IsClosed n st
    → IsQuiet st
    → IsLoaded st
    → count_before n st < f
    → Ends (λ st'. (state_of m st' ≡ done) × IsLoaded st' × IsQuiet st') (init_module f [] m st)
init_module-Ends f n m st l c q o b =
    Ends-map (init_module f [] m st)
      (λ st' (a, o', v).
        let quiet : IsQuiet st' = λ k. kept-is_running _ _ (a k).0 (q k) in
        (only_done _ v (quiet m), (λ k e. AllVisited-AllDone st' _ quiet (o' k e)), quiet))
      (init_module-Good f n [] m st l c (λ k e. AllDone-AllVisited st _ (o k e)) b)
