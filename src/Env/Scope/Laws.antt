-- ===== src/Env/Scope/Laws.antt =====
-- compiler/env.cpp, lines 358-472: what the lookups along a chain of environments find.
use ceramic.Prelude.{
  ℕ, ◌≡◌, Bool, true, false, not, Option, none, some, List, [], ◌∷◌, Bytes, find, ◌==◌,
  if◌then◌else◌, arith, find-put, bytes_eq,
}
use ceramic.Env.Module.{Store, M, Result, ok, failed, out_of_fuel, ◌>>=◌, pure, raise}
use ceramic.Env.Scope.{
  Frame, Env, orphan, in_module, inside, add_local, lookup_env, or_undefined, safe_lookup_env,
  Found, pass_env, found_locally, found_globally, lookup_env_ex,
}

-- The result with the object alone.
abbrev pub object_only : Result (Found × Store) → Result (ℕ × Store)
object_only (ok (x, st)) = ok (x.object, st)
object_only (failed e) = failed e
object_only out_of_fuel = out_of_fuel

found_globally-object :
    (name : Bytes) (m : M (Option ℕ)) (st : Store)
    → object_only ((m >>= found_globally name) st) ≡ (m >>= or_undefined name) st
unfolding ◌>>=◌ found_globally or_undefined pure raise
found_globally-object name m st = ground arith

-- `lookupEnvEx` finds the object that `safeLookupEnv` finds, leaves the same store, and fails where
-- it fails, whatever environment the names are to be local to.
pub lookup_env_ex-object :
    (lookup : ℕ → Bytes → M (Option ℕ)) (env : Env) (name : Bytes) (non_local : Option ℕ)
    (st : Store)
    → object_only (lookup_env_ex lookup env name non_local st) ≡ safe_lookup_env lookup env name st
unfolding lookup_env_ex lookup_env safe_lookup_env found_locally ◌>>=◌ or_undefined pure raise
lookup_env_ex-object lookup (orphan e) name nl st = ground arith
lookup_env_ex-object lookup (in_module e m) name nl st =
    ground (arith, found_globally-object name (lookup m name) st)
lookup_env_ex-object lookup (inside e p) name nl st =
    ground (arith, lookup_env_ex-object lookup p name (pass_env (inside e p) nl) st)

-- The environments of the chain, from the inside, and those in front of the one at an address.
abbrev pub frames : Env → List Frame
frames (orphan e) = e ∷ []
frames (in_module e m) = e ∷ []
frames (inside e p) = e ∷ frames p

abbrev pub in_front : Option ℕ → List Frame → List Frame
in_front none es = []
in_front (some a) [] = []
in_front (some a) (e ∷ es) = if e.address == a then [] else e ∷ in_front (some a) es

abbrev pub binds : Bytes → List Frame → Bool
binds name [] = false
binds name (e ∷ es) = elim (find name e.entries) [ some _ ↦ true | none ↦ binds name es ]

-- A name is called global exactly if no environment of the chain binds it, and non-local exactly
-- if none binds it in front of the one that names are to be local to.
pub lookup_env_ex-flags :
    (lookup : ℕ → Bytes → M (Option ℕ)) (env : Env) (name : Bytes) (non_local : Option ℕ)
    (st st' : Store) (x : Found)
    → lookup_env_ex lookup env name non_local st ≡ ok (x, st')
    → (x.is_global ≡ not (binds name (frames env)))
      × (x.is_non_local ≡ not (binds name (in_front non_local (frames env))))
unfolding lookup_env_ex found_locally found_globally pure raise ◌>>=◌
lookup_env_ex-flags lookup (orphan e) name none st st' x h = ground arith
lookup_env_ex-flags lookup (orphan e) name (some a) st st' x h = ground arith
lookup_env_ex-flags lookup (in_module e m) name none st st' x h = ground arith
lookup_env_ex-flags lookup (in_module e m) name (some a) st st' x h = ground arith
lookup_env_ex-flags lookup (inside e p) name none st st' x h =
    ground (arith, lookup_env_ex-flags lookup p name none st st' x)
lookup_env_ex-flags lookup (inside e p) name (some a) st st' x h = ground (
  arith,
  lookup_env_ex-flags lookup p name none st st' x,
  lookup_env_ex-flags lookup p name (some a) st st' x,
)

-- After `addLocal` the name is found, and every other name is what it was.
pub lookup_env-add_local :
    (lookup : ℕ → Bytes → M (Option ℕ)) (env env' : Env) (name other : Bytes) (value : ℕ)
    (st st' : Store)
    → add_local env name value st ≡ ok (env', st')
    → lookup_env lookup env' other st
      ≡ (if bytes_eq name other then ok (some value, st) else lookup_env lookup env other st)
unfolding add_local lookup_env pure raise
lookup_env-add_local lookup (orphan e) env' name other value st st' h =
    ground (arith, find-put name other value e.entries)
lookup_env-add_local lookup (in_module e m) env' name other value st st' h =
    ground (arith, find-put name other value e.entries)
lookup_env-add_local lookup (inside e p) env' name other value st st' h =
    ground (arith, find-put name other value e.entries)
