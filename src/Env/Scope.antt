-- ===== src/Env/Scope.antt =====
-- compiler/env.cpp, lines 358-531: environments, which lead to a module or to nothing.
pub mod Laws
use ceramic.Prelude.{
  ℕ, Bool, true, false, not, ◌&&◌, ◌||◌, Option, none, some, List, [], ◌∷◌, Bytes, find, put, ◌==◌,
  if◌then◌else◌,
}
use ceramic.Env.Lookup.{lookup_private}
use ceramic.Env.Module.{
  Store, M, Message, duplicate_name, undefined_name, not_in_alias, ◌>>=◌, ◌>>◌, pure, raise,
}
use ceramic.Env.Symbols.{Intrinsic}

-- The fields of an `Env` but its parent, with its address. An expression is its address.
pub record Frame : Type 0 where
  pub address : ℕ
  pub exception_available : Bool
  pub call_by_name_expr_head : Option ℕ
  pub entries : List (Bytes × ℕ)

-- By what `parent` points at: nothing, a module, or an environment.
pub data Env : Type 0 where
  orphan : Frame → Env
  in_module : Frame → ℕ → Env
  inside : Frame → Env → Env

abbrev pub frame : Env → Frame
frame (orphan e) = e
frame (in_module e m) = e
frame (inside e p) = e

abbrev pub with_frame : Frame → Env → Env
with_frame e (orphan _) = orphan e
with_frame e (in_module _ m) = in_module e m
with_frame e (inside _ p) = inside e p

unfoldable pub add_local : Env → Bytes → ℕ → M Env
add_local env name value =
    let e = frame env in
    elim (find name e.entries) [
      | some _ ↦ raise (duplicate_name name)
      | none ↦ pure (with_frame (record e { entries = put name value e.entries }) env)
    ]

-- `lookup` is `lookupPrivate`, and gives the object or none.
unfoldable pub lookup_env : (ℕ → Bytes → M (Option ℕ)) → Env → Bytes → M (Option ℕ)
lookup_env lookup (orphan e) name = elim (find name e.entries) [
  | some o ↦ pure (some o)
  | none ↦ pure none
]
lookup_env lookup (in_module e m) name = elim (find name e.entries) [
  | some o ↦ pure (some o)
  | none ↦ lookup m name
]
lookup_env lookup (inside e p) name =
    let outer = lookup_env lookup p name in
    elim (find name e.entries) [ some o ↦ pure (some o) | none ↦ outer ]

unfoldable pub or_undefined : Bytes → Option ℕ → M ℕ
or_undefined name none = raise (undefined_name name)
or_undefined name (some o) = pure o

unfoldable pub safe_lookup_env : (ℕ → Bytes → M (Option ℕ)) → Env → Bytes → M ℕ
safe_lookup_env lookup env name = lookup_env lookup env name >>= or_undefined name

-- `none` where the code follows a null parent.
unfoldable pub safe_lookup_module : Env → Option ℕ
safe_lookup_module (orphan e) = none
safe_lookup_module (in_module e m) = some m
safe_lookup_module (inside e p) = safe_lookup_module p

-- The object with `isNonLocal` and `isGlobal`.
pub record Found : Type 0 where
  pub object : ℕ
  pub is_non_local : Bool
  pub is_global : Bool

-- `if (nonLocalEnv == env) nonLocalEnv = nullptr;`
abbrev pub pass_env : Env → Option ℕ → Option ℕ
pass_env env none = none
pass_env env (some a) = if (frame env).address == a then none else some a

abbrev pub is_none : Option ℕ → Bool
is_none none = true
is_none (some a) = false

unfoldable pub found_locally : Option ℕ → ℕ → Found
found_locally non_local o = record {
  object = o;
  is_non_local = is_none non_local;
  is_global = false;
}

unfoldable pub found_globally : Bytes → Option ℕ → M Found
found_globally name none = raise (undefined_name name)
found_globally name (some o) = pure (record { object = o; is_non_local = true; is_global = true })

unfoldable pub lookup_env_ex : (ℕ → Bytes → M (Option ℕ)) → Env → Bytes → Option ℕ → M Found
lookup_env_ex lookup (orphan e) name non_local =
    let passed = pass_env (orphan e) non_local in
    elim (find name e.entries) [
      | some o ↦ pure (found_locally passed o)
      | none ↦ raise (undefined_name name)
    ]
lookup_env_ex lookup (in_module e m) name non_local =
    let passed = pass_env (in_module e m) non_local in
    elim (find name e.entries) [
      | some o ↦ pure (found_locally passed o)
      | none ↦ lookup m name >>= found_globally name
    ]
lookup_env_ex lookup (inside e p) name non_local =
    let passed = pass_env (inside e p) non_local in
    let outer = lookup_env_ex lookup p name passed in
    elim (find name e.entries) [ some o ↦ pure (found_locally passed o) | none ↦ outer ]

-- `none` where the assertion fails, and the null expression where a module is reached.
unfoldable pub lookup_call_by_name_expr_head : Env → Option (Option ℕ)
lookup_call_by_name_expr_head (orphan e) = elim e.call_by_name_expr_head [
  | some h ↦ some (some h)
  | none ↦ none
]
lookup_call_by_name_expr_head (in_module e m) = elim e.call_by_name_expr_head [
  | some h ↦ some (some h)
  | none ↦ some none
]
lookup_call_by_name_expr_head (inside e p) =
    let outer = lookup_call_by_name_expr_head p in
    elim e.call_by_name_expr_head [ some h ↦ some (some h) | none ↦ outer ]

unfoldable pub lookup_exception_available : Env → Bool
lookup_exception_available (orphan e) = e.exception_available
lookup_exception_available (in_module e m) = e.exception_available
lookup_exception_available (inside e p) = e.exception_available || lookup_exception_available p
