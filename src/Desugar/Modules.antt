-- ===== src/Desugar/Modules.antt =====
-- compiler/loader.cpp, lines 383-398, and compiler/desugar.cpp, lines 22-66: dotted names of imported modules.
use ceramic.Prelude.{
  ℕ, ◌≡◌, refl, Bool, true, false, ◌&&◌, Option, none, some, List, [], ◌∷◌, Bytes, bytes_eq,
  bytes_eq_iff, if◌then◌else◌, arith,
}
use ceramic.Desugar.Exprs.{
  ModuleNode, ModuleNames, module_node, no_names, add_name, find_node, dotted_imported_module,
}
use ceramic.Syntax.Tree.{Expr, name_ref, field_ref}

-- `operator[]` of the map: a new name has no module and no names below it.
unfoldable pub node_at : Bytes → ModuleNames → ModuleNode
node_at k t = elim (find_node k t) [ none ↦ module_node none no_names | some x ↦ x ]

unfoldable pub put_node : Bytes → ModuleNode → ModuleNames → ModuleNames
put_node k x no_names = add_name k x no_names
put_node k x (add_name j y t) =
    if bytes_eq j k then add_name k x t else add_name j y (put_node k x t)

abbrev pub with_module : ℕ → ModuleNode → ModuleNode
with_module m (module_node _ below) = module_node (some m) below

abbrev pub names_below : ModuleNode → ModuleNames
names_below (module_node _ below) = below

abbrev pub with_below : ModuleNames → ModuleNode → ModuleNode
with_below t (module_node m _) = module_node m t

-- The walk of the loop in `loadDependent`, from the last part of the dotted name to the first.
unfoldable pub install_names : List Bytes → ℕ → ModuleNames → ModuleNames
unfolding node_at put_node
install_names [] m t = t
install_names (k ∷ []) m t = put_node k (with_module m (node_at k t)) t
install_names (k ∷ j ∷ ks) m t =
    put_node k (with_below (install_names (j ∷ ks) m (names_below (node_at k t))) (node_at k t)) t

abbrev pub last_first : List Bytes → List Bytes → List Bytes
last_first [] done = done
last_first (x ∷ xs) done = last_first xs (x ∷ done)

-- An alias alone, or the parts of the dotted name.
unfoldable pub import_module_name : Option Bytes → List Bytes → ℕ → ModuleNames → ModuleNames
unfolding install_names
import_module_name (some alias) parts m t = install_names (alias ∷ []) m t
import_module_name none parts m t = install_names (last_first parts []) m t

-- The module under a path of names, from the last part to the first.
abbrev pub module_at : List Bytes → ModuleNames → Option ℕ
module_at [] t = none
module_at (k ∷ []) t = elim (find_node k t) [ none ↦ none | some (module_node m _) ↦ m ]
module_at (k ∷ j ∷ ks) t = elim (find_node k t) [
  | none ↦ none
  | some (module_node _ below) ↦ module_at (j ∷ ks) below
]

abbrev pub paths_eq : List Bytes → List Bytes → Bool
paths_eq [] [] = true
paths_eq (k ∷ ks) (j ∷ js) = bytes_eq k j && paths_eq ks js
paths_eq _ _ = false

find_node-put_node :
    (k j : Bytes) (x : ModuleNode) (t : ModuleNames)
    → find_node j (put_node k x t) ≡ (if bytes_eq k j then some x else find_node j t)
unfolding put_node
find_node-put_node k j x no_names = refl
find_node-put_node k j x (add_name i y t) =
    ground (arith, bytes_eq_iff k j, bytes_eq_iff i k, bytes_eq_iff i j, find_node-put_node k j x t)

module_at-no_names : (q : List Bytes) → module_at q no_names ≡ none
module_at-no_names [] = refl
module_at-no_names (k ∷ []) = refl
module_at-no_names (k ∷ j ∷ ks) = refl

-- Installing a module under a path changes what is found there, and nothing else.
module_at-install_names :
    (p q : List Bytes) (m : ℕ) (t : ModuleNames)
    → module_at q (install_names p m t)
      ≡ (if paths_eq p q then (elim p [ [] ↦ none | _ ∷ _ ↦ some m ]) else module_at q t)
unfolding install_names node_at
module_at-install_names [] [] m t = refl
module_at-install_names [] (q ∷ qs) m t = refl
module_at-install_names (k ∷ []) [] m t = refl
module_at-install_names (k ∷ []) (q ∷ []) m t =
    ground (arith, bytes_eq_iff k q, find_node-put_node k q (with_module m (node_at k t)) t)
module_at-install_names (k ∷ []) (q ∷ r ∷ qs) m t = ground (
  arith,
  bytes_eq_iff k q,
  module_at-no_names (r ∷ qs),
  find_node-put_node k q (with_module m (node_at k t)) t,
)
module_at-install_names (k ∷ j ∷ ks) [] m t = refl
module_at-install_names (k ∷ j ∷ ks) (q ∷ []) m t = ground (
  arith,
  bytes_eq_iff k q,
  find_node-put_node k q
      (with_below (install_names (j ∷ ks) m (names_below (node_at k t))) (node_at k t)) t,
)
module_at-install_names (k ∷ j ∷ ks) (q ∷ r ∷ qs) m t = ground (
  arith,
  bytes_eq_iff k q,
  module_at-no_names (r ∷ qs),
  module_at-install_names (j ∷ ks) (r ∷ qs) m (names_below (node_at k t)),
  find_node-put_node k q
      (with_below (install_names (j ∷ ks) m (names_below (node_at k t))) (node_at k t)) t,
)

-- The names of a dotted expression, the last part first, where it starts with a name.
abbrev pub also : Bytes → Option (List Bytes) → Option (List Bytes)
also y none = none
also y (some ks) = some (y ∷ ks)

abbrev pub names_of : Expr → Option (List Bytes)
names_of (name_ref _ y) = some (y.str ∷ [])
names_of (field_ref _ e y) = also y.str (names_of e)
names_of _ = none

also_inv :
    (y : Bytes) (o : Option (List Bytes)) (ks : List Bytes)
    → also y o ≡ some ks
    → (js : List Bytes) × (o ≡ some js) × (ks ≡ y ∷ js)
also_inv y none ks h = absurd (cc h)
also_inv y (some js) ks h = (js, refl, ground (arith, h))

dotted_imported_module-module_at :
    (e : Expr) (x : Bytes) (t : ModuleNames) (ks : List Bytes)
    → names_of e ≡ some ks
    → dotted_imported_module e x t ≡ module_at (x ∷ ks) t
unfolding dotted_imported_module
dotted_imported_module-module_at (name_ref _ y) x t ks h = ground (arith, h)
dotted_imported_module-module_at (field_ref _ e y) x t ks h =
    let (js, found, same) = also_inv y.str (names_of e) ks h in
    rw same
      (go (find_node x t) js (λ below. dotted_imported_module-module_at e y.str below js found))
  where
    go :
        (r : Option ModuleNode) (js : List Bytes)
        → ((below : ModuleNames)
            → dotted_imported_module e y.str below ≡ module_at (y.str ∷ js) below)
        → (elim r [
          | none ↦ none
          | some (module_node _ below) ↦ dotted_imported_module e y.str below
        ])
          ≡ (elim r [ none ↦ none | some (module_node _ below) ↦ module_at (y.str ∷ js) below ])
    go none js ih = refl
    go (some (module_node _ below)) js ih = ih below
dotted_imported_module-module_at _ x t ks h = absurd (cc h)

-- Once `import a.b.c;` is loaded, the dotted expression with the same parts stands for that module, and every
-- other dotted expression for what it stood for before.
pub dotted_imported_module-import_module_name :
    (e : Expr) (x : Bytes) (ks parts : List Bytes) (m : ℕ) (t : ModuleNames)
    → names_of e ≡ some ks
    → dotted_imported_module e x (import_module_name none parts m t)
      ≡ (if paths_eq (last_first parts []) (x ∷ ks) then some m else dotted_imported_module e x t)
unfolding import_module_name
dotted_imported_module-import_module_name e x ks parts m t h =
    rw
      (
        dotted_imported_module-module_at e x t ks h,
        dotted_imported_module-module_at e x (install_names (last_first parts []) m t) ks h,
        module_at-install_names (last_first parts []) (x ∷ ks) m t,
      )
      (nonempty (last_first parts []))
  where
    nonempty :
        (p : List Bytes)
        → (if paths_eq p (x ∷ ks)
            then (elim p [ [] ↦ none | _ ∷ _ ↦ some m ])
            else module_at (x ∷ ks) t)
          ≡ (if paths_eq p (x ∷ ks) then some m else module_at (x ∷ ks) t)
    nonempty [] = refl
    nonempty (k ∷ p) = refl
