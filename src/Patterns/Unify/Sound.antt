-- ===== src/Patterns/Unify/Sound.antt =====
-- compiler/patterns.cpp, lines 278-465: what a successful unification does to the cells, in parts.
use ceramic.Prelude.{
  ℕ, ◌≡◌, refl, sym, subst, ◌∙◌, Bool, true, false, Option, none, some, ◌==◌, if◌then◌else◌, arith,
}
use ceramic.Patterns.Construct.{◌>>=◌}
use ceramic.Patterns.Deref.{
  Context, if_bound, deref_pattern, deref_object, deref_multi, deref_items, deref_tail,
}
use ceramic.Patterns.Objects.{
  Declaration, Object, Objects, Pattern, Patterns, MultiPattern, OptMultiPattern, Head,
  pattern_struct, add_pattern, no_patterns, multi_list, no_tail, a_tail, no_objects, add_object,
  append_objects,
}
use ceramic.Patterns.Plain.{PlainOrPattern, PlainMulti}
use ceramic.Patterns.Unify.{Store, fill, fill_cell, fill_multi}

-- The values of the cells that the context has are those of what the cells hold.
abbrev pub Solves : Context → Store → Type 0
Solves c st =
    ((a : ℕ) (o : Object) → st.cells a ≡ some o → c.one a ≡ deref_object c o)
    × ((a : ℕ) (m : MultiPattern) → st.multi_cells a ≡ some m → c.many a ≡ deref_multi c m)

-- What is in a cell stays there.
abbrev pub Extends : Store → Store → Type 0
Extends st st' =
    ((a : ℕ) (o : Object) → st.cells a ≡ some o → st'.cells a ≡ some o)
    × ((a : ℕ) (m : MultiPattern) → st.multi_cells a ≡ some m → st'.multi_cells a ≡ some m)

-- The values in the cells have no patterns in them, but may be patterns.
abbrev pub PlainStore : Declaration → Store → Type 0
PlainStore r st =
    ((a : ℕ) (o : Object) → st.cells a ≡ some o → PlainOrPattern r o)
    × ((a : ℕ) (m : MultiPattern) → st.multi_cells a ≡ some m → PlainMulti r m)

-- From one store to the other the two values are made equal.
abbrev pub Sound : {A : Type 0} → Context → Store → Store → A → A → Type 0
Sound c st st' x y = PlainStore c.by_ref st' × Extends st st' × (Solves c st' → x ≡ y)

pub Solves-before : (c : Context) (st st' : Store) → Extends st st' → Solves c st' → Solves c st
Solves-before c st st' (e, f) (s1, s2) = (λ a o h. s1 a o (e a o h), λ a m h. s2 a m (f a m h))

pub Extends-trans : (st1 st2 st3 : Store) → Extends st1 st2 → Extends st2 st3 → Extends st1 st3
Extends-trans st1 st2 st3 (e, f) (g, k) = (λ a o h. g a o (e a o h), λ a m h. k a m (f a m h))

pub Sound-same :
    {A : Type 0} (c : Context) (st st' : Store) (x y : A)
    → st ≡ st'
    → PlainStore c.by_ref st
    → x ≡ y
    → Sound c st st' x y
Sound-same c st st' x y e plain k = rw (sym e) (plain, (λ a o h. h, λ a m h. h), λ _. k)

pub Sound-sym :
    {A : Type 0} (c : Context) (st st' : Store) (x y : A) → Sound c st st' x y → Sound c st st' y x
Sound-sym c st st' x y (p, e, k) = (p, e, λ s1. sym (k s1))

-- A cell that is filled has the value of what it holds.
pub Sound-cell :
    (c : Context) (st st' : Store) (a : ℕ) (o : Object) (x : Option (Option Object))
    → st.cells a ≡ some o
    → Sound c st st' (deref_object c o) x
    → Sound c st st' (c.one a) x
Sound-cell c st st' a o x h (p, e, k) = (p, e, λ s1. (Solves-before c st st' e s1).0 a o h ∙ k s1)

pub Sound-multi_cell :
    (c : Context) (st st' : Store) (a : ℕ) (m : MultiPattern) (x : Option (Option Objects))
    → st.multi_cells a ≡ some m
    → Sound c st st' (deref_multi c m) x
    → Sound c st st' (c.many a) x
Sound-multi_cell c st st' a m x h (p, e, k) =
    (p, e, λ s1. (Solves-before c st st' e s1).1 a m h ∙ k s1)

fill_self : {A : Type 0} (a : ℕ) (x : A) (f : ℕ → Option A) → fill a x f a ≡ some x
unfolding fill
fill_self a x f = ground arith

fill_keeps :
    {A : Type 0} (a b : ℕ) (x y : A) (f : ℕ → Option A)
    → f a ≡ none
    → f b ≡ some y
    → fill a x f b ≡ some y
unfolding fill
fill_keeps a b x y f h k = ground arith

fill-Holds :
    {A : Type 0} (P : A → Type 0) (a b : ℕ) (x y : A) (f : ℕ → Option A)
    → P x
    → ((z : A) → f b ≡ some z → P z)
    → fill a x f b ≡ some y
    → P y
unfolding fill
fill-Holds P a b x y f p g h = go (a == b) h
  where
    go : (r : Bool) → (if r then some x else f b) ≡ some y → P y
    go true h = subst P (cc h) p
    go false h = g y h

-- An empty cell takes what the other side is.
pub Sound-fill :
    (c : Context) (st : Store) (a : ℕ) (o : Object)
    → st.cells a ≡ none
    → PlainOrPattern c.by_ref o
    → PlainStore c.by_ref st
    → Sound c st (fill_cell a o st) (c.one a) (deref_object c o)
unfolding fill_cell
Sound-fill c st a o h p (p1, p2) = (
  (λ b y. fill-Holds (PlainOrPattern c.by_ref) a b o y st.cells p (p1 b), p2),
  (λ b y. fill_keeps a b o y st.cells h, λ b m k. k),
  λ s1. s1.0 a o (fill_self a o st.cells),
)

pub Sound-fill_multi :
    (c : Context) (st : Store) (a : ℕ) (m : MultiPattern)
    → st.multi_cells a ≡ none
    → PlainMulti c.by_ref m
    → PlainStore c.by_ref st
    → Sound c st (fill_multi a m st) (c.many a) (deref_multi c m)
unfolding fill_multi
Sound-fill_multi c st a m h p (p1, p2) = (
  (p1, λ b n. fill-Holds (PlainMulti c.by_ref) a b m n st.multi_cells p (p2 b)),
  (λ b o k. k, λ b n. fill_keeps a b m n st.multi_cells h),
  λ s1. s1.1 a m (fill_self a m st.multi_cells),
)

-- The value of a list is that of its first item, in front of those of the rest.
abbrev cons_value : Option (Option Object) → Option (Option Objects) → Option (Option Objects)
cons_value d ds =
    d >>= λ r. if_bound r λ o. ds >>= λ rs. if_bound rs λ os. some (some (add_object o os))

deref_multi_add :
    (c : Context) (p : Pattern) (ps : Patterns) (tail : OptMultiPattern)
    → deref_multi c (multi_list (add_pattern p ps) tail)
      ≡ cons_value (deref_pattern c p) (deref_multi c (multi_list ps tail))
unfolding deref_multi deref_items deref_tail ◌>>=◌ if_bound append_objects
deref_multi_add c p ps tail = go (deref_pattern c p) (deref_items c ps) tail
  where
    with_tail :
        (o : Object) (os : Objects) (d : Option (Option Objects))
        → (d >>= λ r. if_bound r λ t. some (some (append_objects (add_object o os) t)))
          ≡ cons_value
              (some (some o))
              (d >>= λ r. if_bound r λ t. some (some (append_objects os t)))
    with_tail o os none = refl
    with_tail o os (some none) = refl
    with_tail o os (some (some t)) = refl

    go :
        (d : Option (Option Object)) (ds : Option (Option Objects)) (tail : OptMultiPattern)
        → (cons_value d ds >>= λ r. if_bound r λ os. deref_tail c tail os)
          ≡ cons_value d (ds >>= λ r. if_bound r λ os. deref_tail c tail os)
    go none ds tail = refl
    go (some none) ds tail = refl
    go (some (some o)) none tail = refl
    go (some (some o)) (some none) tail = refl
    go (some (some o)) (some (some os)) no_tail = refl
    go (some (some o)) (some (some os)) (a_tail m) = with_tail o os (deref_multi c m)

pub deref_multi_tail :
    (c : Context) (m : MultiPattern)
    → deref_multi c (multi_list no_patterns (a_tail m)) ≡ deref_multi c m
unfolding deref_multi deref_items deref_tail ◌>>=◌ if_bound append_objects
deref_multi_tail c m = go (deref_multi c m)
  where
    go :
        (d : Option (Option Objects))
        → (d >>= λ r. if_bound r λ tail. some (some (append_objects no_objects tail))) ≡ d
    go none = refl
    go (some none) = refl
    go (some (some os)) = refl

-- The items one after the other.
pub Sound-add :
    (c : Context) (st1 st2 st3 : Store) (p p' : Pattern) (ps ps' : Patterns)
    (tail tail' : OptMultiPattern)
    → Sound c st1 st2 (deref_pattern c p) (deref_pattern c p')
    → Sound c st2 st3 (deref_multi c (multi_list ps tail)) (deref_multi c (multi_list ps' tail'))
    → Sound c st1 st3
        (deref_multi c (multi_list (add_pattern p ps) tail))
        (deref_multi c (multi_list (add_pattern p' ps') tail'))
Sound-add c st1 st2 st3 p p' ps ps' tail tail' (p1, e1, k1) (p2, e2, k2) = (
  p2,
  Extends-trans st1 st2 st3 e1 e2,
  λ s1. cc (
    deref_multi_add c p ps tail,
    deref_multi_add c p' ps' tail',
    k1 (Solves-before c st2 st3 e2 s1),
    k2 s1,
  ),
)

pub Sound-struct :
    (c : Context) (st st' : Store) (h h' : Head) (m m' : MultiPattern)
    → h ≡ h'
    → Sound c st st' (deref_multi c m) (deref_multi c m')
    → Sound c st st' (deref_pattern c (pattern_struct h m)) (deref_pattern c (pattern_struct h' m'))
unfolding deref_pattern
Sound-struct c st st' h h' m m' e (p, x, k) = (p, x, λ s1. rw (e, k s1) refl)
