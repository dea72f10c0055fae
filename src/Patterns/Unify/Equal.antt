-- ===== src/Patterns/Unify/Equal.antt =====
-- compiler/patterns.cpp, lines 278-465: unification makes its two sides equal.
use ceramic.Prelude.{ℕ, zero, suc, ◌≡◌, refl, sym, ◌∙◌, Bool, true, false, Option, none, some}
use ceramic.Patterns.Deref.{Context, deref_pattern, deref_object, object_to_pattern}
use ceramic.Patterns.Objects.{
  Declaration, Object, Pattern, Patterns, MultiPattern, OptMultiPattern, Head, Kind, kind_pattern,
  kind_multi, kind_other, object_kind, pattern_object, cell_at, pattern_cell, pattern_struct,
  no_patterns, add_pattern, multi_cell_at, multi_list, no_tail, a_tail,
}
use ceramic.Patterns.Plain.{
  PlainObject, PlainOrPattern, PlainPattern, PlainMulti, KindIs, object_kind_lem,
}
use ceramic.Patterns.RoundTrip.{EvaluatesTuples, object-Trips, deref_object-Plain}
use ceramic.Patterns.Trips.{Trips}
use ceramic.Patterns.Unify.{
  Store, Equality, fill_cell, fill_multi, unify, unify_objects, unify_kinds, unify_object_pattern,
  unify_kind_pattern, unify_object_cell, unify_object_struct, unify_params, unify_cell, unify_multi,
  unify_multi_cell, unify_list_multi, unify_list_cell, unify_lists, unify_rest,
}
use ceramic.Patterns.Unify.Empty.{Succeeds, SameMulti, sound_tail, Sound-at, Sound-from, empty_list}
use ceramic.Patterns.Unify.Sound.{
  Solves, Extends, PlainStore, Sound, Sound-same, Sound-sym, Sound-cell, Sound-multi_cell,
  Sound-fill, Sound-fill_multi, Sound-add, Sound-struct,
}

-- What is equal by the tests is the same.
abbrev pub Lawful : Declaration → Equality → Type 0
Lawful r q =
    ((h h' : Head) → q.same_head h h' ≡ true → h ≡ h')
    × ((x y : Object) → PlainObject r x → PlainObject r y → q.object_equals x y ≡ true → x ≡ y)

made_value :
    (c : Context) (x : Object) (p p' : Pattern)
    → PlainObject c.by_ref x
    → p' ≡ p
    → deref_pattern c p ≡ some (some x)
    → deref_object c x ≡ deref_pattern c p'
made_value c x p p' i e d = deref_object-Plain c x i ∙ sym (rw e d)

made_plain :
    (c : Context) (p p' : Pattern) → p' ≡ p → PlainPattern c.by_ref p → PlainPattern c.by_ref p'
made_plain c p p' e v = rw e v

module _ (c : Context) (q : Equality) (lawful : Lawful c.by_ref q)
    (tuples : EvaluatesTuples c) where
  mutual
    unfolding unify deref_pattern

    objects :
        (f : ℕ) (x y : Object) (st st' : Store)
        → PlainOrPattern c.by_ref x
        → PlainOrPattern c.by_ref y
        → PlainStore c.by_ref st
        → Succeeds (unify_objects q c.by_ref f x y st) st'
        → Sound c st st' (deref_object c x) (deref_object c y)
    objects zero x y st st' v w s1 h = absurd (cc h)
    objects (suc f) x y st st' v w s1 h =
        kinds f (object_kind x) (object_kind y) x y st st' (object_kind_lem c.by_ref x v)
          (object_kind_lem c.by_ref y w) v w s1 h

    kinds :
        (f : ℕ) (j k : Kind) (x y : Object) (st st' : Store)
        → KindIs c.by_ref j x
        → KindIs c.by_ref k y
        → PlainOrPattern c.by_ref x
        → PlainOrPattern c.by_ref y
        → PlainStore c.by_ref st
        → Succeeds (unify_kinds q c.by_ref f j k x y st) st'
        → Sound c st st' (deref_object c x) (deref_object c y)
    kinds zero j k x y st st' i i' v w s1 h = absurd (cc h)
    kinds (suc f) (kind_pattern p) k x y st st' (e, u) i' v w s1 h =
        rw e (Sound-sym c st st' _ _ (object_pattern f y p st st' w u s1 h))
    kinds (suc f) kind_multi k x y st st' i i' v w s1 h = absurd i
    kinds (suc f) kind_other (kind_pattern p) x y st st' i (e, u) v w s1 h =
        rw e (object_pattern f x p st st' v u s1 h)
    kinds (suc f) kind_other kind_multi x y st st' i i' v w s1 h = absurd i'
    kinds (suc f) kind_other kind_other x y st st' (i, _) (i', _) v w s1 h =
        Sound-same c st st' _ _ (cc h) s1 (cc (lawful.1 x y i i' (cc h)))

    pub object_pattern :
        (f : ℕ) (x : Object) (p : Pattern) (st st' : Store)
        → PlainOrPattern c.by_ref x
        → PlainPattern c.by_ref p
        → PlainStore c.by_ref st
        → Succeeds (unify_object_pattern q c.by_ref f x p st) st'
        → Sound c st st' (deref_object c x) (deref_pattern c p)
    object_pattern zero x p st st' v w s1 h = absurd (cc h)
    object_pattern (suc f) x p st st' v w s1 h =
        kind_and_pattern f (object_kind x) x p st st' (object_kind_lem c.by_ref x v) w s1 h

    kind_and_pattern :
        (f : ℕ) (k : Kind) (x : Object) (p : Pattern) (st st' : Store)
        → KindIs c.by_ref k x
        → PlainPattern c.by_ref p
        → PlainStore c.by_ref st
        → Succeeds (unify_kind_pattern q c.by_ref f k x p st) st'
        → Sound c st st' (deref_object c x) (deref_pattern c p)
    kind_and_pattern zero k x p st st' i w s1 h = absurd (cc h)
    kind_and_pattern (suc f) (kind_pattern p') x p st st' (e, u) w s1 h =
        rw e (patterns f p' p st st' u w s1 h)
    kind_and_pattern (suc f) kind_multi x p st st' i w s1 h = absurd i
    kind_and_pattern (suc f) kind_other x (cell_at a) st st' (i, v) w s1 h =
        object_cell f (st.cells a) a x st st' refl v s1 h
    kind_and_pattern (suc f) kind_other x (pattern_cell o) st st' (i, v) w s1 h =
        Sound-sym c st st' _ _ (objects f o x st st' w v s1 h)
    kind_and_pattern (suc f) kind_other x (pattern_struct a m) st st' (i, v) w s1 h =
        object_struct f (object_to_pattern c.by_ref x) a m x st st' (object-Trips c tuples x i) i w
          s1 h

    object_cell :
        (f : ℕ) (o : Option Object) (a : ℕ) (x : Object) (st st' : Store)
        → st.cells a ≡ o
        → PlainOrPattern c.by_ref x
        → PlainStore c.by_ref st
        → Succeeds (unify_object_cell q c.by_ref f o a x st) st'
        → Sound c st st' (deref_object c x) (deref_pattern c (cell_at a))
    object_cell zero o a x st st' e v s1 h = absurd (cc h)
    object_cell (suc f) none a x st st' e v s1 h =
        Sound-sym c st st' _ _
          (Sound-at c st (fill_cell a x st) st' _ _ (cc h) (Sound-fill c st a x e v s1))
    object_cell (suc f) (some o) a x st st' e v s1 h =
        Sound-sym c st st' _ _
          (Sound-cell c st st' a o _ e (objects f o x st st' (s1.0 a o e) v s1 h))

    object_struct :
        (f : ℕ) (made : Option Pattern) (a : Head) (m : MultiPattern) (x : Object) (st st' : Store)
        → Trips c made x
        → PlainObject c.by_ref x
        → PlainMulti c.by_ref m
        → PlainStore c.by_ref st
        → Succeeds (unify_object_struct q c.by_ref f made a m st) st'
        → Sound c st st' (deref_object c x) (deref_pattern c (pattern_struct a m))
    object_struct zero made a m x st st' t i w s1 h = absurd (cc h)
    object_struct (suc f) none a m x st st' t i w s1 h = absurd (cc h)
    object_struct (suc f) (some (cell_at b)) a m x st st' t i w s1 h = absurd (cc h)
    object_struct (suc f) (some (pattern_cell o)) a m x st st' t i w s1 h = absurd (cc h)
    object_struct (suc f) (some (pattern_struct a' m')) a m x st st' (p, e, d, v) i w s1 h =
        Sound-from c st st' _ _ _ (made_value c x p (pattern_struct a' m') i (cc e) d) (
          params f (q.same_head a' a) a' a m' m st st' (lawful.0 a' a)
            (made_plain c p (pattern_struct a' m') (cc e) v) w s1 h)

    params :
        (f : ℕ) (same : Bool) (a a' : Head) (m m' : MultiPattern) (st st' : Store)
        → (same ≡ true → a ≡ a')
        → PlainMulti c.by_ref m
        → PlainMulti c.by_ref m'
        → PlainStore c.by_ref st
        → Succeeds (unify_params q c.by_ref f same m m' st) st'
        → Sound c st st'
            (deref_pattern c (pattern_struct a m))
            (deref_pattern c (pattern_struct a' m'))
    params zero same a a' m m' st st' e v w s1 h = absurd (cc h)
    params (suc f) false a a' m m' st st' e v w s1 h = absurd (cc h)
    params (suc f) true a a' m m' st st' e v w s1 h =
        Sound-struct c st st' a a' m m' (e refl) (multis f m m' st st' v w s1 h)

    patterns :
        (f : ℕ) (p p' : Pattern) (st st' : Store)
        → PlainPattern c.by_ref p
        → PlainPattern c.by_ref p'
        → PlainStore c.by_ref st
        → Succeeds (unify q c.by_ref f p p' st) st'
        → Sound c st st' (deref_pattern c p) (deref_pattern c p')
    patterns zero p p' st st' v w s1 h = absurd (cc h)
    patterns (suc f) (cell_at a) p' st st' v w s1 h = cell f (st.cells a) a p' st st' refl w s1 h
    patterns (suc f) (pattern_cell o) p' st st' v w s1 h = object_pattern f o p' st st' v w s1 h
    patterns (suc f) (pattern_struct b m) (cell_at a) st st' v w s1 h =
        Sound-sym c st st' _ _ (cell f (st.cells a) a (pattern_struct b m) st st' refl v s1 h)
    patterns (suc f) (pattern_struct b m) (pattern_cell o) st st' v w s1 h =
        Sound-sym c st st' _ _ (object_pattern f o (pattern_struct b m) st st' w v s1 h)
    patterns (suc f) (pattern_struct b m) (pattern_struct b' m') st st' v w s1 h =
        params f (q.same_head b b') b b' m m' st st' (lawful.0 b b') v w s1 h

    cell :
        (f : ℕ) (o : Option Object) (a : ℕ) (p : Pattern) (st st' : Store)
        → st.cells a ≡ o
        → PlainPattern c.by_ref p
        → PlainStore c.by_ref st
        → Succeeds (unify_cell q c.by_ref f o a p st) st'
        → Sound c st st' (deref_pattern c (cell_at a)) (deref_pattern c p)
    cell zero o a p st st' e v s1 h = absurd (cc h)
    cell (suc f) none a p st st' e v s1 h =
        Sound-at c st (fill_cell a (pattern_object p) st) st' _ _ (cc h)
          (Sound-fill c st a (pattern_object p) e v s1)
    cell (suc f) (some o) a p st st' e v s1 h =
        Sound-cell c st st' a o _ e (object_pattern f o p st st' (s1.0 a o e) v s1 h)

    multis :
        (f : ℕ) (m n : MultiPattern) (st st' : Store)
        → PlainMulti c.by_ref m
        → PlainMulti c.by_ref n
        → PlainStore c.by_ref st
        → Succeeds (unify_multi q c.by_ref f m n st) st'
        → SameMulti c st st' m n
    multis zero m n st st' v w s1 h = absurd (cc h)
    multis (suc f) (multi_cell_at a) n st st' v w s1 h =
        multi_cell f (st.multi_cells a) a n st st' refl w s1 h
    multis (suc f) (multi_list ps tail) n st st' v w s1 h = list_multi f ps tail n st st' v w s1 h

    multi_cell :
        (f : ℕ) (o : Option MultiPattern) (a : ℕ) (n : MultiPattern) (st st' : Store)
        → st.multi_cells a ≡ o
        → PlainMulti c.by_ref n
        → PlainStore c.by_ref st
        → Succeeds (unify_multi_cell q c.by_ref f o a n st) st'
        → SameMulti c st st' (multi_cell_at a) n
    multi_cell zero o a n st st' e w s1 h = absurd (cc h)
    multi_cell (suc f) none a n st st' e w s1 h =
        Sound-at c st (fill_multi a n st) st' _ _ (cc h) (Sound-fill_multi c st a n e w s1)
    multi_cell (suc f) (some m) a n st st' e w s1 h =
        Sound-multi_cell c st st' a m _ e (multis f m n st st' (s1.1 a m e) w s1 h)

    list_multi :
        (f : ℕ) (ps : Patterns) (tail : OptMultiPattern) (n : MultiPattern) (st st' : Store)
        → PlainMulti c.by_ref (multi_list ps tail)
        → PlainMulti c.by_ref n
        → PlainStore c.by_ref st
        → Succeeds (unify_list_multi q c.by_ref f ps tail n st) st'
        → SameMulti c st st' (multi_list ps tail) n
    list_multi zero ps tail n st st' v w s1 h = absurd (cc h)
    list_multi (suc f) ps tail (multi_cell_at a) st st' v w s1 h =
        list_cell f (st.multi_cells a) a ps tail st st' refl v s1 h
    list_multi (suc f) ps tail (multi_list ps' tail') st st' v w s1 h =
        lists f ps tail ps' tail' st st' v w s1 h

    list_cell :
        (f : ℕ) (o : Option MultiPattern) (a : ℕ) (ps : Patterns) (tail : OptMultiPattern)
        (st st' : Store)
        → st.multi_cells a ≡ o
        → PlainMulti c.by_ref (multi_list ps tail)
        → PlainStore c.by_ref st
        → Succeeds (unify_list_cell q c.by_ref f o a ps tail st) st'
        → SameMulti c st st' (multi_list ps tail) (multi_cell_at a)
    list_cell zero o a ps tail st st' e v s1 h = absurd (cc h)
    list_cell (suc f) none a ps tail st st' e v s1 h = Sound-sym c st st' _ _ (
        Sound-at c st (fill_multi a (multi_list ps tail) st) st' _ _ (cc h)
          (Sound-fill_multi c st a (multi_list ps tail) e v s1))
    list_cell (suc f) (some m) a ps tail st st' e v s1 h = Sound-sym c st st' _ _ (
        Sound-multi_cell c st st' a m _ e
          (Sound-sym c st st' _ _ (list_multi f ps tail m st st' v (s1.1 a m e) s1 h)))

    lists :
        (f : ℕ) (ps : Patterns) (tail : OptMultiPattern) (ps' : Patterns) (tail' : OptMultiPattern)
        (st st' : Store)
        → PlainMulti c.by_ref (multi_list ps tail)
        → PlainMulti c.by_ref (multi_list ps' tail')
        → PlainStore c.by_ref st
        → Succeeds (unify_lists q c.by_ref f ps tail ps' tail' st) st'
        → SameMulti c st st' (multi_list ps tail) (multi_list ps' tail')
    lists zero ps tail ps' tail' st st' v w s1 h = absurd (cc h)
    lists (suc f) (add_pattern p ps) tail (add_pattern p' ps') tail' st st' ((v, vs), vt)
          ((w, ws), wt) s1 h =
        rest f (unify q c.by_ref f p p' st) p p' ps tail ps' tail' st st'
          (λ st1 k. patterns f p p' st st1 v w s1 k) (vs, vt) (ws, wt) h
    lists (suc f) (add_pattern p ps) tail no_patterns no_tail st st' v w s1 h = absurd (cc h)
    lists (suc f) (add_pattern p ps) tail no_patterns (a_tail m) st st' v (_, w) s1 h =
        sound_tail c st st' (multi_list (add_pattern p ps) tail) m
          (list_multi f (add_pattern p ps) tail m st st' v w s1 h)
    lists (suc f) no_patterns (a_tail m) ps' tail' st st' (_, v) w s1 h =
        Sound-sym c st st' _ _
          (sound_tail c st st' (multi_list ps' tail') m (list_multi f ps' tail' m st st' w v s1 h))
    lists (suc f) no_patterns no_tail ps' tail' st st' v (_, w) s1 h =
        empty_list c f ps' tail' st st' w s1 h

    rest :
        (f : ℕ) (r : Option (Bool × Store)) (p p' : Pattern) (ps : Patterns)
        (tail : OptMultiPattern) (ps' : Patterns) (tail' : OptMultiPattern) (st st' : Store)
        → ((st1 : Store) → Succeeds r st1 → Sound c st st1 (deref_pattern c p) (deref_pattern c p'))
        → PlainMulti c.by_ref (multi_list ps tail)
        → PlainMulti c.by_ref (multi_list ps' tail')
        → Succeeds (unify_rest q c.by_ref f r ps tail ps' tail') st'
        → SameMulti c st st'
            (multi_list (add_pattern p ps) tail)
            (multi_list (add_pattern p' ps') tail')
    rest zero r p p' ps tail ps' tail' st st' g v w h = absurd (cc h)
    rest (suc f) none p p' ps tail ps' tail' st st' g v w h = absurd (cc h)
    rest (suc f) (some (false, st1)) p p' ps tail ps' tail' st st' g v w h = absurd (cc h)
    rest (suc f) (some (true, st1)) p p' ps tail ps' tail' st st' g v w h =
        Sound-add c st st1 st' p p' ps ps' tail tail' (g st1 refl)
          (lists f ps tail ps' tail' st1 st' v w (g st1 refl).0 h)

-- Where unification succeeds, every filled cell keeps what it held, and both patterns have the same value in every
-- context whose values of the cells are those of what the cells hold afterwards. The values in both patterns and in
-- the cells are to have no patterns in them, and no tuple with a static element that is a value, such as `#3`, or a
-- record or variant without parameters; the tests on heads and values are to be right, and the evaluator to make
-- tuples of the other elements.
pub unify-Equal :
    (c : Context) (q : Equality)
    → Lawful c.by_ref q
    → EvaluatesTuples c
    → (f : ℕ) (p p' : Pattern) (st st' : Store) → PlainPattern c.by_ref p
    → PlainPattern c.by_ref p'
    → PlainStore c.by_ref st
    → unify q c.by_ref f p p' st ≡ some (true, st')
    → Solves c st'
    → Extends st st' × (deref_pattern c p ≡ deref_pattern c p')
unify-Equal c q lawful tuples f p p' st st' v w s1 h solves =
    let r = patterns c q lawful tuples f p p' st st' v w s1 h in (r.1, r.2 solves)
