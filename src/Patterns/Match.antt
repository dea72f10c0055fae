-- ===== src/Patterns/Match.antt =====
-- compiler/patterns.cpp, lines 28-465: what a value that matches a pattern leaves in the pattern's cells.
use ceramic.Prelude.{ℕ, ◌≡◌, ◌∙◌, sym, true, some}
use ceramic.Patterns.Cells.{Settled, deref_cells, deref_cells-Solves, with_values}
use ceramic.Patterns.Deref.{Context, deref_pattern}
use ceramic.Patterns.Objects.{Object, Pattern}
use ceramic.Patterns.Plain.{PlainObject, PlainPattern, plain_or}
use ceramic.Patterns.RoundTrip.{EvaluatesTuples, deref_object-Plain}
use ceramic.Patterns.Unify.{Equality, Store, unify_object_pattern}
use ceramic.Patterns.Unify.Equal.{Lawful, object_pattern}
use ceramic.Patterns.Unify.Sound.{PlainStore}

-- Where a value without patterns in it unifies with a pattern, `derefDeep` of the pattern, with fuel that is enough
-- for the cells, gives that value back. No tuple in the value, the pattern's values or what the cells hold is to have
-- a static element that is a value, such as `#3`, or a record or variant without parameters; the tests on heads and
-- values are to be right, the evaluator to make tuples of the other elements, and the cells to hold values without
-- patterns in them, or patterns of such values.
pub unify_object_pattern-deref_pattern :
    (c : Context) (q : Equality)
    → Lawful c.by_ref q
    → EvaluatesTuples c
    → (f g : ℕ) (x : Object) (p : Pattern) (st st' : Store) → PlainObject c.by_ref x
    → PlainPattern c.by_ref p
    → PlainStore c.by_ref st
    → unify_object_pattern q c.by_ref f x p st ≡ some (true, st')
    → Settled c g st'
    → deref_pattern (deref_cells c g st') p ≡ some (some x)
unfolding deref_cells with_values
unify_object_pattern-deref_pattern c q lawful tuples f g x p st st' plain w s1 h settled =
    let d = deref_cells c g st' in
    let r = object_pattern d q lawful tuples f x p st st' (plain_or c.by_ref x plain) w s1 h in
    sym (r.2 (deref_cells-Solves c g st' settled)) ∙ deref_object-Plain d x plain
