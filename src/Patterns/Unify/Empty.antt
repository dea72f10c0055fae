-- ===== src/Patterns/Unify/Empty.antt =====
-- compiler/patterns.cpp, lines 440-465: patterns for no values.
use ceramic.Prelude.{ℕ, zero, suc, ◌≡◌, refl, subst, Bool, true, Option, none, some}
use ceramic.Patterns.Deref.{Context, deref_pattern, deref_multi}
use ceramic.Patterns.Objects.{
  Patterns, MultiPattern, OptMultiPattern, no_patterns, add_pattern, multi_cell_at, multi_list,
  no_tail, a_tail,
}
use ceramic.Patterns.Plain.{PlainMulti, PlainTail}
use ceramic.Patterns.Unify.{Store, fill_multi, unify_empty_list, unify_empty, unify_empty_cell}
use ceramic.Patterns.Unify.Sound.{
  PlainStore, Sound, Sound-same, Sound-sym, Sound-multi_cell, Sound-fill_multi, deref_multi_tail,
}

abbrev pub Succeeds : Option (Bool × Store) → Store → Type 0
Succeeds result st' = result ≡ some (true, st')

abbrev pub SameMulti : Context → Store → Store → MultiPattern → MultiPattern → Type 0
SameMulti c st st' m n = Sound c st st' (deref_multi c m) (deref_multi c n)

pub sound_tail :
    (c : Context) (st st' : Store) (m n : MultiPattern)
    → SameMulti c st st' m n
    → SameMulti c st st' m (multi_list no_patterns (a_tail n))
sound_tail c st st' m n s1 = rw (deref_multi_tail c n) s1

pub Sound-at :
    {A : Type 0} (c : Context) (st st1 st2 : Store) (x y : A)
    → st1 ≡ st2
    → Sound c st st1 x y
    → Sound c st st2 x y
Sound-at c st st1 st2 x y e s1 = subst (λ s2. Sound c st s2 x y) e s1

pub Sound-from :
    {A : Type 0} (c : Context) (st st' : Store) (x y z : A)
    → x ≡ y
    → Sound c st st' y z
    → Sound c st st' x z
Sound-from c st st' x y z e s1 = rw e s1

module _ (c : Context) where
  mutual
    unfolding unify_empty deref_pattern

    pub empty_list :
        (f : ℕ) (ps : Patterns) (tail : OptMultiPattern) (st st' : Store)
        → PlainTail c.by_ref tail
        → PlainStore c.by_ref st
        → Succeeds (unify_empty_list f ps tail st) st'
        → SameMulti c st st' (multi_list no_patterns no_tail) (multi_list ps tail)
    empty_list zero ps tail st st' w s1 h = absurd (cc h)
    empty_list (suc f) (add_pattern p ps) tail st st' w s1 h = absurd (cc h)
    empty_list (suc f) no_patterns no_tail st st' w s1 h = Sound-same c st st' _ _ (cc h) s1 refl
    empty_list (suc f) no_patterns (a_tail m) st st' w s1 h =
        sound_tail c st st' (multi_list no_patterns no_tail) m (empty f m st st' w s1 h)

    empty :
        (f : ℕ) (m : MultiPattern) (st st' : Store)
        → PlainMulti c.by_ref m
        → PlainStore c.by_ref st
        → Succeeds (unify_empty f m st) st'
        → SameMulti c st st' (multi_list no_patterns no_tail) m
    empty zero m st st' w s1 h = absurd (cc h)
    empty (suc f) (multi_cell_at a) st st' w s1 h =
        empty_cell f (st.multi_cells a) a st st' refl s1 h
    empty (suc f) (multi_list ps tail) st st' (_, w) s1 h = empty_list f ps tail st st' w s1 h

    empty_cell :
        (f : ℕ) (x : Option MultiPattern) (a : ℕ) (st st' : Store)
        → st.multi_cells a ≡ x
        → PlainStore c.by_ref st
        → Succeeds (unify_empty_cell f x a st) st'
        → SameMulti c st st' (multi_list no_patterns no_tail) (multi_cell_at a)
    empty_cell zero x a st st' e s1 h = absurd (cc h)
    empty_cell (suc f) none a st st' e s1 h = Sound-sym c st st' _ _ (
        Sound-at c st (fill_multi a (multi_list no_patterns no_tail) st) st' _ _ (cc h)
          (Sound-fill_multi c st a (multi_list no_patterns no_tail) e (tt, tt) s1))
    empty_cell (suc f) (some m) a st st' e s1 h = Sound-sym c st st' _ _ (
        Sound-multi_cell c st st' a m _ e
          (Sound-sym c st st' _ _ (empty f m st st' (s1.1 a m e) s1 h)))
