-- ===== src/Invoke/Arguments.antt =====
-- compiler/matchinvoke.cpp, lines 173-189: which argument goes to which formal argument.
use ceramic.Prelude.{
  ℕ, suc, ◌+◌, ◌-◌, ◌%◌, ◌^◌, ◌<◌, ◌≡◌, refl, subst, true, false, Option, none, some, List, [], ◌∷◌,
  ◌++◌, length, length-append, append-nil, arith,
}
use ceramic.Invoke.Overload.{
  Formal, elem_at, arg_key, var_arg_size, types_from, before, later, add_fixed, or_else, add_var,
  collect,
}
use ceramic.Patterns.Construct.{◌>>=◌}
use ceramic.Patterns.Objects.{CeramicType}

abbrev pub AllFixed : List Formal → Type 0
AllFixed [] = Unit
AllFixed (x ∷ xs) = (x.var_arg ≡ false) × AllFixed xs

-- The names of the formal arguments with the types, in their order.
abbrev pub named : List Formal → List CeramicType → List (ℕ × CeramicType)
named [] ts = []
named (x ∷ xs) [] = []
named (x ∷ xs) (t ∷ ts) = (x.name, t) ∷ named xs ts

-- The types stand in the list from the place on.
abbrev Sits : List CeramicType → ℕ → List CeramicType → Type 0
Sits keys n [] = Unit
Sits keys n (t ∷ ts) = (elem_at keys n ≡ some t) × Sits keys (suc n) ts

Sits-cons :
    (k : CeramicType) (keys : List CeramicType) (n : ℕ) (ts : List CeramicType)
    → Sits keys n ts
    → Sits (k ∷ keys) (suc n) ts
unfolding elem_at
Sits-cons k keys n [] h = tt
Sits-cons k keys n (t ∷ ts) (h, hs) = (h, Sits-cons k keys (suc n) ts hs)

Sits-start : (ts rest : List CeramicType) → Sits (ts ++ rest) 0 ts
unfolding elem_at
Sits-start [] rest = tt
Sits-start (t ∷ ts) rest = (refl, Sits-cons t (ts ++ rest) 0 ts (Sits-start ts rest))

Sits-append :
    (front keys : List CeramicType) (n : ℕ) (ts : List CeramicType)
    → Sits keys n ts
    → Sits (front ++ keys) (length front + n) ts
Sits-append [] keys n ts h = subst (λ m. Sits keys m ts) (omega arith) h
Sits-append (k ∷ front) keys n ts h =
    subst (λ m. Sits (k ∷ (front ++ keys)) m ts) (omega arith)
      (Sits-cons k (front ++ keys) (length front + n) ts (Sits-append front keys n ts h))

place : (i j n : ℕ) → i + j ≡ n → n < 2 ^ 32 → (i + j) % 2 ^ 32 ≡ n
place i j n e k = omega (arith, e, k)

types_from_lem :
    (keys : List CeramicType) (i j n : ℕ) (ts : List CeramicType)
    → i + j ≡ n
    → n + length ts < 2 ^ 32
    → Sits keys n ts
    → types_from keys i j (length ts) ≡ some ts
unfolding types_from arg_key ◌>>=◌
types_from_lem keys i j n [] e k h = refl
types_from_lem keys i j n (t ∷ ts) e k (h, hs) =
    rw
      (
        place i j n e (omega arith),
        h,
        types_from_lem keys i (suc j) (suc n) ts (omega arith) (omega arith) hs,
      )
      refl

collect_fixed :
    (keys : List CeramicType) (w i j n : ℕ) (xs : List Formal) (ts : List CeramicType)
    → AllFixed xs
    → length ts ≡ length xs
    → (i + j) % 2 ^ 32 ≡ n
    → n + length ts < 2 ^ 32
    → Sits keys n ts
    → collect keys w i j xs ≡ some (record { fixed = named xs ts; var_arg = none; var_types = [] })
unfolding collect arg_key add_fixed ◌>>=◌
collect_fixed keys w i j n [] ts a l e k h = refl
collect_fixed keys w i j n (x ∷ xs) [] a l e k h = absurd (omega arith)
collect_fixed keys w i j n (x ∷ xs) (t ∷ ts) (a, b) l e k (h, hs) =
    rw
      (
        a,
        e,
        h,
        collect_fixed keys w (suc i) j (suc n) xs ts b (omega arith) (omega arith) (omega arith) hs,
      )
      refl

collect_prefix :
    (keys : List CeramicType) (w i : ℕ) (pre rest : List Formal) (ts : List CeramicType)
    (fs : List (ℕ × CeramicType)) (v : Option (ℕ × ℕ)) (vs : List CeramicType)
    → AllFixed pre
    → length ts ≡ length pre
    → i + length ts < 2 ^ 32
    → Sits keys i ts
    → collect keys w (i + length pre) 0 rest
      ≡ some (record { fixed = fs; var_arg = v; var_types = vs })
    → collect keys w i 0 (pre ++ rest)
      ≡ some (record { fixed = named pre ts ++ fs; var_arg = v; var_types = vs })
unfolding collect arg_key add_fixed ◌>>=◌
collect_prefix keys w i [] rest ts fs v vs a l k h c =
    subst (λ m. collect keys w m 0 rest ≡ some (record { fixed = fs; var_arg = v; var_types = vs }))
      (omega arith) c
collect_prefix keys w i (x ∷ pre) rest [] fs v vs a l k h c = absurd (omega arith)
collect_prefix keys w i (x ∷ pre) rest (t ∷ ts) fs v vs (a, b) l k (h, hs) c =
    rw
      (
        a,
        place i 0 i (omega arith) (omega arith),
        h,
        collect_prefix keys w (suc i) pre rest ts fs v vs b (omega arith) (omega arith) hs (
            subst
              (λ m.
                collect keys w m 0 rest ≡ some (record { fixed = fs; var_arg = v; var_types = vs }))
              (omega arith) c),
      )
      refl

minus_zero : (w : ℕ) → w - 0 ≡ w
minus_zero w = omega arith

later_start : (w : ℕ) → later 0 w ≡ w
unfolding later
later_start w = ground arith

-- After the variadic argument `j` is one less than there are types for it, and wraps where there are none.
place_after : (i w : ℕ) → i + w < 2 ^ 32 → (suc i + before w) % 2 ^ 32 ≡ i + w
unfolding before
place_after i w k = omega (arith, k)

collect_variadic :
    (keys : List CeramicType) (i : ℕ) (x : Formal) (post : List Formal) (ts us : List CeramicType)
    → x.var_arg ≡ true
    → AllFixed post
    → length us ≡ length post
    → i + length ts + length us < 2 ^ 32
    → Sits keys i ts
    → Sits keys (i + length ts) us
    → collect keys (length ts) i 0 (x ∷ post)
      ≡ some (record { fixed = named post us; var_arg = some (x.name, i); var_types = ts })
unfolding collect add_var or_else ◌>>=◌
collect_variadic keys i x post ts us v a m k h hs =
    rw
      (
        v,
        minus_zero (length ts),
        types_from_lem keys i 0 i ts (omega arith) (omega arith) h,
        later_start (length ts),
        collect_fixed keys (length ts) (suc i) (before (length ts)) (i + length ts) post us a m
            (place_after i (length ts) (omega arith)) (omega arith) hs,
        append-nil ts,
      )
      refl

var_arg_size_lem : (a b n : ℕ) → a + b + n < 2 ^ 32 → var_arg_size (a + (n + b)) (a + suc b) ≡ n
unfolding var_arg_size
var_arg_size_lem a b n k = omega (arith, k)

-- A call of a procedure with a variadic argument: the fixed arguments in front of it take the first types, those
-- behind it the last, and it takes the types between them, however few, for less than 2 ^ 32 arguments.
pub collect-variadic :
    (pre post : List Formal) (x : Formal) (ts us vs : List CeramicType)
    → AllFixed pre
    → AllFixed post
    → x.var_arg ≡ true
    → length ts ≡ length pre
    → length vs ≡ length post
    → length (ts ++ (us ++ vs)) < 2 ^ 32
    → collect
        (ts ++ (us ++ vs))
        (var_arg_size (length (ts ++ (us ++ vs))) (length (pre ++ (x ∷ post))))
        0
        0
        (pre ++ (x ∷ post))
      ≡ some (record {
        fixed = named pre ts ++ named post vs;
        var_arg = some (x.name, length pre);
        var_types = us;
      })
collect-variadic pre post x ts us vs a b v l m k = rw size (
    collect_prefix keys (length us) 0 pre (x ∷ post) ts (named post vs) (some (x.name, length pre))
      us a l (omega (arith, lengths)) (Sits-start ts (us ++ vs))
      (subst
        (λ n.
          collect keys (length us) n 0 (x ∷ post)
          ≡ some (record {
            fixed = named post vs;
            var_arg = some (x.name, length pre);
            var_types = us;
          }))
        (omega arith)
        (collect_variadic keys (length pre) x post us vs v b m (omega (arith, lengths, l)) middle
          last)))
  where
    keys : List CeramicType
    keys = ts ++ (us ++ vs)

    lengths : length ts + (length us + length vs) < 2 ^ 32
    lengths = omega (arith, length-append ts (us ++ vs), length-append us vs, k)

    size : var_arg_size (length keys) (length (pre ++ (x ∷ post))) ≡ length us
    size =
        rw (length-append ts (us ++ vs), length-append us vs, length-append pre (x ∷ post), l, m)
          (var_arg_size_lem (length pre) (length post) (length us) (omega (arith, lengths, l, m)))

    middle : Sits keys (length pre) us
    middle =
        subst (λ n. Sits keys n us) (omega (arith, l))
          (Sits-append ts (us ++ vs) 0 us (Sits-start us vs))

    last : Sits keys (length pre + length us) vs
    last =
        subst (λ n. Sits keys n vs) (omega (arith, l))
          (Sits-append ts (us ++ vs) (length us) vs (
            subst (λ n. Sits (us ++ vs) n vs) (omega arith)
              (Sits-append us vs 0 vs
                (subst (λ zs. Sits zs 0 vs) (append-nil vs) (Sits-start vs [])))))
