-- ===== src/Lexer/Scan/Progress.antt =====
-- How far the scanners of compiler/lexer.cpp move: rules for each combinator.
use ceramic.Prelude.{
  ℕ, zero, suc, ◌≤◌, ◌<◌, ◌≡◌, refl, Bool, inl, inr, Option, none, some, [], ◌∷◌, Bytes, length,
  ◌==◌, Bool-cases, Option-cases, arith, subst,
}
use ceramic.Lexer.Scan.{
  Scan, ◌>>=◌, ◌>>◌, ◌<|>◌, pure, next, satisfy, char, str, many, many_fuel, optional, not_ahead,
  captured,
}

-- `P` holds of the value and the bytes left, if the scanner succeeds.
pub data After {ℓ κ} {A : Type ℓ} (P : A → Bytes → Type κ) : Option (A × Bytes) → Type (ℓ ⊔ κ) where
  failed : After P none
  read : {a : A} {r : Bytes} → P a r → After P (some (a, r))

module _ {ℓ κ} {A : Type ℓ} {P : A → Bytes → Type κ} where
  pub After-some :
      {o : Option (A × Bytes)} {a : A} {r : Bytes} → After P o → o ≡ some (a, r) → P a r
  After-some {a} {r} (read {a = b} {r = t} h) e =
      subst (λ (x : Option (A × Bytes)). elim x [ none ↦ P a r | some (c, u) ↦ P c u ]) e h
  After-some failed e = cc

  pub After-map {μ} :
      {Q : A → Bytes → Type μ} {o : Option (A × Bytes)}
      → After P o
      → ((a : A) (r : Bytes) → P a r → Q a r)
      → After Q o
  After-map failed f = failed
  After-map (read {a} {r} h) f = read (f a r h)

  pub After->>= {ℓ' κ'} :
      {B : Type ℓ'} {Q : B → Bytes → Type κ'} (m : Scan A) (f : A → Scan B) {s : Bytes}
      → After P (m s)
      → ((a : A) (r : Bytes) → P a r → After Q (f a r))
      → After Q ((m >>= f) s)
  unfolding ◌>>=◌
  After->>= {Q} m f {s} h k = go (m s) h
    where
      go :
          (o : Option (A × Bytes))
          → After P o
          → After Q (elim o [ none ↦ none | some (a, r) ↦ f a r ])
      go none g = failed
      go (some (a, r)) g = k a r (After-some g refl)

  pub After->> {ℓ' κ'} :
      {B : Type ℓ'} {Q : B → Bytes → Type κ'} (m : Scan A) (k : Scan B) {s : Bytes}
      → After P (m s)
      → ((a : A) (r : Bytes) → P a r → After Q (k r))
      → After Q ((m >> k) s)
  unfolding ◌>>=◌ ◌>>◌
  After->> m k h f = After->>= m (λ _. k) h f

  pub After-<|> : (m k : Scan A) {s : Bytes} → After P (m s) → After P (k s) → After P ((m <|> k) s)
  unfolding ◌<|>◌
  After-<|> m k {s} h g = go (m s) h
    where
      go : (o : Option (A × Bytes)) → After P o → After P (elim o [ none ↦ k s | some x ↦ some x ])
      go none _ = g
      go (some x) i = i

-- A branch on whether a scanner succeeds.
pub After-elim {ℓ κ ℓ' κ'} :
    {A : Type ℓ} {P : A → Bytes → Type κ} {B : Type ℓ'} {Q : B → Bytes → Type κ'}
    (o : Option (A × Bytes)) (k : Option (B × Bytes)) (g : A → Scan B)
    → After P o
    → After Q k
    → ((a : A) (r : Bytes) → P a r → After Q (g a r))
    → After Q (elim o [ none ↦ k | some (a, r) ↦ g a r ])
After-elim none k g h i j = i
After-elim (some (a, r)) k g h i j = j a r (After-some h refl)

-- What is left after some bytes are read: `Suffix r s`; after one at least: `Proper r s`.
pub data Suffix (r : Bytes) : Bytes → Type 0 where
  here : Suffix r r
  there : {c : ℕ} {s : Bytes} → Suffix r s → Suffix r (c ∷ s)

pub data Proper (r : Bytes) : Bytes → Type 0 where
  proper : {c : ℕ} {s : Bytes} → Suffix r s → Proper r (c ∷ s)

pub Suffix-trans : {r s t : Bytes} → Suffix r s → Suffix s t → Suffix r t
Suffix-trans h here = h
Suffix-trans h (there g) = there (Suffix-trans h g)

pub Suffix-of_Proper : {r s : Bytes} → Proper r s → Suffix r s
Suffix-of_Proper (proper h) = there h

pub Proper-trans : {r s t : Bytes} → Suffix r s → Proper s t → Proper r t
Proper-trans h (proper g) = proper (Suffix-trans h g)

pub Proper-trans_right : {r s t : Bytes} → Proper r s → Suffix s t → Proper r t
Proper-trans_right h here = h
Proper-trans_right h (there g) = proper (Suffix-trans (Suffix-of_Proper h) g)

pub Suffix-length : {r s : Bytes} → Suffix r s → length r ≤ length s
Suffix-length here = omega arith
Suffix-length (there h) = omega (arith, Suffix-length h)

pub Proper-length : {r s : Bytes} → Proper r s → length r < length s
Proper-length (proper h) = omega (arith, Suffix-length h)

-- A scanner leaves a suffix of its input, or a proper one.
abbrev pub Tail {ℓ} : {A : Type ℓ} → Scan A → Type ℓ
Tail m = (s : Bytes) → After (λ _ r. Suffix r s) (m s)

abbrev pub Strict {ℓ} : {A : Type ℓ} → Scan A → Type ℓ
Strict m = (s : Bytes) → After (λ _ r. Proper r s) (m s)

module _ {ℓ} {A : Type ℓ} where
  pub Tail-of_Strict : (m : Scan A) → Strict m → Tail m
  Tail-of_Strict m h s = After-map (h s) (λ _ _ p. Suffix-of_Proper p)

  pub Tail-pure : (a : A) → Tail (pure a)
  unfolding pure
  Tail-pure a s = read here

  pub Tail-<|> : (m k : Scan A) → Tail m → Tail k → Tail (m <|> k)
  Tail-<|> m k h g s = After-<|> m k (h s) (g s)

  pub Strict-<|> : (m k : Scan A) → Strict m → Strict k → Strict (m <|> k)
  Strict-<|> m k h g s = After-<|> m k (h s) (g s)

  pub Tail-optional : (m : Scan A) → Tail m → Tail (optional m)
  unfolding optional
  Tail-optional m h s = elim (Option-cases (m s)) [
    | inl e ↦ rw (e, optional) (read here)
    | inr ((a, r), e) ↦ rw (e, optional) (read (After-some (h s) e))
  ]

  pub Tail-not_ahead : (m : Scan A) → Tail (not_ahead m)
  unfolding not_ahead
  Tail-not_ahead m s = elim (Option-cases (m s)) [
    | inl e ↦ rw (e, not_ahead) (read here)
    | inr (x, e) ↦ rw (e, not_ahead) failed
  ]

  pub Tail-captured : (m : Scan A) → Tail m → Tail (captured m)
  unfolding captured
  Tail-captured m h s = elim (Option-cases (m s)) [
    | inl e ↦ rw (e, captured) failed
    | inr ((a, r), e) ↦ rw (e, captured) (read (After-some (h s) e))
  ]

  pub Strict-captured : (m : Scan A) → Strict m → Strict (captured m)
  unfolding captured
  Strict-captured m h s = elim (Option-cases (m s)) [
    | inl e ↦ rw (e, captured) failed
    | inr ((a, r), e) ↦ rw (e, captured) (read (After-some (h s) e))
  ]

  pub many_fuel-Suffix : (f : ℕ) (m : Scan A) → Tail m → (s : Bytes) → Suffix (many_fuel f m s).1 s
  unfolding many_fuel
  many_fuel-Suffix zero m h s = here
  many_fuel-Suffix (suc f) m h s = elim (Option-cases (m s)) [
    | inl e ↦ rw (e, many_fuel) here
    | inr ((a, r), e) ↦
        rw (e, many_fuel) (Suffix-trans (many_fuel-Suffix f m h r) (After-some (h s) e))
  ]

  pub Tail-many : (m : Scan A) → Tail m → Tail (many m)
  unfolding many
  Tail-many m h s = read (many_fuel-Suffix (suc (length s)) m h s)

module _ {ℓ κ} {A : Type ℓ} {B : Type κ} where
  pub Tail->>= : (m : Scan A) (f : A → Scan B) → Tail m → ((a : A) → Tail (f a)) → Tail (m >>= f)
  Tail->>= m f h k s = After->>= m f (h s) (λ a r p. After-map (k a r) (λ _ _ q. Suffix-trans q p))

  pub Tail->> : (m : Scan A) (k : Scan B) → Tail m → Tail k → Tail (m >> k)
  Tail->> m k h g s = After->> m k (h s) (λ a r p. After-map (g r) (λ _ _ q. Suffix-trans q p))

  pub Strict->>= :
      (m : Scan A) (f : A → Scan B) → Strict m → ((a : A) → Tail (f a)) → Strict (m >>= f)
  Strict->>= m f h k s =
      After->>= m f (h s) (λ a r p. After-map (k a r) (λ _ _ q. Proper-trans q p))

  pub Strict->> : (m : Scan A) (k : Scan B) → Strict m → Tail k → Strict (m >> k)
  Strict->> m k h g s = After->> m k (h s) (λ a r p. After-map (g r) (λ _ _ q. Proper-trans q p))

  -- Where the first part may read nothing.
  pub Strict->>_right : (m : Scan A) (k : Scan B) → Tail m → Strict k → Strict (m >> k)
  Strict->>_right m k h g s =
      After->> m k (h s) (λ a r p. After-map (g r) (λ _ _ q. Proper-trans_right q p))

  pub Strict->>=_right :
      (m : Scan A) (f : A → Scan B) → Tail m → ((a : A) → Strict (f a)) → Strict (m >>= f)
  Strict->>=_right m f h k s =
      After->>= m f (h s) (λ a r p. After-map (k a r) (λ _ _ q. Proper-trans_right q p))

pub Strict-next : Strict next
unfolding next
Strict-next [] = failed
Strict-next (c ∷ cs) = read (proper here)

pub Strict-satisfy : (p : ℕ → Bool) → Strict (satisfy p)
unfolding satisfy
Strict-satisfy p [] = failed
Strict-satisfy p (c ∷ cs) = elim (Bool-cases (p c)) [
  | inl e ↦ rw e (read (proper here))
  | inr e ↦ rw e failed
]

pub Strict-char : (x : ℕ) → Strict (char x)
unfolding char
Strict-char x = Strict-satisfy (λ c. c == x)

pub Tail-str : (w : Bytes) → Tail (str w)
unfolding str
Tail-str [] = Tail-pure tt
Tail-str (c ∷ cs) = Tail->> (char c) (str cs) (Tail-of_Strict _ (Strict-char c)) (Tail-str cs)

pub Strict-str : (c : ℕ) (w : Bytes) → Strict (str (c ∷ w))
unfolding str
Strict-str c w = Strict->> (char c) (str w) (Strict-char c) (Tail-str w)
