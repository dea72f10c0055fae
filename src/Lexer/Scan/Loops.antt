-- ===== src/Lexer/Scan/Loops.antt =====
-- The loops of compiler/lexer.cpp that run a scanner until it fails.
use ceramic.Prelude.{
  ℕ, zero, suc, ◌≤◌, ◌<◌, ◌≡◌, refl, Bool, true, false, inl, inr, Option, none, some, List, [], ◌∷◌,
  ◌++◌, Bytes, length, length-append, sym, ◌∙◌, Option-cases, arith,
}
use ceramic.Lexer.Scan.{Scan, ◌>>◌, ◌<|>◌, satisfy, many, many_fuel}
use ceramic.Lexer.Scan.Progress.{After-some, Suffix-length, Proper-length, Strict, Tail}

module _ {ℓ} {A : Type ℓ} where
  many_fuel_exits :
      (f : ℕ) (m : Scan A) (s : Bytes) → Strict m → length s < f → m (many_fuel f m s).1 ≡ none
  unfolding many_fuel
  many_fuel_exits zero m s h l = absurd (omega arith)
  many_fuel_exits (suc f) m s h l = elim (Option-cases (m s)) [
    | inl e ↦ rw (e, many_fuel) e
    | inr ((a, r), e) ↦
        let less = Proper-length (After-some (h s) e) in
        rw (e, many_fuel) (many_fuel_exits f m r h (omega arith))
  ]

  -- A loop over a scanner that reads a byte at least ends where that scanner fails, and not for
  -- want of rounds.
  pub many_exits :
      (m : Scan A) (s : Bytes) {xs : List A} {r : Bytes}
      → Strict m
      → many m s ≡ some (xs, r)
      → m r ≡ none
  unfolding many
  many_exits m s h e = let exit = many_fuel_exits (suc (length s)) m s h (omega arith) in cc

  -- Two scanners that agree on all that is no longer than `s` run alike from `s`.
  pub many_fuel_cong :
      (f : ℕ) (m k : Scan A) (s : Bytes)
      → Tail m
      → ((t : Bytes) → length t ≤ length s → m t ≡ k t)
      → many_fuel f m s ≡ many_fuel f k s
  unfolding many_fuel
  many_fuel_cong zero m k s h g = refl
  many_fuel_cong (suc f) m k s h g = elim (Option-cases (m s)) [
    | inl e ↦ let e' = sym (g s (omega arith)) ∙ e in rw (e, e', many_fuel) refl
    | inr ((a, r), e) ↦
        let e' = sym (g s (omega arith)) ∙ e in
        let shorter = Suffix-length (After-some (h s) e) in
        let rest = many_fuel_cong f m k r h (λ t l. g t (omega arith)) in
        rw (e, e', many_fuel) (rw rest)
  ]

-- Every byte passes the test; the text is empty or its first byte does not.
abbrev pub AllPass : (ℕ → Bool) → Bytes → Type 0
AllPass p [] = Unit
AllPass p (c ∷ cs) = (p c ≡ true) × AllPass p cs

abbrev pub StopsAt : (ℕ → Bool) → Bytes → Type 0
StopsAt p [] = Unit
StopsAt p (c ∷ cs) = p c ≡ false

many_fuel-satisfy :
    (p : ℕ → Bool) (f : ℕ) (cs rest : Bytes)
    → length cs < f
    → AllPass p cs
    → StopsAt p rest
    → many_fuel f (satisfy p) (cs ++ rest) ≡ (cs, rest)
unfolding many_fuel satisfy
many_fuel-satisfy p zero cs rest l h g = absurd (omega arith)
many_fuel-satisfy p (suc f) [] [] l h g = refl
many_fuel-satisfy p (suc f) [] (d ∷ ds) l h g = rw (g, many_fuel, satisfy)
many_fuel-satisfy p (suc f) (c ∷ cs) rest l h g =
    rw (h.0, many_fuel, satisfy) (rw (many_fuel-satisfy p f cs rest (omega arith) h.1 g))

-- A loop over single bytes reads those that pass, up to the first that does not.
pub many-satisfy :
    (p : ℕ → Bool) (cs rest : Bytes)
    → AllPass p cs
    → StopsAt p rest
    → many (satisfy p) (cs ++ rest) ≡ some (cs, rest)
unfolding many
many-satisfy p cs rest h g = rw (
    many_fuel-satisfy p (suc (length (cs ++ rest))) cs rest (omega (arith, length-append cs rest)) h
      g)

-- Congruence at one input.
pub <|>_cong {ℓ} :
    {A : Type ℓ} (m m' k k' : Scan A) (s : Bytes)
    → m s ≡ m' s
    → k s ≡ k' s
    → (m <|> k) s ≡ (m' <|> k') s
unfolding ◌<|>◌
<|>_cong m m' k k' s e d = λ i. elim (e i) [ none ↦ d i | some x ↦ some x ]

module _ {ℓ κ} {A : Type ℓ} {B : Type κ} where
  pub >>_cong_left :
      (m m' : Scan A) (k : Scan B) (s : Bytes) → m s ≡ m' s → (m >> k) s ≡ (m' >> k) s
  unfolding ◌>>◌
  >>_cong_left m m' k s e = λ i. elim (e i) [ none ↦ none | some (a, r) ↦ k r ]

  pub >>_cong_right :
      (m : Scan A) (k k' : Scan B) (s : Bytes)
      → ((a : A) (r : Bytes) → m s ≡ some (a, r) → k r ≡ k' r)
      → (m >> k) s ≡ (m >> k') s
  unfolding ◌>>◌
  >>_cong_right m k k' s h = go (m s) h
    where
      go :
          (o : Option (A × Bytes))
          → ((a : A) (r : Bytes) → o ≡ some (a, r) → k r ≡ k' r)
          → ◌≡◌ {A = Option (B × Bytes)}
              (elim o [ none ↦ none | some (a, r) ↦ k r ])
              (elim o [ none ↦ none | some (a, r) ↦ k' r ])
      go none g = refl
      go (some (a, r)) g = g a r refl
