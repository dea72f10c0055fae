-- ===== src/Lexer/Yields.antt =====
-- What the scanners of compiler/lexer.cpp return, whatever they read: rules for each combinator.
use ceramic.Prelude.{Option, none, some, Bytes}
use ceramic.Lexer.Scan.{Scan, ◌>>=◌, ◌>>◌, ◌<|>◌, pure}
use ceramic.Lexer.Scan.Progress.{After, failed, read, After->>=, After-<|>}

abbrev pub Yields {ℓ κ} : {A : Type ℓ} → (A → Type κ) → Scan A → Type (ℓ ⊔ κ)
Yields Q m = (s : Bytes) → After (λ a _. Q a) (m s)

-- What is known of a result without looking at the scanner.
After-any {ℓ} : {A : Type ℓ} (o : Option (A × Bytes)) → After (λ _ _. Unit {0}) o
After-any none = failed
After-any (some (a, r)) = read tt

module _ {ℓ κ} {A : Type ℓ} {Q : A → Type κ} where
  pub Yields-pure : (a : A) → Q a → Yields Q (pure a)
  unfolding pure
  Yields-pure a h s = read h

  pub Yields-<|> : (m k : Scan A) → Yields Q m → Yields Q k → Yields Q (m <|> k)
  Yields-<|> m k h g s = After-<|> m k (h s) (g s)

  pub Yields->>= {ℓ'} :
      {B : Type ℓ'} (m : Scan B) (f : B → Scan A) → ((b : B) → Yields Q (f b)) → Yields Q (m >>= f)
  Yields->>= m f h s = After->>= m f (After-any (m s)) (λ b r _. h b r)

  pub Yields->> {ℓ'} : {B : Type ℓ'} (m : Scan B) (k : Scan A) → Yields Q k → Yields Q (m >> k)
  unfolding ◌>>◌ ◌>>=◌
  Yields->> m k h s = After->>= m (λ _. k) (After-any (m s)) (λ b r _. h r)
