-- ===== src/Lexer/Scan/Run.antt =====
-- Steps of a run of a scanner on a known text.
use ceramic.Prelude.{ℕ, ◌≡◌, Bool, true, none, some, ◌∷◌, Bytes}
use ceramic.Lexer.Scan.{Scan, ◌>>=◌, ◌>>◌, ◌<|>◌, satisfy}

module _ {ℓ κ} {A : Type ℓ} {B : Type κ} where
  pub >>=-some :
      (m : Scan A) (f : A → Scan B) {s r : Bytes} {a : A} → m s ≡ some (a, r) → (m >>= f) s ≡ f a r
  unfolding ◌>>=◌
  >>=-some m f e = rw (e, ◌>>=◌)

  pub >>-some :
      (m : Scan A) (k : Scan B) {s r : Bytes} {a : A} → m s ≡ some (a, r) → (m >> k) s ≡ k r
  unfolding ◌>>◌
  >>-some m k e = rw (e, ◌>>◌)

module _ {ℓ} {A : Type ℓ} where
  pub <|>-none : (m k : Scan A) {s : Bytes} → m s ≡ none → (m <|> k) s ≡ k s
  unfolding ◌<|>◌
  <|>-none m k e = rw (e, ◌<|>◌)

  pub <|>-some : (m k : Scan A) {s : Bytes} {x : A × Bytes} → m s ≡ some x → (m <|> k) s ≡ some x
  unfolding ◌<|>◌
  <|>-some m k e = rw (e, ◌<|>◌)

pub satisfy-some : (p : ℕ → Bool) (c : ℕ) (s : Bytes) → p c ≡ true → satisfy p (c ∷ s) ≡ some (c, s)
unfolding satisfy
satisfy-some p c s h = rw (h, satisfy)
