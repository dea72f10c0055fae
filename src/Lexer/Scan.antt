-- ===== src/Lexer/Scan.antt =====
-- compiler/lexer.cpp, lines 42-90: the cursor and the primitive scanners. `ptr` is the list of
-- the bytes from it up to `end`; a scanner returns `none` where the C++ function returns false, and
-- else the value read and the bytes left. `save` and `restore` keep and reuse the list.
pub mod Progress
pub mod Loops
pub mod Run
use ceramic.Prelude.{
  ℕ, zero, suc, ◌-◌, Bool, Option, none, some, List, [], ◌∷◌, Bytes, length, take, ◌==◌,
  if◌then◌else◌,
}

abbrev pub Scan {ℓ} : Type ℓ → Type ℓ
Scan A = Bytes → Option (A × Bytes)

-- `if (!m) return false; ...`
infixl 5 ◌>>=◌ ◌>>◌
unfoldable pub ◌>>=◌ {ℓ κ} : {A : Type ℓ} {B : Type κ} → Scan A → (A → Scan B) → Scan B
◌>>=◌ m f s = elim (m s) [ none ↦ none | some (a, r) ↦ f a r ]

unfoldable pub ◌>>◌ {ℓ κ} : {A : Type ℓ} {B : Type κ} → Scan A → Scan B → Scan B
◌>>◌ m k s = elim (m s) [ none ↦ none | some (a, r) ↦ k r ]

unfoldable pub pure {ℓ} : {A : Type ℓ} → A → Scan A
pure a s = some (a, s)

-- `if (m) return true; restore(p); return k;`
infixl 6 ◌<|>◌
unfoldable pub ◌<|>◌ {ℓ} : {A : Type ℓ} → Scan A → Scan A → Scan A
◌<|>◌ m k s = elim (m s) [ none ↦ k s | some x ↦ some x ]

-- `next`; `maxPtr` is written and never read, and is left out.
unfoldable pub next : Scan ℕ
next [] = none
next (c ∷ cs) = some (c, cs)

-- `if (!next(c) || !p(c)) return false;`
unfoldable pub satisfy : (ℕ → Bool) → Scan ℕ
satisfy p [] = none
satisfy p (c ∷ cs) = if p c then some (c, cs) else none

unfoldable pub char : ℕ → Scan ℕ
unfolding satisfy
char x = satisfy (λ c. c == x)

unfoldable pub str : Bytes → Scan (Unit {0})
unfolding ◌>>◌ pure char
str [] = pure tt
str (c ∷ cs) = char c >> str cs

-- `if (!m) restore(p);`
unfoldable pub optional {ℓ} : {A : Type ℓ} → Scan A → Scan (Unit {0})
optional m s = elim (m s) [ none ↦ some (tt, s) | some (a, r) ↦ some (tt, r) ]

-- Succeeds, and reads nothing, where `m` fails.
unfoldable pub not_ahead {ℓ} : {A : Type ℓ} → Scan A → Scan (Unit {0})
not_ahead m s = elim (m s) [ none ↦ some (tt, s) | some x ↦ none ]

-- `while (true) { p = save(); if (!m) { restore(p); break; } ... }`, the values read in order.
unfoldable pub many_fuel {ℓ} : {A : Type ℓ} → ℕ → Scan A → Bytes → List A × Bytes
many_fuel zero m s = ([], s)
many_fuel (suc f) m s = elim (m s) [
  | none ↦ ([], s)
  | some (a, r) ↦ let (more, t) = many_fuel f m r in (a ∷ more, t)
]

-- A round that succeeds reads a byte at least: one round for each byte, and the one that stops.
unfoldable pub many {ℓ} : {A : Type ℓ} → Scan A → Scan (List A)
unfolding many_fuel
many m s = some (many_fuel (suc (length s)) m s)

-- `const char *begin = save(); m; StringRef(begin, save() - begin)`
unfoldable pub slice_to : Bytes → Bytes → Bytes
slice_to begin end = take (length begin - length end) begin

unfoldable pub captured {ℓ} : {A : Type ℓ} → Scan A → Scan Bytes
unfolding slice_to
captured m s = elim (m s) [ none ↦ none | some (a, r) ↦ some (slice_to s r, r) ]
