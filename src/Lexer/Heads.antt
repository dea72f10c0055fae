-- ===== src/Lexer/Heads.antt =====
-- compiler/lexer.cpp: the first bytes at which a scanner can succeed.
use ceramic.Prelude.{
  ℕ, ◌≡◌, refl, Bool, true, false, Option, none, List, [], ◌∷◌, Bytes, ◌==◌, arith,
}
use ceramic.Lexer.Scan.{Scan, ◌>>=◌, ◌>>◌, ◌<|>◌, satisfy, char, str}
use ceramic.Lexer.Names.{
  ident_char1, opchar, opstring, op, op_identifier, symbol_of, symbols, symbol,
}
use ceramic.Lexer.Literals.{static_index}
use ceramic.Lexer.Skips.{is_space, space, line_comment, block_comment}
use ceramic.Lexer.Doc.{doc_start_line, doc_start_block}
use ceramic.Lexer.Token.{Token}
use ceramic.Lexer.Tokenize.{keep}

-- The scanner fails on a text whose first byte is `c`.
abbrev pub FailsOn {ℓ} : {A : Type ℓ} → ℕ → Scan A → Type ℓ
FailsOn {A} c m = (cs : Bytes) → ◌≡◌ {A = Option (A × Bytes)} (m (c ∷ cs)) none

module _ {ℓ} {A : Type ℓ} (c : ℕ) where
  pub FailsOn-<|> : (m k : Scan A) → FailsOn c m → FailsOn c k → FailsOn c (m <|> k)
  unfolding ◌<|>◌
  FailsOn-<|> m k h g cs = rw (h cs, ◌<|>◌) (g cs)

  pub FailsOn->>= {κ} :
      {B : Type κ} (m : Scan A) (f : A → Scan B) → FailsOn c m → FailsOn c (m >>= f)
  unfolding ◌>>=◌
  FailsOn->>= m f h cs = rw (h cs, ◌>>=◌)

  pub FailsOn->> {κ} : {B : Type κ} (m : Scan A) (k : Scan B) → FailsOn c m → FailsOn c (m >> k)
  unfolding ◌>>◌
  FailsOn->> m k h cs = rw (h cs, ◌>>◌)

pub FailsOn-satisfy : (p : ℕ → Bool) (c : ℕ) → p c ≡ false → FailsOn c (satisfy p)
unfolding satisfy
FailsOn-satisfy p c h cs = rw h

pub FailsOn-char : (x c : ℕ) → (c == x) ≡ false → FailsOn c (char x)
unfolding char
FailsOn-char x c h = FailsOn-satisfy (λ d. d == x) c h

pub FailsOn-str : (x c : ℕ) (w : Bytes) → (c == x) ≡ false → FailsOn c (str (x ∷ w))
unfolding str
FailsOn-str x c w h = FailsOn->> c (char x) (str w) (FailsOn-char x c h)

pub FailsOn-keep : (block : Bool) (m : Scan Token) (c : ℕ) → FailsOn c m → FailsOn c (keep block m)
unfolding keep
FailsOn-keep block m c h = FailsOn->>= c m _ h

abbrev Heads : ℕ → List Bytes → Type 0
Heads c [] = Unit
Heads c ([] ∷ ws) = ⊥
Heads c ((x ∷ w) ∷ ws) = ((c == x) ≡ false) × Heads c ws

FailsOn-symbol_of : (c : ℕ) (ws : List Bytes) → Heads c ws → FailsOn c (symbol_of ws)
unfolding symbol_of
FailsOn-symbol_of c [] h cs = refl
FailsOn-symbol_of c ([] ∷ ws) h cs = absurd h
FailsOn-symbol_of c ((x ∷ w) ∷ ws) h cs =
    FailsOn-<|> c _ (symbol_of ws) (FailsOn->> c (str (x ∷ w)) _ (FailsOn-str x c w h.0))
      (FailsOn-symbol_of c ws h.1) cs

-- A byte that starts an identifier starts no space, comment, symbol or operator.
module _ (c : ℕ) (ident : ident_char1 c ≡ true) where
  ident-not_slash : (c == b'/') ≡ false
  unfolding ident_char1
  ident-not_slash = ground arith

  ident-not_dot : (c == b'.') ≡ false
  unfolding ident_char1
  ident-not_dot = ground arith

  ident-not_paren : (c == b'(') ≡ false
  unfolding ident_char1
  ident-not_paren = ground arith

  ident-not_space : is_space c ≡ false
  unfolding ident_char1 is_space
  ident-not_space = ground arith

  ident-not_opchar : opchar c ≡ false
  unfolding ident_char1 opchar
  ident-not_opchar = ground arith

  ident-Heads : Heads c symbols
  unfolding ident_char1
  ident-Heads = ground arith

  pub space-FailsOn : FailsOn c space
  unfolding space
  space-FailsOn = FailsOn->> c _ _ (FailsOn-satisfy is_space c ident-not_space)

  pub doc_start_line-FailsOn : FailsOn c doc_start_line
  unfolding doc_start_line
  doc_start_line-FailsOn = FailsOn->> c _ _ (FailsOn-str b'/' c _ ident-not_slash)

  pub doc_start_block-FailsOn : FailsOn c doc_start_block
  unfolding doc_start_block
  doc_start_block-FailsOn = FailsOn->> c _ _ (FailsOn-str b'/' c _ ident-not_slash)

  pub line_comment-FailsOn : FailsOn c line_comment
  unfolding line_comment
  line_comment-FailsOn = FailsOn->> c _ _ (FailsOn-char b'/' c ident-not_slash)

  pub block_comment-FailsOn : FailsOn c block_comment
  unfolding block_comment
  block_comment-FailsOn = FailsOn->> c _ _ (FailsOn-char b'/' c ident-not_slash)

  pub static_index-FailsOn : FailsOn c static_index
  unfolding static_index
  static_index-FailsOn = FailsOn->> c _ _ (FailsOn-char b'.' c ident-not_dot)

  pub op_identifier-FailsOn : FailsOn c op_identifier
  unfolding op_identifier
  op_identifier-FailsOn = FailsOn->> c _ _ (FailsOn-char b'(' c ident-not_paren)

  pub symbol-FailsOn : FailsOn c symbol
  unfolding symbol
  symbol-FailsOn = FailsOn-symbol_of c symbols ident-Heads

  pub op-FailsOn : FailsOn c op
  unfolding op opstring
  op-FailsOn = FailsOn->>= c _ _ (FailsOn->>= c _ _ (FailsOn-satisfy opchar c ident-not_opchar))

  -- What `nextToken` tries before an `__llvm__` block and identifiers.
  pub before_llvm-FailsOn :
      (block : Bool)
      → FailsOn c (
          keep block space
          <|> doc_start_line
          <|> doc_start_block
          <|> keep block line_comment
          <|> keep block block_comment
          <|> keep block static_index
          <|> keep block op_identifier
          <|> keep block symbol
          <|> keep block op)
  before_llvm-FailsOn block =
      search
        (
          FailsOn-<|>, FailsOn-keep, space-FailsOn, doc_start_line-FailsOn, doc_start_block-FailsOn,
          line_comment-FailsOn, block_comment-FailsOn, static_index-FailsOn, op_identifier-FailsOn,
          symbol-FailsOn, op-FailsOn,
        )
        depth 12
