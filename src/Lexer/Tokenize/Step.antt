-- ===== src/Lexer/Tokenize/Step.antt =====
-- compiler/lexer.cpp, `nextToken` and `nextDocToken`: what one call does.
use ceramic.Prelude.{
  ℕ, suc, ◌<◌, ◌≡◌, refl, Bool, true, false, ◌⊎◌, inl, inr, Option, none, some, [], ◌∷◌, Bytes,
  length, arith, not,
}
use ceramic.Lexer.Doc.{
  doc_end, doc_end_block, doc_end_line, doc_property, doc_property_name, doc_property_token,
  doc_text, doc_text_end, doc_start_line, doc_start_block,
}
use ceramic.Lexer.Kinds
use ceramic.Lexer.Kinds.{plain_kind, IsPlain}
use ceramic.Lexer.Progress
use ceramic.Lexer.Progress.{tails, stricts, skip_doc_space-Suffix}
use ceramic.Lexer.Scan.{Scan, ◌>>◌, ◌<|>◌, pure, satisfy, many, char, str, slice_to, next}
use ceramic.Lexer.Scan.Progress.{
  After, failed, read, After-map, After-some, After->>=, After-<|>, After-elim, Suffix, here,
  Proper, Suffix-trans, Proper-trans_right, Strict, Strict->>=, Tail-pure, Tail-of_Strict, Tail-str,
  Strict-satisfy, Strict-char, Suffix-of_Proper, Strict->>, Strict-next, After->>,
}
use ceramic.Lexer.Skips.{llvm_token, llvm_prefix, llvm_block, llvm_braces, is_space, is_newline}
use ceramic.Lexer.Yields.{Yields}
use ceramic.Lexer.Token.{
  Token, token, TokenKind, Range, location_for, t_llvm, t_doc_property, t_doc_text, t_doc_end,
}
use ceramic.Lexer.Tokenize.{
  Lexed, lexed, at_end, invalid, keep, first_token, located, no_token, finish_token, next_token,
  first_doc_token, next_doc_token,
}

Strict-keep : (block : Bool) (m : Scan Token) → Strict m → Strict (keep block m)
unfolding keep
Strict-keep block m h = Strict->>= m _ h (λ x. Tail-pure (x, block))

Strict-first_token : (w : Range) (block : Bool) → Strict (first_token w block)
unfolding first_token
Strict-first_token w block =
    search
      (
        stricts, Strict-keep, Progress.Strict-space, Progress.Strict-doc_start_line,
        Progress.Strict-doc_start_block, Progress.Strict-line_comment,
        Progress.Strict-block_comment, Progress.Strict-static_index, Progress.Strict-op_identifier,
        Progress.Strict-symbol, Progress.Strict-op, Progress.Strict-llvm_token,
        Progress.Strict-keyword_identifier, Progress.Strict-char_token,
        Progress.Strict-string_token, Progress.Strict-float_token, Progress.Strict-int_token,
      )
      depth 20

Strict-first_doc_token : (w : Range) (block : Bool) → Strict (first_doc_token w block)
unfolding first_doc_token
Strict-first_doc_token w block =
    search
      (
        stricts, Strict-keep, Progress.Strict-doc_end, Progress.Strict-doc_property,
        Progress.Strict-doc_text,
      )
      depth 9

-- The kinds that `nextToken` makes, and `nextDocToken`.
abbrev pub code_kind : TokenKind → Bool
code_kind t_llvm = true
code_kind k = plain_kind k

abbrev pub doc_kind : TokenKind → Bool
doc_kind t_doc_property = true
doc_kind t_doc_text = true
doc_kind t_doc_end = true
doc_kind _ = false

-- The token lies at `p`, between what the call began with and what it left.
abbrev pub Placed : Range → Bytes → Token → Bytes → Type 0
Placed w s x r = (p : Bytes) × Suffix p s × Proper r p × (x.location ≡ some (location_for w p))

-- Of an allowed kind, and with no location yet or a right one.
abbrev Raw : (TokenKind → Bool) → Range → Scan Token → Type 0
Raw ok w m =
    (s : Bytes)
    → After (λ x r. (ok x.token_kind ≡ true) × ((x.location ≡ none) ⊎ Placed w s x r)) (m s)

abbrev RawPair : (TokenKind → Bool) → Range → Scan (Token × Bool) → Type 0
RawPair ok w m =
    (s : Bytes)
    → After (λ y r. (ok y.0.token_kind ≡ true) × ((y.0.location ≡ none) ⊎ Placed w s y.0 r)) (m s)

module _ (ok : TokenKind → Bool) (w : Range) where
  RawPair-<|> :
      (m k : Scan (Token × Bool)) → RawPair ok w m → RawPair ok w k → RawPair ok w (m <|> k)
  RawPair-<|> m k h g s = After-<|> m k (h s) (g s)

  Raw-<|> : (m k : Scan Token) → Raw ok w m → Raw ok w k → Raw ok w (m <|> k)
  Raw-<|> m k h g s = After-<|> m k (h s) (g s)

  RawPair-keep : (block : Bool) (m : Scan Token) → Raw ok w m → RawPair ok w (keep block m)
  unfolding keep pure
  RawPair-keep block m h s = After->>= m _ (h s) (λ x r p. read p)

code_kind_of_plain : (k : TokenKind) → plain_kind k ≡ true → code_kind k ≡ true
code_kind_of_plain t_llvm h = refl
code_kind_of_plain _ h = h

Raw-of_plain : (w : Range) (m : Scan Token) → Yields IsPlain m → Raw code_kind w m
Raw-of_plain w m h s = After-map (h s) (λ x r i. (code_kind_of_plain _ i.1, inl i.0))

llvm_token-Raw : (w : Range) → Raw code_kind w (llvm_token w)
unfolding llvm_token llvm_block
llvm_token-Raw w s =
    After->> llvm_prefix (llvm_block w) (Tail-of_Strict _ Progress.Strict-llvm_prefix s) λ _ p q.
      After-elim (llvm_braces (suc (length p)) p) _
        (λ _ r. some (
          record { location = some (location_for w p); str = slice_to p r; token_kind = t_llvm },
          r,
        ))
        (Progress.Strict-llvm_braces _ p) failed (λ _ r h. read (refl, inr (p, q, h, refl)))

doc_start_line-Raw : (w : Range) → RawPair code_kind w doc_start_line
unfolding doc_start_line pure
doc_start_line-Raw w s = After->> (str _) _ (Tail-str _ s) (λ _ r _. read (refl, inl refl))

doc_start_block-Raw : (w : Range) → RawPair code_kind w doc_start_block
unfolding doc_start_block pure
doc_start_block-Raw w s = After->> (str _) _ (Tail-str _ s) (λ _ r _. read (refl, inl refl))

first_token-Raw : (w : Range) (block : Bool) → RawPair code_kind w (first_token w block)
unfolding first_token
first_token-Raw w block =
    search
      (
        RawPair-<|> code_kind w,
        RawPair-keep code_kind w,
        Raw-of_plain,
        llvm_token-Raw,
        doc_start_line-Raw,
        doc_start_block-Raw,
        Kinds.space-IsPlain,
        Kinds.line_comment-IsPlain,
        Kinds.block_comment-IsPlain,
        Kinds.static_index-IsPlain,
        Kinds.op_identifier-IsPlain,
        Kinds.symbol-IsPlain,
        Kinds.op-IsPlain,
        Kinds.keyword_identifier-IsPlain,
        Kinds.char_token-IsPlain,
        Kinds.string_token-IsPlain,
        Kinds.float_token-IsPlain,
        Kinds.int_token-IsPlain,
      )
      depth 20

doc_end-Raw : (w : Range) (block : Bool) → Raw doc_kind w (doc_end block)
unfolding doc_end doc_end_block doc_end_line pure
doc_end-Raw w true = λ s.
    After->>= (many (satisfy _)) _ (Progress.Tail-stars s)
      λ _ r _. After->> (char b'/') _ (Strict-char b'/' r) λ _ t _. read (refl, inl refl)
doc_end-Raw w false =
    λ s. After->> (satisfy is_newline) _ (Strict-satisfy _ s) λ _ r _. read (refl, inl refl)

doc_text-Raw : (w : Range) (block : Bool) → Raw doc_kind w (doc_text block)
unfolding doc_text
doc_text-Raw w block s =
    After-elim ((next >> doc_text_end block) s) _ (λ _ r. some (token t_doc_text (slice_to s r), r))
      (Strict->> next _ Strict-next (Progress.Tail-doc_text_end block) s) failed
      (λ _ r _. read (refl, inl refl))

-- Behind the spaces and the `@` stands the property's name, and a space ends it.
doc_property-Raw : (w : Range) → Raw doc_kind w (doc_property w)
unfolding doc_property doc_property_name doc_property_token pure
doc_property-Raw w s = After->>= (many (satisfy is_space)) _ (Progress.Tail-spaces s) λ _ t p.
    After->> (char b'@') _ (Strict-char b'@' t) λ _ u q.
      After->>= (many (satisfy (λ c. not (is_space c)))) _ (Progress.Tail-name u) λ name v h.
        After->> (satisfy is_space) _ (Strict-satisfy is_space v) λ _ r g.
          read (refl, inr (u, Suffix-trans (Suffix-of_Proper q) p, Proper-trans_right g h, refl))

first_doc_token-Raw : (w : Range) (block : Bool) → RawPair doc_kind w (first_doc_token w block)
unfolding first_doc_token
first_doc_token-Raw w block = RawPair-keep doc_kind w block _ (
    Raw-<|> doc_kind w _ _ (Raw-<|> doc_kind w _ _ (doc_end-Raw w block) (doc_property-Raw w))
      (doc_text-Raw w block))

-- One call: a token of an allowed kind, placed, with some bytes read; the end; or an error at a
-- place that is not the end.
pub data Step (ok : TokenKind → Bool) (w : Range) (s : Bytes) : Lexed → Type 0 where
  stepped :
      {x : Token} {block : Bool} {r : Bytes}
      → ok x.token_kind ≡ true
      → Proper r s
      → Placed w s x r
      → Step ok w s (lexed x block r)
  ended : Step ok w s at_end
  refused :
      {l : ℕ} {p : Bytes}
      → l ≡ location_for w p
      → Suffix p s
      → 0 < length p
      → Step ok w s (invalid l)

Step-no_token :
    (ok : TokenKind → Bool) (w : Range) {s : Bytes} (p : Bytes)
    → Suffix p s
    → Step ok w s (no_token w p)
unfolding no_token
Step-no_token ok w [] h = ended
Step-no_token ok w (c ∷ cs) h = refused refl h (omega arith)

located-Placed :
    (w : Range) {s p r : Bytes} (x : Token)
    → Suffix p s
    → Proper r p
    → (x.location ≡ none) ⊎ Placed w p x r
    → Placed w s (located (location_for w p) x) r
unfolding located
located-Placed w {p} x h g (inl e) = (p, h, g, rw e)
located-Placed w x h g (inr (q, i, j, e)) = (q, Suffix-trans i h, j, rw e)

Step-finish_token :
    (ok : TokenKind → Bool) (w : Range) (m : Scan (Token × Bool)) {s p : Bytes}
    → Suffix p s
    → Strict m
    → RawPair ok w m
    → Step ok w s (finish_token w p (m p))
unfolding finish_token located
Step-finish_token ok w m {s} {p} h strict raw = go (m p) (strict p) (raw p)
  where
    go :
        (o : Option ((Token × Bool) × Bytes))
        → After (λ _ r. Proper r p) o
        → After (λ y r. (ok y.0.token_kind ≡ true) × ((y.0.location ≡ none) ⊎ Placed w p y.0 r)) o
        → Step ok w s (finish_token w p o)
    go none _ _ = Step-no_token ok w p h
    go (some ((x, b), r)) i j =
        let proper_r = After-some i refl in
        let facts = After-some j refl in
        stepped facts.0 (Proper-trans_right proper_r h) (located-Placed w x h proper_r facts.1)

-- `nextToken`
pub next_token-Step :
    (w : Range) (block : Bool) (s : Bytes) → Step code_kind w s (next_token w block s)
unfolding next_token
next_token-Step w block s =
    Step-finish_token code_kind w (first_token w block) here (Strict-first_token w block)
      (first_token-Raw w block)

-- `nextDocToken`
pub next_doc_token-Step :
    (w : Range) (block : Bool) (s : Bytes) → Step doc_kind w s (next_doc_token w block s)
unfolding next_doc_token
next_doc_token-Step w block s =
    Step-finish_token doc_kind w (first_doc_token w block) (skip_doc_space-Suffix block s)
      (Strict-first_doc_token w block) (first_doc_token-Raw w block)
