-- ===== src/Lexer/Tokenize/Loop.antt =====
-- compiler/lexer.cpp, lines 15-40: the loops of `tokenize`, from any position and mode.
use ceramic.Prelude.{
  ℕ, zero, suc, ◌+◌, ◌*◌, ◌≤◌, ◌<◌, ◌≡◌, refl, Bool, true, false, some, List, [], ◌∷◌, Bytes,
  length, arith, if◌then◌else◌,
}
use ceramic.Lexer.Scan.Progress.{Suffix-length, Proper-length}
use ceramic.Lexer.Token.{
  Token, TokenKind, Range, location_for, t_none, t_space, t_line_comment, t_block_comment,
  t_doc_start, t_doc_end, t_doc_property, t_doc_text,
}
use ceramic.Lexer.Tokenize.{
  Lexed, lexed, Outcome, tokens, invalid_token, invalid_doc_token, push, code_round, doc_round,
  token_loop,
}
use ceramic.Lexer.Tokenize.Step.{
  Step, stepped, ended, refused, code_kind, doc_kind, Placed, next_token-Step, next_doc_token-Step,
}

-- The kinds that stay: no space, no comment, and neither end of a documentation comment.
abbrev pub kept_kind : TokenKind → Bool
kept_kind t_none = false
kept_kind t_space = false
kept_kind t_line_comment = false
kept_kind t_block_comment = false
kept_kind t_doc_start = false
kept_kind t_doc_end = false
kept_kind _ = true

-- Tokens of kept kinds, each in front of where the next one lies, the first one with at most `n`
-- bytes from its place to the end.
abbrev pub Located : Range → ℕ → List Token → Type 0
Located w n [] = Unit
Located w n (x ∷ xs) =
    (kept_kind x.token_kind ≡ true)
    × (p : Bytes) × (m : ℕ) × (length p ≤ n)
    × (m < length p)
    × (x.location ≡ some (location_for w p))
    × Located w m xs

pub data Good (w : Range) (n : ℕ) : Outcome → Type 0 where
  done : {xs : List Token} → Located w n xs → Good w n (tokens xs)
  bad_token :
      {l : ℕ} (p : Bytes)
      → l ≡ location_for w p
      → length p ≤ n
      → 0 < length p
      → Good w n (invalid_token l)
  bad_doc_token :
      {l : ℕ} (p : Bytes)
      → l ≡ location_for w p
      → length p ≤ n
      → 0 < length p
      → Good w n (invalid_doc_token l)

Located-mono : (w : Range) {m n : ℕ} (xs : List Token) → m ≤ n → Located w m xs → Located w n xs
Located-mono w [] h g = tt
Located-mono w (x ∷ xs) h (k, p, i, a, b, e, t) = (k, p, i, omega arith, b, e, t)

Good-mono : {w : Range} {m n : ℕ} {o : Outcome} → m ≤ n → Good w m o → Good w n o
Good-mono {w} h (done {xs} g) = done (Located-mono w xs h g)
Good-mono h (bad_token p e a b) = bad_token p e (omega arith) b
Good-mono h (bad_doc_token p e a b) = bad_doc_token p e (omega arith) b

Good-push :
    {w : Range} {s r : Bytes} (x : Token) {o : Outcome}
    → kept_kind x.token_kind ≡ true
    → Placed w s x r
    → Good w (length r) o
    → Good w (length s) (push x o)
unfolding push
Good-push {r} x k (p, i, j, e) (done g) =
    done (k, p, length r, Suffix-length i, Proper-length j, e, g)
Good-push x k (p, i, j, e) (bad_token q d a b) =
    bad_token q d (omega (arith, Suffix-length i, Proper-length j)) b
Good-push x k (p, i, j, e) (bad_doc_token q d a b) =
    bad_doc_token q d (omega (arith, Suffix-length i, Proper-length j)) b

-- What both rounds assume of the rest of the run.
abbrev Continues : Range → ℕ → (Bool → Bool → Bytes → Outcome) → Type 0
Continues w n k = (doc block : Bool) (r : Bytes) → length r < n → Good w (length r) (k doc block r)

code_round-kind :
    (w : Range) {s r : Bytes} (k : Bool → Bool → Bytes → Outcome) (x : Token) (b : Bool)
    → Continues w (length s) k
    → (kind : TokenKind) → x.token_kind ≡ kind
    → code_kind kind ≡ true
    → length r < length s
    → Placed w s x r
    → Good w (length s) (code_round k (lexed x b r))
unfolding code_round
code_round-kind w {r} k x b ih t_space e c h g =
    rw (e, code_round) (Good-mono (omega arith) (ih false b r h))
code_round-kind w {r} k x b ih t_line_comment e c h g =
    rw (e, code_round) (Good-mono (omega arith) (ih false b r h))
code_round-kind w {r} k x b ih t_block_comment e c h g =
    rw (e, code_round) (Good-mono (omega arith) (ih false b r h))
code_round-kind w {r} k x b ih t_doc_start e c h g =
    rw (e, code_round) (Good-mono (omega arith) (ih true b r h))
code_round-kind w k x b ih t_none e c h g = cc
code_round-kind w k x b ih t_doc_end e c h g = cc
code_round-kind w k x b ih t_doc_property e c h g = cc
code_round-kind w k x b ih t_doc_text e c h g = cc
code_round-kind w {r} k x b ih _ e c h g =
    rw (e, code_round) (Good-push x (rw e) g (ih false b r h))

code_round-Good :
    (w : Range) {s : Bytes} (k : Bool → Bool → Bytes → Outcome) {o : Lexed}
    → Continues w (length s) k
    → Step code_kind w s o
    → Good w (length s) (code_round k o)
unfolding code_round
code_round-Good w k ih (stepped {x} {block} c p g) =
    code_round-kind w k x block ih x.token_kind refl c (Proper-length p) g
code_round-Good w k ih ended = done tt
code_round-Good w k ih (refused {p} e i h) = bad_token p e (Suffix-length i) h

doc_round-kind :
    (w : Range) {s r : Bytes} (k : Bool → Bool → Bytes → Outcome) (block : Bool) (x : Token)
    (b : Bool)
    → Continues w (length s) k
    → (kind : TokenKind) → x.token_kind ≡ kind
    → doc_kind kind ≡ true
    → length r < length s
    → Placed w s x r
    → Good w (length s) (doc_round k block (lexed x b r))
unfolding doc_round
doc_round-kind w {r} k block x b ih t_doc_property e c h g =
    rw (e, doc_round) (Good-push x (rw e) g (ih true b r h))
doc_round-kind w {r} k block x b ih t_doc_text e c h g =
    rw (e, doc_round) (Good-push x (rw e) g (ih true b r h))
doc_round-kind w {r} k block x b ih t_doc_end e c h g =
    rw (e, doc_round) (Good-mono (omega arith) (ih false b r h))
doc_round-kind w k block x b ih _ e c h g = cc

doc_round-Good :
    (w : Range) {s : Bytes} (k : Bool → Bool → Bytes → Outcome) (block : Bool) {o : Lexed}
    → Continues w (length s) k
    → Good w 0 (k false block [])
    → Step doc_kind w s o
    → Good w (length s) (doc_round k block o)
unfolding doc_round
doc_round-Good w k b ih last (stepped {x} {block} c p g) =
    doc_round-kind w k b x block ih x.token_kind refl c (Proper-length p) g
doc_round-Good w k b ih last ended = Good-mono (omega arith) last
doc_round-Good w k b ih last (refused {p} e i h) = bad_doc_token p e (Suffix-length i) h

-- Rounds that are enough.
abbrev pub cost : Bool → Bytes → ℕ
cost doc s = 2 * length s + (if doc then 2 else 1)

cost_step :
    (doc : Bool) {f : ℕ} (r s : Bytes) → 2 * length s ≤ f → length r < length s → cost doc r ≤ f
cost_step true r s h g = omega arith
cost_step false r s h g = omega arith

pub token_loop-Good :
    (f : ℕ) (w : Range) (doc block : Bool) (s : Bytes)
    → cost doc s ≤ f
    → Good w (length s) (token_loop f w doc block s)
unfolding token_loop
token_loop-Good zero w true block s h = absurd (omega arith)
token_loop-Good zero w false block s h = absurd (omega arith)
token_loop-Good (suc f) w false block s h =
    code_round-Good w (token_loop f w)
      (λ doc b r g. token_loop-Good f w doc b r (cost_step doc r s (omega arith) g))
      (next_token-Step w block s)
token_loop-Good (suc f) w true block s h =
    doc_round-Good w (token_loop f w) block
      (λ doc b r g. token_loop-Good f w doc b r (cost_step doc r s (omega arith) g))
      (token_loop-Good f w false block [] (omega arith)) (next_doc_token-Step w block s)
