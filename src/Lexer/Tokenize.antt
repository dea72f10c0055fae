-- ===== src/Lexer/Tokenize.antt =====
-- compiler/lexer.cpp, lines 807-864 and 1003-1039 (`nextToken`, `nextDocToken`), and 11-40.
pub mod Step
pub mod Loop
pub mod Locations
use ceramic.Prelude.{
  ℕ, zero, suc, ◌+◌, ◌*◌, Bool, true, false, Option, none, some, List, [], ◌∷◌, Bytes, length, take,
  drop,
}
use ceramic.Lexer.Doc.{doc_start_line, doc_start_block, doc_property, doc_text, doc_space, doc_end}
use ceramic.Lexer.Literals.{char_token, string_token, float_token, int_token, static_index}
use ceramic.Lexer.Names.{keyword_identifier, symbol, op, op_identifier}
use ceramic.Lexer.Scan.{Scan, ◌>>=◌, ◌<|>◌, pure, many_fuel}
use ceramic.Lexer.Skips.{space, line_comment, block_comment, llvm_token}
use ceramic.Lexer.Token.{
  Token, TokenKind, Range, location_for, t_space, t_line_comment, t_block_comment, t_doc_start,
  t_doc_end,
}

-- What `nextToken` and `nextDocToken` do: a token, the new `docIsBlock` and the bytes left; false,
-- at the end; or `error` at a location.
pub data Lexed : Type 0 where
  lexed : Token → Bool → Bytes → Lexed
  at_end : Lexed
  invalid : ℕ → Lexed

-- A scanner that leaves `docIsBlock` as it is.
unfoldable pub keep : Bool → Scan Token → Scan (Token × Bool)
keep block m = m >>= λ x. pure (x, block)

-- The scanners in the order in which `nextToken` tries them.
unfoldable pub first_token : Range → Bool → Scan (Token × Bool)
first_token w block =
    keep block space
    <|> doc_start_line
    <|> doc_start_block
    <|> keep block line_comment
    <|> keep block block_comment
    <|> keep block static_index
    <|> keep block op_identifier
    <|> keep block symbol
    <|> keep block op
    <|> keep block (llvm_token w)
    <|> keep block keyword_identifier
    <|> keep block char_token
    <|> keep block string_token
    <|> keep block float_token
    <|> keep block int_token

-- `if (!x.location.ok()) x.location = locationFor(p);`
unfoldable pub located : ℕ → Token → Token
located l x = record x { location = elim x.location [ none ↦ some l | some k ↦ some k ] }

-- `p != end` is an error where no scanner took the input.
unfoldable pub no_token : Range → Bytes → Lexed
no_token w [] = at_end
no_token w (c ∷ cs) = invalid (location_for w (c ∷ cs))

unfoldable pub finish_token : Range → Bytes → Option ((Token × Bool) × Bytes) → Lexed
finish_token w s none = no_token w s
finish_token w s (some ((x, block), r)) = lexed (located (location_for w s) x) block r

unfoldable pub next_token : Range → Bool → Bytes → Lexed
next_token w block s = finish_token w s (first_token w block s)

unfoldable pub first_doc_token : Range → Bool → Scan (Token × Bool)
first_doc_token w block = keep block (doc_end block <|> doc_property w <|> doc_text block)

-- Behind what `docSpace` skips.
unfoldable pub skip_doc_space : Bool → Bytes → Bytes
skip_doc_space block s = (many_fuel (suc (length s)) (doc_space block) s).1

unfoldable pub next_doc_token : Range → Bool → Bytes → Lexed
next_doc_token w block s =
    let p = skip_doc_space block s in finish_token w p (first_doc_token w block p)

-- The tokens that `tokenize` adds; or the location of the error that it raises, "invalid token"
-- or "invalid doc token".
pub data Outcome : Type 0 where
  tokens : List Token → Outcome
  invalid_token invalid_doc_token : ℕ → Outcome
  out_of_fuel : Outcome

unfoldable pub push : Token → Outcome → Outcome
push x (tokens xs) = tokens (x ∷ xs)
push x (invalid_token l) = invalid_token l
push x (invalid_doc_token l) = invalid_doc_token l
push x out_of_fuel = out_of_fuel

-- What the outer loop does with a token: skip it, read the documentation, or keep it.
pub data Action : Type 0 where
  skip document keep_it : Action

unfoldable pub action : TokenKind → Action
action t_space = skip
action t_line_comment = skip
action t_block_comment = skip
action t_doc_start = document
action _ = keep_it

unfoldable pub is_doc_end : TokenKind → Bool
is_doc_end t_doc_end = true
is_doc_end _ = false

-- A round of the outer loop on what `nextToken` did; `continue` goes on, in the inner loop (over the
-- tokens of a documentation comment) if its first argument is true.
unfoldable pub code_round : (Bool → Bool → Bytes → Outcome) → Lexed → Outcome
unfolding action
code_round continue at_end = tokens []
code_round continue (invalid l) = invalid_token l
code_round continue (lexed x b r) = elim (action x.token_kind) [
  | skip ↦ continue false b r
  | document ↦ continue true b r
  | keep_it ↦ push x (continue false b r)
]

-- A round of the inner loop, on what `nextDocToken` did.
unfoldable pub doc_round : (Bool → Bool → Bytes → Outcome) → Bool → Lexed → Outcome
unfolding is_doc_end
doc_round continue block at_end = continue false block []
doc_round continue block (invalid l) = invalid_doc_token l
doc_round continue block (lexed x b r) = elim (is_doc_end x.token_kind) [
  | true ↦ continue false b r
  | false ↦ push x (continue true b r)
]

-- Both loops, one round for each unit of fuel.
unfoldable pub token_loop : ℕ → Range → Bool → Bool → Bytes → Outcome
token_loop zero w doc block s = out_of_fuel
token_loop (suc f) w false block s = code_round (token_loop f w) (next_token w block s)
token_loop (suc f) w true block s = doc_round (token_loop f w) block (next_doc_token w block s)

abbrev pub range : Bytes → ℕ → ℕ → Range
range source offset count = record {
  begin = take count (drop offset source);
  begin_offset = offset;
}

-- Two rounds for each byte are more than enough: a token may start the inner loop, and has a byte.
-- `tokenize(source, offset, length, tokens)`; `block` is what `docIsBlock` is left at before.
unfoldable pub tokenize : Bool → Bytes → ℕ → ℕ → Outcome
tokenize block source offset count =
    let w = range source offset count in token_loop (2 * length w.begin + 1) w false block w.begin

unfoldable pub tokenize_all : Bool → Bytes → Outcome
tokenize_all block source = tokenize block source 0 (length source)
