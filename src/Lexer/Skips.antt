-- ===== src/Lexer/Skips.antt =====
-- compiler/lexer.cpp, lines 578-769: space, comments, and the text of an `__llvm__` block.
use ceramic.Prelude.{
  ℕ, zero, suc, Bool, false, not, ◌&&◌, ◌||◌, none, some, [], ◌∷◌, codes, length, ◌==◌,
  if◌then◌else◌,
}
use ceramic.Lexer.Scan.{Scan, ◌>>=◌, ◌>>◌, ◌<|>◌, pure, next, satisfy, char, str, many, slice_to}
use ceramic.Lexer.Token.{
  Token, token, Range, location_for, t_space, t_line_comment, t_block_comment, t_llvm,
}

-- The space, `\t`, `\n`, `\r`, `\f` and `\v`.
unfoldable pub is_space : ℕ → Bool
is_space c = c == 32 || c == 9 || c == 10 || c == 13 || c == 12 || c == 11

abbrev pub is_newline : ℕ → Bool
is_newline c = c == 13 || c == 10

unfoldable pub space : Scan Token
space = do satisfy is_space; _ ← many (satisfy is_space); pure (token t_space [])

unfoldable pub line_comment : Scan Token
line_comment = do
  char b'/'
  char b'/'
  _ ← many (satisfy (λ c. not (is_newline c)))
  pure (token t_line_comment [])

-- The loop, from `lastWasStar`.
unfoldable pub block_comment_end : Bool → Scan (Unit {0})
block_comment_end star [] = none
block_comment_end star (c ∷ cs) =
    if star && c == b'/' then some (tt, cs) else block_comment_end (c == b'*') cs

unfoldable pub block_comment : Scan Token
block_comment = do char b'/'; char b'*'; block_comment_end false; pure (token t_block_comment [])

-- Reads the newline too, or up to the end.
unfoldable pub llvm_comment_end : Scan (Unit {0})
llvm_comment_end [] = some (tt, [])
llvm_comment_end (c ∷ cs) = if not (c == 10) then llvm_comment_end cs else some (tt, cs)

unfoldable pub llvm_comment : Scan (Unit {0})
llvm_comment = char b';' >> llvm_comment_end

-- Any byte behind a backslash.
unfoldable pub llvm_string_char : Scan (Unit {0})
llvm_string_char =
    (char 92 >> (next >> pure tt)) <|> (satisfy (λ c. not (c == 92 || c == 34)) >> pure tt)

unfoldable pub llvm_string_literal : Scan (Unit {0})
llvm_string_literal = do char 34; _ ← many llvm_string_char; char 34; pure tt

unfoldable pub llvm_body_item : Scan (Unit {0}) → Scan (Unit {0})
llvm_body_item braces =
    llvm_comment <|> braces <|> llvm_string_literal <|> (satisfy (λ c. not (c == b'}')) >> pure tt)

unfoldable pub llvm_body : Scan (Unit {0}) → Scan (Unit {0})
llvm_body braces = many (llvm_body_item braces) >> pure tt

-- The fuel bounds how deep braces nest.
unfoldable pub llvm_braces : ℕ → Scan (Unit {0})
llvm_braces zero s = none
llvm_braces (suc depth) s =
    (char b'{' >> (llvm_body (llvm_braces depth) >> (char b'}' >> pure tt))) s

unfoldable pub llvm_prefix : Scan (Unit {0})
llvm_prefix = do str (codes "__llvm__"); _ ← many (satisfy is_space); pure tt

-- Braces cannot nest deeper than there are bytes. At the end of the input the loop over the
-- space returns false, as the braces do here.
unfoldable pub llvm_block : Range → Scan Token
llvm_block w s = elim (llvm_braces (suc (length s)) s) [
  | none ↦ none
  | some (_, r) ↦
      some
        (record { location = some (location_for w s); str = slice_to s r; token_kind = t_llvm }, r)
]

unfoldable pub llvm_token : Range → Scan Token
llvm_token w = llvm_prefix >> llvm_block w
