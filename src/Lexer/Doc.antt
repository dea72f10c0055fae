-- ===== src/Lexer/Doc.antt =====
-- compiler/lexer.cpp, lines 866-1001: documentation comments. `docIsBlock` is an argument.
use ceramic.Prelude.{Bool, true, false, not, ◌&&◌, none, some, [], ◌∷◌, Bytes, ◌==◌, if◌then◌else◌}
use ceramic.Lexer.Scan.{Scan, ◌>>=◌, ◌>>◌, pure, next, satisfy, char, str, many, slice_to}
use ceramic.Lexer.Skips.{is_space, is_newline}
use ceramic.Lexer.Token.{
  Token, token, Range, location_for, t_doc_start, t_doc_property, t_doc_text, t_doc_end,
}

-- With the new value of `docIsBlock`.
unfoldable pub doc_start_line : Scan (Token × Bool)
doc_start_line = str (b'/' ∷ b'/' ∷ b'/' ∷ []) >> pure (token t_doc_start [], false)

unfoldable pub doc_start_block : Scan (Token × Bool)
doc_start_block = str (b'/' ∷ b'*' ∷ b'*' ∷ []) >> pure (token t_doc_start [], true)

unfoldable pub doc_end_line : Scan Token
doc_end_line = satisfy is_newline >> pure (token t_doc_end [])

-- Any number of stars, none too, and a slash.
unfoldable pub doc_end_block : Scan Token
doc_end_block = do _ ← many (satisfy (λ c. c == b'*')); char b'/'; pure (token t_doc_end [])

-- The space that ends the name is read too. `begin` is the position behind the `@`.
unfoldable pub doc_property_token : Range → Bytes → Bytes → Scan Token
doc_property_token w begin name =
    satisfy is_space
    >> pure
        (record { location = some (location_for w begin); str = name; token_kind = t_doc_property })

unfoldable pub doc_property_name : Range → Scan Token
doc_property_name w s = (many (satisfy (λ c. not (is_space c))) >>= doc_property_token w s) s

unfoldable pub doc_property : Range → Scan Token
doc_property w = do _ ← many (satisfy is_space); char b'@'; doc_property_name w

unfoldable pub maybe_doc_end : Bytes → Bool
maybe_doc_end [] = false
maybe_doc_end (c ∷ cs) = if c == b'*' then maybe_doc_end cs else c == b'/'

-- Where the loop leaves; in a block it has read the first star of the end.
unfoldable pub doc_text_end : Bool → Scan (Unit {0})
doc_text_end block [] = none
doc_text_end block (c ∷ cs) =
    if is_newline c
    then some (tt, c ∷ cs)
    else if block && c == b'*' && maybe_doc_end cs
    then some (tt, cs)
    else doc_text_end block cs

unfoldable pub doc_text : Bool → Scan Token
doc_text block s = elim ((next >> doc_text_end block) s) [
  | none ↦ none
  | some (_, r) ↦ some (token t_doc_text (slice_to s r), r)
]

-- The branch for a `*` in a block: it is no space if a slash follows.
unfoldable pub doc_star : Scan (Unit {0})
doc_star [] = some (tt, [])
doc_star (c ∷ cs) = if c == b'/' then none else some (tt, c ∷ cs)

unfoldable pub doc_space : Bool → Scan (Unit {0})
doc_space block [] = none
doc_space block (c ∷ cs) =
    if not block && is_newline c
    then none
    else if is_space c
    then some (tt, cs)
    else if block && c == b'*'
    then doc_star cs
    else none

unfoldable pub doc_end : Bool → Scan Token
doc_end block = if block then doc_end_block else doc_end_line
