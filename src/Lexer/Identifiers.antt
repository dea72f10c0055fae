-- ===== src/Lexer/Identifiers.antt =====
-- compiler/lexer.cpp, lines 126-173 within `nextToken`: identifiers and keywords.
use ceramic.Prelude.{◌≡◌, ap, ◌∙◌, ℕ, Bool, true, none, some, ◌∷◌, ◌++◌, Bytes, if◌then◌else◌}
use ceramic.Lexer.Heads.{before_llvm-FailsOn}
use ceramic.Lexer.Names.{ident_char1, ident_char2, ident_str, is_keyword, keyword_identifier}
use ceramic.Lexer.Scan.{Scan, ◌>>=◌, pure}
use ceramic.Lexer.Scan.Run.{>>=-some, <|>-none, <|>-some, satisfy-some}
use ceramic.Lexer.Scan.Loops.{AllPass, StopsAt, many-satisfy}
use ceramic.Lexer.Skips.{llvm_token}
use ceramic.Lexer.Token.{Token, Range, location_for, token, t_keyword, t_identifier}
use ceramic.Lexer.Tokenize.{lexed, keep, first_token, located, finish_token, next_token}

keep-none : (block : Bool) (m : Scan Token) (s : Bytes) → m s ≡ none → keep block m s ≡ none
unfolding keep ◌>>=◌
keep-none block m s e = rw (e, keep, ◌>>=◌)

keep-some :
    (block : Bool) (m : Scan Token) {s r : Bytes} {x : Token}
    → m s ≡ some (x, r)
    → keep block m s ≡ some ((x, block), r)
unfolding keep pure
keep-some block m e = >>=-some m _ e

module _ (c : ℕ) (cs rest : Bytes) (first : ident_char1 c ≡ true) (more : AllPass ident_char2 cs)
    (stop : StopsAt ident_char2 rest) where
  ident_str_lem : ident_str (c ∷ (cs ++ rest)) ≡ some (c ∷ cs, rest)
  unfolding ident_str pure
  ident_str_lem =
      >>=-some _ _ (satisfy-some ident_char1 c (cs ++ rest) first)
      ∙ >>=-some _ _ (many-satisfy ident_char2 cs rest more stop)

  abbrev name_token : Token
  name_token = token (if is_keyword (c ∷ cs) then t_keyword else t_identifier) (c ∷ cs)

  keyword_identifier_lem : keyword_identifier (c ∷ (cs ++ rest)) ≡ some (name_token, rest)
  unfolding keyword_identifier pure
  keyword_identifier_lem = >>=-some _ _ ident_str_lem

  first_token_identifier :
      (w : Range) (block : Bool)
      → llvm_token w (c ∷ (cs ++ rest)) ≡ none
      → first_token w block (c ∷ (cs ++ rest)) ≡ some ((name_token, block), rest)
  unfolding first_token
  first_token_identifier w block not_llvm =
      let earlier =
        <|>-none _ (keep block (llvm_token w)) (before_llvm-FailsOn c first block (cs ++ rest))
        ∙ keep-none block (llvm_token w) (c ∷ (cs ++ rest)) not_llvm in
      let name =
        <|>-none _ (keep block keyword_identifier) earlier
        ∙ keep-some block keyword_identifier keyword_identifier_lem in
      <|>-some _ _ (<|>-some _ _ (<|>-some _ _ (<|>-some _ _ name)))

  -- A name that no byte of an identifier follows, and that starts no `__llvm__` block, is read whole
  -- by `nextToken`: as a keyword if it is in the table of keywords, and else as an identifier, the name
  -- `__llvm__` with no block behind it included.
  pub next_token_identifier :
      (w : Range) (block : Bool)
      → llvm_token w (c ∷ (cs ++ rest)) ≡ none
      → next_token w block (c ∷ (cs ++ rest))
        ≡ lexed
            (record {
              location = some (location_for w (c ∷ (cs ++ rest)));
              str = c ∷ cs;
              token_kind = if is_keyword (c ∷ cs) then t_keyword else t_identifier;
            })
            block
            rest
  unfolding next_token finish_token located
  next_token_identifier w block not_llvm =
      ap (finish_token w (c ∷ (cs ++ rest))) (first_token_identifier w block not_llvm)
