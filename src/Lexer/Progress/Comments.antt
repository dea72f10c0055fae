-- ===== src/Lexer/Progress/Comments.antt =====
-- compiler/lexer.cpp lines 578-769 and 866-1001: space, comments and documentation.
use ceramic.Prelude.{
  ℕ, zero, suc, Bool, true, false, not, ◌&&◌, Option, some, [], ◌∷◌, Bytes, length, ◌==◌,
  if◌then◌else◌, Bool-cases, inl, inr,
}
use ceramic.Lexer.Scan.{Scan, ◌>>◌, pure, satisfy, next, char, many, slice_to}
use ceramic.Lexer.Scan.Progress.{
  After, failed, read, After-map, After-elim, Suffix, here, there, Proper, proper, Suffix-of_Proper,
  Tail, Strict, Tail-of_Strict, Tail-many, Tail->>=, Strict->>, Strict->>=_right, Strict-next,
  Strict-satisfy, Strict-char, many_fuel-Suffix,
}
use ceramic.Lexer.Skips.{
  is_space, is_newline, space, line_comment, block_comment_end, block_comment, llvm_comment_end,
  llvm_comment, llvm_string_char, llvm_string_literal, llvm_body_item, llvm_body, llvm_braces,
  llvm_prefix, llvm_block, llvm_token,
}
use ceramic.Lexer.Doc.{
  doc_start_line, doc_start_block, doc_end_line, doc_end_block, doc_property_token,
  doc_property_name, doc_property, maybe_doc_end, doc_text_end, doc_text, doc_star, doc_space,
  doc_end,
}
use ceramic.Lexer.Token.{Range, token, location_for, t_llvm, t_doc_text}
use ceramic.Lexer.Tokenize.{skip_doc_space}
use ceramic.Lexer.Progress.Words.{tails, stricts}

pub Strict-space : Strict space
unfolding space
Strict-space = search (stricts, tails, Tail-of_Strict)

pub Strict-line_comment : Strict line_comment
unfolding line_comment
Strict-line_comment = search (stricts, tails, Tail-of_Strict) depth 9

Strict-block_comment_end : (star : Bool) → Strict (block_comment_end star)
unfolding block_comment_end
Strict-block_comment_end star [] = failed
Strict-block_comment_end star (c ∷ cs) = elim (Bool-cases (star && c == b'/')) [
  | inl e ↦ rw e (read (proper here))
  | inr e ↦
      rw e
        (After-map (Strict-block_comment_end (c == b'*') cs) (λ _ _ p. proper (Suffix-of_Proper p)))
]

pub Strict-block_comment : Strict block_comment
unfolding block_comment
Strict-block_comment = search (stricts, tails, Tail-of_Strict, Strict-block_comment_end) depth 9

Tail-llvm_comment_end : Tail llvm_comment_end
unfolding llvm_comment_end
Tail-llvm_comment_end [] = read here
Tail-llvm_comment_end (c ∷ cs) = elim (Bool-cases (not (c == 10))) [
  | inl e ↦ rw e (After-map (Tail-llvm_comment_end cs) (λ _ _ p. there p))
  | inr e ↦ rw e (read (there here))
]

Strict-llvm_comment : Strict llvm_comment
unfolding llvm_comment
Strict-llvm_comment = search (stricts, Tail-llvm_comment_end)

Strict-llvm_string_char : Strict llvm_string_char
unfolding llvm_string_char
Strict-llvm_string_char = search (stricts, tails, Tail-of_Strict)

Strict-llvm_string_literal : Strict llvm_string_literal
unfolding llvm_string_literal
Strict-llvm_string_literal =
    search (stricts, tails, Tail-of_Strict, Strict-llvm_string_char) depth 9

pub Strict-llvm_body_item : (m : Scan (Unit {0})) → Strict m → Strict (llvm_body_item m)
unfolding llvm_body_item
Strict-llvm_body_item m h =
    search (stricts, tails, Strict-llvm_comment, Strict-llvm_string_literal) depth 9

Tail-llvm_body : (m : Scan (Unit {0})) → Strict m → Tail (llvm_body m)
unfolding llvm_body
Tail-llvm_body m h = search (tails, Tail-of_Strict, Strict-llvm_body_item)

pub Strict-llvm_braces : (depth : ℕ) → Strict (llvm_braces depth)
unfolding llvm_braces
Strict-llvm_braces zero s = failed
Strict-llvm_braces (suc depth) s =
    let body = Tail-llvm_body (llvm_braces depth) (Strict-llvm_braces depth) in
    Strict->> (char b'{') (llvm_body (llvm_braces depth) >> (char b'}' >> pure tt))
      (Strict-char b'{') (search (stricts, tails, Tail-of_Strict, body)) s

pub Strict-llvm_prefix : Strict llvm_prefix
unfolding llvm_prefix
Strict-llvm_prefix = search (stricts, tails, Tail-of_Strict)

Tail-llvm_block : (w : Range) → Tail (llvm_block w)
unfolding llvm_block
Tail-llvm_block w s =
    After-elim (llvm_braces (suc (length s)) s) _
      (λ _ r.
        some (
          record { location = some (location_for w s); str = slice_to s r; token_kind = t_llvm },
          r,
        ))
      (Strict-llvm_braces _ s) failed (λ _ _ p. read (Suffix-of_Proper p))

pub Strict-llvm_token : (w : Range) → Strict (llvm_token w)
unfolding llvm_token
Strict-llvm_token w = search (stricts, Strict-llvm_prefix, Tail-llvm_block)

pub Strict-doc_start_line : Strict doc_start_line
unfolding doc_start_line
Strict-doc_start_line = search (stricts, tails)

pub Strict-doc_start_block : Strict doc_start_block
unfolding doc_start_block
Strict-doc_start_block = search (stricts, tails)

pub Tail-stars : Tail (many (satisfy (λ c. c == b'*')))
Tail-stars = search (stricts, tails, Tail-of_Strict)

pub Tail-spaces : Tail (many (satisfy is_space))
Tail-spaces = search (stricts, tails, Tail-of_Strict)

pub Tail-name : Tail (many (satisfy (λ c. not (is_space c))))
Tail-name = search (stricts, tails, Tail-of_Strict)

Strict-doc_end_line : Strict doc_end_line
unfolding doc_end_line
Strict-doc_end_line = search (stricts, tails)

Strict-doc_end_block : Strict doc_end_block
unfolding doc_end_block
Strict-doc_end_block = search (Strict->>=_right, stricts, tails, Tail-of_Strict) depth 9

pub Strict-doc_end : (block : Bool) → Strict (doc_end block)
unfolding doc_end
Strict-doc_end true = Strict-doc_end_block
Strict-doc_end false = Strict-doc_end_line

pub Tail-doc_property_token :
    (w : Range) (begin name : Bytes) → Tail (doc_property_token w begin name)
unfolding doc_property_token
Tail-doc_property_token w begin name = search (stricts, tails, Tail-of_Strict)

Tail-doc_property_name : (w : Range) → Tail (doc_property_name w)
unfolding doc_property_name
Tail-doc_property_name w s =
    Tail->>= _ (doc_property_token w s) (Tail-many _ (Tail-of_Strict _ (Strict-satisfy _)))
      (Tail-doc_property_token w s) s

pub Strict-doc_property : (w : Range) → Strict (doc_property w)
unfolding doc_property
Strict-doc_property w =
    search (Strict->>=_right, stricts, tails, Tail-of_Strict, Tail-doc_property_name) depth 9

pub Tail-doc_text_end : (block : Bool) → Tail (doc_text_end block)
unfolding doc_text_end
Tail-doc_text_end block [] = failed
Tail-doc_text_end block (c ∷ cs) = elim (Bool-cases (is_newline c)) [
  | inl e ↦ rw e (read here)
  | inr e ↦ elim (Bool-cases (block && c == b'*' && maybe_doc_end cs)) [
    | inl d ↦ rw (e, d) (read (there here))
    | inr d ↦ rw (e, d) (After-map (Tail-doc_text_end block cs) (λ _ _ p. there p))
  ]
]

pub Strict-doc_text : (block : Bool) → Strict (doc_text block)
unfolding doc_text
Strict-doc_text block s =
    After-elim ((next >> doc_text_end block) s) _ (λ _ r. some (token t_doc_text (slice_to s r), r))
      (Strict->> next _ Strict-next (Tail-doc_text_end block) s) failed (λ _ _ p. read p)

After-if :
    (b : Bool) {s : Bytes} {o k : Option (Unit {0} × Bytes)}
    → After (λ _ r. Proper r s) o
    → After (λ _ r. Proper r s) k
    → After (λ _ r. Proper r s) (if b then o else k)
After-if true h g = h
After-if false h g = g

Tail-doc_star : (c : ℕ) (s : Bytes) → After (λ _ r. Proper r (c ∷ s)) (doc_star s)
unfolding doc_star
Tail-doc_star c [] = read (proper here)
Tail-doc_star c (d ∷ ds) = After-if (d == b'/') failed (read (proper here))

pub Strict-doc_space : (block : Bool) → Strict (doc_space block)
unfolding doc_space
Strict-doc_space block [] = failed
Strict-doc_space block (c ∷ cs) = After-if (not block && is_newline c) failed (
    After-if (is_space c) (read (proper here))
      (After-if (block && c == b'*') (Tail-doc_star c cs) failed))

pub skip_doc_space-Suffix : (block : Bool) (s : Bytes) → Suffix (skip_doc_space block s) s
unfolding skip_doc_space
skip_doc_space-Suffix block s =
    many_fuel-Suffix (suc (length s)) (doc_space block) (Tail-of_Strict _ (Strict-doc_space block))
      s
