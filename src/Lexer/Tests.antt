-- ===== src/Lexer/Tests.antt =====
-- The lexer on concrete sources, and its theorems at concrete inputs.
use ceramic.Prelude.{
  ◌+◌, ◌/◌, ◌%◌, if◌then◌else◌, ◌<◌, ◌≤◌, ◌≡◌, ◌≢◌, refl, inl, true, false, none, some, [], ◌∷◌,
  ◌++◌, List, Bytes, codes, length, arith,
}
use ceramic.Lexer
use ceramic.Lexer.Identifiers.{next_token_identifier}
use ceramic.Lexer.Literals.{string_token, char_token, one_char, decimal_digit, decimal_int}
use ceramic.Lexer.Llvm.{llvm_braces_depth}
use ceramic.Lexer.Names.{ident_char1, ident_char2, is_keyword}
use ceramic.Lexer.Scan.{many, satisfy, ◌>>=◌, ◌>>◌, ◌<|>◌}
use ceramic.Lexer.Scan.Loops.{AllPass, StopsAt, many_exits}
use ceramic.Lexer.Scan.Progress.{Strict-satisfy}
use ceramic.Lexer.Skips.{llvm_braces, llvm_token}
use ceramic.Lexer.Strings.{
  spelled, spelled_all, hex_spelled, string_token-spelled, char_token-spelled, one_char-hex,
}
use ceramic.Lexer.Token.{
  Token, Range, location_for, t_string_literal, t_identifier, t_char_literal, t_symbol, t_doc_text,
  t_doc_property, t_opstring, t_int_literal, t_keyword, token,
}
use ceramic.Lexer.Tokenize.{
  tokenize, tokenize_all, tokens, out_of_fuel, invalid_doc_token, next_token, lexed,
}
use ceramic.Lexer.Tokenize.Locations.{
  tokenize-ne-out_of_fuel, length-tokenize, tokenize-Ascending, Ascending, tokenize_error,
  error_location,
}

abbrev sample : Bytes
sample = codes "// c\nif a1+0x1F"

abbrev sample_tokens : List Token
sample_tokens =
    record { location = some 5; str = codes "if"; token_kind = t_keyword }
    ∷ record { location = some 8; str = codes "a1"; token_kind = t_identifier }
    ∷ record { location = some 10; str = codes "+"; token_kind = t_opstring }
    ∷ record { location = some 11; str = codes "0x1F"; token_kind = t_int_literal }
    ∷ []

-- Named on an `unfolding` line, it opens the whole lexer.
unfoldable pub lexer : Unit {0}
unfolding ◌>>=◌ ◌>>◌ Lexer.Scan.pure ◌<|>◌ Lexer.Scan.next Lexer.Scan.satisfy Lexer.Scan.char
    Lexer.Scan.str Lexer.Scan.optional Lexer.Scan.not_ahead Lexer.Scan.many_fuel Lexer.Scan.many
    Lexer.Scan.slice_to Lexer.Scan.captured Lexer.Names.ident_char1 Lexer.Names.ident_char2
    Lexer.Names.ident_str Lexer.Names.is_keyword Lexer.Names.keyword_identifier
    Lexer.Names.symbol_of Lexer.Names.symbol Lexer.Names.opchar Lexer.Names.opstring Lexer.Names.op
    Lexer.Names.op_identifier Lexer.Literals.hex_value Lexer.Literals.hex_digit
    Lexer.Literals.decimal_digit Lexer.Literals.hex_escape_char Lexer.Literals.escape_code
    Lexer.Literals.escape_char Lexer.Literals.plain_char Lexer.Literals.one_char
    Lexer.Literals.char_token Lexer.Literals.single_quote_string Lexer.Literals.triple_end
    Lexer.Literals.triple_quote_body Lexer.Literals.string_token
    Lexer.Literals.opt_numeric_separator Lexer.Literals.separated Lexer.Literals.decimal_digits
    Lexer.Literals.hex_digits Lexer.Literals.hex_int Lexer.Literals.decimal_int Lexer.Literals.sign
    Lexer.Literals.int_token Lexer.Literals.exponent_part Lexer.Literals.fractional_part
    Lexer.Literals.hex_exponent_part Lexer.Literals.hex_fractional_part
    Lexer.Literals.hex_float_tail Lexer.Literals.decimal_float_tail Lexer.Literals.float_body
    Lexer.Literals.float_token Lexer.Literals.static_index Lexer.Skips.is_space Lexer.Skips.space
    Lexer.Skips.line_comment Lexer.Skips.block_comment_end Lexer.Skips.block_comment
    Lexer.Skips.llvm_comment_end Lexer.Skips.llvm_comment Lexer.Skips.llvm_string_char
    Lexer.Skips.llvm_string_literal Lexer.Skips.llvm_body_item Lexer.Skips.llvm_body
    Lexer.Skips.llvm_braces Lexer.Skips.llvm_prefix Lexer.Skips.llvm_block Lexer.Skips.llvm_token
    Lexer.Doc.doc_start_line Lexer.Doc.doc_start_block Lexer.Doc.doc_end_line
    Lexer.Doc.doc_end_block Lexer.Doc.doc_property_token Lexer.Doc.doc_property_name
    Lexer.Doc.doc_property Lexer.Doc.maybe_doc_end Lexer.Doc.doc_text_end Lexer.Doc.doc_text
    Lexer.Doc.doc_star Lexer.Doc.doc_space Lexer.Doc.doc_end Lexer.Token.location_for
    Lexer.Tokenize.keep Lexer.Tokenize.first_token Lexer.Tokenize.located Lexer.Tokenize.no_token
    Lexer.Tokenize.finish_token Lexer.Tokenize.next_token Lexer.Tokenize.first_doc_token
    Lexer.Tokenize.skip_doc_space Lexer.Tokenize.next_doc_token Lexer.Tokenize.push
    Lexer.Tokenize.action Lexer.Tokenize.is_doc_end Lexer.Tokenize.code_round
    Lexer.Tokenize.doc_round Lexer.Tokenize.token_loop Lexer.Tokenize.tokenize
    Lexer.Tokenize.tokenize_all
lexer = tt

tokenize-sample : tokenize false sample 0 15 ≡ tokens sample_tokens
unfolding lexer
tokenize-sample = refl

-- The text of a documentation block takes in the first star of its end.
doc_block_text :
    tokenize_all false (codes "/** hi */x")
    ≡ tokens (
        record { location = some 4; str = codes "hi *"; token_kind = t_doc_text }
        ∷ record { location = some 9; str = codes "x"; token_kind = t_identifier }
        ∷ [])
unfolding lexer
doc_block_text = refl

-- A property at the end of a line takes the newline in, so the next line, which is code, is read as
-- documentation.
doc_property_line :
    tokenize_all false (codes "/// @p\nx\ny")
    ≡ tokens (
        record { location = some 5; str = codes "p"; token_kind = t_doc_property }
        ∷ record { location = some 7; str = codes "x"; token_kind = t_doc_text }
        ∷ record { location = some 9; str = codes "y"; token_kind = t_identifier }
        ∷ [])
unfolding lexer
doc_property_line = refl

-- A line of documentation must end with a newline.
doc_line_at_end : tokenize_all false (codes "/// hi") ≡ invalid_doc_token 4
unfolding lexer
doc_line_at_end = refl

tokenize-ne-out_of_fuel_example : tokenize false sample 0 15 ≢ out_of_fuel
tokenize-ne-out_of_fuel_example = tokenize-ne-out_of_fuel false sample 0 15

length-tokenize_example : length sample_tokens ≤ 15
length-tokenize_example = length-tokenize false sample 0 15 tokenize-sample

tokenize-Ascending_example : Ascending 0 15 sample_tokens
tokenize-Ascending_example = tokenize-Ascending false sample 0 15 (omega arith) tokenize-sample

bad_sample : error_location (tokenize false (codes "a \"b") 1 3) ≡ some 2
unfolding lexer
bad_sample = refl

tokenize_error_example : (1 ≤ 2) × (2 < 1 + 3)
tokenize_error_example = tokenize_error false (codes "a \"b") 1 3 2 (omega arith) bad_sample

llvm_braces_depth_example : llvm_braces (7 + 6) (codes "{ {} ") ≡ llvm_braces 6 (codes "{ {} ")
llvm_braces_depth_example = llvm_braces_depth 7 (codes "{ {} ")

abbrev whole : Range
whole = record { begin = codes "record foo"; begin_offset = 0 }

not_llvm : llvm_token whole (codes "record foo") ≡ none
unfolding lexer
not_llvm = refl

record_is_keyword : is_keyword (codes "record") ≡ true
unfolding is_keyword
record_is_keyword = refl

-- `__llvm__` is not in the table, so without a block behind it that name is an identifier.
llvm_not_keyword : is_keyword (codes "__llvm__") ≡ false
unfolding is_keyword
llvm_not_keyword = refl

ident_r : ident_char1 b'r' ≡ true
unfolding ident_char1
ident_r = refl

ident_ecord : AllPass ident_char2 (codes "ecord")
unfolding ident_char2
ident_ecord = (refl, (refl, (refl, (refl, (refl, tt)))))

ident_stop : StopsAt ident_char2 (codes " foo")
unfolding ident_char2
ident_stop = refl

next_token_identifier_example :
    next_token whole true (codes "record foo")
    ≡ lexed
        (record {
          location = some (location_for whole (codes "record foo"));
          str = codes "record";
          token_kind = if is_keyword (codes "record") then t_keyword else t_identifier;
        })
        true
        (codes " foo")
next_token_identifier_example =
    next_token_identifier b'r' (codes "ecord") (codes " foo") ident_r ident_ecord ident_stop whole
      true not_llvm

string_token-spelled_example :
    string_token (34 ∷ (spelled_all (codes "a\"b") ++ 34 ∷ codes "c"))
    ≡ some (token t_string_literal (codes "a\"b"), codes "c")
string_token-spelled_example = string_token-spelled (codes "a\"b") (codes "c") (inl (cc))

char_token-spelled_example :
    char_token (39 ∷ (spelled 92 ++ 39 ∷ [])) ≡ some (token t_char_literal (92 ∷ []), [])
char_token-spelled_example = char_token-spelled 92 []

one_char-hex_example :
    one_char (92 ∷ b'x' ∷ hex_spelled (255 / 16) ∷ hex_spelled (255 % 16) ∷ []) ≡ some (255, [])
one_char-hex_example = one_char-hex 255 [] (omega arith)

many_run : many (satisfy ident_char2) (codes "a b") ≡ some (codes "a", codes " b")
unfolding lexer
many_run = refl

many_stops_at_blank : satisfy ident_char2 (codes " b") ≡ none
many_stops_at_blank =
    many_exits (satisfy ident_char2) (codes "a b") (Strict-satisfy ident_char2) many_run
