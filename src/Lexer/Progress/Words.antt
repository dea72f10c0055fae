-- ===== src/Lexer/Progress/Words.antt =====
-- compiler/lexer.cpp lines 92-576 and 771-798: names and literals read a byte at least.
use ceramic.Prelude.{
  ℕ, Bool, true, false, ◌||◌, [], ◌∷◌, Bytes, ◌==◌, if◌then◌else◌, Option-cases, inl, inr, List,
}
use ceramic.Lexer.Scan.{Scan, ◌<|>◌, str, optional}
use ceramic.Lexer.Scan.Progress.{
  failed, read, After-map, After-elim, here, proper, Suffix-trans, Proper-trans, Tail, Strict,
  Tail-of_Strict, Tail-pure, Tail-<|>, Strict-<|>, Tail-optional, Tail-not_ahead, Tail-captured,
  Strict-captured, Tail-many, Tail->>=, Tail->>, Strict->>=, Strict->>, Strict->>_right,
  Strict->>=_right, Strict-next, Strict-satisfy, Strict-char, Tail-str, Strict-str,
}
use ceramic.Lexer.Names.{
  ident_str, keyword_identifier, symbol_of, symbols, symbol, opstring, op, op_identifier,
}
use ceramic.Lexer.Literals.{
  hex_value, hex_digit, decimal_digit, hex_escape_char, escape_code, escape_char, plain_char,
  one_char, char_token, single_quote_string, triple_end, triple_quote_body, string_token,
  opt_numeric_separator, separated, decimal_digits, hex_digits, hex_int, decimal_int, sign,
  int_token, exponent_part, fractional_part, hex_exponent_part, hex_fractional_part, hex_float_tail,
  decimal_float_tail, float_body, float_token, static_index,
}

-- For `search`: what moves, by the scanner's last step.
pub ruleset tails = (
  Tail-pure, Tail-<|>, Tail-optional, Tail-not_ahead, Tail-captured, Tail-many, Tail->>=, Tail->>,
  Tail-str,
)

pub ruleset stricts = (
  Strict-<|>, Strict-captured, Strict->>=, Strict->>, Strict-next, Strict-satisfy, Strict-char,
  Strict-str,
)

pub Strict-ident_str : Strict ident_str
unfolding ident_str
Strict-ident_str = search (stricts, tails, Tail-of_Strict)

pub Strict-keyword_identifier : Strict keyword_identifier
unfolding keyword_identifier
Strict-keyword_identifier = search (stricts, tails, Strict-ident_str)

pub Strict-opstring : Strict opstring
unfolding opstring
Strict-opstring = search (stricts, tails, Tail-of_Strict)

pub Strict-op : Strict op
unfolding op
Strict-op = search (stricts, tails, Tail-of_Strict, Strict-opstring)

pub Strict-op_identifier : Strict op_identifier
unfolding op_identifier
Strict-op_identifier = search (stricts, tails, Tail-of_Strict, Strict-opstring)

pub Strict-hex_digit : Strict hex_digit
unfolding hex_digit
Strict-hex_digit [] = failed
Strict-hex_digit (c ∷ cs) = elim (Option-cases (hex_value c)) [
  | inl e ↦ rw (e, hex_digit) failed
  | inr (d, e) ↦ rw (e, hex_digit) (read (proper here))
]

pub Strict-decimal_digit : Strict decimal_digit
unfolding decimal_digit
Strict-decimal_digit = search (stricts, tails)

pub Strict-hex_escape_char : Strict hex_escape_char
unfolding hex_escape_char
Strict-hex_escape_char = search (stricts, tails, Tail-of_Strict, Strict-hex_digit)

pub Strict-plain_char : Strict plain_char
unfolding plain_char
Strict-plain_char = search (stricts, tails, Strict->>_right)

Tail-if : (b : Bool) {m k : Scan ℕ} → Tail m → Tail k → Tail (if b then m else k)
Tail-if true h g = h
Tail-if false h g = g

pub Tail-escape_code : (c : ℕ) → Tail (escape_code c)
unfolding escape_code
Tail-escape_code c = Tail-if (c == b'n') (Tail-pure 10) (
    Tail-if (c == b'r') (Tail-pure 13) (
      Tail-if (c == b't') (Tail-pure 9) (
        Tail-if (c == b'f') (Tail-pure 12) (
          Tail-if (c == 92 || c == 39 || c == 34 || c == 36) (Tail-pure c) (
            Tail-if (c == b'0') (Tail-pure 0)
              (Tail-if (c == b'x') (Tail-of_Strict _ Strict-hex_escape_char) (λ s. failed)))))))

pub Strict-escape_char : Strict escape_char
unfolding escape_char
Strict-escape_char = search (stricts, tails, Tail-of_Strict, Tail-escape_code)

pub Strict-one_char : Strict one_char
unfolding one_char
Strict-one_char = search (stricts, tails, Strict-escape_char, Strict-plain_char)

pub Strict-char_token : Strict char_token
unfolding char_token
Strict-char_token = search (stricts, tails, Tail-of_Strict, Strict-one_char) depth 9

pub Strict-single_quote_string : Strict single_quote_string
unfolding single_quote_string
Strict-single_quote_string = search (stricts, tails, Tail-of_Strict, Strict-one_char) depth 9

pub Strict-triple_end : Strict triple_end
unfolding triple_end
Strict-triple_end = search (stricts, tails)

pub Tail-triple_quote_body : Tail triple_quote_body
unfolding triple_quote_body
Tail-triple_quote_body = search (stricts, tails, Tail-of_Strict, Strict-one_char, Strict-triple_end)

pub Strict-string_token : Strict string_token
unfolding string_token
Strict-string_token s =
    After-elim (str (34 ∷ 34 ∷ 34 ∷ []) s) _ (λ _. triple_quote_body) (Strict-str 34 _ s)
      (Strict-single_quote_string s)
      (λ _ r p. After-map (Tail-triple_quote_body r) (λ _ _ q. Proper-trans q p))

pub Tail-opt_numeric_separator : Tail opt_numeric_separator
unfolding opt_numeric_separator
Tail-opt_numeric_separator = search (stricts, tails, Tail-of_Strict)

pub Tail-separated {ℓ} : {A : Type ℓ} (m : Scan A) → Tail m → Tail (separated m)
unfolding separated
Tail-separated m h = search (tails, Tail-opt_numeric_separator)

pub Tail-decimal_digits : Tail decimal_digits
unfolding decimal_digits
Tail-decimal_digits = search (stricts, tails, Tail-of_Strict, Tail-separated, Strict-decimal_digit)

pub Tail-hex_digits : Tail hex_digits
unfolding hex_digits
Tail-hex_digits = search (stricts, tails, Tail-of_Strict, Tail-separated, Strict-hex_digit)

pub Strict-hex_int : Strict hex_int
unfolding hex_int
Strict-hex_int = search (stricts, tails, Tail-of_Strict, Tail-hex_digits, Strict-hex_digit)

pub Strict-decimal_int : Strict decimal_int
unfolding decimal_int
Strict-decimal_int = search (stricts, tails, Tail-decimal_digits, Strict-decimal_digit)

pub Strict-sign : Strict sign
unfolding sign
Strict-sign = search (stricts, tails)

pub Strict-number : Strict (hex_int <|> decimal_int)
Strict-number = search (stricts, Strict-hex_int, Strict-decimal_int)

pub Strict-int_token : Strict int_token
unfolding int_token
Strict-int_token =
    search (stricts, tails, Tail-of_Strict, Strict-number, Strict-sign, Strict->>_right) depth 9

pub Strict-exponent_part : Strict exponent_part
unfolding exponent_part
Strict-exponent_part = search (stricts, tails, Tail-of_Strict, Strict-sign, Strict-decimal_int)

pub Strict-fractional_part : Strict fractional_part
unfolding fractional_part
Strict-fractional_part = search (stricts, tails, Tail-decimal_digits)

pub Strict-hex_exponent_part : Strict hex_exponent_part
unfolding hex_exponent_part
Strict-hex_exponent_part = search (stricts, tails, Tail-of_Strict, Strict-sign, Strict-decimal_int)

pub Strict-hex_fractional_part : Strict hex_fractional_part
unfolding hex_fractional_part
Strict-hex_fractional_part = search (stricts, tails, Tail-hex_digits)

pub Tail-hex_float_tail : Tail hex_float_tail
unfolding hex_float_tail
Tail-hex_float_tail =
    search (stricts, tails, Tail-of_Strict, Strict-hex_fractional_part, Strict-hex_exponent_part)

pub Tail-decimal_float_tail : Tail decimal_float_tail
unfolding decimal_float_tail
Tail-decimal_float_tail s =
    After-elim (fractional_part s) _ (λ _. optional exponent_part)
      (Tail-of_Strict _ Strict-fractional_part s) (Tail-of_Strict _ Strict-exponent_part s)
      (λ _ r p.
        After-map (Tail-optional _ (Tail-of_Strict _ Strict-exponent_part) r)
          (λ _ _ q. Suffix-trans q p))

pub Strict-float_body : Strict float_body
unfolding float_body
Strict-float_body s =
    After-elim (hex_int s) _ (λ _. hex_float_tail) (Strict-hex_int s)
      (Strict->> decimal_int decimal_float_tail Strict-decimal_int Tail-decimal_float_tail s)
      (λ _ r p. After-map (Tail-hex_float_tail r) (λ _ _ q. Proper-trans q p))

pub Strict-float_token : Strict float_token
unfolding float_token
Strict-float_token =
    search (stricts, tails, Tail-of_Strict, Strict-float_body, Strict-sign, Strict->>_right) depth 9

pub Strict-static_index : Strict static_index
unfolding static_index
Strict-static_index = search (stricts, tails, Tail-of_Strict, Strict-number)

-- No text in the list is empty.
abbrev NoneEmpty : List Bytes → Type 0
NoneEmpty [] = Unit
NoneEmpty ([] ∷ ws) = ⊥
NoneEmpty ((c ∷ w) ∷ ws) = NoneEmpty ws

Strict-symbol_of : (ws : List Bytes) → NoneEmpty ws → Strict (symbol_of ws)
unfolding symbol_of
Strict-symbol_of [] h s = failed
Strict-symbol_of ([] ∷ ws) h s = absurd h
Strict-symbol_of ((c ∷ w) ∷ ws) h s =
    Strict-<|> _ (symbol_of ws) (Strict->> _ _ (Strict-str c w) (Tail-pure _))
      (Strict-symbol_of ws h) s

pub Strict-symbol : Strict symbol
unfolding symbol
Strict-symbol = Strict-symbol_of symbols tt
