-- ===== src/Lexer/Strings.antt =====
-- compiler/lexer.cpp, lines 286-408: string literals read back, and hexadecimal escapes.
use ceramic.Prelude.{
  ℕ, zero, suc, ◌+◌, ◌-◌, ◌*◌, ◌/◌, ◌%◌, ◌<◌, ◌≤◌, ◌≡◌, ◌≢◌, refl, ap, ◌∙◌, ◌||◌, ◌⊎◌, inl, inr,
  none, some, [], ◌∷◌, ◌++◌, Bytes, length, length-append, append_assoc, ◌==◌, ltb, if◌then◌else◌,
  ==_iff, arith,
}
use ceramic.Lexer.Scan.{
  ◌>>=◌, ◌>>◌, ◌<|>◌, pure, next, satisfy, char, str, many, many_fuel, not_ahead,
}
use ceramic.Lexer.Scan.Run.{>>=-some, >>-some, <|>-some, satisfy-some}
use ceramic.Lexer.Scan.Loops.{StopsAt}
use ceramic.Lexer.Literals.{
  hex_value, hex_digit, hex_escape_char, escape_code, escape_char, plain_char, one_char,
  single_quote_string, string_token, char_token,
}
use ceramic.Lexer.Token.{token, t_string_literal, t_char_literal}

-- How a source may spell a byte inside a literal: a backslash in front of a quote or a backslash.
abbrev pub spelled : ℕ → Bytes
spelled c = if c == 92 || c == 34 || c == 39 then 92 ∷ c ∷ [] else c ∷ []

abbrev pub spelled_all : Bytes → Bytes
spelled_all [] = []
spelled_all (c ∷ cs) = spelled c ++ spelled_all cs

one_char-spelled : (c : ℕ) (t : Bytes) → one_char (spelled c ++ t) ≡ some (c, t)
unfolding one_char escape_char plain_char ◌<|>◌ ◌>>=◌ ◌>>◌ next char satisfy not_ahead escape_code
    pure
one_char-spelled c t = ground arith

not_quote_spelled :
    (c : ℕ) (t : Bytes) → not_ahead (char 34) (spelled c ++ t) ≡ some (tt, spelled c ++ t)
unfolding char satisfy not_ahead
not_quote_spelled c t = ground arith

body_step : (c : ℕ) (t : Bytes) → (not_ahead (char 34) >> one_char) (spelled c ++ t) ≡ some (c, t)
body_step c t = >>-some _ one_char (not_quote_spelled c t) ∙ one_char-spelled c t

body_stop : (rest : Bytes) → (not_ahead (char 34) >> one_char) (34 ∷ rest) ≡ none
unfolding ◌>>◌ not_ahead char satisfy
body_stop rest = refl

body_loop :
    (f : ℕ) (cs rest : Bytes)
    → length cs < f
    → many_fuel f (not_ahead (char 34) >> one_char) (spelled_all cs ++ 34 ∷ rest) ≡ (cs, 34 ∷ rest)
unfolding many_fuel
body_loop zero cs rest h = absurd (omega arith)
body_loop (suc f) [] rest h = rw (body_stop rest, many_fuel)
body_loop (suc f) (c ∷ cs) rest h = rw (append_assoc (spelled c) (spelled_all cs) (34 ∷ rest)) (
    rw (body_step c (spelled_all cs ++ 34 ∷ rest), many_fuel)
      (rw (body_loop f cs rest (omega arith))))

length-spelled_all : (cs : Bytes) → length cs ≤ length (spelled_all cs)
length-spelled_all [] = omega arith
length-spelled_all (c ∷ cs) =
    omega
      (arith, length-spelled_all cs, length-append (spelled c) (spelled_all cs), length-spelled c)
  where
    length-spelled : (d : ℕ) → 1 ≤ length (spelled d)
    length-spelled d = ground arith

body_many :
    (cs rest : Bytes)
    → many (not_ahead (char 34) >> one_char) (spelled_all cs ++ 34 ∷ rest) ≡ some (cs, 34 ∷ rest)
unfolding many
body_many cs rest = ap some (
    body_loop (suc (length (spelled_all cs ++ 34 ∷ rest))) cs rest
      (omega (arith, length-spelled_all cs, length-append (spelled_all cs) (34 ∷ rest))))

char-some : (x : ℕ) (s : Bytes) → char x (x ∷ s) ≡ some (x, s)
unfolding char
char-some x s = satisfy-some (λ c. c == x) x s ((==_iff x x).1 refl)

pure-some {ℓ} : {A : Type ℓ} (a : A) (s : Bytes) → pure a s ≡ some (a, s)
unfolding pure
pure-some a s = refl

single_quote_string-spelled :
    (cs rest : Bytes)
    → single_quote_string (34 ∷ (spelled_all cs ++ 34 ∷ rest))
      ≡ some (token t_string_literal cs, rest)
unfolding single_quote_string
single_quote_string-spelled cs rest =
    let text = spelled_all cs ++ 34 ∷ rest in
    >>-some (char 34) _ (char-some 34 text)
    ∙ >>=-some (many (not_ahead (char 34) >> one_char)) _ (body_many cs rest)
    ∙ >>-some (char 34) _ (char-some 34 rest)
    ∙ pure-some (token t_string_literal cs) rest

not_triple :
    (cs rest : Bytes)
    → (cs ≢ []) ⊎ StopsAt (λ c. c == 34) rest
    → str (34 ∷ 34 ∷ 34 ∷ []) (34 ∷ (spelled_all cs ++ 34 ∷ rest)) ≡ none
unfolding str ◌>>◌ char satisfy pure
not_triple [] [] h = refl
not_triple [] (d ∷ ds) (inl h) = absurd (h refl)
not_triple [] (d ∷ ds) (inr h) = ground arith
not_triple (c ∷ cs) rest h = ground arith

-- A text whose quotes and backslashes are escaped, between two quotes, reads back as one string
-- token with that text, whatever follows; but the empty text must not stand before a quote.
pub string_token-spelled :
    (cs rest : Bytes)
    → (cs ≢ []) ⊎ StopsAt (λ c. c == 34) rest
    → string_token (34 ∷ (spelled_all cs ++ 34 ∷ rest)) ≡ some (token t_string_literal cs, rest)
unfolding string_token
string_token-spelled cs rest h =
    rw (not_triple cs rest h, string_token) (single_quote_string-spelled cs rest)

not_quote_char :
    (c : ℕ) (t : Bytes) → not_ahead (char 39) (spelled c ++ t) ≡ some (tt, spelled c ++ t)
unfolding char satisfy not_ahead
not_quote_char c t = ground arith

-- A byte, escaped where it is a quote or a backslash, between two apostrophes reads back as one
-- character token with that byte.
pub char_token-spelled :
    (c : ℕ) (rest : Bytes)
    → char_token (39 ∷ (spelled c ++ 39 ∷ rest)) ≡ some (token t_char_literal (c ∷ []), rest)
unfolding char_token
char_token-spelled c rest =
    let text = 39 ∷ rest in
    >>-some (char 39) _ (char-some 39 (spelled c ++ text))
    ∙ >>-some (not_ahead (char 39)) _ (not_quote_char c text)
    ∙ >>=-some one_char _ (one_char-spelled c text)
    ∙ >>-some (char 39) _ (char-some 39 rest)
    ∙ pure-some (token t_char_literal (c ∷ [])) rest

-- The digit that stands for a value below 16, in lower case.
abbrev pub hex_spelled : ℕ → ℕ
hex_spelled d = if ltb d 10 then b'0' + d else b'a' + (d - 10)

hex_digit_spelled : (d : ℕ) (t : Bytes) → d < 16 → hex_digit (hex_spelled d ∷ t) ≡ some (d, t)
unfolding hex_digit hex_value
hex_digit_spelled d t h = ground arith

next-some : (c : ℕ) (s : Bytes) → next (c ∷ s) ≡ some (c, s)
unfolding next
next-some c s = refl

hex_escape_spelled :
    (n : ℕ) (t : Bytes)
    → n < 256
    → escape_code b'x' (hex_spelled (n / 16) ∷ hex_spelled (n % 16) ∷ t) ≡ some (n, t)
unfolding escape_code hex_escape_char
hex_escape_spelled n t h =
    >>=-some hex_digit _ (hex_digit_spelled (n / 16) (hex_spelled (n % 16) ∷ t) (omega arith))
    ∙ >>=-some hex_digit _ (hex_digit_spelled (n % 16) t (omega arith))
    ∙ pure-some (n / 16 * 16 + n % 16) t
    ∙ ap (λ (k : ℕ). some (k, t)) (omega arith)

-- Every byte has a hexadecimal escape, `\xhh`, that reads back as that byte.
pub one_char-hex :
    (n : ℕ) (t : Bytes)
    → n < 256
    → one_char (92 ∷ b'x' ∷ hex_spelled (n / 16) ∷ hex_spelled (n % 16) ∷ t) ≡ some (n, t)
unfolding one_char escape_char
one_char-hex n t h =
    let digits = hex_spelled (n / 16) ∷ hex_spelled (n % 16) ∷ t in
    <|>-some (char 92 >> (next >>= λ c. escape_code c)) plain_char (
      >>-some (char 92) _ (char-some 92 (b'x' ∷ digits))
      ∙ >>=-some next _ (next-some b'x' digits)
      ∙ hex_escape_spelled n t h)
