-- ===== src/Desugar/Chars.antt =====
-- compiler/desugar.cpp, lines 12-20, with compiler/literals.cpp: the value of a character literal.
use ceramic.Prelude.{
  ℕ, zero, suc, ◌-◌, ◌<◌, ◌≡◌, refl, Bool, true, false, Option, [], Bytes, ltb, if◌then◌else◌,
  arith,
}
use ceramic.Desugar.Build.{show}
use ceramic.Desugar.Exprs.{char_text, desugar_char_literal}
use ceramic.Literals.Integers.{to_bits, fits_signed, checked, signed_literal, parse_int_literal}
use ceramic.Literals.Text.{
  ℤ, pos, negsuc, Read, Library, NumberType, int8, literal, ishex, type_suffix,
}
use ceramic.Syntax.Tree.{Expr, call, add_expr, no_exprs, int_literal}

-- No character below the bound is printed like a hexadecimal number.
decimal_up_to : ℕ → Bool
decimal_up_to zero = true
decimal_up_to (suc c) = if ishex (char_text c) then false else decimal_up_to c

decimal_up_to_below :
    (c bound : ℕ) → c < bound → decimal_up_to bound ≡ true → ishex (char_text c) ≡ false
unfolding decimal_up_to
decimal_up_to_below c zero l h = absurd (omega arith)
decimal_up_to_below c (suc b) l h = ground (arith, decimal_up_to_below c b)

decimal_chars : decimal_up_to 256 ≡ true
unfolding decimal_up_to char_text ishex show
decimal_chars = refl

char_text-ishex : (c : ℕ) → c < 256 → ishex (char_text c) ≡ false
char_text-ishex c l = decimal_up_to_below c 256 l decimal_chars

-- The number that a `char` with these bits is, where `char` is signed.
abbrev pub signed_char : ℕ → ℤ
signed_char c = if ltb c 128 then pos c else negsuc (255 - c)

-- The text and the suffix of the literal that an expression gives to its callable.
abbrev pub literal_argument : Expr → Bytes × Bytes
literal_argument (call _ _ (add_expr (int_literal _ text suffix) no_exprs)) = (text, suffix)
literal_argument _ = ([], [])

checked_char :
    (c : ℕ)
    → c < 256
    → checked int8 false
        (fits_signed 8)
        (to_bits 8)
        (record { value = signed_char c; end = []; erange = false })
      ≡ literal (record { number_type = int8; bits = c })
unfolding checked to_bits fits_signed
checked_char c l = ground arith

-- While `errno` is not `ERANGE`, a character literal gives its callable an `Int8` with the bits of the character,
-- whatever the module's default integer type is, if `strtol` reads back the number that was printed, to the
-- end of the text and without a range error.
pub desugar_char_literal-parse_int_literal :
    (lib : Library) (hex : Bytes → Option (Read ℕ)) (d : Option NumberType) (c : ℕ)
    → c < 256
    → lib.strtol (char_text c) 10 ≡ record { value = signed_char c; end = []; erange = false }
    → parse_int_literal lib hex false d
        (literal_argument (desugar_char_literal c)).0
        (literal_argument (desugar_char_literal c)).1
      ≡ literal (record { number_type = int8; bits = c })
unfolding desugar_char_literal parse_int_literal type_suffix signed_literal
desugar_char_literal-parse_int_literal lib hex d c l h =
    rw (char_text-ishex c l, h) (checked_char c l)
