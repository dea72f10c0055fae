-- ===== src/Literals/Tests.antt =====
-- Number literals on concrete texts, and their theorems at concrete inputs.
use ceramic.Prelude.{
  ℕ, ◌+◌, ◌-◌, ◌*◌, ◌%◌, ◌^◌, ◌≡◌, refl, Bool, true, false, ◌&&◌, none, some, [], ◌∷◌, Bytes, codes,
  leb, ◌==◌, if◌then◌else◌, arith,
}
use ceramic.Literals.Floats.{parse_hex_float, float_bits, bitcount, float_from_parts}
use ceramic.Literals.Floats.Exact.{float_bits_exact}
use ceramic.Literals.Integers.{
  parse_int_literal, to_bits, fits_signed, checked, signed_literal, unsigned_literal,
  uint32_literal,
}
use ceramic.Literals.Suffixes.{IsSettled, by_ss, parse_int_literal-signed, from_bits}
use ceramic.Literals.Text.{
  ℤ, pos, Read, Library, int8, int16, uint8, uint32, literal, literal_out_of_range, ishex,
  type_suffix,
}

-- Decimal digits, which stand in for the C library's and LLVM's reading of numbers.
abbrev pub read_digits : ℕ → Bytes → Read ℕ
read_digits n [] = record { value = n; end = []; erange = false }
read_digits n (c ∷ cs) =
    let rest = read_digits (n * 10 + (c - b'0')) cs in
    if leb b'0' c && leb c b'9' then rest else record { value = n; end = c ∷ cs; erange = false }

abbrev pub positive : Read ℕ → Read ℤ
positive r = record { value = pos r.value; end = r.end; erange = r.erange }

abbrev pub drop_prefix : Bytes → Bytes → Bool × Bytes
drop_prefix text [] = (true, text)
drop_prefix [] (p ∷ ps) = (false, [])
drop_prefix (c ∷ cs) (p ∷ ps) =
    let (b, rest) = drop_prefix cs ps in if c == p && b then (true, rest) else (false, c ∷ cs)

abbrev pub decimal : Library
decimal = record {
  strtol = λ text base. positive (read_digits 0 text);
  strtoul = λ text base. read_digits 0 text;
  strtod = read_digits 0;
  strtold = read_digits 0;
  to_float = λ bits. bits % 2 ^ 32;
  consume_front = drop_prefix;
  get_as_integer = λ base text. some (read_digits 0 text).value;
}

-- 1.5 is 0x1.8p0.
parse_hex_float-one_and_half :
    parse_hex_float decimal (codes "0x1.8p0")
    ≡ some (record { value = 1023 * 2 ^ 52 + 2 ^ 51; end = []; erange = false })
unfolding parse_hex_float from_bits to_bits
parse_hex_float-one_and_half = refl

-- The carry of a mantissa that is rounded up to the next power of two is lost: the number next to 2 is read as 1.
parse_hex_float-carry :
    parse_hex_float decimal (codes "0x1.fffffffffffff8p0")
    ≡ some (record { value = 1023 * 2 ^ 52; end = []; erange = false })
unfolding parse_hex_float from_bits to_bits
parse_hex_float-carry = refl

-- A mantissa of 64 bits whose first digit is not 0 or 1 is shifted by a negative number.
parse_hex_float-long : parse_hex_float decimal (codes "0xffffffffffffffffp0") ≡ none
unfolding parse_hex_float from_bits to_bits
parse_hex_float-long = refl

parse_int_literal-signed_example :
    IsSettled false
      (parse_int_literal decimal (parse_hex_float decimal) false none (codes "128") (codes "ss"))
      int8
      8
      (pos 128)
unfolding ishex fits_signed
parse_int_literal-signed_example =
    parse_int_literal-signed decimal (parse_hex_float decimal) false int8 8 (codes "ss")
      (codes "128") none (pos 128) by_ss refl refl refl

-- A `UInt32` keeps the number modulo 2^32 where the other unsigned types refuse what they cannot hold.
uint32_wraps :
    (parse_int_literal decimal (parse_hex_float decimal) false none (codes "4294967297") (codes "u")
      ≡ literal (record { number_type = uint32; bits = 1 }))
    × (parse_int_literal decimal (parse_hex_float decimal) false none (codes "300") (codes "uss")
        ≡ literal_out_of_range uint8)
unfolding parse_int_literal type_suffix uint32_literal unsigned_literal checked ishex
uint32_wraps = (refl, refl)

-- An `ERANGE` left in `errno` refuses a literal in range.
stale_errno :
    parse_int_literal decimal (parse_hex_float decimal) true none (codes "1") (codes "s")
    ≡ literal_out_of_range int16
unfolding parse_int_literal type_suffix signed_literal checked ishex
stale_errno = refl

-- The mantissa of 0x3p4, which is 1.5 * 2^5.
bitcount-three : bitcount 3 ≡ 1
unfolding bitcount
bitcount-three = refl

float_bits_exact_example :
    float_bits false 4 (1 + 4 + 1023) 0 3
    ≡ some (float_from_parts false (1 + 4 + 1023 - 0) (3 * 2 ^ (52 - bitcount 3)))
float_bits_exact_example =
    float_bits_exact false 4 (1 + 4 + 1023) 0 3 (omega (arith, bitcount-three)) (omega arith)
      (omega arith)
