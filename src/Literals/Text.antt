-- ===== src/Literals/Text.antt =====
-- compiler/literals.cpp, lines 7-12 and 135-168: the text of a literal, and what reads it.
use ceramic.Prelude.{
  ℕ, zero, suc, Bool, true, false, ◌&&◌, ◌||◌, Option, [], ◌∷◌, Bytes, bytes_eq, codes, ◌==◌,
  if◌then◌else◌,
}

-- Over the native numbers: `negsuc n` is -(n + 1).
pub data ℤ : Type 0 where
  pos : ℕ → ℤ
  negsuc : ℕ → ℤ

-- What a conversion of the C library reads: the value, the text at `end`, and whether it sets `errno`
-- to `ERANGE`.
pub record Read (A : Type 0) : Type 0 where
  pub value : A
  pub end : Bytes
  pub erange : Bool

-- The C library's `strtol` and `strtoul` (`long` has 64 bits, as `long long` has), `strtod` and `strtold`,
-- the last two with the bytes of the number as one integer; the conversion of such a `double` to `float`;
-- and of LLVM's `StringRef` the calls that drop a prefix and that read a magnitude.
pub record Library : Type 0 where
  pub strtol : Bytes → ℕ → Read ℤ
  pub strtoul : Bytes → ℕ → Read ℕ
  pub strtod : Bytes → Read ℕ
  pub strtold : Bytes → Read ℕ
  pub to_float : ℕ → ℕ
  pub consume_front : Bytes → Bytes → Bool × Bytes
  pub get_as_integer : ℕ → Bytes → Option ℕ

-- The types that a literal can have.
pub data NumberType : Type 0 where
  int8 int16 int32 int64 int128 : NumberType
  uint8 uint16 uint32 uint64 uint128 : NumberType
  float32 float64 float80 imag32 imag64 imag80 : NumberType

abbrev number_type_code : NumberType → ℕ
number_type_code int8 = 0
number_type_code int16 = 1
number_type_code int32 = 2
number_type_code int64 = 3
number_type_code int128 = 4
number_type_code uint8 = 5
number_type_code uint16 = 6
number_type_code uint32 = 7
number_type_code uint64 = 8
number_type_code uint128 = 9
number_type_code float32 = 10
number_type_code float64 = 11
number_type_code float80 = 12
number_type_code imag32 = 13
number_type_code imag64 = 14
number_type_code imag80 = 15

abbrev pub same_type : NumberType → NumberType → Bool
same_type a b = number_type_code a == number_type_code b

-- `Literal` is the value of the literal with its type: the bytes of the buffer as one integer.
pub record Literal : Type 0 where
  pub number_type : NumberType
  pub bits : ℕ

-- The errors of one literal.
pub data Outcome : Type 0 where
  literal : Literal → Outcome
  invalid_literal : NumberType → Outcome
  literal_out_of_range : NumberType → Outcome
  invalid_suffix : Bytes → Outcome
  assertion_fails : Outcome

-- The byte at an index, and the byte that ends a C string behind its last one.
unfoldable pub char_at : ℕ → Bytes → ℕ
char_at i [] = 0
char_at zero (c ∷ cs) = c
char_at (suc i) (c ∷ cs) = char_at i cs

unfoldable pub ishex : Bytes → Bool
unfolding char_at
ishex s =
    (char_at 0 s == b'+' || char_at 0 s == b'-')
      && char_at 1 s == b'0'
      && (char_at 2 s == b'x' || char_at 2 s == b'X')
    || char_at 0 s == b'0' && (char_at 1 s == b'x' || char_at 1 s == b'X')

abbrev is_empty : Bytes → Bool
is_empty [] = true
is_empty (c ∷ cs) = false

unfoldable pub type_suffix : Bytes → NumberType → Bytes → NumberType → Bool
type_suffix suffix default_type test_suffix test_default_type =
    bytes_eq suffix test_suffix || is_empty suffix && same_type default_type test_default_type

unfoldable pub imag_type_suffix : Bytes → NumberType → Bytes → NumberType → Bool
imag_type_suffix suffix default_type test_suffix test_default_type =
    bytes_eq suffix test_suffix
    || bytes_eq suffix (codes "j") && same_type default_type test_default_type

module _ (lib : Library) where
  -- The text without its sign and, for base 16, without `0x`, and whether the sign was a minus.
  unfoldable pub unsigned_text : Bytes → ℕ → Bool × Bytes
  unsigned_text s base =
      let (negative, after_minus) = lib.consume_front s (codes "-") in
      let (plus, after_plus) = lib.consume_front after_minus (codes "+") in
      let unsigned = if negative then after_minus else after_plus in
      let (x, after_x) = lib.consume_front unsigned (codes "0x") in
      let (big_x, after_big_x) = lib.consume_front unsigned (codes "0X") in
      (negative, if base == 16 then (if x then after_x else after_big_x) else unsigned)

  -- Whether a minus is in front, with the magnitude if it is one.
  unfoldable pub parse_int128_magnitude : Bytes → ℕ → Bool × Option ℕ
  unfolding unsigned_text
  parse_int128_magnitude s base =
      let (negative, digits) = unsigned_text s base in (negative, lib.get_as_integer base digits)
