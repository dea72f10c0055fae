-- ===== src/Literals/Integers.antt =====
-- compiler/literals.cpp, lines 170-385: `parseIntLiteral` and `parseFloatLiteral`.
use ceramic.Prelude.{
  ℕ, ◌-◌, ◌%◌, ◌^◌, Bool, true, false, not, ◌&&◌, ◌||◌, Option, none, some, [], ◌∷◌, Bytes,
  bytes_eq, codes, ltb, leb, ◌==◌, if◌then◌else◌,
}
use ceramic.Literals.Text.{
  ℤ, pos, negsuc, Read, Library, NumberType, int8, int16, int32, int64, int128, uint8, uint16,
  uint32, uint64, uint128, float32, float64, float80, imag32, imag64, imag80, Outcome, literal,
  invalid_literal, literal_out_of_range, invalid_suffix, assertion_fails, ishex, type_suffix,
  imag_type_suffix, parse_int128_magnitude,
}

abbrev pub is_at_end : Bytes → Bool
is_at_end [] = true
is_at_end (c ∷ cs) = false

-- Two's complement of a number in `w` bits: what a conversion to an integer type of `w` bits keeps.
unfoldable pub to_bits : ℕ → ℤ → ℕ
to_bits w (pos n) = n % 2 ^ w
to_bits w (negsuc n) = 2 ^ w - 1 - n % 2 ^ w

-- From the least to the greatest number of a signed type of `w` bits.
unfoldable pub fits_signed : ℕ → ℤ → Bool
fits_signed w (pos n) = ltb n (2 ^ (w - 1))
fits_signed w (negsuc n) = ltb n (2 ^ (w - 1))

-- The branches read alike: they refuse a text that is not read to its end, then a number out of range.
-- `errno` says whether it was `ERANGE` before, since no line resets it.
unfoldable pub checked : {A : Type 0} → NumberType → Bool → (A → Bool) → (A → ℕ) → Read A → Outcome
checked t errno fits bits r =
    if not (is_at_end r.end)
    then invalid_literal t
    else if errno || r.erange
    then literal_out_of_range t
    else if fits r.value
    then literal (record { number_type = t; bits = bits r.value })
    else literal_out_of_range t

abbrev pub always : {A : Type 0} → A → Bool
always a = true

-- The bits of the magnitude, as `getActiveBits` counts them, are at most 128 exactly if it is less than 2^128.
unfoldable pub int128_literal : Bool × Option ℕ → Outcome
int128_literal (negative, none) = invalid_literal int128
int128_literal (negative, some mag) =
    if not (ltb mag (2 ^ 128))
    then literal_out_of_range int128
    else if leb (2 ^ 127) mag && (not negative || not (mag == 2 ^ 127))
    then literal_out_of_range int128
    else literal (record {
      number_type = int128;
      bits = if negative then (2 ^ 128 - mag) % 2 ^ 128 else mag;
    })

unfoldable pub uint128_literal : Bool × Option ℕ → Outcome
uint128_literal (negative, none) = invalid_literal uint128
uint128_literal (negative, some mag) =
    if not (ltb mag (2 ^ 128))
    then literal_out_of_range uint128
    else literal (record {
      number_type = uint128;
      bits = if negative then (2 ^ 128 - mag) % 2 ^ 128 else mag;
    })

-- `none` where an assertion of `parseHexFloat`, which is a parameter here, fails.
abbrev pub floating : NumberType → Bool → (ℕ → ℕ) → Option (Read ℕ) → Outcome
floating t errno bits none = assertion_fails
floating t errno bits (some r) = checked t errno always bits r

abbrev pub or_default : NumberType → Option NumberType → NumberType
or_default t none = t
or_default t (some d) = d

abbrev same_bits : ℕ → ℕ
same_bits n = n

module _ (lib : Library) (parse_hex_float : Bytes → Option (Read ℕ)) (errno : Bool) where
  unfoldable pub ceramic_strtod : Bytes → Option (Read ℕ)
  unfolding ishex
  ceramic_strtod s = if ishex s then parse_hex_float s else some (lib.strtod s)

  unfoldable pub signed_literal : NumberType → ℕ → Bytes → Outcome
  signed_literal t w s =
      checked t errno (fits_signed w) (to_bits w) (lib.strtol s (if ishex s then 16 else 10))

  unfoldable pub unsigned_literal : NumberType → ℕ → Bytes → Outcome
  unsigned_literal t w s =
      checked t errno (λ n. ltb n (2 ^ w)) same_bits (lib.strtoul s (if ishex s then 16 else 10))

  -- The branch of `unsigned int`, which has no check and keeps 32 of the 64 bits.
  unfoldable pub uint32_literal : Bytes → Outcome
  uint32_literal s =
      checked uint32 errno always (λ n. n % 2 ^ 32) (lib.strtoul s (if ishex s then 16 else 10))

  unfoldable pub parse_int_literal : Option NumberType → Bytes → Bytes → Outcome
  parse_int_literal module_default s suffix =
      let d = or_default int32 module_default in
      let base = if ishex s then 16 else 10 in
      if type_suffix suffix d (codes "ss") int8
      then signed_literal int8 8 s
      else if type_suffix suffix d (codes "s") int16
      then signed_literal int16 16 s
      else if type_suffix suffix d (codes "i") int32
      then signed_literal int32 32 s
      else if type_suffix suffix d (codes "l") int64
      then checked int64 errno always (to_bits 64) (lib.strtol s base)
      else if type_suffix suffix d (codes "ll") int128
      then int128_literal (parse_int128_magnitude lib s base)
      else if type_suffix suffix d (codes "uss") uint8
      then unsigned_literal uint8 8 s
      else if type_suffix suffix d (codes "us") uint16
      then unsigned_literal uint16 16 s
      else if type_suffix suffix d (codes "u") uint32
      then uint32_literal s
      else if type_suffix suffix d (codes "ul") uint64
      then checked uint64 errno always same_bits (lib.strtoul s base)
      else if type_suffix suffix d (codes "ull") uint128
      then uint128_literal (parse_int128_magnitude lib s base)
      else if bytes_eq suffix (codes "f")
      then floating float32 errno lib.to_float (ceramic_strtod s)
      else if bytes_eq suffix (codes "ff")
      then floating float64 errno same_bits (ceramic_strtod s)
      else if bytes_eq suffix (codes "fl")
      then checked float80 errno always same_bits (lib.strtold s)
      else if bytes_eq suffix (codes "fj")
      then floating imag32 errno lib.to_float (ceramic_strtod s)
      else if bytes_eq suffix (codes "j") || bytes_eq suffix (codes "ffj")
      then floating imag64 errno same_bits (ceramic_strtod s)
      else if bytes_eq suffix (codes "lj") || bytes_eq suffix (codes "flj")
      then checked imag80 errno always same_bits (lib.strtold s)
      else invalid_suffix suffix

  unfoldable pub parse_float_literal : Option NumberType → Bytes → Bytes → Outcome
  parse_float_literal module_default s suffix =
      let d = or_default float64 module_default in
      if type_suffix suffix d (codes "f") float32
      then floating float32 errno lib.to_float (ceramic_strtod s)
      else if type_suffix suffix d (codes "ff") float64
      then floating float64 errno same_bits (ceramic_strtod s)
      else if bytes_eq suffix (codes "fl") || type_suffix suffix d (codes "l") float80
      then checked float80 errno always same_bits (lib.strtold s)
      else if imag_type_suffix suffix d (codes "fj") float32
      then floating imag32 errno lib.to_float (ceramic_strtod s)
      else if imag_type_suffix suffix d (codes "ffj") float64
      then floating imag64 errno same_bits (ceramic_strtod s)
      else if bytes_eq suffix (codes "lj") || imag_type_suffix suffix d (codes "flj") float80
      then checked imag80 errno always same_bits (lib.strtold s)
      else invalid_suffix suffix
