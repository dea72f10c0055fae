-- ===== src/Literals/Suffixes.antt =====
-- compiler/literals.cpp, lines 170-385: which value and type a number literal has.
use ceramic.Prelude.{
  ℕ, ◌-◌, ◌^◌, ◌≡◌, refl, Bool, true, false, Option, [], Bytes, codes, ltb, if◌then◌else◌, arith,
}
use ceramic.Literals.Integers.{
  to_bits, fits_signed, checked, signed_literal, parse_int_literal, always,
}
use ceramic.Literals.Text.{
  ℤ, pos, negsuc, Read, Library, NumberType, int8, int16, int32, int64, Outcome, literal,
  literal_out_of_range, ishex, type_suffix,
}

-- The signed integer types of at most 64 bits, each with its width and suffix.
pub data SignedOf : NumberType → ℕ → Bytes → Type 0 where
  by_ss : SignedOf int8 8 (codes "ss")
  by_s : SignedOf int16 16 (codes "s")
  by_i : SignedOf int32 32 (codes "i")
  by_l : SignedOf int64 64 (codes "l")

-- The number that `w` bits stand for in two's complement.
unfoldable pub from_bits : ℕ → ℕ → ℤ
from_bits w n = if ltb n (2 ^ (w - 1)) then pos n else negsuc (2 ^ w - 1 - n)

from_bits-to_bits :
    (t : NumberType) (w : ℕ) (suffix : Bytes) (y : ℤ)
    → SignedOf t w suffix
    → fits_signed w y ≡ true
    → from_bits w (to_bits w y) ≡ y
unfolding from_bits to_bits fits_signed
from_bits-to_bits _ _ _ (pos n) by_ss h = ground arith
from_bits-to_bits _ _ _ (negsuc n) by_ss h = ground arith
from_bits-to_bits _ _ _ (pos n) by_s h = ground arith
from_bits-to_bits _ _ _ (negsuc n) by_s h = ground arith
from_bits-to_bits _ _ _ (pos n) by_i h = ground arith
from_bits-to_bits _ _ _ (negsuc n) by_i h = ground arith
from_bits-to_bits _ _ _ (pos n) by_l h = ground arith
from_bits-to_bits _ _ _ (negsuc n) by_l h = ground arith

-- The literal has the type, and its bits stand for the number.
abbrev pub IsRead : Outcome → NumberType → ℕ → ℤ → Type 0
IsRead o t w y =
    (n : ℕ) × (o ≡ literal (record { number_type = t; bits = n })) × (from_bits w n ≡ y)

-- Read if it fits, and out of range if not.
abbrev pub IsSettled : Bool → Outcome → NumberType → ℕ → ℤ → Type 0
IsSettled true o t w y = IsRead o t w y
IsSettled false o t w y = o ≡ literal_out_of_range t

checked-IsSettled :
    (q : Bool) (t : NumberType) (w : ℕ) (y : ℤ) (fits : ℤ → Bool)
    → fits y ≡ q
    → (q ≡ true → from_bits w (to_bits w y) ≡ y)
    → IsSettled q
        (checked t false fits (to_bits w) (record { value = y; end = []; erange = false }))
        t
        w
        y
unfolding checked
checked-IsSettled true t w y fits e h = (to_bits w y, ground arith, h refl)
checked-IsSettled false t w y fits e h = ground arith

module _ (lib : Library) (hex : Bytes → Option (Read ℕ)) (errno : Bool) where
  -- While `errno` is not `ERANGE`, a literal with the suffix of a signed type of at most 64 bits, whose text `strtol`
  -- reads to its end as a number of 64 bits without a range error, gives that number in two's complement in
  -- the type of the suffix if it fits the type, and is refused as out of range if not.
  pub parse_int_literal-signed :
      (t : NumberType) (w : ℕ) (suffix text : Bytes) (d : Option NumberType) (y : ℤ)
      → SignedOf t w suffix
      → errno ≡ false
      → lib.strtol text (if ishex text then 16 else 10)
        ≡ record { value = y; end = []; erange = false }
      → fits_signed 64 y ≡ true
      → IsSettled (fits_signed w y) (parse_int_literal lib hex errno d text suffix) t w y
  unfolding parse_int_literal type_suffix signed_literal
  parse_int_literal-signed _ _ _ text d y by_ss e h b =
      rw (e, h)
        (checked-IsSettled (fits_signed 8 y) int8 8 y (fits_signed 8) refl
          (from_bits-to_bits _ _ _ y by_ss))
  parse_int_literal-signed _ _ _ text d y by_s e h b =
      rw (e, h)
        (checked-IsSettled (fits_signed 16 y) int16 16 y (fits_signed 16) refl
          (from_bits-to_bits _ _ _ y by_s))
  parse_int_literal-signed _ _ _ text d y by_i e h b =
      rw (e, h)
        (checked-IsSettled (fits_signed 32 y) int32 32 y (fits_signed 32) refl
          (from_bits-to_bits _ _ _ y by_i))
  parse_int_literal-signed _ _ _ text d y by_l e h b =
      rw (e, h, b)
        (checked-IsSettled true int64 64 y always refl (λ _. from_bits-to_bits _ _ _ y by_l b))
