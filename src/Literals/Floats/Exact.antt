-- ===== src/Literals/Floats/Exact.antt =====
-- compiler/literals.cpp, lines 98-130: hexadecimal floats that need no rounding.
use ceramic.Prelude.{
  ℕ, zero, suc, ◌+◌, ◌-◌, ◌*◌, ◌^◌, ◌≤◌, ◌<◌, ◌≡◌, refl, Bool, false, some, ltb, leb, arith,
}
use native.Mathlib.Omega.{pow_step}
use ceramic.Literals.Floats.{bitcount, float_from_parts, rounded, float_bits}

rounded-multiple : (used k : ℕ) → rounded used 8 (k * 256) ≡ k
unfolding rounded
rounded-multiple used k = ground arith

two_pow_add_8 : (k : ℕ) → 2 ^ (k + 8) ≡ 2 ^ k * 256
two_pow_add_8 zero = refl
two_pow_add_8 (suc k) =
    let next : suc k + 8 ≡ suc (k + 8) = omega arith in
    rw next (omega (arith, two_pow_add_8 k, pow_step 2 (k + 8), pow_step 2 k))

shifted : (m log : ℕ) → log ≤ 52 → m * 2 ^ (60 - log) ≡ m * 2 ^ (52 - log) * 256
shifted m log h = rw (exponent, two_pow_add_8 (52 - log)) (grind arith)
  where
    exponent : 60 - log ≡ 52 - log + 8
    exponent = omega arith

short : (n : ℕ) → n ≤ 52 → ltb 60 n ≡ false
short n h = ground arith

normal : (up down : ℕ) → up < 2047 + down → leb (2047 + down) up ≡ false
normal up down h = ground arith

-- A mantissa of at most 53 bits, with an exponent of a normal number, is not rounded: the bits hold the
-- exponent, and the mantissa shifted so that its first bit is the one in front of the 52 that are kept.
pub float_bits_exact :
    (negp : Bool) (used up down m : ℕ)
    → bitcount m ≤ 52
    → down < up
    → up < 2047 + down
    → float_bits negp used up down m
      ≡ some (float_from_parts negp (up - down) (m * 2 ^ (52 - bitcount m)))
unfolding float_bits
float_bits_exact negp used up down m h g l =
    rw
      (
        shift_is_8,
        shifted m (bitcount m) h,
        rounded-multiple used (m * 2 ^ (52 - bitcount m)),
        short (bitcount m) h,
        normal up down l,
      )
      refl
  where
    shift_is_8 : 8 + (1 + down - up) ≡ 8
    shift_is_8 = omega arith
