-- ===== src/Literals/Floats.antt =====
-- compiler/literals.cpp, lines 14-133: `parseHexFloat` for `double`.
pub mod Exact
use ceramic.Prelude.{
  ℕ, zero, suc, ◌+◌, ◌-◌, ◌*◌, ◌/◌, ◌%◌, ◌^◌, Bool, true, false, not, ◌&&◌, ◌||◌, Option, none,
  some, List, [], ◌∷◌, Bytes, ltb, leb, ◌==◌, if◌then◌else◌,
}
use ceramic.Literals.Integers.{to_bits, is_at_end}
use ceramic.Literals.Suffixes.{from_bits}
use ceramic.Literals.Text.{ℤ, pos, negsuc, Read, Library, char_at}

-- The rounds of the loop in `bitcount`; a number of 64 bits needs at most 64.
bit_rounds : ℕ → ℕ → ℕ
bit_rounds zero bits = 0
bit_rounds (suc f) bits = let rest = bit_rounds f (bits / 2) in if bits == 0 then 0 else suc rest

-- `bitcount` of a number that is not 0.
unfoldable pub bitcount : ℕ → ℕ
unfolding bit_rounds
bitcount bits = bit_rounds 64 bits - 1

-- `none` where the assertion fails.
unfoldable pub hexdigit : ℕ → Option ℕ
hexdigit c =
    if leb b'0' c && leb c b'9'
    then some (c - b'0')
    else if leb b'A' c && leb c b'F'
    then some (c - b'A' + 10)
    else if leb b'a' c && leb c b'f'
    then some (c - b'a' + 10)
    else none

unfoldable pub float_from_parts : Bool → ℕ → ℕ → ℕ
float_from_parts negp exponent mantissa =
    (if negp then 2 ^ 63 else 0) + exponent % 2 ^ 11 * 2 ^ 52 + mantissa % 2 ^ 52

-- The variables of the loop over the text.
pub record Scan : Type 0 where
  pub negp : Bool
  pub mantissa : ℕ
  pub mantissa_bits : ℕ
  pub used_mantissa_bits : ℕ
  pub point : ℕ
  pub pointp : Bool

abbrev scan_start : Scan
scan_start = record {
  negp = false;
  mantissa = 0;
  mantissa_bits = 0;
  used_mantissa_bits = 0;
  point = 0;
  pointp = false;
}

-- A digit that is counted.
unfoldable pub scan_digit : ℕ → Scan → Option Scan
unfolding hexdigit
scan_digit c s =
    let n = s.mantissa_bits + 4 in
    let used = if c == b'0' then s.used_mantissa_bits else n in
    if leb n 64
    then elim (hexdigit c) [
      | none ↦ none
      | some d ↦ some (record s {
        mantissa = s.mantissa * 16 % 2 ^ 64 + d;
        mantissa_bits = n;
        used_mantissa_bits = used;
      })
    ]
    else some (record s { mantissa_bits = n; used_mantissa_bits = used })

-- One round for a byte that is not the exponent's; `none` where an assertion fails.
unfoldable pub scan_char : ℕ → ℕ → Scan → Option Scan
unfolding scan_digit
scan_char i c s =
    if c == b'-'
    then (if i == 0 then some (record s { negp = true }) else none)
    else if c == b'+'
    then (if i == 0 then some (record s { negp = false }) else none)
    else if c == b'.'
    then (if s.pointp then none else some (record s { pointp = true }))
    else if c == b'x'
    then (if s.mantissa == 0 then some s else none)
    else let s' = if s.pointp then record s { point = s.point + 4 } else s in
      if c == b'0' && s'.mantissa == 0 then some s' else scan_digit c s'

-- The loop, with what is behind the exponent's letter; `none` where there is no such letter.
unfoldable pub scan : ℕ → Bytes → Scan → Option (Scan × Bytes)
unfolding scan_char
scan i [] s = none
scan i (c ∷ cs) s =
    if c == b'p' || c == b'P'
    then some (s, cs)
    else elim (scan_char i c s) [ none ↦ none | some s' ↦ scan (suc i) cs s' ]

-- The mantissa with its first bit at bit 60, shifted to the right and rounded to the nearest, a half to the even
-- one or up if more bits were dropped than it has.
unfoldable pub rounded : ℕ → ℕ → ℕ → ℕ
rounded used shift mantissa =
    let half = 2 ^ (shift - 1) in
    let round_bit = mantissa / half % 2 in
    let round_mask = mantissa % half in
    let kept = mantissa / 2 ^ shift in
    if round_bit == 1 && (not (round_mask == 0) || ltb 60 used || kept % 2 == 1)
    then kept + 1
    else kept

-- The bits for a mantissa that is not 0. `up - down` is `mantissaExponent`; `none` where the code shifts
-- to the left by a negative number.
unfoldable pub float_bits : Bool → ℕ → ℕ → ℕ → ℕ → Option ℕ
unfolding float_from_parts rounded bitcount
float_bits negp used up down mantissa =
    let log = bitcount mantissa in
    let shift = 8 + (1 + down - up) in
    let first = mantissa * 2 ^ (60 - log) in
    if ltb 60 log
    then none
    else if ltb 61 shift
    then some (float_from_parts negp 0 0)
    else if leb (2047 + down) up
    then some (float_from_parts negp 2047 0)
    else some (float_from_parts negp (up - down) (rounded used shift first))

abbrev pub positive_part : ℤ → ℕ
positive_part (pos n) = n
positive_part (negsuc n) = 0

abbrev pub negative_part : ℤ → ℕ
negative_part (pos n) = 0
negative_part (negsuc n) = suc n

unfoldable pub hex_float_bits : Scan → ℤ → Option ℕ
unfolding float_bits
hex_float_bits s exponent =
    let e = from_bits 32 (to_bits 32 exponent) in
    if s.mantissa == 0
    then some (float_from_parts s.negp 0 0)
    else float_bits s.negp s.used_mantissa_bits
        (bitcount s.mantissa + (s.mantissa_bits - 64) + positive_part e + 1023)
        (s.point + negative_part e) s.mantissa

unfoldable pub parse_hex_float : Library → Bytes → Option (Read ℕ)
unfolding scan hex_float_bits
parse_hex_float lib number = elim (scan 0 number scan_start) [
  | none ↦ none
  | some (s, exponent_text) ↦
      let r = lib.strtol exponent_text 10 in
      if not (is_at_end r.end) then none else elim (hex_float_bits s r.value) [
        | none ↦ none
        | some bits ↦ some (record { value = bits; end = []; erange = r.erange })
      ]
]
