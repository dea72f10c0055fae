-- ===== src/Literals/Int128.antt =====
-- compiler/literals.cpp, lines 160-168 and 210-225: literals of the type `Int128`.
use ceramic.Prelude.{ℕ, zero, suc, Bool, true, false}
use ceramic.Literals.Text.{ℤ, pos, negsuc}

-- The number with the sign and the magnitude.
abbrev pub with_sign : Bool → ℕ → ℤ
with_sign false n = pos n
with_sign true zero = pos zero
with_sign true (suc n) = negsuc n
