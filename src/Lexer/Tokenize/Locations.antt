-- ===== src/Lexer/Tokenize/Locations.antt =====
-- compiler/lexer.cpp, lines 11-40: `tokenize` returns, and where its tokens lie.
use ceramic.Prelude.{
  ℕ, ◌+◌, ◌-◌, ◌*◌, ◌^◌, ◌≤◌, ◌<◌, ◌≡◌, ◌≢◌, refl, Bool, true, false, Option, none, some, List, [],
  ◌∷◌, Bytes, length, take, drop, length-take, arith, subst,
}
use ceramic.Lexer.Token.{Token, Range, location_for}
use ceramic.Lexer.Tokenize.{
  Outcome, tokens, invalid_token, invalid_doc_token, out_of_fuel, range, tokenize,
}
use ceramic.Lexer.Tokenize.Loop.{
  kept_kind, Located, Good, done, bad_token, bad_doc_token, token_loop-Good,
}

tokenize-Good :
    (block : Bool) (source : Bytes) (offset count : ℕ)
    → Good
        (range source offset count)
        (length (take count (drop offset source)))
        (tokenize block source offset count)
unfolding tokenize
tokenize-Good block source offset count =
    let w = range source offset count in
    token_loop-Good (2 * length w.begin + 1) w false block w.begin (omega arith)

-- Each token of a kept kind, at a location in the range, and behind the one before.
abbrev pub Ascending : ℕ → ℕ → List Token → Type 0
Ascending lo hi [] = Unit
Ascending lo hi (x ∷ xs) =
    (kept_kind x.token_kind ≡ true)
    × (l : ℕ) × (x.location ≡ some l)
    × (lo ≤ l)
    × (l < hi)
    × Ascending (l + 1) hi xs

-- With a range that 32 bits can address, locations do not wrap.
location_for_lem :
    (w : Range) (p : Bytes)
    → w.begin_offset + length w.begin < 2 ^ 32
    → length p ≤ length w.begin
    → location_for w p ≡ w.begin_offset + (length w.begin - length p)
unfolding location_for
location_for_lem w p h g = omega arith

Ascending-mono :
    (lo' hi : ℕ) {lo : ℕ} (xs : List Token) → lo ≤ lo' → Ascending lo' hi xs → Ascending lo hi xs
Ascending-mono lo' hi [] h t = tt
Ascending-mono lo' hi (x ∷ xs) h (k, l, e, a, b, t) = (k, l, e, omega arith, b, t)

Ascending-widen :
    (lo hi : ℕ) {hi' : ℕ} (xs : List Token) → hi ≤ hi' → Ascending lo hi xs → Ascending lo hi' xs
Ascending-widen lo hi [] h t = tt
Ascending-widen lo hi (x ∷ xs) h (k, l, e, a, b, t) =
    (k, l, e, a, omega arith, Ascending-widen (l + 1) hi xs h t)

Located-Ascending :
    (w : Range) (n : ℕ) (xs : List Token)
    → w.begin_offset + length w.begin < 2 ^ 32
    → n ≤ length w.begin
    → Located w n xs
    → Ascending (w.begin_offset + (length w.begin - n)) (w.begin_offset + length w.begin) xs
Located-Ascending w n [] h g t = tt
Located-Ascending w n (x ∷ xs) h g (k, p, m, a, b, e, t) =
    let place = location_for_lem w p h (omega arith) in
    let rest = Located-Ascending w m xs h (omega arith) t in
    (
      k,
      location_for w p,
      e,
      omega (arith, place),
      omega (arith, place),
      Ascending-mono _ _ xs (omega (arith, place)) rest,
    )

Located-length : (w : Range) (n : ℕ) (xs : List Token) → Located w n xs → length xs ≤ n
Located-length w n [] t = omega arith
Located-length w n (x ∷ xs) (k, p, m, a, b, e, t) = omega (arith, Located-length w m xs t)

-- A place in the range that is not its end.
abbrev Place : Range → ℕ → Type 0
Place w l = (p : Bytes) × (l ≡ location_for w p) × (length p ≤ length w.begin) × (0 < length p)

abbrev Means : Range → Outcome → Type 0
Means w (tokens xs) = Located w (length w.begin) xs
Means w (invalid_token l) = Place w l
Means w (invalid_doc_token l) = Place w l
Means w out_of_fuel = ⊥

Means-of_Good : (w : Range) {o : Outcome} → Good w (length w.begin) o → Means w o
Means-of_Good w (done t) = t
Means-of_Good w (bad_token p e a b) = (p, e, a, b)
Means-of_Good w (bad_doc_token p e a b) = (p, e, a, b)

tokenize-Means :
    (block : Bool) (source : Bytes) (offset count : ℕ) {o : Outcome}
    → tokenize block source offset count ≡ o
    → Means (range source offset count) o
tokenize-Means block source offset count e =
    subst (Means (range source offset count)) e
      (Means-of_Good (range source offset count) (tokenize-Good block source offset count))

range_le : (source : Bytes) (offset count : ℕ) → length (take count (drop offset source)) ≤ count
range_le source offset count = omega (arith, length-take count (drop offset source))

-- `tokenize` always comes to an end: the rounds that the model allows are enough.
pub tokenize-ne-out_of_fuel :
    (block : Bool) (source : Bytes) (offset count : ℕ)
    → tokenize block source offset count ≢ out_of_fuel
tokenize-ne-out_of_fuel block source offset count e = tokenize-Means block source offset count e

-- `tokenize` makes at most one token for each source byte.
pub length-tokenize :
    (block : Bool) (source : Bytes) (offset count : ℕ) {xs : List Token}
    → tokenize block source offset count ≡ tokens xs
    → length xs ≤ count
length-tokenize block source offset count {xs} e =
    let w = range source offset count in
    omega (
      arith,
      Located-length w (length w.begin) xs (tokenize-Means block source offset count e),
      range_le source offset count,
    )

-- On a range that 32 bits address, every token that `tokenize` returns has a location in the range,
-- behind the location of the token before it, and none is a space, a comment, the start or the end
-- of a documentation comment, or of no kind.
pub tokenize-Ascending :
    (block : Bool) (source : Bytes) (offset count : ℕ) {xs : List Token}
    → offset + count < 2 ^ 32
    → tokenize block source offset count ≡ tokens xs
    → Ascending offset (offset + count) xs
tokenize-Ascending block source offset count {xs} h e =
    let w = range source offset count in
    let le = range_le source offset count in
    let inside =
      Located-Ascending w (length w.begin) xs (omega (arith, le)) (omega arith)
        (tokenize-Means block source offset count e) in
    Ascending-widen offset (offset + length w.begin) xs (omega (arith, le))
      (Ascending-mono _ _ xs (omega arith) inside)

-- The location of the error that `tokenize` raises.
abbrev pub error_location : Outcome → Option ℕ
error_location (invalid_token l) = some l
error_location (invalid_doc_token l) = some l
error_location _ = none

-- On a range that ends below 2^32, the location that `tokenize` reports for a token that it cannot read lies in the
-- range.
pub tokenize_error :
    (block : Bool) (source : Bytes) (offset count l : ℕ)
    → offset + count < 2 ^ 32
    → error_location (tokenize block source offset count) ≡ some l
    → (offset ≤ l) × (l < offset + count)
tokenize_error block source offset count l h e =
    go (tokenize block source offset count) (tokenize-Means block source offset count refl) e
  where
    w : Range
    w = range source offset count

    bound : {k : ℕ} → Place w k → k ≡ l → (offset ≤ l) × (l < offset + count)
    bound (p, d, a, b) i =
        let le = range_le source offset count in
        let place = location_for_lem w p (omega (arith, le)) a in
        (omega (arith, place, le), omega (arith, place, le))

    go : (o : Outcome) → Means w o → error_location o ≡ some l → (offset ≤ l) × (l < offset + count)
    go (invalid_token k) m i = bound m (cc)
    go (invalid_doc_token k) m i = bound m (cc)
    go (tokens xs) m i = cc
    go out_of_fuel m i = absurd m
