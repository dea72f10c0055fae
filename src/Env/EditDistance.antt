-- ===== src/Env/EditDistance.antt =====
-- compiler/env.cpp, lines 58-75: `editDistance`, which finds the name that a misspelt one may mean.
use ceramic.Prelude.{
  ℕ, zero, suc, ◌+◌, ◌%◌, ◌^◌, ◌≤◌, ◌<◌, ◌≡◌, refl, sym, ap, ◌∙◌, List, [], ◌∷◌, Bytes, length, ltb,
  ◌==◌, if◌then◌else◌, arith,
}
use Prim.Native.Nat.{min}

-- `x + 1` on `unsigned`.
abbrev inc : ℕ → ℕ
inc x = (x + 1) % 2 ^ 32

-- The smallest of deleting, inserting and replacing, by the code's two tests.
abbrev best_of : ℕ → ℕ → ℕ → ℕ
best_of del ins sub =
    let best = if ltb del ins then del else ins in if ltb best sub then best else sub

-- The inner loop from `j`: `left` is `cur[j - 1]`, `diagonal` is `prev[j - 1]`, and `prev` begins
-- at `prev[j]`.
unfoldable pub fill_row : ℕ → ℕ → ℕ → List ℕ → Bytes → List ℕ
fill_row x left diagonal (above ∷ prev) (y ∷ b) =
    let best = best_of (inc above) (inc left) (if x == y then diagonal else inc diagonal) in
    best ∷ fill_row x best above prev b
fill_row x left diagonal prev b = []

-- A round of the outer loop, on the whole of `prev`.
unfoldable pub next_row : ℕ → ℕ → List ℕ → Bytes → List ℕ
unfolding fill_row
next_row i x [] b = []
next_row i x (diagonal ∷ prev) b = i % 2 ^ 32 ∷ fill_row x (i % 2 ^ 32) diagonal prev b

-- The outer loop from `i`, over the bytes of `a` that are left.
unfoldable pub edit_rows : ℕ → Bytes → Bytes → List ℕ → List ℕ
unfolding next_row
edit_rows i [] b prev = prev
edit_rows i (x ∷ a) b prev = edit_rows (i + 1) a b (next_row i x prev b)

-- `prev[j] = unsigned(j)`, from `j`, for the positions of `b` and one more.
unfoldable pub first_row : ℕ → Bytes → List ℕ
first_row j [] = j % 2 ^ 32 ∷ []
first_row j (y ∷ b) = j % 2 ^ 32 ∷ first_row (j + 1) b

-- `row[m]`
unfoldable pub entry : List ℕ → ℕ → ℕ
entry [] m = 0
entry (x ∷ row) zero = x
entry (x ∷ row) (suc m) = entry row m

unfoldable pub edit_distance : Bytes → Bytes → ℕ
unfolding edit_rows first_row fill_row entry
edit_distance a b = entry (edit_rows 1 a b (first_row 0 b)) (length b)

-- The specification: the least number of bytes to insert, delete or replace, on the texts read
-- backwards, since the loops go by prefixes.
abbrev min3 : ℕ → ℕ → ℕ → ℕ
min3 a b c = min a (min b c)

abbrev pub levenshtein : Bytes → Bytes → ℕ
levenshtein [] b = length b
levenshtein (x ∷ a) [] = suc (length a)
levenshtein (x ∷ a) (y ∷ b) =
    min3 (levenshtein a (y ∷ b) + 1) (levenshtein (x ∷ a) b + 1)
      (levenshtein a b + (if x == y then 0 else 1))

-- A text read backwards, in front of another.
abbrev pub reverse_onto : Bytes → Bytes → Bytes
reverse_onto [] done = done
reverse_onto (x ∷ a) done = reverse_onto a (x ∷ done)

levenshtein-le : (a b : Bytes) → levenshtein a b ≤ length a + length b
levenshtein-le [] b = omega arith
levenshtein-le (x ∷ a) [] = omega arith
levenshtein-le (x ∷ a) (y ∷ b) = omega (arith, levenshtein-le a (y ∷ b))

levenshtein-nil : (a : Bytes) → levenshtein a [] ≡ length a
levenshtein-nil [] = refl
levenshtein-nil (x ∷ a) = refl

-- A row of the table, behind its first entry: the distances of `a` to longer and longer
-- prefixes of the text, `done` read backwards being the first.
abbrev row_tail : Bytes → Bytes → Bytes → List ℕ
row_tail a done [] = []
row_tail a done (y ∷ b) = levenshtein a (y ∷ done) ∷ row_tail a (y ∷ done) b

best_of_lem :
    (del ins sub x y : ℕ)
    → del + 1 < 2 ^ 32
    → ins + 1 < 2 ^ 32
    → sub + 1 < 2 ^ 32
    → best_of (inc del) (inc ins) (if x == y then sub else inc sub)
      ≡ min3 (del + 1) (ins + 1) (sub + (if x == y then 0 else 1))
best_of_lem del ins sub x y h g k = ground arith

fill_row_lem :
    (x : ℕ) (a done b : Bytes)
    → length a + length done + length b + 2 < 2 ^ 32
    → fill_row x (levenshtein (x ∷ a) done) (levenshtein a done) (row_tail a done b) b
      ≡ row_tail (x ∷ a) done b
unfolding fill_row
fill_row_lem x a done [] h = refl
fill_row_lem x a done (y ∷ b) h =
    rw
      (best_of_lem (levenshtein a (y ∷ done)) (levenshtein (x ∷ a) done) (levenshtein a done) x y
        (omega (arith, levenshtein-le a (y ∷ done))) (omega (arith, levenshtein-le (x ∷ a) done))
        (omega (arith, levenshtein-le a done)))
      (ap (◌∷◌ (levenshtein (x ∷ a) (y ∷ done))) (fill_row_lem x a (y ∷ done) b (omega arith)))

next_row_lem :
    (i x : ℕ) (a b : Bytes)
    → i ≡ suc (length a)
    → length a + length b + 2 < 2 ^ 32
    → next_row i x (length a ∷ row_tail a [] b) b ≡ i ∷ row_tail (x ∷ a) [] b
unfolding next_row
next_row_lem i x a b e h =
    let wrap : i % 2 ^ 32 ≡ suc (length a) = omega arith in
    let row = row_tail a [] b in
    ap (λ (k : ℕ). k ∷ fill_row x k (length a) row b) wrap
    ∙ ap (λ (k : ℕ). suc (length a) ∷ fill_row x (suc (length a)) k row b) (sym (levenshtein-nil a))
    ∙ ap (◌∷◌ (suc (length a))) (fill_row_lem x a [] b (omega arith))
    ∙ ap (λ (k : ℕ). k ∷ row_tail (x ∷ a) [] b) (sym e)

-- The rows of the outer loop, once the bytes of `seen`, read backwards, are done.
edit_rows_lem :
    (i : ℕ) (seen a b : Bytes)
    → i ≡ suc (length seen)
    → length seen + length a + length b + 2 < 2 ^ 32
    → edit_rows i a b (length seen ∷ row_tail seen [] b)
      ≡ (length (reverse_onto a seen)) ∷ row_tail (reverse_onto a seen) [] b
unfolding edit_rows
edit_rows_lem i seen [] b e h = refl
edit_rows_lem i seen (x ∷ a) b e h =
    ap (edit_rows (i + 1) a b) (next_row_lem i x seen b e (omega arith) ∙ rw e)
    ∙ edit_rows_lem (i + 1) (x ∷ seen) a b (omega arith) (omega arith)

first_row_lem :
    (j : ℕ) (done b : Bytes)
    → j ≡ length done
    → length done + length b < 2 ^ 32
    → first_row j b ≡ j ∷ row_tail [] done b
unfolding first_row
first_row_lem j done [] e h = ap (λ (k : ℕ). k ∷ []) (omega arith)
first_row_lem j done (y ∷ b) e h =
    let here : j % 2 ^ 32 ≡ j = omega arith in
    rw here (
      ap (◌∷◌ j) (
        first_row_lem (j + 1) (y ∷ done) b (omega arith) (omega arith)
        ∙ ap (λ (k : ℕ). k ∷ row_tail [] (y ∷ done) b) (omega arith)))

entry_lem :
    (a done b : Bytes)
    → entry (levenshtein a done ∷ row_tail a done b) (length b)
      ≡ levenshtein a (reverse_onto b done)
unfolding entry
entry_lem a done [] = refl
entry_lem a done (y ∷ b) = entry_lem a (y ∷ done) b

-- `editDistance` computes the edit distance defined by recursion on the texts, read from their ends: the
-- least number of bytes to insert, delete or replace. The sum of the lengths has to fit `unsigned`.
pub edit_distance-levenshtein :
    (a b : Bytes)
    → length a + length b + 2 < 2 ^ 32
    → edit_distance a b ≡ levenshtein (reverse_onto a []) (reverse_onto b [])
unfolding edit_distance
edit_distance-levenshtein a b h =
    let start = first_row_lem 0 [] b refl (omega arith) in
    let final = edit_rows_lem 1 [] a b refl (omega arith) in
    ap (λ (row : List ℕ). entry (edit_rows 1 a b row) (length b)) start
    ∙ ap (λ (row : List ℕ). entry row (length b)) final
    ∙ ap (λ (k : ℕ). entry (k ∷ row_tail (reverse_onto a []) [] b) (length b))
        (sym (levenshtein-nil (reverse_onto a [])))
    ∙ entry_lem (reverse_onto a []) [] b
