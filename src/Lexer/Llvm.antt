-- ===== src/Lexer/Llvm.antt =====
-- compiler/lexer.cpp, lines 701-735: how deep the braces of an `__llvm__` block may nest.
use ceramic.Prelude.{
  ℕ, zero, suc, ◌+◌, ◌≤◌, ◌<◌, ◌≡◌, refl, sym, ◌∙◌, some, Bytes, length, arith, ap,
}
use ceramic.Lexer.Progress.{Strict-llvm_braces, Strict-llvm_body_item}
use ceramic.Lexer.Scan.{Scan, char, many}
use ceramic.Lexer.Scan.Loops.{many_fuel_cong, <|>_cong, >>_cong_left, >>_cong_right}
use ceramic.Lexer.Scan.Progress.{After-some, Proper-length, Strict, Strict-char, Tail-of_Strict}
use ceramic.Lexer.Skips.{llvm_body_item, llvm_body, llvm_braces}

llvm_body_item_cong :
    (m k : Scan (Unit {0})) (s : Bytes) → m s ≡ k s → llvm_body_item m s ≡ llvm_body_item k s
unfolding llvm_body_item
llvm_body_item_cong m k s e =
    <|>_cong _ _ _ _ s (<|>_cong _ _ _ _ s (<|>_cong _ _ _ _ s refl e) refl) refl

llvm_body_cong :
    (m k : Scan (Unit {0})) (s : Bytes)
    → Strict m
    → ((t : Bytes) → length t ≤ length s → m t ≡ k t)
    → llvm_body m s ≡ llvm_body k s
unfolding llvm_body many
llvm_body_cong m k s h g = >>_cong_left _ _ _ s (
    ap some (
      many_fuel_cong (suc (length s)) (llvm_body_item m) (llvm_body_item k) s
        (Tail-of_Strict _ (Strict-llvm_body_item m h)) (λ t l. llvm_body_item_cong m k t (g t l))))

llvm_braces-suc : (d : ℕ) (s : Bytes) → length s < d → llvm_braces d s ≡ llvm_braces (suc d) s
unfolding llvm_braces
llvm_braces-suc zero s h = absurd (omega arith)
llvm_braces-suc (suc d) s h = >>_cong_right (char b'{') _ _ s λ _ r e.
    let less = Proper-length (After-some (Strict-char b'{' s) e) in
    >>_cong_left _ _ _ r (
      llvm_body_cong (llvm_braces d) (llvm_braces (suc d)) r (Strict-llvm_braces d)
        (λ t l. llvm_braces-suc d t (omega arith)))

-- The depth to which `llvm_block` lets braces nest suffices: any more gives the same result.
pub llvm_braces_depth :
    (extra : ℕ) (s : Bytes)
    → llvm_braces (extra + suc (length s)) s ≡ llvm_braces (suc (length s)) s
llvm_braces_depth zero s = ap (λ (d : ℕ). llvm_braces d s) (omega arith)
llvm_braces_depth (suc extra) s =
    ap (λ (d : ℕ). llvm_braces d s) (omega arith)
    ∙ sym (llvm_braces-suc (extra + suc (length s)) s (omega arith))
    ∙ llvm_braces_depth extra s
