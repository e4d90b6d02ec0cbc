-- ===== src/SafeMath/Products.antt =====
-- Checked products.
pub mod Signs
pub mod Guards
use Prim.Native.Nat.{◌^◌, ◌/◌}
use native.Mathlib.Nat.{mul_comm, div-le_self}
use fe.Prelude.{
  ℕ, zero, suc, ◌*◌, ◌<◌, ◌≡◌, ◌∙◌, ◌≢◌, ◌≤◌, refl, sym, Bool, false, not, ◌&&◌, arith, Bool-cases,
  inl, inr, ltb,
}
use fe.Prelude.Int.{quot_ℤ, ℤ, pos, negsuc, neg_ℕ, leb_ℤ, ltb_ℤ, ◌*ℤ◌}
use fe.Types.{Integer}
use fe.Integer.{is_signed}
use fe.Integer.Ranges.{InRange}
use fe.Yul.{gives, revert_if, word, word_mod, mul, div, sdiv, gt, iszero, bitand, flag, slt, sgt}
use fe.Yul.Signed.{
  bitand-zero-sgt, bitand-flag, bitand-zero-slt, bitand-zero-gt, bitand-one, slt-zero, sgt-zero,
  slt-word, IsSmall, IsWide,
}
use fe.Yul.Products.{
  lt-div_test, gt-div, mul-word, sdiv-word, word-pos, pos-mul-pos, pos-mul-neg, neg-mul-pos,
  neg-mul-neg,
}
use fe.SafeMath.{panic_overflow, safe_mul_signed, safe_mul_unsigned, dispatch_safe_mul}
use fe.SafeMath.Bounds.{
  Within, Within-IsSmall, signed-Within, unsigned-Within, revert_if-between, between, checked,
  signed_bounds, unsigned_bounds,
}
use fe.SafeMath.Products.Signs.{
  one_and_one, one_and_zero, zero_and_one, zero_and_zero, IsPositive, IsNegative, IsZero,
  word-IsPositive, word-IsNegative, word-IsZero, and_one_gt, and_one_slt, sgt_and_zero,
  slt_and_zero, zero-mul_ℤ, mul-zero_ℤ, mul_pos_pos, mul_pos_neg, mul_neg_pos, mul_neg_neg,
  mul_zero_left, mul_zero_right,
}
use fe.SafeMath.Products.Guards.{
  outside_pos, outside_neg, inside-IsWide, quotient_guard, gt-div-word,
}

module _ {top : ℕ} (small : top < 2 ^ 255) where
  pub guarded_product :
      (a b : ℤ) (c : Bool)
      → IsSmall a
      → IsSmall b
      → c ≡ not (leb_ℤ (negsuc top) (a *ℤ b) && leb_ℤ (a *ℤ b) (pos top))
      → revert_if (flag c) panic_overflow (gives (mul (word a) (word b)))
        ≡ between (negsuc top) (pos top) (a *ℤ b)
  guarded_product a b c small_a small_b outside =
      revert_if-between c (negsuc top) (pos top) (a *ℤ b) (mul (word a) (word b)) outside
        λ e. mul-word a b small_a small_b (inside-IsWide top (a *ℤ b) small (sym outside ∙ e))

  by_zero :
      (a : ℤ)
      → Within (negsuc top) (pos top) a
      → safe_mul_signed (word a) (word (pos 0)) (word (negsuc top)) (word (pos top))
        ≡ between (negsuc top) (pos top) (a *ℤ pos 0)
  by_zero a in_a =
      rw (mul_zero_right (word a) (word (pos 0)) (word (negsuc top)) (word (pos top)) word-IsZero) (
        guarded_product a (pos 0) false (Within-IsSmall a small in_a) (omega arith, omega arith)
          (rw (mul-zero_ℤ a) (ground arith)))

  mul_signed-between :
      (a b : ℤ)
      → Within (negsuc top) (pos top) a
      → Within (negsuc top) (pos top) b
      → safe_mul_signed (word a) (word b) (word (negsuc top)) (word (pos top))
        ≡ between (negsuc top) (pos top) (a *ℤ b)
  mul_signed-between (pos (suc m)) (pos (suc n)) in_a in_b =
      let small_a = Within-IsSmall (pos (suc m)) small in_a in
      let small_b = Within-IsSmall (pos (suc n)) small in_b in
      rw
        (
          mul_pos_pos (word (pos (suc m))) (word (pos (suc n))) (word (negsuc top)) (word (pos top))
              (word-IsPositive m small_a) (word-IsPositive n small_b),
          gt-div-word top (suc m) n (omega arith) (omega arith) (omega arith),
        )
        (guarded_product (pos (suc m)) (pos (suc n)) _ small_a small_b
          (rw (pos-mul-pos (suc m) (suc n)) (outside_pos top (suc m * suc n))))
  mul_signed-between (pos (suc m)) (negsuc n) in_a in_b =
      let small_a = Within-IsSmall (pos (suc m)) small in_a in
      let small_b = Within-IsSmall (negsuc n) small in_b in
      rw
        (
          mul_pos_neg (word (pos (suc m))) (word (negsuc n)) (word (negsuc top)) (word (pos top))
              (word-IsPositive m small_a) (word-IsNegative n small_b),
          quotient_guard (negsuc top) (pos (suc m)) n (suc top / suc m) (omega arith, omega arith)
              small_a small_b (λ e. cc) refl (omega (arith, div-le_self (suc top) (suc m))),
          lt-div_test (suc top) (suc n) m,
          mul_comm (suc n) (suc m),
        )
        (guarded_product (pos (suc m)) (negsuc n) _ small_a small_b
          (rw (pos-mul-neg (suc m) n) (outside_neg top (suc m * suc n))))
  mul_signed-between (negsuc m) (pos (suc n)) in_a in_b =
      let small_a = Within-IsSmall (negsuc m) small in_a in
      let small_b = Within-IsSmall (pos (suc n)) small in_b in
      rw
        (
          mul_neg_pos (word (negsuc m)) (word (pos (suc n))) (word (negsuc top)) (word (pos top))
              (word-IsNegative m small_a) (word-IsPositive n small_b),
          quotient_guard (negsuc top) (pos (suc n)) m (suc top / suc n) (omega arith, omega arith)
              small_b small_a (λ e. cc) refl (omega (arith, div-le_self (suc top) (suc n))),
          lt-div_test (suc top) (suc m) n,
        )
        (guarded_product (negsuc m) (pos (suc n)) _ small_a small_b
          (rw (neg-mul-pos m (suc n)) (outside_neg top (suc m * suc n))))
  mul_signed-between (negsuc m) (negsuc n) in_a in_b =
      let small_a = Within-IsSmall (negsuc m) small in_a in
      let small_b = Within-IsSmall (negsuc n) small in_b in
      rw
        (
          mul_neg_neg (word (negsuc m)) (word (negsuc n)) (word (negsuc top)) (word (pos top))
              (word-IsNegative m small_a) (word-IsNegative n small_b),
          quotient_guard (pos top) (negsuc n) m (top / suc n) (omega arith, omega arith) small_b
              small_a (λ e. cc) refl (omega (arith, div-le_self top (suc n))),
          lt-div_test top (suc m) n,
        )
        (guarded_product (negsuc m) (negsuc n) _ small_a small_b
          (rw (neg-mul-neg m n) (outside_pos top (suc m * suc n))))
  mul_signed-between (pos zero) b in_a in_b =
      rw (mul_zero_left (word (pos 0)) (word b) (word (negsuc top)) (word (pos top)) word-IsZero) (
        guarded_product (pos 0) b false (omega arith, omega arith) (Within-IsSmall b small in_b)
          (rw (zero-mul_ℤ b) (ground arith)))
  mul_signed-between (pos (suc m)) (pos zero) in_a in_b = by_zero (pos (suc m)) in_a
  mul_signed-between (negsuc m) (pos zero) in_a in_b = by_zero (negsuc m) in_a

unsigned_test :
    (top m n : ℕ)
    → top < word_mod
    → m < word_mod
    → n < word_mod
    → bitand
        (iszero (iszero (word (pos m))))
        (gt (word (pos n)) (div (word (pos top)) (word (pos m))))
      ≡ flag (ltb top (m * n))
unsigned_test top zero n ht hm hn = unfold iszero word gt in bitand-flag false _ ∙ ground arith
unsigned_test top (suc m) n ht hm hn =
    let nonzero : iszero (iszero (word (pos (suc m)))) ≡ 1 = unfold iszero word in ground arith in
    rw (nonzero, gt-div-word top n m ht hn hm, bitand-one, mul_comm n (suc m)) refl

mul_unsigned-between :
    {top : ℕ}
    → top < word_mod
    → (a b : ℤ) → Within (pos 0) (pos top) a
    → Within (pos 0) (pos top) b
    → safe_mul_unsigned (word a) (word b) (word (pos top)) ≡ between (pos 0) (pos top) (a *ℤ b)
unfolding safe_mul_unsigned
mul_unsigned-between {top} small (pos m) (pos n) in_a in_b =
    rw (unsigned_test top m n small (omega arith) (omega arith)) (
      revert_if-between (ltb top (m * n)) (pos 0) (pos top) (pos m *ℤ pos n)
        (mul (word (pos m)) (word (pos n))) (rw (pos-mul-pos m n) (ground arith))
        (λ e.
          rw (pos-mul-pos m n, word-pos m (omega arith), word-pos n (omega arith))
            (unfold mul word in refl)))
mul_unsigned-between small (negsuc m) b in_a in_b = absurd (omega arith)
mul_unsigned-between small (pos m) (negsuc n) in_a in_b = absurd (omega arith)

-- For every integral type and two integers of its range, the checked product gives the word of the
-- integer product if it is in the range, and reverts with the overflow panic otherwise.
pub dispatch_safe_mul-checked :
    (ty : Integer) (a b : ℤ)
    → InRange ty a
    → InRange ty b
    → dispatch_safe_mul (word a) (word b) ty ≡ checked ty (a *ℤ b)
unfolding dispatch_safe_mul checked
dispatch_safe_mul-checked ty a b in_a in_b = elim (Bool-cases (is_signed ty)) [
  | inl s ↦
      let k = signed_bounds ty s in
      rw (s, k.max_word, k.min_word, k.greatest, k.least)
        (mul_signed-between k.small a b (signed-Within a k in_a) (signed-Within b k in_b))
  | inr u ↦
      let k = unsigned_bounds ty u in
      rw (u, k.max_word, k.greatest, k.least)
        (mul_unsigned-between k.small a b (unsigned-Within a k in_a) (unsigned-Within b k in_b))
]
