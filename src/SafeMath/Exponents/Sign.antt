-- ===== src/SafeMath/Exponents/Sign.antt =====
-- The sign of a power, and the last product of the signed function.
use Prim.Native.Nat.{◌^◌, ◌/◌, ◌%◌}
use native.Mathlib.Nat.{div-le_self, pow-suc, pow-zero, one-le-pow, mul_comm}
use fe.Prelude.{
  ℕ, zero, suc, ◌*◌, ◌<◌, ◌≤◌, ◌≡◌, ◌∙◌, refl, ap, Bool, true, false, not, arith, ◌==◌,
}
use fe.Prelude.Int.{ℤ, pos, negsuc, neg_ℕ, ◌*ℤ◌, pow_ℤ}
use fe.Yul.{word}
use fe.Yul.Signed.{bitand-zero-gt, bitand-zero-slt}
use fe.Yul.Products.{pos-mul-pos, neg-mul-pos, neg-mul-neg, lt-div_test}
use fe.SafeMath.Bounds.{between}
use fe.SafeMath.Products.Signs.{word-IsPositive, word-IsNegative, and_one_gt, and_one_slt}
use fe.SafeMath.Products.Guards.{outside_pos, outside_neg, quotient_guard, gt-div-word}
use fe.SafeMath.Products.{guarded_product}
use fe.SafeMath.Exponents.{multiply_out_signed}

-- The integer of a magnitude with a sign.
abbrev pub integer : Bool → ℕ → ℤ
integer true m = neg_ℕ m
integer false m = pos m

abbrev pub is_odd : ℕ → Bool
is_odd n = not (n % 2 == 0)

pub pow_ℤ-pos : (b n : ℕ) → pow_ℤ (pos b) n ≡ pos (b ^ n)
unfolding pow_ℤ
pow_ℤ-pos b zero = rw (pow-zero b) refl
pow_ℤ-pos b (suc n) =
    rw (pow_ℤ-pos b n, pos-mul-pos b (b ^ n), pow-suc b n, mul_comm b (b ^ n)) refl

pub neg_ℕ-suc : (p : ℕ) → neg_ℕ (suc p) ≡ negsuc p
neg_ℕ-suc p = ground arith

negsuc-mul-integer :
    (b : ℕ) (s : Bool) (p : ℕ) → 0 < p → negsuc b *ℤ integer s p ≡ integer (not s) (p * suc b)
negsuc-mul-integer b s zero h = absurd (omega arith)
negsuc-mul-integer b true (suc p) h =
    ap (λ (z : ℤ). negsuc b *ℤ z) (neg_ℕ-suc p)
    ∙ neg-mul-neg b p
    ∙ ap pos (mul_comm (suc b) (suc p))
negsuc-mul-integer b false (suc p) h = neg-mul-pos b (suc p) ∙ ap neg_ℕ (mul_comm (suc b) (suc p))

is_odd-suc : (n : ℕ) → is_odd (suc n) ≡ not (is_odd n)
is_odd-suc n = ground arith

pub pow_ℤ-negsuc : (b n : ℕ) → pow_ℤ (negsuc b) n ≡ integer (is_odd n) (suc b ^ n)
unfolding pow_ℤ
pow_ℤ-negsuc b zero = rw (pow-zero (suc b)) refl
pow_ℤ-negsuc b (suc n) =
    rw
      (
        pow_ℤ-negsuc b n,
        negsuc-mul-integer b (is_odd n) (suc b ^ n) (one-le-pow n (suc b) (omega arith)),
        is_odd-suc n,
        pow-suc (suc b) n,
      )
      refl

module _ {top : ℕ} (small : top < 2 ^ 255) (p q : ℕ) (below : suc p ≤ suc q)
    (fits : suc q ≤ top) where
  pub multiply_out_pos :
      multiply_out_signed
        (word (negsuc top))
        (word (pos top))
        (word (pos (suc q)), word (pos (suc p)))
      ≡ between (negsuc top) (pos top) (pos (suc p * suc q))
  unfolding multiply_out_signed
  multiply_out_pos =
      let sign = word-IsPositive p (omega arith, omega arith) in
      rw
        (
          sign.0,
          sign.1,
          bitand-zero-slt,
          and_one_gt,
          gt-div-word top (suc p) q (omega arith) (omega arith) (omega arith),
          ← pos-mul-pos (suc p) (suc q),
        )
        (guarded_product small (pos (suc p)) (pos (suc q)) _ (omega arith, omega arith)
          (omega arith, omega arith)
          (rw (pos-mul-pos (suc p) (suc q)) (outside_pos top (suc p * suc q))))

  pub multiply_out_neg :
      multiply_out_signed (word (negsuc top)) (word (pos top)) (word (pos (suc q)), word (negsuc p))
      ≡ between (negsuc top) (pos top) (neg_ℕ (suc p * suc q))
  unfolding multiply_out_signed
  multiply_out_neg =
      let sign = word-IsNegative p (omega arith, omega arith) in
      rw
        (
          sign.0,
          sign.1,
          bitand-zero-gt,
          and_one_slt,
          quotient_guard (negsuc top) (pos (suc q)) p (suc top / suc q) (omega arith, omega arith)
              (omega arith, omega arith) (omega arith, omega arith) (λ e. cc) refl
              (omega (arith, div-le_self (suc top) (suc q))),
          lt-div_test (suc top) (suc p) q,
          ← neg-mul-pos p (suc q),
        )
        (guarded_product small (negsuc p) (pos (suc q)) _ (omega arith, omega arith)
          (omega arith, omega arith) (rw (neg-mul-pos p (suc q)) (outside_neg top (suc p * suc q))))
