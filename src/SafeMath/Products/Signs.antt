-- ===== src/SafeMath/Products/Signs.antt =====
-- The guards of a checked signed product, by the signs of its operands.
use fe.Prelude.{ℕ, suc, ◌≡◌, ◌∙◌, refl, false, arith}
use fe.Prelude.Int.{ℤ, pos, negsuc, ◌*ℤ◌}
use fe.Yul.{gives, revert_if, word, mul, div, sdiv, gt, bitand, slt, sgt}
use fe.Yul.Signed.{
  bitand-zero-sgt, bitand-flag, bitand-zero-slt, bitand-zero-gt, bitand-one, slt-zero, sgt-zero,
  IsSmall,
}
use fe.SafeMath.{panic_overflow, safe_mul_signed}

pub one_and_one : bitand 1 1 ≡ 1
unfolding bitand
one_and_one = refl

pub one_and_zero : bitand 1 0 ≡ 0
unfolding bitand
one_and_zero = refl

pub zero_and_one : bitand 0 1 ≡ 0
unfolding bitand
zero_and_one = refl

pub zero_and_zero : bitand 0 0 ≡ 0
unfolding bitand
zero_and_zero = refl

abbrev pub IsPositive : ℕ → Type 0
IsPositive w = (sgt w 0 ≡ 1) × (slt w 0 ≡ 0)

abbrev pub IsNegative : ℕ → Type 0
IsNegative w = (sgt w 0 ≡ 0) × (slt w 0 ≡ 1)

abbrev pub IsZero : ℕ → Type 0
IsZero w = (sgt w 0 ≡ 0) × (slt w 0 ≡ 0)

pub word-IsPositive : (n : ℕ) → IsSmall (pos (suc n)) → IsPositive (word (pos (suc n)))
word-IsPositive n h =
    (sgt-zero (pos (suc n)) h ∙ ground arith, slt-zero (pos (suc n)) h ∙ ground arith)

pub word-IsNegative : (n : ℕ) → IsSmall (negsuc n) → IsNegative (word (negsuc n))
word-IsNegative n h = (sgt-zero (negsuc n) h ∙ ground arith, slt-zero (negsuc n) h ∙ ground arith)

pub word-IsZero : IsZero (word (pos 0))
word-IsZero =
    (sgt-zero (pos 0) (omega arith, omega arith), slt-zero (pos 0) (omega arith, omega arith))

pub and_one_gt : (x y : ℕ) → bitand 1 (gt x y) ≡ gt x y
unfolding gt
and_one_gt x y = bitand-one _

pub and_one_slt : (x y : ℕ) → bitand 1 (slt x y) ≡ slt x y
unfolding slt
and_one_slt x y = bitand-one _

pub sgt_and_zero : (x y : ℕ) → bitand (sgt x y) 0 ≡ 0
unfolding sgt
sgt_and_zero x y = bitand-flag _ false ∙ ground arith

pub slt_and_zero : (x y : ℕ) → bitand (slt x y) 0 ≡ 0
unfolding slt
slt_and_zero x y = bitand-flag _ false ∙ ground arith

pub zero-mul_ℤ : (b : ℤ) → pos 0 *ℤ b ≡ pos 0
zero-mul_ℤ (pos n) = ground arith
zero-mul_ℤ (negsuc n) = ground arith

pub mul-zero_ℤ : (a : ℤ) → a *ℤ pos 0 ≡ pos 0
mul-zero_ℤ (pos n) = ground arith
mul-zero_ℤ (negsuc n) = ground arith

-- Which of the four guards is left, by the signs of the operands.
module _ (l r low high : ℕ) where
  pub mul_pos_pos :
      IsPositive l
      → IsPositive r
      → safe_mul_signed l r low high
        ≡ revert_if (gt l (div high r)) panic_overflow (gives (mul l r))
  unfolding safe_mul_signed
  mul_pos_pos p q =
      rw
        (
          p.0, p.1, q.0, q.1, one_and_one, one_and_zero, zero_and_one, zero_and_zero, and_one_gt,
          bitand-zero-slt, bitand-zero-slt, bitand-zero-slt,
        )
        refl

  pub mul_pos_neg :
      IsPositive l
      → IsNegative r
      → safe_mul_signed l r low high
        ≡ revert_if (slt r (sdiv low l)) panic_overflow (gives (mul l r))
  unfolding safe_mul_signed
  mul_pos_neg p q =
      rw
        (
          p.0, p.1, q.0, q.1, one_and_one, one_and_zero, zero_and_one, zero_and_zero, and_one_slt,
          bitand-zero-gt, bitand-zero-slt, bitand-zero-slt,
        )
        refl

  pub mul_neg_pos :
      IsNegative l
      → IsPositive r
      → safe_mul_signed l r low high
        ≡ revert_if (slt l (sdiv low r)) panic_overflow (gives (mul l r))
  unfolding safe_mul_signed
  mul_neg_pos p q =
      rw
        (
          p.0, p.1, q.0, q.1, one_and_one, one_and_zero, zero_and_one, zero_and_zero, and_one_slt,
          bitand-zero-gt, bitand-zero-slt, bitand-zero-slt,
        )
        refl

  pub mul_neg_neg :
      IsNegative l
      → IsNegative r
      → safe_mul_signed l r low high
        ≡ revert_if (slt l (sdiv high r)) panic_overflow (gives (mul l r))
  unfolding safe_mul_signed
  mul_neg_neg p q =
      rw
        (
          p.0, p.1, q.0, q.1, one_and_one, one_and_zero, zero_and_one, zero_and_zero, and_one_slt,
          bitand-zero-gt, bitand-zero-slt, bitand-zero-slt,
        )
        refl

  pub mul_zero_left : IsZero l → safe_mul_signed l r low high ≡ gives (mul l r)
  unfolding safe_mul_signed
  mul_zero_left p =
      rw
        (
          p.0, p.1, bitand-zero-sgt, bitand-zero-slt, bitand-zero-gt, bitand-zero-slt,
          bitand-zero-slt, bitand-zero-slt,
        )
        refl

  pub mul_zero_right : IsZero r → safe_mul_signed l r low high ≡ gives (mul l r)
  unfolding safe_mul_signed
  mul_zero_right p =
      rw
        (
          p.0,
          p.1,
          sgt_and_zero l 0,
          slt_and_zero l 0,
          bitand-zero-gt,
          bitand-zero-slt,
          bitand-zero-slt,
          bitand-zero-slt,
        )
        refl
