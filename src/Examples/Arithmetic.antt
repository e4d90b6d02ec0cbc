-- ===== src/Examples/Arithmetic.antt =====
-- Runs of the checked arithmetic.
use fe.Prelude.{◌≡◌, refl, arith}
use fe.Prelude.Int.{ℤ, pos, negsuc, ◌+ℤ◌, ◌-ℤ◌, ◌*ℤ◌, quot_ℤ, rem_ℤ, pow_ℤ}
use fe.Types.{i8}
use fe.Integer.Ranges.{InRange}
use fe.Yul.{gives, reverts, word, slt, sgt, bitand, iszero, sub, mul, gt, div, sdiv, eq}
use fe.SafeMath.{
  dispatch_safe_add, dispatch_safe_sub, dispatch_safe_mul, dispatch_safe_div, dispatch_safe_mod,
  panic_overflow, safe_mul_signed, safe_div_signed, get_min_value, get_max_value,
}
use fe.SafeMath.Bounds.{checked}
use fe.SafeMath.Sums.{sums-checked}
use fe.SafeMath.Products.{dispatch_safe_mul-checked}
use fe.SafeMath.Quotients.{unless_zero, quotients-checked}
use fe.SafeMath.Exponents.{dispatch_safe_pow}
use fe.SafeMath.Exponents.Signed.{dispatch_safe_pow-checked}
use fe.Integer.{is_signed, max_value, min_value}

abbrev least : ℤ
least = negsuc 127

least-InRange : InRange i8 least
unfolding max_value min_value
least-InRange = (omega arith, omega arith)

abbrev minus_one : ℤ
minus_one = negsuc 0

minus_one-InRange : InRange i8 minus_one
unfolding max_value min_value
minus_one-InRange = (omega arith, omega arith)

minus_two-InRange : InRange i8 (negsuc 1)
unfolding max_value min_value
minus_two-InRange = (omega arith, omega arith)

-- -128 / -1 does not fit an `i8`.
least_by_minus_one : dispatch_safe_div (word least) (word minus_one) i8 ≡ reverts panic_overflow
unfolding dispatch_safe_div safe_div_signed get_min_value is_signed word iszero eq sub sdiv bitand
least_by_minus_one = refl

-- -64 * 2 does.
to_the_least : dispatch_safe_mul (word (negsuc 63)) (word (pos 2)) i8 ≡ gives (word least)
unfolding dispatch_safe_mul safe_mul_signed get_min_value get_max_value is_signed word slt sgt gt
    div sdiv bitand mul
to_the_least = refl

sums-checked_example :
    (dispatch_safe_add (word least) (word minus_one) i8 ≡ checked i8 (least +ℤ minus_one))
    × (dispatch_safe_sub (word least) (word minus_one) i8 ≡ checked i8 (least -ℤ minus_one))
sums-checked_example = sums-checked i8 least minus_one least-InRange minus_one-InRange

dispatch_safe_mul-checked_example :
    dispatch_safe_mul (word least) (word minus_one) i8 ≡ checked i8 (least *ℤ minus_one)
dispatch_safe_mul-checked_example =
    dispatch_safe_mul-checked i8 least minus_one least-InRange minus_one-InRange

quotients-checked_example :
    (dispatch_safe_div (word least) (word minus_one) i8
      ≡ unless_zero minus_one (checked i8 (quot_ℤ least minus_one)))
    × (dispatch_safe_mod (word least) (word minus_one) i8
        ≡ unless_zero minus_one (gives (word (rem_ℤ least minus_one))))
quotients-checked_example = quotients-checked i8 least minus_one least-InRange minus_one-InRange

dispatch_safe_pow-checked_example :
    dispatch_safe_pow (word (negsuc 1)) 7 i8 ≡ checked i8 (pow_ℤ (negsuc 1) 7)
dispatch_safe_pow-checked_example =
    dispatch_safe_pow-checked i8 (negsuc 1) 7 minus_two-InRange (omega arith)
