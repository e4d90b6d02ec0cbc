-- ===== src/SafeMath/Exponents.antt =====
-- Checked exponentiation of crates/codegen/src/yul/runtime/safe_math.rs: the loop of its helper, and
-- the functions for the unsigned and the signed types.
pub mod Loop
pub mod Unsigned
pub mod Sign
pub mod Signed
use fe.Prelude.{ℕ, zero, suc, ◌==◌, if◌then◌else◌}
use fe.Types.{Integer}
use fe.Integer.{is_signed}
use fe.Yul.{
  Run, gives, out_of_rounds, ◌>>=◌, mul, div, sdiv, exp, lt, gt, slt, sgt, iszero, bitand, bitor,
  shr,
}
use fe.SafeMath.{revert_with_overflow, get_min_value, get_max_value}

-- The `for` loop of the helper, with the rounds that it may still make.
unfoldable pub exp_rounds : ℕ → ℕ → ℕ → ℕ → ℕ → Run (ℕ × ℕ)
unfolding revert_with_overflow
exp_rounds zero exponent ret_base ret_power max_value = out_of_rounds
exp_rounds (suc rounds) exponent ret_base ret_power max_value =
    let rest =
      exp_rounds rounds (shr 1 exponent) (mul ret_base ret_base)
        (if bitand exponent 1 == 0 then ret_power else mul ret_power ret_base) max_value in
    if gt exponent 1 == 0
    then gives (ret_base, ret_power)
    else revert_with_overflow (gt ret_base (div max_value ret_base)) rest

-- A word has 256 binary digits, and each round drops one.
unfoldable pub safe_exp_helper : ℕ → ℕ → ℕ → ℕ → Run (ℕ × ℕ)
safe_exp_helper base exponent power max_value = exp_rounds 256 exponent base power max_value

unfoldable pub multiply_out_unsigned : ℕ → ℕ × ℕ → Run ℕ
unfolding revert_with_overflow
multiply_out_unsigned max_value (base, power) =
    revert_with_overflow (gt power (div max_value base)) (gives (mul power base))

-- `power := exp(base, exponent)` and its test.
unfoldable pub exp_checked : ℕ → ℕ → ℕ → Run ℕ
unfolding revert_with_overflow
exp_checked base exponent max_value =
    revert_with_overflow (gt (exp base exponent) max_value) (gives (exp base exponent))

-- From the test of `power`, which is still 0, on.
unfoldable pub pow_unsigned_large : ℕ → ℕ → ℕ → Run ℕ
unfolding revert_with_overflow
pow_unsigned_large base exponent max_value =
    revert_with_overflow (bitand (sgt 0 0) (gt 0 (div max_value base))) (
      if bitor (bitand (lt base 11) (lt exponent 78)) (bitand (lt base 307) (lt exponent 32)) == 0
      then safe_exp_helper base exponent 1 max_value >>= multiply_out_unsigned max_value
      else exp_checked base exponent max_value)

unfoldable pub safe_pow_unsigned : ℕ → ℕ → ℕ → Run ℕ
unfolding revert_with_overflow
safe_pow_unsigned base exponent max_value =
    if iszero exponent == 0
    then if iszero base == 0
      then if base == 1
        then gives 1
        else if base == 2
        then revert_with_overflow (gt exponent 255) (exp_checked 2 exponent max_value)
        else pow_unsigned_large base exponent max_value
      else gives 0
    else gives 1

unfoldable pub multiply_out_signed : ℕ → ℕ → ℕ × ℕ → Run ℕ
unfolding revert_with_overflow
multiply_out_signed min_value max_value (base, power) =
    revert_with_overflow (bitand (sgt power 0) (gt power (div max_value base))) (
      revert_with_overflow (bitand (slt power 0) (slt power (sdiv min_value base)))
        (gives (mul power base)))

-- The first round, the only one whose base can be negative, and the rest.
unfoldable pub pow_signed_rounds : ℕ → ℕ → ℕ → ℕ → Run ℕ
pow_signed_rounds base exponent min_value max_value =
    safe_exp_helper (mul base base) (shr 1 exponent) (if bitand exponent 1 == 0 then 1 else base)
      max_value
    >>= multiply_out_signed min_value max_value

unfoldable pub safe_pow_signed : ℕ → ℕ → ℕ → ℕ → Run ℕ
unfolding revert_with_overflow
safe_pow_signed base exponent min_value max_value =
    if exponent == 0
    then gives 1
    else if exponent == 1
    then gives base
    else if iszero base == 0
    then if sgt base 0 == 1
      then revert_with_overflow (gt base (div max_value base))
          (pow_signed_rounds base exponent min_value max_value)
      else revert_with_overflow (slt base (sdiv max_value base))
          (pow_signed_rounds base exponent min_value max_value)
    else gives 0

unfoldable pub dispatch_safe_pow : ℕ → ℕ → Integer → Run ℕ
dispatch_safe_pow lhs rhs ty =
    if is_signed ty
    then safe_pow_signed lhs rhs (get_min_value ty) (get_max_value ty)
    else safe_pow_unsigned lhs rhs (get_max_value ty)
