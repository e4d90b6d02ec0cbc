-- ===== src/SafeMath.antt =====
-- The checked arithmetic of crates/codegen/src/yul/runtime/safe_math.rs: for each operation the Yul
-- function that the provider emits, as a function on words, and the dispatcher that chooses it by
-- the type and passes the type's least and greatest value.
pub mod Bounds
pub mod Exponents
pub mod Products
pub mod Quotients
pub mod Sums
use fe.Prelude.{ℕ, zero, suc, ◌+◌, Bool, true, false, ◌==◌, if◌then◌else◌}
use fe.Types.{Integer, u256, u128, u64, u32, u16, u8, i256, i128, i64, i32, i16, i8}
use fe.Integer.{is_signed}
use fe.Yul.{
  Run, gives, reverts, out_of_rounds, ◌>>=◌, revert_if, add, sub, mul, div, modulo, sdiv, smod, exp,
  lt, gt, slt, sgt, eq, iszero, bitand, bitor, shr,
}

abbrev pub panic_overflow : ℕ
panic_overflow = 0x11

abbrev pub panic_zero_division : ℕ
panic_zero_division = 0x12

unfoldable pub revert_with_overflow {ℓ} : {A : Type ℓ} → ℕ → Run A → Run A
revert_with_overflow c rest = revert_if c panic_overflow rest

unfoldable pub revert_with_zero_division {ℓ} : {A : Type ℓ} → ℕ → Run A → Run A
revert_with_zero_division c rest = revert_if c panic_zero_division rest

-- The twelve integral kinds; the other kinds are unreachable there.
unfoldable pub get_max_value : Integer → ℕ
get_max_value i8 = 0x7f
get_max_value i16 = 0x7fff
get_max_value i32 = 0x7fffffff
get_max_value i64 = 0x7fffffffffffffff
get_max_value i128 = 0x7fffffffffffffffffffffffffffffff
get_max_value i256 = 0x7fffffffffffffffffffffffffffffffffffffffffffffffffffffffffffffff
get_max_value u8 = 0xff
get_max_value u16 = 0xffff
get_max_value u32 = 0xffffffff
get_max_value u64 = 0xffffffffffffffff
get_max_value u128 = 0xffffffffffffffffffffffffffffffff
get_max_value u256 = 0xffffffffffffffffffffffffffffffffffffffffffffffffffffffffffffffff

unfoldable pub get_min_value : Integer → ℕ
get_min_value i8 = 0xffffffffffffffffffffffffffffffffffffffffffffffffffffffffffffff80
get_min_value i16 = 0xffffffffffffffffffffffffffffffffffffffffffffffffffffffffffff8000
get_min_value i32 = 0xffffffffffffffffffffffffffffffffffffffffffffffffffffffff80000000
get_min_value i64 = 0xffffffffffffffffffffffffffffffffffffffffffffffff8000000000000000
get_min_value i128 = 0xffffffffffffffffffffffffffffffff80000000000000000000000000000000
get_min_value i256 = 0x8000000000000000000000000000000000000000000000000000000000000000
get_min_value _ = 0x0

unfoldable pub safe_add_signed : ℕ → ℕ → ℕ → ℕ → Run ℕ
unfolding revert_with_overflow
safe_add_signed lhs rhs min_value max_value =
    revert_with_overflow (bitand (iszero (slt lhs 0)) (sgt rhs (sub max_value lhs))) (
      revert_with_overflow (bitand (slt lhs 0) (slt rhs (sub min_value lhs))) (gives (add lhs rhs)))

unfoldable pub safe_add_unsigned : ℕ → ℕ → ℕ → Run ℕ
unfolding revert_with_overflow
safe_add_unsigned lhs rhs max_value =
    revert_with_overflow (gt lhs (sub max_value rhs)) (gives (add lhs rhs))

unfoldable pub safe_sub_signed : ℕ → ℕ → ℕ → ℕ → Run ℕ
unfolding revert_with_overflow
safe_sub_signed lhs rhs min_value max_value =
    revert_with_overflow (bitand (iszero (slt rhs 0)) (slt lhs (add min_value rhs))) (
      revert_with_overflow (bitand (slt rhs 0) (sgt lhs (add max_value rhs))) (gives (sub lhs rhs)))

unfoldable pub safe_sub_unsigned : ℕ → ℕ → Run ℕ
unfolding revert_with_overflow
safe_sub_unsigned lhs rhs = revert_with_overflow (lt lhs rhs) (gives (sub lhs rhs))

unfoldable pub safe_mul_signed : ℕ → ℕ → ℕ → ℕ → Run ℕ
unfolding revert_with_overflow
safe_mul_signed lhs rhs min_value max_value =
    revert_with_overflow (bitand (bitand (sgt lhs 0) (sgt rhs 0)) (gt lhs (div max_value rhs))) (
      revert_with_overflow (bitand (bitand (sgt lhs 0) (slt rhs 0)) (slt rhs (sdiv min_value lhs)))
        (revert_with_overflow
          (bitand (bitand (slt lhs 0) (sgt rhs 0)) (slt lhs (sdiv min_value rhs)))
          (revert_with_overflow
            (bitand (bitand (slt lhs 0) (slt rhs 0)) (slt lhs (sdiv max_value rhs)))
            (gives (mul lhs rhs)))))

unfoldable pub safe_mul_unsigned : ℕ → ℕ → ℕ → Run ℕ
unfolding revert_with_overflow
safe_mul_unsigned lhs rhs max_value =
    revert_with_overflow (bitand (iszero (iszero lhs)) (gt rhs (div max_value lhs)))
      (gives (mul lhs rhs))

unfoldable pub safe_div_signed : ℕ → ℕ → ℕ → Run ℕ
unfolding revert_with_overflow revert_with_zero_division
safe_div_signed lhs rhs min_value =
    revert_with_zero_division (iszero rhs)
      (revert_with_overflow (bitand (eq lhs min_value) (eq rhs (sub 0 1))) (gives (sdiv lhs rhs)))

unfoldable pub safe_div_unsigned : ℕ → ℕ → Run ℕ
unfolding revert_with_zero_division
safe_div_unsigned lhs rhs = revert_with_zero_division (iszero rhs) (gives (div lhs rhs))

unfoldable pub safe_mod_signed : ℕ → ℕ → Run ℕ
unfolding revert_with_zero_division
safe_mod_signed lhs rhs = revert_with_zero_division (iszero rhs) (gives (smod lhs rhs))

unfoldable pub safe_mod_unsigned : ℕ → ℕ → Run ℕ
unfolding revert_with_zero_division
safe_mod_unsigned lhs rhs = revert_with_zero_division (iszero rhs) (gives (modulo lhs rhs))

unfoldable pub dispatch_safe_add : ℕ → ℕ → Integer → Run ℕ
dispatch_safe_add lhs rhs ty =
    if is_signed ty
    then safe_add_signed lhs rhs (get_min_value ty) (get_max_value ty)
    else safe_add_unsigned lhs rhs (get_max_value ty)

unfoldable pub dispatch_safe_sub : ℕ → ℕ → Integer → Run ℕ
dispatch_safe_sub lhs rhs ty =
    if is_signed ty
    then safe_sub_signed lhs rhs (get_min_value ty) (get_max_value ty)
    else safe_sub_unsigned lhs rhs

unfoldable pub dispatch_safe_mul : ℕ → ℕ → Integer → Run ℕ
dispatch_safe_mul lhs rhs ty =
    if is_signed ty
    then safe_mul_signed lhs rhs (get_min_value ty) (get_max_value ty)
    else safe_mul_unsigned lhs rhs (get_max_value ty)

unfoldable pub dispatch_safe_div : ℕ → ℕ → Integer → Run ℕ
dispatch_safe_div lhs rhs ty =
    if is_signed ty then safe_div_signed lhs rhs (get_min_value ty) else safe_div_unsigned lhs rhs

unfoldable pub dispatch_safe_mod : ℕ → ℕ → Integer → Run ℕ
dispatch_safe_mod lhs rhs ty =
    if is_signed ty then safe_mod_signed lhs rhs else safe_mod_unsigned lhs rhs
