-- ===== src/Operations.antt =====
-- The types of binary operations on integers (crates/analyzer/src/operations.rs).
pub mod Exponents
use fe.Prelude.{Bool, true, false, not, ◌&&◌, ◌==◌, if◌then◌else◌, ℕ}
use fe.Prelude.Outcome.{Result, ok, err}
use fe.Types.{Integer, u256, u128, u64, u32, u16, u8, i256, i128, i64, i32, i16, i8}
use fe.Integer.{is_signed, can_hold, size}

-- `BinaryOperationError` of crates/analyzer/src/errors.rs
pub data BinaryOperationError : Type 0 where
  types_not_compatible types_not_numeric right_too_large right_is_signed not_equal_and_unsigned :
      BinaryOperationError

unfoldable pub bin_pow : Integer → Integer → Result Integer BinaryOperationError
unfolding is_signed can_hold
bin_pow left right =
    if is_signed right
    then err right_is_signed
    else if can_hold left right
    then ok left
    else err right_too_large

unfoldable pub bin_bit_shift : Integer → Integer → Result Integer BinaryOperationError
unfolding is_signed
bin_bit_shift left right = if is_signed right then err right_is_signed else ok left

abbrev same_sign : Bool → Bool → Bool
same_sign true b = b
same_sign false b = not b

-- The derived `PartialEq` of `Integer`: a type is known by its signedness and its size.
unfoldable pub integer_eq : Integer → Integer → Bool
unfolding is_signed size
integer_eq left right = same_sign (is_signed left) (is_signed right) && size left == size right

unfoldable pub bin_bit : Integer → Integer → Result Integer BinaryOperationError
unfolding integer_eq
bin_bit left right =
    if not (is_signed left) && integer_eq left right then ok left else err not_equal_and_unsigned
