-- ===== src/ConstExpr/Unchecked.antt =====
-- What constant evaluation lets through.
use fe.Prelude.{ℕ, ◌≡◌, refl, false, arith}
use fe.Prelude.Int.{pos, negsuc}
use fe.Types.{Integer, numeric, TypeKind, u256, u128, u64, u32, u16, u8}
use fe.Integer.{is_signed, min_value}
use fe.Integer.Ranges.{InRange}
use fe.ConstExpr.{
  Constant, invert, Expr, unary_operation, value, Context, extract_numeric, apply_unary, eval_expr,
}

negative_outside : (i : Integer) (n : ℕ) → is_signed i ≡ false → ¬ InRange i (negsuc n)
unfolding is_signed min_value
negative_outside u256 n s h = omega (arith, h.0)
negative_outside u128 n s h = omega (arith, h.0)
negative_outside u64 n s h = omega (arith, h.0)
negative_outside u32 n s h = omega (arith, h.0)
negative_outside u16 n s h = omega (arith, h.0)
negative_outside u8 n s h = omega (arith, h.0)
negative_outside i n s h = cc

-- Where the complement of n is -n - 1, the complement of an unsigned constant evaluates to a
-- negative number, which is not in the range of its type.
pub invert_unsigned :
    (ctx : Context) (i : Integer) (operand : Expr) (n : ℕ)
    → ((m : ℕ) → ctx.ops.complement (pos m) ≡ negsuc m)
    → is_signed i ≡ false
    → eval_expr ctx operand ≡ value (Constant.int (pos n))
    → (eval_expr ctx (unary_operation (TypeKind.base (numeric i)) invert operand)
        ≡ value (Constant.int (negsuc n)))
      × ¬ InRange i (negsuc n)
unfolding eval_expr apply_unary extract_numeric
invert_unsigned ctx i operand n complement unsigned h =
    (rw (h, complement n) refl, negative_outside i n unsigned)
