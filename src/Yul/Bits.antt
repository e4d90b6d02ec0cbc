-- ===== src/Yul/Bits.antt =====
-- The lowest binary digit of a word.
use Prim.Native.Nat.{zero, suc, ℕ, ◌/◌, ◌%◌, min, bit_and-bitwise, digits}
use native.Mathlib.Nat.{min-zero, min-eq_left}
use fe.Prelude.{◌≡◌, refl, ◌∙◌, arith}
use fe.Yul.{bitand}

digits-zero : (n a : ℕ) → digits (λ b. zero) min n a 0 ≡ 0
digits-zero zero a = refl
digits-zero (suc n) zero = refl
digits-zero (suc n) (suc a) = omega (arith, digits-zero n (suc a / 2), min-zero (suc a % 2))

digits-one : (n a : ℕ) → digits (λ b. zero) min (suc n) a 1 ≡ a % 2
digits-one n zero = refl
digits-one n (suc a) =
    omega (arith, digits-zero n (suc a / 2), min-eq_left {n = suc a % 2} {m = 1} (omega arith))

pub bitand-low : (a : ℕ) → bitand a 1 ≡ a % 2
unfolding bitand
bitand-low zero = bit_and-bitwise 0 1
bitand-low (suc a) = bit_and-bitwise (suc a) 1 ∙ digits-one a (suc a)
