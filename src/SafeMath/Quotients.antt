-- ===== src/SafeMath/Quotients.antt =====
-- Checked quotients and remainders.
use Prim.Native.Nat.{◌^◌, ◌/◌, ◌%◌}
use native.Mathlib.Nat.{mod-le, div-le_self, div-lt_self, div-one}
use fe.Prelude.{
  ℕ, zero, suc, ◌<◌, ◌≡◌, ◌≢◌, ◌⊎◌, refl, Bool, false, not, ◌&&◌, arith, if◌then◌else◌, Bool-cases,
  inl, inr,
}
use fe.Prelude.Int.{ℤ, pos, negsuc, leb_ℤ, eq_ℤ, quot_ℤ, rem_ℤ}
use fe.Types.{Integer}
use fe.Integer.{is_signed}
use fe.Integer.Ranges.{InRange}
use fe.Yul.{Run, gives, reverts, word, word_mod, div, modulo, sdiv, sub, eq, iszero, flag}
use fe.Yul.Signed.{bitand-flag, IsSmall}
use fe.Yul.Products.{sdiv-word, smod-word, word-pos}
use fe.SafeMath.{
  panic_zero_division, safe_div_signed, safe_div_unsigned, safe_mod_signed, safe_mod_unsigned,
  dispatch_safe_div, dispatch_safe_mod,
}
use fe.SafeMath.Bounds.{
  Within, Within-IsSmall, signed-Within, unsigned-Within, revert_if-between, between, checked,
  signed_bounds, unsigned_bounds,
}

-- A division by zero reverts with a code of its own.
unfoldable pub unless_zero : ℤ → Run ℕ → Run ℕ
unless_zero b quotient = if eq_ℤ b (pos 0) then reverts panic_zero_division else quotient

eq-word : (a b : ℤ) → IsSmall a → IsSmall b → eq (word a) (word b) ≡ flag (eq_ℤ a b)
unfolding eq word
eq-word (pos m) (pos n) p q = ground arith
eq-word (pos m) (negsuc n) p q = ground arith
eq-word (negsuc m) (pos n) p q = ground arith
eq-word (negsuc m) (negsuc n) p q = ground arith

minus_one : sub 0 1 ≡ word (negsuc 0)
unfolding sub word
minus_one = omega arith

-- The one quotient that leaves a signed type.
overflows : (top : ℕ) (a b : ℤ) → Bool
overflows top a b = eq_ℤ a (negsuc top) && eq_ℤ b (negsuc 0)

module _ (top : ℕ) where
  abbrev inside : ℤ → Bool
  inside z = leb_ℤ (negsuc top) z && leb_ℤ z (pos top)

  overflows_test :
      (a b : ℤ)
      → Within (negsuc top) (pos top) a
      → b ≢ pos 0
      → overflows top a b ≡ not (inside (quot_ℤ a b))
  unfolding overflows
  overflows_test a (pos zero) in_a ne = absurd (ne refl)
  overflows_test (pos m) (pos (suc n)) in_a ne = ground (arith, div-le_self m (suc n))
  overflows_test (pos m) (negsuc n) in_a ne = ground (arith, div-le_self m (suc n))
  overflows_test (negsuc m) (pos (suc n)) in_a ne = ground (arith, div-le_self (suc m) (suc n))
  overflows_test (negsuc m) (negsuc zero) in_a ne = rw (div-one (suc m)) (ground arith)
  overflows_test (negsuc m) (negsuc (suc n)) in_a ne =
      ground (arith, div-lt_self {n = suc m} {k = suc (suc n)} (omega arith) (omega arith))

eq_ℤ_zero : (b : ℤ) → b ≢ pos 0 → eq_ℤ b (pos 0) ≡ false
eq_ℤ_zero (pos zero) ne = absurd (ne refl)
eq_ℤ_zero (pos (suc n)) ne = ground arith
eq_ℤ_zero (negsuc n) ne = refl

iszero-word : (b : ℤ) → IsSmall b → iszero (word b) ≡ flag (eq_ℤ b (pos 0))
unfolding iszero word
iszero-word (pos n) h = ground arith
iszero-word (negsuc n) h = ground arith

module _ {top : ℕ} (small : top < 2 ^ 255) where
  div_signed-ne_zero :
      (a b : ℤ)
      → Within (negsuc top) (pos top) a
      → Within (negsuc top) (pos top) b
      → b ≢ pos 0
      → safe_div_signed (word a) (word b) (word (negsuc top))
        ≡ between (negsuc top) (pos top) (quot_ℤ a b)
  unfolding safe_div_signed
  div_signed-ne_zero a b in_a in_b ne =
      let small_a = Within-IsSmall a small in_a in
      let small_b = Within-IsSmall b small in_b in
      rw
        (
          iszero-word b small_b,
          eq_ℤ_zero b ne,
          minus_one,
          eq-word a (negsuc top) small_a (omega arith, omega arith),
          eq-word b (negsuc 0) small_b (omega arith, omega arith),
          bitand-flag (eq_ℤ a (negsuc top)) (eq_ℤ b (negsuc 0)),
        )
        (revert_if-between (eq_ℤ a (negsuc top) && eq_ℤ b (negsuc 0)) (negsuc top) (pos top)
          (quot_ℤ a b) (sdiv (word a) (word b)) (unfold overflows in overflows_test top a b in_a ne)
          (λ e. sdiv-word a b small_a small_b ne))

  mod_signed-ne_zero :
      (a b : ℤ)
      → Within (negsuc top) (pos top) a
      → Within (negsuc top) (pos top) b
      → b ≢ pos 0
      → safe_mod_signed (word a) (word b) ≡ gives (word (rem_ℤ a b))
  unfolding safe_mod_signed
  mod_signed-ne_zero a b in_a in_b ne =
      let small_a = Within-IsSmall a small in_a in
      let small_b = Within-IsSmall b small in_b in
      rw (iszero-word b small_b, eq_ℤ_zero b ne, smod-word a b small_a small_b ne) refl

module _ {top : ℕ} (small : top < word_mod) where
  div_unsigned-ne_zero :
      (a b : ℤ)
      → Within (pos 0) (pos top) a
      → Within (pos 0) (pos top) b
      → b ≢ pos 0
      → safe_div_unsigned (word a) (word b) ≡ between (pos 0) (pos top) (quot_ℤ a b)
  unfolding safe_div_unsigned iszero between div
  div_unsigned-ne_zero (pos m) (pos zero) in_a in_b ne = absurd (ne refl)
  div_unsigned-ne_zero (pos m) (pos (suc n)) in_a in_b ne =
      rw
        (
          word-pos m (omega arith),
          word-pos (suc n) (omega arith),
          word-pos (m / suc n) (omega (arith, div-le_self m (suc n))),
        )
        (ground (arith, div-le_self m (suc n)))
  div_unsigned-ne_zero (pos m) (negsuc n) in_a in_b ne = absurd (omega arith)
  div_unsigned-ne_zero (negsuc m) b in_a in_b ne = absurd (omega arith)

  mod_unsigned-ne_zero :
      (a b : ℤ)
      → Within (pos 0) (pos top) a
      → Within (pos 0) (pos top) b
      → b ≢ pos 0
      → safe_mod_unsigned (word a) (word b) ≡ gives (word (rem_ℤ a b))
  unfolding safe_mod_unsigned iszero modulo
  mod_unsigned-ne_zero (pos m) (pos zero) in_a in_b ne = absurd (ne refl)
  mod_unsigned-ne_zero (pos m) (pos (suc n)) in_a in_b ne =
      rw
        (
          word-pos m (omega arith),
          word-pos (suc n) (omega arith),
          word-pos (m % suc n) (omega (arith, mod-le m (suc n))),
        )
        (ground arith)
  mod_unsigned-ne_zero (pos m) (negsuc n) in_a in_b ne = absurd (omega arith)
  mod_unsigned-ne_zero (negsuc m) b in_a in_b ne = absurd (omega arith)

iszero_zero : iszero (word (pos 0)) ≡ 1
iszero_zero = iszero-word (pos 0) (omega arith, omega arith)

div_zero :
    (a : ℕ) (ty : Integer) → dispatch_safe_div a (word (pos 0)) ty ≡ reverts panic_zero_division
unfolding dispatch_safe_div safe_div_signed safe_div_unsigned
div_zero a ty = rw iszero_zero (ground arith)

mod_zero :
    (a : ℕ) (ty : Integer) → dispatch_safe_mod a (word (pos 0)) ty ≡ reverts panic_zero_division
unfolding dispatch_safe_mod safe_mod_signed safe_mod_unsigned
mod_zero a ty = rw iszero_zero (ground arith)

zero-cases : (b : ℤ) → (b ≡ pos 0) ⊎ (b ≢ pos 0)
zero-cases (pos zero) = inl refl
zero-cases (pos (suc n)) = inr (λ e. cc)
zero-cases (negsuc n) = inr (λ e. cc)

div-ne_zero :
    (ty : Integer) (a b : ℤ)
    → InRange ty a
    → InRange ty b
    → b ≢ pos 0
    → dispatch_safe_div (word a) (word b) ty ≡ checked ty (quot_ℤ a b)
unfolding dispatch_safe_div checked
div-ne_zero ty a b in_a in_b ne = elim (Bool-cases (is_signed ty)) [
  | inl s ↦
      let k = signed_bounds ty s in
      rw (s, k.min_word, k.greatest, k.least)
        (div_signed-ne_zero k.small a b (signed-Within a k in_a) (signed-Within b k in_b) ne)
  | inr u ↦
      let k = unsigned_bounds ty u in
      rw (u, k.greatest, k.least)
        (div_unsigned-ne_zero k.small a b (unsigned-Within a k in_a) (unsigned-Within b k in_b) ne)
]

mod-ne_zero :
    (ty : Integer) (a b : ℤ)
    → InRange ty a
    → InRange ty b
    → b ≢ pos 0
    → dispatch_safe_mod (word a) (word b) ty ≡ gives (word (rem_ℤ a b))
unfolding dispatch_safe_mod
mod-ne_zero ty a b in_a in_b ne = elim (Bool-cases (is_signed ty)) [
  | inl s ↦
      let k = signed_bounds ty s in
      rw s (mod_signed-ne_zero k.small a b (signed-Within a k in_a) (signed-Within b k in_b) ne)
  | inr u ↦
      let k = unsigned_bounds ty u in
      rw u
        (mod_unsigned-ne_zero k.small a b (unsigned-Within a k in_a) (unsigned-Within b k in_b) ne)
]

dispatch_safe_div-checked :
    (ty : Integer) (a b : ℤ)
    → InRange ty a
    → InRange ty b
    → dispatch_safe_div (word a) (word b) ty ≡ unless_zero b (checked ty (quot_ℤ a b))
unfolding unless_zero
dispatch_safe_div-checked ty a b in_a in_b = elim (zero-cases b) [
  | inl e ↦ rw e (div_zero (word a) ty)
  | inr ne ↦ rw (eq_ℤ_zero b ne) (div-ne_zero ty a b in_a in_b ne)
]

dispatch_safe_mod-checked :
    (ty : Integer) (a b : ℤ)
    → InRange ty a
    → InRange ty b
    → dispatch_safe_mod (word a) (word b) ty ≡ unless_zero b (gives (word (rem_ℤ a b)))
unfolding unless_zero
dispatch_safe_mod-checked ty a b in_a in_b = elim (zero-cases b) [
  | inl e ↦ rw e (mod_zero (word a) ty)
  | inr ne ↦ rw (eq_ℤ_zero b ne) (mod-ne_zero ty a b in_a in_b ne)
]

-- For every integral type and two integers of its range, the checked quotient and the checked
-- remainder revert with the zero division panic exactly when the divisor is zero; otherwise the
-- quotient, rounded towards zero, is given if it is in the range and reverts with the overflow
-- panic if not, and the remainder, with the sign of the dividend, is given.
pub quotients-checked :
    (ty : Integer) (a b : ℤ)
    → InRange ty a
    → InRange ty b
    → (dispatch_safe_div (word a) (word b) ty ≡ unless_zero b (checked ty (quot_ℤ a b)))
      × (dispatch_safe_mod (word a) (word b) ty ≡ unless_zero b (gives (word (rem_ℤ a b))))
quotients-checked ty a b in_a in_b =
    (dispatch_safe_div-checked ty a b in_a in_b, dispatch_safe_mod-checked ty a b in_a in_b)
