-- ===== src/SafeMath/Exponents/Signed.antt =====
-- Checked powers of the signed types, and of every type.
pub mod Rounds
use Prim.Native.Nat.{◌^◌, ◌/◌, ◌%◌}
use native.Mathlib.Nat.{
  div-le_self, pow-suc, le_trans, mul-le-mul_left, mul-le-mul_right, mul_comm, one-mul,
}
use fe.Prelude.{
  ℕ, zero, suc, ◌-◌, ◌*◌, ◌<◌, ◌≤◌, ◌≡◌, ◌≢◌, ◌∙◌, refl, ap, sym, Bool, true, false, ◌&&◌, arith,
  ltb, ◌==◌, Bool-cases, inl, inr,
}
use fe.Prelude.Powers.{zero-pow, square_le-pow, halved_even, halved_odd}
use fe.Prelude.Int.{ℤ, pos, negsuc, ◌*ℤ◌, pow_ℤ}
use fe.Types.{Integer}
use fe.Integer.{is_signed}
use fe.Integer.Ranges.{InRange}
use fe.Yul.{Run, gives, reverts, ◌>>=◌, word_mod, word, mul, shr, iszero}
use fe.Yul.Bits.{bitand-low}
use fe.Yul.Signed.{IsSmall}
use fe.Yul.Products.{word-pos, word-negsuc, mul-word, neg-mul-neg, pos-mul-pos, lt-div_test}
use fe.SafeMath.{panic_overflow}
use fe.SafeMath.Bounds.{
  Within, signed-Within, unsigned-Within, between, checked, signed_bounds, unsigned_bounds,
}
use fe.SafeMath.Products.Signs.{word-IsPositive, word-IsNegative}
use fe.SafeMath.Products.Guards.{quotient_guard, gt-div-word}
use fe.SafeMath.Exponents.{
  safe_exp_helper, multiply_out_signed, pow_signed_rounds, safe_pow_signed, safe_pow_unsigned,
  dispatch_safe_pow,
}
use fe.SafeMath.Exponents.Loop.{with_sign, Ends, exp_rounds-Ends, le-mul, square-ge_two}
use fe.SafeMath.Exponents.Sign.{
  integer, is_odd, pow_ℤ-pos, pow_ℤ-negsuc, multiply_out_pos, multiply_out_neg,
}
use fe.SafeMath.Exponents.Unsigned.{safe_pow_unsigned_lem}
use fe.SafeMath.Exponents.Signed.Rounds.{square_word, fits_held, rounds_lem, past_lem}

and_false : (x : Bool) → false ≡ (x && false)
and_false true = refl
and_false false = refl

and_true : (x : Bool) → x ≡ (x && true)
and_true true = refl
and_true false = refl

mul-one_ℤ : (a : ℤ) → a *ℤ pos 1 ≡ a
mul-one_ℤ (pos n) = ground arith
mul-one_ℤ (negsuc n) = ground arith

module _ {top : ℕ} (small : top < 2 ^ 255) where
  abbrev held : ℤ → Run ℕ
  held z = between (negsuc top) (pos top) z

  signed_pos :
      (q n : ℕ)
      → 0 < top
      → suc q ≤ top
      → 2 ≤ n
      → n < word_mod
      → safe_pow_signed (word (pos (suc q))) n (word (negsuc top)) (word (pos top))
        ≡ held (pow_ℤ (pos (suc q)) n)
  unfolding safe_pow_signed
  signed_pos q n ht fits two hn =
      let sign = word-IsPositive q (omega arith, omega arith) in
      let n0 : (n == 0) ≡ false = ground arith in
      let n1 : (n == 1) ≡ false = ground arith in
      let nonzero : iszero (word (pos (suc q))) ≡ 0 = unfold iszero word in ground arith in
      let wa : word (pos (suc q)) ≡ suc q = word-pos (suc q) (omega arith) in
      let pw : pow_ℤ (pos (suc q)) n ≡ integer (is_odd n && false) (suc q ^ n) =
        pow_ℤ-pos (suc q) n ∙ ap (λ (t : Bool). integer t (suc q ^ n)) (and_false (is_odd n)) in
      rw
        (
          n0,
          n1,
          nonzero,
          sign.0,
          gt-div-word top (suc q) q (omega arith) (omega arith) (omega arith),
        )
        (elim (Bool-cases (ltb top (suc q * suc q))) [
          | inl large ↦ rw large (
              sym (
                past_lem small (pos (suc q)) false (suc q) n wa pw (omega arith) two hn ht
                  (omega arith) (ground arith)))
          | inr fine ↦ rw fine (
              rounds_lem small (pos (suc q)) false (suc q) n wa pw (omega arith) two hn
                (square_word (pos (suc q)) (suc q * suc q) (omega arith, omega arith)
                  (pos-mul-pos (suc q) (suc q)) (ground arith))
                (ground arith))
        ])

  signed_neg :
      (q n : ℕ)
      → 0 < top
      → q ≤ top
      → 2 ≤ n
      → n < word_mod
      → safe_pow_signed (word (negsuc q)) n (word (negsuc top)) (word (pos top))
        ≡ held (pow_ℤ (negsuc q) n)
  unfolding safe_pow_signed
  signed_neg q n ht fits two hn =
      let sign = word-IsNegative q (omega arith, omega arith) in
      let n0 : (n == 0) ≡ false = ground arith in
      let n1 : (n == 1) ≡ false = ground arith in
      let nonzero : iszero (word (negsuc q)) ≡ 0 = unfold iszero word in ground arith in
      let wa : word (negsuc q) ≡ word_mod - suc q = word-negsuc q (omega arith) ∙ omega arith in
      let pw : pow_ℤ (negsuc q) n ≡ integer (is_odd n && true) (suc q ^ n) =
        pow_ℤ-negsuc q n ∙ ap (λ (t : Bool). integer t (suc q ^ n)) (and_true (is_odd n)) in
      rw
        (
          n0,
          n1,
          nonzero,
          sign.0,
          quotient_guard (pos top) (negsuc q) q (top / suc q) (omega arith, omega arith)
              (omega arith, omega arith) (omega arith, omega arith) (λ e. cc) refl
              (omega (arith, div-le_self top (suc q))),
          lt-div_test top (suc q) q,
        )
        (elim (Bool-cases (ltb top (suc q * suc q))) [
          | inl large ↦ rw large (
              sym (
                past_lem small (negsuc q) true (suc q) n wa pw (omega arith) two hn ht (omega arith)
                  (ground arith)))
          | inr fine ↦ rw fine (
              rounds_lem small (negsuc q) true (suc q) n wa pw (omega arith) two hn
                (square_word (negsuc q) (suc q * suc q) (omega arith, omega arith) (neg-mul-neg q q)
                  (ground arith))
                (ground arith))
        ])

  signed_zero :
      (n : ℕ)
      → 2 ≤ n
      → safe_pow_signed (word (pos 0)) n (word (negsuc top)) (word (pos top))
        ≡ held (pow_ℤ (pos 0) n)
  unfolding safe_pow_signed iszero word
  signed_zero n two =
      let n0 : (n == 0) ≡ false = ground arith in
      let n1 : (n == 1) ≡ false = ground arith in
      rw
        (
          n0,
          n1,
          pow_ℤ-pos 0 n,
          zero-pow n (omega arith),
          fits_held small (pos 0) (omega arith, omega arith),
        )
        refl

  pow_signed-between :
      (a : ℤ) (n : ℕ)
      → 0 < top
      → Within (negsuc top) (pos top) a
      → n < word_mod
      → safe_pow_signed (word a) n (word (negsuc top)) (word (pos top)) ≡ held (pow_ℤ a n)
  unfolding safe_pow_signed
  pow_signed-between a zero ht in_a hn =
      unfold pow_ℤ in
      rw (fits_held small (pos 1) (omega arith, omega arith))
        (ap gives (sym (word-pos 1 (omega arith))))
  pow_signed-between a (suc zero) ht in_a hn =
      unfold pow_ℤ in rw (mul-one_ℤ a, fits_held small a in_a) refl
  pow_signed-between (pos zero) (suc (suc n)) ht in_a hn = signed_zero (suc (suc n)) (omega arith)
  pow_signed-between (pos (suc q)) (suc (suc n)) ht in_a hn =
      signed_pos q (suc (suc n)) ht (omega arith) (omega arith) hn
  pow_signed-between (negsuc q) (suc (suc n)) ht in_a hn =
      signed_neg q (suc (suc n)) ht (omega arith) (omega arith) hn

pow_unsigned-between :
    {top : ℕ}
    → top < word_mod
    → (a : ℤ) (n : ℕ) → 0 < top
    → Within (pos 0) (pos top) a
    → n < word_mod
    → safe_pow_unsigned (word a) n (word (pos top)) ≡ between (pos 0) (pos top) (pow_ℤ a n)
pow_unsigned-between {top} small (pos b) n ht in_a hn =
    rw (word-pos b (omega arith), word-pos top small, pow_ℤ-pos b n)
      (safe_pow_unsigned_lem top small b n ht hn (omega arith))
pow_unsigned-between small (negsuc b) n ht in_a hn = absurd (omega arith)

-- For every integral type, a base in the type's range and any exponent word, the checked power
-- gives the word of the integer power if it is in the range of the type, and reverts with the
-- overflow panic otherwise; its loop never lacks a round.
pub dispatch_safe_pow-checked :
    (ty : Integer) (a : ℤ) (n : ℕ)
    → InRange ty a
    → n < word_mod
    → dispatch_safe_pow (word a) n ty ≡ checked ty (pow_ℤ a n)
unfolding dispatch_safe_pow checked
dispatch_safe_pow-checked ty a n in_a hn = elim (Bool-cases (is_signed ty)) [
  | inl s ↦
      let k = signed_bounds ty s in
      rw (s, k.max_word, k.min_word, k.greatest, k.least)
        (pow_signed-between k.small a n k.wide (signed-Within a k in_a) hn)
  | inr u ↦
      let k = unsigned_bounds ty u in
      rw (u, k.max_word, k.greatest, k.least)
        (pow_unsigned-between k.small a n k.wide (unsigned-Within a k in_a) hn)
]
