-- ===== src/SafeMath/Exponents/Unsigned.antt =====
-- Checked powers of the unsigned types.
use Prim.Native.Nat.{◌^◌, ◌%◌}
use native.Mathlib.Nat.{pow-le-pow_right, pow-le-pow_left, pow-zero, one-mul, mod-eq_of_lt}
use fe.Prelude.{
  ℕ, zero, suc, ◌*◌, ◌<◌, ◌≤◌, ◌≡◌, refl, Bool, true, false, ◌&&◌, ◌||◌, arith, ltb, ◌==◌,
  Bool-cases, inl, inr,
}
use fe.Prelude.Int.{pos}
use fe.Prelude.Powers.{one-pow, zero-pow}
use fe.Yul.{
  Run, gives, reverts, revert_if, ◌>>=◌, word_mod, word, mul, exp, gt, lt, sgt, bitor, iszero, flag,
  signed,
}
use fe.Yul.Signed.{bitand-zero-gt, bitand-flag}
use fe.Yul.Products.{gt-div}
use fe.SafeMath.{panic_overflow}
use fe.SafeMath.Bounds.{between}
use fe.SafeMath.Exponents.{
  safe_exp_helper, multiply_out_unsigned, exp_checked, pow_unsigned_large, safe_pow_unsigned,
}
use fe.SafeMath.Exponents.Loop.{exp_rounds-Ends}

bitor-flag : (x y : Bool) → bitor (flag x) (flag y) ≡ flag (x || y)
unfolding bitor
bitor-flag true true = refl
bitor-flag true false = refl
bitor-flag false true = refl
bitor-flag false false = refl

suc-eq_zero : (n : ℕ) → (suc n == 0) ≡ false
suc-eq_zero n = ground arith

module _ (top : ℕ) (small : top < word_mod) where
  -- A number, or a revert if it passes the greatest value.
  abbrev up_to : ℕ → Run ℕ
  up_to p = between (pos 0) (pos top) (pos p)

  up_to_fits : (p : ℕ) → p ≤ top → up_to p ≡ gives p
  unfolding between word
  up_to_fits p h = ground arith

  up_to_past : (p : ℕ) → top < p → up_to p ≡ reverts panic_overflow
  unfolding between
  up_to_past p h = ground arith

  guarded_up_to :
      (p w : ℕ)
      → (p ≤ top → w ≡ p)
      → revert_if (flag (ltb top p)) panic_overflow (gives w) ≡ up_to p
  guarded_up_to p w same = elim (Bool-cases (ltb top p)) [
    | inl past ↦ rw (past, up_to_past p (ground arith)) refl
    | inr fits ↦ rw (fits, up_to_fits p (ground arith), same (ground arith)) refl
  ]

  exp_checked_lem : (b n : ℕ) → b ^ n < word_mod → exp_checked b n top ≡ up_to (b ^ n)
  unfolding exp_checked exp gt
  exp_checked_lem b n h = rw (mod-eq_of_lt h) (guarded_up_to (b ^ n) (b ^ n) (λ _. refl))

  multiply_out_lem :
      (base power : ℕ) → 0 < base → multiply_out_unsigned top (base, power) ≡ up_to (power * base)
  unfolding multiply_out_unsigned mul
  multiply_out_lem zero power h = absurd (omega arith)
  multiply_out_lem (suc n) power h =
      rw (gt-div top power n)
        (guarded_up_to (power * suc n) (power * suc n % word_mod) (λ fits. omega arith))

  rounds_lem :
      (b n : ℕ)
      → 0 < n
      → n < word_mod
      → 0 < b
      → b ≤ top
      → (safe_exp_helper b n 1 top >>= multiply_out_unsigned top) ≡ up_to (b ^ n)
  unfolding safe_exp_helper
  rounds_lem b n hn hw hb ht =
      elim (exp_rounds-Ends false top small 256 n b 1 hn hw (omega arith) hb ht) [
        | inl f ↦
            rw
              (
                f.ends,
                multiply_out_lem f.base f.power (omega (arith, f.positive, f.below)),
                f.value,
                one-mul (b ^ n),
              )
              refl
        | inr o ↦ rw (o.ends, up_to_past (b ^ n) (omega (arith, o.past))) refl
      ]

  power_lt : (b n c m : ℕ) → b ≤ c → n ≤ m → 0 < c → c ^ m < word_mod → b ^ n < word_mod
  power_lt b n c m hb hn hc h = omega (arith, pow-le-pow_left hb n, pow-le-pow_right hc hn)

  small_power :
      (b n : ℕ) → (ltb b 11 && ltb n 78 || ltb b 307 && ltb n 32) ≡ true → b ^ n < word_mod
  small_power b n few = elim (Bool-cases (ltb b 11 && ltb n 78)) [
    | inl first ↦ power_lt b n 10 77 (ground arith) (ground arith) (omega arith) (omega arith)
    | inr other ↦ power_lt b n 306 31 (ground arith) (ground arith) (omega arith) (omega arith)
  ]

  large_lem :
      (b n : ℕ)
      → 0 < n
      → n < word_mod
      → 0 < b
      → b ≤ top
      → pow_unsigned_large b n top ≡ up_to (b ^ n)
  unfolding pow_unsigned_large lt sgt signed
  large_lem b n hn hw hb ht =
      rw
        (
          bitand-zero-gt,
          bitand-flag (ltb b 11) (ltb n 78),
          bitand-flag (ltb b 307) (ltb n 32),
          bitor-flag (ltb b 11 && ltb n 78) (ltb b 307 && ltb n 32),
        )
        (elim (Bool-cases (ltb b 11 && ltb n 78 || ltb b 307 && ltb n 32)) [
          | inl few ↦ rw few (exp_checked_lem b n (small_power b n few))
          | inr many ↦ rw many (rounds_lem b n hn hw hb ht)
        ])

  two_lem :
      (n : ℕ) → 2 ≤ top → revert_if (gt n 255) panic_overflow (exp_checked 2 n top) ≡ up_to (2 ^ n)
  unfolding gt
  two_lem n h = elim (Bool-cases (ltb 255 n)) [
    | inl past ↦
        rw
          (
            past,
            up_to_past (2 ^ n) (
                omega
                  (arith, pow-le-pow_right {n = 2} (omega arith) {i = 256} {j = n} (ground arith))),
          )
          refl
    | inr few ↦
        rw
          (
            few,
            exp_checked_lem 2 n (
                omega
                  (arith, pow-le-pow_right {n = 2} (omega arith) {i = n} {j = 255} (ground arith))),
          )
          refl
  ]

  pub safe_pow_unsigned_lem :
      (b n : ℕ) → 0 < top → n < word_mod → b ≤ top → safe_pow_unsigned b n top ≡ up_to (b ^ n)
  unfolding safe_pow_unsigned iszero
  safe_pow_unsigned_lem b zero ht hn hb = rw (pow-zero b, up_to_fits 1 ht) refl
  safe_pow_unsigned_lem zero (suc n) ht hn hb =
      rw (zero-pow (suc n) (omega arith), up_to_fits 0 (omega arith), suc-eq_zero n) refl
  safe_pow_unsigned_lem (suc zero) (suc n) ht hn hb =
      rw (one-pow (suc n), up_to_fits 1 ht, suc-eq_zero n) refl
  safe_pow_unsigned_lem (suc (suc zero)) (suc n) ht hn hb = rw (suc-eq_zero n) (two_lem (suc n) hb)
  safe_pow_unsigned_lem (suc (suc (suc b))) (suc n) ht hn hb =
      let one : (suc (suc (suc b)) == 1) ≡ false = ground arith in
      let two : (suc (suc (suc b)) == 2) ≡ false = ground arith in
      rw (suc-eq_zero n, suc-eq_zero (suc (suc b)), one, two)
        (large_lem (suc (suc (suc b))) (suc n) (omega arith) hn (omega arith) hb)
