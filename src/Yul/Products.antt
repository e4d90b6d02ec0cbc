-- ===== src/Yul/Products.antt =====
-- Products, quotients and remainders of words as those of the integers that they stand for.
use Prim.Native.Nat.{◌^◌, ◌%◌, ◌/◌}
use native.Mathlib.Nat.{
  div-lt_iff_lt-mul, sub-zero, zero-mod, mul-zero, mod_self, mul_comm, add-mul-mod_self_right,
}
use fe.Prelude.{false, ◌≢◌, ◌==◌, zero, ℕ, suc, ◌+◌, ◌-◌, ◌*◌, ◌<◌, ◌≤◌, ◌≡◌, refl, arith, ltb}
use fe.Prelude.Int.{ℤ, pos, negsuc, neg_ℕ, ◌*ℤ◌, quot_ℤ, rem_ℤ}
use fe.Yul.{word_mod, word, mul, div, sdiv, smod, gt, flag}
use fe.Yul.Signed.{IsSmall, IsWide, signed-word}

pub pos-mul-pos : (m n : ℕ) → pos m *ℤ pos n ≡ pos (m * n)
pos-mul-pos m n = ground arith

pub pos-mul-neg : (m n : ℕ) → pos m *ℤ negsuc n ≡ neg_ℕ (m * suc n)
pos-mul-neg m n = ground arith

pub neg-mul-pos : (m n : ℕ) → negsuc m *ℤ pos n ≡ neg_ℕ (suc m * n)
neg-mul-pos m n = ground arith

pub neg-mul-neg : (m n : ℕ) → negsuc m *ℤ negsuc n ≡ pos (suc m * suc n)
neg-mul-neg m n = ground arith

pub word-pos : (n : ℕ) → n < word_mod → word (pos n) ≡ n
unfolding word
word-pos n h = omega arith

pub word-negsuc : (n : ℕ) → n < word_mod → word (negsuc n) ≡ word_mod - 1 - n
unfolding word
word-negsuc n h = omega arith

pub word-neg_ℕ : (n : ℕ) → n ≤ word_mod → word (neg_ℕ n) ≡ (word_mod - n) % word_mod
unfolding word
word-neg_ℕ n h = ground arith

-- (k - m) * n and (k - m) * (k - n), modulo k.
left_negated : (k m j p : ℕ) → m + p ≡ k → m * suc j ≤ k → p * suc j ≡ (k - m * suc j) + j * k
left_negated k m j p e le = grind arith

both_negated : (m n r : ℕ) → (n + r) * (m + r) ≡ m * n + r * (m + n + r)
both_negated m n r = grind arith

pub mul_mod_left_negated : (k m n : ℕ) → m * n ≤ k → m ≤ k → (k - m) * n % k ≡ (k - m * n) % k
mul_mod_left_negated k m zero le le' =
    rw (mul-zero (k - m), mul-zero m, sub-zero k, mod_self k) (zero-mod k)
mul_mod_left_negated k m (suc j) le le' =
    rw (left_negated k m j (k - m) (omega arith) le) (add-mul-mod_self_right (k - m * suc j) j k)

mul_mod_both_negated : (m n r k : ℕ) → m + n + r ≡ k → (k - m) * (k - n) % k ≡ m * n % k
mul_mod_both_negated m n r k e =
    let p : k - m ≡ n + r = omega arith in
    let q : k - n ≡ m + r = omega arith in
    rw (p, q, both_negated m n r, e) (add-mul-mod_self_right (m * n) r k)

neg_ℕ_le : (k : ℕ) → IsWide (neg_ℕ k) → k ≤ 2 ^ 255
neg_ℕ_le k h = ground arith

pub mul-word :
    (a b : ℤ) → IsSmall a → IsSmall b → IsWide (a *ℤ b) → mul (word a) (word b) ≡ word (a *ℤ b)
unfolding mul
mul-word (pos m) (pos n) p q r =
    rw (pos-mul-pos m n, word-pos m (omega arith), word-pos n (omega arith)) (unfold word in refl)
mul-word (pos m) (negsuc n) p q r =
    let le : m * suc n ≤ 2 ^ 255 = neg_ℕ_le (m * suc n) (rw (pos-mul-neg m n) at r) in
    let e : word_mod - 1 - n ≡ word_mod - suc n = omega arith in
    rw
      (
        pos-mul-neg m n,
        word-pos m (omega arith),
        word-negsuc n (omega arith),
        word-neg_ℕ (m * suc n) (omega arith),
        e,
        mul_comm m (word_mod - suc n),
        mul_comm m (suc n),
      )
      (mul_mod_left_negated word_mod (suc n) m (omega (arith, mul_comm m (suc n))) (omega arith))
mul-word (negsuc m) (pos n) p q r =
    let le : suc m * n ≤ 2 ^ 255 = neg_ℕ_le (suc m * n) (rw (neg-mul-pos m n) at r) in
    let e : word_mod - 1 - m ≡ word_mod - suc m = omega arith in
    rw
      (
        neg-mul-pos m n,
        word-pos n (omega arith),
        word-negsuc m (omega arith),
        word-neg_ℕ (suc m * n) (omega arith),
        e,
      )
      (mul_mod_left_negated word_mod (suc m) n (omega arith) (omega arith))
mul-word (negsuc m) (negsuc n) p q r =
    let d : word_mod - 1 - m ≡ word_mod - suc m = omega arith in
    let e : word_mod - 1 - n ≡ word_mod - suc n = omega arith in
    rw (neg-mul-neg m n, word-negsuc m (omega arith), word-negsuc n (omega arith), d, e)
      (unfold word in
        mul_mod_both_negated (suc m) (suc n) (word_mod - (suc m + suc n)) word_mod (omega arith))

pub word-ne_zero : (b : ℤ) → IsSmall b → b ≢ pos 0 → (word b == 0) ≡ false
unfolding word
word-ne_zero (pos zero) h ne = absurd (ne refl)
word-ne_zero (pos (suc n)) h ne = ground arith
word-ne_zero (negsuc n) h ne = ground arith

module _ (a b : ℤ) (small_a : IsSmall a) (small_b : IsSmall b) (ne : b ≢ pos 0) where
  pub sdiv-word : sdiv (word a) (word b) ≡ word (quot_ℤ a b)
  unfolding sdiv
  sdiv-word = rw (word-ne_zero b small_b ne, signed-word a small_a, signed-word b small_b) refl

  pub smod-word : smod (word a) (word b) ≡ word (rem_ℤ a b)
  unfolding smod
  smod-word = rw (word-ne_zero b small_b ne, signed-word a small_a, signed-word b small_b) refl

-- The quotient of a bound tells whether a product passes it.
pub lt-div_test : (k m n : ℕ) → ltb (k / suc n) m ≡ ltb k (m * suc n)
lt-div_test k m n =
    let (there, back) = div-lt_iff_lt-mul {k = suc n} {x = k} {y = m} (omega arith) in ground arith

pub gt-div : (top m n : ℕ) → gt m (div top (suc n)) ≡ flag (ltb top (m * suc n))
unfolding gt div
gt-div top m n = rw (← lt-div_test top m n) (ground arith)
