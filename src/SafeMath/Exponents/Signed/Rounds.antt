-- ===== src/SafeMath/Exponents/Signed/Rounds.antt =====
-- The rounds of a checked signed power, and its last product, where the square of the base fits
-- and where it does not.
use Prim.Native.Nat.{◌^◌, ◌/◌, ◌%◌}
use native.Mathlib.Nat.{pow-suc, le_trans, mul-le-mul_left, mul-le-mul_right, mul_comm, one-mul}
use fe.Prelude.{
  ℕ, zero, suc, ◌-◌, ◌*◌, ◌<◌, ◌≤◌, ◌≡◌, ◌≢◌, ◌∙◌, refl, ap, Bool, true, false, ◌&&◌, arith, ◌==◌,
  Bool-cases, inl, inr,
}
use fe.Prelude.Powers.{square_le-pow, halved_even, halved_odd}
use fe.Prelude.Int.{ℤ, pos, negsuc, ◌*ℤ◌, pow_ℤ}
use fe.Yul.{Run, gives, reverts, ◌>>=◌, word_mod, word, mul, shr}
use fe.Yul.Bits.{bitand-low}
use fe.Yul.Signed.{IsSmall}
use fe.Yul.Products.{word-pos, word-negsuc, mul-word}
use fe.SafeMath.{panic_overflow}
use fe.SafeMath.Bounds.{Within, between}
use fe.SafeMath.Exponents.{safe_exp_helper, multiply_out_signed, pow_signed_rounds}
use fe.SafeMath.Exponents.Loop.{with_sign, Ends, exp_rounds-Ends, le-mul, square-ge_two}
use fe.SafeMath.Exponents.Sign.{integer, is_odd, multiply_out_pos, multiply_out_neg}

two_of_square : (c top : ℕ) → 0 < top → 0 < c → top < c * c → 2 ≤ c
two_of_square zero top ht hc large = absurd (omega arith)
two_of_square (suc zero) top ht hc large = absurd (omega arith)
two_of_square (suc (suc c)) top ht hc large = omega arith

pub square_word :
    (a : ℤ) (p : ℕ) → IsSmall a → a *ℤ a ≡ pos p → p < 2 ^ 255 → mul (word a) (word a) ≡ p
square_word a p h e lt =
    mul-word a a h h (rw e (omega arith, omega arith)) ∙ ap word e ∙ word-pos p (omega arith)

cube_le : (c n top : ℕ) → 0 < c → 2 ≤ n → n ≢ 2 → top < c * c → c * suc top ≤ c ^ n
cube_le c zero top hc two ne large = absurd (omega arith)
cube_le c (suc j) top hc two ne large =
    rw (pow-suc c j, mul_comm (c ^ j) c)
      (mul-le-mul_left c (le_trans large (square_le-pow c j hc (omega arith))))

-- The magnitude of an integer is below the bound, or once more than it.
module _ {top : ℕ} (small : top < 2 ^ 255) where
  abbrev held : ℤ → Run ℕ
  held z = between (negsuc top) (pos top) z

  multiply_out-integer :
      (s : Bool) (base power : ℕ)
      → 0 < power
      → power ≤ base
      → base ≤ top
      → multiply_out_signed (word (negsuc top)) top (base, with_sign s power)
        ≡ held (integer s (power * base))
  multiply_out-integer s zero power hp le fits = absurd (omega arith)
  multiply_out-integer s (suc q) zero hp le fits = absurd (omega arith)
  multiply_out-integer false (suc q) (suc p) hp le fits =
      rw
        (word-pos top (omega arith), word-pos (suc q) (omega arith), word-pos (suc p) (omega arith))
        at (multiply_out_pos small p q le fits)
  multiply_out-integer true (suc q) (suc p) hp le fits =
      let e : word_mod - 1 - p ≡ word_mod - suc p = omega arith in
      rw
        (word-pos top (omega arith), word-pos (suc q) (omega arith), word-negsuc p (omega arith), e)
        at (multiply_out_neg small p q le fits)

  past_held : (s : Bool) (p : ℕ) → suc top < p → held (integer s p) ≡ reverts panic_overflow
  unfolding between
  past_held true p h = ground arith
  past_held false p h = ground arith

  past_held_pos : (p : ℕ) → top < p → held (pos p) ≡ reverts panic_overflow
  unfolding between
  past_held_pos p h = ground arith

  pub fits_held : (z : ℤ) → Within (negsuc top) (pos top) z → held z ≡ gives (word z)
  unfolding between
  fits_held z (low, high) = ground arith

  -- Past the bound by its size, for a negative power once more than it.
  past :
      (s : Bool) (c p : ℕ)
      → (s ≡ true → 2 ≤ c)
      → 0 < c
      → c * suc top ≤ p
      → held (integer s p) ≡ reverts panic_overflow
  past true c p two hc le = past_held true p (omega (arith, mul-le-mul_right (suc top) (two refl)))
  past false c p two hc le = past_held_pos p (omega (arith, mul-le-mul_right (suc top) hc))

  finish :
      (run : Run (ℕ × ℕ)) (s : Bool) (m b e p : ℕ)
      → 0 < m
      → m * b ^ e ≡ p
      → (s ≡ true → 2 ≤ b → 2 ≤ m)
      → Ends run s m b e top
      → (run >>= multiply_out_signed (word (negsuc top)) top) ≡ held (integer s p)
  finish run s m b e p hm same two (inl f) =
      rw (f.ends, multiply_out-integer s f.base f.power f.positive f.below f.fits, f.value, same)
        refl
  finish run s m b e p hm same two (inr o) =
      rw (o.ends, past s m p (λ t. two t o.large) hm (rw same at o.past)) refl

  module _ (a : ℤ) (sa : Bool) (c n : ℕ) (wa : word a ≡ with_sign sa c)
      (pw : pow_ℤ a n ≡ integer (is_odd n && sa) (c ^ n)) (hc : 0 < c) (two : 2 ≤ n)
      (hn : n < word_mod) where
    pub rounds_lem :
        mul (word a) (word a) ≡ c * c
        → c * c ≤ top
        → pow_signed_rounds (word a) n (word (negsuc top)) (word (pos top)) ≡ held (pow_ℤ a n)
    unfolding pow_signed_rounds shr safe_exp_helper
    rounds_lem sq fits = elim (Bool-cases (n % 2 == 0)) [
      | inl even ↦
          rw (sq, bitand-low n, pw, word-pos top (omega arith), even)
            (finish _ false 1 (c * c) (n / 2) (c ^ n) (omega arith)
              (one-mul ((c * c) ^ (n / 2)) ∙ halved_even c n (ground arith)) (λ t _. cc)
              (exp_rounds-Ends false top (omega arith) 256 (n / 2) (c * c) 1 (omega arith)
                (omega arith) (omega arith) (le_trans hc (le-mul c c hc)) fits))
      | inr odd ↦
          rw (sq, bitand-low n, pw, word-pos top (omega arith), odd, wa)
            (finish _ sa c (c * c) (n / 2) (c ^ n) hc (halved_odd c n (ground arith))
              (λ t h. square-ge_two c h)
              (exp_rounds-Ends sa top (omega arith) 256 (n / 2) (c * c) c (omega arith)
                (omega arith) hc (le-mul c c hc) fits))
    ]

    pub past_lem : 0 < top → c ≤ suc top → top < c * c → held (pow_ℤ a n) ≡ reverts panic_overflow
    past_lem ht bound large = elim (Bool-cases (n % 2 == 0)) [
      | inl even ↦ rw (pw, even) (past_held_pos (c ^ n) (omega (arith, square_le-pow c n hc two)))
      | inr odd ↦
          rw (pw, odd)
            (past sa c (c ^ n) (λ _. two_of_square c top ht hc large) hc
              (cube_le c n top hc two (ground arith) large))
    ]
