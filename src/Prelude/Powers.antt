-- ===== src/Prelude/Powers.antt =====
-- Powers of native numbers, by squaring.
use Prim.Native.Nat.{zero, suc, ◌+◌, ◌*◌, ◌^◌, ◌≤◌, ◌<◌, ℕ, ◌/◌, ◌%◌}
use mathlib.Core.Path.{◌≡◌, refl, ap, ◌∙◌}
use native.Mathlib.Omega.{arith}
use native.Mathlib.Nat.{add-suc, add-zero, pow-zero, pow-suc, pow-le-pow_right}

pub pow_add : (b i j : ℕ) → b ^ (i + j) ≡ b ^ i * b ^ j
pow_add b i zero = rw (pow-zero b, add-zero i) (omega arith)
pow_add b i (suc j) = rw (add-suc i j, pow-suc b (i + j), pow-suc b j, pow_add b i j) (grind arith)

pub square_pow : (b q : ℕ) → (b * b) ^ q ≡ b ^ (q + q)
square_pow b zero = rw (pow-zero (b * b), pow-zero b) refl
square_pow b (suc q) =
    let d : suc q + suc q ≡ suc (suc (q + q)) = omega arith in
    rw (pow-suc (b * b) q, square_pow b q, d, pow-suc b (suc (q + q)), pow-suc b (q + q))
      (grind arith)

-- One round of binary exponentiation keeps the value.
pub halved_even : (b e : ℕ) → e % 2 ≡ 0 → (b * b) ^ (e / 2) ≡ b ^ e
halved_even b e h =
    let d : e / 2 + e / 2 ≡ e = omega arith in square_pow b (e / 2) ∙ ap (λ k. b ^ k) d

square_step : (b q : ℕ) → b * (b * b) ^ q ≡ b ^ suc (q + q)
square_step b q = rw (square_pow b q, pow-suc b (q + q)) (grind arith)

pub halved_odd : (b e : ℕ) → e % 2 ≡ 1 → b * (b * b) ^ (e / 2) ≡ b ^ e
halved_odd b e h =
    let d : suc (e / 2 + e / 2) ≡ e = omega arith in square_step b (e / 2) ∙ ap (λ k. b ^ k) d

pub pow-one : (b : ℕ) → b ^ 1 ≡ b
pow-one b = pow-suc b 0 ∙ rw (pow-zero b) (omega arith)

pub square_le-pow : (b e : ℕ) → 0 < b → 2 ≤ e → b * b ≤ b ^ e
square_le-pow b e h g =
    let two : b ^ 2 ≡ b * b = pow-suc b 1 ∙ rw (pow-one b) refl in rw (← two) (pow-le-pow_right h g)

pub one-pow : (n : ℕ) → 1 ^ n ≡ 1
one-pow zero = pow-zero 1
one-pow (suc n) = pow-suc 1 n ∙ rw (one-pow n) refl

pub zero-pow : (n : ℕ) → 0 < n → 0 ^ n ≡ 0
zero-pow zero h = absurd (omega arith)
zero-pow (suc n) h = pow-suc 0 n ∙ omega arith
