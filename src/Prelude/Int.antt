-- ===== src/Prelude/Int.antt =====
-- Signed integers over the native numbers: what the scores of columns and the ranges of the integer
-- types need. `negsuc n` is -(n + 1).
use Prim.Native.Nat.{◌/◌, ◌%◌}
use fe.Prelude.{zero, ◌*◌, ◌==◌, false, ℕ, suc, ◌+◌, ◌-◌, ◌≤◌, Bool, ltb, leb, if◌then◌else◌}

pub data ℤ : Type 0 where
  pos : ℕ → ℤ
  negsuc : ℕ → ℤ

abbrev pub pos_part : ℤ → ℕ
pos_part (pos n) = n
pos_part (negsuc n) = 0

abbrev pub neg_part : ℤ → ℕ
neg_part (pos n) = 0
neg_part (negsuc n) = suc n

-- a - b, as an integer.
abbrev pub sub_ℕ : ℕ → ℕ → ℤ
sub_ℕ a b = if leb b a then pos (a - b) else negsuc (b - a - 1)

-- -n, as an integer.
abbrev pub neg_ℕ : ℕ → ℤ
neg_ℕ n = sub_ℕ 0 n

abbrev pub ltb_ℤ : ℤ → ℤ → Bool
ltb_ℤ a b = ltb (pos_part a + neg_part b) (pos_part b + neg_part a)

abbrev pub leb_ℤ : ℤ → ℤ → Bool
leb_ℤ a b = leb (pos_part a + neg_part b) (pos_part b + neg_part a)

infixl 65 ◌+ℤ◌
infix 50 ◌≤ℤ◌
abbrev pub ◌+ℤ◌ : ℤ → ℤ → ℤ
a +ℤ b = sub_ℕ (pos_part a + pos_part b) (neg_part a + neg_part b)

abbrev pub ◌≤ℤ◌ : ℤ → ℤ → Type 0
a ≤ℤ b = pos_part a + neg_part b ≤ pos_part b + neg_part a

abbrev pub eq_ℤ : ℤ → ℤ → Bool
eq_ℤ (pos m) (pos n) = m == n
eq_ℤ (negsuc m) (negsuc n) = m == n
eq_ℤ _ _ = false

infixl 65 ◌-ℤ◌
infixl 70 ◌*ℤ◌
abbrev pub ◌-ℤ◌ : ℤ → ℤ → ℤ
a -ℤ b = sub_ℕ (pos_part a + neg_part b) (neg_part a + pos_part b)

abbrev pub ◌*ℤ◌ : ℤ → ℤ → ℤ
a *ℤ b =
    sub_ℕ (pos_part a * pos_part b + neg_part a * neg_part b)
      (pos_part a * neg_part b + neg_part a * pos_part b)

-- Division towards zero, and the remainder with the sign of the dividend.
abbrev pub quot_ℤ : ℤ → ℤ → ℤ
quot_ℤ (pos m) (pos n) = pos (m / n)
quot_ℤ (pos m) (negsuc n) = neg_ℕ (m / suc n)
quot_ℤ (negsuc m) (pos n) = neg_ℕ (suc m / n)
quot_ℤ (negsuc m) (negsuc n) = pos (suc m / suc n)

abbrev pub rem_ℤ : ℤ → ℤ → ℤ
rem_ℤ (pos m) (pos n) = pos (m % n)
rem_ℤ (pos m) (negsuc n) = pos (m % suc n)
rem_ℤ (negsuc m) (pos n) = neg_ℕ (suc m % n)
rem_ℤ (negsuc m) (negsuc n) = neg_ℕ (suc m % suc n)

-- a to the n-th.
unfoldable pub pow_ℤ : ℤ → ℕ → ℤ
pow_ℤ a zero = pos 1
pow_ℤ a (suc n) = a *ℤ pow_ℤ a n
