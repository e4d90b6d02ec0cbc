-- ===== src/SafeMath/Products/Guards.antt =====
-- The guards of a checked product as comparisons of integers.
use Prim.Native.Nat.{◌^◌}
use fe.Prelude.{ℕ, suc, ◌*◌, ◌<◌, ◌≡◌, ◌≢◌, ◌≤◌, refl, false, not, ◌&&◌, arith, ltb}
use fe.Prelude.Int.{quot_ℤ, ℤ, pos, negsuc, neg_ℕ, leb_ℤ, ltb_ℤ}
use fe.Yul.{word, word_mod, div, sdiv, gt, flag, slt}
use fe.Yul.Signed.{slt-word, IsSmall, IsWide}
use fe.Yul.Products.{gt-div, sdiv-word, word-pos}

pub outside_pos :
    (top p : ℕ) → ltb top p ≡ not (leb_ℤ (negsuc top) (pos p) && leb_ℤ (pos p) (pos top))
outside_pos top p = ground arith

pub outside_neg :
    (top p : ℕ) → ltb (suc top) p ≡ not (leb_ℤ (negsuc top) (neg_ℕ p) && leb_ℤ (neg_ℕ p) (pos top))
outside_neg top p = ground arith

pub inside-IsWide :
    (top : ℕ) (z : ℤ)
    → top < 2 ^ 255
    → not (leb_ℤ (negsuc top) z && leb_ℤ z (pos top)) ≡ false
    → IsWide z
inside-IsWide top (pos n) small h = ground arith
inside-IsWide top (negsuc n) small h = ground arith

ltb_ℤ-neg_ℕ : (n q : ℕ) → ltb_ℤ (negsuc n) (neg_ℕ q) ≡ ltb q (suc n)
ltb_ℤ-neg_ℕ n q = ground arith

neg_ℕ-IsSmall : (q : ℕ) → q ≤ 2 ^ 255 → IsSmall (neg_ℕ q)
neg_ℕ-IsSmall q h = (ground arith, ground arith)

-- The guard of a negative operand against a quotient.
pub quotient_guard :
    (bound divisor : ℤ) (n q : ℕ)
    → IsSmall bound
    → IsSmall divisor
    → IsSmall (negsuc n)
    → divisor ≢ pos 0
    → quot_ℤ bound divisor ≡ neg_ℕ q
    → q ≤ 2 ^ 255
    → slt (word (negsuc n)) (sdiv (word bound) (word divisor)) ≡ flag (ltb q (suc n))
quotient_guard bound divisor n q small_bound small_divisor small_n ne e le =
    rw
      (
        sdiv-word bound divisor small_bound small_divisor ne,
        e,
        slt-word (negsuc n) (neg_ℕ q) small_n (neg_ℕ-IsSmall q le),
        ltb_ℤ-neg_ℕ n q,
      )
      refl

pub gt-div-word :
    (top m n : ℕ)
    → top < word_mod
    → m < word_mod
    → suc n < word_mod
    → gt (word (pos m)) (div (word (pos top)) (word (pos (suc n)))) ≡ flag (ltb top (m * suc n))
gt-div-word top m n ht hm hn =
    rw (word-pos m hm, word-pos top ht, word-pos (suc n) hn) (gt-div top m n)
