-- ===== src/SafeMath/Sums.antt =====
-- Checked sums and differences.
use Prim.Native.Nat.{◌^◌}
use fe.Prelude.{ℕ, ◌<◌, ◌≡◌, arith, Bool-cases, inl, inr}
use fe.Prelude.Int.{ℤ, pos, negsuc, ltb_ℤ, ◌+ℤ◌, ◌-ℤ◌}
use fe.Types.{Integer}
use fe.Integer.{is_signed}
use fe.Integer.Ranges.{InRange}
use fe.Yul.{word, word_mod, add, sub, gt, lt}
use fe.Yul.Signed.{
  bitand-zero-slt, bitand-zero-sgt, bitand-one, iszero-zero, iszero-one, IsSmall-IsWide, slt-zero,
  slt-word, sgt-word, add-word, sub-word, IsSmall, IsWide,
}
use fe.SafeMath.{
  safe_add_signed, safe_add_unsigned, safe_sub_signed, safe_sub_unsigned, dispatch_safe_add,
  dispatch_safe_sub,
}
use fe.SafeMath.Bounds.{
  Within, Within-IsSmall, signed-Within, unsigned-Within, revert_if-between, between, checked,
  signed_bounds, unsigned_bounds,
}

module _ {top : ℕ} (small : top < 2 ^ 255) (a b : ℤ) (in_a : Within (negsuc top) (pos top) a)
    (in_b : Within (negsuc top) (pos top) b) where
  IsSmall-left : IsSmall a
  IsSmall-left = Within-IsSmall a small in_a

  IsSmall-right : IsSmall b
  IsSmall-right = Within-IsSmall b small in_b

  add_same : IsWide (a +ℤ b) → add (word a) (word b) ≡ word (a +ℤ b)
  add_same = add-word a b (IsSmall-IsWide a IsSmall-left) (IsSmall-IsWide b IsSmall-right)

  sub_same : IsWide (a -ℤ b) → sub (word a) (word b) ≡ word (a -ℤ b)
  sub_same = sub-word a b (IsSmall-IsWide a IsSmall-left) (IsSmall-IsWide b IsSmall-right)

  add_signed-between :
      safe_add_signed (word a) (word b) (word (negsuc top)) (word (pos top))
      ≡ between (negsuc top) (pos top) (a +ℤ b)
  unfolding safe_add_signed
  add_signed-between = elim (Bool-cases (ltb_ℤ a (pos 0))) [
    | inl negative ↦
        rw
          (
            slt-zero a IsSmall-left,
            negative,
            iszero-one,
            bitand-zero-sgt,
            sub-word (negsuc top) a (omega arith, omega arith) (IsSmall-IsWide a IsSmall-left)
                (ground arith, ground arith),
            slt-word b (negsuc top -ℤ a) IsSmall-right (ground arith, ground arith),
            bitand-one,
          )
          (revert_if-between (ltb_ℤ b (negsuc top -ℤ a)) (negsuc top) (pos top) (a +ℤ b)
            (add (word a) (word b)) (ground arith) (λ e. add_same (ground arith, ground arith)))
    | inr other ↦
        rw
          (
            slt-zero a IsSmall-left,
            other,
            iszero-zero,
            bitand-zero-slt,
            sub-word (pos top) a (omega arith, omega arith) (IsSmall-IsWide a IsSmall-left)
                (ground arith, ground arith),
            sgt-word b (pos top -ℤ a) IsSmall-right (ground arith, ground arith),
            bitand-one,
          )
          (revert_if-between (ltb_ℤ (pos top -ℤ a) b) (negsuc top) (pos top) (a +ℤ b)
            (add (word a) (word b)) (ground arith) (λ e. add_same (ground arith, ground arith)))
  ]

  sub_signed-between :
      safe_sub_signed (word a) (word b) (word (negsuc top)) (word (pos top))
      ≡ between (negsuc top) (pos top) (a -ℤ b)
  unfolding safe_sub_signed
  sub_signed-between = elim (Bool-cases (ltb_ℤ b (pos 0))) [
    | inl negative ↦
        rw
          (
            slt-zero b IsSmall-right,
            negative,
            iszero-one,
            bitand-zero-slt,
            add-word (pos top) b (omega arith, omega arith) (IsSmall-IsWide b IsSmall-right)
                (ground arith, ground arith),
            sgt-word a (pos top +ℤ b) IsSmall-left (ground arith, ground arith),
            bitand-one,
          )
          (revert_if-between (ltb_ℤ (pos top +ℤ b) a) (negsuc top) (pos top) (a -ℤ b)
            (sub (word a) (word b)) (ground arith) (λ e. sub_same (ground arith, ground arith)))
    | inr other ↦
        rw
          (
            slt-zero b IsSmall-right,
            other,
            iszero-zero,
            bitand-zero-sgt,
            add-word (negsuc top) b (omega arith, omega arith) (IsSmall-IsWide b IsSmall-right)
                (ground arith, ground arith),
            slt-word a (negsuc top +ℤ b) IsSmall-left (ground arith, ground arith),
            bitand-one,
          )
          (revert_if-between (ltb_ℤ a (negsuc top +ℤ b)) (negsuc top) (pos top) (a -ℤ b)
            (sub (word a) (word b)) (ground arith) (λ e. sub_same (ground arith, ground arith)))
  ]

module _ {top : ℕ} (small : top < word_mod) (a b : ℤ) (in_a : Within (pos 0) (pos top) a)
    (in_b : Within (pos 0) (pos top) b) where
  add_unsigned-between :
      safe_add_unsigned (word a) (word b) (word (pos top)) ≡ between (pos 0) (pos top) (a +ℤ b)
  unfolding safe_add_unsigned between gt add sub word
  add_unsigned-between = ground arith

  sub_unsigned-between : safe_sub_unsigned (word a) (word b) ≡ between (pos 0) (pos top) (a -ℤ b)
  unfolding safe_sub_unsigned between lt sub word
  sub_unsigned-between = ground arith

dispatch_safe_add-checked :
    (ty : Integer) (a b : ℤ)
    → InRange ty a
    → InRange ty b
    → dispatch_safe_add (word a) (word b) ty ≡ checked ty (a +ℤ b)
unfolding dispatch_safe_add checked
dispatch_safe_add-checked ty a b in_a in_b = elim (Bool-cases (is_signed ty)) [
  | inl s ↦
      let k = signed_bounds ty s in
      rw (s, k.max_word, k.min_word, k.greatest, k.least)
        (add_signed-between k.small a b (signed-Within a k in_a) (signed-Within b k in_b))
  | inr u ↦
      let k = unsigned_bounds ty u in
      rw (u, k.max_word, k.greatest, k.least)
        (add_unsigned-between k.small a b (unsigned-Within a k in_a) (unsigned-Within b k in_b))
]

dispatch_safe_sub-checked :
    (ty : Integer) (a b : ℤ)
    → InRange ty a
    → InRange ty b
    → dispatch_safe_sub (word a) (word b) ty ≡ checked ty (a -ℤ b)
unfolding dispatch_safe_sub checked
dispatch_safe_sub-checked ty a b in_a in_b = elim (Bool-cases (is_signed ty)) [
  | inl s ↦
      let k = signed_bounds ty s in
      rw (s, k.max_word, k.min_word, k.greatest, k.least)
        (sub_signed-between k.small a b (signed-Within a k in_a) (signed-Within b k in_b))
  | inr u ↦
      let k = unsigned_bounds ty u in
      rw (u, k.greatest, k.least)
        (sub_unsigned-between k.small a b (unsigned-Within a k in_a) (unsigned-Within b k in_b))
]

-- For every integral type and two integers of its range, the checked sum and the checked
-- difference give the word of the integer sum and of the integer difference if it is in the range
-- of the type, and revert with the overflow panic otherwise.
pub sums-checked :
    (ty : Integer) (a b : ℤ)
    → InRange ty a
    → InRange ty b
    → (dispatch_safe_add (word a) (word b) ty ≡ checked ty (a +ℤ b))
      × (dispatch_safe_sub (word a) (word b) ty ≡ checked ty (a -ℤ b))
sums-checked ty a b in_a in_b =
    (dispatch_safe_add-checked ty a b in_a in_b, dispatch_safe_sub-checked ty a b in_a in_b)
