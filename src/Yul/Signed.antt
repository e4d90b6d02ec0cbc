-- ===== src/Yul/Signed.antt =====
-- Words as the integers that they stand for.
use Prim.Native.Nat.{◌^◌}
use fe.Prelude.{Bool, true, false, not, ◌&&◌, ℕ, ◌<◌, ◌≤◌, ◌≡◌, refl, arith}
use fe.Prelude.Int.{ℤ, pos, negsuc, pos_part, neg_part, ltb_ℤ, ◌+ℤ◌, ◌-ℤ◌}
use fe.Yul.{word_mod, signed, word, add, sub, slt, sgt, flag, bitand, iszero, gt}

-- An integer that a signed word can stand for.
abbrev pub IsSmall : ℤ → Type 0
IsSmall z = (pos_part z < 2 ^ 255) × (neg_part z ≤ 2 ^ 255)

-- An integer that a word can stand for, signed or not.
abbrev pub IsWide : ℤ → Type 0
IsWide z = (pos_part z < word_mod) × (neg_part z ≤ 2 ^ 255)

pub IsSmall-IsWide : (z : ℤ) → IsSmall z → IsWide z
IsSmall-IsWide z h = (omega (arith, h.0), h.1)

pub signed-word : (z : ℤ) → IsSmall z → signed (word z) ≡ z
unfolding signed word
signed-word (pos n) h = ground arith
signed-word (negsuc n) h = ground arith

pub slt-word : (a b : ℤ) → IsSmall a → IsSmall b → slt (word a) (word b) ≡ flag (ltb_ℤ a b)
unfolding slt
slt-word a b ha hb = rw (signed-word a ha, signed-word b hb) refl

pub sgt-word : (a b : ℤ) → IsSmall a → IsSmall b → sgt (word a) (word b) ≡ flag (ltb_ℤ b a)
unfolding sgt
sgt-word a b ha hb = rw (signed-word a ha, signed-word b hb) refl

pub add-word :
    (a b : ℤ) → IsWide a → IsWide b → IsWide (a +ℤ b) → add (word a) (word b) ≡ word (a +ℤ b)
unfolding add word
add-word a b ha hb h = ground arith

pub sub-word :
    (a b : ℤ) → IsWide a → IsWide b → IsWide (a -ℤ b) → sub (word a) (word b) ≡ word (a -ℤ b)
unfolding sub word
sub-word a b ha hb h = ground arith

pub slt-zero : (a : ℤ) → IsSmall a → slt (word a) 0 ≡ flag (ltb_ℤ a (pos 0))
unfolding word
slt-zero a ha = slt-word a (pos 0) ha (omega arith, omega arith)

pub sgt-zero : (a : ℤ) → IsSmall a → sgt (word a) 0 ≡ flag (ltb_ℤ (pos 0) a)
unfolding word
sgt-zero a ha = sgt-word a (pos 0) ha (omega arith, omega arith)

pub bitand-flag : (x y : Bool) → bitand (flag x) (flag y) ≡ flag (x && y)
unfolding bitand
bitand-flag true true = refl
bitand-flag true false = refl
bitand-flag false true = refl
bitand-flag false false = refl

pub iszero-flag : (x : Bool) → iszero (flag x) ≡ flag (not x)
unfolding iszero
iszero-flag true = refl
iszero-flag false = refl

-- A test whose first part fails, and one whose first part holds.
pub bitand-zero-slt : (a b : ℕ) → bitand 0 (slt a b) ≡ 0
unfolding slt
bitand-zero-slt a b = bitand-flag false _

pub bitand-zero-sgt : (a b : ℕ) → bitand 0 (sgt a b) ≡ 0
unfolding sgt
bitand-zero-sgt a b = bitand-flag false _

pub bitand-zero-gt : (a b : ℕ) → bitand 0 (gt a b) ≡ 0
unfolding gt
bitand-zero-gt a b = bitand-flag false _

pub bitand-one : (x : Bool) → bitand 1 (flag x) ≡ flag x
bitand-one x = bitand-flag true x

pub iszero-zero : iszero 0 ≡ 1
iszero-zero = iszero-flag false

pub iszero-one : iszero 1 ≡ 0
iszero-one = iszero-flag true
