-- ===== src/Yul.antt =====
-- The words and instructions of the Ethereum virtual machine that the Yul functions written by
-- crates/codegen/src/yul/runtime/safe_math.rs use. A word is a number below 2 ^ 256; the signed
-- instructions read it in two's complement, and a comparison gives 1 or 0.
pub mod Bits
pub mod Signed
pub mod Products
use Prim.Native.Nat.{◌/◌, ◌%◌, ◌^◌, bit_and, bit_or}
use fe.Prelude.{ℕ, suc, ◌+◌, ◌-◌, ◌*◌, Bool, true, false, ltb, ◌==◌, if◌then◌else◌}
use fe.Prelude.Int.{ℤ, pos, negsuc, ltb_ℤ, quot_ℤ, rem_ℤ}

abbrev pub word_mod : ℕ
word_mod = 2 ^ 256

-- The integer that a word stands for in two's complement.
unfoldable pub signed : ℕ → ℤ
signed w = if ltb w (2 ^ 255) then pos w else negsuc (word_mod - 1 - w)

-- The word of an integer.
unfoldable pub word : ℤ → ℕ
word (pos n) = n % word_mod
word (negsuc n) = word_mod - 1 - n % word_mod

abbrev pub flag : Bool → ℕ
flag true = 1
flag false = 0

unfoldable pub add : ℕ → ℕ → ℕ
add a b = (a + b) % word_mod

unfoldable pub sub : ℕ → ℕ → ℕ
sub a b = (a + word_mod - b) % word_mod

unfoldable pub mul : ℕ → ℕ → ℕ
mul a b = a * b % word_mod

unfoldable pub div : ℕ → ℕ → ℕ
div a b = if b == 0 then 0 else a / b

unfoldable pub modulo : ℕ → ℕ → ℕ
modulo a b = if b == 0 then 0 else a % b

unfoldable pub sdiv : ℕ → ℕ → ℕ
unfolding word signed
sdiv a b = if b == 0 then 0 else word (quot_ℤ (signed a) (signed b))

unfoldable pub smod : ℕ → ℕ → ℕ
unfolding word signed
smod a b = if b == 0 then 0 else word (rem_ℤ (signed a) (signed b))

unfoldable pub exp : ℕ → ℕ → ℕ
exp a b = a ^ b % word_mod

unfoldable pub lt : ℕ → ℕ → ℕ
lt a b = flag (ltb a b)

unfoldable pub gt : ℕ → ℕ → ℕ
gt a b = flag (ltb b a)

unfoldable pub slt : ℕ → ℕ → ℕ
unfolding signed
slt a b = flag (ltb_ℤ (signed a) (signed b))

unfoldable pub sgt : ℕ → ℕ → ℕ
unfolding signed
sgt a b = flag (ltb_ℤ (signed b) (signed a))

unfoldable pub eq : ℕ → ℕ → ℕ
eq a b = flag (a == b)

unfoldable pub iszero : ℕ → ℕ
iszero a = flag (a == 0)

unfoldable pub bitand : ℕ → ℕ → ℕ
bitand a b = bit_and a b

unfoldable pub bitor : ℕ → ℕ → ℕ
bitor a b = bit_or a b

unfoldable pub shr : ℕ → ℕ → ℕ
shr k a = a / 2 ^ k

-- How a call ends: with a value, with a revert and the code of its `Panic(uint256)`, or, for a
-- loop, with no rounds left.
pub data Run {ℓ} (A : Type ℓ) : Type ℓ where
  gives : A → Run A
  reverts : ℕ → Run A
  out_of_rounds : Run A

infixl 5 ◌>>=◌
abbrev pub ◌>>=◌ {ℓ κ} : {A : Type ℓ} {B : Type κ} → Run A → (A → Run B) → Run B
gives a >>= f = f a
reverts c >>= f = reverts c
out_of_rounds >>= f = out_of_rounds

-- `if c { revert(code) }` before the rest of a function.
abbrev pub revert_if {ℓ} : {A : Type ℓ} → ℕ → ℕ → Run A → Run A
revert_if c code rest = if c == 0 then rest else reverts code
