-- ===== src/SafeMath/Bounds.antt =====
-- What the checked operations promise, and the bounds that the dispatchers pass.
use Prim.Native.Nat.{◌^◌}
use fe.Prelude.{ℕ, ◌-◌, ◌<◌, ◌≡◌, refl, Bool, true, false, not, ◌&&◌, arith, if◌then◌else◌}
use fe.Prelude.Int.{ℤ, pos, negsuc, leb_ℤ, ◌≤ℤ◌}
use fe.Types.{Integer, u256, u128, u64, u32, u16, u8, i256, i128, i64, i32, i16, i8}
use fe.Integer.{is_signed, max_value, min_value}
use fe.Integer.Ranges.{InRange}
use fe.Yul.{Run, gives, reverts, revert_if, flag, word, word_mod}
use fe.Yul.Signed.{IsSmall}
use fe.SafeMath.{get_max_value, get_min_value, panic_overflow}

-- The word of an integer between two bounds, and a revert for any other.
unfoldable pub between : ℤ → ℤ → ℤ → Run ℕ
between low high z = if leb_ℤ low z && leb_ℤ z high then gives (word z) else reverts panic_overflow

-- The word of an integer of the type's range, and a revert for any other.
unfoldable pub checked : Integer → ℤ → Run ℕ
unfolding between
checked ty z = between (min_value ty) (max_value ty) z

-- The words passed for a signed type are those of its least and its greatest value.
pub record SignedBounds (ty : Integer) : Type 0 where
  pub top : ℕ
  pub wide : 0 < top
  pub small : top < 2 ^ 255
  pub max_word : get_max_value ty ≡ word (pos top)
  pub min_word : get_min_value ty ≡ word (negsuc top)
  pub greatest : max_value ty ≡ pos top
  pub least : min_value ty ≡ negsuc top

pub record UnsignedBounds (ty : Integer) : Type 0 where
  pub top : ℕ
  pub wide : 0 < top
  pub small : top < word_mod
  pub max_word : get_max_value ty ≡ word (pos top)
  pub greatest : max_value ty ≡ pos top
  pub least : min_value ty ≡ pos 0

pub signed_bounds : (ty : Integer) → is_signed ty ≡ true → SignedBounds ty
unfolding is_signed get_max_value get_min_value max_value min_value word
signed_bounds i8 h = record {
  top = 0x7f;
  wide = omega arith;
  small = omega arith;
  max_word = refl;
  min_word = refl;
  greatest = refl;
  least = refl;
}
signed_bounds i16 h = record {
  top = 0x7fff;
  wide = omega arith;
  small = omega arith;
  max_word = refl;
  min_word = refl;
  greatest = refl;
  least = refl;
}
signed_bounds i32 h = record {
  top = 0x7fffffff;
  wide = omega arith;
  small = omega arith;
  max_word = refl;
  min_word = refl;
  greatest = refl;
  least = refl;
}
signed_bounds i64 h = record {
  top = 0x7fffffffffffffff;
  wide = omega arith;
  small = omega arith;
  max_word = refl;
  min_word = refl;
  greatest = refl;
  least = refl;
}
signed_bounds i128 h = record {
  top = 2 ^ 127 - 1;
  wide = omega arith;
  small = omega arith;
  max_word = refl;
  min_word = refl;
  greatest = refl;
  least = refl;
}
signed_bounds i256 h = record {
  top = 2 ^ 255 - 1;
  wide = omega arith;
  small = omega arith;
  max_word = refl;
  min_word = refl;
  greatest = refl;
  least = refl;
}
signed_bounds u8 h = absurd (cc)
signed_bounds u16 h = absurd (cc)
signed_bounds u32 h = absurd (cc)
signed_bounds u64 h = absurd (cc)
signed_bounds u128 h = absurd (cc)
signed_bounds u256 h = absurd (cc)

pub unsigned_bounds : (ty : Integer) → is_signed ty ≡ false → UnsignedBounds ty
unfolding is_signed get_max_value max_value min_value word
unsigned_bounds u8 h = record {
  top = 0xff;
  wide = omega arith;
  small = omega arith;
  max_word = refl;
  greatest = refl;
  least = refl;
}
unsigned_bounds u16 h = record {
  top = 0xffff;
  wide = omega arith;
  small = omega arith;
  max_word = refl;
  greatest = refl;
  least = refl;
}
unsigned_bounds u32 h = record {
  top = 0xffffffff;
  wide = omega arith;
  small = omega arith;
  max_word = refl;
  greatest = refl;
  least = refl;
}
unsigned_bounds u64 h = record {
  top = 0xffffffffffffffff;
  wide = omega arith;
  small = omega arith;
  max_word = refl;
  greatest = refl;
  least = refl;
}
unsigned_bounds u128 h = record {
  top = 2 ^ 128 - 1;
  wide = omega arith;
  small = omega arith;
  max_word = refl;
  greatest = refl;
  least = refl;
}
unsigned_bounds u256 h = record {
  top = 2 ^ 256 - 1;
  wide = omega arith;
  small = omega arith;
  max_word = refl;
  greatest = refl;
  least = refl;
}
unsigned_bounds i8 h = absurd (cc)
unsigned_bounds i16 h = absurd (cc)
unsigned_bounds i32 h = absurd (cc)
unsigned_bounds i64 h = absurd (cc)
unsigned_bounds i128 h = absurd (cc)
unsigned_bounds i256 h = absurd (cc)

-- A guard that holds just where the value leaves the bounds.
pub revert_if-between :
    (c : Bool) (low high z : ℤ) (w : ℕ)
    → c ≡ not (leb_ℤ low z && leb_ℤ z high)
    → (c ≡ false → w ≡ word z)
    → revert_if (flag c) panic_overflow (gives w) ≡ between low high z
unfolding between
revert_if-between true low high z w outside same = ground arith
revert_if-between false low high z w outside same = ground (arith, same refl)

abbrev pub Within : ℤ → ℤ → ℤ → Type 0
Within low high z = (low ≤ℤ z) × (z ≤ℤ high)

pub signed-Within :
    {ty : Integer} (z : ℤ) (k : SignedBounds ty)
    → InRange ty z
    → Within (negsuc k.top) (pos k.top) z
signed-Within z k (low, high) = (rw k.least at low, rw k.greatest at high)

pub unsigned-Within :
    {ty : Integer} (z : ℤ) (k : UnsignedBounds ty) → InRange ty z → Within (pos 0) (pos k.top) z
unsigned-Within z k (low, high) = (rw k.least at low, rw k.greatest at high)

pub Within-IsSmall : {top : ℕ} (a : ℤ) → top < 2 ^ 255 → Within (negsuc top) (pos top) a → IsSmall a
Within-IsSmall (pos n) small (low, high) = (omega arith, omega arith)
Within-IsSmall (negsuc n) small (low, high) = (omega arith, omega arith)
