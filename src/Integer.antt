-- ===== src/Integer.antt =====
-- The integer types of crates/analyzer/src/namespace/types.rs: their sizes, their ranges, and what
-- fits them. `BigInt` and its conversions belong to other crates: a `BigInt` is an integer, and the
-- conversions are the record `BigIntCasts`.
pub mod Ranges
use Prim.Native.Nat.{◌^◌}
use fe.Prelude.{
  ℕ, ◌+◌, ◌-◌, ◌*◌, ◌<◌, ◌≤◌, ◌≡◌, ◌↔◌, Bool, true, false, ◌&&◌, Option, none, some, leb,
}
use fe.Prelude.Int.{ℤ, pos, negsuc, pos_part, neg_part, neg_ℕ, leb_ℤ}
use fe.Types.{Integer, u256, u128, u64, u32, u16, u8, i256, i128, i64, i32, i16, i8}

abbrev pub u256_min : ℤ
u256_min = pos 0

abbrev pub u256_max : ℤ
u256_max = pos (2 ^ 256 - 1)

abbrev pub i256_max : ℤ
i256_max = pos (2 ^ 255 - 1)

abbrev pub i256_min : ℤ
i256_min = neg_ℕ (2 ^ 255)

abbrev pub address_max : ℤ
address_max = pos (2 ^ 160 - 1)

unfoldable pub is_signed : Integer → Bool
is_signed i256 = true
is_signed i128 = true
is_signed i64 = true
is_signed i32 = true
is_signed i16 = true
is_signed i8 = true
is_signed _ = false

unfoldable pub size : Integer → ℕ
size u256 = 32
size i256 = 32
size u128 = 16
size i128 = 16
size u64 = 8
size i64 = 8
size u32 = 4
size i32 = 4
size u16 = 2
size i16 = 2
size u8 = 1
size i8 = 1

unfoldable pub bits : Integer → ℕ
unfolding size
bits i = size i * 8

unfoldable pub can_hold : Integer → Integer → Bool
unfolding size
can_hold i other = leb (size other) (size i)

-- `ToPrimitive` of num_traits for `BigInt`: `to_u8` is `to_unsigned 8`, `to_i8` is `to_signed 8`,
-- and so on; `to_usize` is `to_unsigned 64`.
pub record BigIntCasts : Type 0 where
  pub to_unsigned : ℕ → ℤ → Option ℕ
  pub to_signed : ℕ → ℤ → Option ℤ

-- What they document: the same number, if the width has it.
pub record CastsLaws (casts : BigIntCasts) : Type 0 where
  pub to_unsigned_some :
      (w : ℕ) (z : ℤ) (n : ℕ) → (casts.to_unsigned w z ≡ some n) ↔ ((z ≡ pos n) × (n < 2 ^ w))
  pub to_signed_some :
      (w : ℕ) (z y : ℤ)
      → (casts.to_signed w z ≡ some y)
        ↔ ((z ≡ y) × (pos_part y < 2 ^ (w - 1)) × (neg_part y ≤ 2 ^ (w - 1)))

abbrev pub is_some {ℓ} : {A : Type ℓ} → Option A → Bool
is_some none = false
is_some (some a) = true

unfoldable pub fits : BigIntCasts → Integer → ℤ → Bool
fits casts u8 num = is_some (casts.to_unsigned 8 num)
fits casts u16 num = is_some (casts.to_unsigned 16 num)
fits casts u32 num = is_some (casts.to_unsigned 32 num)
fits casts u64 num = is_some (casts.to_unsigned 64 num)
fits casts u128 num = is_some (casts.to_unsigned 128 num)
fits casts i8 num = is_some (casts.to_signed 8 num)
fits casts i16 num = is_some (casts.to_signed 16 num)
fits casts i32 num = is_some (casts.to_signed 32 num)
fits casts i64 num = is_some (casts.to_signed 64 num)
fits casts i128 num = is_some (casts.to_signed 128 num)
fits casts u256 num = leb_ℤ u256_min num && leb_ℤ num u256_max
fits casts i256 num = leb_ℤ i256_min num && leb_ℤ num i256_max

unfoldable pub max_value : Integer → ℤ
max_value u256 = u256_max
max_value u128 = pos 340282366920938463463374607431768211455
max_value u64 = pos 18446744073709551615
max_value u32 = pos 4294967295
max_value u16 = pos 65535
max_value u8 = pos 255
max_value i256 = i256_max
max_value i128 = pos 170141183460469231731687303715884105727
max_value i64 = pos 9223372036854775807
max_value i32 = pos 2147483647
max_value i16 = pos 32767
max_value i8 = pos 127

unfoldable pub min_value : Integer → ℤ
min_value u256 = u256_min
min_value u128 = pos 0
min_value u64 = pos 0
min_value u32 = pos 0
min_value u16 = pos 0
min_value u8 = pos 0
min_value i256 = i256_min
min_value i128 = neg_ℕ 170141183460469231731687303715884105728
min_value i64 = neg_ℕ 9223372036854775808
min_value i32 = neg_ℕ 2147483648
min_value i16 = neg_ℕ 32768
min_value i8 = neg_ℕ 128
