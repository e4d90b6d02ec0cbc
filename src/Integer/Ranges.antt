-- ===== src/Integer/Ranges.antt =====
-- The ranges of the integer types.
use Prim.Native.Nat.{◌^◌}
use native.Mathlib.Nat.{pow-le-pow_right}
use fe.Prelude.{
  ℕ, suc, ◌-◌, ◌<◌, ◌≤◌, ◌≡◌, refl, sym, ◌∙◌, ◌↔◌, Bool, true, false, ◌&&◌, arith, if◌then◌else◌,
  Option-cases, Bool-cases, inl, inr,
}
use fe.Prelude.Int.{ℤ, pos, negsuc, pos_part, neg_part, neg_ℕ, leb_ℤ, ◌≤ℤ◌}
use fe.Types.{Integer, u256, u128, u64, u32, u16, u8, i256, i128, i64, i32, i16, i8}
use fe.Integer.{
  BigIntCasts, CastsLaws, is_some, fits, max_value, min_value, size, bits, is_signed, can_hold,
  u256_min, u256_max, i256_min, i256_max,
}

-- Between the least and the greatest value of the type.
abbrev pub InRange : Integer → ℤ → Type 0
InRange i z = (min_value i ≤ℤ z) × (z ≤ℤ max_value i)

unsigned_some :
    (casts : BigIntCasts) (w : ℕ) (z : ℤ)
    → CastsLaws casts
    → (is_some (casts.to_unsigned w z) ≡ true) ↔ ((neg_part z ≡ 0) × (pos_part z < 2 ^ w))
unsigned_some casts w z laws = (there, back z)
  where
    there : is_some (casts.to_unsigned w z) ≡ true → (neg_part z ≡ 0) × (pos_part z < 2 ^ w)
    there h = elim (Option-cases (casts.to_unsigned w z)) [
      | inl e ↦ cc
      | inr (n, e) ↦ let (same, lt) = (laws.to_unsigned_some w z n).0 e in rw same (refl, lt)
    ]

    back :
        (z : ℤ) → (neg_part z ≡ 0) × (pos_part z < 2 ^ w) → is_some (casts.to_unsigned w z) ≡ true
    back (pos n) h = rw ((laws.to_unsigned_some w (pos n) n).1 (refl, h.1)) refl
    back (negsuc n) h = absurd (omega (arith, h.0))

signed_some :
    (casts : BigIntCasts) (w : ℕ) (z : ℤ)
    → CastsLaws casts
    → (is_some (casts.to_signed w z) ≡ true)
      ↔ ((pos_part z < 2 ^ (w - 1)) × (neg_part z ≤ 2 ^ (w - 1)))
signed_some casts w z laws = (there, back)
  where
    there :
        is_some (casts.to_signed w z) ≡ true
        → (pos_part z < 2 ^ (w - 1)) × (neg_part z ≤ 2 ^ (w - 1))
    there h = elim (Option-cases (casts.to_signed w z)) [
      | inl e ↦ cc
      | inr (y, e) ↦ let (same, lt, le) = (laws.to_signed_some w z y).0 e in rw same (lt, le)
    ]

    back :
        (pos_part z < 2 ^ (w - 1)) × (neg_part z ≤ 2 ^ (w - 1))
        → is_some (casts.to_signed w z) ≡ true
    back h = rw ((laws.to_signed_some w z z).1 (refl, h.0, h.1)) refl

unsigned_range :
    (z : ℤ) (n m : ℕ)
    → n ≡ suc m
    → ((neg_part z ≡ 0) × (pos_part z < n)) ↔ ((pos 0 ≤ℤ z) × (z ≤ℤ pos m))
unsigned_range (pos k) n m e = (λ h. (omega arith, omega arith), λ h. (refl, omega arith))
unsigned_range (negsuc k) n m e =
    (λ h. absurd (omega (arith, h.0)), λ h. absurd (omega (arith, h.0)))

signed_range :
    (z low : ℤ) (n m : ℕ)
    → n ≡ suc m
    → pos_part low ≡ 0
    → neg_part low ≡ n
    → ((pos_part z < n) × (neg_part z ≤ n)) ↔ ((low ≤ℤ z) × (z ≤ℤ pos m))
signed_range (pos k) low n m e p q =
    (λ h. (omega arith, omega arith), λ h. (omega arith, omega arith))
signed_range (negsuc k) low n m e p q =
    (λ h. (omega arith, omega arith), λ h. (omega arith, omega arith))

both_leb : (low z high : ℤ) → ((leb_ℤ low z && leb_ℤ z high) ≡ true) ↔ ((low ≤ℤ z) × (z ≤ℤ high))
both_leb low z high = (λ h. (ground arith, ground arith), λ h. ground arith)

module _ (casts : BigIntCasts) (laws : CastsLaws casts) (z : ℤ) where
  unsigned-FitsRange :
      (w m : ℕ)
      → 2 ^ w ≡ suc m
      → (is_some (casts.to_unsigned w z) ≡ true) ↔ ((pos 0 ≤ℤ z) × (z ≤ℤ pos m))
  unsigned-FitsRange w m e =
      let (there, back) = unsigned_some casts w z laws in
      let (into, from) = unsigned_range z (2 ^ w) m e in (λ h. into (there h), λ h. back (from h))

  signed-FitsRange :
      (w m : ℕ) (low : ℤ)
      → 2 ^ (w - 1) ≡ suc m
      → pos_part low ≡ 0
      → neg_part low ≡ suc m
      → (is_some (casts.to_signed w z) ≡ true) ↔ ((low ≤ℤ z) × (z ≤ℤ pos m))
  signed-FitsRange w m low e p q =
      let (there, back) = signed_some casts w z laws in
      let (into, from) = signed_range z low (2 ^ (w - 1)) m e p (q ∙ sym e) in
      (λ h. into (there h), λ h. back (from h))

-- Where the integer conversions keep their contract, `fits` accepts exactly the numbers between
-- the least and the greatest value of the integer type.
pub fits_iff :
    (casts : BigIntCasts) (i : Integer) (z : ℤ)
    → CastsLaws casts
    → (fits casts i z ≡ true) ↔ InRange i z
unfolding fits max_value min_value
fits_iff casts u8 z laws = unsigned-FitsRange casts laws z 8 255 refl
fits_iff casts u16 z laws = unsigned-FitsRange casts laws z 16 65535 refl
fits_iff casts u32 z laws = unsigned-FitsRange casts laws z 32 4294967295 refl
fits_iff casts u64 z laws = unsigned-FitsRange casts laws z 64 18446744073709551615 refl
fits_iff casts u128 z laws =
    unsigned-FitsRange casts laws z 128 340282366920938463463374607431768211455 refl
fits_iff casts i8 z laws = signed-FitsRange casts laws z 8 127 (neg_ℕ 128) refl refl refl
fits_iff casts i16 z laws = signed-FitsRange casts laws z 16 32767 (neg_ℕ 32768) refl refl refl
fits_iff casts i32 z laws =
    signed-FitsRange casts laws z 32 2147483647 (neg_ℕ 2147483648) refl refl refl
fits_iff casts i64 z laws =
    signed-FitsRange casts laws z 64 9223372036854775807 (neg_ℕ 9223372036854775808) refl refl refl
fits_iff casts i128 z laws =
    signed-FitsRange casts laws z 128 170141183460469231731687303715884105727
      (neg_ℕ 170141183460469231731687303715884105728) refl refl refl
fits_iff casts u256 z laws = both_leb u256_min z u256_max
fits_iff casts i256 z laws = both_leb i256_min z i256_max

-- The bits that hold the value: all of them, or all but the sign.
unfoldable pub value_bits : Integer → ℕ
value_bits i = if is_signed i then bits i - 1 else bits i

-- The least and the greatest value of each integer type are those of its number of bits, in two's
-- complement if it is signed.
pub range_bits :
    (i : Integer)
    → (max_value i ≡ pos (2 ^ value_bits i - 1))
      × (min_value i ≡ (if is_signed i then neg_ℕ (2 ^ value_bits i) else pos 0))
unfolding max_value min_value is_signed bits size value_bits
range_bits u256 = (refl, refl)
range_bits u128 = (refl, refl)
range_bits u64 = (refl, refl)
range_bits u32 = (refl, refl)
range_bits u16 = (refl, refl)
range_bits u8 = (refl, refl)
range_bits i256 = (refl, refl)
range_bits i128 = (refl, refl)
range_bits i64 = (refl, refl)
range_bits i32 = (refl, refl)
range_bits i16 = (refl, refl)
range_bits i8 = (refl, refl)

value_bits_le :
    (i j : Integer) → is_signed i ≡ is_signed j → can_hold i j ≡ true → value_bits j ≤ value_bits i
unfolding can_hold bits value_bits
value_bits_le i j same wide = elim (Bool-cases (is_signed j)) [
  | inl signed ↦ rw (same, signed) (ground arith)
  | inr unsigned ↦ rw (same, unsigned) (ground arith)
]

wider :
    (s : Bool) (m n : ℕ) (z : ℤ)
    → 2 ^ n ≤ 2 ^ m
    → ((if s then neg_ℕ (2 ^ n) else pos 0) ≤ℤ z) × (z ≤ℤ pos (2 ^ n - 1))
    → ((if s then neg_ℕ (2 ^ m) else pos 0) ≤ℤ z) × (z ≤ℤ pos (2 ^ m - 1))
wider true m n z le h = (ground arith, omega arith)
wider false m n z le h = (omega arith, omega arith)

-- Of two integer types of the same signedness, one that can hold the other has every number in its
-- range that the other has.
can_hold-InRange :
    (i j : Integer) (z : ℤ)
    → is_signed i ≡ is_signed j
    → can_hold i j ≡ true
    → InRange j z
    → InRange i z
can_hold-InRange i j z same wide h =
    let le = pow-le-pow_right {n = 2} (omega arith) (value_bits_le i j same wide) in
    let at_j = range_bits j in
    let at_i = range_bits i in
    rw (at_i.0, at_i.1, same)
      (wider (is_signed j) (value_bits i) (value_bits j) z le (rw (at_j.0, at_j.1) at h))
