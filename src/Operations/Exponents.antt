-- ===== src/Operations/Exponents.antt =====
-- The exponents that the types of powers and shifts allow, against what constant evaluation makes of
-- them.
use Prim.Native.Nat.{◌^◌}
use fe.Prelude.{ℕ, ◌≤◌, ◌≡◌, refl, ◌∙◌, ◌⊎◌, false, none, arith, ltb, Bool-cases, inl, inr}
use fe.Prelude.Int.{ℤ, pos, negsuc}
use fe.Prelude.Outcome.{ok}
use fe.Types.{Integer}
use fe.Integer.{BigIntCasts, CastsLaws, is_signed, min_value}
use fe.Integer.Ranges.{InRange, range_bits}
use fe.Operations.{bin_pow, bin_bit_shift}

unsigned_pow :
    (left right : Integer) {t : Integer} → bin_pow left right ≡ ok t → is_signed right ≡ false
unfolding bin_pow
unsigned_pow left right h = elim (Bool-cases (is_signed right)) [
  | inl signed ↦ cc (rw signed at h)
  | inr unsigned ↦ unsigned
]

unsigned_shift :
    (left right : Integer) {t : Integer} → bin_bit_shift left right ≡ ok t → is_signed right ≡ false
unfolding bin_bit_shift
unsigned_shift left right h = elim (Bool-cases (is_signed right)) [
  | inl signed ↦ cc (rw signed at h)
  | inr unsigned ↦ unsigned
]

unsigned_value : (i : Integer) (z : ℤ) → is_signed i ≡ false → InRange i z → (n : ℕ) × (z ≡ pos n)
unsigned_value i (pos n) u h = (n, refl)
unsigned_value i (negsuc n) u h =
    let least : min_value i ≡ pos 0 = (range_bits i).1 ∙ rw u refl in
    let low = rw least at h.0 in absurd (omega (arith, low))

too_large :
    (casts : BigIntCasts) (w n : ℕ)
    → CastsLaws casts
    → casts.to_unsigned w (pos n) ≡ none
    → 2 ^ w ≤ n
too_large casts w n laws h = elim (Bool-cases (ltb n (2 ^ w))) [
  | inr big ↦ ground arith
  | inl small ↦
      let fits_ = (laws.to_unsigned_some w (pos n) n).1 (refl, ground arith) in cc (h, fits_)
]

-- Where the types of a power or of a shift are accepted and the integer conversions keep their
-- contract, an exponent of the right type is not negative, one that `u32` does not hold is at
-- least 2 ^ 32, and one that `usize` does not hold is at least 2 ^ 64.
pub exponent_too_large :
    (casts : BigIntCasts) (left right t : Integer) (z : ℤ)
    → CastsLaws casts
    → InRange right z
    → ((bin_pow left right ≡ ok t) ⊎ (bin_bit_shift left right ≡ ok t))
    → (n : ℕ) × (z ≡ pos n)
      × (casts.to_unsigned 32 z ≡ none → 2 ^ 32 ≤ n)
      × (casts.to_unsigned 64 z ≡ none → 2 ^ 64 ≤ n)
exponent_too_large casts left right t z laws inside accepted =
    let unsigned : is_signed right ≡ false = elim accepted [
      | inl p ↦ unsigned_pow left right p
      | inr s ↦ unsigned_shift left right s
    ] in
    let (n, e) = unsigned_value right z unsigned inside in
    (
      n,
      e,
      (λ h. too_large casts 32 n laws (rw e at h)),
      (λ h. too_large casts 64 n laws (rw e at h)),
    )
