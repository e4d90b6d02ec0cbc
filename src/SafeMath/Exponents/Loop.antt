-- ===== src/SafeMath/Exponents/Loop.antt =====
-- The loop of the helper: it squares the base and halves the exponent, and the power stays below
-- the base.
use Prim.Native.Nat.{◌^◌, ◌/◌, ◌%◌}
use native.Mathlib.Nat.{le_trans, mul_assoc, mul-le-mul_right, mul-le-mul_left, two-pow-succ}
use fe.Prelude.{
  ℕ, zero, suc, ◌-◌, ◌*◌, ◌<◌, ◌≤◌, ◌≡◌, ◌∙◌, ◌⊎◌, refl, ap, Bool, true, false, arith, ltb, ◌==◌,
  if◌then◌else◌, Bool-cases, inl, inr,
}
use fe.Prelude.Powers.{pow-one, square_le-pow, halved_even, halved_odd}
use fe.Yul.{Run, gives, reverts, word_mod, mul, div, gt, shr, flag}
use fe.Yul.Products.{gt-div, mul_mod_left_negated}
use fe.Yul.Bits.{bitand-low}
use fe.SafeMath.{panic_overflow}
use fe.SafeMath.Exponents.{exp_rounds}

-- The word of a magnitude above 0 with a sign.
abbrev pub with_sign : Bool → ℕ → ℕ
with_sign true m = word_mod - m
with_sign false m = m

pub mul-with_sign :
    (s : Bool) (m b : ℕ)
    → 0 < m * b
    → m * b < word_mod
    → m < word_mod
    → mul (with_sign s m) b ≡ with_sign s (m * b)
unfolding mul
mul-with_sign false m b pos lt small = omega arith
mul-with_sign true m b pos lt small =
    (mul_mod_left_negated word_mod m b (omega arith) (omega arith)) ∙ omega arith

-- The loop ends: what it leaves multiplies out to the power.
pub record Finished (run : Run (ℕ × ℕ)) (s : Bool) (m b e top : ℕ) : Type 0 where
  pub base : ℕ
  pub power : ℕ
  pub ends : run ≡ gives (base, with_sign s power)
  pub value : power * base ≡ m * b ^ e
  pub positive : 0 < power
  pub below : power ≤ base
  pub fits : base ≤ top

-- The loop reverts: the power is past the bound.
pub record Overflowed (run : Run (ℕ × ℕ)) (m b e top : ℕ) : Type 0 where
  pub ends : run ≡ reverts panic_overflow
  pub past : m * suc top ≤ m * b ^ e
  pub large : 2 ≤ b

abbrev pub Ends : Run (ℕ × ℕ) → Bool → ℕ → ℕ → ℕ → ℕ → Type 0
Ends run s m b e top = Finished run s m b e top ⊎ Overflowed run m b e top

module _ (k e b p top : ℕ) where
  round_last : gt e 1 ≡ 0 → exp_rounds (suc k) e b p top ≡ gives (b, p)
  unfolding exp_rounds
  round_last h = rw h refl

  round_reverts :
      gt e 1 ≡ 1 → gt b (div top b) ≡ 1 → exp_rounds (suc k) e b p top ≡ reverts panic_overflow
  unfolding exp_rounds
  round_reverts h g = rw (h, g) refl

  round_goes :
      gt e 1 ≡ 1
      → gt b (div top b) ≡ 0
      → exp_rounds (suc k) e b p top
        ≡ exp_rounds k (e / 2) (mul b b) (if e % 2 == 0 then p else mul p b) top
  unfolding exp_rounds shr
  round_goes h g = rw (h, g, bitand-low e) refl

gt-flag : (m n : ℕ) → gt m n ≡ flag (ltb n m)
unfolding gt
gt-flag m n = refl

mul-square : (b : ℕ) → b * b < word_mod → mul b b ≡ b * b
unfolding mul
mul-square b h = omega arith

pub square-ge_two : (b : ℕ) → 2 ≤ b * b → 2 ≤ b
square-ge_two zero h = absurd (omega arith)
square-ge_two (suc zero) h = absurd (omega arith)
square-ge_two (suc (suc b)) h = omega arith

pub square-small : (b top : ℕ) → b ≤ top → 0 < b → top < b * b → 2 ≤ b
square-small zero top h p q = absurd (omega arith)
square-small (suc zero) top h p q = absurd (omega arith)
square-small (suc (suc b)) top h p q = omega arith

pub le-mul : (m b : ℕ) → 0 < b → m ≤ m * b
le-mul m b h = let e : m * 1 ≤ m * b = mul-le-mul_left m h in omega arith

gt-square : (b top : ℕ) → 0 < b → gt b (div top b) ≡ flag (ltb top (b * b))
gt-square zero top h = absurd (omega arith)
gt-square (suc n) top h = gt-div top (suc n) n

module _ (s : Bool) (top : ℕ) (small : top < word_mod) where
  -- What a later round leaves, told of the round before it.
  earlier :
      (run : Run (ℕ × ℕ)) (m m' b e : ℕ)
      → m' * (b * b) ^ (e / 2) ≡ m * b ^ e
      → m ≤ m'
      → 0 < b
      → Ends run s m' (b * b) (e / 2) top
      → Ends run s m b e top
  earlier run m m' b e same le pos (inl f) = inl (record {
    base = f.base;
    power = f.power;
    ends = f.ends;
    value = f.value ∙ same;
    positive = f.positive;
    below = f.below;
    fits = f.fits;
  })
  earlier run m m' b e same le pos (inr o) = inr (record {
    ends = o.ends;
    past = rw (← same) (le_trans (mul-le-mul_right (suc top) le) o.past);
    large = square-ge_two b o.large;
  })

  -- With as many rounds as the exponent has binary digits, the loop ends.
  pub exp_rounds-Ends :
      (k e b m : ℕ)
      → 0 < e
      → e < 2 ^ k
      → 0 < m
      → m ≤ b
      → b ≤ top
      → Ends (exp_rounds k e b (with_sign s m) top) s m b e top
  exp_rounds-Ends zero e b m he hk hm hb ht = absurd (omega arith)
  exp_rounds-Ends (suc k) e b m he hk hm hb ht = elim (Bool-cases (ltb 1 e)) [
    | inr last ↦
        let one : e ≡ 1 = ground arith in
        inl (record {
          base = b;
          power = m;
          ends = round_last k e b (with_sign s m) top (gt-flag e 1 ∙ ap flag last);
          value = rw (one, pow-one b) refl;
          positive = hm;
          below = hb;
          fits = ht;
        })
    | inl more ↦ elim (Bool-cases (ltb top (b * b))) [
      | inl large ↦ inr (record {
        ends =
            round_reverts k e b (with_sign s m) top (gt-flag e 1 ∙ ap flag more)
              (gt-square b top (omega arith) ∙ ap flag large);
        past =
            mul-le-mul_left m
              (le_trans (ground arith) (square_le-pow b e (omega arith) (ground arith)));
        large = ground (arith, square-small b top);
      })
      | inr fine ↦
          let fit : b * b ≤ top = ground arith in
          let half : e / 2 < 2 ^ k = omega (arith, two-pow-succ k) in
          let pos : 0 < e / 2 = ground arith in
          let below : m * b ≤ b * b = mul-le-mul_right b hb in
          let grows : m ≤ m * b = le-mul m b (omega arith) in
          rw
            (
              round_goes k e b (with_sign s m) top (gt-flag e 1 ∙ ap flag more)
                  (gt-square b top (omega arith) ∙ ap flag fine),
              mul-square b (omega arith),
            )
            (elim (Bool-cases (e % 2 == 0)) [
              | inl even ↦ rw even (
                  earlier _ m m b e (ap (λ (t : ℕ). m * t) (halved_even b e (ground arith)))
                    (omega arith) (omega arith)
                    (exp_rounds-Ends k (e / 2) (b * b) m pos half hm (omega arith) fit))
              | inr odd ↦
                  rw (odd, mul-with_sign s m b (omega arith) (omega arith) (omega arith))
                    (earlier _ m (m * b) b e
                      (mul_assoc m b ((b * b) ^ (e / 2))
                        ∙ ap (λ (t : ℕ). m * t) (halved_odd b e (ground arith)))
                      grows (omega arith)
                      (exp_rounds-Ends k (e / 2) (b * b) (m * b) pos half (omega arith) below fit))
            ])
    ]
  ]
