-- ===== src/Prelude/Outcome.antt =====
-- What a run of a partial function gives: its fuel ran out, the program panicked, or a result.
use fe.Prelude.{◌≡◌, refl}

pub data Outcome {ℓ} (A : Type ℓ) : Type ℓ where
  out_of_fuel : Outcome A
  panicked : Outcome A
  returned : A → Outcome A

infixl 5 ◌>>=◌
abbrev pub ◌>>=◌ {ℓ κ} : {A : Type ℓ} {B : Type κ} → Outcome A → (A → Outcome B) → Outcome B
out_of_fuel >>= f = out_of_fuel
panicked >>= f = panicked
returned a >>= f = f a

pub >>=-eq-returned {ℓ κ} :
    {A : Type ℓ} {B : Type κ} (m : Outcome A) (f : A → Outcome B) {b : B}
    → (m >>= f) ≡ returned b
    → (a : A) × (m ≡ returned a) × (f a ≡ returned b)
>>=-eq-returned (returned a) f h = (a, refl, h)
>>=-eq-returned out_of_fuel f h = cc
>>=-eq-returned panicked f h = cc

-- `Result`
pub data Result {ℓ κ} (A : Type ℓ) (E : Type κ) : Type (ℓ ⊔ κ) where
  ok : A → Result A E
  err : E → Result A E
