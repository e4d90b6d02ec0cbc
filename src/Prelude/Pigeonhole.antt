-- ===== src/Prelude/Pigeonhole.antt =====
-- Lists of numbers below a bound, and how long they are.
use native.Mathlib.Decide.{ℕ_discrete}
use fe.Prelude.{
  ℕ, zero, suc, ◌≤◌, ◌<◌, ◌≡◌, refl, ◌⊎◌, inl, inr, Bool, true, false, List, [], ◌∷◌, arith, ◌==◌,
  length, All, any, Bool-cases, if◌then◌else◌, ◌∙◌,
}

abbrev pub mem : ℕ → List ℕ → Bool
mem n xs = any (λ x. x == n) xs

abbrev pub Distinct : List ℕ → Type 0
Distinct [] = Unit
Distinct (x ∷ xs) = (mem x xs ≡ false) × Distinct xs

abbrev pub Below : ℕ → List ℕ → Type 0
Below n xs = All (λ x. x < n) xs

remove : ℕ → List ℕ → List ℕ
remove n [] = []
remove n (x ∷ xs) = let rest = remove n xs in if x == n then rest else x ∷ rest

mem-remove : (n j : ℕ) (xs : List ℕ) → mem j xs ≡ false → mem j (remove n xs) ≡ false
unfolding remove
mem-remove n j [] h = refl
mem-remove n j (x ∷ xs) h = ground (arith, mem-remove n j xs)

mem-remove_ne : (n j : ℕ) (xs : List ℕ) → j < n → mem j (remove n xs) ≡ mem j xs
unfolding remove
mem-remove_ne n j [] h = refl
mem-remove_ne n j (x ∷ xs) h = ground (arith, mem-remove_ne n j xs h)

remove-Distinct : (n : ℕ) (xs : List ℕ) → Distinct xs → Distinct (remove n xs)
unfolding remove
remove-Distinct n [] h = tt
remove-Distinct n (x ∷ xs) h = elim (Bool-cases (x == n)) [
  | inl hit ↦ rw hit (remove-Distinct n xs h.1)
  | inr miss ↦ rw miss ((mem-remove n x xs h.0, remove-Distinct n xs h.1))
]

remove-Below : (n : ℕ) (xs : List ℕ) → Below (suc n) xs → Below n (remove n xs)
unfolding remove
remove-Below n [] h = tt
remove-Below n (x ∷ xs) h = elim (Bool-cases (x == n)) [
  | inl hit ↦ rw hit (remove-Below n xs h.1)
  | inr miss ↦ rw miss ((ground arith, remove-Below n xs h.1))
]

length-remove_absent : (n : ℕ) (xs : List ℕ) → mem n xs ≡ false → length (remove n xs) ≡ length xs
unfolding remove
length-remove_absent n [] h = refl
length-remove_absent n (x ∷ xs) h = ground (arith, length-remove_absent n xs)

length-remove_le : (n : ℕ) (xs : List ℕ) → length (remove n xs) ≤ length xs
unfolding remove
length-remove_le n [] = omega arith
length-remove_le n (x ∷ xs) = ground (arith, length-remove_le n xs)

length-remove-Distinct :
    (n : ℕ) (xs : List ℕ) → Distinct xs → length xs ≤ suc (length (remove n xs))
unfolding remove
length-remove-Distinct n [] h = omega arith
length-remove-Distinct n (x ∷ xs) h =
    ground (arith, length-remove-Distinct n xs h.1, length-remove_absent n xs)

length-remove-mem : (n : ℕ) (xs : List ℕ) → mem n xs ≡ true → suc (length (remove n xs)) ≤ length xs
unfolding remove
length-remove-mem n [] h = cc
length-remove-mem n (x ∷ xs) h = ground (arith, length-remove-mem n xs, length-remove_le n xs)

pub length-le-bound : (n : ℕ) (xs : List ℕ) → Distinct xs → Below n xs → length xs ≤ n
length-le-bound zero [] d b = omega arith
length-le-bound zero (x ∷ xs) d b = absurd (omega arith)
length-le-bound (suc n) xs d b = omega (
  arith,
  length-le-bound n (remove n xs) (remove-Distinct n xs d) (remove-Below n xs b),
  length-remove-Distinct n xs d,
)

bound-le-length : (n : ℕ) (xs : List ℕ) → ((j : ℕ) → j < n → mem j xs ≡ true) → n ≤ length xs
bound-le-length zero xs h = omega arith
bound-le-length (suc n) xs h = omega (
  arith,
  bound-le-length n (remove n xs) (λ j lt. mem-remove_ne n j xs lt ∙ h j (omega arith)),
  length-remove-mem n xs (h n (omega arith)),
)

-- A list without repetition that is as long as its bound has every number below the bound.
pub mem_of_full :
    (n j : ℕ) (xs : List ℕ) → Distinct xs → Below n xs → length xs ≡ n → j < n → mem j xs ≡ true
mem_of_full n j xs d b full lt = elim (Bool-cases (mem j xs)) [
  | inl found ↦ found
  | inr absent ↦ absurd (omega (arith, length-le-bound n (j ∷ xs) (absent, d) (lt, b)))
]

below_or_equal :
    (n j : ℕ) (xs : List ℕ)
    → mem n xs ≡ true
    → ((i : ℕ) → i < n → mem i xs ≡ true)
    → j < suc n
    → mem j xs ≡ true
below_or_equal n j xs found all lt = elim (ℕ_discrete j n) [
  | yes e ↦ rw e found
  | no ne ↦ all j (omega arith)
]

search_missing :
    (n : ℕ) (xs : List ℕ)
    → ((j : ℕ) → j < n → mem j xs ≡ true) ⊎ ((j : ℕ) × (j < n) × (mem j xs ≡ false))
search_missing zero xs = inl (λ j lt. absurd (omega arith))
search_missing (suc n) xs = elim (Bool-cases (mem n xs)) [
  | inr absent ↦ inr (n, omega arith, absent)
  | inl found ↦ elim (search_missing n xs) [
    | inr (j, lt, absent) ↦ inr (j, omega arith, absent)
    | inl all ↦ inl (λ j lt. below_or_equal n j xs found all lt)
  ]
]

-- A shorter list lacks a number below the bound.
pub missing_of_short :
    (n : ℕ) (xs : List ℕ) → length xs < n → (j : ℕ) × (j < n) × (mem j xs ≡ false)
missing_of_short n xs short = elim (search_missing n xs) [
  | inl all ↦ absurd (omega (arith, bound-le-length n xs all))
  | inr m ↦ m
]
