-- ===== src/BodyOrder/Links.antt =====
-- A sequence of distinct keys, and the neighbours that a doubly linked list keeps for each of them.
use fe.Prelude.{
  ℕ, ◌≡◌, Bool, true, false, Option, none, some, List, [], ◌∷◌, arith, ◌==◌, if◌then◌else◌,
}
use fe.Prelude.Pigeonhole.{mem, Distinct}

abbrev pub is : Option ℕ → ℕ → Bool
is none x = false
is (some y) x = y == x

unfoldable pub first : List ℕ → Option ℕ
first [] = none
first (x ∷ xs) = some x

unfoldable pub last : List ℕ → Option ℕ
last [] = none
last (x ∷ []) = some x
last (x ∷ y ∷ ys) = last (y ∷ ys)

unfoldable pub next_in : List ℕ → ℕ → Option ℕ
unfolding first
next_in [] x = none
next_in (y ∷ ys) x = if y == x then first ys else next_in ys x

-- The key before `x`, where `p` stands before the list.
unfoldable pub prev_from : Option ℕ → List ℕ → ℕ → Option ℕ
prev_from p [] x = none
prev_from p (y ∷ ys) x = if y == x then p else prev_from (some y) ys x

unfoldable pub prev_in : List ℕ → ℕ → Option ℕ
unfolding prev_from
prev_in xs x = prev_from none xs x

unfoldable pub insert_after : ℕ → ℕ → List ℕ → List ℕ
insert_after a b [] = []
insert_after a b (y ∷ ys) = if y == a then y ∷ b ∷ ys else y ∷ insert_after a b ys

unfoldable pub insert_before : ℕ → ℕ → List ℕ → List ℕ
insert_before a b [] = []
insert_before a b (y ∷ ys) = if y == a then b ∷ y ∷ ys else y ∷ insert_before a b ys

unfoldable pub remove : ℕ → List ℕ → List ℕ
remove b [] = []
remove b (y ∷ ys) = if y == b then ys else y ∷ remove b ys

-- Membership.
pub mem-insert_after :
    (a b x : ℕ) (xs : List ℕ)
    → mem a xs ≡ true
    → mem x (insert_after a b xs) ≡ (if x == b then true else mem x xs)
unfolding insert_after
mem-insert_after a b x [] h = absurd (cc)
mem-insert_after a b x (y ∷ ys) h = ground (arith, mem-insert_after a b x ys)

pub mem-insert_before :
    (a b x : ℕ) (xs : List ℕ)
    → mem a xs ≡ true
    → mem x (insert_before a b xs) ≡ (if x == b then true else mem x xs)
unfolding insert_before
mem-insert_before a b x [] h = absurd (cc)
mem-insert_before a b x (y ∷ ys) h = ground (arith, mem-insert_before a b x ys)

pub mem-remove :
    (b x : ℕ) (xs : List ℕ)
    → Distinct xs
    → mem x (remove b xs) ≡ (if x == b then false else mem x xs)
unfolding remove
mem-remove b x [] d = ground arith
mem-remove b x (y ∷ ys) d = ground (arith, mem-remove b x ys d.1)

pub insert_after-Distinct :
    (a b : ℕ) (xs : List ℕ)
    → mem a xs ≡ true
    → mem b xs ≡ false
    → Distinct xs
    → Distinct (insert_after a b xs)
unfolding insert_after
insert_after-Distinct a b [] h k d = tt
insert_after-Distinct a b (y ∷ ys) h k d =
    ground (arith, mem-insert_after a b y ys, insert_after-Distinct a b ys)

pub insert_before-Distinct :
    (a b : ℕ) (xs : List ℕ)
    → mem a xs ≡ true
    → mem b xs ≡ false
    → Distinct xs
    → Distinct (insert_before a b xs)
unfolding insert_before
insert_before-Distinct a b [] h k d = tt
insert_before-Distinct a b (y ∷ ys) h k d =
    ground (arith, mem-insert_before a b y ys, insert_before-Distinct a b ys)

pub remove-Distinct : (b : ℕ) (xs : List ℕ) → Distinct xs → Distinct (remove b xs)
unfolding remove
remove-Distinct b [] d = tt
remove-Distinct b (y ∷ ys) d = ground (arith, mem-remove b y ys d.1, remove-Distinct b ys d.1)
