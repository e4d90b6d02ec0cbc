-- ===== src/BodyOrder/Removal.antt =====
-- The neighbours when a key is taken out, and the two ends of a list.
use fe.Prelude.{
  ℕ, ◌≡◌, refl, ap, true, false, ◌&&◌, Option, none, some, List, [], ◌∷◌, ◌++◌, arith, ◌==◌,
  if◌then◌else◌,
}
use fe.Prelude.Pigeonhole.{mem, Distinct}
use fe.BodyOrder.Links.{
  is, first, last, next_in, prev_from, prev_in, insert_after, insert_before, remove,
}
use fe.BodyOrder.Neighbours.{
  either, Fresh, prev_absent, next_absent, prev_other, first-mem, first_prev, prev_mem, prev_some,
  next_mem,
}

pub prev_from-remove :
    (p : Option ℕ) (b x : ℕ) (xs : List ℕ)
    → mem b xs ≡ true
    → Distinct xs
    → prev_from p (remove b xs) x ≡ (
        if x == b then none else if is (next_in xs b) x then prev_from p xs b else prev_from p xs x)
unfolding remove prev_from next_in first
prev_from-remove p b x [] h d = absurd (cc)
prev_from-remove p b x (y ∷ ys) h d = ground (
  arith,
  prev_from-remove (some y) b x ys,
  prev_other p (some y) x ys,
  prev_absent p x ys,
  next_mem b x ys,
  first-mem x ys,
)

first_removed :
    (b : ℕ) (xs : List ℕ)
    → Distinct xs
    → first (remove b xs) ≡ (if is (first xs) b then next_in xs b else first xs)
unfolding remove first next_in
first_removed b [] d = refl
first_removed b (y ∷ ys) d = ground arith

pub next_from-remove :
    (p : Option ℕ) (b x : ℕ) (xs : List ℕ)
    → mem b xs ≡ true
    → Distinct xs
    → Fresh p xs
    → next_in (remove b xs) x ≡ (
        if x == b
        then none
        else if mem x xs && is (prev_from p xs b) x
        then next_in xs b
        else next_in xs x)
unfolding remove next_in prev_from first
next_from-remove p b x [] h d f = absurd (cc)
next_from-remove none b x (y ∷ ys) h d f = ground (
  arith,
  next_from-remove (some y) b x ys,
  first_prev y b ys,
  first_removed b ys,
  next_absent x ys,
)
next_from-remove (some q) b x (y ∷ ys) h d f = ground (
  arith,
  next_from-remove (some y) b x ys,
  first_prev y b ys,
  first_removed b ys,
  next_absent x ys,
)

-- The ends.
pub first-insert_before :
    (a b : ℕ) (xs : List ℕ)
    → mem a xs ≡ true
    → first (insert_before a b xs) ≡ either (prev_in xs a) (some b) (first xs)
unfolding insert_before first prev_in prev_from
first-insert_before a b [] h = absurd (cc)
first-insert_before a b (y ∷ ys) h = ground (arith, prev_some y a ys (some b) (some y))

pub first-remove :
    (b : ℕ) (xs : List ℕ)
    → mem b xs ≡ true
    → first (remove b xs) ≡ either (prev_in xs b) (next_in xs b) (first xs)
unfolding remove first prev_in prev_from next_in
first-remove b [] h = absurd (cc)
first-remove b (y ∷ ys) h = ground (arith, prev_some y b ys (next_in ys b) (some y))

pub last-insert_before : (a b : ℕ) (xs : List ℕ) → last (insert_before a b xs) ≡ last xs
unfolding insert_before last
last-insert_before a b [] = refl
last-insert_before a b (y ∷ []) = ground arith
last-insert_before a b (y ∷ z ∷ zs) = ground (arith, last-insert_before a b (z ∷ zs))

pub last-insert_after :
    (a b : ℕ) (xs : List ℕ)
    → mem a xs ≡ true
    → last (insert_after a b xs) ≡ either (next_in xs a) (some b) (last xs)
unfolding insert_after last next_in first
last-insert_after a b [] h = absurd (cc)
last-insert_after a b (y ∷ []) h = ground arith
last-insert_after a b (y ∷ z ∷ zs) h = ground (arith, last-insert_after a b (z ∷ zs))

last_removed :
    (q b : ℕ) (ys : List ℕ)
    → mem b ys ≡ true
    → last (q ∷ remove b ys) ≡ either (next_in ys b) (prev_from (some q) ys b) (last (q ∷ ys))
unfolding remove last next_in prev_from first
last_removed q b [] h = absurd (cc)
last_removed q b (y ∷ []) h = ground arith
last_removed q b (y ∷ z ∷ zs) h = ground (arith, last_removed y b (z ∷ zs))

pub last-remove :
    (b : ℕ) (xs : List ℕ)
    → mem b xs ≡ true
    → last (remove b xs) ≡ either (next_in xs b) (prev_in xs b) (last xs)
unfolding remove last next_in prev_in prev_from first
last-remove b [] h = absurd (cc)
last-remove b (y ∷ []) h = ground arith
last-remove b (y ∷ z ∷ zs) h = ground (arith, last_removed y b (z ∷ zs))

-- The last key has no next one, and putting a key in after it appends the key.
pub last_facts :
    (a b : ℕ) (xs : List ℕ)
    → last xs ≡ some a
    → Distinct xs
    → (mem a xs ≡ true) × (next_in xs a ≡ none) × (insert_after a b xs ≡ xs ++ b ∷ [])
unfolding last next_in insert_after first
last_facts a b [] h d = absurd (cc)
last_facts a b (y ∷ []) h d = ground arith
last_facts a b (y ∷ z ∷ zs) h d =
    let (member, end, same) = last_facts a b (z ∷ zs) h d.1 in
    let other : (y == a) ≡ false = ground arith in
    (ground arith, rw other end, rw other (ap (λ t. y ∷ t) same))

pub first_facts :
    (a b : ℕ) (xs : List ℕ)
    → first xs ≡ some a
    → (mem a xs ≡ true) × (prev_in xs a ≡ none) × (insert_before a b xs ≡ b ∷ xs)
unfolding first prev_in prev_from insert_before
first_facts a b [] h = absurd (cc)
first_facts a b (y ∷ ys) h = (ground arith, ground arith, ground arith)

-- A list with no first or no last key is empty.
pub first_none : (xs : List ℕ) → first xs ≡ none → xs ≡ []
unfolding first
first_none [] h = refl
first_none (x ∷ xs) h = absurd (cc)

pub last_none : (xs : List ℕ) → last xs ≡ none → xs ≡ []
unfolding last
last_none [] h = refl
last_none (x ∷ []) h = absurd (cc)
last_none (x ∷ y ∷ ys) h = absurd (cc (last_none (y ∷ ys) h))

-- The same, of a whole list.
pub prev-remove :
    (b x : ℕ) (xs : List ℕ)
    → mem b xs ≡ true
    → Distinct xs
    → prev_in (remove b xs) x
      ≡ (if x == b then none else if is (next_in xs b) x then prev_in xs b else prev_in xs x)
unfolding prev_in
prev-remove b x xs h d = prev_from-remove none b x xs h d

pub next-remove :
    (b x : ℕ) (xs : List ℕ)
    → mem b xs ≡ true
    → Distinct xs
    → next_in (remove b xs) x
      ≡ (if x == b then none else if is (prev_in xs b) x then next_in xs b else next_in xs x)
unfolding prev_in
next-remove b x xs h d = ground (arith, next_from-remove none b x xs h d tt, prev_mem none b x xs)

-- The two neighbours differ.
neighbours_ne :
    (p : Option ℕ) (b x : ℕ) (xs : List ℕ)
    → Distinct xs
    → Fresh p xs
    → is (prev_from p xs b) x ≡ true
    → is (next_in xs b) x ≡ false
unfolding prev_from next_in
neighbours_ne p b x [] d f h = refl
neighbours_ne none b x (y ∷ ys) d f h =
    ground (arith, neighbours_ne (some y) b x ys, first-mem x ys, next_mem b x ys)
neighbours_ne (some q) b x (y ∷ ys) d f h =
    ground (arith, neighbours_ne (some y) b x ys, first-mem x ys, next_mem b x ys)

pub prev_ne-next :
    (b x : ℕ) (xs : List ℕ) → Distinct xs → is (prev_in xs b) x ≡ true → is (next_in xs b) x ≡ false
unfolding prev_in
prev_ne-next b x xs d h = neighbours_ne none b x xs d tt h
