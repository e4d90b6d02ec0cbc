-- ===== src/BodyOrder/Neighbours.antt =====
-- How the neighbours of keys change when a key is put in or taken out.
use fe.Prelude.{
  ℕ, ◌≡◌, refl, true, false, ◌||◌, ◌&&◌, Option, none, some, List, [], ◌∷◌, arith, ◌==◌,
  if◌then◌else◌,
}
use fe.Prelude.Pigeonhole.{mem, Distinct}
use fe.BodyOrder.Links.{is, first, next_in, prev_from, prev_in, insert_after, insert_before}

-- By whether there is a neighbour.
abbrev pub either : Option ℕ → Option ℕ → Option ℕ → Option ℕ
either none o o' = o
either (some y) o o' = o'

-- The key in front of the list is not in it.
abbrev pub Fresh : Option ℕ → List ℕ → Type 0
Fresh none xs = Unit
Fresh (some q) xs = mem q xs ≡ false

pub first-insert_after : (a b : ℕ) (xs : List ℕ) → first (insert_after a b xs) ≡ first xs
unfolding insert_after first
first-insert_after a b [] = refl
first-insert_after a b (y ∷ ys) = ground arith

pub next_absent : (x : ℕ) (xs : List ℕ) → mem x xs ≡ false → next_in xs x ≡ none
unfolding next_in
next_absent x [] h = refl
next_absent x (y ∷ ys) h = ground (arith, next_absent x ys)

pub prev_absent : (p : Option ℕ) (x : ℕ) (xs : List ℕ) → mem x xs ≡ false → prev_from p xs x ≡ none
unfolding prev_from
prev_absent p x [] h = refl
prev_absent p x (y ∷ ys) h = ground (arith, prev_absent (some y) x ys)

pub first-mem : (x : ℕ) (xs : List ℕ) → is (first xs) x ≡ true → mem x xs ≡ true
unfolding first
first-mem x [] h = absurd (cc)
first-mem x (y ∷ ys) h = ground arith

pub next_mem : (a x : ℕ) (xs : List ℕ) → is (next_in xs a) x ≡ true → mem x xs ≡ true
unfolding next_in
next_mem a x [] h = absurd (cc)
next_mem a x (y ∷ ys) h = ground (arith, next_mem a x ys, first-mem x ys)

-- The key in front of the list matters for its first key alone.
pub prev_other :
    (p q : Option ℕ) (x : ℕ) (xs : List ℕ)
    → is (first xs) x ≡ false
    → prev_from p xs x ≡ prev_from q xs x
unfolding prev_from first
prev_other p q x [] h = refl
prev_other p q x (y ∷ ys) h = ground arith

pub next-insert_after :
    (a b x : ℕ) (xs : List ℕ)
    → mem a xs ≡ true
    → mem b xs ≡ false
    → next_in (insert_after a b xs) x
      ≡ (if x == a then some b else if x == b then next_in xs a else next_in xs x)
unfolding insert_after next_in first
next-insert_after a b x [] h k = absurd (cc)
next-insert_after a b x (y ∷ ys) h k =
    ground (arith, next-insert_after a b x ys, first-insert_after a b ys)

pub prev_from-insert_after :
    (p : Option ℕ) (a b x : ℕ) (xs : List ℕ)
    → mem a xs ≡ true
    → mem b xs ≡ false
    → Distinct xs
    → prev_from p (insert_after a b xs) x
      ≡ (if x == b then some a else if is (next_in xs a) x then some b else prev_from p xs x)
unfolding insert_after prev_from next_in first
prev_from-insert_after p a b x [] h k d = absurd (cc)
prev_from-insert_after p a b x (y ∷ ys) h k d = ground (
  arith,
  prev_from-insert_after (some y) a b x ys,
  prev_other (some b) (some y) x ys,
  next_mem a x ys,
  first-mem x ys,
)

pub prev_from-insert_before :
    (p : Option ℕ) (a b x : ℕ) (xs : List ℕ)
    → mem a xs ≡ true
    → mem b xs ≡ false
    → prev_from p (insert_before a b xs) x
      ≡ (if x == a then some b else if x == b then prev_from p xs a else prev_from p xs x)
unfolding insert_before prev_from
prev_from-insert_before p a b x [] h k = absurd (cc)
prev_from-insert_before p a b x (y ∷ ys) h k =
    ground (arith, prev_from-insert_before (some y) a b x ys)

pub prev_mem :
    (p : Option ℕ) (a x : ℕ) (xs : List ℕ)
    → is (prev_from p xs a) x ≡ true
    → (is p x || mem x xs) ≡ true
unfolding prev_from
prev_mem p a x [] h = absurd (cc)
prev_mem p a x (y ∷ ys) h = ground (arith, prev_mem (some y) a x ys)

pub prev_some :
    (q a : ℕ) (xs : List ℕ) (o o' : Option ℕ)
    → mem a xs ≡ true
    → either (prev_from (some q) xs a) o o' ≡ o'
unfolding prev_from
prev_some q a [] o o' h = absurd (cc)
prev_some q a (y ∷ ys) o o' h = ground (arith, prev_some y a ys o o')

pub first_prev :
    (q a : ℕ) (xs : List ℕ) → mem q xs ≡ false → is (prev_from (some q) xs a) q ≡ is (first xs) a
unfolding prev_from first
first_prev q a [] h = refl
first_prev q a (y ∷ ys) h = ground (arith, prev_mem (some y) a q ys)

first_insert :
    (a b : ℕ) (xs : List ℕ)
    → first (insert_before a b xs) ≡ (if is (first xs) a then some b else first xs)
unfolding insert_before first
first_insert a b [] = refl
first_insert a b (y ∷ ys) = ground arith

pub next_from-insert_before :
    (p : Option ℕ) (a b x : ℕ) (xs : List ℕ)
    → mem a xs ≡ true
    → mem b xs ≡ false
    → Distinct xs
    → Fresh p xs
    → next_in (insert_before a b xs) x ≡ (
        if x == b
        then some a
        else if mem x xs && is (prev_from p xs a) x
        then some b
        else next_in xs x)
unfolding insert_before next_in prev_from first
next_from-insert_before p a b x [] h k d f = absurd (cc)
next_from-insert_before none a b x (y ∷ ys) h k d f =
    ground
      (arith, next_from-insert_before (some y) a b x ys, first_prev y a ys, first_insert a b ys)
next_from-insert_before (some q) a b x (y ∷ ys) h k d f =
    ground
      (arith, next_from-insert_before (some y) a b x ys, first_prev y a ys, first_insert a b ys)

-- The same, of a whole list.
pub prev-insert_after :
    (a b x : ℕ) (xs : List ℕ)
    → mem a xs ≡ true
    → mem b xs ≡ false
    → Distinct xs
    → prev_in (insert_after a b xs) x
      ≡ (if x == b then some a else if is (next_in xs a) x then some b else prev_in xs x)
unfolding prev_in
prev-insert_after a b x xs h k d = prev_from-insert_after none a b x xs h k d

pub prev-insert_before :
    (a b x : ℕ) (xs : List ℕ)
    → mem a xs ≡ true
    → mem b xs ≡ false
    → prev_in (insert_before a b xs) x
      ≡ (if x == a then some b else if x == b then prev_in xs a else prev_in xs x)
unfolding prev_in
prev-insert_before a b x xs h k = prev_from-insert_before none a b x xs h k

pub prev_in-mem : (a x : ℕ) (xs : List ℕ) → is (prev_in xs a) x ≡ true → mem x xs ≡ true
unfolding prev_in
prev_in-mem a x xs h = prev_mem none a x xs h

pub next-insert_before :
    (a b x : ℕ) (xs : List ℕ)
    → mem a xs ≡ true
    → mem b xs ≡ false
    → Distinct xs
    → next_in (insert_before a b xs) x
      ≡ (if x == b then some a else if is (prev_in xs a) x then some b else next_in xs x)
unfolding prev_in
next-insert_before a b x xs h k d =
    ground (arith, next_from-insert_before none a b x xs h k d tt, prev_mem none a x xs)

pub next_ne : (a : ℕ) (xs : List ℕ) → Distinct xs → is (next_in xs a) a ≡ false
unfolding next_in
next_ne a [] d = refl
next_ne a (y ∷ ys) d = ground (arith, next_ne a ys, first-mem a ys)

prev_from_ne :
    (p : Option ℕ) (a : ℕ) (xs : List ℕ)
    → is p a ≡ false
    → Distinct xs
    → is (prev_from p xs a) a ≡ false
unfolding prev_from
prev_from_ne p a [] h d = refl
prev_from_ne p a (y ∷ ys) h d = ground (arith, prev_from_ne (some y) a ys)

pub prev_ne : (a : ℕ) (xs : List ℕ) → Distinct xs → is (prev_in xs a) a ≡ false
unfolding prev_in
prev_ne a xs d = prev_from_ne none a xs refl d
