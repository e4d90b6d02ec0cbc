-- ===== src/BodyCursor/Steps.antt =====
-- A step of a cursor and the step back.
use fe.Prelude.{
  ℕ, ◌≡◌, ◌⊎◌, refl, true, false, Option, none, some, List, [], ◌∷◌, arith, inl, inr, Option-cases,
}
use fe.Prelude.Pigeonhole.{mem, Distinct}
use fe.Prelude.Outcome.{Outcome, returned}
use fe.BodyOrder.{BodyOrder, BasicBlockId}
use fe.BodyOrder.Links.{is, first, last, next_in, prev_in, prev_from}
use fe.BodyOrder.Neighbours.{first-mem, next_mem, prev_in-mem, prev_some, first_prev}
use fe.BodyOrder.Layout.{Layout, Represents, at_member}
use fe.BodyOrder.Code.{block_of_member}
use fe.BodyCursor.{
  BodyCursor, CursorLocation, inst, block_top, block_bottom, no_where, proceed, back,
}

prev_of_next :
    (p : Option ℕ) (a x : ℕ) (xs : List ℕ)
    → Distinct xs
    → is (next_in xs a) x ≡ true
    → prev_from p xs x ≡ some a
unfolding next_in prev_from first
prev_of_next p a x [] d h = absurd (cc)
prev_of_next p a x (y ∷ []) d h = ground arith
prev_of_next p a x (y ∷ z ∷ zs) d h =
    ground (arith, prev_of_next (some y) a x (z ∷ zs), next_mem a x (z ∷ zs))

prev_of_first : (p : Option ℕ) (x : ℕ) (xs : List ℕ) → is (first xs) x ≡ true → prev_from p xs x ≡ p
unfolding prev_from first
prev_of_first p x [] h = absurd (cc)
prev_of_first p x (y ∷ ys) h = ground arith

last_of_none : (a : ℕ) (xs : List ℕ) → mem a xs ≡ true → next_in xs a ≡ none → last xs ≡ some a
unfolding next_in last first
last_of_none a [] h e = absurd (cc)
last_of_none a (y ∷ []) h e = ground arith
last_of_none a (y ∷ z ∷ zs) h e = ground (arith, last_of_none a (z ∷ zs))

next_of_prev :
    (p : Option ℕ) (a x : ℕ) (xs : List ℕ)
    → Distinct xs
    → is p x ≡ false
    → is (prev_from p xs a) x ≡ true
    → mem a xs ≡ true
    → next_in xs x ≡ some a
unfolding next_in prev_from first
next_of_prev p a x [] d f h m = absurd (cc)
next_of_prev p a x (y ∷ []) d f h m = ground arith
next_of_prev p a x (y ∷ z ∷ zs) d f h m =
    ground (arith, next_of_prev (some y) a x (z ∷ zs), first_prev y a (z ∷ zs))

first_of_none : (a : ℕ) (xs : List ℕ) → mem a xs ≡ true → prev_in xs a ≡ none → first xs ≡ some a
unfolding prev_in prev_from first
first_of_none a [] h e = absurd (cc)
first_of_none a (y ∷ ys) h e = ground (arith, prev_some y a ys none (some 0))

last-mem : (x : ℕ) (xs : List ℕ) → is (last xs) x ≡ true → mem x xs ≡ true
unfolding last
last-mem x [] h = absurd (cc)
last-mem x (y ∷ []) h = ground arith
last-mem x (y ∷ z ∷ zs) h = ground (arith, last-mem x (z ∷ zs))

next_of_last : (x : ℕ) (xs : List ℕ) → Distinct xs → is (last xs) x ≡ true → next_in xs x ≡ none
unfolding next_in last first
next_of_last x [] d h = refl
next_of_last x (y ∷ []) d h = ground arith
next_of_last x (y ∷ z ∷ zs) d h = ground (arith, next_of_last x (z ∷ zs), last-mem x (z ∷ zs))

last_of_empty : (xs : List ℕ) → first xs ≡ none → last xs ≡ none
unfolding first last
last_of_empty [] e = refl
last_of_empty (x ∷ xs) e = absurd (cc)

first_of_empty : (xs : List ℕ) → last xs ≡ none → first xs ≡ none
unfolding first last
first_of_empty [] e = refl
first_of_empty (x ∷ []) e = absurd (cc)
first_of_empty (x ∷ y ∷ ys) e = ground (arith, first_of_empty (y ∷ ys))

-- The locations in a body.
abbrev pub Stands : Layout → CursorLocation → Type 0
Stands l (inst i) = (b : BasicBlockId) × (mem i (l.code b) ≡ true)
Stands l (block_top b) = mem b l.ids ≡ true
Stands l (block_bottom b) = mem b l.ids ≡ true
Stands l no_where = ⊥

abbrev pub at : BodyOrder → CursorLocation → BodyCursor
at o loc = record { order = o; loc = loc }

-- The step leads out of the body, or the other one leads back.
abbrev pub UndoneBy :
    (BodyCursor → Outcome BodyCursor)
    → (BodyCursor → Outcome BodyCursor)
    → BodyOrder
    → CursorLocation
    → Type 0
UndoneBy step undo o loc =
    (loc' : CursorLocation) × (step (at o loc) ≡ returned (at o loc'))
    × ((loc' ≡ no_where) ⊎ (undo (at o loc') ≡ returned (at o loc)))

module _ {o : BodyOrder} {l : Layout} (r : Represents o l) where
  proceed_undone : (loc : CursorLocation) → Stands l loc → UndoneBy proceed back o loc
  unfolding proceed back
  proceed_undone (inst i) (b, h) = elim (Option-cases (next_in (l.code b) i)) [
    | inl e ↦ (
      block_bottom b,
      rw (r.insts b i h, e) refl,
      inr (rw (at_member r b (block_of_member r b i h), last_of_none i (l.code b) h e) refl),
    )
    | inr (x, e) ↦
        let next : is (next_in (l.code b) i) x ≡ true = rw e (ground arith) in
        let prev : prev_in (l.code b) x ≡ some i =
          unfold prev_in in prev_of_next none i x (l.code b) (r.code_distinct b) next in
        (
          inst x,
          rw (r.insts b i h, e) refl,
          inr (rw (r.insts b x (next_mem i x (l.code b) next), prev) refl),
        )
  ]
  proceed_undone (block_top b) h = elim (Option-cases (first (l.code b))) [
    | inl e ↦ (
      block_bottom b,
      rw (at_member r b h, e) refl,
      inr (rw (at_member r b h, last_of_empty (l.code b) e) refl),
    )
    | inr (x, e) ↦
        let head : is (first (l.code b)) x ≡ true = rw e (ground arith) in
        let prev : prev_in (l.code b) x ≡ none =
          unfold prev_in in prev_of_first none x (l.code b) head in
        (
          inst x,
          rw (at_member r b h, e) refl,
          inr (rw (r.insts b x (first-mem x (l.code b) head), prev) refl),
        )
  ]
  proceed_undone (block_bottom b) h = elim (Option-cases (next_in l.ids b)) [
    | inl e ↦ (no_where, rw (at_member r b h, e) refl, inl refl)
    | inr (x, e) ↦
        let next : is (next_in l.ids b) x ≡ true = rw e (ground arith) in
        let prev : prev_in l.ids x ≡ some b =
          unfold prev_in in prev_of_next none b x l.ids r.distinct next in
        (
          block_top x,
          rw (at_member r b h, e) refl,
          inr (rw (at_member r x (next_mem b x l.ids next), prev) refl),
        )
  ]
  proceed_undone no_where h = absurd h

  back_undone : (loc : CursorLocation) → Stands l loc → UndoneBy back proceed o loc
  unfolding proceed back
  back_undone (inst i) (b, h) = elim (Option-cases (prev_in (l.code b) i)) [
    | inl e ↦ (
      block_top b,
      rw (r.insts b i h, e) refl,
      inr (rw (at_member r b (block_of_member r b i h), first_of_none i (l.code b) h e) refl),
    )
    | inr (x, e) ↦
        let prev : is (prev_in (l.code b) i) x ≡ true = rw e (ground arith) in
        let next : next_in (l.code b) x ≡ some i =
          next_of_prev none i x (l.code b) (r.code_distinct b) refl (unfold prev_in in prev) h in
        (
          inst x,
          rw (r.insts b i h, e) refl,
          inr (rw (r.insts b x (prev_in-mem i x (l.code b) prev), next) refl),
        )
  ]
  back_undone (block_bottom b) h = elim (Option-cases (last (l.code b))) [
    | inl e ↦ (
      block_top b,
      rw (at_member r b h, e) refl,
      inr (rw (at_member r b h, first_of_empty (l.code b) e) refl),
    )
    | inr (x, e) ↦
        let end : is (last (l.code b)) x ≡ true = rw e (ground arith) in
        (
          inst x,
          rw (at_member r b h, e) refl,
          inr (
              rw
                (
                  r.insts b x (last-mem x (l.code b) end),
                  next_of_last x (l.code b) (r.code_distinct b) end,
                )
                refl),
        )
  ]
  back_undone (block_top b) h = elim (Option-cases (prev_in l.ids b)) [
    | inl e ↦ (no_where, rw (at_member r b h, e) refl, inl refl)
    | inr (x, e) ↦
        let prev : is (prev_in l.ids b) x ≡ true = rw e (ground arith) in
        let next : next_in l.ids x ≡ some b =
          next_of_prev none b x l.ids r.distinct refl (unfold prev_in in prev) h in
        (
          block_bottom x,
          rw (at_member r b h, e) refl,
          inr (rw (at_member r x (prev_in-mem b x l.ids prev), next) refl),
        )
  ]
  back_undone no_where h = absurd h

  -- In a body whose order stands for a layout, from each location in it `proceed` and `back`
  -- return, and each leads out of the body or is undone by the other.
  pub steps_undone :
      (loc : CursorLocation)
      → Stands l loc
      → UndoneBy proceed back o loc × UndoneBy back proceed o loc
  steps_undone loc h = (proceed_undone loc h, back_undone loc h)
