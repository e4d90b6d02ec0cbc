-- ===== src/BodyOrder/Iterators.antt =====
-- What the iterators yield.
use fe.Prelude.{ℕ, zero, suc, ◌≤◌, ◌≡◌, refl, ◌∙◌, true, List, [], ◌∷◌, arith, length}
use fe.Prelude.Pigeonhole.{mem, Distinct}
use fe.Prelude.Outcome.{returned}
use fe.BodyOrder.{BodyOrder, BasicBlockId, InstId}
use fe.BodyOrder.Walk.{blocks_from, insts_from, iter_block, iter_inst}
use fe.BodyOrder.Links.{first, next_in}
use fe.BodyOrder.Layout.{Layout, Represents, at_member}

-- `xs` ends the list `all`: the next keys of its keys are those in `all`.
abbrev pub Follows : List ℕ → List ℕ → Type 0
Follows all xs = (x : ℕ) → mem x xs ≡ true → (next_in all x ≡ next_in xs x) × (mem x all ≡ true)

pub Follows-tail :
    (all : List ℕ) (x : ℕ) (xs : List ℕ) → Distinct (x ∷ xs) → Follows all (x ∷ xs) → Follows all xs
unfolding next_in
Follows-tail all x xs d f y h =
    let (same, member) = f y (ground arith) in (same ∙ ground arith, member)

module _ {o : BodyOrder} {l : Layout} (r : Represents o l) where
  blocks_from_lem :
      (fuel : ℕ) (xs : List BasicBlockId)
      → Distinct xs
      → Follows l.ids xs
      → length xs ≤ fuel
      → blocks_from fuel o (first xs) ≡ returned xs
  unfolding blocks_from first next_in
  blocks_from_lem fuel [] d f le = refl
  blocks_from_lem zero (x ∷ xs) d f le = absurd (omega arith)
  blocks_from_lem (suc fuel) (x ∷ xs) d f le =
      let (same, member) = f x (ground arith) in
      let next : next_in l.ids x ≡ first xs = same ∙ ground arith in
      rw
        (
          at_member r x member,
          next,
          blocks_from_lem fuel xs d.1 (Follows-tail l.ids x xs d f) (omega arith),
        )
        refl

  insts_from_lem :
      (b : BasicBlockId) (fuel : ℕ) (xs : List InstId)
      → Distinct xs
      → Follows (l.code b) xs
      → length xs ≤ fuel
      → insts_from fuel o (first xs) ≡ returned xs
  unfolding insts_from first next_in
  insts_from_lem b fuel [] d f le = refl
  insts_from_lem b zero (x ∷ xs) d f le = absurd (omega arith)
  insts_from_lem b (suc fuel) (x ∷ xs) d f le =
      let (same, member) = f x (ground arith) in
      let next : next_in (l.code b) x ≡ first xs = same ∙ ground arith in
      rw
        (
          r.insts b x member,
          next,
          insts_from_lem b fuel xs d.1 (Follows-tail (l.code b) x xs d f) (omega arith),
        )
        refl

  -- On an order that stands for a layout, with as much fuel as the list has elements, the
  -- iterators yield the blocks of the layout and the instructions of a block in their order, and
  -- end.
  pub iterators_yield :
      (fuel : ℕ) (b : BasicBlockId)
      → mem b l.ids ≡ true
      → length l.ids ≤ fuel
      → length (l.code b) ≤ fuel
      → (iter_block fuel o ≡ returned l.ids) × (iter_inst fuel o b ≡ returned (l.code b))
  unfolding iter_block iter_inst
  iterators_yield fuel b h many more = (
    rw (← r.entry) (blocks_from_lem fuel l.ids r.distinct (λ x m. (refl, m)) many),
    rw (at_member r b h)
        (insts_from_lem b fuel (l.code b) (r.code_distinct b) (λ x m. (refl, m)) more),
  )
