-- ===== src/BodyCursor/Edits.antt =====
-- The edits of a body at the place of a cursor, against the layout of its order.
use fe.Prelude.{
  ℕ, zero, suc, ◌≤◌, ◌≡◌, refl, ap, true, false, none, List, [], ◌∷◌, ◌++◌, arith, inl, inr,
  Option-cases, length,
}
use fe.Prelude.Pigeonhole.{mem}
use fe.Prelude.Outcome.{Outcome, returned}
use fe.BodyOrder.{BodyOrder, BasicBlockId, InstId}
use fe.BodyOrder.Links.{first, next_in, insert_after, remove}
use fe.BodyOrder.Layout.{Gives, Layout, Represents, with_code, with_ids, at_member}
use fe.BodyOrder.Blocks.{insert_block_after_block-Gives}
use fe.BodyOrder.Insts.{insert_inst_after-Gives}
use fe.BodyOrder.InstsEnds.{append_inst-Gives, prepend_inst-Gives}
use fe.BodyOrder.Taken.{remove_inst-Gives}
use fe.BodyOrder.Removing.{
  remove_inst as remove_from_order, remove_block as remove_block_from_order,
}
use fe.BodyOrder.BlockTaken.{remove_block-Gives, with_code_again, with_code_same}
use fe.BodyCursor.{
  BodyCursor, CursorLocation, inst, block_top, block_bottom, no_where, map_or, insert_inst,
  remove_inst, remove_insts, remove_from, remove_block, insert_block, expect_block,
}
use fe.BodyCursor.Steps.{at}

-- The run returns a cursor at `loc`, in a body for the layout.
abbrev pub CursorGives : Outcome BodyCursor → CursorLocation → Layout → Type 0
CursorGives run loc l = (o : BodyOrder) × (run ≡ returned (at o loc)) × Represents o l

-- The locations of a block.
abbrev pub InBlock : Layout → BasicBlockId → CursorLocation → Type 0
InBlock l b (inst i) = mem i (l.code b) ≡ true
InBlock l b (block_top b') = b' ≡ b
InBlock l b (block_bottom b') = b' ≡ b
InBlock l b no_where = ⊥

-- The instructions of a block after one is inserted at a location in it.
abbrev pub inserted : CursorLocation → InstId → List InstId → List InstId
inserted (inst after) i is = insert_after after i is
inserted (block_top b) i is = i ∷ is
inserted (block_bottom b) i is = is ++ i ∷ []
inserted no_where i is = is

module _ {o : BodyOrder} {l : Layout} (r : Represents o l) where
  expect_block_lem :
      (b : BasicBlockId) (loc : CursorLocation)
      → InBlock l b loc
      → expect_block (at o loc) ≡ returned b
  unfolding expect_block
  expect_block_lem b (inst i) h = rw (r.insts b i h) refl
  expect_block_lem b (block_top b') h = ap returned h
  expect_block_lem b (block_bottom b') h = ap returned h
  expect_block_lem b no_where h = absurd h

  -- In a body whose order stands for a layout, with a cursor at any location in a block,
  -- `insert_inst` of a new instruction puts it after the instruction at the cursor, or at the
  -- beginning or the end of the block if the cursor is at its top or its bottom; the cursor stays
  -- where it is.
  pub insert_inst-CursorGives :
      (b : BasicBlockId) (i : InstId) (loc : CursorLocation)
      → mem b l.ids ≡ true
      → InBlock l b loc
      → ((b' : BasicBlockId) → mem i (l.code b') ≡ false)
      → CursorGives (insert_inst (at o loc) i) loc (with_code l b (inserted loc i (l.code b)))
  unfolding insert_inst
  insert_inst-CursorGives b i (inst after) inside h fresh =
      let (o1, run, r1) = insert_inst_after-Gives r b i after h fresh in (o1, rw run refl, r1)
  insert_inst-CursorGives b i (block_top b') inside h fresh =
      let (o1, run, r1) = prepend_inst-Gives r b i inside fresh in (o1, rw (h, run) refl, r1)
  insert_inst-CursorGives b i (block_bottom b') inside h fresh =
      let (o1, run, r1) = append_inst-Gives r b i inside fresh in (o1, rw (h, run) refl, r1)
  insert_inst-CursorGives b i no_where inside h fresh = absurd h

  -- In a body whose order stands for a layout, with a cursor at any location in a block,
  -- `insert_block` puts a new block after that block; the cursor stays where it is.
  pub insert_block-CursorGives :
      (b block : BasicBlockId) (loc : CursorLocation)
      → mem b l.ids ≡ true
      → InBlock l b loc
      → mem block l.ids ≡ false
      → CursorGives (insert_block (at o loc) block) loc (with_ids l (insert_after b block l.ids))
  unfolding insert_block
  insert_block-CursorGives b block loc inside h absent =
      let (o1, run, r1) = insert_block_after_block-Gives r block b inside absent in
      (o1, rw (expect_block_lem b loc h, run) refl, r1)

  remove_inst-CursorGives :
      (b : BasicBlockId) (i : InstId)
      → mem i (l.code b) ≡ true
      → CursorGives
          (remove_inst (at o (inst i)))
          (map_or (next_in (l.code b) i) (block_bottom b) inst)
          (with_code l b (remove i (l.code b)))
  unfolding remove_inst
  remove_inst-CursorGives b i h =
      let (o1, run, r1) = remove_inst-Gives r b i h in (o1, rw (r.insts b i h, run) refl, r1)

remove_insts-CursorGives :
    (fuel : ℕ) (is : List InstId) (o : BodyOrder) (l : Layout) (b : BasicBlockId)
    → Represents o l
    → l.code b ≡ is
    → length is ≤ fuel
    → CursorGives
        (remove_insts fuel o (map_or (first is) (block_bottom b) inst))
        (block_bottom b)
        (with_code l b [])
unfolding remove_insts first
remove_insts-CursorGives fuel [] o l b r e le = (o, refl, rw (with_code_same l b [] e) r)
remove_insts-CursorGives zero (i ∷ is) o l b r e le = absurd (omega arith)
remove_insts-CursorGives (suc fuel) (i ∷ is) o l b r e le =
    let present : mem i (l.code b) ≡ true = rw e (ground arith) in
    let (o1, run, r1) = remove_inst-CursorGives r b i present in
    let rest : remove i (l.code b) ≡ is = rw e (unfold remove in ground arith) in
    let after : next_in (l.code b) i ≡ first is = rw e (unfold next_in in ground arith) in
    let (o2, run2, r2) =
      remove_insts-CursorGives fuel is o1 (with_code l b is) b (rw rest at r1) (ground arith)
        (omega arith) in
    (o2, rw (run, after) run2, rw (with_code_again l b is []) at r2)

empty_of_first : (xs : List ℕ) → first xs ≡ none → xs ≡ []
unfolding first
empty_of_first [] e = refl
empty_of_first (x ∷ xs) e = absurd (cc)

module _ {o : BodyOrder} {l : Layout} (r : Represents o l) where
  -- What is left of the block before it is taken out itself.
  remove_from-Gives :
      (fuel : ℕ) (b : BasicBlockId) (loc : CursorLocation)
      → length (l.code b) ≤ fuel
      → (c : BodyCursor) × (remove_from fuel (at o loc) (first (l.code b)) ≡ returned c)
        × Represents c.order (with_code l b [])
  unfolding remove_from
  remove_from-Gives fuel b loc enough = elim (Option-cases (first (l.code b))) [
    | inl e ↦ (at o loc, rw e refl, rw (with_code_same l b [] (empty_of_first (l.code b) e)) r)
    | inr (i, e) ↦
        let (o1, run, r1) = remove_insts-CursorGives fuel (l.code b) o l b r refl enough in
        (at o1 (block_bottom b), rw e (rw e at run), r1)
  ]

  remove_block-CursorGives :
      (fuel : ℕ) (b : BasicBlockId) (loc : CursorLocation)
      → InBlock l b loc
      → mem b l.ids ≡ true
      → 2 ≤ length l.ids
      → length (l.code b) ≤ fuel
      → CursorGives
          (remove_block fuel (at o loc))
          (map_or (next_in l.ids b) no_where block_top)
          (with_ids (with_code l b []) (remove b l.ids))
  unfolding remove_block
  remove_block-CursorGives fuel b loc h inside many enough =
      let (c, run1, r1) = remove_from-Gives fuel b loc enough in
      let (o2, run2, r2) = remove_block-Gives r1 fuel b inside many (ground (arith)) in
      (
        o2,
        rw (expect_block_lem r b loc h, at_member r b inside, run1, run2) refl,
        rw (with_code_again l b [] []) at r2,
      )

  -- In a body whose order stands for a layout, `remove_inst` of the order, of any instruction of a
  -- block, returns an order for the layout without it; `remove_inst` of a cursor that points to
  -- the instruction does so too, and leaves the cursor at the next instruction, or at the bottom
  -- of the block.
  pub inst_removals :
      (b : BasicBlockId) (i : InstId)
      → mem i (l.code b) ≡ true
      → Gives (remove_from_order o i) (with_code l b (remove i (l.code b)))
        × CursorGives
            (remove_inst (at o (inst i)))
            (map_or (next_in (l.code b) i) (block_bottom b) inst)
            (with_code l b (remove i (l.code b)))
  inst_removals b i there = (remove_inst-Gives r b i there, remove_inst-CursorGives r b i there)

  -- In a body of at least two blocks whose order stands for a layout, with as much fuel as the
  -- block has instructions, `remove_block` of the order, of any block, returns an order for the
  -- layout without the block and its instructions; `remove_block` of a cursor at any location in
  -- the block does so too, and leaves the cursor at the top of the next block, or nowhere.
  pub block_removals :
      (fuel : ℕ) (b : BasicBlockId) (loc : CursorLocation)
      → mem b l.ids ≡ true
      → InBlock l b loc
      → 2 ≤ length l.ids
      → length (l.code b) ≤ fuel
      → Gives (remove_block_from_order fuel o b) (with_ids (with_code l b []) (remove b l.ids))
        × CursorGives
            (remove_block fuel (at o loc))
            (map_or (next_in l.ids b) no_where block_top)
            (with_ids (with_code l b []) (remove b l.ids))
  block_removals fuel b loc inside h many enough = (
    remove_block-Gives r fuel b inside many enough,
    remove_block-CursorGives fuel b loc h inside many enough,
  )
