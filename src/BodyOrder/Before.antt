-- ===== src/BodyOrder/Before.antt =====
-- Putting a block in before another, and at the end.
use fe.Prelude.{
  ◌≡◌, refl, sym, ap, ◌∙◌, true, false, Option, none, some, [], ◌∷◌, ◌++◌, ◌==◌, if◌then◌else◌,
  arith, Option-cases, inl, inr,
}
use fe.Prelude.Pigeonhole.{mem}
use fe.Prelude.Outcome.{returned}
use fe.BodyOrder.{
  BodyOrder, BlockNode, BasicBlockId, put, default_block, insert_block_before_block, append_block,
  insert_block,
}
use fe.BodyOrder.Links.{
  is, first, last, prev_in, insert_before, mem-insert_before, insert_before-Distinct,
}
use fe.BodyOrder.Neighbours.{either, next-insert_before, prev-insert_before, prev_in-mem, prev_ne}
use fe.BodyOrder.Removal.{last_facts, last-insert_before, first-insert_before}
use fe.BodyOrder.Layout.{
  Layout, Represents, block_node, Gives, with_ids, at_member, at_stranger, block_mut_lem,
}
use fe.BodyOrder.Blocks.{after-Represents, node_after}

module _ {o : BodyOrder} {l : Layout} (r : Represents o l) (block before : BasicBlockId)
    (present : mem before l.ids ≡ true) (absent : mem block l.ids ≡ false) where
  node_before : BlockNode
  node_before = record default_block { prev = prev_in l.ids before; next = some before }

  -- The order with the new block and its successor.
  linked_before : BodyOrder → BodyOrder
  linked_before o' =
      insert_block
        (record o' {
          blocks = put o'.blocks before (some (record (block_node l before) { prev = some block }));
        })
        block node_before

  at_start : BodyOrder
  at_start = linked_before (record o { entry_block = block })

  linked_prev : BasicBlockId → BodyOrder
  linked_prev prev = record o {
    blocks = put o.blocks prev (some (record (block_node l prev) { next = some block }));
  }

  before_first :
      prev_in l.ids before ≡ none → insert_block_before_block o block before ≡ returned at_start
  unfolding insert_block_before_block node_before linked_before at_start
  before_first e =
      rw (at_member r before present, at_stranger r block absent, e)
        (rw
          (block_mut_lem (record o { entry_block = block }) before
            (λ node. record node { prev = some block }) (at_member r before present))
          refl)

  before_middle :
      (prev : BasicBlockId)
      → prev_in l.ids before ≡ some prev
      → insert_block_before_block o block before ≡ returned (linked_before (linked_prev prev))
  unfolding insert_block_before_block node_before linked_before linked_prev
  before_middle prev e =
      let member : mem prev l.ids ≡ true = prev_in-mem before prev l.ids (rw e (ground arith)) in
      let other : (before == prev) ≡ false = ground (arith, prev_ne before l.ids r.distinct) in
      rw
        (
          at_member r before present,
          at_stranger r block absent,
          e,
          block_mut_lem o prev (λ node. record node { next = some block })
              (at_member r prev member),
          block_mut_lem (linked_prev prev) before (λ node. record node { prev = some block })
              {node = block_node l before} (rw other (at_member r before present)),
        )
        refl

  before_node :
      (b : BasicBlockId) (found : Option BlockNode)
      → found ≡ (
          if b == block
          then some node_before
          else if b == before
          then some (record (block_node l before) { prev = some block })
          else if is (prev_in l.ids before) b
          then some (record (block_node l b) { next = some block })
          else o.blocks b)
      → found ≡ (
          if mem b (insert_before before block l.ids)
          then some (block_node (with_ids l (insert_before before block l.ids)) b)
          else none)
  unfolding node_before first last
  before_node b found e = ground (
    arith,
    next-insert_before before block b l.ids,
    prev-insert_before before block b l.ids,
    mem-insert_before before block b l.ids,
    r.blocks b,
    r.empty block absent,
    prev_in-mem before b l.ids,
    prev_ne before l.ids r.distinct,
  )

  before-Represents :
      (o' : BodyOrder)
      → o'.insts ≡ o.insts
      → o'.last_block ≡ o.last_block
      → either (prev_in l.ids before) (some block) (some o.entry_block) ≡ some o'.entry_block
      → ((b : BasicBlockId)
          → o'.blocks b ≡ (
              if b == block
              then some node_before
              else if b == before
              then some (record (block_node l before) { prev = some block })
              else if is (prev_in l.ids before) b
              then some (record (block_node l b) { next = some block })
              else o.blocks b))
      → Represents o' (with_ids l (insert_before before block l.ids))
  before-Represents o' same_insts same_last entry found = record {
    entry = first-insert_before before block l.ids present ∙ rw r.entry entry;
    end = last-insert_before before block l.ids ∙ r.end ∙ ap some (sym same_last);
    distinct = insert_before-Distinct before block l.ids present absent r.distinct;
    blocks = λ b. before_node b (o'.blocks b) (found b);
    empty = λ b h. r.empty b (ground (arith, mem-insert_before before block b l.ids));
    code_distinct = r.code_distinct;
    insts = λ b i h. rw same_insts (r.insts b i h);
    no_insts = λ i h. rw same_insts (r.no_insts i h);
  }

  pub insert_block_before_block-Gives :
      Gives
        (insert_block_before_block o block before)
        (with_ids l (insert_before before block l.ids))
  unfolding at_start linked_before linked_prev
  insert_block_before_block-Gives = elim (Option-cases (prev_in l.ids before)) [
    | inl e ↦ (
      at_start,
      before_first e,
      before-Represents at_start refl refl (rw e refl) (λ b. rw e (ground arith)),
    )
    | inr (prev, e) ↦ (
      linked_before (linked_prev prev),
      before_middle prev e,
      before-Represents (linked_before (linked_prev prev)) refl refl (rw e refl)
          (λ b. rw e (ground arith)),
    )
  ]

pub append_block-Gives :
    {o : BodyOrder} {l : Layout} (r : Represents o l) (block : BasicBlockId)
    → mem block l.ids ≡ false
    → Gives (append_block o block) (with_ids l (l.ids ++ block ∷ []))
unfolding append_block
append_block-Gives {o} {l} r block absent =
    let (member, end, same) = last_facts o.last_block block l.ids r.end r.distinct in
    (
      record (insert_block
          (record o {
            blocks =
                put o.blocks o.last_block
                  (some (record (block_node l o.last_block) { next = some block }));
          })
          block (record default_block { prev = some o.last_block })) { last_block = block },
      rw
          (
            at_stranger r block absent,
            block_mut_lem o o.last_block (λ node. record node { next = some block })
                (at_member r o.last_block member),
          )
          refl,
      rw (← same) (
          after-Represents r block o.last_block member absent _ refl refl (rw end refl)
            (λ b. unfold node_after in rw end (ground arith))),
    )
