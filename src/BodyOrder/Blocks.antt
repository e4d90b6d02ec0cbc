-- ===== src/BodyOrder/Blocks.antt =====
-- Putting blocks in.
use fe.Prelude.{
  ◌≡◌, refl, sym, ap, ◌∙◌, true, false, Option, none, some, ◌==◌, if◌then◌else◌, arith,
  Option-cases, inl, inr,
}
use fe.Prelude.Pigeonhole.{mem}
use fe.Prelude.Outcome.{returned}
use fe.BodyOrder.{
  BodyOrder, BlockNode, BasicBlockId, put, default_block, insert_block_after_block, insert_block,
}
use fe.BodyOrder.Links.{
  is, first, last, next_in, insert_after, mem-insert_after, insert_after-Distinct,
}
use fe.BodyOrder.Neighbours.{
  either, next-insert_after, prev-insert_after, next_ne, next_mem, first-insert_after,
}
use fe.BodyOrder.Removal.{last-insert_after}
use fe.BodyOrder.Layout.{
  Gives, with_ids, at_member, at_stranger, block_mut_lem, Layout, Represents, block_node,
}

module _ {o : BodyOrder} {l : Layout} (r : Represents o l) (block after : BasicBlockId)
    (present : mem after l.ids ≡ true) (absent : mem block l.ids ≡ false) where
  unfoldable pub node_after : BlockNode
  node_after = record default_block { prev = some after; next = next_in l.ids after }

  -- The order with the new block and its predecessor.
  linked_after : BodyOrder → BodyOrder
  linked_after o' =
      insert_block
        (record o' {
          blocks = put o'.blocks after (some (record (block_node l after) { next = some block }));
        })
        block node_after

  at_end : BodyOrder
  at_end = linked_after (record o { last_block = block })

  linked_next : BasicBlockId → BodyOrder
  linked_next next = record o {
    blocks = put o.blocks next (some (record (block_node l next) { prev = some block }));
  }

  after_last : next_in l.ids after ≡ none → insert_block_after_block o block after ≡ returned at_end
  unfolding insert_block_after_block node_after linked_after at_end
  after_last e =
      rw (at_member r after present, at_stranger r block absent, e)
        (rw
          (block_mut_lem (record o { last_block = block }) after
            (λ node. record node { next = some block }) (at_member r after present))
          refl)

  after_middle :
      (next : BasicBlockId)
      → next_in l.ids after ≡ some next
      → insert_block_after_block o block after ≡ returned (linked_after (linked_next next))
  unfolding insert_block_after_block node_after linked_after linked_next
  after_middle next e =
      let member : mem next l.ids ≡ true = next_mem after next l.ids (rw e (ground arith)) in
      let other : (after == next) ≡ false = ground (arith, next_ne after l.ids r.distinct) in
      rw
        (
          at_member r after present,
          at_stranger r block absent,
          e,
          block_mut_lem o next (λ node. record node { prev = some block })
              (at_member r next member),
          block_mut_lem (linked_next next) after (λ node. record node { next = some block })
              {node = block_node l after} (rw other (at_member r after present)),
        )
        refl

  after_node :
      (b : BasicBlockId) (found : Option BlockNode)
      → found ≡ (
          if b == block
          then some node_after
          else if b == after
          then some (record (block_node l after) { next = some block })
          else if is (next_in l.ids after) b
          then some (record (block_node l b) { prev = some block })
          else o.blocks b)
      → found ≡ (
          if mem b (insert_after after block l.ids)
          then some (block_node (with_ids l (insert_after after block l.ids)) b)
          else none)
  unfolding node_after first last
  after_node b found e = ground (
    arith,
    next-insert_after after block b l.ids,
    prev-insert_after after block b l.ids,
    mem-insert_after after block b l.ids,
    r.blocks b,
    r.empty block absent,
    next_mem after b l.ids,
    next_ne after l.ids r.distinct,
  )

  pub after-Represents :
      (o' : BodyOrder)
      → o'.insts ≡ o.insts
      → o'.entry_block ≡ o.entry_block
      → either (next_in l.ids after) (some block) (some o.last_block) ≡ some o'.last_block
      → ((b : BasicBlockId)
          → o'.blocks b ≡ (
              if b == block
              then some node_after
              else if b == after
              then some (record (block_node l after) { next = some block })
              else if is (next_in l.ids after) b
              then some (record (block_node l b) { prev = some block })
              else o.blocks b))
      → Represents o' (with_ids l (insert_after after block l.ids))
  after-Represents o' same_insts same_entry end found = record {
    entry = first-insert_after after block l.ids ∙ r.entry ∙ ap some (sym same_entry);
    end = last-insert_after after block l.ids present ∙ rw r.end end;
    distinct = insert_after-Distinct after block l.ids present absent r.distinct;
    blocks = λ b. after_node b (o'.blocks b) (found b);
    empty = λ b h. r.empty b (ground (arith, mem-insert_after after block b l.ids));
    code_distinct = r.code_distinct;
    insts = λ b i h. rw same_insts (r.insts b i h);
    no_insts = λ i h. rw same_insts (r.no_insts i h);
  }

  pub insert_block_after_block-Gives :
      Gives (insert_block_after_block o block after) (with_ids l (insert_after after block l.ids))
  unfolding at_end linked_after linked_next
  insert_block_after_block-Gives = elim (Option-cases (next_in l.ids after)) [
    | inl e ↦ (
      at_end,
      after_last e,
      after-Represents at_end refl refl (rw e refl) (λ b. rw e (ground arith)),
    )
    | inr (next, e) ↦ (
      linked_after (linked_next next),
      after_middle next e,
      after-Represents (linked_after (linked_next next)) refl refl (rw e refl)
          (λ b. rw e (ground arith)),
    )
  ]
