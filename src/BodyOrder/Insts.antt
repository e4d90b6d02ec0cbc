-- ===== src/BodyOrder/Insts.antt =====
-- Putting an instruction in after another, and at the end of a block.
use fe.Prelude.{
  ◌≡◌, refl, true, false, none, some, ◌==◌, if◌then◌else◌, arith, Option-cases, inl, inr,
}
use fe.Prelude.Pigeonhole.{mem}
use fe.Prelude.Outcome.{returned}
use fe.BodyOrder.{
  BodyOrder, InstNode, BasicBlockId, InstId, put, new_inst, insert_inst_after, insert_inst,
}
use fe.BodyOrder.Links.{is, last, next_in, insert_after, mem-insert_after, insert_after-Distinct}
use fe.BodyOrder.Neighbours.{
  either, next-insert_after, prev-insert_after, next_mem, next_ne, first-insert_after,
}
use fe.BodyOrder.Removal.{last-insert_after}
use fe.BodyOrder.Layout.{
  Layout, Represents, block_node, inst_node, Gives, with_code, at_member, block_mut_lem,
}
use fe.BodyOrder.Code.{one_block, changed-Represents, inst_mut_lem, block_of_member}

module _ {o : BodyOrder} {l : Layout} (r : Represents o l) (b : BasicBlockId) (inst after : InstId)
    (present : mem after (l.code b) ≡ true)
    (absent : (b' : BasicBlockId) → mem inst (l.code b') ≡ false) where
  unfoldable pub inst_node_after : InstNode
  inst_node_after = record (new_inst b) { prev = some after; next = next_in (l.code b) after }

  linked_inst : BodyOrder → BodyOrder
  linked_inst o' =
      insert_inst
        (record o' {
          insts = put o'.insts after (some (record (inst_node l b after) { next = some inst }));
        })
        inst inst_node_after

  at_block : o.blocks b ≡ some (block_node l b)
  at_block = at_member r b (block_of_member r b after present)

  new_last : BodyOrder
  new_last = record o {
    blocks = put o.blocks b (some (record (block_node l b) { last_inst = some inst }));
  }

  new_prev : InstId → BodyOrder
  new_prev next = record o {
    insts = put o.insts next (some (record (inst_node l b next) { prev = some inst }));
  }

  inst_after_last :
      next_in (l.code b) after ≡ none
      → insert_inst_after o inst after ≡ returned (linked_inst new_last)
  unfolding insert_inst_after inst_node_after linked_inst new_last
  inst_after_last e =
      rw
        (
          r.insts b after present,
          r.no_insts inst absent,
          e,
          block_mut_lem o b (λ node. record node { last_inst = some inst }) at_block,
        )
        (rw
          (inst_mut_lem (new_last) after (λ node. record node { next = some inst })
            {node = inst_node l b after} (r.insts b after present))
          refl)

  inst_after_middle :
      (next : InstId)
      → next_in (l.code b) after ≡ some next
      → insert_inst_after o inst after ≡ returned (linked_inst (new_prev next))
  unfolding insert_inst_after inst_node_after linked_inst new_prev
  inst_after_middle next e =
      let member : mem next (l.code b) ≡ true =
        next_mem after next (l.code b) (rw e (ground arith)) in
      let other : (after == next) ≡ false =
        ground (arith, next_ne after (l.code b) (r.code_distinct b)) in
      rw
        (
          r.insts b after present,
          r.no_insts inst absent,
          e,
          inst_mut_lem o next (λ node. record node { prev = some inst }) (r.insts b next member),
          inst_mut_lem (new_prev next) after (λ node. record node { next = some inst })
              {node = inst_node l b after} (rw other (r.insts b after present)),
        )
        refl

  abbrev pub FoundAfter : BodyOrder → Type 0
  FoundAfter o' =
      (i : InstId)
      → o'.insts i ≡ (
          if i == inst
          then some inst_node_after
          else if i == after
          then some (record (inst_node l b after) { next = some inst })
          else if is (next_in (l.code b) after) i
          then some (record (inst_node l b i) { prev = some inst })
          else o.insts i)

  pub inst_after-Represents :
      (o' : BodyOrder)
      → o'.entry_block ≡ o.entry_block
      → o'.last_block ≡ o.last_block
      → ((b' : BasicBlockId)
          → o'.blocks b' ≡ (
              if b' == b
              then some (record (block_node l b) {
                last_inst = either (next_in (l.code b) after) (some inst) (last (l.code b));
              })
              else o.blocks b'))
      → FoundAfter o'
      → Represents o' (with_code l b (insert_after after inst (l.code b)))
  unfolding inst_node_after
  inst_after-Represents o' same_entry same_last ends found =
      let c = l.code b in
      changed-Represents r b (insert_after after inst c) o' (block_of_member r b after present)
        same_entry same_last
        (λ b'.
          rw (first-insert_after after inst c, last-insert_after after inst c present) (ends b'))
        (insert_after-Distinct after inst c present (absent b) (r.code_distinct b))
        (λ b' i h other.
          ground (arith, mem-insert_after after inst i c present, absent b', one_block r b b' i))
        (λ i h. ground (
          arith,
          found i,
          next-insert_after after inst i c present (absent b),
          prev-insert_after after inst i c present (absent b) (r.code_distinct b),
          mem-insert_after after inst i c present,
          r.insts b i,
          absent b,
          next_mem after i c,
          next_ne after c (r.code_distinct b),
        ))
        (λ i h.
          ground (arith, found i, mem-insert_after after inst i c present, next_mem after i c))

  pub insert_inst_after-Gives :
      Gives (insert_inst_after o inst after) (with_code l b (insert_after after inst (l.code b)))
  unfolding linked_inst new_last new_prev
  insert_inst_after-Gives = elim (Option-cases (next_in (l.code b) after)) [
    | inl e ↦ (
      linked_inst new_last,
      inst_after_last e,
      inst_after-Represents (linked_inst new_last) refl refl (λ b'. rw e (ground arith))
          (λ i. rw e (ground arith)),
    )
    | inr (next, e) ↦ (
      linked_inst (new_prev next),
      inst_after_middle next e,
      inst_after-Represents (linked_inst (new_prev next)) refl refl
          (λ b'. rw e (ground (arith, at_block))) (λ i. rw e (ground arith)),
    )
  ]
