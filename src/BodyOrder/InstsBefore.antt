-- ===== src/BodyOrder/InstsBefore.antt =====
-- Putting an instruction in before another.
use fe.Prelude.{
  ◌≡◌, refl, true, false, none, some, ◌==◌, if◌then◌else◌, arith, Option-cases, inl, inr,
}
use fe.Prelude.Pigeonhole.{mem}
use fe.Prelude.Outcome.{returned}
use fe.BodyOrder.{
  BodyOrder, InstNode, BasicBlockId, InstId, put, new_inst, insert_inst_before_inst, insert_inst,
}
use fe.BodyOrder.Links.{
  is, first, prev_in, insert_before, mem-insert_before, insert_before-Distinct,
}
use fe.BodyOrder.Neighbours.{either, next-insert_before, prev-insert_before, prev_in-mem, prev_ne}
use fe.BodyOrder.Removal.{last-insert_before, first-insert_before}
use fe.BodyOrder.Layout.{
  Layout, Represents, block_node, inst_node, Gives, with_code, at_member, block_mut_lem,
}
use fe.BodyOrder.Code.{one_block, changed-Represents, inst_mut_lem, block_of_member}

module _ {o : BodyOrder} {l : Layout} (r : Represents o l) (b : BasicBlockId) (inst before : InstId)
    (present : mem before (l.code b) ≡ true)
    (absent : (b' : BasicBlockId) → mem inst (l.code b') ≡ false) where
  unfoldable pub inst_node_before : InstNode
  inst_node_before = record (new_inst b) { prev = prev_in (l.code b) before; next = some before }

  linked_inst : BodyOrder → BodyOrder
  linked_inst o' =
      insert_inst
        (record o' {
          insts = put o'.insts before (some (record (inst_node l b before) { prev = some inst }));
        })
        inst inst_node_before

  at_block : o.blocks b ≡ some (block_node l b)
  at_block = at_member r b (block_of_member r b before present)

  new_first : BodyOrder
  new_first = record o {
    blocks = put o.blocks b (some (record (block_node l b) { first_inst = some inst }));
  }

  new_next : InstId → BodyOrder
  new_next prev = record o {
    insts = put o.insts prev (some (record (inst_node l b prev) { next = some inst }));
  }

  inst_before_first :
      prev_in (l.code b) before ≡ none
      → insert_inst_before_inst o inst before ≡ returned (linked_inst new_first)
  unfolding insert_inst_before_inst inst_node_before linked_inst new_first
  inst_before_first e =
      rw
        (
          r.insts b before present,
          r.no_insts inst absent,
          e,
          block_mut_lem o b (λ node. record node { first_inst = some inst }) at_block,
        )
        (rw
          (inst_mut_lem (new_first) before (λ node. record node { prev = some inst })
            {node = inst_node l b before} (r.insts b before present))
          refl)

  inst_before_middle :
      (prev : InstId)
      → prev_in (l.code b) before ≡ some prev
      → insert_inst_before_inst o inst before ≡ returned (linked_inst (new_next prev))
  unfolding insert_inst_before_inst inst_node_before linked_inst new_next
  inst_before_middle prev e =
      let member : mem prev (l.code b) ≡ true =
        prev_in-mem before prev (l.code b) (rw e (ground arith)) in
      let other : (before == prev) ≡ false =
        ground (arith, prev_ne before (l.code b) (r.code_distinct b)) in
      rw
        (
          r.insts b before present,
          r.no_insts inst absent,
          e,
          inst_mut_lem o prev (λ node. record node { next = some inst }) (r.insts b prev member),
          inst_mut_lem (new_next prev) before (λ node. record node { prev = some inst })
              {node = inst_node l b before} (rw other (r.insts b before present)),
        )
        refl

  abbrev pub FoundBefore : BodyOrder → Type 0
  FoundBefore o' =
      (i : InstId)
      → o'.insts i ≡ (
          if i == inst
          then some inst_node_before
          else if i == before
          then some (record (inst_node l b before) { prev = some inst })
          else if is (prev_in (l.code b) before) i
          then some (record (inst_node l b i) { next = some inst })
          else o.insts i)

  pub inst_before-Represents :
      (o' : BodyOrder)
      → o'.entry_block ≡ o.entry_block
      → o'.last_block ≡ o.last_block
      → ((b' : BasicBlockId)
          → o'.blocks b' ≡ (
              if b' == b
              then some (record (block_node l b) {
                first_inst = either (prev_in (l.code b) before) (some inst) (first (l.code b));
              })
              else o.blocks b'))
      → FoundBefore o'
      → Represents o' (with_code l b (insert_before before inst (l.code b)))
  unfolding inst_node_before
  inst_before-Represents o' same_entry same_last ends found =
      let c = l.code b in
      changed-Represents r b (insert_before before inst c) o' (block_of_member r b before present)
        same_entry same_last
        (λ b'.
          rw (last-insert_before before inst c, first-insert_before before inst c present)
            (ends b'))
        (insert_before-Distinct before inst c present (absent b) (r.code_distinct b))
        (λ b' i h other.
          ground (arith, mem-insert_before before inst i c present, absent b', one_block r b b' i))
        (λ i h. ground (
          arith,
          found i,
          next-insert_before before inst i c present (absent b) (r.code_distinct b),
          prev-insert_before before inst i c present (absent b),
          mem-insert_before before inst i c present,
          r.insts b i,
          absent b,
          prev_in-mem before i c,
          prev_ne before c (r.code_distinct b),
        ))
        (λ i h.
          ground
            (arith, found i, mem-insert_before before inst i c present, prev_in-mem before i c))

  pub insert_inst_before_inst-Gives :
      Gives
        (insert_inst_before_inst o inst before)
        (with_code l b (insert_before before inst (l.code b)))
  unfolding linked_inst new_first new_next
  insert_inst_before_inst-Gives = elim (Option-cases (prev_in (l.code b) before)) [
    | inl e ↦ (
      linked_inst new_first,
      inst_before_first e,
      inst_before-Represents (linked_inst new_first) refl refl (λ b'. rw e (ground arith))
          (λ i. rw e (ground arith)),
    )
    | inr (prev, e) ↦ (
      linked_inst (new_next prev),
      inst_before_middle prev e,
      inst_before-Represents (linked_inst (new_next prev)) refl refl
          (λ b'. rw e (ground (arith, at_block))) (λ i. rw e (ground arith)),
    )
  ]
