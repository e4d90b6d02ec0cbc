-- ===== src/BodyOrder/InstsEnds.antt =====
-- Putting an instruction in at an end of a block.
use fe.Prelude.{
  ◌≡◌, refl, true, false, none, some, [], ◌∷◌, ◌++◌, ◌==◌, if◌then◌else◌, arith, Option-cases, inl,
  inr,
}
use fe.Prelude.Pigeonhole.{mem}
use fe.BodyOrder.{
  BodyOrder, BlockNode, BasicBlockId, InstId, put, new_inst, insert_inst, append_inst, prepend_inst,
}
use fe.BodyOrder.Links.{first, last, next_in, prev_in, prev_from}
use fe.BodyOrder.Removal.{last_facts, first_facts, first_none, last_none}
use fe.BodyOrder.Layout.{
  Layout, Represents, block_node, inst_node, Gives, with_code, at_member, block_mut_lem,
}
use fe.BodyOrder.Code.{set_block, set_inst, changed-Represents, inst_mut_lem}
use fe.BodyOrder.Insts.{inst_after-Represents, inst_node_after}
use fe.BodyOrder.InstsBefore.{inst_before-Represents, inst_node_before}

module _ {o : BodyOrder} {l : Layout} (r : Represents o l) (b : BasicBlockId) (inst : InstId)
    (inside : mem b l.ids ≡ true)
    (absent : (b' : BasicBlockId) → mem inst (l.code b') ≡ false) where
  -- The order where the instruction is the only one of its block.
  only : BodyOrder
  only = record o {
    blocks =
        put o.blocks b
          (some (record (block_node l b) { first_inst = some inst; last_inst = some inst }));
    insts = put o.insts inst (some (new_inst b));
  }

  only-Represents :
      (o' : BodyOrder)
      → l.code b ≡ []
      → o'.entry_block ≡ o.entry_block
      → o'.last_block ≡ o.last_block
      → ((b' : BasicBlockId)
          → o'.blocks b' ≡ (
              if b' == b
              then some (record (block_node l b) { first_inst = some inst; last_inst = some inst })
              else o.blocks b'))
      → ((i : InstId) → o'.insts i ≡ (if i == inst then some (new_inst b) else o.insts i))
      → Represents o' (with_code l b (inst ∷ []))
  unfolding first last next_in prev_in prev_from
  only-Represents o' e same_entry same_last ends found =
      changed-Represents r b (inst ∷ []) o' inside same_entry same_last ends (refl, tt)
        (λ b' i h other. ground (arith, absent b')) (λ i h. ground (arith, found i))
        (λ i h. ground (arith, found i))

  -- The block's node with one end set.
  first_set : BlockNode
  first_set = record (block_node l b) { first_inst = some inst }

  last_set : BlockNode
  last_set = record (block_node l b) { last_inst = some inst }

  first_only : BlockNode
  first_only = record (block_node l b) { first_inst = some inst; last_inst = none }

  last_only : BlockNode
  last_only = record (block_node l b) { first_inst = none; last_inst = some inst }

  append_only : BodyOrder
  append_only =
      insert_inst
        (set_block (set_block o b first_only) b (record first_only { last_inst = some inst })) inst
        (new_inst b)

  append_more : InstId → BodyOrder
  append_more a =
      insert_inst
        (set_block (set_inst o a (record (inst_node l b a) { next = some inst })) b last_set) inst
        (record (new_inst b) { prev = some a })

  pub append_inst-Gives : Gives (append_inst o inst b) (with_code l b (l.code b ++ inst ∷ []))
  unfolding append_inst first_only first_set last_set append_only append_more inst_node_after
  append_inst-Gives = elim (Option-cases (last (l.code b))) [
    | inl e ↦
        let none_yet : l.code b ≡ [] = last_none (l.code b) e in
        (
          append_only,
          rw (at_member r b inside, r.no_insts inst absent, e)
              (rw
                (block_mut_lem (set_block o b first_only) b
                  (λ node. record node { last_inst = some inst }) {node = first_only}
                  (ground arith))
                refl),
          rw none_yet
              (only-Represents append_only none_yet refl refl (λ b'. ground arith) (λ i. refl)),
        )
    | inr (a, e) ↦
        let (member, end, same) = last_facts a inst (l.code b) e (r.code_distinct b) in
        (
          append_more a,
          rw
              (
                at_member r b inside,
                r.no_insts inst absent,
                e,
                inst_mut_lem o a (λ node. record node { next = some inst }) (r.insts b a member),
                block_mut_lem (set_inst o a (record (inst_node l b a) { next = some inst })) b
                    (λ node. record node { last_inst = some inst }) {node = block_node l b}
                    (at_member r b inside),
              )
              refl,
          rw (← same) (
              inst_after-Represents r b inst a member absent (append_more a) refl refl
                (λ b'. rw end (ground arith)) (λ i. rw end (ground arith))),
        )
  ]

  prepend_only : BodyOrder
  prepend_only =
      insert_inst
        (set_block (set_block o b last_only) b (record last_only { first_inst = some inst })) inst
        (new_inst b)

  prepend_more : InstId → BodyOrder
  prepend_more a =
      insert_inst
        (set_block (set_inst o a (record (inst_node l b a) { prev = some inst })) b first_set) inst
        (record (new_inst b) { next = some a })

  pub prepend_inst-Gives : Gives (prepend_inst o inst b) (with_code l b (inst ∷ l.code b))
  unfolding prepend_inst last_only first_set last_set prepend_only prepend_more inst_node_before
  prepend_inst-Gives = elim (Option-cases (first (l.code b))) [
    | inl e ↦
        let none_yet : l.code b ≡ [] = first_none (l.code b) e in
        (
          prepend_only,
          rw (at_member r b inside, r.no_insts inst absent, e)
              (rw
                (block_mut_lem (set_block o b last_only) b
                  (λ node. record node { first_inst = some inst }) {node = last_only}
                  (ground arith))
                refl),
          rw none_yet
              (only-Represents prepend_only none_yet refl refl (λ b'. ground arith) (λ i. refl)),
        )
    | inr (a, e) ↦
        let (member, start, same) = first_facts a inst (l.code b) e in
        (
          prepend_more a,
          rw
              (
                at_member r b inside,
                r.no_insts inst absent,
                e,
                inst_mut_lem o a (λ node. record node { prev = some inst }) (r.insts b a member),
                block_mut_lem (set_inst o a (record (inst_node l b a) { prev = some inst })) b
                    (λ node. record node { first_inst = some inst }) {node = block_node l b}
                    (at_member r b inside),
              )
              refl,
          rw (← same) (
              inst_before-Represents r b inst a member absent (prepend_more a) refl refl
                (λ b'. rw start (ground arith)) (λ i. rw start (ground arith))),
        )
  ]
