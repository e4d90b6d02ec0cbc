-- ===== src/BodyOrder/Taken.antt =====
-- Taking an instruction out.
use fe.Prelude.{
  ◌≡◌, refl, true, false, none, some, ◌==◌, if◌then◌else◌, arith, Option-cases, inl, inr,
}
use fe.Prelude.Pigeonhole.{mem}
use fe.Prelude.Outcome.{returned}
use fe.BodyOrder.{BodyOrder, BasicBlockId, InstId, put}
use fe.BodyOrder.Removing.{remove_inst, unlink_inst}
use fe.BodyOrder.Links.{is, first, last, next_in, prev_in, remove, mem-remove, remove-Distinct}
use fe.BodyOrder.Neighbours.{either, next_mem, prev_in-mem}
use fe.BodyOrder.Removal.{prev-remove, next-remove, first-remove, last-remove, prev_ne-next}
use fe.BodyOrder.Layout.{
  Layout, Represents, block_node, inst_node, Gives, with_code, at_member, block_mut_lem,
}
use fe.BodyOrder.Code.{
  one_block, changed-Represents, inst_mut_lem, block_of_member, set_block, set_inst,
}

module _ {o : BodyOrder} {l : Layout} (r : Represents o l) (b : BasicBlockId) (inst : InstId)
    (present : mem inst (l.code b) ≡ true) where
  inside : o.blocks b ≡ some (block_node l b)
  inside = at_member r b (block_of_member r b inst present)

  dropped : BodyOrder → BodyOrder
  dropped o' = record o' { insts = put o'.insts inst none }

  between : InstId → InstId → BodyOrder
  between p n =
      set_inst (set_inst o p (record (inst_node l b p) { next = some n })) n
        (record (inst_node l b n) { prev = some p })

  now_last : InstId → BodyOrder
  now_last p =
      set_block (set_inst o p (record (inst_node l b p) { next = none })) b
        (record (block_node l b) { last_inst = some p })

  now_first : InstId → BodyOrder
  now_first n =
      set_block (set_inst o n (record (inst_node l b n) { prev = none })) b
        (record (block_node l b) { first_inst = some n })

  now_empty : BodyOrder
  now_empty = set_block o b (record (block_node l b) { first_inst = none; last_inst = none })

  module _ {o1 : BodyOrder}
      (run : unlink_inst o b (prev_in (l.code b) inst) (next_in (l.code b) inst)
        ≡ returned o1) where
    removed_lem : remove_inst o inst ≡ returned (dropped o1)
    unfolding remove_inst dropped
    removed_lem = rw (r.insts b inst present) (rw run refl)

  removed-Represents :
      (o' : BodyOrder)
      → o'.entry_block ≡ o.entry_block
      → o'.last_block ≡ o.last_block
      → ((b' : BasicBlockId)
          → o'.blocks b' ≡ (
              if b' == b
              then some (record (block_node l b) {
                first_inst =
                    either (prev_in (l.code b) inst) (next_in (l.code b) inst) (first (l.code b));
                last_inst =
                    either (next_in (l.code b) inst) (prev_in (l.code b) inst) (last (l.code b));
              })
              else o.blocks b'))
      → ((i : InstId)
          → o'.insts i ≡ (
              if i == inst
              then none
              else if is (next_in (l.code b) inst) i
              then some (record (inst_node l b i) { prev = prev_in (l.code b) inst })
              else if is (prev_in (l.code b) inst) i
              then some (record (inst_node l b i) { next = next_in (l.code b) inst })
              else o.insts i))
      → Represents o' (with_code l b (remove inst (l.code b)))
  removed-Represents o' same_entry same_last ends found =
      let c = l.code b in
      let d = r.code_distinct b in
      changed-Represents r b (remove inst c) o' (block_of_member r b inst present) same_entry
        same_last (λ b'. rw (first-remove inst c present, last-remove inst c present) (ends b'))
        (remove-Distinct inst c d)
        (λ b' i h other. ground (arith, mem-remove inst i c d, one_block r b b' i))
        (λ i h. ground (
          arith,
          found i,
          next-remove inst i c present d,
          prev-remove inst i c present d,
          mem-remove inst i c d,
          r.insts b i,
          prev_ne-next inst i c d,
        ))
        (λ i h. ground (
          arith,
          found i,
          mem-remove inst i c d,
          next_mem inst i c,
          prev_in-mem inst i c,
          r.insts b inst present,
        ))

  prev_member : (p : InstId) → prev_in (l.code b) inst ≡ some p → mem p (l.code b) ≡ true
  prev_member p e = prev_in-mem inst p (l.code b) (rw e (ground arith))

  next_member : (n : InstId) → next_in (l.code b) inst ≡ some n → mem n (l.code b) ≡ true
  next_member n e = next_mem inst n (l.code b) (rw e (ground arith))

  unlink_both :
      (p n : InstId)
      → prev_in (l.code b) inst ≡ some p
      → next_in (l.code b) inst ≡ some n
      → unlink_inst o b (some p) (some n) ≡ returned (between p n)
  unfolding unlink_inst between
  unlink_both p n ep en =
      let other : (n == p) ≡ false =
        ground (arith, prev_ne-next inst p (l.code b) (r.code_distinct b)) in
      rw
        (
          inst_mut_lem o p (λ node. record node { next = some n }) (r.insts b p (prev_member p ep)),
          inst_mut_lem (set_inst o p (record (inst_node l b p) { next = some n })) n
              (λ node. record node { prev = some p }) {node = inst_node l b n}
              (rw other (r.insts b n (next_member n en))),
        )
        refl

  unlink_last :
      (p : InstId)
      → prev_in (l.code b) inst ≡ some p
      → unlink_inst o b (some p) none ≡ returned (now_last p)
  unfolding unlink_inst now_last
  unlink_last p ep =
      rw
        (
          inst_mut_lem o p (λ node. record node { next = none }) (r.insts b p (prev_member p ep)),
          block_mut_lem (set_inst o p (record (inst_node l b p) { next = none })) b
              (λ node. record node { last_inst = some p }) {node = block_node l b} inside,
        )
        refl

  unlink_first :
      (n : InstId)
      → next_in (l.code b) inst ≡ some n
      → unlink_inst o b none (some n) ≡ returned (now_first n)
  unfolding unlink_inst now_first
  unlink_first n en =
      rw
        (
          inst_mut_lem o n (λ node. record node { prev = none }) (r.insts b n (next_member n en)),
          block_mut_lem (set_inst o n (record (inst_node l b n) { prev = none })) b
              (λ node. record node { first_inst = some n }) {node = block_node l b} inside,
        )
        refl

  unlink_only : unlink_inst o b none none ≡ returned now_empty
  unfolding unlink_inst now_empty
  unlink_only =
      rw (block_mut_lem o b (λ node. record node { first_inst = none; last_inst = none }) inside)
        refl

  pub remove_inst-Gives : Gives (remove_inst o inst) (with_code l b (remove inst (l.code b)))
  unfolding dropped between now_last now_first now_empty
  remove_inst-Gives = elim (Option-cases (prev_in (l.code b) inst)) [
    | inl ep ↦ elim (Option-cases (next_in (l.code b) inst)) [
      | inl en ↦ (
        dropped now_empty,
        removed_lem (rw (ep, en) unlink_only),
        removed-Represents (dropped now_empty) refl refl (λ b'. rw (ep, en) refl)
            (λ i. rw (ep, en) refl),
      )
      | inr (n, en) ↦ (
        dropped (now_first n),
        removed_lem (rw (ep, en) (unlink_first n en)),
        removed-Represents (dropped (now_first n)) refl refl (λ b'. rw (ep, en) refl)
            (λ i. rw (ep, en) (ground arith)),
      )
    ]
    | inr (p, ep) ↦ elim (Option-cases (next_in (l.code b) inst)) [
      | inl en ↦ (
        dropped (now_last p),
        removed_lem (rw (ep, en) (unlink_last p ep)),
        removed-Represents (dropped (now_last p)) refl refl (λ b'. rw (ep, en) refl)
            (λ i. rw (ep, en) (ground arith)),
      )
      | inr (n, en) ↦ (
        dropped (between p n),
        removed_lem (rw (ep, en) (unlink_both p n ep en)),
        removed-Represents (dropped (between p n)) refl refl
            (λ b'. rw (ep, en) (ground (arith, inside))) (λ i. rw (ep, en) (ground arith)),
      )
    ]
  ]
