-- ===== src/BodyOrder/Code.antt =====
-- A change of the instructions of one block.
use fe.Prelude.{
  ◌≡◌, refl, sym, ap, ◌∙◌, true, false, none, some, List, ◌==◌, if◌then◌else◌, arith, inl, inr,
  Bool-cases,
}
use fe.Prelude.Pigeonhole.{mem, Distinct}
use fe.Prelude.Outcome.{returned}
use fe.BodyOrder.{BodyOrder, BlockNode, InstNode, BasicBlockId, InstId, put, inst_mut}
use fe.BodyOrder.Links.{first, last, next_in, prev_in}
use fe.BodyOrder.Layout.{Layout, Represents, block_node, inst_node, with_code}

pub inst_mut_lem :
    (o : BodyOrder) (i : InstId) (change : InstNode → InstNode) {node : InstNode}
    → o.insts i ≡ some node
    → inst_mut o i change ≡ returned (record o { insts = put o.insts i (some (change node)) })
unfolding inst_mut
inst_mut_lem o i change e = rw e refl

module _ {o : BodyOrder} {l : Layout} (r : Represents o l) where
  -- An instruction stands in one block.
  pub one_block :
      (b b' : BasicBlockId) (i : InstId)
      → mem i (l.code b) ≡ true
      → mem i (l.code b') ≡ true
      → b ≡ b'
  one_block b b' i h k = ground (arith, r.insts b i h, r.insts b' i k)

  -- A block with instructions is in the layout.
  pub block_of_member :
      (b : BasicBlockId) (i : InstId) → mem i (l.code b) ≡ true → mem b l.ids ≡ true
  block_of_member b i h = elim (Bool-cases (mem b l.ids)) [
    | inl there ↦ there
    | inr missing ↦ ground (arith, r.empty b missing)
  ]

  module _ (b : BasicBlockId) (is : List InstId) (o' : BodyOrder) (inside : mem b l.ids ≡ true)
      (same_entry : o'.entry_block ≡ o.entry_block) (same_last : o'.last_block ≡ o.last_block)
      (ends : (b' : BasicBlockId)
        → o'.blocks b' ≡ (
            if b' == b
            then some (record (block_node l b) { first_inst = first is; last_inst = last is })
            else o.blocks b'))
      (distinct : Distinct is)
      (foreign : (b' : BasicBlockId) (i : InstId)
        → mem i is ≡ true
        → (b' == b) ≡ false
        → mem i (l.code b') ≡ false)
      (nodes : (i : InstId)
        → mem i is ≡ true
        → o'.insts i ≡ some (record { block = b; prev = prev_in is i; next = next_in is i }))
      (others : (i : InstId)
        → mem i is ≡ false
        → o'.insts i ≡ (if mem i (l.code b) then none else o.insts i)) where
    changed_inst :
        (b' : BasicBlockId) (i : InstId)
        → mem i ((with_code l b is).code b') ≡ true
        → o'.insts i ≡ some (inst_node (with_code l b is) b' i)
    changed_inst b' i h = elim (Bool-cases (b' == b)) [
      | inl same ↦ rw same (ground (arith, nodes i))
      | inr other ↦
          rw other (ground (arith, others i, r.insts b' i, foreign b' i, one_block b b' i))
    ]

    changed_none :
        (i : InstId)
        → ((b' : BasicBlockId) → mem i ((with_code l b is).code b') ≡ false)
        → o'.insts i ≡ none
    changed_none i h = elim (Bool-cases (mem i (l.code b))) [
      | inl old ↦ ground (arith, h b, others i)
      | inr new ↦ ground (
        arith,
        h b,
        others i,
        r.no_insts i (λ b'. elim (Bool-cases (b' == b)) [
          | inl same ↦ ground arith
          | inr other ↦ ground (arith, h b')
        ]),
      )
    ]

    pub changed-Represents : Represents o' (with_code l b is)
    changed-Represents = record {
      entry = r.entry ∙ ap some (sym same_entry);
      end = r.end ∙ ap some (sym same_last);
      distinct = r.distinct;
      blocks = λ b'. ground (arith, ends b', r.blocks b');
      empty = λ b' h. ground (arith, r.empty b' h);
      code_distinct = λ b'. elim (Bool-cases (b' == b)) [
        | inl same ↦ rw same distinct
        | inr other ↦ rw other (r.code_distinct b')
      ];
      insts = changed_inst;
      no_insts = changed_none;
    }

abbrev pub set_block : BodyOrder → BasicBlockId → BlockNode → BodyOrder
set_block o b node = record o { blocks = put o.blocks b (some node) }

abbrev pub set_inst : BodyOrder → InstId → InstNode → BodyOrder
set_inst o i node = record o { insts = put o.insts i (some node) }
