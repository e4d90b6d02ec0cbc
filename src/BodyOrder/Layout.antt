-- ===== src/BodyOrder/Layout.antt =====
-- What a body order stands for: the blocks in their order, and for each the instructions in theirs.
use fe.Prelude.{◌≡◌, refl, ◌∙◌, true, false, none, some, List, [], ◌==◌, if◌then◌else◌}
use fe.Prelude.Pigeonhole.{mem, Distinct}
use fe.Prelude.Outcome.{Outcome, returned}
use fe.BodyOrder.{block_mut, put, BodyOrder, BlockNode, InstNode, BasicBlockId, InstId}
use fe.BodyOrder.Links.{first, last, next_in, prev_in}

pub record Layout : Type 0 where
  pub ids : List BasicBlockId
  pub code : BasicBlockId → List InstId

-- The node of a block, from its neighbours in the layout and the ends of its instructions.
abbrev pub block_node : Layout → BasicBlockId → BlockNode
block_node l b = record {
  prev = prev_in l.ids b;
  next = next_in l.ids b;
  first_inst = first (l.code b);
  last_inst = last (l.code b);
}

abbrev pub inst_node : Layout → BasicBlockId → InstId → InstNode
inst_node l b i = record { block = b; prev = prev_in (l.code b) i; next = next_in (l.code b) i }

-- The maps hold the nodes of the layout and no others.
pub record Represents (o : BodyOrder) (l : Layout) : Type 0 where
  pub entry : first l.ids ≡ some o.entry_block
  pub end : last l.ids ≡ some o.last_block
  pub distinct : Distinct l.ids
  pub blocks :
      (b : BasicBlockId) → o.blocks b ≡ (if mem b l.ids then some (block_node l b) else none)
  pub empty : (b : BasicBlockId) → mem b l.ids ≡ false → l.code b ≡ []
  pub code_distinct : (b : BasicBlockId) → Distinct (l.code b)
  pub insts :
      (b : BasicBlockId) (i : InstId) → mem i (l.code b) ≡ true → o.insts i ≡ some (inst_node l b i)
  pub no_insts : (i : InstId) → ((b : BasicBlockId) → mem i (l.code b) ≡ false) → o.insts i ≡ none

abbrev pub with_code : Layout → BasicBlockId → List InstId → Layout
with_code l b is = record l { code = λ b'. if b' == b then is else l.code b' }

pub block_mut_lem :
    (o : BodyOrder) (b : BasicBlockId) (change : BlockNode → BlockNode) {node : BlockNode}
    → o.blocks b ≡ some node
    → block_mut o b change ≡ returned (record o { blocks = put o.blocks b (some (change node)) })
unfolding block_mut
block_mut_lem o b change e = rw e refl

-- The blocks that are and are not in the layout.
module _ {o : BodyOrder} {l : Layout} (r : Represents o l) where
  pub at_member : (b : BasicBlockId) → mem b l.ids ≡ true → o.blocks b ≡ some (block_node l b)
  at_member b h = r.blocks b ∙ rw h refl

  pub at_stranger : (b : BasicBlockId) → mem b l.ids ≡ false → o.blocks b ≡ none
  at_stranger b h = r.blocks b ∙ rw h refl

-- What an operation promises: it returns, and its result stands for the layout.
abbrev pub Gives : Outcome BodyOrder → Layout → Type 0
Gives run l = (o : BodyOrder) × (run ≡ returned o) × Represents o l

abbrev pub with_ids : Layout → List BasicBlockId → Layout
with_ids l ids = record l { ids = ids }
