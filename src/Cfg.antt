-- ===== src/Cfg.antt =====
-- The control flow graph of a function body (crates/mir/src/analysis/cfg.rs) and the branches that
-- it is computed from (crates/mir/src/ir/inst.rs).
pub mod Edges
pub mod Successors
pub mod PostOrder
pub mod PostDom
use fe.Prelude.{ℕ, Bool, Option, none, some, List, [], ◌∷◌, ◌++◌, ◌==◌, if◌then◌else◌}
use fe.Prelude.Outcome.{Outcome, out_of_fuel, panicked, returned, ◌>>=◌}

abbrev pub BasicBlockId : Type 0
BasicBlockId = ℕ

pub data BranchInfo : Type 0 where
  not_branch : BranchInfo
  jump : BasicBlockId → BranchInfo
  branch : (cond : ℕ) (then_ else_ : BasicBlockId) → BranchInfo
  switch : (disc : ℕ) (table : List BasicBlockId) (default : Option BasicBlockId) → BranchInfo

abbrev pub is_not_a_branch : BranchInfo → Bool
is_not_a_branch not_branch = Bool.true
is_not_a_branch _ = Bool.false

abbrev pub of_option : Option BasicBlockId → List BasicBlockId
of_option none = []
of_option (some b) = b ∷ []

-- `BranchInfo::block_iter`, as the list of what it yields
unfoldable pub block_iter : BranchInfo → List BasicBlockId
block_iter not_branch = []
block_iter (jump block) = block ∷ []
block_iter (branch cond then_ else_) = then_ ∷ else_ ∷ []
block_iter (switch disc table default) = table ++ of_option default

-- What the graph is computed from: the entry, the blocks in order, and the branch of the last
-- instruction of each, if that is a terminator.
pub record FunctionBody : Type 0 where
  pub entry : BasicBlockId
  pub iter_block : List BasicBlockId
  pub terminator : BasicBlockId → Option BranchInfo

pub record BlockNode : Type 0 where
  pub preds : List BasicBlockId
  pub succs : List BasicBlockId

pub record ControlFlowGraph : Type 0 where
  pub entry : BasicBlockId
  pub blocks : BasicBlockId → Option BlockNode
  pub exits : List BasicBlockId

abbrev pub or_default : Option BlockNode → BlockNode
or_default none = record { preds = []; succs = [] }
or_default (some n) = n

-- `node_mut`, and what is done to the node that it gives.
unfoldable pub with_node :
    ControlFlowGraph → BasicBlockId → (BlockNode → BlockNode) → ControlFlowGraph
with_node g block change = record g {
  blocks = λ b. if b == block then some (change (or_default (g.blocks b))) else g.blocks b;
}

abbrev pub push_pred : BasicBlockId → BlockNode → BlockNode
push_pred pred n = record n { preds = n.preds ++ pred ∷ [] }

abbrev pub push_succ : BasicBlockId → BlockNode → BlockNode
push_succ succ n = record n { succs = n.succs ++ succ ∷ [] }

unfoldable pub add_edge : ControlFlowGraph → BasicBlockId → BasicBlockId → ControlFlowGraph
unfolding with_node
add_edge g from to = with_node (with_node g to (push_pred from)) from (push_succ to)

unfoldable pub add_edges : ControlFlowGraph → BasicBlockId → List BasicBlockId → ControlFlowGraph
unfolding add_edge
add_edges g from [] = g
add_edges g from (to ∷ rest) = add_edges (add_edge g from to) from rest

abbrev pub reverse_node : BlockNode → BlockNode
reverse_node n = record { preds = n.succs; succs = n.preds }

abbrev pub map_node : (BlockNode → BlockNode) → Option BlockNode → Option BlockNode
map_node f none = none
map_node f (some n) = some (f n)

unfoldable pub reverse_edge : ControlFlowGraph → BasicBlockId → List BasicBlockId → ControlFlowGraph
reverse_edge g new_entry new_exits = record {
  entry = new_entry;
  blocks = λ b. map_node reverse_node (g.blocks b);
  exits = new_exits;
}

-- `analyze_terminator`, of the block that the terminator is in
unfoldable pub analyze_terminator : ControlFlowGraph → BasicBlockId → BranchInfo → ControlFlowGraph
unfolding add_edges with_node
analyze_terminator g block info =
    if is_not_a_branch info
    then (let g' = with_node g block (λ n. n) in record g' { exits = g'.exits ++ block ∷ [] })
    else add_edges g block (block_iter info)

-- The step of the loop over the blocks; `expect` panics on a block with no terminator.
unfoldable pub analyze_block :
    ControlFlowGraph → BasicBlockId → Option BranchInfo → Outcome ControlFlowGraph
unfolding analyze_terminator
analyze_block g block none = panicked
analyze_block g block (some info) = returned (analyze_terminator g block info)

unfoldable pub analyze_blocks :
    FunctionBody → ControlFlowGraph → List BasicBlockId → Outcome ControlFlowGraph
unfolding analyze_block
analyze_blocks func g [] = returned g
analyze_blocks func g (block ∷ rest) = do
  g' ← analyze_block g block (func.terminator block)
  analyze_blocks func g' rest

-- `ControlFlowGraph::compute`
unfoldable pub compute : FunctionBody → Outcome ControlFlowGraph
unfolding analyze_blocks
compute func =
    analyze_blocks func (record { entry = func.entry; blocks = λ b. none; exits = [] })
      func.iter_block

-- `preds` and `succs` panic on a block that the graph does not have.
abbrev pub node_field :
    (BlockNode → List BasicBlockId) → Option BlockNode → Outcome (List BasicBlockId)
node_field f none = panicked
node_field f (some n) = returned (f n)

unfoldable pub preds : ControlFlowGraph → BasicBlockId → Outcome (List BasicBlockId)
preds g block = node_field (λ n. n.preds) (g.blocks block)

unfoldable pub succs : ControlFlowGraph → BasicBlockId → Outcome (List BasicBlockId)
succs g block = node_field (λ n. n.succs) (g.blocks block)
