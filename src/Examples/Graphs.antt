-- ===== src/Examples/Graphs.antt =====
-- Runs of the control flow graph, on a body of three blocks.
use fe.Prelude.{
  ℕ, zero, suc, ◌≡◌, ◌⊎◌, ◌↔◌, refl, Option, none, some, List, [], ◌∷◌, if◌then◌else◌, ◌==◌, false,
  All, true, arith,
}
use fe.Prelude.Outcome.{returned}
use fe.Prelude.Pigeonhole.{mem, Distinct}
use fe.Cfg.{
  BasicBlockId, BranchInfo, not_branch, jump, branch, FunctionBody, ControlFlowGraph, compute,
  analyze_blocks, analyze_block, analyze_terminator, add_edges, add_edge, with_node, block_iter,
  reverse_edge, preds, succs,
}
use fe.Cfg.Edges.{IsSymmetric, succs_of, compute-IsSymmetric}
use fe.Cfg.PostOrder.{start, push_succs, visit, round_of, next, drain, post_order}
use fe.Cfg.PostOrder.Ends.{IsClosed, post_order_returns}
use fe.Cfg.PostOrder.Stack.{Reachable}
use fe.Cfg.PostOrder.Yields.{post_order-Reachable}
use fe.Cfg.PostDom.{reverse_cfg, add_dummies, add_exits}
use fe.Cfg.PostDom.Leaving.{CanLeave, reverse_cfg-CanLeave}
use fe.Cfg.Successors.{targets, leaving, compute_lem}

abbrev ends : ℕ → Option BranchInfo
ends zero = some (branch 9 1 2)
ends (suc zero) = some (jump 2)
ends (suc (suc b)) = some not_branch

-- 0 goes to 1 or 2, 1 goes to 2, and 2 leaves.
abbrev body : FunctionBody
body = record { entry = 0; iter_block = 0 ∷ 1 ∷ 2 ∷ []; terminator = ends }

abbrev graph : ControlFlowGraph
graph = elim (compute body) [
  | returned g ↦ g
  | _ ↦ record { entry = 0; blocks = λ b. none; exits = [] }
]

computed : compute body ≡ returned graph
unfolding compute analyze_blocks analyze_block analyze_terminator
computed = refl

-- Both of the other blocks go to block 2.
two-preds : preds graph 2 ≡ returned (0 ∷ 1 ∷ [])
unfolding compute analyze_blocks analyze_block analyze_terminator add_edges add_edge with_node
    block_iter preds
two-preds = refl

compute-IsSymmetric_example : IsSymmetric graph
compute-IsSymmetric_example = compute-IsSymmetric body graph computed

compute_lem_example :
    ((a : BasicBlockId)
      → succs_of graph a ≡ (if mem a (0 ∷ 1 ∷ 2 ∷ []) then targets (ends a) else []))
    × (graph.exits ≡ leaving body (0 ∷ 1 ∷ 2 ∷ []))
compute_lem_example = compute_lem body graph (refl, (refl, (refl, tt))) computed

nodes-IsClosed : IsClosed graph (0 ∷ 1 ∷ 2 ∷ [])
unfolding compute analyze_blocks analyze_block analyze_terminator add_edges add_edge with_node
    block_iter succs succs_of
nodes-IsClosed zero m = (refl, (refl, (refl, tt)))
nodes-IsClosed (suc zero) m = (refl, (refl, tt))
nodes-IsClosed (suc (suc zero)) m = (refl, tt)
nodes-IsClosed (suc (suc (suc b))) m = absurd (ground arith)

post_order_returns_example : (bs : List BasicBlockId) × (post_order graph 12 ≡ returned bs)
post_order_returns_example =
    post_order_returns graph (0 ∷ 1 ∷ 2 ∷ []) 12 nodes-IsClosed (unfold compute block_iter in refl)
      (unfold compute analyze_blocks analyze_block analyze_terminator add_edges add_edge with_node
          block_iter start succs_of in
        omega arith)

in_post_order : post_order graph 12 ≡ returned (2 ∷ 1 ∷ 0 ∷ [])
unfolding compute analyze_blocks analyze_block analyze_terminator add_edges add_edge with_node
    block_iter post_order drain next round_of visit push_succs succs start
in_post_order = refl

post_order-Reachable_example :
    Distinct (2 ∷ 1 ∷ 0 ∷ [])
    × All (Reachable graph) (2 ∷ 1 ∷ 0 ∷ [])
    × ((b : BasicBlockId) → Reachable graph b → mem b (2 ∷ 1 ∷ 0 ∷ []) ≡ true)
post_order-Reachable_example = post_order-Reachable graph 12 (2 ∷ 1 ∷ 0 ∷ []) in_post_order

-- The dummy blocks 7 and 8.
abbrev reversed_graph : ControlFlowGraph
reversed_graph = reverse_edge (add_dummies graph 7 8) 8 (7 ∷ [])

graph_reversed : reverse_cfg body 7 8 ≡ returned reversed_graph
unfolding reverse_cfg compute analyze_blocks analyze_block analyze_terminator
graph_reversed = refl

-- Against the edges, from the dummy exit.
reversed_in_post_order : post_order reversed_graph 20 ≡ returned (7 ∷ 0 ∷ 1 ∷ 2 ∷ 8 ∷ [])
unfolding reverse_edge add_dummies add_exits compute analyze_blocks analyze_block analyze_terminator
    add_edges add_edge with_node block_iter post_order drain next round_of visit push_succs succs
    start
reversed_in_post_order = refl

not_a_dummy : (d b : ℕ) → (d == 1) ≡ false → (d == 2) ≡ false → mem d (targets (ends b)) ≡ false
unfolding block_iter
not_a_dummy d zero one two = ground arith
not_a_dummy d (suc zero) one two = ground arith
not_a_dummy d (suc (suc b)) one two = refl

reverse_cfg-CanLeave_example :
    (reversed_graph.exits ≡ 7 ∷ [])
    × (mem 7 (succs_of reversed_graph 0) ≡ true)
    × ((b : BasicBlockId) → Reachable reversed_graph b ↔ ((b ≡ 8) ⊎ (b ≡ 7) ⊎ CanLeave body b))
reverse_cfg-CanLeave_example =
    reverse_cfg-CanLeave body 7 8 reversed_graph (refl, (refl, (refl, tt)))
      (λ b m. not_a_dummy 7 b refl refl) (λ b m. not_a_dummy 8 b refl refl) graph_reversed
