-- ===== src/Cfg/PostDom.antt =====
-- The reverse control flow graph of PostDomTree::compute in
-- crates/mir/src/analysis/post_domtree.rs. The two dummy blocks come from arenas of their own, so
-- that they are no blocks of the body; here they are arguments.
pub mod Leaving
use fe.Prelude.{List, [], ◌∷◌}
use fe.Prelude.Outcome.{Outcome, returned, ◌>>=◌}
use fe.Cfg.{BasicBlockId, FunctionBody, ControlFlowGraph, compute, add_edge, reverse_edge}

-- The loop over the exits.
unfoldable pub add_exits : ControlFlowGraph → List BasicBlockId → BasicBlockId → ControlFlowGraph
add_exits rcfg [] dummy_exit = rcfg
add_exits rcfg (exit ∷ exits) dummy_exit =
    add_exits (add_edge rcfg exit dummy_exit) exits dummy_exit

unfoldable pub add_dummies : ControlFlowGraph → BasicBlockId → BasicBlockId → ControlFlowGraph
unfolding add_exits
add_dummies rcfg dummy_entry dummy_exit =
    let rcfg1 = add_edge rcfg dummy_entry rcfg.entry in
    let rcfg2 = add_edge rcfg1 dummy_entry dummy_exit in
    add_exits (record rcfg2 { exits = [] }) rcfg2.exits dummy_exit

unfoldable pub reverse_cfg : FunctionBody → BasicBlockId → BasicBlockId → Outcome ControlFlowGraph
unfolding add_dummies
reverse_cfg func dummy_entry dummy_exit = do
  rcfg ← compute func
  returned (reverse_edge (add_dummies rcfg dummy_entry dummy_exit) dummy_exit (dummy_entry ∷ []))
