-- ===== src/Cfg/Edges.antt =====
-- The two directions of the edges of a control flow graph.
use fe.Prelude.{
  ℕ, suc, ◌+◌, ◌≡◌, refl, sym, ap, ◌∙◌, Bool, true, false, Option, none, some, List, [], ◌∷◌, ◌++◌,
  ◌==◌, if◌then◌else◌, arith, Bool-cases, inl, inr,
}
use mathlib.Core.Path.{subst}
use fe.Prelude.Outcome.{Outcome, returned, >>=-eq-returned}
use fe.Cfg.{
  BasicBlockId, BranchInfo, is_not_a_branch, block_iter, FunctionBody, BlockNode, ControlFlowGraph,
  or_default, with_node, push_pred, push_succ, add_edge, add_edges, reverse_node, map_node,
  reverse_edge, analyze_terminator, analyze_block, analyze_blocks, compute,
}

-- The successors and the predecessors that the graph has of a block, none if it lacks the block.
abbrev pub node_of : ControlFlowGraph → BasicBlockId → BlockNode
node_of g b = or_default (g.blocks b)

unfoldable pub succs_of : ControlFlowGraph → BasicBlockId → List BasicBlockId
succs_of g b = (node_of g b).succs

unfoldable pub preds_of : ControlFlowGraph → BasicBlockId → List BasicBlockId
preds_of g b = (node_of g b).preds

abbrev pub count : ℕ → List ℕ → ℕ
count n [] = 0
count n (x ∷ xs) = let rest = count n xs in if x == n then suc rest else rest

count-snoc :
    (n y : ℕ) (xs : List ℕ) → count n (xs ++ y ∷ []) ≡ count n xs + (if y == n then 1 else 0)
count-snoc n y [] = ground arith
count-snoc n y (x ∷ xs) = ground (arith, count-snoc n y xs)

-- Each edge is as often among the successors of its source as among the predecessors of its target.
abbrev pub IsSymmetric : ControlFlowGraph → Type 0
IsSymmetric g = (a b : BasicBlockId) → count b (succs_of g a) ≡ count a (preds_of g b)

pub node-with_node :
    (g : ControlFlowGraph) (block a : BasicBlockId) (change : BlockNode → BlockNode)
    → node_of (with_node g block change) a
      ≡ (if a == block then change (node_of g a) else node_of g a)
unfolding with_node
node-with_node g block a change = elim (Bool-cases (a == block)) [
  | inl hit ↦ rw hit refl
  | inr miss ↦ rw miss refl
]

node-add_edge :
    (g : ControlFlowGraph) (from to a : BasicBlockId)
    → node_of (add_edge g from to) a ≡ (
        let n = if a == to then push_pred from (node_of g a) else node_of g a in
        if a == from then push_succ to n else n)
unfolding add_edge
node-add_edge g from to a =
    node-with_node (with_node g to (push_pred from)) from a (push_succ to)
    ∙ ap (λ n. if a == from then push_succ to n else n) (node-with_node g to a (push_pred from))

succs-if_pred :
    (b : Bool) (from : BasicBlockId) (n : BlockNode)
    → (if b then push_pred from n else n).succs ≡ n.succs
succs-if_pred true from n = refl
succs-if_pred false from n = refl

preds-if_succ :
    (b : Bool) (to : BasicBlockId) (n : BlockNode)
    → (if b then push_succ to n else n).preds ≡ n.preds
preds-if_succ true to n = refl
preds-if_succ false to n = refl

pub succs-add_edge :
    (g : ControlFlowGraph) (from to a : BasicBlockId)
    → succs_of (add_edge g from to) a
      ≡ (if a == from then succs_of g a ++ to ∷ [] else succs_of g a)
unfolding succs_of
succs-add_edge g from to a =
    let m : BlockNode = if a == to then push_pred from (node_of g a) else node_of g a in
    let same = succs-if_pred (a == to) from (node_of g a) in
    ap (λ n. n.succs) (node-add_edge g from to a) ∙ elim (Bool-cases (a == from)) [
      | inl hit ↦ rw hit (ap (λ xs. xs ++ to ∷ []) same)
      | inr miss ↦ rw miss same
    ]

preds-add_edge :
    (g : ControlFlowGraph) (from to b : BasicBlockId)
    → preds_of (add_edge g from to) b
      ≡ (if b == to then preds_of g b ++ from ∷ [] else preds_of g b)
unfolding preds_of
preds-add_edge g from to b =
    let m : BlockNode = if b == to then push_pred from (node_of g b) else node_of g b in
    ap (λ n. n.preds) (node-add_edge g from to b)
    ∙ preds-if_succ (b == from) to m
    ∙ elim (Bool-cases (b == to)) [ inl hit ↦ rw hit refl | inr miss ↦ rw miss refl ]

pub add_edge-IsSymmetric :
    (g : ControlFlowGraph) (from to : BasicBlockId)
    → IsSymmetric g
    → IsSymmetric (add_edge g from to)
add_edge-IsSymmetric g from to h a b =
    rw (succs-add_edge g from to a, preds-add_edge g from to b)
      (ground (arith, h a b, count-snoc b to (succs_of g a), count-snoc a from (preds_of g b)))

add_edges-IsSymmetric :
    (g : ControlFlowGraph) (from : BasicBlockId) (dests : List BasicBlockId)
    → IsSymmetric g
    → IsSymmetric (add_edges g from dests)
unfolding add_edges
add_edges-IsSymmetric g from [] h = h
add_edges-IsSymmetric g from (to ∷ rest) h =
    add_edges-IsSymmetric (add_edge g from to) from rest (add_edge-IsSymmetric g from to h)

preds-reverse :
    (o : Option BlockNode) → (or_default (map_node reverse_node o)).preds ≡ (or_default o).succs
preds-reverse none = refl
preds-reverse (some n) = refl

succs-reverse :
    (o : Option BlockNode) → (or_default (map_node reverse_node o)).succs ≡ (or_default o).preds
succs-reverse none = refl
succs-reverse (some n) = refl

-- In a graph whose two directions of edges agree, `reverse_edge` makes the successors of each
-- block its predecessors and the other way around, and the two directions agree again.
pub reverse_edge_lem :
    (g : ControlFlowGraph) (new_entry : BasicBlockId) (new_exits : List BasicBlockId)
    → IsSymmetric g
    → ((b : BasicBlockId)
        → (succs_of (reverse_edge g new_entry new_exits) b ≡ preds_of g b)
          × (preds_of (reverse_edge g new_entry new_exits) b ≡ succs_of g b))
      × IsSymmetric (reverse_edge g new_entry new_exits)
unfolding reverse_edge succs_of preds_of
reverse_edge_lem g new_entry new_exits h = (
  (λ b. (succs-reverse (g.blocks b), preds-reverse (g.blocks b))),
  (λ a b.
      ap (count b) (succs-reverse (g.blocks a))
      ∙ sym (h b a)
      ∙ ap (count a) (sym (preds-reverse (g.blocks b)))),
)

with_node-IsSymmetric :
    (g : ControlFlowGraph) (block : BasicBlockId)
    → IsSymmetric g
    → IsSymmetric (with_node g block (λ n. n))
unfolding succs_of preds_of
with_node-IsSymmetric g block h a b =
    ap (λ n. count b n.succs) (kept a) ∙ h a b ∙ ap (λ n. count a n.preds) (sym (kept b))
  where
    kept : (c : BasicBlockId) → node_of (with_node g block (λ n. n)) c ≡ node_of g c
    kept c =
        node-with_node g block c (λ n. n)
        ∙ elim (Bool-cases (c == block)) [ inl hit ↦ rw hit refl | inr miss ↦ rw miss refl ]

analyze_terminator-IsSymmetric :
    (g : ControlFlowGraph) (block : BasicBlockId) (info : BranchInfo)
    → IsSymmetric g
    → IsSymmetric (analyze_terminator g block info)
unfolding analyze_terminator
analyze_terminator-IsSymmetric g block info h = elim (Bool-cases (is_not_a_branch info)) [
  | inl last_ ↦ rw last_ (unfold succs_of preds_of in with_node-IsSymmetric g block h)
  | inr goes_on ↦ rw goes_on (add_edges-IsSymmetric g block (block_iter info) h)
]

pub the_graph :
    (g h : ControlFlowGraph) → ◌≡◌ {A = Outcome ControlFlowGraph} (returned g) (returned h) → g ≡ h
the_graph g h e = cc

analyze_blocks-IsSymmetric :
    (func : FunctionBody) (blocks : List BasicBlockId) (g g' : ControlFlowGraph)
    → IsSymmetric g
    → analyze_blocks func g blocks ≡ returned g'
    → IsSymmetric g'
unfolding analyze_blocks analyze_block
analyze_blocks-IsSymmetric func [] g g' h e = subst IsSymmetric (the_graph g g' e) h
analyze_blocks-IsSymmetric func (block ∷ rest) g g' h e =
    let (g1, step, e') =
      >>=-eq-returned (analyze_block g block (func.terminator block))
        (λ x. analyze_blocks func x rest) e in
    analyze_blocks-IsSymmetric func rest g1 g' (stepped (func.terminator block) g1 step) e'
  where
    stepped :
        (o : Option BranchInfo) (g1 : ControlFlowGraph)
        → analyze_block g block o ≡ returned g1
        → IsSymmetric g1
    stepped none g1 e = cc
    stepped (some info) g1 e =
        subst IsSymmetric (the_graph (analyze_terminator g block info) g1 e)
          (analyze_terminator-IsSymmetric g block info h)

-- In the graph computed from a body, each edge is as often among the successors of its source as
-- among the predecessors of its target.
pub compute-IsSymmetric :
    (func : FunctionBody) (g : ControlFlowGraph) → compute func ≡ returned g → IsSymmetric g
unfolding compute
compute-IsSymmetric func g e =
    analyze_blocks-IsSymmetric func func.iter_block
      (record { entry = func.entry; blocks = λ b. none; exits = [] }) g
      (unfold succs_of preds_of in λ a b. refl) e
