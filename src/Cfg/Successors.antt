-- ===== src/Cfg/Successors.antt =====
-- The successors of each block against the branch that ends it.
use fe.Prelude.{
  ◌≡◌, refl, sym, ap, ◌∙◌, Bool, true, false, Option, none, some, List, [], ◌∷◌, ◌++◌, ◌==◌,
  if◌then◌else◌, arith, Bool-cases, inl, inr, ==_iff,
}
use mathlib.Core.List.{append-nil, append_assoc}
use fe.Prelude.Outcome.{returned, >>=-eq-returned}
use fe.Prelude.Pigeonhole.{mem, Distinct}
use fe.Cfg.{
  BasicBlockId, BranchInfo, not_branch, jump, branch, switch, is_not_a_branch, block_iter,
  FunctionBody, ControlFlowGraph, with_node, add_edge, add_edges, analyze_terminator, analyze_block,
  analyze_blocks, compute,
}
use fe.Cfg.Edges.{succs_of, succs-add_edge, node_of, node-with_node, the_graph}

-- The blocks that a terminator goes to.
abbrev pub targets : Option BranchInfo → List BasicBlockId
targets none = []
targets (some info) = block_iter info

-- Whether a block is left by its terminator.
abbrev pub leaves : Option BranchInfo → Bool
leaves none = false
leaves (some info) = is_not_a_branch info

abbrev pub leaving : FunctionBody → List BasicBlockId → List BasicBlockId
leaving func [] = []
leaving func (b ∷ bs) =
    let rest = leaving func bs in if leaves (func.terminator b) then b ∷ rest else rest

succs-add_edges :
    (g : ControlFlowGraph) (from a : BasicBlockId) (dests : List BasicBlockId)
    → succs_of (add_edges g from dests) a
      ≡ (if a == from then succs_of g a ++ dests else succs_of g a)
unfolding add_edges
succs-add_edges g from a [] = elim (Bool-cases (a == from)) [
  | inl hit ↦ rw hit (sym (append-nil (succs_of g a)))
  | inr miss ↦ rw miss refl
]
succs-add_edges g from a (to ∷ rest) =
    succs-add_edges (add_edge g from to) from a rest ∙ elim (Bool-cases (a == from)) [
      | inl hit ↦ rw hit (
          ap (λ xs. xs ++ rest) (rw hit at (succs-add_edge g from to a))
          ∙ append_assoc (succs_of g a) (to ∷ []) rest)
      | inr miss ↦ rw miss (rw miss at (succs-add_edge g from to a))
    ]

exits-add_edges :
    (g : ControlFlowGraph) (from : BasicBlockId) (dests : List BasicBlockId)
    → (add_edges g from dests).exits ≡ g.exits
unfolding add_edges add_edge with_node
exits-add_edges g from [] = refl
exits-add_edges g from (to ∷ rest) = exits-add_edges (add_edge g from to) from rest

succs-left :
    (g : ControlFlowGraph) (block a : BasicBlockId)
    → succs_of (with_node g block (λ n. n)) a
      ≡ (if a == block then succs_of g a ++ [] else succs_of g a)
unfolding succs_of
succs-left g block a =
    ap (λ n. n.succs) (node-with_node g block a (λ n. n)) ∙ elim (Bool-cases (a == block)) [
      | inl hit ↦ rw hit (sym (append-nil (node_of g a).succs))
      | inr miss ↦ rw miss refl
    ]

-- What one terminator adds.
analyze_terminator_lem :
    (g : ControlFlowGraph) (block : BasicBlockId) (info : BranchInfo)
    → ((a : BasicBlockId)
        → succs_of (analyze_terminator g block info) a
          ≡ (if a == block then succs_of g a ++ block_iter info else succs_of g a))
      × ((analyze_terminator g block info).exits
          ≡ (if is_not_a_branch info then g.exits ++ block ∷ [] else g.exits))
unfolding analyze_terminator block_iter
analyze_terminator_lem g block not_branch =
    ((λ a. unfold succs_of in succs-left g block a), unfold with_node in refl)
analyze_terminator_lem g block (jump d) =
    ((λ a. succs-add_edges g block a (d ∷ [])), exits-add_edges g block (d ∷ []))
analyze_terminator_lem g block (branch c d e) =
    ((λ a. succs-add_edges g block a (d ∷ e ∷ [])), exits-add_edges g block (d ∷ e ∷ []))
analyze_terminator_lem g block (switch c t d) = (
  (λ a. succs-add_edges g block a (block_iter (switch c t d))),
  exits-add_edges g block (block_iter (switch c t d)),
)

known_target :
    (func : FunctionBody) (g g1 : ControlFlowGraph) (block : BasicBlockId) (o : Option BranchInfo)
    → func.terminator block ≡ o
    → analyze_block g block o ≡ returned g1
    → ((a : BasicBlockId)
        → succs_of g1 a
          ≡ (if a == block then succs_of g a ++ targets (func.terminator block) else succs_of g a))
      × (g1.exits ≡ (if leaves (func.terminator block) then g.exits ++ block ∷ [] else g.exits))
unfolding analyze_block
known_target func g g1 block none known e = cc
known_target func g g1 block (some info) known e =
    let same = the_graph (analyze_terminator g block info) g1 e in
    let (succs_known, exits_known) = analyze_terminator_lem g block info in
    rw known (
      (λ a. ap (λ x. succs_of x a) (sym same) ∙ succs_known a),
      ap (λ x. x.exits) (sym same) ∙ exits_known,
    )

succs-analyze_blocks :
    (func : FunctionBody) (blocks : List BasicBlockId) (g g' : ControlFlowGraph) (a : BasicBlockId)
    → Distinct blocks
    → analyze_blocks func g blocks ≡ returned g'
    → succs_of g' a
      ≡ (if mem a blocks then succs_of g a ++ targets (func.terminator a) else succs_of g a)
unfolding analyze_blocks
succs-analyze_blocks func [] g g' a d e = ap (λ x. succs_of x a) (sym (the_graph g g' e))
succs-analyze_blocks func (block ∷ rest) g g' a d e =
    let (g1, step, e') =
      >>=-eq-returned (analyze_block g block (func.terminator block))
        (λ x. analyze_blocks func x rest) e in
    let (first, exits_) = known_target func g g1 block (func.terminator block) refl step in
    succs-analyze_blocks func rest g1 g' a d.1 e' ∙ elim (Bool-cases (block == a)) [
      | inl hit ↦
          let same : block ≡ a = (==_iff block a).0 hit in
          let absent : mem a rest ≡ false = rw (← same) d.0 in
          let here : (a == block) ≡ true = (==_iff a block).1 (sym same) in
          rw (hit, absent)
            (rw here at (first a) ∙ ap (λ b. succs_of g a ++ targets (func.terminator b)) same)
      | inr miss ↦
          let elsewhere : (a == block) ≡ false = ground arith in
          rw miss (
            ap (λ xs. if mem a rest then xs ++ targets (func.terminator a) else xs)
              (rw elsewhere at (first a)))
    ]

exits-analyze_blocks :
    (func : FunctionBody) (blocks : List BasicBlockId) (g g' : ControlFlowGraph)
    → analyze_blocks func g blocks ≡ returned g'
    → g'.exits ≡ g.exits ++ leaving func blocks
unfolding analyze_blocks
exits-analyze_blocks func [] g g' e =
    ap (λ x. x.exits) (sym (the_graph g g' e)) ∙ sym (append-nil g.exits)
exits-analyze_blocks func (block ∷ rest) g g' e =
    let (g1, step, e') =
      >>=-eq-returned (analyze_block g block (func.terminator block))
        (λ x. analyze_blocks func x rest) e in
    let (first, exits_) = known_target func g g1 block (func.terminator block) refl step in
    exits-analyze_blocks func rest g1 g' e' ∙ elim (Bool-cases (leaves (func.terminator block))) [
      | inl left ↦ rw left (
          ap (λ xs. xs ++ leaving func rest) (rw left at exits_)
          ∙ append_assoc g.exits (block ∷ []) (leaving func rest))
      | inr stays ↦ rw stays (ap (λ xs. xs ++ leaving func rest) (rw stays at exits_))
    ]

entry-add_edges :
    (g : ControlFlowGraph) (from : BasicBlockId) (dests : List BasicBlockId)
    → (add_edges g from dests).entry ≡ g.entry
unfolding add_edges add_edge with_node
entry-add_edges g from [] = refl
entry-add_edges g from (to ∷ rest) = entry-add_edges (add_edge g from to) from rest

entry-analyze_terminator :
    (g : ControlFlowGraph) (block : BasicBlockId) (info : BranchInfo)
    → (analyze_terminator g block info).entry ≡ g.entry
unfolding analyze_terminator with_node
entry-analyze_terminator g block info = elim (Bool-cases (is_not_a_branch info)) [
  | inl left ↦ rw left refl
  | inr stays ↦ rw stays (entry-add_edges g block (block_iter info))
]

entry-analyze_block :
    (g g' : ControlFlowGraph) (block : BasicBlockId) (info : Option BranchInfo)
    → analyze_block g block info ≡ returned g'
    → g'.entry ≡ g.entry
unfolding analyze_block
entry-analyze_block g g' block none e = cc
entry-analyze_block g g' block (some info) e =
    ap (λ x. x.entry) (sym (the_graph (analyze_terminator g block info) g' e))
    ∙ entry-analyze_terminator g block info

entry-analyze_blocks :
    (func : FunctionBody) (blocks : List BasicBlockId) (g g' : ControlFlowGraph)
    → analyze_blocks func g blocks ≡ returned g'
    → g'.entry ≡ g.entry
unfolding analyze_blocks
entry-analyze_blocks func [] g g' e = ap (λ x. x.entry) (sym (the_graph g g' e))
entry-analyze_blocks func (block ∷ rest) g g' e =
    let (g1, step, e') =
      >>=-eq-returned (analyze_block g block (func.terminator block))
        (λ x. analyze_blocks func x rest) e in
    entry-analyze_blocks func rest g1 g' e'
    ∙ entry-analyze_block g g1 block (func.terminator block) step

pub entry-compute :
    (func : FunctionBody) (g : ControlFlowGraph) → compute func ≡ returned g → g.entry ≡ func.entry
unfolding compute
entry-compute func g e =
    entry-analyze_blocks func func.iter_block
      (record { entry = func.entry; blocks = λ b. none; exits = [] }) g e

-- In the graph computed from a body of distinct blocks, the successors of each block are the
-- targets of its terminator, a block that is not in the body has none, and the exits are the
-- blocks whose terminator is not a branch, in order.
pub compute_lem :
    (func : FunctionBody) (g : ControlFlowGraph)
    → Distinct func.iter_block
    → compute func ≡ returned g
    → ((a : BasicBlockId)
        → succs_of g a ≡ (if mem a func.iter_block then targets (func.terminator a) else []))
      × (g.exits ≡ leaving func func.iter_block)
unfolding compute
compute_lem func g d e = (
  (λ a.
      unfold succs_of in
      succs-analyze_blocks func func.iter_block
        (record { entry = func.entry; blocks = λ b. none; exits = [] }) g a d e),
  exits-analyze_blocks func func.iter_block
      (record { entry = func.entry; blocks = λ b. none; exits = [] }) g e,
)
