-- ===== src/Cfg/PostOrder/Stack.antt =====
-- What the stack of the post-order holds after a block is visited.
use fe.Prelude.{
  ◌≡◌, refl, Bool, true, false, not, ◌&&◌, Option, none, some, List, [], ◌∷◌, ◌==◌, ==_iff,
  if◌then◌else◌, arith, Bool-cases, inl, inr, All,
}
use fe.Prelude.Outcome.{returned}
use fe.Prelude.Pigeonhole.{mem}
use fe.Cfg.{BasicBlockId, BlockNode, ControlFlowGraph, succs, node_field, or_default}
use fe.Cfg.Edges.{succs_of}
use fe.Cfg.PostOrder.{
  NodeState, unvisited, visited, finished, CfgPostOrder, is_unvisited, push_succs,
}

-- The blocks that the entry reaches.
pub data Reachable (g : ControlFlowGraph) : BasicBlockId → Type 0 where
  at_entry : Reachable g g.entry
  along : {a b : BasicBlockId} → Reachable g a → mem b (succs_of g a) ≡ true → Reachable g b

abbrev pub is_finished : NodeState → Bool
is_finished unvisited = false
is_finished visited = false
is_finished finished = true

-- Neither visited yet, nor to be visited.
abbrev pub unseen : CfgPostOrder → BasicBlockId → Bool
unseen it c = is_unvisited (it.node_state c) && not (mem c it.stack)

pub mem-push_succs :
    (states : BasicBlockId → NodeState) (bs stack : List BasicBlockId) (c : BasicBlockId)
    → mem c stack ≡ true
    → mem c (push_succs states bs stack) ≡ true
unfolding push_succs
mem-push_succs states [] stack c h = h
mem-push_succs states (b ∷ bs) stack c h = elim (Bool-cases (is_unvisited (states b))) [
  | inl new ↦ rw new (mem-push_succs states bs (b ∷ stack) c (ground arith))
  | inr old ↦ rw old (mem-push_succs states bs stack c h)
]

-- A successor is visited already, or it is on the stack then.
pub push_succs-covers :
    (states : BasicBlockId → NodeState) (bs stack : List BasicBlockId) (c : BasicBlockId)
    → mem c bs ≡ true
    → (is_unvisited (states c) && not (mem c (push_succs states bs stack))) ≡ false
unfolding push_succs
push_succs-covers states [] stack c h = cc
push_succs-covers states (b ∷ bs) stack c h = elim (Bool-cases (b == c)) [
  | inr other ↦
      push_succs-covers states bs (if is_unvisited (states b) then b ∷ stack else stack) c
        (ground arith)
  | inl same_ ↦
      let same : b ≡ c = (==_iff b c).0 same_ in
      elim (Bool-cases (is_unvisited (states c))) [
        | inr old ↦ rw old refl
        | inl new ↦
            let pushed = mem-push_succs states bs (c ∷ stack) c (ground arith) in
            rw (same, new, pushed) refl
      ]
]

pub push_succs-All :
    (P : BasicBlockId → Type 0) (states : BasicBlockId → NodeState) (bs stack : List BasicBlockId)
    → ((c : BasicBlockId) → mem c bs ≡ true → P c)
    → All P stack
    → All P (push_succs states bs stack)
unfolding push_succs
push_succs-All P states [] stack h k = k
push_succs-All P states (b ∷ bs) stack h k = elim (Bool-cases (is_unvisited (states b))) [
  | inl new ↦
      rw new
        (push_succs-All P states bs (b ∷ stack) (λ c m. h c (ground arith)) (h b (ground arith), k))
  | inr old ↦ rw old (push_succs-All P states bs stack (λ c m. h c (ground arith)) k)
]

pub known_succs :
    (g : ControlFlowGraph) (b : BasicBlockId) (ss : List BasicBlockId)
    → succs g b ≡ returned ss
    → succs_of g b ≡ ss
unfolding succs succs_of
known_succs g b ss e = go (g.blocks b) e
  where
    go :
        (o : Option BlockNode)
        → node_field (λ n. n.succs) o ≡ returned ss
        → (or_default o).succs ≡ ss
    go none e = cc
    go (some n) e = cc
