-- ===== src/Cfg/PostOrder.antt =====
-- `CfgPostOrder` of cfg.rs: the iterator over the blocks of a graph in post-order.
pub mod Ends
pub mod Stack
pub mod Reached
pub mod Yields
use fe.Prelude.{ℕ, zero, suc, Bool, Option, none, some, List, [], ◌∷◌, ◌==◌, if◌then◌else◌}
use fe.Prelude.Outcome.{Outcome, out_of_fuel, panicked, returned, ◌>>=◌}
use fe.Cfg.{BasicBlockId, ControlFlowGraph, succs}

pub data NodeState : Type 0 where
  unvisited visited finished : NodeState

-- The last of the stack comes first. A block with no entry in the map is unvisited.
pub record CfgPostOrder : Type 0 where
  pub node_state : BasicBlockId → NodeState
  pub stack : List BasicBlockId

unfoldable pub start : ControlFlowGraph → CfgPostOrder
start g = record { node_state = λ b. unvisited; stack = g.entry ∷ [] }

abbrev pub set_state :
    (BasicBlockId → NodeState) → BasicBlockId → NodeState → BasicBlockId → NodeState
set_state states block st b = if b == block then st else states b

abbrev pub is_unvisited : NodeState → Bool
is_unvisited unvisited = Bool.true
is_unvisited visited = Bool.false
is_unvisited finished = Bool.false

-- The loop over the successors: those that are not visited yet are pushed.
unfoldable pub push_succs :
    (BasicBlockId → NodeState) → List BasicBlockId → List BasicBlockId → List BasicBlockId
push_succs states [] stack = stack
push_succs states (succ ∷ rest) stack =
    push_succs states rest (if is_unvisited (states succ) then succ ∷ stack else stack)

-- What one round of the loop of `next` comes to.
pub data Round : Type 0 where
  over : Round
  yield_ : BasicBlockId → CfgPostOrder → Round
  again : CfgPostOrder → Round

unfoldable pub visit :
    ControlFlowGraph
    → CfgPostOrder
    → (block : BasicBlockId) → (rest : List BasicBlockId) → NodeState
    → Outcome Round
unfolding push_succs
visit g it block rest unvisited =
    let states = set_state it.node_state block visited in
    do
      next_blocks ← succs g block
      returned (
          again
            (record { node_state = states; stack = push_succs states next_blocks (block ∷ rest) }))
visit g it block rest visited =
    returned
      (yield_ block (record { node_state = set_state it.node_state block finished; stack = rest }))
visit g it block rest finished = returned (again (record it { stack = rest }))

unfoldable pub round_of : ControlFlowGraph → CfgPostOrder → List BasicBlockId → Outcome Round
unfolding visit
round_of g it [] = returned over
round_of g it (block ∷ rest) = visit g it block rest (it.node_state block)

abbrev pub go_on :
    (CfgPostOrder → Outcome (Option BasicBlockId × CfgPostOrder))
    → CfgPostOrder
    → Round
    → Outcome (Option BasicBlockId × CfgPostOrder)
go_on loop it over = returned (none, it)
go_on loop it (yield_ block it') = returned (some block, it')
go_on loop it (again it') = loop it'

-- `CfgPostOrder::next`
unfoldable pub next :
    ControlFlowGraph → ℕ → CfgPostOrder → Outcome (Option BasicBlockId × CfgPostOrder)
unfolding round_of
next g zero it = out_of_fuel
next g (suc fuel) it = round_of g it it.stack >>= go_on (next g fuel) it

abbrev pub collected :
    (CfgPostOrder → Outcome (List BasicBlockId))
    → Option BasicBlockId × CfgPostOrder
    → Outcome (List BasicBlockId)
collected more (none, it) = returned []
collected more (some block, it) = more it >>= λ rest. returned (block ∷ rest)

-- The blocks that the iterator yields until its end.
unfoldable pub drain : ControlFlowGraph → ℕ → CfgPostOrder → Outcome (List BasicBlockId)
unfolding next
drain g zero it = out_of_fuel
drain g (suc fuel) it = next g fuel it >>= collected (drain g fuel)

unfoldable pub post_order : ControlFlowGraph → ℕ → Outcome (List BasicBlockId)
unfolding drain start
post_order g fuel = drain g fuel (start g)
