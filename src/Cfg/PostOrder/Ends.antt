-- ===== src/Cfg/PostOrder/Ends.antt =====
-- The fuel that the post-order of a graph takes.
use fe.Prelude.{
  ℕ, zero, suc, ◌+◌, ◌<◌, ◌≤◌, ◌≡◌, refl, ap, true, false, Option, none, some, List, [], ◌∷◌, ◌==◌,
  ==_iff, if◌then◌else◌, arith, Bool-cases, inl, inr, All, length,
}
use fe.Prelude.Outcome.{Outcome, out_of_fuel, panicked, returned, ◌>>=◌}
use fe.Prelude.Pigeonhole.{mem}
use fe.Cfg.{BasicBlockId, ControlFlowGraph, succs}
use fe.Cfg.Edges.{succs_of}
use fe.Cfg.PostOrder.{
  NodeState, unvisited, visited, finished, CfgPostOrder, start, set_state, is_unvisited, push_succs,
  Round, over, yield_, again, visit, round_of, go_on, next, collected, drain, post_order,
}

abbrev pub AllIn : List BasicBlockId → List BasicBlockId → Type 0
AllIn nodes bs = All (λ b. mem b nodes ≡ true) bs

-- The graph has each of the blocks, and their successors are among them.
abbrev pub IsClosed : ControlFlowGraph → List BasicBlockId → Type 0
IsClosed g nodes =
    (b : BasicBlockId)
    → mem b nodes ≡ true
    → (succs g b ≡ returned (succs_of g b)) × AllIn nodes (succs_of g b)

-- What the blocks that are unvisited can still add to the stack.
abbrev unvisited_weight : ControlFlowGraph → (BasicBlockId → NodeState) → List BasicBlockId → ℕ
unvisited_weight g states [] = 0
unvisited_weight g states (b ∷ bs) =
    (if is_unvisited (states b) then suc (length (succs_of g b)) else 0)
    + unvisited_weight g states bs

abbrev pub work : ControlFlowGraph → List BasicBlockId → CfgPostOrder → ℕ
work g nodes it = length it.stack + unvisited_weight g it.node_state nodes

length-push_succs :
    (states : BasicBlockId → NodeState) (bs stack : List BasicBlockId)
    → length (push_succs states bs stack) ≤ length bs + length stack
unfolding push_succs
length-push_succs states [] stack = omega arith
length-push_succs states (b ∷ bs) stack =
    ground
      (arith, length-push_succs states bs (if is_unvisited (states b) then b ∷ stack else stack))

AllIn-push_succs :
    (nodes : List BasicBlockId) (states : BasicBlockId → NodeState) (bs stack : List BasicBlockId)
    → AllIn nodes bs
    → AllIn nodes stack
    → AllIn nodes (push_succs states bs stack)
unfolding push_succs
AllIn-push_succs nodes states [] stack h k = k
AllIn-push_succs nodes states (b ∷ bs) stack h k = elim (Bool-cases (is_unvisited (states b))) [
  | inl new ↦ rw new (AllIn-push_succs nodes states bs (b ∷ stack) h.1 (h.0, k))
  | inr old ↦ rw old (AllIn-push_succs nodes states bs stack h.1 k)
]

module _ (g : ControlFlowGraph) (states : BasicBlockId → NodeState) (block : BasicBlockId) where
  -- Setting a state to one that is not unvisited adds no work.
  weight-le :
      (st : NodeState) (nodes : List BasicBlockId)
      → is_unvisited st ≡ false
      → unvisited_weight g (set_state states block st) nodes ≤ unvisited_weight g states nodes
  weight-le st [] h = omega arith
  weight-le st (b ∷ bs) h = elim (Bool-cases (b == block)) [
    | inl hit ↦ rw (hit, h) (omega (arith, weight-le st bs h))
    | inr miss ↦ rw miss (omega (arith, weight-le st bs h))
  ]

  weight-lt :
      (nodes : List BasicBlockId)
      → is_unvisited (states block) ≡ true
      → mem block nodes ≡ true
      → suc (length (succs_of g block)) + unvisited_weight g (set_state states block visited) nodes
        ≤ unvisited_weight g states nodes
  weight-lt [] h m = cc
  weight-lt (b ∷ bs) h m = elim (Bool-cases (b == block)) [
    | inl hit ↦
        let same : b ≡ block = (==_iff b block).0 hit in
        rw (hit, same, h) (omega (arith, weight-le visited bs refl))
    | inr miss ↦ rw miss (omega (arith, weight-lt bs h (ground arith)))
  ]

module _ (g : ControlFlowGraph) (nodes : List BasicBlockId) (closed : IsClosed g nodes) where
  -- A round that ends without a panic, with less work left.
  abbrev RoundGoes : ℕ → Outcome Round → Type 0
  RoundGoes before out_of_fuel = ⊥
  RoundGoes before panicked = ⊥
  RoundGoes before (returned over) = Unit
  RoundGoes before (returned (yield_ b it')) = AllIn nodes it'.stack × (work g nodes it' < before)
  RoundGoes before (returned (again it')) = AllIn nodes it'.stack × (work g nodes it' < before)

  visit-RoundGoes :
      (it : CfgPostOrder) (block : BasicBlockId) (rest : List BasicBlockId) (st : NodeState)
      → it.node_state block ≡ st
      → mem block nodes ≡ true
      → AllIn nodes rest
      → RoundGoes
          (suc (length rest) + unvisited_weight g it.node_state nodes)
          (visit g it block rest st)
  unfolding visit
  visit-RoundGoes it block rest unvisited e here inside =
      let (known, targets_in) = closed block here in
      let states = set_state it.node_state block visited in
      let lighter = weight-lt g it.node_state block nodes (ap is_unvisited e) here in
      rw known (
        (
          AllIn-push_succs nodes states (succs_of g block) (block ∷ rest) targets_in (here, inside),
          omega (arith, lighter, length-push_succs states (succs_of g block) (block ∷ rest)),
        ))
  visit-RoundGoes it block rest visited e here inside =
      (inside, omega (arith, weight-le g it.node_state block finished nodes refl))
  visit-RoundGoes it block rest finished e here inside = (inside, omega arith)

  abbrev NextGoes : ℕ → Outcome (Option BasicBlockId × CfgPostOrder) → Type 0
  NextGoes before out_of_fuel = ⊥
  NextGoes before panicked = ⊥
  NextGoes before (returned (none, it')) = Unit
  NextGoes before (returned (some b, it')) = AllIn nodes it'.stack × (work g nodes it' < before)

  NextGoes-mono :
      (m n : ℕ) (o : Outcome (Option BasicBlockId × CfgPostOrder))
      → m < n
      → NextGoes m o
      → NextGoes n o
  NextGoes-mono m n out_of_fuel lt h = absurd h
  NextGoes-mono m n panicked lt h = absurd h
  NextGoes-mono m n (returned (none, it')) lt h = tt
  NextGoes-mono m n (returned (some b, it')) lt h = (h.0, omega (arith, h.1))

  go_on-NextGoes :
      (fuel before : ℕ) (it : CfgPostOrder) (r : Outcome Round)
      → ((it' : CfgPostOrder)
          → AllIn nodes it'.stack
          → work g nodes it' < before
          → NextGoes (work g nodes it') (next g fuel it'))
      → RoundGoes before r
      → NextGoes before (r >>= go_on (next g fuel) it)
  go_on-NextGoes fuel before it out_of_fuel ih h = absurd h
  go_on-NextGoes fuel before it panicked ih h = absurd h
  go_on-NextGoes fuel before it (returned over) ih h = tt
  go_on-NextGoes fuel before it (returned (yield_ b it')) ih h = h
  go_on-NextGoes fuel before it (returned (again it')) ih h =
      NextGoes-mono (work g nodes it') before (next g fuel it') h.1 (ih it' h.0 h.1)

  round-RoundGoes :
      (it : CfgPostOrder) (stack : List BasicBlockId)
      → AllIn nodes stack
      → RoundGoes (length stack + unvisited_weight g it.node_state nodes) (round_of g it stack)
  unfolding round_of
  round-RoundGoes it [] inside = tt
  round-RoundGoes it (block ∷ rest) inside =
      visit-RoundGoes it block rest (it.node_state block) refl inside.0 inside.1

  next-NextGoes :
      (fuel : ℕ) (it : CfgPostOrder)
      → AllIn nodes it.stack
      → work g nodes it < fuel
      → NextGoes (work g nodes it) (next g fuel it)
  unfolding next
  next-NextGoes zero it inside enough = absurd (omega arith)
  next-NextGoes (suc fuel) it inside enough =
      go_on-NextGoes fuel (work g nodes it) it (round_of g it it.stack)
        (λ it' inside' less. next-NextGoes fuel it' inside' (omega arith))
        (round-RoundGoes it it.stack inside)

  collected-returns :
      (fuel before : ℕ) (o : Outcome (Option BasicBlockId × CfgPostOrder))
      → ((it' : CfgPostOrder)
          → AllIn nodes it'.stack
          → work g nodes it' < before
          → (bs : List BasicBlockId) × (drain g fuel it' ≡ returned bs))
      → NextGoes before o
      → (bs : List BasicBlockId) × ((o >>= collected (drain g fuel)) ≡ returned bs)
  collected-returns fuel before out_of_fuel ih h = absurd h
  collected-returns fuel before panicked ih h = absurd h
  collected-returns fuel before (returned (none, it')) ih h = ([], refl)
  collected-returns fuel before (returned (some b, it')) ih h =
      let (bs, e) = ih it' h.0 h.1 in (b ∷ bs, rw e refl)

  pub drain-returns :
      (fuel : ℕ) (it : CfgPostOrder)
      → AllIn nodes it.stack
      → suc (work g nodes it) < fuel
      → (bs : List BasicBlockId) × (drain g fuel it ≡ returned bs)
  unfolding drain
  drain-returns zero it inside enough = absurd (omega arith)
  drain-returns (suc fuel) it inside enough =
      collected-returns fuel (work g nodes it) (next g fuel it)
        (λ it' inside' less. drain-returns fuel it' inside' (omega arith))
        (next-NextGoes fuel it inside (omega arith))

-- The post-order of a graph that has its entry and the successors of its blocks ends without a
-- panic, for any fuel above a bound that its blocks and edges give.
pub post_order_returns :
    (g : ControlFlowGraph) (nodes : List BasicBlockId) (fuel : ℕ)
    → IsClosed g nodes
    → mem g.entry nodes ≡ true
    → suc (work g nodes (start g)) < fuel
    → (bs : List BasicBlockId) × (post_order g fuel ≡ returned bs)
unfolding post_order start
post_order_returns g nodes fuel closed here enough =
    drain-returns g nodes closed fuel (start g) (here, tt) enough
