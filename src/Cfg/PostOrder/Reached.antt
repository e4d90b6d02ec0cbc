-- ===== src/Cfg/PostOrder/Reached.antt =====
-- The rounds of the loop of `CfgPostOrder::next`: what holds of the stack and the states after each.
use fe.Prelude.{
  ℕ, ◌≡◌, refl, Bool, true, false, ◌||◌, List, [], ◌∷◌, ◌==◌, ==_iff, arith, Bool-cases, inl, inr,
  All,
}
use fe.Prelude.Outcome.{Outcome, out_of_fuel, panicked, returned, ◌>>=◌}
use fe.Prelude.Pigeonhole.{mem}
use fe.Cfg.{BasicBlockId, ControlFlowGraph, succs}
use fe.Cfg.Edges.{succs_of}
use fe.Cfg.PostOrder.{
  NodeState, unvisited, visited, finished, CfgPostOrder, set_state, is_unvisited, push_succs, Round,
  over, yield_, again, visit,
}
use fe.Cfg.PostOrder.Stack.{
  Reachable, along, is_finished, unseen, mem-push_succs, push_succs-covers, push_succs-All,
  known_succs,
}

abbrev pub iterator : (BasicBlockId → NodeState) → List BasicBlockId → CfgPostOrder
iterator states stack = record { node_state = states; stack = stack }

-- The stack holds reachable blocks, every block that is visited and not finished is on it, and the
-- successors of a block that is visited are seen.
pub record Follows (g : ControlFlowGraph) (it : CfgPostOrder) : Type 0 where
  pub reach : All (Reachable g) it.stack
  pub pending : (b : BasicBlockId) → it.node_state b ≡ visited → mem b it.stack ≡ true
  pub seen :
      (b c : BasicBlockId)
      → is_unvisited (it.node_state b) ≡ false
      → mem c (succs_of g b) ≡ true
      → unseen it c ≡ false

abbrev pub Keeps : CfgPostOrder → CfgPostOrder → Type 0
Keeps it it' = (c : BasicBlockId) → unseen it c ≡ false → unseen it' c ≡ false

abbrev pub SameFinished : CfgPostOrder → CfgPostOrder → Type 0
SameFinished it it' =
    (c : BasicBlockId) → is_finished (it'.node_state c) ≡ is_finished (it.node_state c)

abbrev pub Finishes : CfgPostOrder → CfgPostOrder → BasicBlockId → Type 0
Finishes it it' b =
    (c : BasicBlockId) → is_finished (it'.node_state c) ≡ (is_finished (it.node_state c) || b == c)

swap_eq : (b c : ℕ) (v : Bool) → (b == c) ≡ v → (c == b) ≡ v
swap_eq b c true h = ground arith
swap_eq b c false h = ground arith

module _ (g : ControlFlowGraph) where
  abbrev pub RoundKeeps : CfgPostOrder → Outcome Round → Type 0
  RoundKeeps it out_of_fuel = Unit
  RoundKeeps it panicked = Unit
  RoundKeeps it (returned over) = it.stack ≡ []
  RoundKeeps it (returned (again it')) = Follows g it' × Keeps it it' × SameFinished it it'
  RoundKeeps it (returned (yield_ b it')) =
      Follows g it'
      × Keeps it it'
      × Finishes it it' b
      × Reachable g b
      × (is_finished (it.node_state b) ≡ false)

  module _ (states : BasicBlockId → NodeState) (block : BasicBlockId) (rest : List BasicBlockId)
      (follows : Follows g (iterator states (block ∷ rest))) where
    abbrev before : CfgPostOrder
    before = iterator states (block ∷ rest)

    -- The stack without its top, when the top is no longer unvisited.
    popped-Keeps :
        (states' : BasicBlockId → NodeState)
        → is_unvisited (states' block) ≡ false
        → ((c : BasicBlockId) → (c == block) ≡ false → states' c ≡ states c)
        → Keeps before (iterator states' rest)
    popped-Keeps states' done same c h = elim (Bool-cases (c == block)) [
      | inl hit ↦ rw ((==_iff c block).0 hit, done) refl
      | inr miss ↦ rw (same c miss) (rw (swap_eq c block false miss) at h)
    ]

    popped-pending :
        (b : BasicBlockId) → states b ≡ visited → (b == block) ≡ false → mem b rest ≡ true
    popped-pending b e miss = rw (swap_eq b block false miss) at (follows.pending b e)

    pub finished-RoundKeeps :
        states block ≡ finished → RoundKeeps before (visit g before block rest finished)
    unfolding visit
    finished-RoundKeeps e =
        let keeps = popped-Keeps states (rw e refl) (λ c miss. refl) in
        (
          record {
            reach = follows.reach.1;
            pending = λ b v. elim (Bool-cases (b == block)) [
              | inl hit ↦ cc (v, e, (==_iff b block).0 hit)
              | inr miss ↦ popped-pending b v miss
            ];
            seen = λ b c s m. keeps c (follows.seen b c s m);
          },
          keeps,
          λ c. refl,
        )

    was_seen :
        (b : BasicBlockId) (st : NodeState)
        → is_unvisited (states block) ≡ false
        → is_unvisited (set_state states block st b) ≡ false
        → is_unvisited (states b) ≡ false
    was_seen b st done h = elim (Bool-cases (b == block)) [
      | inl hit ↦ rw ((==_iff b block).0 hit) done
      | inr miss ↦ rw miss at h
    ]

    pub visited-RoundKeeps :
        states block ≡ visited → RoundKeeps before (visit g before block rest visited)
    unfolding visit
    visited-RoundKeeps e =
        let states' : BasicBlockId → NodeState = set_state states block finished in
        let itself : (block == block) ≡ true = ground arith in
        let keeps = popped-Keeps states' (rw itself refl) (λ c miss. rw miss refl) in
        (
          record {
            reach = follows.reach.1;
            pending = λ b v. elim (Bool-cases (b == block)) [
              | inl hit ↦ cc (rw hit at v)
              | inr miss ↦ popped-pending b (rw miss at v) miss
            ];
            seen = λ b c s m. keeps c (follows.seen b c (was_seen b finished (rw e refl) s) m);
          },
          keeps,
          (λ c. elim (Bool-cases (c == block)) [
            | inl hit ↦ rw (hit, swap_eq c block true hit) (ground arith)
            | inr miss ↦ rw (miss, swap_eq c block false miss) (ground arith)
          ]),
          follows.reach.0,
          rw e refl,
        )

    abbrev entered : BasicBlockId → NodeState
    entered = set_state states block visited

    pushed-Keeps :
        (ss : List BasicBlockId)
        → Keeps before (iterator entered (push_succs entered ss (block ∷ rest)))
    pushed-Keeps ss c h = elim (Bool-cases (c == block)) [
      | inl hit ↦ rw hit refl
      | inr miss ↦ elim (Bool-cases (mem c (block ∷ rest))) [
        | inl on ↦
            let pushed = mem-push_succs entered ss (block ∷ rest) c on in
            rw (miss, pushed) (ground arith)
        | inr off ↦ let old : is_unvisited (states c) ≡ false = ground arith in rw (miss, old) refl
      ]
    ]

    pushed-pending :
        (ss : List BasicBlockId) (b : BasicBlockId)
        → entered b ≡ visited
        → mem b (push_succs entered ss (block ∷ rest)) ≡ true
    pushed-pending ss b v = elim (Bool-cases (b == block)) [
      | inl hit ↦ mem-push_succs entered ss (block ∷ rest) b (rw (swap_eq b block true hit) refl)
      | inr miss ↦ mem-push_succs entered ss (block ∷ rest) b (follows.pending b (rw miss at v))
    ]

    pub unvisited-RoundKeeps :
        states block ≡ unvisited → RoundKeeps before (visit g before block rest unvisited)
    unfolding visit
    unvisited-RoundKeeps e = opened (succs g block) refl
      where
        opened :
            (o : Outcome (List BasicBlockId))
            → succs g block ≡ o
            → RoundKeeps before (
                o >>= λ next_blocks.
                returned (again (iterator entered (push_succs entered next_blocks (block ∷ rest)))))
        opened out_of_fuel known = tt
        opened panicked known = tt
        opened (returned ss) known =
            let itself : (block == block) ≡ true = ground arith in
            let these = known_succs g block ss known in
            let stack' : List BasicBlockId = push_succs entered ss (block ∷ rest) in
            let keeps : Keeps before (iterator entered stack') = pushed-Keeps ss in
            (
              record {
                reach =
                    push_succs-All (Reachable g) entered ss (block ∷ rest)
                      (λ c m. along follows.reach.0 (rw these m)) follows.reach;
                pending = pushed-pending ss;
                seen = λ b c s m. elim (Bool-cases (b == block)) [
                  | inl hit ↦
                      push_succs-covers entered ss (block ∷ rest) c
                        (rw ((==_iff b block).0 hit, these) at m)
                  | inr miss ↦ keeps c (follows.seen b c (rw miss at s) m)
                ];
              },
              keeps,
              (λ c. elim (Bool-cases (c == block)) [
                | inl hit ↦ rw ((==_iff c block).0 hit, e, itself) refl
                | inr miss ↦ rw miss refl
              ]),
            )
