-- ===== src/Cfg/PostOrder/Yields.antt =====
-- The run of the post-order to its end: from the rounds of its loop to the blocks that it yields.
use fe.Prelude.{
  ℕ, zero, suc, ◌≡◌, refl, sym, ap, ◌∙◌, Bool, true, false, ◌||◌, Option, none, some, List, [], ◌∷◌,
  ◌==◌, ==_iff, arith, Bool-cases, inl, inr, All,
}
use mathlib.Core.Path.{subst}
use fe.Prelude.Outcome.{Outcome, out_of_fuel, panicked, returned, ◌>>=◌, >>=-eq-returned}
use fe.Prelude.Pigeonhole.{mem, Distinct}
use fe.Cfg.{BasicBlockId, ControlFlowGraph}
use fe.Cfg.Edges.{succs_of}
use fe.Cfg.PostOrder.{
  NodeState, unvisited, visited, finished, CfgPostOrder, start, is_unvisited, Round, over, yield_,
  again, visit, round_of, go_on, next, collected, drain, post_order,
}
use fe.Cfg.PostOrder.Stack.{Reachable, at_entry, along, is_finished, unseen}
use fe.Cfg.PostOrder.Reached.{
  iterator, Follows, Keeps, SameFinished, Finishes, RoundKeeps, finished-RoundKeeps,
  visited-RoundKeeps, unvisited-RoundKeeps,
}

module _ (g : ControlFlowGraph) where
  by_state :
      (states : BasicBlockId → NodeState) (block : BasicBlockId) (rest : List BasicBlockId)
      (st : NodeState)
      → Follows g (iterator states (block ∷ rest))
      → states block ≡ st
      → RoundKeeps g
          (iterator states (block ∷ rest))
          (visit g (iterator states (block ∷ rest)) block rest st)
  by_state states block rest unvisited follows e =
      unvisited-RoundKeeps g states block rest follows e
  by_state states block rest visited follows e = visited-RoundKeeps g states block rest follows e
  by_state states block rest finished follows e = finished-RoundKeeps g states block rest follows e

  round-RoundKeeps :
      (states : BasicBlockId → NodeState) (stack : List BasicBlockId)
      → Follows g (iterator states stack)
      → RoundKeeps g (iterator states stack) (round_of g (iterator states stack) stack)
  unfolding round_of
  round-RoundKeeps states [] follows = refl
  round-RoundKeeps states (block ∷ rest) follows =
      by_state states block rest (states block) follows refl

  abbrev NextKeeps : CfgPostOrder → Outcome (Option BasicBlockId × CfgPostOrder) → Type 0
  NextKeeps it out_of_fuel = Unit
  NextKeeps it panicked = Unit
  NextKeeps it (returned (none, it')) =
      Follows g it' × Keeps it it' × SameFinished it it' × (it'.stack ≡ [])
  NextKeeps it (returned (some b, it')) =
      Follows g it'
      × Keeps it it'
      × Finishes it it' b
      × Reachable g b
      × (is_finished (it.node_state b) ≡ false)

  NextKeeps-again :
      (it it1 : CfgPostOrder) (o : Outcome (Option BasicBlockId × CfgPostOrder))
      → Keeps it it1
      → SameFinished it it1
      → NextKeeps it1 o
      → NextKeeps it o
  NextKeeps-again it it1 out_of_fuel keeps same h = tt
  NextKeeps-again it it1 panicked keeps same h = tt
  NextKeeps-again it it1 (returned (none, it')) keeps same (follows, keeps', same', empty_) =
      (follows, (λ c u. keeps' c (keeps c u)), (λ c. same' c ∙ same c), empty_)
  NextKeeps-again it it1 (returned (some b, it')) keeps same (follows, keeps', fin, reach, fresh) =
      (
        follows,
        (λ c u. keeps' c (keeps c u)),
        (λ c. fin c ∙ ap (λ v. v || b == c) (same c)),
        reach,
        sym (same b) ∙ fresh,
      )

  go_on-NextKeeps :
      (fuel : ℕ) (it : CfgPostOrder) (r : Outcome Round)
      → Follows g it
      → ((it' : CfgPostOrder) → Follows g it' → NextKeeps it' (next g fuel it'))
      → RoundKeeps g it r
      → NextKeeps it (r >>= go_on (next g fuel) it)
  go_on-NextKeeps fuel it out_of_fuel follows ih h = tt
  go_on-NextKeeps fuel it panicked follows ih h = tt
  go_on-NextKeeps fuel it (returned over) follows ih h = (follows, (λ c u. u), (λ c. refl), h)
  go_on-NextKeeps fuel it (returned (yield_ b it')) follows ih h = h
  go_on-NextKeeps fuel it (returned (again it')) follows ih (follows', keeps, same) =
      NextKeeps-again it it' (next g fuel it') keeps same (ih it' follows')

  next-NextKeeps : (fuel : ℕ) (it : CfgPostOrder) → Follows g it → NextKeeps it (next g fuel it)
  unfolding next
  next-NextKeeps zero it follows = tt
  next-NextKeeps (suc fuel) it follows =
      go_on-NextKeeps fuel it (round_of g it it.stack) follows
        (λ it' follows'. next-NextKeeps fuel it' follows')
        (round-RoundKeeps it.node_state it.stack follows)

  -- Finished before, or yielded since.
  abbrev done : CfgPostOrder → List BasicBlockId → BasicBlockId → Bool
  done it bs c = is_finished (it.node_state c) || mem c bs

  record Yields (it : CfgPostOrder) (bs : List BasicBlockId) : Type 0 where
    pub once : Distinct bs
    pub reach : All (Reachable g) bs
    pub fresh : All (λ b. is_finished (it.node_state b) ≡ false) bs
    pub seen_done : (c : BasicBlockId) → unseen it c ≡ false → done it bs c ≡ true
    pub next_done :
        (b c : BasicBlockId)
        → done it bs b ≡ true
        → mem c (succs_of g b) ≡ true
        → done it bs c ≡ true

  finished_seen : (st : NodeState) → is_finished st ≡ true → is_unvisited st ≡ false
  finished_seen unvisited h = cc
  finished_seen visited h = cc
  finished_seen finished h = refl

  -- When the stack is empty, what is seen is finished.
  seen-is_finished :
      (it : CfgPostOrder) (c : BasicBlockId)
      → Follows g it
      → it.stack ≡ []
      → unseen it c ≡ false
      → is_finished (it.node_state c) ≡ true
  seen-is_finished it c follows no_stack h = by (it.node_state c) refl
    where
      by : (st : NodeState) → it.node_state c ≡ st → is_finished st ≡ true
      by finished e = refl
      by unvisited e = cc (rw (e, no_stack) at h)
      by visited e = cc (rw no_stack at (follows.pending c e))

  ended-Yields :
      (it it' : CfgPostOrder)
      → Follows g it'
      → Keeps it it'
      → SameFinished it it'
      → it'.stack ≡ []
      → Yields it []
  ended-Yields it it' follows keeps same no_stack =
      let all_done : (c : BasicBlockId) → unseen it' c ≡ false → done it [] c ≡ true =
        (λ c u. ap (λ v. v || false) (sym (same c) ∙ seen-is_finished it' c follows no_stack u)) in
      record {
        once = tt;
        reach = tt;
        fresh = tt;
        seen_done = λ c u. all_done c (keeps c u);
        next_done = λ b c d m.
            all_done c
              (follows.seen b c (finished_seen (it'.node_state b) (same b ∙ ground arith)) m);
      }

  absent :
      (f : BasicBlockId → Bool) (b : BasicBlockId) (bs : List BasicBlockId)
      → All (λ d. f d ≡ false) bs
      → f b ≡ true
      → mem b bs ≡ false
  absent f b [] h e = refl
  absent f b (d ∷ bs) h e = elim (Bool-cases (d == b)) [
    | inl hit ↦ cc (e, h.0, (==_iff d b).0 hit)
    | inr miss ↦ rw miss (absent f b bs h.1 e)
  ]

  earlier_fresh :
      (it it' : CfgPostOrder) (b : BasicBlockId) (bs : List BasicBlockId)
      → Finishes it it' b
      → All (λ d. is_finished (it'.node_state d) ≡ false) bs
      → All (λ d. is_finished (it.node_state d) ≡ false) bs
  earlier_fresh it it' b [] fin h = tt
  earlier_fresh it it' b (d ∷ bs) fin h =
      (ground (arith, fin d, h.0), earlier_fresh it it' b bs fin h.1)

  cons-Yields :
      (it it' : CfgPostOrder) (b : BasicBlockId) (rest : List BasicBlockId)
      → Keeps it it'
      → Finishes it it' b
      → Reachable g b
      → is_finished (it.node_state b) ≡ false
      → Yields it' rest
      → Yields it (b ∷ rest)
  cons-Yields it it' b rest keeps fin reach fresh later =
      let same : (c : BasicBlockId) → done it' rest c ≡ done it (b ∷ rest) c =
        (λ c. ground (arith, fin c)) in
      let itself : is_finished (it'.node_state b) ≡ true = ground (arith, fin b) in
      record {
        once = (absent (λ d. is_finished (it'.node_state d)) b rest later.fresh itself, later.once);
        reach = (reach, later.reach);
        fresh = (fresh, earlier_fresh it it' b rest fin later.fresh);
        seen_done = λ c u. sym (same c) ∙ later.seen_done c (keeps c u);
        next_done = λ a c d m. sym (same c) ∙ later.next_done a c (same a ∙ d) m;
      }

  the_blocks :
      (bs cs : List BasicBlockId)
      → ◌≡◌ {A = Outcome (List BasicBlockId)} (returned bs) (returned cs)
      → bs ≡ cs
  the_blocks bs cs e = cc

  collected-Yields :
      (fuel : ℕ) (it : CfgPostOrder) (o : Outcome (Option BasicBlockId × CfgPostOrder))
      (bs : List BasicBlockId)
      → ((it' : CfgPostOrder) (cs : List BasicBlockId)
          → Follows g it'
          → drain g fuel it' ≡ returned cs
          → Yields it' cs)
      → NextKeeps it o
      → (o >>= collected (drain g fuel)) ≡ returned bs
      → Yields it bs
  collected-Yields fuel it out_of_fuel bs ih h e = cc
  collected-Yields fuel it panicked bs ih h e = cc
  collected-Yields fuel it (returned (none, it')) bs ih (follows, keeps, same, no_stack) e =
      subst (λ x. Yields it x) (the_blocks [] bs e)
        (ended-Yields it it' follows keeps same no_stack)
  collected-Yields fuel it (returned (some b, it')) bs ih (follows, keeps, fin, reach, fresh) e =
      let (rest, drained, shape) =
        >>=-eq-returned (drain g fuel it') (λ rest. returned (b ∷ rest)) e in
      subst (λ x. Yields it x) (the_blocks (b ∷ rest) bs shape)
        (cons-Yields it it' b rest keeps fin reach fresh (ih it' rest follows drained))

  drain-Yields :
      (fuel : ℕ) (it : CfgPostOrder) (bs : List BasicBlockId)
      → Follows g it
      → drain g fuel it ≡ returned bs
      → Yields it bs
  unfolding drain
  drain-Yields zero it bs follows e = cc
  drain-Yields (suc fuel) it bs follows e =
      collected-Yields fuel it (next g fuel it) bs
        (λ it' cs follows' e'. drain-Yields fuel it' cs follows' e')
        (next-NextKeeps fuel it follows) e

  start-Follows : Follows g (start g)
  unfolding start
  start-Follows = record { reach = (at_entry, tt); pending = λ b v. cc; seen = λ b c s m. cc }

  reached_done :
      (bs : List BasicBlockId) (b : BasicBlockId)
      → Yields (start g) bs
      → Reachable g b
      → done (start g) bs b ≡ true
  unfolding start
  reached_done bs b yields at_entry = yields.seen_done g.entry (ground arith)
  reached_done bs b yields (along {a} r m) = yields.next_done a b (reached_done bs a yields r) m

-- If the post-order of a control flow graph ends, it has yielded the blocks that the entry
-- reaches, all of them and no others, each once.
pub post_order-Reachable :
    (g : ControlFlowGraph) (fuel : ℕ) (bs : List BasicBlockId)
    → post_order g fuel ≡ returned bs
    → Distinct bs × All (Reachable g) bs × ((b : BasicBlockId) → Reachable g b → mem b bs ≡ true)
unfolding post_order
post_order-Reachable g fuel bs e =
    let yields = drain-Yields g fuel (start g) bs (start-Follows g) e in
    (yields.once, yields.reach, λ b r. unfold start in reached_done g bs b yields r)
