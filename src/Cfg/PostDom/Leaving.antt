-- ===== src/Cfg/PostDom/Leaving.antt =====
-- The blocks that the reverse control flow graph reaches are those from which the body can be left.
use fe.Prelude.{
  ℕ, ◌≡◌, ◌⊎◌, ◌↔◌, refl, sym, ap, ◌∙◌, true, false, not, ◌&&◌, ◌||◌, List, [], ◌∷◌, ◌++◌, ◌==◌,
  ==_iff, arith, Bool-cases, inl, inr,
}
use fe.Prelude.Outcome.{returned, >>=-eq-returned}
use fe.Prelude.Pigeonhole.{mem, Distinct}
use fe.Cfg.{
  BasicBlockId, FunctionBody, ControlFlowGraph, compute, add_edge, reverse_edge, with_node,
}
use fe.Cfg.Edges.{
  count, IsSymmetric, succs_of, preds_of, succs-add_edge, add_edge-IsSymmetric, compute-IsSymmetric,
  reverse_edge_lem, the_graph,
}
use fe.Cfg.Successors.{targets, leaves, leaving, compute_lem, entry-compute}
use fe.Cfg.PostOrder.Stack.{Reachable, at_entry, along}
use fe.Cfg.PostDom.{add_exits, add_dummies, reverse_cfg}

-- A block from which some path ends in a block that is not left by a branch.
pub data CanLeave (func : FunctionBody) : BasicBlockId → Type 0 where
  leaves_here :
      {b : BasicBlockId}
      → mem b func.iter_block ≡ true
      → leaves (func.terminator b) ≡ true
      → CanLeave func b
  goes_on :
      {a b : BasicBlockId}
      → mem b func.iter_block ≡ true
      → mem a (targets (func.terminator b)) ≡ true
      → CanLeave func a
      → CanLeave func b

true_ne : true ≡ false → ⊥
true_ne e = cc

mem-count : (n : ℕ) (xs : List ℕ) → mem n xs ≡ not (count n xs == 0)
mem-count n [] = refl
mem-count n (x ∷ xs) = ground (arith, mem-count n xs)

mem-append : (n y : ℕ) (xs : List ℕ) → mem n (xs ++ y ∷ []) ≡ (mem n xs || (y == n))
mem-append n y [] = ground arith
mem-append n y (x ∷ xs) = ground (arith, mem-append n y xs)

mem-preds_of :
    (g : ControlFlowGraph) (a b : BasicBlockId)
    → IsSymmetric g
    → mem a (preds_of g b) ≡ mem b (succs_of g a)
mem-preds_of g a b h = mem-count a (preds_of g b) ∙ rw (← h a b) (sym (mem-count b (succs_of g a)))

mem-add_edge :
    (g : ControlFlowGraph) (from to a y : BasicBlockId)
    → mem y (succs_of (add_edge g from to) a) ≡ (mem y (succs_of g a) || ((a == from) && (to == y)))
mem-add_edge g from to a y =
    rw (succs-add_edge g from to a) (ground (arith, mem-append y to (succs_of g a)))

mem-add_exits :
    (g : ControlFlowGraph) (exits : List BasicBlockId) (to a y : BasicBlockId)
    → mem y (succs_of (add_exits g exits to) a)
      ≡ (mem y (succs_of g a) || (mem a exits && (to == y)))
unfolding add_exits
mem-add_exits g [] to a y = ground arith
mem-add_exits g (exit ∷ exits) to a y =
    ground (arith, mem-add_exits (add_edge g exit to) exits to a y, mem-add_edge g exit to a y)

add_exits-IsSymmetric :
    (g : ControlFlowGraph) (exits : List BasicBlockId) (to : BasicBlockId)
    → IsSymmetric g
    → IsSymmetric (add_exits g exits to)
unfolding add_exits
add_exits-IsSymmetric g [] to h = h
add_exits-IsSymmetric g (exit ∷ exits) to h =
    add_exits-IsSymmetric (add_edge g exit to) exits to (add_edge-IsSymmetric g exit to h)

mem-leaving :
    (func : FunctionBody) (bs : List BasicBlockId) (a : BasicBlockId)
    → mem a (leaving func bs) ≡ (mem a bs && leaves (func.terminator a))
mem-leaving func [] a = refl
mem-leaving func (b ∷ bs) a = elim (Bool-cases (b == a)) [
  | inl same ↦ rw ((==_iff b a).0 same) (ground (arith, mem-leaving func bs a))
  | inr other ↦ ground (arith, mem-leaving func bs a)
]

exits-add_edge :
    (g : ControlFlowGraph) (from to : BasicBlockId) → (add_edge g from to).exits ≡ g.exits
unfolding add_edge with_node
exits-add_edge g from to = refl

succs-exits :
    (g : ControlFlowGraph) (es : List BasicBlockId) (a : BasicBlockId)
    → succs_of (record g { exits = es }) a ≡ succs_of g a
unfolding succs_of
succs-exits g es a = refl

IsSymmetric-exits :
    (g : ControlFlowGraph) (es : List BasicBlockId)
    → IsSymmetric g
    → IsSymmetric (record g { exits = es })
unfolding succs_of preds_of
IsSymmetric-exits g es h a b = h a b

module _ (func : FunctionBody) (dummy_entry dummy_exit : BasicBlockId) (g : ControlFlowGraph)
    (distinct : Distinct func.iter_block) (computed : compute func ≡ returned g) where
  abbrev reversed : ControlFlowGraph
  reversed = reverse_edge (add_dummies g dummy_entry dummy_exit) dummy_exit (dummy_entry ∷ [])

  dummies-IsSymmetric : IsSymmetric (add_dummies g dummy_entry dummy_exit)
  unfolding add_dummies
  dummies-IsSymmetric =
      let g1 = add_edge g dummy_entry g.entry in
      let g2 = add_edge g1 dummy_entry dummy_exit in
      add_exits-IsSymmetric (record g2 { exits = [] }) g2.exits dummy_exit
        (IsSymmetric-exits g2 [] (
          add_edge-IsSymmetric g1 dummy_entry dummy_exit
            (add_edge-IsSymmetric g dummy_entry g.entry (compute-IsSymmetric func g computed))))

  -- The edges before they are reversed: those of the body, and those of the dummies.
  dummies_lem :
      (a b : BasicBlockId)
      → mem a (succs_of (add_dummies g dummy_entry dummy_exit) b) ≡ (
          (mem b func.iter_block && mem a (targets (func.terminator b)))
          || ((b == dummy_entry) && (g.entry == a))
          || ((b == dummy_entry) && (dummy_exit == a))
          || (mem b func.iter_block && leaves (func.terminator b) && (dummy_exit == a)))
  unfolding add_dummies
  dummies_lem a b =
      let (succs_, exits_) = compute_lem func g distinct computed in
      let g1 : ControlFlowGraph = add_edge g dummy_entry g.entry in
      let g2 : ControlFlowGraph = add_edge g1 dummy_entry dummy_exit in
      let same_exits : g2.exits ≡ leaving func func.iter_block =
        exits-add_edge g1 dummy_entry dummy_exit ∙ exits-add_edge g dummy_entry g.entry ∙ exits_ in
      mem-add_exits (record g2 { exits = [] }) g2.exits dummy_exit b a
      ∙ rw
          (
            succs-exits g2 [] b,
            mem-add_edge g1 dummy_entry dummy_exit b a,
            mem-add_edge g dummy_entry g.entry b a,
            same_exits,
            mem-leaving func func.iter_block b,
            succs_ b,
          )
          (ground arith)

  edge_lem :
      (a b : BasicBlockId)
      → mem b (succs_of reversed a) ≡ mem a (succs_of (add_dummies g dummy_entry dummy_exit) b)
  edge_lem a b =
      let (swapped, both) =
        reverse_edge_lem (add_dummies g dummy_entry dummy_exit) dummy_exit (dummy_entry ∷ [])
          dummies-IsSymmetric in
      rw ((swapped a).0)
        (mem-preds_of (add_dummies g dummy_entry dummy_exit) b a dummies-IsSymmetric)

  edge_of :
      (a b : BasicBlockId)
      → mem b (succs_of reversed a) ≡ true
      → ((mem b func.iter_block ≡ true) × (mem a (targets (func.terminator b)) ≡ true))
        ⊎ (b ≡ dummy_entry)
        ⊎ ((mem b func.iter_block ≡ true) × (leaves (func.terminator b) ≡ true))
  edge_of a b m = ground (arith, edge_lem a b, dummies_lem a b)

  back_edge :
      (a b : BasicBlockId)
      → mem b func.iter_block ≡ true
      → mem a (targets (func.terminator b)) ≡ true
      → mem b (succs_of reversed a) ≡ true
  back_edge a b h k = edge_lem a b ∙ dummies_lem a b ∙ rw (h, k) refl

  from_exit :
      (b : BasicBlockId)
      → mem b func.iter_block ≡ true
      → leaves (func.terminator b) ≡ true
      → mem b (succs_of reversed dummy_exit) ≡ true
  from_exit b h k = edge_lem dummy_exit b ∙ dummies_lem dummy_exit b ∙ rw (h, k) (ground arith)

  to_dummy_entry : mem dummy_entry (succs_of reversed dummy_exit) ≡ true
  to_dummy_entry =
      edge_lem dummy_exit dummy_entry ∙ dummies_lem dummy_exit dummy_entry ∙ ground arith

  from_real_entry : mem dummy_entry (succs_of reversed func.entry) ≡ true
  from_real_entry =
      let at_real : (g.entry == func.entry) ≡ true =
        (==_iff g.entry func.entry).1 (entry-compute func g computed) in
      edge_lem func.entry dummy_entry
      ∙ dummies_lem func.entry dummy_entry
      ∙ rw at_real (ground arith)

  reversed-entry : reversed.entry ≡ dummy_exit
  unfolding reverse_edge
  reversed-entry = refl

  exit-Reachable : Reachable reversed dummy_exit
  unfolding reverse_edge
  exit-Reachable = at_entry

  leaving-Reachable : {b : BasicBlockId} → CanLeave func b → Reachable reversed b
  leaving-Reachable (leaves_here {b} h k) = along exit-Reachable (from_exit b h k)
  leaving-Reachable (goes_on {a} {b} h k before) =
      along (leaving-Reachable before) (back_edge a b h k)

  module _
      (no_entry : (b : BasicBlockId)
        → mem b func.iter_block ≡ true
        → mem dummy_entry (targets (func.terminator b)) ≡ false)
      (no_exit : (b : BasicBlockId)
        → mem b func.iter_block ≡ true
        → mem dummy_exit (targets (func.terminator b)) ≡ false) where
    -- A block with a target from which the body can be left.
    extended :
        (a b : BasicBlockId)
        → (mem b func.iter_block ≡ true) × (mem a (targets (func.terminator b)) ≡ true)
        → (a ≡ dummy_exit) ⊎ (a ≡ dummy_entry) ⊎ CanLeave func a
        → CanLeave func b
    extended a b (h, k) (inl e) = absurd (true_ne (sym k ∙ rw e (no_exit b h)))
    extended a b (h, k) (inr (inl e)) = absurd (true_ne (sym k ∙ rw e (no_entry b h)))
    extended a b (h, k) (inr (inr left)) = goes_on h k left

    Reachable-leaving :
        {b : BasicBlockId}
        → Reachable reversed b
        → (b ≡ dummy_exit) ⊎ (b ≡ dummy_entry) ⊎ CanLeave func b
    Reachable-leaving at_entry = inl reversed-entry
    Reachable-leaving (along {a} {b} r m) = elim (edge_of a b m) [
      | inl edge ↦ inr (inr (extended a b edge (Reachable-leaving r)))
      | inr (inl e) ↦ inr (inl e)
      | inr (inr (h, k)) ↦ inr (inr (leaves_here h k))
    ]

    reversed_lem :
        (b : BasicBlockId)
        → Reachable reversed b ↔ ((b ≡ dummy_exit) ⊎ (b ≡ dummy_entry) ⊎ CanLeave func b)
    reversed_lem b = (
      Reachable-leaving,
      λ h. elim h [
        | inl e ↦ rw e exit-Reachable
        | inr (inl e) ↦ rw e (along exit-Reachable to_dummy_entry)
        | inr (inr left) ↦ leaving-Reachable left
      ],
    )

-- In the reverse graph that `PostDomTree::compute` builds from a body of distinct blocks, where
-- neither dummy block is a target of a terminator of the body, the blocks reached from the entry
-- are the dummy exit, the dummy entry and the blocks of the body from which some path ends in a
-- block whose terminator is not a branch; the entry of the body leads to the dummy entry, which is
-- the only exit.
pub reverse_cfg-CanLeave :
    (func : FunctionBody) (dummy_entry dummy_exit : BasicBlockId) (rcfg : ControlFlowGraph)
    → Distinct func.iter_block
    → ((b : BasicBlockId)
        → mem b func.iter_block ≡ true
        → mem dummy_entry (targets (func.terminator b)) ≡ false)
    → ((b : BasicBlockId)
        → mem b func.iter_block ≡ true
        → mem dummy_exit (targets (func.terminator b)) ≡ false)
    → reverse_cfg func dummy_entry dummy_exit ≡ returned rcfg
    → (rcfg.exits ≡ dummy_entry ∷ [])
      × (mem dummy_entry (succs_of rcfg func.entry) ≡ true)
      × ((b : BasicBlockId)
          → Reachable rcfg b ↔ ((b ≡ dummy_exit) ⊎ (b ≡ dummy_entry) ⊎ CanLeave func b))
unfolding reverse_cfg
reverse_cfg-CanLeave func dummy_entry dummy_exit rcfg d no_entry no_exit e =
    let (g, computed, e') =
      >>=-eq-returned (compute func)
        (λ x.
          returned
            (reverse_edge (add_dummies x dummy_entry dummy_exit) dummy_exit (dummy_entry ∷ [])))
        e in
    let same : reversed func dummy_entry dummy_exit g d computed ≡ rcfg = the_graph _ rcfg e' in
    (
      ap (λ (x : ControlFlowGraph). x.exits) (sym same) ∙ unfold reverse_edge in refl,
      rw same at (from_real_entry func dummy_entry dummy_exit g d computed),
      λ b. rw same at (reversed_lem func dummy_entry dummy_exit g d computed no_entry no_exit b),
    )
