-- ===== src/BodyOrder.antt =====
-- The order of the blocks of a function body and of their instructions:
-- crates/mir/src/ir/body_order.rs. A block or an instruction is the number of its place in the
-- arena, a hash map is a function, and a failing `unwrap`, index or assertion is a panic.
pub mod Removing
pub mod Walk
pub mod Links
pub mod Neighbours
pub mod Removal
pub mod Layout
pub mod Code
pub mod Insts
pub mod InstsBefore
pub mod InstsEnds
pub mod Taken
pub mod BlockTaken
pub mod Iterators
pub mod Edits
pub mod Guards
pub mod Reachable
pub mod Blocks
pub mod Before
use fe.Prelude.{
  ℕ, zero, suc, ◌≡◌, Bool, true, false, not, Option, none, some, List, [], ◌∷◌, ◌==◌, if◌then◌else◌,
}
use fe.Prelude.Outcome.{Outcome, out_of_fuel, panicked, returned, ◌>>=◌}

abbrev pub BasicBlockId : Type 0
BasicBlockId = ℕ

abbrev pub InstId : Type 0
InstId = ℕ

pub record BlockNode : Type 0 where
  pub prev : Option BasicBlockId
  pub next : Option BasicBlockId
  pub first_inst : Option InstId
  pub last_inst : Option InstId

pub record InstNode : Type 0 where
  pub block : BasicBlockId
  pub prev : Option InstId
  pub next : Option InstId

pub record BodyOrder : Type 0 where
  pub blocks : BasicBlockId → Option BlockNode
  pub insts : InstId → Option InstNode
  pub entry_block : BasicBlockId
  pub last_block : BasicBlockId

abbrev pub default_block : BlockNode
default_block = record { prev = none; next = none; first_inst = none; last_inst = none }

abbrev pub new_inst : BasicBlockId → InstNode
new_inst block = record { block = block; prev = none; next = none }

-- `insert` and `remove` of a map.
abbrev pub put {ℓ} : {A : Type ℓ} → (ℕ → Option A) → ℕ → Option A → ℕ → Option A
put m k v j = if j == k then v else m j

unfoldable pub new : BasicBlockId → BodyOrder
new entry_block = record {
  blocks = put (λ _. none) entry_block (some default_block);
  insts = λ _. none;
  entry_block = entry_block;
  last_block = entry_block;
}

abbrev pub is_some {ℓ} : {A : Type ℓ} → Option A → Bool
is_some none = false
is_some (some a) = true

unfoldable pub is_block_inserted : BodyOrder → BasicBlockId → Bool
is_block_inserted o block = is_some (o.blocks block)

unfoldable pub is_inst_inserted : BodyOrder → InstId → Bool
is_inst_inserted o inst = is_some (o.insts inst)

-- `debug_assert!`
abbrev pub assert {ℓ} : {A : Type ℓ} → Bool → Outcome A → Outcome A
assert true rest = rest
assert false rest = panicked

-- `blocks[&block]`, `insts[&inst]`
abbrev pub expect {ℓ} : {A : Type ℓ} → Option A → Outcome A
expect none = panicked
expect (some a) = returned a

-- The queries; an index of a map panics where the key is missing.
unfoldable pub entry : BodyOrder → BasicBlockId
entry o = o.entry_block

unfoldable pub prev_block : BodyOrder → BasicBlockId → Outcome (Option BasicBlockId)
prev_block o block = do node ← expect (o.blocks block); returned node.prev

unfoldable pub next_block : BodyOrder → BasicBlockId → Outcome (Option BasicBlockId)
next_block o block = do node ← expect (o.blocks block); returned node.next

unfoldable pub first_inst : BodyOrder → BasicBlockId → Outcome (Option InstId)
first_inst o block = do node ← expect (o.blocks block); returned node.first_inst

unfoldable pub last_inst : BodyOrder → BasicBlockId → Outcome (Option InstId)
last_inst o block = do node ← expect (o.blocks block); returned node.last_inst

unfoldable pub prev_inst : BodyOrder → InstId → Outcome (Option InstId)
prev_inst o inst = do node ← expect (o.insts inst); returned node.prev

unfoldable pub next_inst : BodyOrder → InstId → Outcome (Option InstId)
next_inst o inst = do node ← expect (o.insts inst); returned node.next

unfoldable pub inst_block : BodyOrder → InstId → Outcome BasicBlockId
inst_block o inst = do node ← expect (o.insts inst); returned node.block

unfoldable pub block_mut : BodyOrder → BasicBlockId → (BlockNode → BlockNode) → Outcome BodyOrder
block_mut o block change = do
  node ← expect (o.blocks block)
  returned (record o { blocks = put o.blocks block (some (change node)) })

unfoldable pub inst_mut : BodyOrder → InstId → (InstNode → InstNode) → Outcome BodyOrder
inst_mut o inst change = do
  node ← expect (o.insts inst)
  returned (record o { insts = put o.insts inst (some (change node)) })

abbrev pub insert_block : BodyOrder → BasicBlockId → BlockNode → BodyOrder
insert_block o block node = record o { blocks = put o.blocks block (some node) }

abbrev pub insert_inst : BodyOrder → InstId → InstNode → BodyOrder
insert_inst o inst node = record o { insts = put o.insts inst (some node) }

-- `match` on a neighbour, or `if let` with its `else`.
abbrev pub on_neighbour {ℓ} : {A : Type ℓ} → Option ℕ → (ℕ → Outcome A) → Outcome A → Outcome A
on_neighbour (some k) there absent = there k
on_neighbour none there absent = absent

unfoldable pub append_block : BodyOrder → BasicBlockId → Outcome BodyOrder
unfolding is_block_inserted block_mut
append_block o block = assert (not (is_block_inserted o block)) (do
  o1 ← block_mut o o.last_block (λ node. record node { next = some block })
  returned (record (insert_block o1 block (record default_block { prev = some o.last_block })) {
    last_block = block;
  }))

unfoldable pub insert_block_before_block :
    BodyOrder → BasicBlockId → BasicBlockId → Outcome BodyOrder
unfolding is_block_inserted block_mut
insert_block_before_block o block before = assert (is_block_inserted o before) (
    assert (not (is_block_inserted o block)) (do
      before_node ← expect (o.blocks before)
      o1 ←
          on_neighbour before_node.prev
            (λ prev. block_mut o prev (λ node. record node { next = some block }))
            (returned (record o { entry_block = block }))
      o2 ← block_mut o1 before (λ node. record node { prev = some block })
      returned (
          insert_block o2 block
            (record default_block { prev = before_node.prev; next = some before }))))

unfoldable pub insert_block_after_block :
    BodyOrder → BasicBlockId → BasicBlockId → Outcome BodyOrder
unfolding is_block_inserted block_mut
insert_block_after_block o block after = assert (is_block_inserted o after) (
    assert (not (is_block_inserted o block)) (do
      after_node ← expect (o.blocks after)
      o1 ←
          on_neighbour after_node.next
            (λ next. block_mut o next (λ node. record node { prev = some block }))
            (returned (record o { last_block = block }))
      o2 ← block_mut o1 after (λ node. record node { next = some block })
      returned (
          insert_block o2 block
            (record default_block { prev = some after; next = after_node.next }))))

unfoldable pub append_inst : BodyOrder → InstId → BasicBlockId → Outcome BodyOrder
unfolding is_block_inserted is_inst_inserted block_mut inst_mut
append_inst o inst block = assert (is_block_inserted o block) (
    assert (not (is_inst_inserted o inst)) (do
      block_node ← expect (o.blocks block)
      o1 ←
          on_neighbour block_node.last_inst
            (λ last_inst. inst_mut o last_inst (λ node. record node { next = some inst }))
            (block_mut o block (λ node. record node { first_inst = some inst }))
      o2 ← block_mut o1 block (λ node. record node { last_inst = some inst })
      returned (insert_inst o2 inst (record (new_inst block) { prev = block_node.last_inst }))))

unfoldable pub prepend_inst : BodyOrder → InstId → BasicBlockId → Outcome BodyOrder
unfolding is_block_inserted is_inst_inserted block_mut inst_mut
prepend_inst o inst block = assert (is_block_inserted o block) (
    assert (not (is_inst_inserted o inst)) (do
      block_node ← expect (o.blocks block)
      o1 ←
          on_neighbour block_node.first_inst
            (λ first_inst. inst_mut o first_inst (λ node. record node { prev = some inst }))
            (block_mut o block (λ node. record node { last_inst = some inst }))
      o2 ← block_mut o1 block (λ node. record node { first_inst = some inst })
      returned (insert_inst o2 inst (record (new_inst block) { next = block_node.first_inst }))))

unfoldable pub insert_inst_before_inst : BodyOrder → InstId → InstId → Outcome BodyOrder
unfolding is_inst_inserted block_mut inst_mut
insert_inst_before_inst o inst before = assert (is_inst_inserted o before) (
    assert (not (is_inst_inserted o inst)) (do
      before_node ← expect (o.insts before)
      o1 ←
          on_neighbour before_node.prev
            (λ prev. inst_mut o prev (λ node. record node { next = some inst }))
            (block_mut o before_node.block (λ node. record node { first_inst = some inst }))
      o2 ← inst_mut o1 before (λ node. record node { prev = some inst })
      returned (
          insert_inst o2 inst
            (record (new_inst before_node.block) { prev = before_node.prev; next = some before }))))

unfoldable pub insert_inst_after : BodyOrder → InstId → InstId → Outcome BodyOrder
unfolding is_inst_inserted block_mut inst_mut
insert_inst_after o inst after = assert (is_inst_inserted o after) (
    assert (not (is_inst_inserted o inst)) (do
      after_node ← expect (o.insts after)
      o1 ←
          on_neighbour after_node.next
            (λ next. inst_mut o next (λ node. record node { prev = some inst }))
            (block_mut o after_node.block (λ node. record node { last_inst = some inst }))
      o2 ← inst_mut o1 after (λ node. record node { next = some inst })
      returned (
          insert_inst o2 inst
            (record (new_inst after_node.block) { prev = some after; next = after_node.next }))))
