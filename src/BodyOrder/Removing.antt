-- ===== src/BodyOrder/Removing.antt =====
-- `remove_inst` and `remove_block` of crates/mir/src/ir/body_order.rs.
use fe.Prelude.{ℕ, zero, suc, Option, none, some}
use fe.Prelude.Outcome.{Outcome, out_of_fuel, panicked, returned, ◌>>=◌}
use fe.BodyOrder.{
  BasicBlockId, InstId, BodyOrder, put, is_block_inserted, is_inst_inserted, assert, expect,
  block_mut, inst_mut,
}

unfoldable pub unlink_inst :
    BodyOrder → BasicBlockId → Option InstId → Option InstId → Outcome BodyOrder
unfolding block_mut inst_mut
unlink_inst o inst_block (some prev) (some next) = do
  o1 ← inst_mut o prev (λ node. record node { next = some next })
  inst_mut o1 next (λ node. record node { prev = some prev })
unlink_inst o inst_block (some prev) none = do
  o1 ← inst_mut o prev (λ node. record node { next = none })
  block_mut o1 inst_block (λ node. record node { last_inst = some prev })
unlink_inst o inst_block none (some next) = do
  o1 ← inst_mut o next (λ node. record node { prev = none })
  block_mut o1 inst_block (λ node. record node { first_inst = some next })
unlink_inst o inst_block none none =
    block_mut o inst_block (λ node. record node { first_inst = none; last_inst = none })

unfoldable pub remove_inst : BodyOrder → InstId → Outcome BodyOrder
unfolding is_inst_inserted unlink_inst
remove_inst o inst = assert (is_inst_inserted o inst) (do
  inst_node ← expect (o.insts inst)
  o1 ← unlink_inst o inst_node.block inst_node.prev inst_node.next
  returned (record o1 { insts = put o1.insts inst none }))

-- The `while let` loop of `remove_block`.
unfoldable pub remove_insts : ℕ → Option InstId → BodyOrder → Outcome BodyOrder
remove_insts fuel none o = returned o
remove_insts zero (some inst) o = out_of_fuel
remove_insts (suc fuel) (some inst) o = do
  inst_node ← expect (o.insts inst)
  o1 ← remove_inst o inst
  remove_insts fuel inst_node.next o1

unfoldable pub unlink_block :
    BodyOrder → Option BasicBlockId → Option BasicBlockId → Outcome BodyOrder
unfolding block_mut
unlink_block o (some prev) (some next) = do
  o1 ← block_mut o prev (λ node. record node { next = some next })
  block_mut o1 next (λ node. record node { prev = some prev })
unlink_block o (some prev) none = do
  o1 ← block_mut o prev (λ node. record node { next = none })
  returned (record o1 { last_block = prev })
unlink_block o none (some next) = do
  o1 ← block_mut o next (λ node. record node { prev = none })
  returned (record o1 { entry_block = next })
unlink_block o none none = panicked

-- The assertion that there are several blocks is not written out: the only block has no
-- neighbours, so that `unreachable!` panics for it.
unfoldable pub remove_block : ℕ → BodyOrder → BasicBlockId → Outcome BodyOrder
unfolding is_block_inserted unlink_block
remove_block fuel o block = assert (is_block_inserted o block) (do
  first_node ← expect (o.blocks block)
  o1 ← remove_insts fuel first_node.first_inst o
  block_node ← expect (o1.blocks block)
  o2 ← unlink_block o1 block_node.prev block_node.next
  returned (record o2 { blocks = put o2.blocks block none }))
