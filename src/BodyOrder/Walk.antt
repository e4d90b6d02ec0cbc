-- ===== src/BodyOrder/Walk.antt =====
-- The iterators of crates/mir/src/ir/body_order.rs, run to their end.
use fe.Prelude.{ℕ, zero, suc, Option, none, some, List, [], ◌∷◌}
use fe.Prelude.Outcome.{Outcome, out_of_fuel, returned, ◌>>=◌}
use fe.BodyOrder.{BasicBlockId, InstId, BodyOrder, expect}

-- What the iterators yield from a place on.
unfoldable pub blocks_from : ℕ → BodyOrder → Option BasicBlockId → Outcome (List BasicBlockId)
blocks_from fuel o none = returned []
blocks_from zero o (some block) = out_of_fuel
blocks_from (suc fuel) o (some block) = do
  node ← expect (o.blocks block)
  rest ← blocks_from fuel o node.next
  returned (block ∷ rest)

unfoldable pub iter_block : ℕ → BodyOrder → Outcome (List BasicBlockId)
iter_block fuel o = blocks_from fuel o (some o.entry_block)

unfoldable pub insts_from : ℕ → BodyOrder → Option InstId → Outcome (List InstId)
insts_from fuel o none = returned []
insts_from zero o (some inst) = out_of_fuel
insts_from (suc fuel) o (some inst) = do
  node ← expect (o.insts inst)
  rest ← insts_from fuel o node.next
  returned (inst ∷ rest)

unfoldable pub iter_inst : ℕ → BodyOrder → BasicBlockId → Outcome (List InstId)
iter_inst fuel o block = do node ← expect (o.blocks block); insts_from fuel o node.first_inst
