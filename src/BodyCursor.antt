-- ===== src/BodyCursor.antt =====
-- A cursor into a function body: crates/mir/src/ir/body_cursor.rs, over the order of the body. The
-- store of the body, which holds what the instructions are, is left out.
pub mod Walk
pub mod Steps
pub mod Edits
use fe.Prelude.{ℕ, zero, suc, Bool, Option, none, some, List}
use fe.Prelude.Outcome.{Outcome, out_of_fuel, panicked, returned, ◌>>=◌}
use fe.BodyOrder.{
  BodyOrder, BasicBlockId, InstId, entry, next_inst, prev_inst, first_inst, last_inst, inst_block,
  next_block as next_in_order, prev_block as prev_in_order, insert_inst_after, prepend_inst,
  append_inst, insert_block_after_block,
}
use fe.BodyOrder.Removing.{
  remove_inst as remove_from_order, remove_block as remove_block_from_order,
}

pub data CursorLocation : Type 0 where
  inst : InstId → CursorLocation
  block_top : BasicBlockId → CursorLocation
  block_bottom : BasicBlockId → CursorLocation
  no_where : CursorLocation

pub record BodyCursor : Type 0 where
  pub order : BodyOrder
  pub loc : CursorLocation

unfoldable pub new : BodyOrder → CursorLocation → BodyCursor
new order loc = record { order = order; loc = loc }

unfoldable pub new_at_entry : BodyOrder → BodyCursor
unfolding entry
new_at_entry order = record { order = order; loc = block_top (entry order) }

abbrev pub set_loc : BodyCursor → CursorLocation → BodyCursor
set_loc c loc = record c { loc = loc }

-- `map_or_else` and `map_or` on a neighbour.
abbrev pub map_or : Option ℕ → CursorLocation → (ℕ → CursorLocation) → CursorLocation
map_or none absent there = absent
map_or (some k) absent there = there k

unfoldable pub next_of : BodyOrder → CursorLocation → Outcome CursorLocation
unfolding next_inst first_inst next_in_order inst_block
next_of o (inst i) = do
  next ← next_inst o i
  block ← inst_block o i
  returned (map_or next (block_bottom block) inst)
next_of o (block_top block) = do
  first ← first_inst o block
  returned (map_or first (block_bottom block) inst)
next_of o (block_bottom block) = do
  next ← next_in_order o block
  returned (map_or next no_where block_top)
next_of o no_where = returned no_where

unfoldable pub next_loc : BodyCursor → Outcome CursorLocation
unfolding next_of
next_loc c = next_of c.order c.loc

unfoldable pub prev_of : BodyOrder → CursorLocation → Outcome CursorLocation
unfolding prev_inst last_inst prev_in_order inst_block
prev_of o (inst i) = do
  prev ← prev_inst o i
  block ← inst_block o i
  returned (map_or prev (block_top block) inst)
prev_of o (block_top block) = do
  prev ← prev_in_order o block
  returned (map_or prev no_where block_bottom)
prev_of o (block_bottom block) = do
  last ← last_inst o block
  returned (map_or last (block_top block) inst)
prev_of o no_where = returned no_where

unfoldable pub prev_loc : BodyCursor → Outcome CursorLocation
unfolding prev_of
prev_loc c = prev_of c.order c.loc

unfoldable pub proceed : BodyCursor → Outcome BodyCursor
unfolding next_loc
proceed c = do loc ← next_loc c; returned (set_loc c loc)

unfoldable pub back : BodyCursor → Outcome BodyCursor
unfolding prev_loc
back c = do loc ← prev_loc c; returned (set_loc c loc)

unfoldable pub set_to_entry : BodyCursor → BodyCursor
unfolding entry
set_to_entry c = set_loc c (block_top (entry c.order))

unfoldable pub block_of : BodyOrder → CursorLocation → Outcome BasicBlockId
unfolding inst_block
block_of o (inst i) = inst_block o i
block_of o (block_top block) = returned block
block_of o (block_bottom block) = returned block
block_of o no_where = panicked

unfoldable pub expect_block : BodyCursor → Outcome BasicBlockId
unfolding block_of
expect_block c = block_of c.order c.loc

unfoldable pub inst_of : CursorLocation → Outcome InstId
inst_of (inst i) = returned i
inst_of (block_top block) = panicked
inst_of (block_bottom block) = panicked
inst_of no_where = panicked

unfoldable pub expect_inst : BodyCursor → Outcome InstId
unfolding inst_of
expect_inst c = inst_of c.loc

unfoldable pub next_block : BodyCursor → Outcome (Option BasicBlockId)
unfolding expect_block next_in_order
next_block c = do block ← expect_block c; next_in_order c.order block

unfoldable pub prev_block : BodyCursor → Outcome (Option BasicBlockId)
unfolding expect_block prev_in_order
prev_block c = do block ← expect_block c; prev_in_order c.order block

unfoldable pub insert_at : BodyOrder → CursorLocation → InstId → Outcome BodyOrder
insert_at o (inst at) i = insert_inst_after o i at
insert_at o (block_top block) i = prepend_inst o i block
insert_at o (block_bottom block) i = append_inst o i block
insert_at o no_where i = panicked

unfoldable pub insert_inst : BodyCursor → InstId → Outcome BodyCursor
unfolding insert_at
insert_inst c i = do o ← insert_at c.order c.loc i; returned (record c { order = o })

unfoldable pub remove_inst : BodyCursor → Outcome BodyCursor
unfolding expect_inst next_loc
remove_inst c = do
  i ← expect_inst c
  loc ← next_loc c
  o ← remove_from_order c.order i
  returned (record { order = o; loc = loc })

-- The loop of `remove_block`: as long as the cursor points to an instruction, it is removed.
unfoldable pub remove_insts : ℕ → BodyOrder → CursorLocation → Outcome BodyCursor
unfolding remove_inst
remove_insts zero o (inst i) = out_of_fuel
remove_insts (suc fuel) o (inst i) = do
  c ← remove_inst (record { order = o; loc = inst i })
  remove_insts fuel c.order c.loc
remove_insts fuel o (block_top block) = returned (record { order = o; loc = block_top block })
remove_insts fuel o (block_bottom block) = returned (record { order = o; loc = block_bottom block })
remove_insts fuel o no_where = returned (record { order = o; loc = no_where })

unfoldable pub remove_from : ℕ → BodyCursor → Option InstId → Outcome BodyCursor
unfolding remove_insts
remove_from fuel c (some first_inst) = remove_insts fuel c.order (inst first_inst)
remove_from fuel c none = returned c

unfoldable pub remove_block : ℕ → BodyCursor → Outcome BodyCursor
unfolding expect_block next_in_order first_inst
remove_block fuel c = do
  block ← expect_block c
  next_block ← next_in_order c.order block
  first ← first_inst c.order block
  c1 ← remove_from fuel c first
  o ← remove_block_from_order fuel c1.order block
  returned (record { order = o; loc = map_or next_block no_where block_top })

unfoldable pub insert_block : BodyCursor → BasicBlockId → Outcome BodyCursor
unfolding expect_block insert_block_after_block
insert_block c block = do
  current ← expect_block c
  o ← insert_block_after_block c.order block current
  returned (record c { order = o })
