-- ===== src/Examples/Cursors.antt =====
-- Runs of a cursor in the body of block 0 with the instructions 10 and 11, then block 1.
use fe.Prelude.{◌≡◌, refl, [], ◌∷◌, arith}
use fe.Prelude.Outcome.{returned, panicked, ◌>>=◌}
use fe.BodyOrder.{insert_inst_after}
use fe.BodyOrder.Links.{insert_after, remove, next_in, first}
use fe.BodyOrder.Layout.{with_code, with_ids}
use fe.BodyCursor.{
  inst, block_top, block_bottom, no_where, proceed, back, new_at_entry, insert_inst, insert_block,
  remove_inst, remove_block,
}
use fe.BodyCursor.Walk.{walk, places, cursor_passes}
use fe.BodyCursor.Steps.{at, UndoneBy, steps_undone}
use fe.BodyCursor.Edits.{
  CursorGives, insert_inst-CursorGives, insert_block-CursorGives, inst_removals, block_removals,
}
use fe.BodyOrder.Removing.{
  remove_inst as remove_from_order, remove_block as remove_block_from_order,
}
use fe.BodyOrder.Layout.{Gives}
use fe.Examples.Orders.{two_blocks, two_blocks_layout, two_blocks-Represents, twelve_is_new}

-- Nothing is inserted where the cursor is nowhere.
insert_nowhere : insert_inst (at two_blocks no_where) 12 ≡ panicked
unfolding insert_inst
insert_nowhere = refl

inserted_at_cursor :
    (insert_inst (at two_blocks (inst 11)) 12 >>= proceed)
    ≡ (insert_inst (at two_blocks (inst 11)) 12 >>= λ c. returned (at c.order (inst 12)))
unfolding insert_inst proceed insert_inst_after
inserted_at_cursor = refl

cursor_passes_example :
    walk 6 two_blocks (new_at_entry two_blocks).loc
    ≡ returned
        (block_top 0 ∷ inst 10 ∷ inst 11 ∷ block_bottom 0 ∷ block_top 1 ∷ block_bottom 1 ∷ [])
unfolding places
cursor_passes_example = cursor_passes two_blocks-Represents 6 (omega arith)

steps_undone_example :
    UndoneBy proceed back two_blocks (inst 11) × UndoneBy back proceed two_blocks (inst 11)
steps_undone_example = steps_undone two_blocks-Represents (inst 11) (0, refl)

-- Block 1 is empty.
insert_inst-CursorGives_example :
    CursorGives
      (insert_inst (at two_blocks (block_bottom 1)) 12)
      (block_bottom 1)
      (with_code two_blocks_layout 1 (12 ∷ []))
insert_inst-CursorGives_example =
    insert_inst-CursorGives two_blocks-Represents 1 12 (block_bottom 1) refl refl twelve_is_new

insert_block-CursorGives_example :
    CursorGives
      (insert_block (at two_blocks (block_top 1)) 2)
      (block_top 1)
      (with_ids two_blocks_layout (insert_after 1 2 (0 ∷ 1 ∷ [])))
insert_block-CursorGives_example =
    insert_block-CursorGives two_blocks-Represents 1 2 (block_top 1) refl refl refl

inst_removals_example :
    Gives
      (remove_from_order two_blocks 10)
      (with_code two_blocks_layout 0 (remove 10 (10 ∷ 11 ∷ [])))
    × CursorGives
        (remove_inst (at two_blocks (inst 10)))
        (inst 11)
        (with_code two_blocks_layout 0 (remove 10 (10 ∷ 11 ∷ [])))
unfolding next_in first
inst_removals_example = inst_removals two_blocks-Represents 0 10 refl

block_removals_example :
    Gives
      (remove_block_from_order 0 two_blocks 1)
      (with_ids (with_code two_blocks_layout 1 []) (remove 1 (0 ∷ 1 ∷ [])))
    × CursorGives
        (remove_block 0 (at two_blocks (block_top 1)))
        no_where
        (with_ids (with_code two_blocks_layout 1 []) (remove 1 (0 ∷ 1 ∷ [])))
unfolding next_in first
block_removals_example =
    block_removals two_blocks-Represents 0 1 (block_top 1) refl refl (omega arith) (omega arith)
