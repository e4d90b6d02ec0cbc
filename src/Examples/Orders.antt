-- ===== src/Examples/Orders.antt =====
-- Runs of the order of a function body: block 0 with the instructions 10 and 11, then block 1.
use fe.Prelude.{ℕ, ◌≡◌, refl, false, none, some, [], ◌∷◌, ◌==◌, if◌then◌else◌, arith, any}
use fe.Prelude.Outcome.{returned, ◌>>=◌}
use fe.BodyOrder.{
  BodyOrder, put, default_block, new_inst, insert_block_after_block, insert_block_before_block,
  append_block, new, insert_inst_after, insert_inst_before_inst, append_inst, prepend_inst,
}
use fe.BodyOrder.Removing.{remove_inst, remove_block}
use fe.BodyOrder.Walk.{iter_block, iter_inst, blocks_from, insts_from}
use fe.BodyOrder.Links.{first, last, next_in, prev_in, prev_from, insert_after, insert_before}
use fe.BodyOrder.Layout.{Layout, Represents, Gives, with_code, with_ids}
use fe.BodyOrder.Edits.{block_edits, inst_edits, inst_ends, insertions_undone}
use fe.BodyOrder.Iterators.{iterators_yield}
use fe.BodyOrder.Reachable.{IsLaidOut, created, edited, block_appended, Reachable-IsLaidOut}

abbrev pub two_blocks : BodyOrder
two_blocks = record {
  blocks =
      put
        (put (λ _. none) 0
          (some
            (record default_block { next = some 1; first_inst = some 10; last_inst = some 11 })))
        1 (some (record default_block { prev = some 0 }));
  insts =
      put (put (λ _. none) 10 (some (record (new_inst 0) { next = some 11 }))) 11
        (some (record (new_inst 0) { prev = some 10 }));
  entry_block = 0;
  last_block = 1;
}

abbrev pub two_blocks_layout : Layout
two_blocks_layout = record { ids = 0 ∷ 1 ∷ []; code = λ b. if b == 0 then 10 ∷ 11 ∷ [] else [] }

pub two_blocks-Represents : Represents two_blocks two_blocks_layout
unfolding first last next_in prev_in prev_from
two_blocks-Represents = record {
  entry = refl;
  end = refl;
  distinct = (refl, (refl, tt));
  blocks = λ b. ground arith;
  empty = λ b h. ground arith;
  code_distinct = λ b. ground arith;
  insts = λ b i h. ground arith;
  no_insts = λ i h. ground (arith, h 0);
}

pub twelve_is_new : (b : ℕ) → any (λ x. x == 12) (two_blocks_layout.code b) ≡ false
twelve_is_new b = ground arith

-- The iterators of the order after an insertion.
blocks_after_insertion :
    (insert_block_after_block two_blocks 2 0 >>= λ o. iter_block 3 o) ≡ returned (0 ∷ 2 ∷ 1 ∷ [])
unfolding insert_block_after_block iter_block blocks_from
blocks_after_insertion = refl

insts_after_removal : (remove_inst two_blocks 10 >>= λ o. iter_inst 2 o 0) ≡ returned (11 ∷ [])
unfolding remove_inst iter_inst insts_from
insts_after_removal = refl

block_edits_example :
    Gives
      (insert_block_after_block two_blocks 2 0)
      (with_ids two_blocks_layout (insert_after 0 2 (0 ∷ 1 ∷ [])))
    × Gives
        (insert_block_before_block two_blocks 2 0)
        (with_ids two_blocks_layout (insert_before 0 2 (0 ∷ 1 ∷ [])))
    × Gives (append_block two_blocks 2) (with_ids two_blocks_layout (0 ∷ 1 ∷ 2 ∷ []))
block_edits_example = block_edits 2 0 two_blocks-Represents refl refl

insertions_undone_example :
    ((insert_block_after_block two_blocks 2 0 >>= λ o1. remove_block 0 o1 2) ≡ returned two_blocks)
    × ((insert_inst_after two_blocks 12 10 >>= λ o1. remove_inst o1 12) ≡ returned two_blocks)
insertions_undone_example =
    insertions_undone 0 2 0 0 12 10 two_blocks-Represents refl refl refl twelve_is_new

iterators_yield_example :
    (iter_block 2 two_blocks ≡ returned (0 ∷ 1 ∷ []))
    × (iter_inst 2 two_blocks 0 ≡ returned (10 ∷ 11 ∷ []))
iterators_yield_example = iterators_yield two_blocks-Represents 2 0 refl (omega arith) (omega arith)

abbrev block_appended_to_new : BodyOrder
block_appended_to_new = record {
  blocks =
      put
        (put (put (λ _. none) 0 (some default_block)) 0
          (some (record default_block { next = some 1 })))
        1 (some (record default_block { prev = some 0 }));
  insts = λ _. none;
  entry_block = 0;
  last_block = 1;
}

append_to_new : append_block (new 0) 1 ≡ returned block_appended_to_new
unfolding append_block new
append_to_new = refl

Reachable-IsLaidOut_example : IsLaidOut block_appended_to_new
Reachable-IsLaidOut_example =
    Reachable-IsLaidOut (edited (created 0) (block_appended 1 append_to_new))

inst_edits_example :
    Gives
      (insert_inst_after two_blocks 12 10)
      (with_code two_blocks_layout 0 (insert_after 10 12 (10 ∷ 11 ∷ [])))
    × Gives
        (insert_inst_before_inst two_blocks 12 10)
        (with_code two_blocks_layout 0 (insert_before 10 12 (10 ∷ 11 ∷ [])))
inst_edits_example = inst_edits 0 12 10 two_blocks-Represents refl twelve_is_new

-- Block 1 is empty.
inst_ends_example :
    Gives (append_inst two_blocks 12 1) (with_code two_blocks_layout 1 (12 ∷ []))
    × Gives (prepend_inst two_blocks 12 1) (with_code two_blocks_layout 1 (12 ∷ []))
inst_ends_example = inst_ends 1 12 two_blocks-Represents refl twelve_is_new
