-- ===== src/BodyOrder/Guards.antt =====
-- The panics of the edits of an order: where an assertion fails, or the only block is to go.
use fe.Prelude.{ℕ, ◌≡◌, ◌⊎◌, refl, true, false, none, inl, inr, Bool-cases}
use fe.Prelude.Pigeonhole.{mem}
use fe.Prelude.Outcome.{panicked}
use fe.BodyOrder.{
  BodyOrder, BasicBlockId, InstId, append_block, insert_block_before_block,
  insert_block_after_block, append_inst, prepend_inst, insert_inst_before_inst, insert_inst_after,
}
use fe.BodyOrder.Removing.{remove_inst, remove_block}
use fe.BodyOrder.Layout.{Layout, Represents, at_member, at_stranger}
use fe.BodyOrder.Edits.{holder}

module _ {o : BodyOrder} {l : Layout} (r : Represents o l) where
  -- An instruction is in some block, or in none and in no map.
  pub inst-cases :
      (i : InstId)
      → ((b : BasicBlockId) × (mem i (l.code b) ≡ true))
        ⊎ (((b : BasicBlockId) → mem i (l.code b) ≡ false) × (o.insts i ≡ none))
  inst-cases i = elim (holder l i l.ids) [
    | inl found ↦ inl found
    | inr nowhere ↦
        let absent : (b : BasicBlockId) → mem i (l.code b) ≡ false = λ b.
          elim (Bool-cases (mem b l.ids)) [
            | inl inside ↦ nowhere b inside
            | inr outside ↦ rw (r.empty b outside) refl
          ] in
        inr (absent, r.no_insts i absent)
  ]

  module _ (block : BasicBlockId) where
    module _ (there : mem block l.ids ≡ true) where
      pub append_block_again : append_block o block ≡ panicked
      unfolding append_block
      append_block_again = rw (at_member r block there) refl

      pub before_again :
          (at : BasicBlockId)
          → mem at l.ids ≡ true
          → insert_block_before_block o block at ≡ panicked
      unfolding insert_block_before_block
      before_again at h = rw (at_member r at h, at_member r block there) refl

      pub after_again :
          (at : BasicBlockId) → mem at l.ids ≡ true → insert_block_after_block o block at ≡ panicked
      unfolding insert_block_after_block
      after_again at h = rw (at_member r at h, at_member r block there) refl

    module _ (at : BasicBlockId) (gone : mem at l.ids ≡ false) where
      pub before_stranger : insert_block_before_block o block at ≡ panicked
      unfolding insert_block_before_block
      before_stranger = rw (at_stranger r at gone) refl

      pub after_stranger : insert_block_after_block o block at ≡ panicked
      unfolding insert_block_after_block
      after_stranger = rw (at_stranger r at gone) refl

      pub remove_block_stranger : (fuel : ℕ) → remove_block fuel o at ≡ panicked
      unfolding remove_block
      remove_block_stranger fuel = rw (at_stranger r at gone) refl

  module _ (i : InstId) where
    module _ (b : BasicBlockId) (there : mem i (l.code b) ≡ true) where
      pub append_inst_again :
          (block : BasicBlockId) → mem block l.ids ≡ true → append_inst o i block ≡ panicked
      unfolding append_inst
      append_inst_again block h = rw (at_member r block h, r.insts b i there) refl

      pub prepend_inst_again :
          (block : BasicBlockId) → mem block l.ids ≡ true → prepend_inst o i block ≡ panicked
      unfolding prepend_inst
      prepend_inst_again block h = rw (at_member r block h, r.insts b i there) refl

      pub inst_before_again :
          (at : InstId) (b' : BasicBlockId)
          → mem at (l.code b') ≡ true
          → insert_inst_before_inst o i at ≡ panicked
      unfolding insert_inst_before_inst
      inst_before_again at b' h = rw (r.insts b' at h, r.insts b i there) refl

      pub inst_after_again :
          (at : InstId) (b' : BasicBlockId)
          → mem at (l.code b') ≡ true
          → insert_inst_after o i at ≡ panicked
      unfolding insert_inst_after
      inst_after_again at b' h = rw (r.insts b' at h, r.insts b i there) refl

    pub append_inst_stranger :
        (block : BasicBlockId) → mem block l.ids ≡ false → append_inst o i block ≡ panicked
    unfolding append_inst
    append_inst_stranger block h = rw (at_stranger r block h) refl

    pub prepend_inst_stranger :
        (block : BasicBlockId) → mem block l.ids ≡ false → prepend_inst o i block ≡ panicked
    unfolding prepend_inst
    prepend_inst_stranger block h = rw (at_stranger r block h) refl

    module _ (at : InstId) (gone : o.insts at ≡ none) where
      pub inst_before_stranger : insert_inst_before_inst o i at ≡ panicked
      unfolding insert_inst_before_inst
      inst_before_stranger = rw gone refl

      pub inst_after_stranger : insert_inst_after o i at ≡ panicked
      unfolding insert_inst_after
      inst_after_stranger = rw gone refl

      pub remove_inst_stranger : remove_inst o at ≡ panicked
      unfolding remove_inst
      remove_inst_stranger = rw gone refl
