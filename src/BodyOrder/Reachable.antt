-- ===== src/BodyOrder/Reachable.antt =====
-- The orders that edits make of a new one.
use fe.Prelude.{
  ℕ, zero, suc, ◌≤◌, ◌≡◌, ◌⊎◌, refl, true, none, List, [], ◌∷◌, arith, inl, inr, Bool-cases, length,
}
use fe.Prelude.Pigeonhole.{mem}
use fe.Prelude.Outcome.{Outcome, returned, panicked, ◌>>=◌, >>=-eq-returned}
use fe.BodyOrder.{
  BodyOrder, BasicBlockId, InstId, new, append_block, insert_block_before_block,
  insert_block_after_block, append_inst, prepend_inst, insert_inst_before_inst, insert_inst_after,
  expect, put,
}
use fe.BodyOrder.Removing.{remove_inst, remove_block, remove_insts, unlink_block}
use fe.BodyOrder.Links.{first, next_in, prev_in, prev_from, remove}
use fe.BodyOrder.Layout.{Layout, Represents, Gives, with_code, at_member}
use fe.BodyOrder.Blocks.{insert_block_after_block-Gives}
use fe.BodyOrder.Before.{insert_block_before_block-Gives, append_block-Gives}
use fe.BodyOrder.Insts.{insert_inst_after-Gives}
use fe.BodyOrder.InstsBefore.{insert_inst_before_inst-Gives}
use fe.BodyOrder.InstsEnds.{append_inst-Gives, prepend_inst-Gives}
use fe.BodyOrder.Taken.{remove_inst-Gives}
use fe.BodyOrder.BlockTaken.{remove_insts-Gives, remove_block-Gives}
use fe.BodyOrder.Edits.{new-Represents}
use fe.BodyOrder.Guards.{
  inst-cases, append_block_again, before_again, after_again, before_stranger, after_stranger,
  remove_block_stranger, append_inst_again, prepend_inst_again, inst_before_again, inst_after_again,
  append_inst_stranger, prepend_inst_stranger, inst_before_stranger, inst_after_stranger,
  remove_inst_stranger,
}

-- An edit that returned.
pub data Step (o o' : BodyOrder) : Type 0 where
  block_appended : (block : BasicBlockId) → append_block o block ≡ returned o' → Step o o'
  block_before :
      (block at : BasicBlockId) → insert_block_before_block o block at ≡ returned o' → Step o o'
  block_after :
      (block at : BasicBlockId) → insert_block_after_block o block at ≡ returned o' → Step o o'
  block_removed :
      (fuel : ℕ) (block : BasicBlockId) → remove_block fuel o block ≡ returned o' → Step o o'
  inst_appended :
      (i : InstId) (block : BasicBlockId) → append_inst o i block ≡ returned o' → Step o o'
  inst_prepended :
      (i : InstId) (block : BasicBlockId) → prepend_inst o i block ≡ returned o' → Step o o'
  inst_before : (i at : InstId) → insert_inst_before_inst o i at ≡ returned o' → Step o o'
  inst_after : (i at : InstId) → insert_inst_after o i at ≡ returned o' → Step o o'
  inst_removed : (i : InstId) → remove_inst o i ≡ returned o' → Step o o'

pub data Reachable : BodyOrder → Type 0 where
  created : (block : BasicBlockId) → Reachable (new block)
  edited : {o o' : BodyOrder} → Reachable o → Step o o' → Reachable o'

abbrev pub IsLaidOut : BodyOrder → Type 0
IsLaidOut o = (l : Layout) × Represents o l

laid_out :
    {o' : BodyOrder} {l : Layout} (run : Outcome BodyOrder)
    → Gives run l
    → run ≡ returned o'
    → IsLaidOut o'
laid_out {o'} {l} run (o1, e, r1) h = let same : o1 ≡ o' = cc in (l, rw same at r1)

no_panic :
    {A : Type 0} {o' : BodyOrder} (run : Outcome BodyOrder) → run ≡ panicked → run ≡ returned o' → A
no_panic run e h = absurd (cc)

-- A loop that returned had fuel for every instruction.
enough_of_return :
    (fuel : ℕ) (is : List InstId) (o o' : BodyOrder) (l : Layout) (b : BasicBlockId)
    → Represents o l
    → l.code b ≡ is
    → remove_insts fuel (first is) o ≡ returned o'
    → length is ≤ fuel
unfolding remove_insts first
enough_of_return fuel [] o o' l b r e h = omega arith
enough_of_return zero (i ∷ is) o o' l b r e h = absurd (cc)
enough_of_return (suc fuel) (i ∷ is) o o' l b r e h =
    let present : mem i (l.code b) ≡ true = rw e (ground arith) in
    let (o1, run, r1) = remove_inst-Gives r b i present in
    let rest : remove i (l.code b) ≡ is = rw e (unfold remove in ground arith) in
    let after : next_in (l.code b) i ≡ first is = rw e (unfold next_in in ground arith) in
    let go : length is ≤ fuel =
      enough_of_return fuel is o1 o' (with_code l b is) b (rw rest at r1) (ground arith)
        (rw (r.insts b i present, run, after) at h) in
    omega arith

only : (b : ℕ) (xs : List ℕ) → mem b xs ≡ true → (2 ≤ length xs) ⊎ (xs ≡ b ∷ [])
only b [] h = absurd (cc)
only b (x ∷ []) h = inr (ground arith)
only b (x ∷ y ∷ ys) h = inl (omega arith)

module _ {o o' : BodyOrder} {l : Layout} (r : Represents o l) where
  -- The only block has no neighbours.
  alone_panics :
      {fuel : ℕ} (o1 : BodyOrder) (b : BasicBlockId)
      → l.ids ≡ b ∷ []
      → length (l.code b) ≤ fuel
      → remove_insts fuel (first (l.code b)) o ≡ returned o1
      → (expect (o1.blocks b) >>= λ node. unlink_block o1 node.prev node.next >>= λ o2.
          returned (record o2 { blocks = put o2.blocks b none }))
        ≡ returned o'
      → IsLaidOut o'
  unfolding unlink_block
  alone_panics {fuel} o1 b one enough run h =
      let (o2, run2, r2) = remove_insts-Gives fuel (l.code b) o l b r refl enough in
      let same : o2 ≡ o1 = cc in
      let r1 : Represents o1 (with_code l b []) = rw same at r2 in
      let prev : prev_in l.ids b ≡ none = rw one (unfold prev_in prev_from in ground arith) in
      let next : next_in l.ids b ≡ none = rw one (unfold next_in first in ground arith) in
      no_panic panicked refl (rw (at_member r1 b (rw one (ground arith)), prev, next) at h)

  remove_block_keeps :
      (fuel : ℕ) (b : BasicBlockId)
      → mem b l.ids ≡ true
      → remove_block fuel o b ≡ returned o'
      → IsLaidOut o'
  unfolding remove_block
  remove_block_keeps fuel b present h =
      let opened : (remove_insts fuel (first (l.code b)) o >>= λ o1.
      expect (o1.blocks b) >>= λ node. unlink_block o1 node.prev node.next >>= λ o2.
      returned (record o2 { blocks = put o2.blocks b none }))
          ≡ returned o' =
        rw (at_member r b present) at h in
      let (o1, run1, later) = >>=-eq-returned (remove_insts fuel (first (l.code b)) o) _ opened in
      let enough : length (l.code b) ≤ fuel =
        enough_of_return fuel (l.code b) o o1 l b r refl run1 in
      elim (only b l.ids present) [
        | inl many ↦
            laid_out (remove_block fuel o b) (remove_block-Gives r fuel b present many enough) h
        | inr one ↦ alone_panics o1 b one enough run1 later
      ]

  Step-IsLaidOut : Step o o' → IsLaidOut o'
  Step-IsLaidOut (block_appended block h) = elim (Bool-cases (mem block l.ids)) [
    | inl there ↦ no_panic (append_block o block) (append_block_again r block there) h
    | inr absent ↦ laid_out (append_block o block) (append_block-Gives r block absent) h
  ]
  Step-IsLaidOut (block_before block at h) = elim (Bool-cases (mem at l.ids)) [
    | inr gone ↦ no_panic (insert_block_before_block o block at) (before_stranger r block at gone) h
    | inl there ↦ elim (Bool-cases (mem block l.ids)) [
      | inl again ↦
          no_panic (insert_block_before_block o block at) (before_again r block again at there) h
      | inr absent ↦
          laid_out (insert_block_before_block o block at)
            (insert_block_before_block-Gives r block at there absent) h
    ]
  ]
  Step-IsLaidOut (block_after block at h) = elim (Bool-cases (mem at l.ids)) [
    | inr gone ↦ no_panic (insert_block_after_block o block at) (after_stranger r block at gone) h
    | inl there ↦ elim (Bool-cases (mem block l.ids)) [
      | inl again ↦
          no_panic (insert_block_after_block o block at) (after_again r block again at there) h
      | inr absent ↦
          laid_out (insert_block_after_block o block at)
            (insert_block_after_block-Gives r block at there absent) h
    ]
  ]
  Step-IsLaidOut (block_removed fuel block h) = elim (Bool-cases (mem block l.ids)) [
    | inl there ↦ remove_block_keeps fuel block there h
    | inr gone ↦
        no_panic (remove_block fuel o block) (remove_block_stranger r block block gone fuel) h
  ]
  Step-IsLaidOut (inst_appended i block h) = elim (Bool-cases (mem block l.ids)) [
    | inr gone ↦ no_panic (append_inst o i block) (append_inst_stranger r i block gone) h
    | inl there ↦ elim (inst-cases r i) [
      | inl (b, again) ↦
          no_panic (append_inst o i block) (append_inst_again r i b again block there) h
      | inr (absent, e) ↦
          laid_out (append_inst o i block) (append_inst-Gives r block i there absent) h
    ]
  ]
  Step-IsLaidOut (inst_prepended i block h) = elim (Bool-cases (mem block l.ids)) [
    | inr gone ↦ no_panic (prepend_inst o i block) (prepend_inst_stranger r i block gone) h
    | inl there ↦ elim (inst-cases r i) [
      | inl (b, again) ↦
          no_panic (prepend_inst o i block) (prepend_inst_again r i b again block there) h
      | inr (absent, e) ↦
          laid_out (prepend_inst o i block) (prepend_inst-Gives r block i there absent) h
    ]
  ]
  Step-IsLaidOut (inst_before i at h) = elim (inst-cases r at) [
    | inr (nowhere, e) ↦ no_panic (insert_inst_before_inst o i at) (inst_before_stranger r i at e) h
    | inl (b, there) ↦ elim (inst-cases r i) [
      | inl (b', again) ↦
          no_panic (insert_inst_before_inst o i at) (inst_before_again r i b' again at b there) h
      | inr (absent, e) ↦
          laid_out (insert_inst_before_inst o i at)
            (insert_inst_before_inst-Gives r b i at there absent) h
    ]
  ]
  Step-IsLaidOut (inst_after i at h) = elim (inst-cases r at) [
    | inr (nowhere, e) ↦ no_panic (insert_inst_after o i at) (inst_after_stranger r i at e) h
    | inl (b, there) ↦ elim (inst-cases r i) [
      | inl (b', again) ↦
          no_panic (insert_inst_after o i at) (inst_after_again r i b' again at b there) h
      | inr (absent, e) ↦
          laid_out (insert_inst_after o i at) (insert_inst_after-Gives r b i at there absent) h
    ]
  ]
  Step-IsLaidOut (inst_removed i h) = elim (inst-cases r i) [
    | inl (b, there) ↦ laid_out (remove_inst o i) (remove_inst-Gives r b i there) h
    | inr (nowhere, e) ↦ no_panic (remove_inst o i) (remove_inst_stranger r i i e) h
  ]

-- Every order that comes from `new` by edits that return, with any arguments and any fuel, stands
-- for a layout.
pub Reachable-IsLaidOut : {o : BodyOrder} → Reachable o → IsLaidOut o
Reachable-IsLaidOut (created block) =
    (record { ids = block ∷ []; code = λ _. [] }, new-Represents block)
Reachable-IsLaidOut (edited before step) =
    let (l, r) = Reachable-IsLaidOut before in Step-IsLaidOut r step
