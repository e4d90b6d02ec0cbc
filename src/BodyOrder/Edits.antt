-- ===== src/BodyOrder/Edits.antt =====
-- The edits of a body order against its layout, and that taking out what was put in undoes it.
use mathlib.Core.Path.{fun_ext}
use fe.Prelude.{
  ℕ, ◌≤◌, ◌≡◌, ◌⊎◌, refl, sym, ap, ◌∙◌, true, false, List, [], ◌∷◌, ◌++◌, ◌==◌, arith, inl, inr,
  Bool-cases, length,
}
use fe.Prelude.Pigeonhole.{mem}
use fe.Prelude.Outcome.{returned, ◌>>=◌}
use fe.BodyOrder.{
  BodyOrder, BasicBlockId, InstId, new, append_block, insert_block_before_block,
  insert_block_after_block, append_inst, prepend_inst, insert_inst_before_inst, insert_inst_after,
}
use fe.BodyOrder.Removing.{remove_inst, remove_block}
use fe.BodyOrder.Links.{
  first, last, next_in, prev_in, prev_from, insert_after, insert_before, remove, mem-insert_after,
}
use fe.BodyOrder.Layout.{Layout, Represents, Gives, with_code, with_ids}
use fe.BodyOrder.Blocks.{insert_block_after_block-Gives}
use fe.BodyOrder.Before.{insert_block_before_block-Gives, append_block-Gives}
use fe.BodyOrder.Insts.{insert_inst_after-Gives}
use fe.BodyOrder.InstsBefore.{insert_inst_before_inst-Gives}
use fe.BodyOrder.InstsEnds.{append_inst-Gives, prepend_inst-Gives}
use fe.BodyOrder.Taken.{remove_inst-Gives}
use fe.BodyOrder.BlockTaken.{remove_block-Gives, with_code_again, with_code_same}

pub new-Represents :
    (b : BasicBlockId) → Represents (new b) (record { ids = b ∷ []; code = λ _. [] })
unfolding new first last next_in prev_in prev_from
new-Represents b = record {
  entry = refl;
  end = refl;
  distinct = (refl, tt);
  blocks = λ x. ground arith;
  empty = λ x h. refl;
  code_distinct = λ x. tt;
  insts = λ x i h. absurd (cc);
  no_insts = λ i h. refl;
}

-- On an order that stands for a layout, inserting a new block after or before a block of the
-- layout, or at the end, returns, and the result stands for the layout with the block inserted in
-- its list of blocks there.
pub block_edits :
    {o : BodyOrder} {l : Layout} (block at : BasicBlockId)
    → Represents o l
    → mem at l.ids ≡ true
    → mem block l.ids ≡ false
    → Gives (insert_block_after_block o block at) (with_ids l (insert_after at block l.ids))
      × Gives (insert_block_before_block o block at) (with_ids l (insert_before at block l.ids))
      × Gives (append_block o block) (with_ids l (l.ids ++ block ∷ []))
block_edits block at r present absent = (
  insert_block_after_block-Gives r block at present absent,
  insert_block_before_block-Gives r block at present absent,
  append_block-Gives r block absent,
)

-- On an order that stands for a layout, inserting a new instruction after or before an instruction
-- of a block returns, and the result stands for the layout with the instruction inserted in the
-- list of the block there.
pub inst_edits :
    {o : BodyOrder} {l : Layout} (b : BasicBlockId) (inst at : InstId)
    → Represents o l
    → mem at (l.code b) ≡ true
    → ((b' : BasicBlockId) → mem inst (l.code b') ≡ false)
    → Gives (insert_inst_after o inst at) (with_code l b (insert_after at inst (l.code b)))
      × Gives (insert_inst_before_inst o inst at) (with_code l b (insert_before at inst (l.code b)))
inst_edits b inst at r present absent = (
  insert_inst_after-Gives r b inst at present absent,
  insert_inst_before_inst-Gives r b inst at present absent,
)

-- On an order that stands for a layout, inserting a new instruction at the end or the beginning of
-- a block of the layout, which may be empty, returns, and the result stands for the layout with
-- the instruction at that end of the list of the block.
pub inst_ends :
    {o : BodyOrder} {l : Layout} (b : BasicBlockId) (inst : InstId)
    → Represents o l
    → mem b l.ids ≡ true
    → ((b' : BasicBlockId) → mem inst (l.code b') ≡ false)
    → Gives (append_inst o inst b) (with_code l b (l.code b ++ inst ∷ []))
      × Gives (prepend_inst o inst b) (with_code l b (inst ∷ l.code b))
inst_ends b inst r inside absent =
    (append_inst-Gives r b inst inside absent, prepend_inst-Gives r b inst inside absent)

-- The block that holds an instruction, if one does.
pub holder :
    (l : Layout) (i : InstId) (xs : List BasicBlockId)
    → ((b : BasicBlockId) × (mem i (l.code b) ≡ true))
      ⊎ ((b : BasicBlockId) → mem b xs ≡ true → mem i (l.code b) ≡ false)
holder l i [] = inr (λ b h. absurd (cc))
holder l i (x ∷ xs) = elim (Bool-cases (mem i (l.code x))) [
  | inl here ↦ inl (x, here)
  | inr missing ↦ elim (holder l i xs) [
    | inl found ↦ inl found
    | inr none_left ↦ inr (λ b h. elim (Bool-cases (x == b)) [
      | inl same ↦ ground arith
      | inr other ↦ none_left b (ground arith)
    ])
  ]
]

-- Two orders that stand for one layout are the same.
module _ {o o' : BodyOrder} {l : Layout} (r : Represents o l) (r' : Represents o' l) where
  same_inst : (i : InstId) → o.insts i ≡ o'.insts i
  same_inst i = elim (holder l i l.ids) [
    | inl (b, h) ↦ r.insts b i h ∙ sym (r'.insts b i h)
    | inr nowhere ↦
        let absent : (b : BasicBlockId) → mem i (l.code b) ≡ false = λ b.
          elim (Bool-cases (mem b l.ids)) [
            | inl inside ↦ nowhere b inside
            | inr outside ↦ rw (r.empty b outside) refl
          ] in
        r.no_insts i absent ∙ sym (r'.no_insts i absent)
  ]

  same_entry : o.entry_block ≡ o'.entry_block
  same_entry = ground (arith, r.entry, r'.entry)

  same_last : o.last_block ≡ o'.last_block
  same_last = ground (arith, r.end, r'.end)

  pub Represents-unique : o ≡ o'
  Represents-unique = λ k. record {
    blocks = fun_ext (λ b. r.blocks b ∙ sym (r'.blocks b)) k;
    insts = fun_ext same_inst k;
    entry_block = same_entry k;
    last_block = same_last k;
  }

remove-insert_after :
    (a b : ℕ) (xs : List ℕ)
    → mem b xs ≡ false
    → mem a xs ≡ true
    → remove b (insert_after a b xs) ≡ xs
unfolding remove insert_after
remove-insert_after a b [] h k = absurd (cc)
remove-insert_after a b (y ∷ ys) h k = ground (arith, remove-insert_after a b ys)

inst_undone :
    {o : BodyOrder} {l : Layout} (b : BasicBlockId) (inst at : InstId)
    → Represents o l
    → mem at (l.code b) ≡ true
    → ((b' : BasicBlockId) → mem inst (l.code b') ≡ false)
    → (insert_inst_after o inst at >>= λ o1. remove_inst o1 inst) ≡ returned o
inst_undone {o} {l} b inst at r present absent =
    let (o1, run1, r1) = insert_inst_after-Gives r b inst at present absent in
    let (o2, run2, r2) =
      remove_inst-Gives r1 b inst
        (ground (arith, mem-insert_after at inst inst (l.code b) present)) in
    let ins : List InstId = insert_after at inst (l.code b) in
    let held : (with_code l b ins).code b ≡ ins = ground arith in
    let undone : with_code (with_code l b ins) b (remove inst ((with_code l b ins).code b)) ≡ l =
      ap (λ (t : List InstId). with_code (with_code l b ins) b (remove inst t)) held
      ∙ ap (with_code (with_code l b ins) b)
          (remove-insert_after at inst (l.code b) (absent b) present)
      ∙ with_code_again l b ins (l.code b)
      ∙ with_code_same l b (l.code b) refl in
    rw (run1, run2) (ap returned (Represents-unique (rw undone at r2) r))

two_of_insert : (a b : ℕ) (xs : List ℕ) → mem a xs ≡ true → 2 ≤ length (insert_after a b xs)
unfolding insert_after
two_of_insert a b [] h = absurd (cc)
two_of_insert a b (y ∷ ys) h = ground (arith, two_of_insert a b ys)

block_undone :
    {o : BodyOrder} {l : Layout} (fuel : ℕ) (block at : BasicBlockId)
    → Represents o l
    → mem at l.ids ≡ true
    → mem block l.ids ≡ false
    → (insert_block_after_block o block at >>= λ o1. remove_block fuel o1 block) ≡ returned o
block_undone {o} {l} fuel block at r present absent =
    let (o1, run1, r1) = insert_block_after_block-Gives r block at present absent in
    let (o2, run2, r2) =
      remove_block-Gives r1 fuel block
        (ground (arith, mem-insert_after at block block l.ids present))
        (two_of_insert at block l.ids present) (rw (r.empty block absent) (omega arith)) in
    let ids : List BasicBlockId = insert_after at block l.ids in
    let undone : with_ids (with_code (with_ids l ids) block []) (remove block ids) ≡ l =
      ap (λ (t : Layout). with_ids t (remove block ids))
        (with_code_same (with_ids l ids) block [] (r.empty block absent))
      ∙ ap (with_ids l) (remove-insert_after at block l.ids absent present) in
    rw (run1, run2) (ap returned (Represents-unique (rw undone at r2) r))

-- On an order that stands for a layout, removing the block or the instruction that has just been
-- inserted after another gives back the same order.
pub insertions_undone :
    {o : BodyOrder} {l : Layout} (fuel : ℕ) (block at_block b : BasicBlockId)
    (inst at_inst : InstId)
    → Represents o l
    → mem at_block l.ids ≡ true
    → mem block l.ids ≡ false
    → mem at_inst (l.code b) ≡ true
    → ((b' : BasicBlockId) → mem inst (l.code b') ≡ false)
    → ((insert_block_after_block o block at_block >>= λ o1. remove_block fuel o1 block)
        ≡ returned o)
      × ((insert_inst_after o inst at_inst >>= λ o1. remove_inst o1 inst) ≡ returned o)
insertions_undone fuel block at_block b inst at_inst r present absent held fresh =
    (block_undone fuel block at_block r present absent, inst_undone b inst at_inst r held fresh)
