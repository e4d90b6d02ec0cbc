-- ===== src/BodyOrder/BlockTaken.antt =====
-- Taking a block out, with its instructions.
use mathlib.Core.Path.{fun_ext}
use fe.Prelude.{
  ℕ, zero, suc, ◌≤◌, ◌≡◌, refl, ap, ◌∙◌, true, false, none, some, List, [], ◌∷◌, ◌==◌,
  if◌then◌else◌, arith, Option-cases, inl, inr, Bool-cases, length,
}
use fe.Prelude.Pigeonhole.{mem}
use fe.Prelude.Outcome.{returned}
use fe.BodyOrder.{BodyOrder, BasicBlockId, InstId, put}
use fe.BodyOrder.Removing.{remove_insts, remove_block, unlink_block}
use fe.BodyOrder.Links.{is, first, next_in, prev_in, prev_from, remove, mem-remove, remove-Distinct}
use fe.BodyOrder.Neighbours.{prev_some, either, next_mem, prev_in-mem}
use fe.BodyOrder.Removal.{prev-remove, next-remove, first-remove, last-remove, prev_ne-next}
use fe.BodyOrder.Layout.{
  Layout, Represents, block_node, Gives, with_code, with_ids, at_member, block_mut_lem,
}
use fe.BodyOrder.Code.{set_block}
use fe.BodyOrder.Taken.{remove_inst-Gives}

pub with_code_again :
    (l : Layout) (b : BasicBlockId) (xs ys : List InstId)
    → with_code (with_code l b xs) b ys ≡ with_code l b ys
with_code_again l b xs ys =
    ap (λ (f : BasicBlockId → List InstId). record l { code = f }) (fun_ext λ b'. ground arith)

pub with_code_same :
    (l : Layout) (b : BasicBlockId) (xs : List InstId) → l.code b ≡ xs → with_code l b xs ≡ l
with_code_same l b xs e =
    ap (λ (f : BasicBlockId → List InstId). record l { code = f }) (fun_ext λ b'. ground arith)

-- The loop ends with as many rounds as the block has instructions.
pub remove_insts-Gives :
    (fuel : ℕ) (is : List InstId) (o : BodyOrder) (l : Layout) (b : BasicBlockId)
    → Represents o l
    → l.code b ≡ is
    → length is ≤ fuel
    → Gives (remove_insts fuel (first is) o) (with_code l b [])
unfolding remove_insts first
remove_insts-Gives fuel [] o l b r e le = (o, refl, rw (with_code_same l b [] e) r)
remove_insts-Gives zero (i ∷ is) o l b r e le = absurd (omega arith)
remove_insts-Gives (suc fuel) (i ∷ is) o l b r e le =
    let present : mem i (l.code b) ≡ true = rw e (ground arith) in
    let (o1, run, r1) = remove_inst-Gives r b i present in
    let rest : remove i (l.code b) ≡ is = rw e (unfold remove in ground arith) in
    let after : next_in (l.code b) i ≡ first is = rw e (unfold next_in in ground arith) in
    let (o2, run2, r2) =
      remove_insts-Gives fuel is o1 (with_code l b is) b (rw rest at r1) (ground arith)
        (omega arith) in
    (o2, rw (r.insts b i present, run, after) run2, rw (with_code_again l b is []) at r2)

-- Two blocks at least: then one of the neighbours is there.
not_alone :
    (b : BasicBlockId) (xs : List BasicBlockId)
    → mem b xs ≡ true
    → 2 ≤ length xs
    → prev_in xs b ≡ none
    → next_in xs b ≡ none
    → ⊥
unfolding prev_in prev_from next_in first
not_alone b [] h le p n = cc
not_alone b (x ∷ []) h le p n = absurd (omega arith)
not_alone b (x ∷ y ∷ ys) h le p n = ground (arith, prev_some x b (y ∷ ys) none (some 0))

module _ {o : BodyOrder} {l : Layout} (r : Represents o l) (b : BasicBlockId)
    (present : mem b l.ids ≡ true) (bare : l.code b ≡ []) where
  dropped : BodyOrder → BodyOrder
  dropped o' = record o' { blocks = put o'.blocks b none }

  between : BasicBlockId → BasicBlockId → BodyOrder
  between p n =
      set_block (set_block o p (record (block_node l p) { next = some n })) n
        (record (block_node l n) { prev = some p })

  now_last : BasicBlockId → BodyOrder
  now_last p = record (set_block o p (record (block_node l p) { next = none })) { last_block = p }

  now_first : BasicBlockId → BodyOrder
  now_first n = record (set_block o n (record (block_node l n) { prev = none })) { entry_block = n }

  dropped-Represents :
      (o' : BodyOrder)
      → o'.insts ≡ o.insts
      → either (prev_in l.ids b) (next_in l.ids b) (some o.entry_block) ≡ some o'.entry_block
      → either (next_in l.ids b) (prev_in l.ids b) (some o.last_block) ≡ some o'.last_block
      → ((x : BasicBlockId)
          → o'.blocks x ≡ (
              if x == b
              then none
              else if is (next_in l.ids b) x
              then some (record (block_node l x) { prev = prev_in l.ids b })
              else if is (prev_in l.ids b) x
              then some (record (block_node l x) { next = next_in l.ids b })
              else o.blocks x))
      → Represents o' (with_ids l (remove b l.ids))
  dropped-Represents o' same_insts entry end found =
      let d = r.distinct in
      record {
        entry = first-remove b l.ids present ∙ rw r.entry entry;
        end = last-remove b l.ids present ∙ rw r.end end;
        distinct = remove-Distinct b l.ids d;
        blocks = λ x. ground (
          arith,
          found x,
          next-remove b x l.ids present d,
          prev-remove b x l.ids present d,
          mem-remove b x l.ids d,
          r.blocks x,
          prev_ne-next b x l.ids d,
          next_mem b x l.ids,
          prev_in-mem b x l.ids,
        );
        empty = λ x h. elim (Bool-cases (x == b)) [
          | inl same ↦ ground arith
          | inr other ↦ r.empty x (ground (arith, mem-remove b x l.ids d))
        ];
        code_distinct = r.code_distinct;
        insts = λ b' i h. rw same_insts (r.insts b' i h);
        no_insts = λ i h. rw same_insts (r.no_insts i h);
      }

  prev_member : (p : BasicBlockId) → prev_in l.ids b ≡ some p → mem p l.ids ≡ true
  prev_member p e = prev_in-mem b p l.ids (rw e (ground arith))

  next_member : (n : BasicBlockId) → next_in l.ids b ≡ some n → mem n l.ids ≡ true
  next_member n e = next_mem b n l.ids (rw e (ground arith))

  unlink_both :
      (p n : BasicBlockId)
      → prev_in l.ids b ≡ some p
      → next_in l.ids b ≡ some n
      → unlink_block o (some p) (some n) ≡ returned (between p n)
  unfolding unlink_block between
  unlink_both p n ep en =
      let other : (n == p) ≡ false = ground (arith, prev_ne-next b p l.ids r.distinct) in
      rw
        (
          block_mut_lem o p (λ node. record node { next = some n })
              (at_member r p (prev_member p ep)),
          block_mut_lem (set_block o p (record (block_node l p) { next = some n })) n
              (λ node. record node { prev = some p }) {node = block_node l n}
              (rw other (at_member r n (next_member n en))),
        )
        refl

  unlink_last :
      (p : BasicBlockId)
      → prev_in l.ids b ≡ some p
      → unlink_block o (some p) none ≡ returned (now_last p)
  unfolding unlink_block now_last
  unlink_last p ep =
      rw
        (block_mut_lem o p (λ node. record node { next = none }) (at_member r p (prev_member p ep)))
        refl

  unlink_first :
      (n : BasicBlockId)
      → next_in l.ids b ≡ some n
      → unlink_block o none (some n) ≡ returned (now_first n)
  unfolding unlink_block now_first
  unlink_first n en =
      rw
        (block_mut_lem o n (λ node. record node { prev = none }) (at_member r n (next_member n en)))
        refl

  abbrev Unlinked : Type 0
  Unlinked =
      (o1 : BodyOrder) × (unlink_block o (prev_in l.ids b) (next_in l.ids b) ≡ returned o1)
      × Represents (dropped o1) (with_ids l (remove b l.ids))

  unlinked : 2 ≤ length l.ids → Unlinked
  unfolding dropped between now_last now_first
  unlinked many = elim (Option-cases (prev_in l.ids b)) [
    | inl ep ↦ elim (Option-cases (next_in l.ids b)) [
      | inl en ↦ absurd (not_alone b l.ids present many ep en)
      | inr (n, en) ↦ (
        now_first n,
        rw (ep, en) (unlink_first n en),
        dropped-Represents (dropped (now_first n)) refl (rw (ep, en) refl) (rw en refl)
            (λ x. rw (ep, en) (ground arith)),
      )
    ]
    | inr (p, ep) ↦ elim (Option-cases (next_in l.ids b)) [
      | inl en ↦ (
        now_last p,
        rw (ep, en) (unlink_last p ep),
        dropped-Represents (dropped (now_last p)) refl (rw ep refl) (rw (en, ep) refl)
            (λ x. rw (ep, en) (ground arith)),
      )
      | inr (n, en) ↦ (
        between p n,
        rw (ep, en) (unlink_both p n ep en),
        dropped-Represents (dropped (between p n)) refl (rw ep refl) (rw en refl)
            (λ x. rw (ep, en) (ground arith)),
      )
    ]
  ]

pub remove_block-Gives :
    {o : BodyOrder} {l : Layout} (r : Represents o l) (fuel : ℕ) (b : BasicBlockId)
    → mem b l.ids ≡ true
    → 2 ≤ length l.ids
    → length (l.code b) ≤ fuel
    → Gives (remove_block fuel o b) (with_ids (with_code l b []) (remove b l.ids))
unfolding remove_block dropped
remove_block-Gives {o} {l} r fuel b present many enough =
    let (o1, run1, r1) = remove_insts-Gives fuel (l.code b) o l b r refl enough in
    let (o2, run2, r2) = unlinked r1 b present (ground arith) many in
    (
      dropped r1 b present (ground arith) o2,
      rw (at_member r b present, run1, at_member r1 b present, run2) refl,
      r2,
    )
