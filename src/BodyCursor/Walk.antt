-- ===== src/BodyCursor/Walk.antt =====
-- The places that a cursor passes from the entry of a body on.
use fe.Prelude.{ℕ, zero, suc, ◌≤◌, ◌≡◌, refl, ◌∙◌, true, List, [], ◌∷◌, ◌++◌, map, arith, length}
use fe.Prelude.Pigeonhole.{mem, Distinct}
use fe.Prelude.Outcome.{Outcome, out_of_fuel, returned, ◌>>=◌}
use fe.BodyOrder.{BodyOrder, BasicBlockId, InstId}
use fe.BodyOrder.Links.{first, next_in}
use fe.BodyOrder.Layout.{Layout, Represents, at_member}
use fe.BodyOrder.Iterators.{Follows, Follows-tail}
use fe.BodyCursor.{
  CursorLocation, inst, block_top, block_bottom, no_where, proceed, new_at_entry, map_or,
}

-- The locations of a cursor that proceeds until it is nowhere.
unfoldable pub walk : ℕ → BodyOrder → CursorLocation → Outcome (List CursorLocation)
unfolding proceed
walk fuel o no_where = returned []
walk zero o (inst i) = out_of_fuel
walk zero o (block_top b) = out_of_fuel
walk zero o (block_bottom b) = out_of_fuel
walk (suc fuel) o (inst i) = do
  c ← proceed (record { order = o; loc = inst i })
  rest ← walk fuel c.order c.loc
  returned (inst i ∷ rest)
walk (suc fuel) o (block_top b) = do
  c ← proceed (record { order = o; loc = block_top b })
  rest ← walk fuel c.order c.loc
  returned (block_top b ∷ rest)
walk (suc fuel) o (block_bottom b) = do
  c ← proceed (record { order = o; loc = block_bottom b })
  rest ← walk fuel c.order c.loc
  returned (block_bottom b ∷ rest)

-- The same locations, read off the layout.
unfoldable pub places : Layout → List BasicBlockId → List CursorLocation
places l [] = []
places l (b ∷ bs) = block_top b ∷ (map inst (l.code b) ++ block_bottom b ∷ places l bs)

module _ {o : BodyOrder} {l : Layout} (r : Represents o l) where
  abbrev Yields : CursorLocation → List CursorLocation → Type 0
  Yields loc xs = (fuel : ℕ) → length xs ≤ fuel → walk fuel o loc ≡ returned xs

  walk_insts :
      (b : BasicBlockId) (is : List InstId) (rest : List CursorLocation)
      → Distinct is
      → Follows (l.code b) is
      → Yields (block_bottom b) rest
      → Yields (map_or (first is) (block_bottom b) inst) (map inst is ++ rest)
  unfolding walk first next_in
  walk_insts b [] rest d f y fuel le = y fuel le
  walk_insts b (i ∷ is) rest d f y zero le = absurd (omega arith)
  walk_insts b (i ∷ is) rest d f y (suc fuel) le =
      let (same, member) = f i (ground arith) in
      let next : next_in (l.code b) i ≡ first is = same ∙ ground arith in
      rw
        (
          r.insts b i member,
          next,
          walk_insts b is rest d.1 (Follows-tail (l.code b) i is d f) y fuel (omega arith),
        )
        refl

  walk_block :
      (b : BasicBlockId) (rest : List CursorLocation)
      → mem b l.ids ≡ true
      → Yields (block_bottom b) rest
      → Yields (block_top b) (block_top b ∷ (map inst (l.code b) ++ rest))
  unfolding walk
  walk_block b rest present y zero le = absurd (omega arith)
  walk_block b rest present y (suc fuel) le =
      rw
        (
          at_member r b present,
          walk_insts b (l.code b) rest (r.code_distinct b) (λ x m. (refl, m)) y fuel (omega arith),
        )
        refl

  walk_bottom :
      (b : BasicBlockId) (rest : List CursorLocation)
      → mem b l.ids ≡ true
      → Yields (map_or (next_in l.ids b) no_where block_top) rest
      → Yields (block_bottom b) (block_bottom b ∷ rest)
  unfolding walk
  walk_bottom b rest present y zero le = absurd (omega arith)
  walk_bottom b rest present y (suc fuel) le = rw (at_member r b present, y fuel (omega arith)) refl

  walk_blocks :
      (bs : List BasicBlockId)
      → Distinct bs
      → Follows l.ids bs
      → Yields (map_or (first bs) no_where block_top) (places l bs)
  unfolding walk first places next_in
  walk_blocks [] d f = λ fuel le. refl
  walk_blocks (b ∷ bs) d f =
      let (same, member) = f b (ground arith) in
      let next : next_in l.ids b ≡ first bs = same ∙ ground arith in
      let later : Yields (map_or (first bs) no_where block_top) (places l bs) =
        walk_blocks bs d.1 (Follows-tail l.ids b bs d f) in
      walk_block b (block_bottom b ∷ places l bs) member
        (walk_bottom b (places l bs) member (rw next later))

  -- In a body whose order stands for a layout, a cursor at the entry that proceeds, with as much
  -- fuel as it has places to pass, passes for each block in order its top, its instructions in
  -- order and its bottom, and is nowhere then.
  pub cursor_passes :
      (fuel : ℕ)
      → length (places l l.ids) ≤ fuel
      → walk fuel o (new_at_entry o).loc ≡ returned (places l l.ids)
  unfolding new_at_entry
  cursor_passes fuel le =
      let from_first : Yields (map_or (first l.ids) no_where block_top) (places l l.ids) =
        walk_blocks l.ids r.distinct (λ x m. (refl, m)) in
      rw r.entry at from_first fuel le
