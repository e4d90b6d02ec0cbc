-- ===== src/DecisionTree/Swap.antt =====
-- `SimplifiedArmMatrix::swap`: the types and the values of the swapped columns.
use fe.Prelude.{
  ℕ, zero, suc, ◌≡◌, refl, ◌⊎◌, inl, inr, ◌&&◌, Option, none, some, List, [], ◌∷◌, arith, map,
  get_elem?,
}
use fe.Types.{TypeId, AnalyzerDb}
use fe.Pattern.Syntax.{Pattern, Patterns, nil, cons, Row}
use fe.Pattern.Specialize.Meaning.{MatrixFits}
use fe.Pattern.Value.{
  Value, Values, empty, field, matches, matches_row, HasType, HaveTypes, FitsType, FitTypes,
}
use fe.DecisionTree.{Occurrence, Arm}
use fe.DecisionTree.Matrix.{
  rows_of, swap_list, replace, swap_row, swap_pattern_with, replace_pattern, pattern_at, swap_arm,
}
use fe.DecisionTree.Run.{value_at, part_at, PartsAt, first_arm}

abbrev replace_value : Values → ℕ → Value → Values
replace_value empty i u = empty
replace_value (field v vs) zero u = field u vs
replace_value (field v vs) (suc i) u = field v (replace_value vs i u)

abbrev swap_value_with : Value → Values → ℕ → Option Value → Values
swap_value_with v vs i none = field v vs
swap_value_with v vs i (some u) = field u (replace_value vs i v)

pub swap_values : Values → ℕ → Values
swap_values empty i = empty
swap_values (field v vs) zero = field v vs
swap_values (field v vs) (suc i) = swap_value_with v vs i (value_at vs i)

module _ (db : AnalyzerDb) where
  abbrev Slot : Patterns → List TypeId → ℕ → Type 0
  Slot ps ts i =
      ((pattern_at ps i ≡ none) × (get_elem? ts i ≡ none))
      ⊎ ((q : Pattern) × (s : TypeId) × (pattern_at ps i ≡ some q)
          × (get_elem? ts i ≡ some s)
          × FitsType db q s
          × ((p : Pattern) (t : TypeId)
              → FitsType db p t
              → FitTypes db (replace_pattern ps i p) (replace ts i t)))

  pattern-Slot : (ps : Patterns) (ts : List TypeId) (i : ℕ) → FitTypes db ps ts → Slot ps ts i
  unfolding FitsType
  pattern-Slot nil [] i h = inl (refl, refl)
  pattern-Slot nil (t ∷ ts) i h = absurd h
  pattern-Slot (cons p ps) [] i h = absurd h
  pattern-Slot (cons p ps) (t ∷ ts) zero h = inr (p, t, refl, refl, h.0, λ q s k. (k, h.1))
  pattern-Slot (cons p ps) (t ∷ ts) (suc i) h = elim (pattern-Slot ps ts i h.1) [
    | inl e ↦ inl e
    | inr (q, s, e, e', k, r) ↦ inr (q, s, e, e', k, λ p' t' h'. (h.0, r p' t' h'))
  ]

  pub swap_row-FitTypes :
      (row : Row) (ts : List TypeId) (i : ℕ)
      → FitTypes db row ts
      → FitTypes db (swap_row row i) (swap_list ts i)
  unfolding FitsType swap_row swap_list
  swap_row-FitTypes nil [] i h = tt
  swap_row-FitTypes nil (t ∷ ts) i h = absurd h
  swap_row-FitTypes (cons p ps) [] i h = absurd h
  swap_row-FitTypes (cons p ps) (t ∷ ts) zero h = h
  swap_row-FitTypes (cons p ps) (t ∷ ts) (suc i) h = elim (pattern-Slot ps ts i h.1) [
    | inl e ↦ rw (e.0, e.1) h
    | inr (q, s, e, e', k, r) ↦ rw (e, e') ((k, r p t h.0))
  ]

  abbrev ValueSlot : Values → List TypeId → ℕ → Type 0
  ValueSlot vs ts i =
      ((value_at vs i ≡ none) × (get_elem? ts i ≡ none))
      ⊎ ((u : Value) × (s : TypeId) × (value_at vs i ≡ some u)
          × (get_elem? ts i ≡ some s)
          × HasType db u s
          × ((v : Value) (t : TypeId)
              → HasType db v t
              → HaveTypes db (replace_value vs i v) (replace ts i t)))

  value_slot : (vs : Values) (ts : List TypeId) (i : ℕ) → HaveTypes db vs ts → ValueSlot vs ts i
  unfolding HasType
  value_slot empty [] i h = inl (refl, refl)
  value_slot empty (t ∷ ts) i h = absurd h
  value_slot (field v vs) [] i h = absurd h
  value_slot (field v vs) (t ∷ ts) zero h = inr (v, t, refl, refl, h.0, λ q s k. (k, h.1))
  value_slot (field v vs) (t ∷ ts) (suc i) h = elim (value_slot vs ts i h.1) [
    | inl e ↦ inl e
    | inr (q, s, e, e', k, r) ↦ inr (q, s, e, e', k, λ p' t' h'. (h.0, r p' t' h'))
  ]

  pub swap_values-HaveTypes :
      (vs : Values) (ts : List TypeId) (i : ℕ)
      → HaveTypes db vs ts
      → HaveTypes db (swap_values vs i) (swap_list ts i)
  unfolding HasType swap_values swap_list
  swap_values-HaveTypes empty [] i h = tt
  swap_values-HaveTypes empty (t ∷ ts) i h = absurd h
  swap_values-HaveTypes (field v vs) [] i h = absurd h
  swap_values-HaveTypes (field v vs) (t ∷ ts) zero h = h
  swap_values-HaveTypes (field v vs) (t ∷ ts) (suc i) h = elim (value_slot vs ts i h.1) [
    | inl e ↦ rw (e.0, e.1) h
    | inr (q, s, e, e', k, r) ↦ rw (e, e') ((k, r v t h.0))
  ]

module _ (root : Value) where
  abbrev PartSlot : List Occurrence → Values → ℕ → Type 0
  PartSlot os vs i =
      ((get_elem? os i ≡ none) × (value_at vs i ≡ none))
      ⊎ ((o : Occurrence) × (u : Value) × (get_elem? os i ≡ some o)
          × (value_at vs i ≡ some u)
          × (part_at root o ≡ some u)
          × ((o' : Occurrence) (v : Value)
              → part_at root o' ≡ some v
              → PartsAt root (replace os i o') (replace_value vs i v)))

  part_slot : (os : List Occurrence) (vs : Values) (i : ℕ) → PartsAt root os vs → PartSlot os vs i
  part_slot [] empty i h = inl (refl, refl)
  part_slot [] (field v vs) i h = absurd h
  part_slot (o ∷ os) empty i h = absurd h
  part_slot (o ∷ os) (field v vs) zero h = inr (o, v, refl, refl, h.0, λ q s k. (k, h.1))
  part_slot (o ∷ os) (field v vs) (suc i) h = elim (part_slot os vs i h.1) [
    | inl e ↦ inl e
    | inr (q, s, e, e', k, r) ↦ inr (q, s, e, e', k, λ p' t' h'. (h.0, r p' t' h'))
  ]

  pub swap_list-PartsAt :
      (os : List Occurrence) (vs : Values) (i : ℕ)
      → PartsAt root os vs
      → PartsAt root (swap_list os i) (swap_values vs i)
  unfolding swap_values swap_list
  swap_list-PartsAt [] empty i h = tt
  swap_list-PartsAt [] (field v vs) i h = absurd h
  swap_list-PartsAt (o ∷ os) empty i h = absurd h
  swap_list-PartsAt (o ∷ os) (field v vs) zero h = h
  swap_list-PartsAt (o ∷ os) (field v vs) (suc i) h = elim (part_slot os vs i h.1) [
    | inl e ↦ rw (e.0, e.1) h
    | inr (q, s, e, e', k, r) ↦ rw (e, e') ((k, r o v h.0))
  ]

-- Putting a pattern and its value in another's place, and those in front.
matches_row-replace :
    (ps : Patterns) (vs : Values) (i : ℕ) (p q : Pattern) (v u : Value)
    → pattern_at ps i ≡ some q
    → value_at vs i ≡ some u
    → (matches q u && matches_row (replace_pattern ps i p) (replace_value vs i v))
      ≡ (matches p v && matches_row ps vs)
unfolding matches
matches_row-replace nil vs i p q v u e e' = cc
matches_row-replace (cons r ps) empty i p q v u e e' = cc
matches_row-replace (cons r ps) (field w vs) zero p q v u e e' = ground arith
matches_row-replace (cons r ps) (field w vs) (suc i) p q v u e e' =
    ground (arith, matches_row-replace ps vs i p q v u e e')

module _ (db : AnalyzerDb) where
  pub matches_row-swap :
      (row : Row) (vs : Values) (ts : List TypeId) (i : ℕ)
      → FitTypes db row ts
      → HaveTypes db vs ts
      → matches_row (swap_row row i) (swap_values vs i) ≡ matches_row row vs
  unfolding FitsType HasType swap_row swap_values matches
  matches_row-swap nil empty ts i h k = refl
  matches_row-swap nil (field v vs) [] i h k = absurd k
  matches_row-swap nil (field v vs) (t ∷ ts) i h k = absurd h
  matches_row-swap (cons p ps) vs [] i h k = absurd h
  matches_row-swap (cons p ps) empty (t ∷ ts) i h k = absurd k
  matches_row-swap (cons p ps) (field v vs) (t ∷ ts) zero h k = refl
  matches_row-swap (cons p ps) (field v vs) (t ∷ ts) (suc i) h k =
      both (pattern-Slot db ps ts i h.1) (value_slot db vs ts i k.1)
    where
      both :
          Slot db ps ts i
          → ValueSlot db vs ts i
          → matches_row
              (swap_pattern_with p ps i (pattern_at ps i))
              (swap_value_with v vs i (value_at vs i))
            ≡ (matches p v && matches_row ps vs)
      both (inl a) (inl b) = rw (a.0, b.0) refl
      both (inl a) (inr (u, s, e, e', y, r)) = cc (a.1, e')
      both (inr (q, s, e, e', y, r)) (inl b) = cc (b.1, e')
      both (inr (q, s, e, e', y, r)) (inr (u, s', f, f', y', r')) =
          rw (e, f) (matches_row-replace ps vs i p q v u e f)

  pub first_arm-swap :
      (arms : List Arm) (vs : Values) (ts : List TypeId) (i : ℕ)
      → MatrixFits db (rows_of arms) ts
      → HaveTypes db vs ts
      → first_arm (map (swap_arm i) arms) (swap_values vs i) ≡ first_arm arms vs
  first_arm-swap [] vs ts i h k = refl
  first_arm-swap (a ∷ rest) vs ts i h k =
      rw (matches_row-swap a.pat_vec vs ts i h.0 k, first_arm-swap rest vs ts i h.1 k) refl

  pub swap_arms-fit :
      (arms : List Arm) (ts : List TypeId) (i : ℕ)
      → MatrixFits db (rows_of arms) ts
      → MatrixFits db (rows_of (map (swap_arm i) arms)) (swap_list ts i)
  swap_arms-fit [] ts i h = tt
  swap_arms-fit (a ∷ rest) ts i h =
      (swap_row-FitTypes db a.pat_vec ts i h.0, swap_arms-fit rest ts i h.1)
