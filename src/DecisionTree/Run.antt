-- ===== src/DecisionTree/Run.antt =====
-- What a decision tree does with a value, and what the arms of a match do with it: the first arm
-- that matches is taken.
use fe.Prelude.{
  ℕ, zero, suc, ◌+◌, ◌≡◌, refl, ap, ◌∙◌, Bool, true, false, Option, none, some, List, [], ◌∷◌, ◌++◌,
  arith, if◌then◌else◌,
}
use fe.Types.{AnalyzerDb}
use fe.Pattern.Constructor.{ConstructorKind, ctor_eq, arity}
use fe.Pattern.Value.{Value, Values, build, opaque, empty, field, matches_row, count_values}
use fe.DecisionTree.{
  Occurrence, Binds, Case, ctor, default, DecisionTree, leaf, switch, SwitchArms, end, arm, Arm,
}
use fe.DecisionTree.Matrix.{children, children_from}

abbrev pub value_at : Values → ℕ → Option Value
value_at empty i = none
value_at (field v vs) zero = some v
value_at (field v vs) (suc i) = value_at vs i

abbrev pub child : ℕ → Value → Option Value
child i (build c vs) = value_at vs i
child i (opaque n) = none

abbrev pub after : Option Value → (Value → Option Value) → Option Value
after none f = none
after (some v) f = f v

-- The part of a value at an occurrence.
abbrev pub part_at : Value → Occurrence → Option Value
part_at v [] = some v
part_at v (i ∷ o) = after (child i v) (λ u. part_at u o)

abbrev pub selects : Case → Value → Bool
selects (ctor c) (build d vs) = ctor_eq c d
selects (ctor c) (opaque n) = false
selects default v = true

abbrev pub then_run {ℓ} : {A : Type ℓ} → Option Value → (Value → Option A) → Option A
then_run none f = none
then_run (some v) f = f v

-- The tree on a value: a switch goes on with the first arm whose case the part selects.
unfoldable mutual
  pub run : DecisionTree → Value → Option (ℕ × Binds)
  run (leaf i b) v = some (i, b)
  run (switch o arms) v = then_run (part_at v o) (λ u. run_arms arms u v)

  pub run_arms : SwitchArms → Value → Value → Option (ℕ × Binds)
  run_arms end u v = none
  run_arms (arm case tree rest) u v =
      let hit = run tree v in let miss = run_arms rest u v in if selects case u then hit else miss

-- The index of the arm that is reached.
abbrev pub arm_of : Option (ℕ × Binds) → Option ℕ
arm_of none = none
arm_of (some (i, b)) = some i

abbrev pub first_arm : List Arm → Values → Option ℕ
first_arm [] vs = none
first_arm (a ∷ rest) vs = if matches_row a.pat_vec vs then some a.body else first_arm rest vs

-- The values at a list of occurrences.
abbrev pub PartsAt : Value → List Occurrence → Values → Type 0
PartsAt v [] empty = Unit
PartsAt v [] (field u us) = ⊥
PartsAt v (o ∷ os) empty = ⊥
PartsAt v (o ∷ os) (field u us) = (part_at v o ≡ some u) × PartsAt v os us

part_at-snoc :
    (v : Value) (o : Occurrence) (i : ℕ) → part_at v (o ++ i ∷ []) ≡ after (part_at v o) (child i)
part_at-snoc v [] i = after_some (child i v)
  where
    after_some : (x : Option Value) → after x some ≡ x
    after_some none = refl
    after_some (some u) = refl
part_at-snoc v (j ∷ o) i = go (child j v) (λ u. part_at-snoc u o i)
  where
    go :
        (x : Option Value)
        → ((u : Value) → part_at u (o ++ i ∷ []) ≡ after (part_at u o) (child i))
        → after x (λ u. part_at u (o ++ i ∷ [])) ≡ after (after x (λ u. part_at u o)) (child i)
    go none h = refl
    go (some u) h = h u

children-PartsAt_from :
    (v : Value) (o : Occurrence) (c : ConstructorKind) (all rest : Values) (i : ℕ)
    → part_at v o ≡ some (build c all)
    → ((j : ℕ) → value_at all (i + j) ≡ value_at rest j)
    → PartsAt v (children_from o i (count_values rest)) rest
children-PartsAt_from v o c all empty i e h = tt
children-PartsAt_from v o c all (field u us) i e h = (
  part_at-snoc v o i ∙ ap (λ x. after x (child i)) e ∙ ap (value_at all) (omega arith) ∙ h 0,
  children-PartsAt_from v o c all us (suc i) e (λ j. ap (value_at all) (omega arith) ∙ h (suc j)),
)

-- The occurrences of a constructor's arguments are where its arguments are.
pub children-PartsAt :
    (db : AnalyzerDb) (v : Value) (o : Occurrence) (c d : ConstructorKind) (xs : Values)
    → part_at v o ≡ some (build d xs)
    → count_values xs ≡ arity db c
    → PartsAt v (children db c o) xs
unfolding children
children-PartsAt db v o c d xs e counted =
    rw (← counted) (children-PartsAt_from v o d xs xs 0 e (λ j. ap (value_at xs) (omega arith)))
