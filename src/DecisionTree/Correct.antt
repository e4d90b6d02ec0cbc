-- ===== src/DecisionTree/Correct.antt =====
-- The tree that `DecisionTreeBuilder::build` makes against the arms of its matrix.
use fe.Prelude.{
  ℕ, zero, suc, ◌≡◌, refl, sym, ◌∙◌, ◌⊎◌, true, some, List, [], ◌∷◌, Bool-cases, inl, inr,
}
use fe.Prelude.Outcome.{Outcome, returned, >>=-eq-returned}
use fe.Types.{TypeId, AnalyzerDb}
use fe.Pattern.Constructor.{ConstructorKind, field_types}
use fe.Pattern.Syntax.{Matrix}
use fe.Pattern.Specialize.Meaning.{MatrixFits, Avoids}
use fe.Pattern.Sigma.{SigmaSet, contains, from_rows, is_complete, column_ctors, contains-from_rows}
use fe.Pattern.Value.{Value, Values, build, opaque, empty, field, HasType, HaveTypes}
use fe.Pattern.Exhaustive.Sound.{built_by_contained}
use fe.DecisionTree.{Occurrence, DecisionTree, switch, SwitchArms, Arm}
use fe.DecisionTree.Matrix.{ArmMatrix, rows_of, all_wildcards, swap, swap_list}
use fe.DecisionTree.Policy.{Policy, select_column}
use fe.DecisionTree.Build
use fe.DecisionTree.Build.{build_default, build_arms, build_switch, build_matrix}
use fe.DecisionTree.Run.{part_at, PartsAt, run, run_arms, arm_of, first_arm}
use fe.DecisionTree.Swap.{
  swap_values, swap_values-HaveTypes, swap_list-PartsAt, first_arm-swap, swap_arms-fit,
}
use fe.DecisionTree.FirstArm.{all_wildcards-matches}
use fe.DecisionTree.Subtrees.{TakesFirst, arms_take_ctor, arms_take_default}

the_tree : (a b : DecisionTree) → ◌≡◌ {A = Outcome DecisionTree} (returned b) (returned a) → a ≡ b
the_tree a b h = cc

Avoids-column : (m : Matrix) (u : Value) → Avoids (from_rows m 0) u → Avoids (column_ctors m 0) u
Avoids-column m (opaque n) h = tt
Avoids-column m (build d xs) h = sym (contains-from_rows m 0 d) ∙ h

contained_or_Avoids :
    (db : AnalyzerDb) (t : TypeId) (s : SigmaSet) (u : Value)
    → HasType db u t
    → ((d : ConstructorKind) × (xs : Values) × (u ≡ build d xs)
        × (contains s d ≡ true)
        × HaveTypes db xs (field_types db d))
      ⊎ Avoids s u
unfolding HasType
contained_or_Avoids db t s (opaque n) h = inr tt
contained_or_Avoids db t s (build d xs) h = elim (Bool-cases (contains s d)) [
  | inl has ↦ inl (d, xs, refl, has, h.1)
  | inr absent ↦ inr absent
]

module _ (db : AnalyzerDb) (builder : ArmMatrix → Outcome DecisionTree)
    (takes : TakesFirst db builder) where
  head_takes :
      (arms : List Arm) (o : Occurrence) (os : List Occurrence) (t : TypeId) (ts : List TypeId)
      (u : Value) (vs : Values) (root : Value) (sw : SwitchArms)
      → MatrixFits db (rows_of arms) (t ∷ ts)
      → HasType db u t
      → HaveTypes db vs ts
      → PartsAt root os vs
      → part_at root o ≡ some u
      → build_arms builder db arms o os (from_rows (rows_of arms) 0) (from_rows (rows_of arms) 0)
        ≡ returned sw
      → arm_of (run_arms sw u root) ≡ first_arm arms (field u vs)
  head_takes arms o os t ts u vs root sw fits typed values parts here h =
      let sigma : SigmaSet = from_rows (rows_of arms) 0 in
      elim (Bool-cases (is_complete db sigma)) [
        | inl full ↦
            let (d, xs, e, has, hx) = built_by_contained db (rows_of arms) t ts u fits typed full in
            arms_take_ctor db builder takes arms o os t ts u vs root sigma fits values parts here
              sigma d xs sw e hx has h
        | inr part ↦ elim (contained_or_Avoids db t sigma u typed) [
          | inl (d, xs, e, has, hx) ↦
              arms_take_ctor db builder takes arms o os t ts u vs root sigma fits values parts here
                sigma d xs sw e hx has h
          | inr avoids ↦
              arms_take_default db builder takes arms o os t ts u vs root sigma fits values parts
                here sigma sw avoids (Avoids-column (rows_of arms) u avoids) part h
        ]
      ]

  switch_takes :
      (arms : List Arm) (os : List Occurrence) (ts : List TypeId) (vs : Values) (root : Value)
      (tree : DecisionTree)
      → MatrixFits db (rows_of arms) ts
      → HaveTypes db vs ts
      → PartsAt root os vs
      → build_switch builder db arms os ≡ returned tree
      → arm_of (run tree root) ≡ first_arm arms vs
  unfolding build_switch HasType
  switch_takes arms [] ts vs root tree fits values parts h = cc
  switch_takes arms (o ∷ os) ts empty root tree fits values parts h = absurd parts
  switch_takes arms (o ∷ os) [] (field u vs) root tree fits values parts h = absurd values
  switch_takes arms (o ∷ os) (t ∷ ts) (field u vs) root tree fits values parts h =
      let sigma : SigmaSet = from_rows (rows_of arms) 0 in
      let (sw, built, shape) =
        >>=-eq-returned (build_arms builder db arms o os sigma sigma) (λ a. returned (switch o a))
          h in
      rw (the_tree tree (switch o sw) shape) (
        unfold run in
        rw parts.0
          (head_takes arms o os t ts u vs root sw fits values.0 values.1 parts.1 parts.0 built))

  matrix_takes :
      (policy : Policy) (arms : List Arm) (os : List Occurrence) (ts : List TypeId) (vs : Values)
      (root : Value) (tree : DecisionTree)
      → MatrixFits db (rows_of arms) ts
      → HaveTypes db vs ts
      → PartsAt root os vs
      → build_matrix builder db policy arms os ≡ returned tree
      → arm_of (run tree root) ≡ first_arm arms vs
  unfolding build_matrix
  matrix_takes policy [] os ts vs root tree fits values parts h = cc
  matrix_takes policy (a ∷ rest) os ts vs root tree fits values parts h =
      elim (Bool-cases (all_wildcards a.pat_vec)) [
        | inl wild ↦
            rw
              (
                the_tree tree _ (rw wild at h),
                all_wildcards-matches db a.pat_vec ts vs wild fits.0 values,
              )
              (unfold run in refl)
        | inr other ↦
            let mat : ArmMatrix = record { arms = a ∷ rest; occurrences = os } in
            let (col, chosen, built) =
              >>=-eq-returned (select_column db policy mat)
                (λ c. let s = swap mat c in build_switch builder db s.arms s.occurrences)
                (rw other at h) in
            switch_takes (swap mat col).arms (swap mat col).occurrences (swap_list ts col)
              (swap_values vs col) root tree
              (unfold swap in swap_arms-fit db (a ∷ rest) ts col fits)
              (swap_values-HaveTypes db vs ts col values)
              (unfold swap in swap_list-PartsAt root os vs col parts) built
            ∙ unfold swap in first_arm-swap db (a ∷ rest) vs ts col fits values
      ]

pub build_takes :
    (db : AnalyzerDb) (policy : Policy) (fuel : ℕ) → TakesFirst db (Build.build db policy fuel)
unfolding Build.build
build_takes db policy zero mat ts vs root tree fits values parts h = cc
build_takes db policy (suc fuel) mat ts vs root tree fits values parts h =
    matrix_takes db (Build.build db policy fuel) (build_takes db policy fuel) policy mat.arms
      mat.occurrences ts vs root tree fits values parts h
