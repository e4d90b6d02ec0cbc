-- ===== src/DecisionTree/Subtrees.antt =====
-- One switch of the tree: each case against the arms it was specialized from.
use fe.Prelude.{
  ◌≡◌, refl, sym, ap, ◌∙◌, true, false, some, List, [], ◌∷◌, ◌++◌, arith, Bool-cases, inl, inr,
  ||_false_split,
}
use fe.Prelude.Outcome.{Outcome, returned, ◌>>=◌, >>=-eq-returned}
use fe.Types.{TypeId, AnalyzerDb}
use fe.Pattern.Constructor.{ConstructorKind, ctor_eq, ctor_eq→eq, field_types, length-field_types}
use fe.Pattern.Specialize.Meaning.{MatrixFits, Avoids, count-HaveTypes}
use fe.Pattern.Sigma.{SigmaSet, contains, is_complete, column_ctors}
use fe.Pattern.Value.{Value, Values, build, opaque, empty, field, append_values, HaveTypes}
use fe.Pattern.Exhaustive.Sound.{append-HaveTypes}
use fe.DecisionTree.{Occurrence, ctor, default, DecisionTree, SwitchArms, end, arm, Arm}
use fe.DecisionTree.Matrix.{ArmMatrix, rows_of, children, phi_specialize, d_specialize}
use fe.DecisionTree.Build.{build_arms}
use fe.DecisionTree.Run.{
  part_at, PartsAt, selects, run, run_arms, arm_of, first_arm, children-PartsAt,
}
use fe.DecisionTree.FirstArm.{d_arms-fit, first_arm-d, first_arm-phi, phi_arms-fit}

-- What the builder is used for, on smaller matrices.
abbrev pub TakesFirst : AnalyzerDb → (ArmMatrix → Outcome DecisionTree) → Type 0
TakesFirst db builder =
    (mat : ArmMatrix) (ts : List TypeId) (vs : Values) (root : Value) (tree : DecisionTree)
    → MatrixFits db (rows_of mat.arms) ts
    → HaveTypes db vs ts
    → PartsAt root mat.occurrences vs
    → builder mat ≡ returned tree
    → arm_of (run tree root) ≡ first_arm mat.arms vs

append-PartsAt :
    (root : Value) (os os' : List Occurrence) (xs ys : Values)
    → PartsAt root os xs
    → PartsAt root os' ys
    → PartsAt root (os ++ os') (append_values xs ys)
append-PartsAt root [] os' empty ys h k = k
append-PartsAt root [] os' (field v vs) ys h k = absurd h
append-PartsAt root (o ∷ os) os' empty ys h k = absurd h
append-PartsAt root (o ∷ os) os' (field v vs) ys h k = (h.0, append-PartsAt root os os' vs ys h.1 k)

the_arms : (a b : SwitchArms) → ◌≡◌ {A = Outcome SwitchArms} (returned b) (returned a) → a ≡ b
the_arms a b h = cc

Avoids-cons :
    (c : ConstructorKind) (cs : SigmaSet) (u : Value)
    → Avoids (c ∷ cs) u
    → (selects (ctor c) u ≡ false) × Avoids cs u
Avoids-cons c cs (opaque n) h = (refl, tt)
Avoids-cons c cs (build d xs) h = unfold contains in ||_false_split (ctor_eq c d) (contains cs d) h

-- A step of the loop over the constructors that ends has built both of its parts.
build_arms-cons :
    (builder : ArmMatrix → Outcome DecisionTree) (db : AnalyzerDb) (arms : List Arm)
    (o : Occurrence) (os : List Occurrence) (sigma : SigmaSet) (c : ConstructorKind) (cs : SigmaSet)
    (sw : SwitchArms)
    → build_arms builder db arms o os sigma (c ∷ cs) ≡ returned sw
    → (sub : DecisionTree) × (rest : SwitchArms) × (builder (phi_specialize db c arms o os)
        ≡ returned sub)
      × (build_arms builder db arms o os sigma cs ≡ returned rest)
      × (sw ≡ arm (ctor c) sub rest)
unfolding build_arms
build_arms-cons builder db arms o os sigma c cs sw h =
    let (sub, built, h') =
      >>=-eq-returned (builder (phi_specialize db c arms o os))
        (λ subtree.
          build_arms builder db arms o os sigma cs >>= λ rest. returned (arm (ctor c) subtree rest))
        h in
    let (rest, built', e) =
      >>=-eq-returned (build_arms builder db arms o os sigma cs)
        (λ rest. returned (arm (ctor c) sub rest)) h' in
    (sub, rest, built, built', cc)

module _ (db : AnalyzerDb) (builder : ArmMatrix → Outcome DecisionTree)
    (takes : TakesFirst db builder) (arms : List Arm) (o : Occurrence) (os : List Occurrence)
    (t : TypeId) (ts : List TypeId) (u : Value) (vs : Values) (root : Value) (sigma : SigmaSet)
    (fits : MatrixFits db (rows_of arms) (t ∷ ts)) (values : HaveTypes db vs ts)
    (parts : PartsAt root os vs) (here : part_at root o ≡ some u) where
  subtree_takes :
      (c : ConstructorKind) (xs : Values) (sub : DecisionTree)
      → u ≡ build c xs
      → HaveTypes db xs (field_types db c)
      → builder (phi_specialize db c arms o os) ≡ returned sub
      → arm_of (run sub root) ≡ first_arm arms (field u vs)
  unfolding phi_specialize
  subtree_takes c xs sub e hx built =
      let counted = count-HaveTypes db xs (field_types db c) hx in
      takes (phi_specialize db c arms o os) (field_types db c ++ ts) (append_values xs vs) root sub
        (phi_arms-fit db t ts o vs c arms fits)
        (append-HaveTypes db xs vs (field_types db c) ts hx values)
        (append-PartsAt root (children db c o) os xs vs
          (children-PartsAt db root o c c xs (here ∙ ap some e) (counted ∙ length-field_types db c))
          parts)
        built
      ∙ first_arm-phi db t ts o vs c xs arms (sym counted) fits
      ∙ ap (λ x. first_arm arms (field x vs)) (sym e)

  pub arms_take_ctor :
      (left : SigmaSet) (d : ConstructorKind) (xs : Values) (sw : SwitchArms)
      → u ≡ build d xs
      → HaveTypes db xs (field_types db d)
      → contains left d ≡ true
      → build_arms builder db arms o os sigma left ≡ returned sw
      → arm_of (run_arms sw u root) ≡ first_arm arms (field u vs)
  unfolding contains run
  arms_take_ctor [] d xs sw e hx has h = cc
  arms_take_ctor (c ∷ cs) d xs sw e hx has h =
      let (sub, rest, built, built', shape) =
        build_arms-cons builder db arms o os sigma c cs sw h in
      elim (Bool-cases (ctor_eq c d)) [
        | inl same ↦
            let eq = ctor_eq→eq c d same in
            rw (shape, e, same)
              (subtree_takes c xs sub (e ∙ ap (λ k. build k xs) (sym eq)) (rw eq hx) built
                ∙ ap (λ x. first_arm arms (field x vs)) e)
        | inr differ ↦
            rw (shape, e, differ)
              (ap (λ x. arm_of (run_arms rest x root)) (sym e)
                ∙ arms_take_ctor cs d xs rest e hx (ground arith) built'
                ∙ ap (λ x. first_arm arms (field x vs)) e)
      ]

  pub arms_take_default :
      (left : SigmaSet) (sw : SwitchArms)
      → Avoids left u
      → Avoids (column_ctors (rows_of arms) 0) u
      → is_complete db sigma ≡ false
      → build_arms builder db arms o os sigma left ≡ returned sw
      → arm_of (run_arms sw u root) ≡ first_arm arms (field u vs)
  unfolding build_arms run
  arms_take_default [] sw avoids Avoids-column part h =
      let (sub, built, shape) =
        >>=-eq-returned (builder (d_specialize arms o os))
          (λ subtree. returned (arm default subtree end)) (rw part at h) in
      rw (the_arms sw (arm default sub end) shape) (
        unfold d_specialize in
        takes (d_specialize arms o os) ts vs root sub (d_arms-fit db t ts o vs arms fits) values
          parts built
        ∙ first_arm-d db t ts o vs u arms Avoids-column fits)
  arms_take_default (c ∷ cs) sw avoids Avoids-column part h =
      let (sub, rest, built, built', shape) =
        build_arms-cons builder db arms o os sigma c cs sw h in
      let (miss, avoids') = Avoids-cons c cs u avoids in
      rw (shape, miss) (arms_take_default cs rest avoids' Avoids-column part built')
