-- ===== src/DecisionTree/Fuel.antt =====
-- The fuel one step of `build` needs, from the fuel its subtrees need.
use fe.Prelude.{
  ℕ, zero, suc, ◌+◌, ◌≤◌, ◌≡◌, ◌≢◌, refl, inl, inr, true, false, List, [], ◌∷◌, arith, map,
  Bool-cases,
}
use fe.Prelude.Outcome.{Outcome, out_of_fuel, panicked, returned, ◌>>=◌}
use fe.Types.{AnalyzerDb}
use fe.Pattern.Constructor.{ConstructorKind, ctor_eq, ctor_eq→eq, ctor_eq_refl}
use fe.Pattern.Sigma.{SigmaSet, contains, from_rows, is_complete}
use fe.DecisionTree.{Occurrence, DecisionTree, Arm}
use fe.DecisionTree.Matrix.{
  ArmMatrix, rows_of, all_wildcards, phi_specialize, d_specialize, swap, swap_arm, swap_list,
}
use fe.DecisionTree.Policy.{Policy, select_column}
use fe.DecisionTree.Policy.Ends.{select_column-ends}
use fe.DecisionTree.Build
use fe.DecisionTree.Build.{
  build_default, build_arms, build_switch, build_matrix, build_decision_tree,
}

-- From some amount of fuel on, the tree of the matrix is built, or the builder has panicked.
abbrev pub EndsAfter : AnalyzerDb → Policy → ArmMatrix → Type 0
EndsAfter db policy mat =
    (enough : ℕ) × ((fuel : ℕ) → enough ≤ fuel → Build.build db policy fuel mat ≢ out_of_fuel)

bind-ends :
    {A B : Type 0} (m : Outcome A) (f : A → Outcome B)
    → m ≢ out_of_fuel
    → ((a : A) → f a ≢ out_of_fuel)
    → (m >>= f) ≢ out_of_fuel
bind-ends out_of_fuel f hm hf e = hm refl
bind-ends panicked f hm hf e = cc
bind-ends (returned a) f hm hf e = hf a e

module _ (builder : ArmMatrix → Outcome DecisionTree) (db : AnalyzerDb) (arms : List Arm)
    (o : Occurrence) (os : List Occurrence) (sigma : SigmaSet) where
  build_arms-ends :
      (left : SigmaSet)
      → ((c : ConstructorKind)
          → contains left c ≡ true
          → builder (phi_specialize db c arms o os) ≢ out_of_fuel)
      → builder (d_specialize arms o os) ≢ out_of_fuel
      → build_arms builder db arms o os sigma left ≢ out_of_fuel
  unfolding build_arms contains
  build_arms-ends [] hp hd = elim (Bool-cases (is_complete db sigma)) [
    | inl full ↦ rw full (λ e. cc)
    | inr part ↦ rw part (bind-ends (builder (d_specialize arms o os)) _ hd (λ sub e. cc))
  ]
  build_arms-ends (c ∷ cs) hp hd =
      bind-ends (builder (phi_specialize db c arms o os)) _ (hp c (ground (arith, ctor_eq_refl c)))
        (λ sub.
          bind-ends (build_arms builder db arms o os sigma cs) _
            (build_arms-ends cs (λ d k. hp d (ground arith)) hd) (λ rest e. cc))

module _ (db : AnalyzerDb) (policy : Policy) where
  fuel_for_all :
      (arms : List Arm) (o : Occurrence) (os : List Occurrence) (s : SigmaSet)
      → ((c : ConstructorKind)
          → contains s c ≡ true
          → EndsAfter db policy (phi_specialize db c arms o os))
      → (enough : ℕ) × ((fuel : ℕ)
          → enough ≤ fuel
          → (c : ConstructorKind) → contains s c ≡ true
          → Build.build db policy fuel (phi_specialize db c arms o os) ≢ out_of_fuel)
  unfolding contains
  fuel_for_all arms o os [] h = (0, λ fuel le c k. cc)
  fuel_for_all arms o os (d ∷ ds) h =
      let (a, ha) = h d (ground (arith, ctor_eq_refl d)) in
      let (b, hb) = fuel_for_all arms o os ds (λ c k. h c (ground arith)) in
      (
        a + b,
        λ fuel le c k. elim (Bool-cases (ctor_eq d c)) [
          | inl same ↦ rw (← ctor_eq→eq d c same) (ha fuel (omega arith))
          | inr differ ↦ hb fuel (omega arith) c (ground arith)
        ],
      )

  -- A matrix of arms with a column to switch on ends if its specialized matrices do.
  pub switch-ends :
      (arms : List Arm) (os : List Occurrence)
      → ((o : Occurrence) (os' : List Occurrence) (c : ConstructorKind)
          → contains (from_rows (rows_of arms) 0) c ≡ true
          → EndsAfter db policy (phi_specialize db c arms o os'))
      → ((o : Occurrence) (os' : List Occurrence) → EndsAfter db policy (d_specialize arms o os'))
      → (enough : ℕ) × ((fuel : ℕ)
          → enough ≤ fuel
          → build_switch (Build.build db policy fuel) db arms os ≢ out_of_fuel)
  unfolding build_switch
  switch-ends arms [] hp hd = (0, λ fuel le e. cc)
  switch-ends arms (o ∷ os) hp hd =
      let sigma : SigmaSet = from_rows (rows_of arms) 0 in
      let (a, ha) = fuel_for_all arms o os sigma (hp o os) in
      let (b, hb) = hd o os in
      (
        a + b,
        λ fuel le.
            bind-ends (build_arms (Build.build db policy fuel) db arms o os sigma sigma) _
              (build_arms-ends (Build.build db policy fuel) db arms o os sigma sigma
                (ha fuel (omega arith)) (hb fuel (omega arith)))
              (λ sw e. cc),
      )

  pub EndsAfter-step :
      (mat : ArmMatrix) (enough : ℕ)
      → ((fuel : ℕ)
          → enough ≤ fuel
          → build_matrix (Build.build db policy fuel) db policy mat.arms mat.occurrences
            ≢ out_of_fuel)
      → EndsAfter db policy mat
  EndsAfter-step mat enough h = (suc enough, λ fuel le. go fuel le)
    where
      go : (fuel : ℕ) → suc enough ≤ fuel → Build.build db policy fuel mat ≢ out_of_fuel
      go zero le e = omega arith
      go (suc fuel) le e = unfold Build.build in h fuel (omega arith) e

  pub matrix-ends :
      (a : Arm) (rest : List Arm) (os : List Occurrence)
      → ((col : ℕ)
          → all_wildcards a.pat_vec ≡ false
          → (enough : ℕ) × ((fuel : ℕ)
              → enough ≤ fuel
              → build_switch
                  (Build.build db policy fuel)
                  db
                  (map (swap_arm col) (a ∷ rest))
                  (swap_list os col)
                ≢ out_of_fuel))
      → EndsAfter db policy (record { arms = a ∷ rest; occurrences = os })
  unfolding build_matrix swap
  matrix-ends a rest os h = elim (Bool-cases (all_wildcards a.pat_vec)) [
    | inl wild ↦
        EndsAfter-step (record { arms = a ∷ rest; occurrences = os }) 0
          (λ fuel le. rw wild (λ e. cc))
    | inr other ↦
        chosen (select_column db policy (record { arms = a ∷ rest; occurrences = os })) refl other
  ]
    where
      chosen :
          (col : Outcome ℕ)
          → select_column db policy (record { arms = a ∷ rest; occurrences = os }) ≡ col
          → all_wildcards a.pat_vec ≡ false
          → EndsAfter db policy (record { arms = a ∷ rest; occurrences = os })
      chosen out_of_fuel e other = absurd (select_column-ends db policy _ e)
      chosen panicked e other =
          EndsAfter-step (record { arms = a ∷ rest; occurrences = os }) 0
            (λ fuel le. rw (other, e) (λ e'. cc))
      chosen (returned col) e other =
          let (enough, ends) = h col other in
          EndsAfter-step (record { arms = a ∷ rest; occurrences = os }) enough
            (λ fuel le. rw (other, e) (ends fuel le))
