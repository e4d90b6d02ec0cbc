-- ===== src/DecisionTree/Terminates.antt =====
-- The fuel that `DecisionTreeBuilder::build` takes.
use fe.Prelude.{
  ℕ, zero, suc, ◌≤◌, ◌≡◌, ◌≢◌, refl, sym, ap, ◌∙◌, inl, inr, true, List, [], ◌∷◌, ◌++◌, arith, map,
  length, get_elem?, Option-cases,
}
use mathlib.Core.Path.{subst}
use fe.Prelude.Outcome.{out_of_fuel}
use fe.Types.{TypeId, AnalyzerDb}
use fe.Pattern.Constructor.{field_types}
use fe.Pattern.Syntax.{nil, cons, Row, Matrix}
use fe.Pattern.Specialize
use fe.Pattern.Specialize.{phi_row, d_row}
use fe.Pattern.Specialize.Meaning.{MatrixFits}
use fe.Pattern.Specialize.Typing.{phi_specialize-fits, d_specialize-fits}
use fe.Pattern.Specialize.Measure.{
  matrix_weight, Smaller, matrix_induction, phi_specialize-weight_lt, d_specialize-weight,
}
use fe.Pattern.Sigma.{contains-from_rows}
use fe.Pattern.Value.{FitsType, FitTypes}
use fe.DecisionTree.{Occurrence, Arm}
use fe.DecisionTree.Matrix.{
  rows_of, roots, new, new_arms, all_wildcards, phi_arms, d_arms, phi_specialize, d_specialize,
  swap_arm, swap_list, replace, children,
}
use fe.DecisionTree.Policy.{Policy}
use fe.DecisionTree.Build
use fe.DecisionTree.Build.{
  build_default, build_arms, build_switch, build_matrix, build_decision_tree,
}
use fe.DecisionTree.Swap.{swap_arms-fit}
use fe.DecisionTree.Compiled.{new_arms-fit}
use fe.DecisionTree.Weight.{length-swap, matrix_weight-swap, rows_of-d, rows_of-phi}
use fe.DecisionTree.Fuel.{EndsAfter, EndsAfter-step, matrix-ends, switch-ends}

no_columns-wildcards : (db : AnalyzerDb) (row : Row) → FitTypes db row [] → all_wildcards row ≡ true
unfolding FitsType all_wildcards
no_columns-wildcards db nil h = refl
no_columns-wildcards db (cons p ps) h = absurd h

swap_list-cons :
    (t : TypeId) (ts : List TypeId) (i : ℕ)
    → (s : TypeId) × (ss : List TypeId) × (swap_list (t ∷ ts) i ≡ s ∷ ss)
unfolding swap_list
swap_list-cons t ts zero = (t, ts, refl)
swap_list-cons t ts (suc i) = elim (Option-cases (get_elem? ts i)) [
  | inl e ↦ (t, ts, rw e refl)
  | inr (s, e) ↦ (s, replace ts i t, rw e refl)
]

Smaller-swapped :
    (m n : Matrix) (ts us : List TypeId) (m' : Matrix) (ts' : List TypeId)
    → Smaller m' ts' n us
    → matrix_weight n ≡ matrix_weight m
    → length us ≡ length ts
    → Smaller m' ts' m ts
Smaller-swapped m n ts us m' ts' (inl lt) w l = inl (omega arith)
Smaller-swapped m n ts us m' ts' (inr (le, fewer)) w l = inr (omega arith, omega arith)

module _ (db : AnalyzerDb) (policy : Policy) where
  -- Every matrix of arms with these rows ends.
  abbrev AllEnd : Matrix → List TypeId → Type 0
  AllEnd m ts =
      (arms : List Arm) (os : List Occurrence)
      → rows_of arms ≡ m
      → MatrixFits db m ts
      → EndsAfter db policy (record { arms = arms; occurrences = os })

  swapped-ends :
      (arms : List Arm) (os : List Occurrence) (s : TypeId) (ss : List TypeId)
      → MatrixFits db (rows_of arms) (s ∷ ss)
      → ((m' : Matrix) (ts' : List TypeId) → Smaller m' ts' (rows_of arms) (s ∷ ss) → AllEnd m' ts')
      → (enough : ℕ) × ((fuel : ℕ)
          → enough ≤ fuel
          → build_switch (Build.build db policy fuel) db arms os ≢ out_of_fuel)
  swapped-ends arms os s ss fits ih =
      switch-ends db policy arms os
        (λ o os' c has.
          unfold phi_specialize in
          ih (Specialize.phi_specialize db c (rows_of arms)) (field_types db c ++ ss)
            (inl (
              phi_specialize-weight_lt db c (rows_of arms) c
                (sym (contains-from_rows (rows_of arms) 0 c) ∙ has)))
            (phi_arms db c o arms) (children db c o ++ os') (rows_of-phi db c o arms)
            (phi_specialize-fits db c ss (rows_of arms) s fits))
        (λ o os'.
          unfold d_specialize in
          ih (Specialize.d_specialize (rows_of arms)) ss
            (inr (d_specialize-weight (rows_of arms), omega arith)) (d_arms o arms) os'
            (rows_of-d o arms) (d_specialize-fits db ss (rows_of arms) s fits))

  arms-end :
      (arms : List Arm) (os : List Occurrence) (ts : List TypeId)
      → MatrixFits db (rows_of arms) ts
      → ((m' : Matrix) (ts' : List TypeId) → Smaller m' ts' (rows_of arms) ts → AllEnd m' ts')
      → EndsAfter db policy (record { arms = arms; occurrences = os })
  arms-end [] os ts fits ih =
      EndsAfter-step db policy (record { arms = []; occurrences = os }) 0
        (λ fuel le. unfold build_matrix in λ e. cc)
  arms-end (a ∷ rest) os [] fits ih =
      matrix-ends db policy a rest os
        (λ col other. cc (other, no_columns-wildcards db a.pat_vec fits.0))
  arms-end (a ∷ rest) os (t ∷ ts) fits ih = matrix-ends db policy a rest os λ col other.
      let arms : List Arm = map (swap_arm col) (a ∷ rest) in
      let (s, ss, e) = swap_list-cons t ts col in
      let lighter = matrix_weight-swap (a ∷ rest) col in
      swapped-ends arms (swap_list os col) s ss
        (subst (λ x. MatrixFits db (rows_of arms) x) e
          (swap_arms-fit db (a ∷ rest) (t ∷ ts) col fits))
        (λ m' ts' small. ih m' ts' (
          Smaller-swapped (rows_of (a ∷ rest)) (rows_of arms) (t ∷ ts) (s ∷ ss) m' ts' small lighter
            (sym (ap length e) ∙ length-swap (t ∷ ts) col)))

  all-end : (m : Matrix) (ts : List TypeId) → AllEnd m ts
  all-end = matrix_induction AllEnd λ m ts ih arms os e fits.
      arms-end arms os ts (rw e fits) (λ m' ts' small. ih m' ts' (rw e at small))

-- `build_decision_tree` ends on every typed match, under every policy: from some amount of fuel on
-- it is never out of fuel.
pub build_decision_tree_terminates :
    (db : AnalyzerDb) (policy : Policy) (m : Matrix) (t : TypeId)
    → MatrixFits db m (t ∷ [])
    → (enough : ℕ) × ((fuel : ℕ)
        → enough ≤ fuel
        → build_decision_tree db policy fuel m ≢ out_of_fuel)
unfolding build_decision_tree new
build_decision_tree_terminates db policy [] t fits = all-end db policy [] (t ∷ []) [] [] refl tt
build_decision_tree_terminates db policy (row ∷ rows) t fits =
    all-end db policy (rows_of (new_arms 0 (row ∷ rows))) (t ∷ []) (new_arms 0 (row ∷ rows))
      (roots row) refl (new_arms-fit db 0 (row ∷ rows) (t ∷ []) fits)
