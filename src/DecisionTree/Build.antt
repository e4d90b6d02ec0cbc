-- ===== src/DecisionTree/Build.antt =====
-- `build_decision_tree` and `DecisionTreeBuilder::build` of decision_tree.rs.
use fe.Prelude.{ℕ, zero, suc, List, [], ◌∷◌, if◌then◌else◌}
use fe.Prelude.Outcome.{Outcome, out_of_fuel, panicked, returned, ◌>>=◌}
use fe.Types.{AnalyzerDb}
use fe.Pattern.Syntax.{Matrix}
use fe.Pattern.Sigma.{SigmaSet, from_rows, is_complete}
use fe.DecisionTree.{
  Occurrence, ctor, default, DecisionTree, leaf, switch, SwitchArms, end, arm, Arm, finalize_binds,
}
use fe.DecisionTree.Matrix.{
  ArmMatrix, rows_of, new, all_wildcards, phi_specialize, d_specialize, swap,
}
use fe.DecisionTree.Policy.{Policy, select_column}

-- The arm for the rest of the values, if the constructors are not all there are.
unfoldable pub build_default :
    (ArmMatrix → Outcome DecisionTree)
    → AnalyzerDb
    → List Arm
    → Occurrence
    → List Occurrence
    → SigmaSet
    → Outcome SwitchArms
build_default build db arms o os sigma =
    if is_complete db sigma
    then returned end
    else do subtree ← build (d_specialize arms o os); returned (arm default subtree end)

-- The loop over the constructors of the column, and then the default arm.
unfoldable pub build_arms :
    (ArmMatrix → Outcome DecisionTree)
    → AnalyzerDb
    → List Arm
    → Occurrence
    → List Occurrence
    → (all left : SigmaSet) → Outcome SwitchArms
unfolding build_default
build_arms build db arms o os sigma [] = build_default build db arms o os sigma
build_arms build db arms o os sigma (c ∷ cs) = do
  subtree ← build (phi_specialize db c arms o os)
  rest ← build_arms build db arms o os sigma cs
  returned (arm (ctor c) subtree rest)

unfoldable pub build_switch :
    (ArmMatrix → Outcome DecisionTree)
    → AnalyzerDb
    → List Arm
    → List Occurrence
    → Outcome DecisionTree
unfolding build_arms
build_switch build db arms [] = panicked
build_switch build db arms (o ∷ os) =
    let sigma = from_rows (rows_of arms) 0 in
    do switch_arms ← build_arms build db arms o os sigma sigma; returned (switch o switch_arms)

unfoldable pub build_matrix :
    (ArmMatrix → Outcome DecisionTree)
    → AnalyzerDb
    → Policy
    → List Arm
    → List Occurrence
    → Outcome DecisionTree
unfolding build_switch
build_matrix build db policy [] os = panicked
build_matrix build db policy (a ∷ rest) os =
    let mat : ArmMatrix = record { arms = a ∷ rest; occurrences = os } in
    if all_wildcards a.pat_vec
    then returned (leaf a.body (finalize_binds a.binds a.pat_vec os))
    else do
      col ← select_column db policy mat
      let swapped = swap mat col
      build_switch build db swapped.arms swapped.occurrences

unfoldable pub build : AnalyzerDb → Policy → ℕ → ArmMatrix → Outcome DecisionTree
build db policy zero mat = out_of_fuel
build db policy (suc fuel) mat =
    build_matrix (build db policy fuel) db policy mat.arms mat.occurrences

-- `build_decision_tree`
unfoldable pub build_decision_tree : AnalyzerDb → Policy → ℕ → Matrix → Outcome DecisionTree
unfolding build new
build_decision_tree db policy fuel m = build db policy fuel (new m)
