-- ===== src/DecisionTree/Compiled.antt =====
-- `build_decision_tree` against the meaning of a match: arms are tried from the first to the last.
use fe.Prelude.{
  ℕ, suc, ◌≡◌, refl, ◌∙◌, true, Option, none, some, List, [], ◌∷◌, arith, Bool-cases, inl, inr,
  if◌then◌else◌,
}
use fe.Prelude.Outcome.{returned}
use fe.Types.{TypeId, AnalyzerDb}
use fe.Pattern.Syntax.{nil, cons, Row, Matrix}
use fe.Pattern.Specialize.Meaning.{MatrixFits}
use fe.Pattern.Value.{Value, Values, empty, field, matches_row, covered, HasType, FitsType}
use fe.Pattern.Exhaustive.{find_non_exhaustiveness}
use fe.Pattern.Exhaustive.Sound.{find_sound}
use fe.DecisionTree.{DecisionTree}
use fe.DecisionTree.Matrix.{rows_of, new, new_arms, roots}
use fe.DecisionTree.Policy.{Policy}
use fe.DecisionTree.Build.{build_decision_tree}
use fe.DecisionTree.Run.{run, arm_of, first_arm, PartsAt}
use fe.DecisionTree.Generalize.{matches_row-generalize, generalize_fields-FitTypes}
use fe.DecisionTree.Correct.{build_takes}

-- The place of the first row that matches, counted from `i`.
abbrev pub first_row : ℕ → Matrix → Values → Option ℕ
first_row i [] vs = none
first_row i (row ∷ rows) vs = if matches_row row vs then some i else first_row (suc i) rows vs

first_arm-new : (i : ℕ) (m : Matrix) (vs : Values) → first_arm (new_arms i m) vs ≡ first_row i m vs
unfolding new_arms
first_arm-new i [] vs = refl
first_arm-new i (row ∷ rows) vs =
    rw (matches_row-generalize row vs, first_arm-new (suc i) rows vs) refl

pub new_arms-fit :
    (db : AnalyzerDb) (i : ℕ) (m : Matrix) (ts : List TypeId)
    → MatrixFits db m ts
    → MatrixFits db (rows_of (new_arms i m)) ts
unfolding new_arms
new_arms-fit db i [] ts h = tt
new_arms-fit db i (row ∷ rows) ts h =
    (generalize_fields-FitTypes db row ts h.0, new_arms-fit db (suc i) rows ts h.1)

root-PartsAt :
    (db : AnalyzerDb) (row : Row) (t : TypeId) (v : Value)
    → MatrixFits db (row ∷ []) (t ∷ [])
    → PartsAt v (roots row) (field v empty)
unfolding FitsType
root-PartsAt db nil t v h = absurd h.0
root-PartsAt db (cons p nil) t v h = (refl, tt)
root-PartsAt db (cons p (cons q qs)) t v h = absurd h.0.1

-- The tree that `build_decision_tree` returns for a typed match takes each value of the
-- scrutinee's type to the first arm whose pattern matches it, under every column policy.
pub build_decision_tree_correct :
    (db : AnalyzerDb) (policy : Policy) (fuel : ℕ) (m : Matrix) (t : TypeId) (v : Value)
    (tree : DecisionTree)
    → MatrixFits db m (t ∷ [])
    → HasType db v t
    → build_decision_tree db policy fuel m ≡ returned tree
    → arm_of (run tree v) ≡ first_row 0 m (field v empty)
unfolding build_decision_tree
build_decision_tree_correct db policy fuel [] t v tree fits typed h =
    build_takes db policy fuel (new []) [] empty v tree tt (unfold HasType in tt) tt h
build_decision_tree_correct db policy fuel (row ∷ rows) t v tree fits typed h =
    build_takes db policy fuel (new (row ∷ rows)) (t ∷ []) (field v empty) v tree
      (new_arms-fit db 0 (row ∷ rows) (t ∷ []) fits) (unfold HasType in (typed, tt))
      (root-PartsAt db row t v (fits.0, tt)) h
    ∙ first_arm-new 0 (row ∷ rows) (field v empty)

first_row_of_covered :
    (i : ℕ) (m : Matrix) (vs : Values) → covered m vs ≡ true → (j : ℕ) × (first_row i m vs ≡ some j)
first_row_of_covered i [] vs h = cc
first_row_of_covered i (row ∷ rows) vs h = elim (Bool-cases (matches_row row vs)) [
  | inl hit ↦ (i, rw hit refl)
  | inr miss ↦ let (j, e) = first_row_of_covered (suc i) rows vs (ground arith) in (j, rw miss e)
]

-- If `find_non_exhaustiveness` finds nothing for a typed match, the tree built for it takes every
-- value of the scrutinee's type to an arm, the first that matches.
pub accepted_match_takes_arm :
    (db : AnalyzerDb) (policy : Policy) (fuel check_fuel : ℕ) (m : Matrix) (t : TypeId) (v : Value)
    (tree : DecisionTree)
    → MatrixFits db m (t ∷ [])
    → HasType db v t
    → find_non_exhaustiveness db check_fuel m ≡ returned none
    → build_decision_tree db policy fuel m ≡ returned tree
    → (j : ℕ) × (arm_of (run tree v) ≡ some j) × (first_row 0 m (field v empty) ≡ some j)
accepted_match_takes_arm db policy fuel check_fuel m t v tree fits typed accepted h =
    let vs : Values = field v empty in
    let reached =
      find_sound db check_fuel m (t ∷ []) vs fits (unfold HasType in (typed, tt)) accepted in
    let (j, e) = first_row_of_covered 0 m vs reached in
    (j, build_decision_tree_correct db policy fuel m t v tree fits typed h ∙ e, e)
