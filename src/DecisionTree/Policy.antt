-- ===== src/DecisionTree/Policy.antt =====
-- Column selection of decision_tree.rs: the necessity matrix, the scores, and the policy.
pub mod Ends
use fe.Prelude.{
  ℕ, zero, suc, ◌+◌, ◌-◌, ◌*◌, Bool, true, false, not, Option, none, some, List, [], ◌∷◌, ◌++◌,
  ◌==◌, ltb, length, get_elem?, if◌then◌else◌,
}
use fe.Prelude.Int.{ℤ, pos, negsuc, neg_ℕ, sub_ℕ, ltb_ℤ}
use fe.Prelude.Outcome.{Outcome, out_of_fuel, panicked, returned, ◌>>=◌}
use fe.Types.{AnalyzerDb}
use fe.Pattern.Constructor
use fe.Pattern.Constructor.{ConstructorKind}
use fe.Pattern.Syntax.{Pattern, Patterns, nil, cons, Row, Matrix, len, is_wildcard}
use fe.Pattern.Sigma.{SigmaSet, from_rows, is_complete}
use fe.Pattern.Useful.{is_row_useful, nodes_row}
use fe.DecisionTree.{Occurrence, Arm}
use fe.DecisionTree.Matrix.{ArmMatrix, rows_of, pattern_at}

pub data ColumnScoringFunction : Type 0 where
  arity small_branching needed_column needed_prefix : ColumnScoringFunction

-- A `ColumnSelectionPolicy`, in the order in which its heuristics were added.
abbrev pub Policy : Type 0
Policy = List ColumnScoringFunction

-- The policy that `lower_match` builds.
abbrev pub lower_match_policy : Policy
lower_match_policy = needed_prefix ∷ small_branching ∷ ColumnScoringFunction.arity ∷ []

abbrev pub without_column : Row → ℕ → Row
without_column nil col = nil
without_column (cons p ps) zero = ps
without_column (cons p ps) (suc col) = cons p (without_column ps col)

-- `reduced_pat_mat`
unfoldable pub reduced_pat_mat : Matrix → ℕ → Matrix
reduced_pat_mat [] col = []
reduced_pat_mat (row ∷ rows) col = without_column row col ∷ reduced_pat_mat rows col

abbrev pub total_nodes : Matrix → ℕ
total_nodes [] = 0
total_nodes (row ∷ rows) = nodes_row row + total_nodes rows

-- Whether the column is needed in the row.
unfoldable pub is_needed : AnalyzerDb → Matrix → ℕ → ℕ → Outcome Bool
unfolding reduced_pat_mat
is_needed db m row col = elim (get_elem? m row) [
  | none ↦ panicked
  | some r ↦ elim (pattern_at r col) [
    | none ↦ panicked
    | some p ↦ if not (is_wildcard p) then returned true else do
      useful ← is_row_useful db (suc (total_nodes m)) (reduced_pat_mat m col) row
      returned (not useful)
  ]
]

unfoldable pub needed_cols : AnalyzerDb → Matrix → ℕ → (col left : ℕ) → Outcome (List Bool)
unfolding is_needed
needed_cols db m row col zero = returned []
needed_cols db m row col (suc left) = do
  needed ← is_needed db m row col
  rest ← needed_cols db m row (suc col) left
  returned (needed ∷ rest)

unfoldable pub needed_rows : AnalyzerDb → Matrix → (ncol row left : ℕ) → Outcome (List Bool)
unfolding needed_cols
needed_rows db m ncol row zero = returned []
needed_rows db m ncol row (suc left) = do
  cells ← needed_cols db m row 0 ncol
  rest ← needed_rows db m ncol (suc row) left
  returned (cells ++ rest)

-- `ncols`: the width of the first row.
abbrev pub width : Matrix → ℕ
width [] = 0
width (row ∷ rows) = len row

-- `NecessityMatrix::from_mat`: the cells, row by row.
unfoldable pub necessity_matrix : AnalyzerDb → Matrix → Outcome (List Bool)
unfolding needed_rows
necessity_matrix db m = needed_rows db m (width m) 0 (length m)

-- The cell of a row and a column, `data[ncol * row + col]`.
abbrev pub cell : List Bool → ℕ → ℕ → ℕ → Outcome Bool
cell cells ncol row col = elim (get_elem? cells (ncol * row + col)) [
  | none ↦ panicked
  | some b ↦ returned b
]

unfoldable pub needed_column_score : List Bool → (ncol col row left : ℕ) → Outcome ℕ
needed_column_score cells ncol col row zero = returned 0
needed_column_score cells ncol col row (suc left) = do
  b ← cell cells ncol row col
  n ← needed_column_score cells ncol col (suc row) left
  returned (if b then suc n else n)

unfoldable pub needed_prefix_score : List Bool → (ncol col row left : ℕ) → Outcome ℕ
needed_prefix_score cells ncol col row zero = returned 0
needed_prefix_score cells ncol col row (suc left) =
    let rest = needed_prefix_score cells ncol col (suc row) left in
    do b ← cell cells ncol row col; if b then rest >>= (λ n. returned (suc n)) else returned 0

abbrev pub sum_arities : AnalyzerDb → SigmaSet → ℕ
sum_arities db [] = 0
sum_arities db (c ∷ cs) = Constructor.arity db c + sum_arities db cs

unfoldable pub score : AnalyzerDb → ColumnScoringFunction → Matrix → ℕ → Outcome ℤ
unfolding necessity_matrix needed_column_score needed_prefix_score
score db ColumnScoringFunction.arity m col = returned (neg_ℕ (sum_arities db (from_rows m col)))
score db small_branching m col =
    let sigma = from_rows m col in
    returned (if is_complete db sigma then neg_ℕ (length sigma) else neg_ℕ (suc (length sigma)))
score db needed_column m col = do
  cells ← necessity_matrix db m
  n ← needed_column_score cells (width m) col 0 (length m)
  returned (pos n)
score db needed_prefix m col = do
  cells ← necessity_matrix db m
  n ← needed_prefix_score cells (width m) col 0 (length m)
  returned (pos n)

-- The candidates of the highest score, from the score that they have to reach.
unfoldable pub best_columns :
    (ℕ → Outcome ℤ) → List ℕ → (candidates : List ℕ) (max_score : ℤ) → Outcome (List ℕ)
best_columns score_of [] candidates max_score = returned candidates
best_columns score_of (col ∷ cols) candidates max_score = do
  s ← score_of col
  let lower = ltb_ℤ s max_score
  let higher = ltb_ℤ max_score s
  best_columns score_of cols
      (if lower then candidates else if higher then col ∷ [] else candidates ++ col ∷ [])
      (if higher then s else max_score)

-- `i32::MIN` and `usize::MAX`
abbrev pub i32_min : ℤ
i32_min = negsuc 2147483647

abbrev pub usize_max : ℕ
usize_max = 18446744073709551615

unfoldable pub shortest_columns :
    List Occurrence → List ℕ → (candidates : List ℕ) (shortest : ℕ) → Outcome (List ℕ)
shortest_columns occurrences [] candidates shortest = returned candidates
shortest_columns occurrences (col ∷ cols) candidates shortest = elim (get_elem? occurrences col) [
  | none ↦ panicked
  | some o ↦
      let n = length o in
      shortest_columns occurrences cols
        (if ltb n shortest
          then col ∷ []
          else if ltb shortest n
          then candidates
          else candidates ++ col ∷ [])
        (if ltb n shortest then n else shortest)
]

abbrev pub last : List ℕ → Outcome ℕ
last [] = panicked
last (x ∷ []) = returned x
last (x ∷ (y ∷ ys)) = last (y ∷ ys)

unfoldable pub select_from : AnalyzerDb → Policy → Matrix → List Occurrence → List ℕ → Outcome ℕ
unfolding score best_columns shortest_columns
select_from db [] m occurrences candidates =
    shortest_columns occurrences candidates [] usize_max >>= last
select_from db (f ∷ fs) m occurrences candidates = do
  best ← best_columns (score db f m) candidates [] i32_min
  let rest = select_from db fs m occurrences best
  if length best == 1 then last best else rest

abbrev pub range : ℕ → ℕ → List ℕ
range i zero = []
range i (suc n) = i ∷ range (suc i) n

-- `ColumnSelectionPolicy::select_column`
unfoldable pub select_column : AnalyzerDb → Policy → ArmMatrix → Outcome ℕ
unfolding select_from
select_column db policy mat =
    let m = rows_of mat.arms in select_from db policy m mat.occurrences (range 0 (width m))
