-- ===== src/DecisionTree/Policy/Ends.antt =====
-- The fuel of the usefulness checks that column selection makes.
use fe.Prelude.{
  ℕ, zero, suc, ◌≤◌, ◌<◌, ◌≢◌, refl, Bool, Option, none, some, List, [], ◌∷◌, ◌++◌, arith, length,
  ltb, get_elem?, if◌then◌else◌,
}
use fe.Prelude.Int.{ℤ}
use fe.Prelude.Outcome.{Outcome, out_of_fuel, panicked, returned, ◌>>=◌}
use fe.Types.{AnalyzerDb}
use fe.Pattern.Syntax.{nil, cons, Row, Matrix}
use fe.Pattern.Useful.{useful_after, is_row_useful, nodes, nodes_row}
use fe.Pattern.Useful.Covered.{useful_terminates}
use fe.DecisionTree.{Occurrence}
use fe.DecisionTree.Matrix.{ArmMatrix, rows_of}
use fe.DecisionTree.Policy.{
  ColumnScoringFunction, small_branching, needed_column, needed_prefix, Policy, without_column,
  reduced_pat_mat, total_nodes, is_needed, needed_cols, needed_rows, necessity_matrix, cell,
  needed_column_score, needed_prefix_score, score, best_columns, shortest_columns, last,
  select_from, select_column, usize_max, i32_min, range, width,
}

-- Either end of a bind.
bind-ends :
    {A B : Type 0} (m : Outcome A) (f : A → Outcome B)
    → m ≢ out_of_fuel
    → ((a : A) → f a ≢ out_of_fuel)
    → (m >>= f) ≢ out_of_fuel
bind-ends out_of_fuel f hm hf e = hm refl
bind-ends panicked f hm hf e = cc
bind-ends (returned a) f hm hf e = hf a e

nodes-without_column : (row : Row) (col : ℕ) → nodes_row (without_column row col) ≤ nodes_row row
unfolding nodes
nodes-without_column nil col = omega arith
nodes-without_column (cons p ps) zero = omega arith
nodes-without_column (cons p ps) (suc col) = omega (arith, nodes-without_column ps col)

total_nodes-reduced : (m : Matrix) (col : ℕ) → total_nodes (reduced_pat_mat m col) ≤ total_nodes m
unfolding reduced_pat_mat
total_nodes-reduced [] col = omega arith
total_nodes-reduced (row ∷ rows) col =
    omega (arith, nodes-without_column row col, total_nodes-reduced rows col)

useful_after-ends :
    (db : AnalyzerDb) (fuel : ℕ) (before after : Matrix) (row : ℕ)
    → total_nodes after < fuel
    → useful_after db fuel before after row ≢ out_of_fuel
unfolding useful_after
useful_after-ends db fuel before [] row h e = cc
useful_after-ends db fuel before (r ∷ rows) zero h e =
    useful_terminates db fuel before r (omega arith) e
useful_after-ends db fuel before (r ∷ rows) (suc row) h e =
    useful_after-ends db fuel (before ++ r ∷ []) rows row (omega arith) e

-- The fuel given to the check of a row's usefulness is enough for every matrix and every row.
pub is_row_useful-ends :
    (db : AnalyzerDb) (m : Matrix) (col row : ℕ)
    → is_row_useful db (suc (total_nodes m)) (reduced_pat_mat m col) row ≢ out_of_fuel
unfolding is_row_useful
is_row_useful-ends db m col row =
    useful_after-ends db (suc (total_nodes m)) [] (reduced_pat_mat m col) row
      (omega (arith, total_nodes-reduced m col))

module _ (db : AnalyzerDb) (m : Matrix) where
  is_needed-ends : (row col : ℕ) → is_needed db m row col ≢ out_of_fuel
  unfolding is_needed
  is_needed-ends row col e = ground (arith, is_row_useful-ends db m col row)

  needed_cols-ends : (row col left : ℕ) → needed_cols db m row col left ≢ out_of_fuel
  unfolding needed_cols
  needed_cols-ends row col zero = λ e. cc
  needed_cols-ends row col (suc left) =
      bind-ends (is_needed db m row col) _ (is_needed-ends row col) (λ b.
        bind-ends (needed_cols db m row (suc col) left) _ (needed_cols-ends row (suc col) left)
          (λ bs e. cc))

  needed_rows-ends : (ncol row left : ℕ) → needed_rows db m ncol row left ≢ out_of_fuel
  unfolding needed_rows
  needed_rows-ends ncol row zero = λ e. cc
  needed_rows-ends ncol row (suc left) =
      bind-ends (needed_cols db m row 0 ncol) _ (needed_cols-ends row 0 ncol) (λ b.
        bind-ends (needed_rows db m ncol (suc row) left) _ (needed_rows-ends ncol (suc row) left)
          (λ bs e. cc))

cell-ends : (cells : List Bool) (ncol row col : ℕ) → cell cells ncol row col ≢ out_of_fuel
cell-ends cells ncol row col e = ground arith

needed_column_score-ends :
    (cells : List Bool) (ncol col row left : ℕ)
    → needed_column_score cells ncol col row left ≢ out_of_fuel
unfolding needed_column_score
needed_column_score-ends cells ncol col row zero = λ e. cc
needed_column_score-ends cells ncol col row (suc left) =
    bind-ends (cell cells ncol row col) _ (cell-ends cells ncol row col) (λ b.
      bind-ends (needed_column_score cells ncol col (suc row) left) _
        (needed_column_score-ends cells ncol col (suc row) left) (λ n e. cc))

needed_prefix_score-ends :
    (cells : List Bool) (ncol col row left : ℕ)
    → needed_prefix_score cells ncol col row left ≢ out_of_fuel
unfolding needed_prefix_score
needed_prefix_score-ends cells ncol col row zero = λ e. cc
needed_prefix_score-ends cells ncol col row (suc left) =
    bind-ends (cell cells ncol row col) _ (cell-ends cells ncol row col)
      (λ b e. ground (arith, needed_prefix_score-ends cells ncol col (suc row) left))

score-ends :
    (db : AnalyzerDb) (f : ColumnScoringFunction) (m : Matrix) (col : ℕ)
    → score db f m col ≢ out_of_fuel
unfolding score
score-ends db ColumnScoringFunction.arity m col = λ e. cc
score-ends db small_branching m col = λ e. cc
score-ends db needed_column m col =
    bind-ends (necessity_matrix db m) _
      (unfold necessity_matrix in needed_rows-ends db m (width m) 0 (length m))
      (λ cells.
        bind-ends (needed_column_score cells (width m) col 0 (length m)) _
          (needed_column_score-ends cells (width m) col 0 (length m)) (λ n e. cc))
score-ends db needed_prefix m col =
    bind-ends (necessity_matrix db m) _
      (unfold necessity_matrix in needed_rows-ends db m (width m) 0 (length m))
      (λ cells.
        bind-ends (needed_prefix_score cells (width m) col 0 (length m)) _
          (needed_prefix_score-ends cells (width m) col 0 (length m)) (λ n e. cc))

best_columns-ends :
    (score_of : ℕ → Outcome ℤ) (cols candidates : List ℕ) (max_score : ℤ)
    → ((col : ℕ) → score_of col ≢ out_of_fuel)
    → best_columns score_of cols candidates max_score ≢ out_of_fuel
unfolding best_columns
best_columns-ends score_of [] candidates max_score h = λ e. cc
best_columns-ends score_of (col ∷ cols) candidates max_score h =
    bind-ends (score_of col) _ (h col) (λ s. best_columns-ends score_of cols _ _ h)

shortest_columns-ends :
    (os : List Occurrence) (cols candidates : List ℕ) (shortest : ℕ)
    → shortest_columns os cols candidates shortest ≢ out_of_fuel
unfolding shortest_columns
shortest_columns-ends os [] candidates shortest = λ e. cc
shortest_columns-ends os (col ∷ cols) candidates shortest =
    go (get_elem? os col) (λ c n. shortest_columns-ends os cols c n)
  where
    go :
        (o : Option Occurrence)
        → ((c : List ℕ) (n : ℕ) → shortest_columns os cols c n ≢ out_of_fuel)
        → elim o as (λ x. Outcome (List ℕ)) [
          | none ↦ panicked
          | some o ↦
              shortest_columns os cols
                (if ltb (length o) shortest
                  then col ∷ []
                  else if ltb shortest (length o)
                  then candidates
                  else candidates ++ col ∷ [])
                (if ltb (length o) shortest then length o else shortest)
        ]
          ≢ out_of_fuel
    go none h e = cc
    go (some o) h e = h _ _ e

last-ends : (cols : List ℕ) → last cols ≢ out_of_fuel
last-ends [] e = cc
last-ends (x ∷ []) e = cc
last-ends (x ∷ (y ∷ ys)) e = last-ends (y ∷ ys) e

select_from-ends :
    (db : AnalyzerDb) (policy : Policy) (m : Matrix) (os : List Occurrence) (cols : List ℕ)
    → select_from db policy m os cols ≢ out_of_fuel
unfolding select_from
select_from-ends db [] m os cols =
    bind-ends (shortest_columns os cols [] usize_max) last
      (shortest_columns-ends os cols [] usize_max) last-ends
select_from-ends db (f ∷ fs) m os cols =
    bind-ends (best_columns (score db f m) cols [] i32_min) _
      (best_columns-ends (score db f m) cols [] i32_min (score-ends db f m))
      (λ best e. ground (arith, last-ends best, select_from-ends db fs m os best))

-- `select_column` is never out of fuel: the usefulness checks of the necessity matrix get enough.
pub select_column-ends :
    (db : AnalyzerDb) (policy : Policy) (mat : ArmMatrix)
    → select_column db policy mat ≢ out_of_fuel
unfolding select_column
select_column-ends db policy mat =
    select_from-ends db policy (rows_of mat.arms) mat.occurrences
      (range 0 (width (rows_of mat.arms)))
