-- ===== src/Pattern/Useful.antt =====
-- `PatternMatrix::is_pattern_useful` and `is_row_useful` of pattern_analysis.rs.
pub mod Covered
pub mod Unreported
use fe.Prelude.{ℕ, zero, suc, Bool, true, false, List, [], ◌∷◌, ◌++◌, ◌+◌, if◌then◌else◌}
use fe.Prelude.Outcome.{Outcome, out_of_fuel, panicked, returned, ◌>>=◌}
use fe.Types.{AnalyzerDb}
use fe.Pattern.Syntax.{Pattern, Patterns, wildcard, constructor, or, nil, cons, Row, Matrix, append}
use fe.Pattern.Specialize.{phi_specialize, d_specialize}

-- The loop over the alternatives: each is tried as a row of its own.
unfoldable pub any_useful : (Row → Outcome Bool) → Patterns → Outcome Bool
any_useful useful nil = returned false
any_useful useful (cons p ps) =
    let rest = any_useful useful ps in
    do found ← useful (cons p nil); if found then returned true else rest

-- By the head of the row, in a matrix that has rows and columns; the row's own `head().unwrap()`
-- panics on an empty row. `d_specialize` and `phi_specialize` leave one row of such a row, of which
-- the code takes the first.
unfoldable pub useful_in_column :
    (Matrix → Row → Outcome Bool) → AnalyzerDb → Matrix → Row → Outcome Bool
unfolding any_useful
useful_in_column useful db m nil = panicked
useful_in_column useful db m (cons (wildcard b t) rest) = useful (d_specialize m) rest
useful_in_column useful db m (cons (constructor c fs t) rest) =
    useful (phi_specialize db c m) (append fs rest)
useful_in_column useful db m (cons (or ps t) rest) = any_useful (useful m) ps

unfoldable pub is_pattern_useful : AnalyzerDb → ℕ → Matrix → Row → Outcome Bool
unfolding useful_in_column
is_pattern_useful db zero m row = out_of_fuel
is_pattern_useful db (suc fuel) [] row = returned true
is_pattern_useful db (suc fuel) (nil ∷ rows) row = returned false
is_pattern_useful db (suc fuel) (cons p rest ∷ rows) row =
    useful_in_column (is_pattern_useful db fuel) db (cons p rest ∷ rows) row

-- The rows before the given place, and the row there; `rows[row]` panics past the end.
unfoldable pub useful_after : AnalyzerDb → ℕ → (before after : Matrix) → ℕ → Outcome Bool
useful_after db fuel before [] row = panicked
useful_after db fuel before (r ∷ rows) zero = is_pattern_useful db fuel before r
useful_after db fuel before (r ∷ rows) (suc row) = useful_after db fuel (before ++ r ∷ []) rows row

-- `is_row_useful`
unfoldable pub is_row_useful : AnalyzerDb → ℕ → Matrix → ℕ → Outcome Bool
unfolding useful_after
is_row_useful db fuel m row = useful_after db fuel [] m row

-- The size of a row, which bounds the depth of the recursion.
unfoldable mutual
  pub nodes : Pattern → ℕ
  nodes (wildcard b t) = 1
  nodes (constructor c fs t) = suc (nodes_row fs)
  nodes (or ps t) = suc (nodes_row ps)

  pub nodes_row : Patterns → ℕ
  nodes_row nil = 0
  nodes_row (cons p ps) = nodes p + nodes_row ps
