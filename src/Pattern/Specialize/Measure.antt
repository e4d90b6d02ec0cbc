-- ===== src/Pattern/Specialize/Measure.antt =====
-- A measure of matrices, for the recursions over specialized matrices.
use fe.Prelude.{
  ℕ, zero, suc, ◌+◌, ◌*◌, ◌≤◌, ◌<◌, ◌≡◌, refl, ◌⊎◌, inl, inr, true, false, Option, List, [], ◌∷◌,
  ◌++◌, arith, length, Bool-cases, if◌then◌else◌,
}
use fe.Types.{TypeId, AnalyzerDb}
use fe.Pattern.Constructor.{ConstructorKind, ctor_eq, field_types}
use fe.Pattern.Syntax.{
  Pattern, Patterns, wildcard, constructor, or, nil, cons, Row, Matrix, Bind, append, wildcards,
  is_wildcard,
}
use fe.Pattern.Sigma.{contains, contains-append, column_ctors, collect_column_ctors}
use fe.Pattern.Specialize.{
  phi_pattern, phi_alternatives, phi_row, phi_specialize, d_pattern, d_alternatives, d_row,
  d_specialize,
}

-- A wildcard weighs nothing in a product, an alternative its sum, a constructor its arguments and
-- one more.
unfoldable mutual
  pub weight : Pattern → ℕ
  weight (wildcard b t) = 1
  weight (constructor c fs t) = suc (weight_row fs)
  weight (or ps t) = suc (weight_sum ps)

  pub weight_row : Patterns → ℕ
  weight_row nil = 1
  weight_row (cons p ps) = weight p * weight_row ps

  pub weight_sum : Patterns → ℕ
  weight_sum nil = 0
  weight_sum (cons p ps) = weight p + weight_sum ps

unfoldable pub matrix_weight : Matrix → ℕ
matrix_weight [] = 0
matrix_weight (row ∷ rows) = weight_row row + matrix_weight rows

mutual
  unfolding weight

  weight_pos : (p : Pattern) → 1 ≤ weight p
  weight_pos (wildcard b t) = omega arith
  weight_pos (constructor c fs t) = omega arith
  weight_pos (or ps t) = omega arith

  weight_row_pos : (ps : Patterns) → 1 ≤ weight_row ps
  weight_row_pos nil = omega arith
  weight_row_pos (cons p ps) = grind (arith, weight_pos p, weight_row_pos ps)

weight_row-append : (ps qs : Patterns) → weight_row (append ps qs) ≡ weight_row ps * weight_row qs
unfolding weight
weight_row-append nil qs = omega arith
weight_row-append (cons p ps) qs = rw (weight_row-append ps qs) (omega arith)

weight_row-wildcards :
    (b : Option Bind) (ts : List TypeId) (qs : Patterns)
    → weight_row (append (wildcards b ts) qs) ≡ weight_row qs
unfolding weight wildcards
weight_row-wildcards b [] qs = refl
weight_row-wildcards b (t ∷ ts) qs = omega (arith, weight_row-wildcards b ts qs)

matrix_weight-append : (m n : Matrix) → matrix_weight (m ++ n) ≡ matrix_weight m + matrix_weight n
unfolding matrix_weight
matrix_weight-append [] n = omega arith
matrix_weight-append (row ∷ rows) n = omega (arith, matrix_weight-append rows n)

later_column :
    (row : Row) (rows : Matrix) (d : ConstructorKind)
    → contains (column_ctors (row ∷ rows) 0) d ≡ true
    → contains (collect_column_ctors row 0) d ≡ false
    → contains (column_ctors rows 0) d ≡ true
unfolding column_ctors
later_column row rows d h later =
    ground (arith, contains-append (collect_column_ctors row 0) (column_ctors rows 0) d)

module _ (db : AnalyzerDb) (c : ConstructorKind) where
  phi_constructor-weight :
      (k : ConstructorKind) (fs rest : Patterns)
      → matrix_weight (if ctor_eq k c then append fs rest ∷ [] else [])
        ≤ weight_row fs * weight_row rest
  phi_constructor-weight k fs rest = elim (Bool-cases (ctor_eq k c)) [
    | inl same ↦ rw same (unfold matrix_weight in omega (arith, weight_row-append fs rest))
    | inr differ ↦ rw differ (unfold matrix_weight in omega arith)
  ]

  mutual
    unfolding weight matrix_weight phi_pattern

    phi_pattern-weight :
        (p : Pattern) (rest : Row)
        → matrix_weight (phi_pattern db c p rest) ≤ weight p * weight_row rest
    phi_pattern-weight (wildcard b t) rest =
        omega (arith, weight_row-wildcards b (field_types db c) rest)
    phi_pattern-weight (constructor k fs t) rest = omega (arith, phi_constructor-weight k fs rest)
    phi_pattern-weight (or ps t) rest = omega (arith, phi_alternatives-weight ps rest)

    phi_alternatives-weight :
        (ps : Patterns) (rest : Row)
        → matrix_weight (phi_alternatives db c ps rest) ≤ weight_sum ps * weight_row rest
    phi_alternatives-weight nil rest = omega arith
    phi_alternatives-weight (cons p ps) rest = omega (
      arith,
      matrix_weight-append (phi_pattern db c p rest) (phi_alternatives db c ps rest),
      phi_pattern-weight p rest,
      phi_alternatives-weight ps rest,
    )

  phi_pattern-weight_lt :
      (p : Pattern) (rest : Row)
      → is_wildcard p ≡ false
      → matrix_weight (phi_pattern db c p rest) < weight p * weight_row rest
  unfolding weight matrix_weight phi_pattern is_wildcard
  phi_pattern-weight_lt (wildcard b t) rest h = cc
  phi_pattern-weight_lt (constructor k fs t) rest h =
      omega (arith, phi_constructor-weight k fs rest, weight_row_pos rest)
  phi_pattern-weight_lt (or ps t) rest h =
      omega (arith, phi_alternatives-weight ps rest, weight_row_pos rest)

  phi_row-weight : (row : Row) → matrix_weight (phi_row db c row) ≤ weight_row row
  unfolding phi_row weight
  phi_row-weight nil = unfold matrix_weight in omega arith
  phi_row-weight (cons p rest) = phi_pattern-weight p rest

  phi_specialize-weight : (m : Matrix) → matrix_weight (phi_specialize db c m) ≤ matrix_weight m
  unfolding phi_specialize matrix_weight
  phi_specialize-weight [] = omega arith
  phi_specialize-weight (row ∷ rows) = omega (
    arith,
    matrix_weight-append (phi_row db c row) (phi_specialize db c rows),
    phi_row-weight row,
    phi_specialize-weight rows,
  )

  phi_row-weight_lt :
      (row : Row) (d : ConstructorKind)
      → contains (collect_column_ctors row 0) d ≡ true
      → matrix_weight (phi_row db c row) < weight_row row
  unfolding phi_row weight collect_column_ctors contains
  phi_row-weight_lt nil d h = cc
  phi_row-weight_lt (cons (wildcard b t) rest) d h = cc
  phi_row-weight_lt (cons (constructor k fs t) rest) d h =
      phi_pattern-weight_lt (constructor k fs t) rest (unfold is_wildcard in refl)
  phi_row-weight_lt (cons (or ps t) rest) d h =
      phi_pattern-weight_lt (or ps t) rest (unfold is_wildcard in refl)

  -- Where the column has a constructor at all, specializing by any constructor lowers the weight.
  pub phi_specialize-weight_lt :
      (m : Matrix) (d : ConstructorKind)
      → contains (column_ctors m 0) d ≡ true
      → matrix_weight (phi_specialize db c m) < matrix_weight m
  unfolding phi_specialize matrix_weight
  phi_specialize-weight_lt [] d h = unfold column_ctors contains in cc
  phi_specialize-weight_lt (row ∷ rows) d h =
      let joined = matrix_weight-append (phi_row db c row) (phi_specialize db c rows) in
      elim (Bool-cases (contains (collect_column_ctors row 0) d)) [
        | inl here ↦ omega (arith, joined, phi_row-weight_lt row d here, phi_specialize-weight rows)
        | inr later ↦ omega (
          arith,
          joined,
          phi_row-weight row,
          phi_specialize-weight_lt rows d (later_column row rows d h later),
        )
      ]

mutual
  unfolding weight matrix_weight d_pattern

  d_pattern-weight :
      (p : Pattern) (rest : Row) → matrix_weight (d_pattern p rest) ≤ weight p * weight_row rest
  d_pattern-weight (wildcard b t) rest = omega arith
  d_pattern-weight (constructor k fs t) rest = omega arith
  d_pattern-weight (or ps t) rest = omega (arith, d_alternatives-weight ps rest)

  d_alternatives-weight :
      (ps : Patterns) (rest : Row)
      → matrix_weight (d_alternatives ps rest) ≤ weight_sum ps * weight_row rest
  d_alternatives-weight nil rest = omega arith
  d_alternatives-weight (cons p ps) rest = omega (
    arith,
    matrix_weight-append (d_pattern p rest) (d_alternatives ps rest),
    d_pattern-weight p rest,
    d_alternatives-weight ps rest,
  )

d_row-weight : (row : Row) → matrix_weight (d_row row) ≤ weight_row row
unfolding d_row weight
d_row-weight nil = unfold matrix_weight in omega arith
d_row-weight (cons p rest) = d_pattern-weight p rest

pub d_specialize-weight : (m : Matrix) → matrix_weight (d_specialize m) ≤ matrix_weight m
unfolding d_specialize matrix_weight
d_specialize-weight [] = omega arith
d_specialize-weight (row ∷ rows) = omega (
  arith,
  matrix_weight-append (d_row row) (d_specialize rows),
  d_row-weight row,
  d_specialize-weight rows,
)

-- Less weight, or no more weight and fewer columns.
abbrev pub Smaller : Matrix → List TypeId → Matrix → List TypeId → Type 0
Smaller m' ts' m ts =
    (matrix_weight m' < matrix_weight m)
    ⊎ ((matrix_weight m' ≤ matrix_weight m) × (length ts' < length ts))

module _ {ℓ} (P : Matrix → List TypeId → Type ℓ)
    (step : (m : Matrix) (ts : List TypeId)
      → ((m' : Matrix) (ts' : List TypeId) → Smaller m' ts' m ts → P m' ts')
      → P m ts) where
  bounded : (w n : ℕ) (m : Matrix) (ts : List TypeId) → matrix_weight m < w → length ts < n → P m ts
  bounded zero n m ts hw hn = absurd (omega arith)
  bounded (suc w) zero m ts hw hn = absurd (omega arith)
  bounded (suc w) (suc n) m ts hw hn = step m ts λ m' ts' s. elim s [
    | inl lt ↦ bounded w (suc (length ts')) m' ts' (omega arith) (omega arith)
    | inr fewer ↦ bounded (suc w) n m' ts' (omega (arith, fewer.0)) (omega (arith, fewer.1))
  ]

  pub matrix_induction : (m : Matrix) (ts : List TypeId) → P m ts
  matrix_induction m ts =
      bounded (suc (matrix_weight m)) (suc (length ts)) m ts (omega arith) (omega arith)
