-- ===== src/DecisionTree/Weight.antt =====
-- The weight of a matrix of arms, across the steps of `build`.
use fe.Prelude.{
  ℕ, zero, suc, ◌*◌, ◌≡◌, refl, ap, ◌∙◌, inl, inr, Option, some, List, [], ◌∷◌, ◌++◌, arith, map,
  length, get_elem?, Option-cases,
}
use fe.Types.{TypeId, AnalyzerDb}
use fe.Pattern.Constructor.{ConstructorKind}
use fe.Pattern.Syntax.{Pattern, Patterns, nil, cons, Row}
use fe.Pattern.Specialize
use fe.Pattern.Specialize.{phi_row, d_row}
use fe.Pattern.Specialize.Measure.{weight, weight_row, matrix_weight}
use fe.DecisionTree.{Occurrence, Binds, Arm, head_binds}
use fe.DecisionTree.Matrix.{
  rows_of, phi_arms, d_arms, swap_arm, swap_list, replace, swap_row, replace_pattern, pattern_at,
}

rows_of-rows :
    (body : ℕ) (binds : Binds) (rows : List Row) (rest : List Arm)
    → rows_of (map (λ row. record { pat_vec = row; body = body; binds = binds }) rows ++ rest)
      ≡ rows ++ rows_of rest
rows_of-rows body binds [] rest = refl
rows_of-rows body binds (row ∷ rows) rest = ap (λ m. row ∷ m) (rows_of-rows body binds rows rest)

-- The rows of the specialized arms are the specialized rows of the arms.
pub rows_of-phi :
    (db : AnalyzerDb) (c : ConstructorKind) (o : Occurrence) (arms : List Arm)
    → rows_of (phi_arms db c o arms) ≡ Specialize.phi_specialize db c (rows_of arms)
unfolding phi_arms Specialize.phi_specialize
rows_of-phi db c o [] = refl
rows_of-phi db c o (a ∷ rest) =
    rows_of-rows a.body (head_binds a.binds a.pat_vec o) (phi_row db c a.pat_vec)
      (phi_arms db c o rest)
    ∙ ap (λ m. phi_row db c a.pat_vec ++ m) (rows_of-phi db c o rest)

pub rows_of-d :
    (o : Occurrence) (arms : List Arm)
    → rows_of (d_arms o arms) ≡ Specialize.d_specialize (rows_of arms)
unfolding d_arms Specialize.d_specialize
rows_of-d o [] = refl
rows_of-d o (a ∷ rest) =
    rows_of-rows a.body (head_binds a.binds a.pat_vec o) (d_row a.pat_vec) (d_arms o rest)
    ∙ ap (λ m. d_row a.pat_vec ++ m) (rows_of-d o rest)

some_pattern : (p q : Pattern) → ◌≡◌ {A = Option Pattern} (some p) (some q) → q ≡ p
some_pattern p q e = cc

weight_row-replace :
    (ps : Patterns) (i : ℕ) (p q : Pattern)
    → pattern_at ps i ≡ some q
    → weight q * weight_row (replace_pattern ps i p) ≡ weight p * weight_row ps
unfolding weight
weight_row-replace nil i p q e = cc
weight_row-replace (cons r ps) zero p q e = rw (some_pattern r q e) (omega arith)
weight_row-replace (cons r ps) (suc i) p q e =
    omega (arith, ap (λ (n : ℕ). weight r * n) (weight_row-replace ps i p q e))

weight_row-swap : (row : Row) (i : ℕ) → weight_row (swap_row row i) ≡ weight_row row
unfolding weight swap_row
weight_row-swap nil i = refl
weight_row-swap (cons p ps) zero = refl
weight_row-swap (cons p ps) (suc i) = elim (Option-cases (pattern_at ps i)) [
  | inl e ↦ rw e refl
  | inr (q, e) ↦ rw e (weight_row-replace ps i p q e)
]

pub matrix_weight-swap :
    (arms : List Arm) (i : ℕ)
    → matrix_weight (rows_of (map (swap_arm i) arms)) ≡ matrix_weight (rows_of arms)
unfolding matrix_weight
matrix_weight-swap [] i = refl
matrix_weight-swap (a ∷ rest) i =
    omega (arith, weight_row-swap a.pat_vec i, matrix_weight-swap rest i)

length-replace : (ts : List TypeId) (i : ℕ) (t : TypeId) → length (replace ts i t) ≡ length ts
length-replace [] i t = refl
length-replace (s ∷ ts) zero t = refl
length-replace (s ∷ ts) (suc i) t = ap suc (length-replace ts i t)

pub length-swap : (ts : List TypeId) (i : ℕ) → length (swap_list ts i) ≡ length ts
unfolding swap_list
length-swap [] i = refl
length-swap (t ∷ ts) zero = refl
length-swap (t ∷ ts) (suc i) = elim (Option-cases (get_elem? ts i)) [
  | inl e ↦ rw e refl
  | inr (s, e) ↦ rw e (ap suc (length-replace ts i t))
]
