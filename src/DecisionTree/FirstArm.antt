-- ===== src/DecisionTree/FirstArm.antt =====
-- The arm a value takes, before and after `phi_specialize` and `d_specialize` of SimplifiedArmMatrix.
use fe.Prelude.{
  ℕ, ◌≡◌, refl, ◌∙◌, true, some, List, [], ◌∷◌, ◌++◌, map, length, Bool-cases, inl, inr,
  if◌then◌else◌,
}
use fe.Types.{TypeId, AnalyzerDb}
use fe.Pattern.Constructor.{ConstructorKind, field_types}
use fe.Pattern.Syntax.{wildcard, constructor, or, nil, cons, Row, Matrix, is_wildcard}
use fe.Pattern.Specialize.{phi_row, d_row}
use fe.Pattern.Specialize.Meaning.{
  MatrixFits, Avoids, phi_row-covered, d_row-covered, Avoids-append,
}
use fe.Pattern.Specialize.Typing.{phi_row-fits, d_row-fits}
use fe.Pattern.Sigma.{column_ctors, collect_column_ctors}
use fe.Pattern.Value.{
  Value, Values, build, empty, field, append_values, count_values, matches, matches_row, covered,
  HasType, HaveTypes, FitsType, FitTypes,
}
use fe.DecisionTree.{Occurrence, Binds, Arm, head_binds}
use fe.DecisionTree.Matrix.{rows_of, all_wildcards, phi_arms, d_arms}
use fe.DecisionTree.Run.{first_arm}

-- The rows that stand for one arm are together the arm.
first_arm-rows :
    (body : ℕ) (binds : Binds) (rows : List Row) (rest : List Arm) (vs : Values)
    → first_arm (map (λ row. record { pat_vec = row; body = body; binds = binds }) rows ++ rest) vs
      ≡ (if covered rows vs then some body else first_arm rest vs)
first_arm-rows body binds [] rest vs = refl
first_arm-rows body binds (row ∷ rows) rest vs = elim (Bool-cases (matches_row row vs)) [
  | inl hit ↦ rw hit refl
  | inr miss ↦ rw miss (first_arm-rows body binds rows rest vs)
]

rows_fit :
    (db : AnalyzerDb) (ts : List TypeId) (body : ℕ) (binds : Binds) (rows : List Row)
    (rest : List Arm)
    → MatrixFits db rows ts
    → MatrixFits db (rows_of rest) ts
    → MatrixFits db
        (rows_of (map (λ row. record { pat_vec = row; body = body; binds = binds }) rows ++ rest))
        ts
rows_fit db ts body binds [] rest h k = k
rows_fit db ts body binds (row ∷ rows) rest h k = (h.0, rows_fit db ts body binds rows rest h.1 k)

Avoids-row :
    (v : Value) (row : Row) (rows : Matrix)
    → Avoids (column_ctors (row ∷ rows) 0) v
    → Avoids (collect_column_ctors row 0) v × Avoids (column_ctors rows 0) v
unfolding column_ctors
Avoids-row v row rows h = Avoids-append (collect_column_ctors row 0) (column_ctors rows 0) v h

d_row_avoiding :
    (db : AnalyzerDb) (t : TypeId) (ts : List TypeId) (v : Value) (vs : Values) (row : Row)
    → FitTypes db row (t ∷ ts)
    → Avoids (collect_column_ctors row 0) v
    → covered (d_row row) vs ≡ matches_row row (field v vs)
unfolding FitsType collect_column_ctors
d_row_avoiding db t ts v vs nil h avoids = absurd h
d_row_avoiding db t ts v vs (cons p rest) h avoids = d_row-covered v vs p rest avoids

module _ (db : AnalyzerDb) (t : TypeId) (ts : List TypeId) (o : Occurrence) (vs : Values) where
  -- Below a constructor, the specialized arms choose as the arms do.
  pub first_arm-phi :
      (c : ConstructorKind) (xs : Values) (arms : List Arm)
      → length (field_types db c) ≡ count_values xs
      → MatrixFits db (rows_of arms) (t ∷ ts)
      → first_arm (phi_arms db c o arms) (append_values xs vs)
        ≡ first_arm arms (field (build c xs) vs)
  unfolding phi_arms
  first_arm-phi c xs [] counted h = refl
  first_arm-phi c xs (a ∷ rest) counted h =
      first_arm-rows a.body (head_binds a.binds a.pat_vec o) (phi_row db c a.pat_vec)
        (phi_arms db c o rest) (append_values xs vs)
      ∙ rw
          (
            phi_row-covered db c t ts xs vs counted a.pat_vec h.0,
            first_arm-phi c xs rest counted h.1,
          )
          refl

  pub first_arm-d :
      (v : Value) (arms : List Arm)
      → Avoids (column_ctors (rows_of arms) 0) v
      → MatrixFits db (rows_of arms) (t ∷ ts)
      → first_arm (d_arms o arms) vs ≡ first_arm arms (field v vs)
  unfolding d_arms
  first_arm-d v [] avoids h = refl
  first_arm-d v (a ∷ rest) avoids h =
      let (here, later) = Avoids-row v a.pat_vec (rows_of rest) avoids in
      first_arm-rows a.body (head_binds a.binds a.pat_vec o) (d_row a.pat_vec) (d_arms o rest) vs
      ∙ rw (d_row_avoiding db t ts v vs a.pat_vec h.0 here, first_arm-d v rest later h.1) refl

  pub phi_arms-fit :
      (c : ConstructorKind) (arms : List Arm)
      → MatrixFits db (rows_of arms) (t ∷ ts)
      → MatrixFits db (rows_of (phi_arms db c o arms)) (field_types db c ++ ts)
  unfolding phi_arms
  phi_arms-fit c [] h = tt
  phi_arms-fit c (a ∷ rest) h =
      rows_fit db (field_types db c ++ ts) a.body (head_binds a.binds a.pat_vec o)
        (phi_row db c a.pat_vec) (phi_arms db c o rest) (phi_row-fits db c ts a.pat_vec t h.0)
        (phi_arms-fit c rest h.1)

  pub d_arms-fit :
      (arms : List Arm)
      → MatrixFits db (rows_of arms) (t ∷ ts)
      → MatrixFits db (rows_of (d_arms o arms)) ts
  unfolding d_arms
  d_arms-fit [] h = tt
  d_arms-fit (a ∷ rest) h =
      rows_fit db ts a.body (head_binds a.binds a.pat_vec o) (d_row a.pat_vec) (d_arms o rest)
        (d_row-fits db ts a.pat_vec t h.0) (d_arms-fit rest h.1)

-- A row of wildcards matches whatever has its width.
pub all_wildcards-matches :
    (db : AnalyzerDb) (row : Row) (ts : List TypeId) (vs : Values)
    → all_wildcards row ≡ true
    → FitTypes db row ts
    → HaveTypes db vs ts
    → matches_row row vs ≡ true
unfolding all_wildcards is_wildcard matches FitsType HasType
all_wildcards-matches db nil ts vs w h k = refl
all_wildcards-matches db (cons p ps) [] vs w h k = absurd h
all_wildcards-matches db (cons p ps) (t ∷ ts) empty w h k = absurd k
all_wildcards-matches db (cons (wildcard b t') ps) (t ∷ ts) (field v vs) w h k =
    all_wildcards-matches db ps ts vs w h.1 k.1
all_wildcards-matches db (cons (constructor c fs t') ps) (t ∷ ts) (field v vs) w h k = cc
all_wildcards-matches db (cons (or qs t') ps) (t ∷ ts) (field v vs) w h k = cc
