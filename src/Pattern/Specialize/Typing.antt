-- ===== src/Pattern/Specialize/Typing.antt =====
-- The types of the columns of specialized rows (phi_specialize and d_specialize).
use fe.Prelude.{refl, Option, List, [], ◌∷◌, ◌++◌, All-append, Bool-cases, inl, inr, if◌then◌else◌}
use fe.Types.{TypeId, AnalyzerDb}
use fe.Pattern.Constructor.{ConstructorKind, ctor_eq, ctor_eq→eq, field_types}
use fe.Pattern.Syntax.{
  Pattern, Patterns, wildcard, constructor, or, nil, cons, Row, Matrix, Bind, append, wildcards,
}
use fe.Pattern.Specialize.{
  phi_pattern, phi_alternatives, phi_row, phi_specialize, d_pattern, d_alternatives, d_row,
  d_specialize,
}
use fe.Pattern.Value.{FitsType, FitTypes, AllFit}
use fe.Pattern.Specialize.Meaning.{MatrixFits}

pub append-FitTypes :
    (db : AnalyzerDb) (ps qs : Patterns) (ts us : List TypeId)
    → FitTypes db ps ts
    → FitTypes db qs us
    → FitTypes db (append ps qs) (ts ++ us)
unfolding FitsType
append-FitTypes db nil qs [] us h k = k
append-FitTypes db nil qs (t ∷ ts) us h k = absurd h
append-FitTypes db (cons p ps) qs [] us h k = absurd h
append-FitTypes db (cons p ps) qs (t ∷ ts) us h k = (h.0, append-FitTypes db ps qs ts us h.1 k)

pub wildcards-FitTypes :
    (db : AnalyzerDb) (b : Option Bind) (ts : List TypeId) → FitTypes db (wildcards b ts) ts
unfolding FitsType wildcards
wildcards-FitTypes db b [] = tt
wildcards-FitTypes db b (t ∷ ts) = (refl, wildcards-FitTypes db b ts)

module _ (db : AnalyzerDb) (c : ConstructorKind) (ts : List TypeId) where
  phi_constructor-fits :
      (k : ConstructorKind) (fs rest : Patterns)
      → FitTypes db fs (field_types db k)
      → FitTypes db rest ts
      → MatrixFits db (if ctor_eq k c then append fs rest ∷ [] else []) (field_types db c ++ ts)
  phi_constructor-fits k fs rest h r = elim (Bool-cases (ctor_eq k c)) [
    | inl same ↦
        rw (same, ← ctor_eq→eq k c same)
          ((append-FitTypes db fs rest (field_types db k) ts h r, tt))
    | inr differ ↦ rw differ tt
  ]

  mutual
    unfolding phi_pattern FitsType

    phi_pattern-fits :
        (p : Pattern) (rest : Row) (t : TypeId)
        → FitsType db p t
        → FitTypes db rest ts
        → MatrixFits db (phi_pattern db c p rest) (field_types db c ++ ts)
    phi_pattern-fits (wildcard b t') rest t h r = (
      append-FitTypes db (wildcards b (field_types db c)) rest (field_types db c) ts
          (wildcards-FitTypes db b (field_types db c)) r,
      tt,
    )
    phi_pattern-fits (constructor k fs t') rest t h r = phi_constructor-fits k fs rest h.2 r
    phi_pattern-fits (or ps t') rest t h r = phi_alternatives-fits ps rest t h.1 r

    phi_alternatives-fits :
        (ps : Patterns) (rest : Row) (t : TypeId)
        → AllFit db ps t
        → FitTypes db rest ts
        → MatrixFits db (phi_alternatives db c ps rest) (field_types db c ++ ts)
    phi_alternatives-fits nil rest t h r = tt
    phi_alternatives-fits (cons p ps) rest t h r =
        All-append (λ row. FitTypes db row (field_types db c ++ ts)) (phi_pattern db c p rest)
          (phi_alternatives db c ps rest) (phi_pattern-fits p rest t h.0 r)
          (phi_alternatives-fits ps rest t h.1 r)

  pub phi_row-fits :
      (row : Row) (t : TypeId)
      → FitTypes db row (t ∷ ts)
      → MatrixFits db (phi_row db c row) (field_types db c ++ ts)
  unfolding phi_row FitsType
  phi_row-fits nil t h = absurd h
  phi_row-fits (cons p rest) t h = phi_pattern-fits p rest t h.0 h.1

  pub phi_specialize-fits :
      (m : Matrix) (t : TypeId)
      → MatrixFits db m (t ∷ ts)
      → MatrixFits db (phi_specialize db c m) (field_types db c ++ ts)
  unfolding phi_specialize
  phi_specialize-fits [] t h = tt
  phi_specialize-fits (row ∷ rows) t h =
      All-append (λ row. FitTypes db row (field_types db c ++ ts)) (phi_row db c row)
        (phi_specialize db c rows) (phi_row-fits row t h.0) (phi_specialize-fits rows t h.1)

module _ (db : AnalyzerDb) (ts : List TypeId) where
  mutual
    unfolding d_pattern FitsType

    d_pattern-fits :
        (p : Pattern) (rest : Row) → FitTypes db rest ts → MatrixFits db (d_pattern p rest) ts
    d_pattern-fits (wildcard b t') rest r = (r, tt)
    d_pattern-fits (constructor k fs t') rest r = tt
    d_pattern-fits (or ps t') rest r = d_alternatives-fits ps rest r

    d_alternatives-fits :
        (ps : Patterns) (rest : Row)
        → FitTypes db rest ts
        → MatrixFits db (d_alternatives ps rest) ts
    d_alternatives-fits nil rest r = tt
    d_alternatives-fits (cons p ps) rest r =
        All-append (λ row. FitTypes db row ts) (d_pattern p rest) (d_alternatives ps rest)
          (d_pattern-fits p rest r) (d_alternatives-fits ps rest r)

  pub d_row-fits :
      (row : Row) (t : TypeId) → FitTypes db row (t ∷ ts) → MatrixFits db (d_row row) ts
  unfolding d_row FitsType
  d_row-fits nil t h = absurd h
  d_row-fits (cons p rest) t h = d_pattern-fits p rest h.1

  pub d_specialize-fits :
      (m : Matrix) (t : TypeId) → MatrixFits db m (t ∷ ts) → MatrixFits db (d_specialize m) ts
  unfolding d_specialize
  d_specialize-fits [] t h = tt
  d_specialize-fits (row ∷ rows) t h =
      All-append (λ row. FitTypes db row ts) (d_row row) (d_specialize rows) (d_row-fits row t h.0)
        (d_specialize-fits rows t h.1)
