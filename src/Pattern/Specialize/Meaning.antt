-- ===== src/Pattern/Specialize/Meaning.antt =====
-- What the specialized rows match: the values under a constructor, and the values under none of
-- the constructors of the column.
use fe.Prelude.{
  suc, ◌≡◌, refl, ap, ◌∙◌, inl, inr, false, ◌&&◌, Option, List, [], ◌∷◌, ◌++◌, arith, length,
  any-append, All, ||_false_split, Bool-cases, if◌then◌else◌,
}
use fe.Types.{TypeId, AnalyzerDb}
use fe.Pattern.Constructor.{ConstructorKind, ctor_eq, ctor_eq→eq, field_types}
use fe.Pattern.Syntax.{
  Pattern, Patterns, wildcard, constructor, or, nil, cons, Row, Matrix, Bind, len, append,
  wildcards, collect_ctors, collect_all,
}
use fe.Pattern.Specialize.{
  phi_pattern, phi_alternatives, phi_row, phi_specialize, d_pattern, d_alternatives, d_row,
  d_specialize,
}
use fe.Pattern.Sigma.{contains, contains-append, column_ctors, contains-from_rows, from_rows}
use fe.Pattern.Value.{
  Value, Values, build, opaque, empty, field, append_values, count_values, matches, matches_row,
  matches_any, covered, HasType, HaveTypes, FitsType, FitTypes, AllFit,
}

pub len-FitTypes :
    (db : AnalyzerDb) (ps : Patterns) (ts : List TypeId) → FitTypes db ps ts → len ps ≡ length ts
unfolding FitsType
len-FitTypes db nil [] h = refl
len-FitTypes db nil (t ∷ ts) h = absurd h
len-FitTypes db (cons p ps) [] h = absurd h
len-FitTypes db (cons p ps) (t ∷ ts) h = ap suc (len-FitTypes db ps ts h.1)

pub count-HaveTypes :
    (db : AnalyzerDb) (vs : Values) (ts : List TypeId)
    → HaveTypes db vs ts
    → count_values vs ≡ length ts
unfolding HasType
count-HaveTypes db empty [] h = refl
count-HaveTypes db empty (t ∷ ts) h = absurd h
count-HaveTypes db (field v vs) [] h = absurd h
count-HaveTypes db (field v vs) (t ∷ ts) h = ap suc (count-HaveTypes db vs ts h.1)

pub matches_row-append :
    (fs rest : Patterns) (vs ws : Values)
    → len fs ≡ count_values vs
    → matches_row (append fs rest) (append_values vs ws)
      ≡ (matches_row fs vs && matches_row rest ws)
unfolding matches
matches_row-append nil rest empty ws h = refl
matches_row-append nil rest (field v vs) ws h = absurd (omega arith)
matches_row-append (cons p ps) rest empty ws h = absurd (omega arith)
matches_row-append (cons p ps) rest (field v vs) ws h =
    ground (arith, matches_row-append ps rest vs ws (omega arith))

pub matches_row-wildcards :
    (b : Option Bind) (ts : List TypeId) (rest : Patterns) (vs ws : Values)
    → length ts ≡ count_values vs
    → matches_row (append (wildcards b ts) rest) (append_values vs ws) ≡ matches_row rest ws
unfolding matches wildcards
matches_row-wildcards b [] rest empty ws h = refl
matches_row-wildcards b [] rest (field v vs) ws h = absurd (omega arith)
matches_row-wildcards b (t ∷ ts) rest empty ws h = absurd (omega arith)
matches_row-wildcards b (t ∷ ts) rest (field v vs) ws h =
    matches_row-wildcards b ts rest vs ws (omega arith)

module _ (db : AnalyzerDb) (c : ConstructorKind) (vs ws : Values)
    (counted : length (field_types db c) ≡ count_values vs) where
  phi-constructor :
      (k : ConstructorKind) (fs rest : Patterns)
      → FitTypes db fs (field_types db k)
      → covered (if ctor_eq k c then append fs rest ∷ [] else []) (append_values vs ws)
        ≡ (ctor_eq k c && matches_row fs vs && matches_row rest ws)
  phi-constructor k fs rest h = elim (Bool-cases (ctor_eq k c)) [
    | inl same ↦
        let fit : len fs ≡ count_values vs =
          len-FitTypes db fs (field_types db k) h
          ∙ ap (λ x. length (field_types db x)) (ctor_eq→eq k c same)
          ∙ counted in
        rw same (ground (arith, matches_row-append fs rest vs ws fit))
    | inr differ ↦ rw differ refl
  ]

  mutual
    unfolding matches phi_pattern FitsType

    phi_pattern-covered :
        (p : Pattern) (rest : Row) (t : TypeId)
        → FitsType db p t
        → covered (phi_pattern db c p rest) (append_values vs ws)
          ≡ (matches p (build c vs) && matches_row rest ws)
    phi_pattern-covered (wildcard b t') rest t h =
        ground (arith, matches_row-wildcards b (field_types db c) rest vs ws counted)
    phi_pattern-covered (constructor k fs t') rest t h =
        ground (arith, phi-constructor k fs rest h.2)
    phi_pattern-covered (or ps t') rest t h = phi_alternatives-covered ps rest t h.1

    phi_alternatives-covered :
        (ps : Patterns) (rest : Row) (t : TypeId)
        → AllFit db ps t
        → covered (phi_alternatives db c ps rest) (append_values vs ws)
          ≡ (matches_any ps (build c vs) && matches_row rest ws)
    phi_alternatives-covered nil rest t h = refl
    phi_alternatives-covered (cons p ps) rest t h =
        rw any-append
          (ground (arith, phi_pattern-covered p rest t h.0, phi_alternatives-covered ps rest t h.1))

-- The rows of a matrix fit the types of its columns.
abbrev pub MatrixFits : AnalyzerDb → Matrix → List TypeId → Type 0
MatrixFits db m ts = All (λ row. FitTypes db row ts) m

module _ (db : AnalyzerDb) (c : ConstructorKind) (t : TypeId) (ts : List TypeId) (vs ws : Values)
    (counted : length (field_types db c) ≡ count_values vs) where
  pub phi_row-covered :
      (row : Row)
      → FitTypes db row (t ∷ ts)
      → covered (phi_row db c row) (append_values vs ws) ≡ matches_row row (field (build c vs) ws)
  unfolding phi_row matches FitsType
  phi_row-covered nil h = absurd h
  phi_row-covered (cons p rest) h = phi_pattern-covered db c vs ws counted p rest t h.0

  -- On a value under a constructor, the matrix specialized to the constructor covers the
  -- constructor's arguments and the other columns exactly when the typed matrix covers the value
  -- and the other columns.
  pub phi_specialize-covered :
      (m : Matrix)
      → MatrixFits db m (t ∷ ts)
      → covered (phi_specialize db c m) (append_values vs ws) ≡ covered m (field (build c vs) ws)
  unfolding phi_specialize
  phi_specialize-covered [] h = refl
  phi_specialize-covered (row ∷ rows) h =
      rw any-append (ground (arith, phi_row-covered row h.0, phi_specialize-covered rows h.1))

-- The value is built by none of the constructors.
abbrev pub Avoids : List ConstructorKind → Value → Type 0
Avoids cs (opaque n) = Unit
Avoids cs (build d vs) = contains cs d ≡ false

pub Avoids-append :
    (cs ds : List ConstructorKind) (v : Value) → Avoids (cs ++ ds) v → Avoids cs v × Avoids ds v
Avoids-append cs ds (opaque n) h = (tt, tt)
Avoids-append cs ds (build d vs) h =
    ||_false_split (contains cs d) (contains ds d) (rw contains-append at h)

constructor_avoided :
    (k : ConstructorKind) (fs : Patterns) (t : TypeId) (rest : Row) (v : Value) (ws : Values)
    → Avoids (k ∷ []) v
    → false ≡ (matches (constructor k fs t) v && matches_row rest ws)
unfolding matches contains
constructor_avoided k fs t rest (opaque n) ws h = refl
constructor_avoided k fs t rest (build d vs) ws h = ground arith

module _ (v : Value) (ws : Values) where
  mutual
    unfolding matches d_pattern collect_ctors

    d_pattern-covered :
        (p : Pattern) (rest : Row)
        → Avoids (collect_ctors p) v
        → covered (d_pattern p rest) ws ≡ (matches p v && matches_row rest ws)
    d_pattern-covered (wildcard b t') rest h = ground arith
    d_pattern-covered (constructor k fs t') rest h = constructor_avoided k fs t' rest v ws h
    d_pattern-covered (or ps t') rest h = d_alternatives-covered ps rest h

    d_alternatives-covered :
        (ps : Patterns) (rest : Row)
        → Avoids (collect_all ps) v
        → covered (d_alternatives ps rest) ws ≡ (matches_any ps v && matches_row rest ws)
    d_alternatives-covered nil rest h = refl
    d_alternatives-covered (cons p ps) rest h =
        let a = Avoids-append (collect_ctors p) (collect_all ps) v h in
        rw any-append
          (ground (arith, d_pattern-covered p rest a.0, d_alternatives-covered ps rest a.1))

  pub d_row-covered :
      (p : Pattern) (rest : Row)
      → Avoids (collect_ctors p) v
      → covered (d_row (cons p rest)) ws ≡ matches_row (cons p rest) (field v ws)
  unfolding d_row matches
  d_row-covered p rest h = d_pattern-covered p rest h

pub d_specialize-column_ctors-covered :
    (db : AnalyzerDb) (m : Matrix) (t : TypeId) (ts : List TypeId) (v : Value) (ws : Values)
    → MatrixFits db m (t ∷ ts)
    → Avoids (column_ctors m 0) v
    → covered (d_specialize m) ws ≡ covered m (field v ws)
unfolding d_specialize FitsType column_ctors
d_specialize-column_ctors-covered db [] t ts v ws h a = refl
d_specialize-column_ctors-covered db (nil ∷ rows) t ts v ws h a = absurd h.0
d_specialize-column_ctors-covered db (cons p rest ∷ rows) t ts v ws h a =
    let s = Avoids-append (collect_ctors p) (column_ctors rows 0) v a in
    rw any-append (
      ground (
        arith,
        d_row-covered v ws p rest s.0,
        d_specialize-column_ctors-covered db rows t ts v ws h.1 s.1,
      ))

-- On a value that no constructor of the first column builds, the default matrix covers the other
-- columns exactly when the typed matrix covers the whole row.
pub d_specialize-covered :
    (db : AnalyzerDb) (m : Matrix) (t : TypeId) (ts : List TypeId) (v : Value) (ws : Values)
    → MatrixFits db m (t ∷ ts)
    → Avoids (from_rows m 0) v
    → covered (d_specialize m) ws ≡ covered m (field v ws)
d_specialize-covered db m t ts (opaque n) ws h a =
    d_specialize-column_ctors-covered db m t ts (opaque n) ws h tt
d_specialize-covered db m t ts (build d vs) ws h a =
    d_specialize-column_ctors-covered db m t ts (build d vs) ws h (rw contains-from_rows at a)
