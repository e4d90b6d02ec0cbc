-- ===== src/DecisionTree/Generalize.antt =====
-- `generalize_pattern` against the types and the values of patterns.
use fe.Prelude.{
  ℕ, ◌≡◌, refl, ap, ◌∙◌, Bool, true, false, ◌&&◌, ◌||◌, List, [], ◌∷◌, arith, Bool-cases, inl, inr,
  if◌then◌else◌,
}
use fe.Types.{TypeId, AnalyzerDb}
use fe.Pattern.Constructor.{ctor_eq, field_types}
use fe.Pattern.Syntax.{Pattern, Patterns, wildcard, constructor, or, nil, cons, is_wildcard}
use fe.Pattern.Value.{
  Value, Values, build, opaque, empty, field, matches, matches_row, matches_any, FitsType, FitTypes,
  AllFit,
}
use fe.DecisionTree.{collapse, generalize_pattern, generalize_fields, generalize_alternatives}

wildcard-matches : (p : Pattern) (v : Value) → is_wildcard p ≡ true → matches p v ≡ true
unfolding is_wildcard matches
wildcard-matches (wildcard b t) v h = refl
wildcard-matches (constructor c fs t) v h = cc
wildcard-matches (or ps t) v h = cc

matches-collapse :
    (ps : Patterns) (t : ℕ) (v : Value) → matches (collapse ps t) v ≡ matches_any ps v
unfolding matches collapse
matches-collapse nil t v = refl
matches-collapse (cons p nil) t v = ground arith
matches-collapse (cons p (cons q qs)) t v = refl

alternatives_step :
    (g p : Pattern) (rest ps : Patterns) (v : Value)
    → matches g v ≡ matches p v
    → matches_any rest v ≡ matches_any ps v
    → matches_any (if is_wildcard g then cons g nil else cons g rest) v
      ≡ (matches p v || matches_any ps v)
unfolding matches
alternatives_step g p rest ps v e e' = elim (Bool-cases (is_wildcard g)) [
  | inl wild ↦ rw wild (ground (arith, wildcard-matches g v wild))
  | inr other ↦ rw other (ground arith)
]

mutual
  unfolding generalize_pattern matches

  matches-generalize : (p : Pattern) (v : Value) → matches (generalize_pattern p) v ≡ matches p v
  matches-generalize (wildcard b t) v = refl
  matches-generalize (constructor c fs t) (build d vs) =
      ap (λ x. ctor_eq c d && x) (matches_row-generalize fs vs)
  matches-generalize (constructor c fs t) (opaque n) = refl
  matches-generalize (or ps t) v =
      matches-collapse (generalize_alternatives ps) t v ∙ matches_any-generalize ps v

  pub matches_row-generalize :
      (ps : Patterns) (vs : Values) → matches_row (generalize_fields ps) vs ≡ matches_row ps vs
  matches_row-generalize nil vs = refl
  matches_row-generalize (cons p ps) empty = refl
  matches_row-generalize (cons p ps) (field v vs) =
      ground (arith, matches-generalize p v, matches_row-generalize ps vs)

  matches_any-generalize :
      (ps : Patterns) (v : Value) → matches_any (generalize_alternatives ps) v ≡ matches_any ps v
  matches_any-generalize nil v = refl
  matches_any-generalize (cons p ps) v =
      alternatives_step (generalize_pattern p) p (generalize_alternatives ps) ps v
        (matches-generalize p v) (matches_any-generalize ps v)

module _ (db : AnalyzerDb) where
  collapse-FitsType : (ps : Patterns) (t : TypeId) → AllFit db ps t → FitsType db (collapse ps t) t
  unfolding FitsType collapse
  collapse-FitsType nil t h = (refl, tt)
  collapse-FitsType (cons p nil) t h = h.0
  collapse-FitsType (cons p (cons q qs)) t h = (refl, h)

  alternatives-AllFit :
      (b : Bool) (g : Pattern) (rest : Patterns) (t : TypeId)
      → FitsType db g t
      → AllFit db rest t
      → AllFit db (if b then cons g nil else cons g rest) t
  unfolding FitsType
  alternatives-AllFit true g rest t h k = (h, tt)
  alternatives-AllFit false g rest t h k = (h, k)

  mutual
    unfolding generalize_pattern FitsType

    generalize-FitsType :
        (p : Pattern) (t : TypeId) → FitsType db p t → FitsType db (generalize_pattern p) t
    generalize-FitsType (wildcard b t') t h = h
    generalize-FitsType (constructor c fs t') t h =
        (h.0, h.1, generalize_fields-FitTypes fs (field_types db c) h.2)
    generalize-FitsType (or ps t') t h =
        rw h.0 (collapse-FitsType (generalize_alternatives ps) t (generalize-AllFit ps t h.1))

    pub generalize_fields-FitTypes :
        (ps : Patterns) (ts : List TypeId)
        → FitTypes db ps ts
        → FitTypes db (generalize_fields ps) ts
    generalize_fields-FitTypes nil [] h = tt
    generalize_fields-FitTypes nil (t ∷ ts) h = absurd h
    generalize_fields-FitTypes (cons p ps) [] h = absurd h
    generalize_fields-FitTypes (cons p ps) (t ∷ ts) h =
        (generalize-FitsType p t h.0, generalize_fields-FitTypes ps ts h.1)

    generalize-AllFit :
        (ps : Patterns) (t : TypeId) → AllFit db ps t → AllFit db (generalize_alternatives ps) t
    generalize-AllFit nil t h = tt
    generalize-AllFit (cons p ps) t h =
        alternatives-AllFit (is_wildcard (generalize_pattern p)) (generalize_pattern p)
          (generalize_alternatives ps) t (generalize-FitsType p t h.0) (generalize-AllFit ps t h.1)

-- `generalize_pattern` keeps the type that a pattern fits, and the values that it matches.
generalize_pattern_lem :
    (db : AnalyzerDb) (p : Pattern) (t : TypeId)
    → FitsType db p t
    → FitsType db (generalize_pattern p) t
      × ((v : Value) → matches (generalize_pattern p) v ≡ matches p v)
generalize_pattern_lem db p t h = (generalize-FitsType db p t h, matches-generalize p)
