-- ===== src/Pattern/Exhaustive/Sound.antt =====
-- A `find_non_exhaustiveness` that finds nothing against the values that the matrix covers.
use fe.Prelude.{
  ℕ, zero, suc, ◌≡◌, refl, sym, ◌∙◌, true, ◌&&◌, Option, none, some, List, [], ◌∷◌, ◌++◌, arith,
  any-append, Bool-cases, inl, inr,
}
use fe.Prelude.Outcome.{Outcome, out_of_fuel, panicked, returned, ◌>>=◌}
use fe.Types.{TypeId, Base, TypeKind, AnalyzerDb, typ}
use fe.Pattern.Constructor.{ConstructorKind, ctor_eq, ctor_eq→eq, field_types}
use fe.Pattern.Syntax.{Pattern, Patterns, wildcard, constructor, or, nil, cons, Row, Matrix, ty_of}
use fe.Pattern.Specialize.{phi_specialize, d_pattern, d_alternatives, d_row, d_specialize}
use fe.Pattern.Specialize.Meaning.{MatrixFits, count-HaveTypes, phi_specialize-covered}
use fe.Pattern.Specialize.Typing.{phi_specialize-fits, d_specialize-fits}
use fe.Pattern.Sigma.{SigmaSet, contains, from_rows, is_complete}
use fe.Pattern.Sigma.Index.{HaveCtors}
use fe.Pattern.Sigma.Column.{from_rows-DistinctCtors, from_rows-HaveCtors}
use fe.Pattern.Sigma.Complete.{contains_of_complete}
use fe.Pattern.Value.{
  Value, Values, build, opaque, empty, field, append_values, matches, matches_row, matches_any,
  covered, HasCtorKind, IsOpaqueKind, HasType, HaveTypes, FitsType,
}
use fe.Pattern.Exhaustive.{
  find_in_ctors, find_in_default, find_in_column, find_non_exhaustiveness, rebuild, missing_pattern,
}

-- The rows of the default matrix stand for wildcards: under any value they match what the matrix
-- matches.
module _ (v : Value) (ws : Values) where
  mutual
    unfolding matches d_pattern

    d_pattern_sound :
        (p : Pattern) (rest : Row)
        → covered (d_pattern p rest) ws ≡ true
        → (matches p v && matches_row rest ws) ≡ true
    d_pattern_sound (wildcard b t) rest h = ground arith
    d_pattern_sound (constructor c fs t) rest h = cc
    d_pattern_sound (or ps t) rest h = d_alternatives_sound ps rest h

    d_alternatives_sound :
        (ps : Patterns) (rest : Row)
        → covered (d_alternatives ps rest) ws ≡ true
        → (matches_any ps v && matches_row rest ws) ≡ true
    d_alternatives_sound nil rest h = cc
    d_alternatives_sound (cons p ps) rest h = ground (
      arith,
      any-append (λ row. matches_row row ws) (d_pattern p rest) (d_alternatives ps rest),
      d_pattern_sound p rest,
      d_alternatives_sound ps rest,
    )

  pub d_specialize_sound :
      (m : Matrix) → covered (d_specialize m) ws ≡ true → covered m (field v ws) ≡ true
  unfolding d_specialize d_row matches
  d_specialize_sound [] h = h
  d_specialize_sound (nil ∷ rows) h = refl
  d_specialize_sound (cons p rest ∷ rows) h = ground (
    arith,
    any-append (λ row. matches_row row ws) (d_pattern p rest) (d_specialize rows),
    d_pattern_sound p rest,
    d_specialize_sound rows,
  )

pub opaque_without_ctors :
    (db : AnalyzerDb) (t : TypeId) (k : TypeKind) (c : ConstructorKind)
    → IsOpaqueKind k
    → HasCtorKind db t k c
    → ⊥
opaque_without_ctors db t (TypeKind.enum e) c o h = o
opaque_without_ctors db t (TypeKind.tuple items) c o h = o
opaque_without_ctors db t (TypeKind.struct s) c o h = o
opaque_without_ctors db t (TypeKind.base Base.bool) c o h = o
opaque_without_ctors db t _ c o h = h

pub ty_of-FitsType : (db : AnalyzerDb) (p : Pattern) (t : TypeId) → FitsType db p t → ty_of p ≡ t
unfolding ty_of FitsType
ty_of-FitsType db (wildcard b t') t h = h
ty_of-FitsType db (constructor c fs t') t h = h.0
ty_of-FitsType db (or ps t') t h = h.0

module _ (find : Matrix → Outcome (Option Patterns)) (db : AnalyzerDb) (m : Matrix)
    (t : TypeId) where
  rebuild-ne-none : (c : ConstructorKind) (w : Patterns) → rebuild db c t w ≡ returned none → ⊥
  unfolding rebuild
  rebuild-ne-none c nil h = cc
  rebuild-ne-none c (cons p ps) h = ground arith

  loop-none :
      (c : ConstructorKind) (found rest : Outcome (Option Patterns))
      → (found >>= λ r. elim r [ none ↦ rest | some w ↦ rebuild db c t w ]) ≡ returned none
      → (found ≡ returned none) × (rest ≡ returned none)
  loop-none c out_of_fuel rest h = cc
  loop-none c panicked rest h = cc
  loop-none c (returned none) rest h = (refl, h)
  loop-none c (returned (some w)) rest h = absurd (rebuild-ne-none c w h)

  -- The loop over the constructors ends with nothing only if each of them had nothing.
  find_in_ctors-none :
      (s : SigmaSet) (c : ConstructorKind)
      → find_in_ctors find db m t s ≡ returned none
      → contains s c ≡ true
      → find (phi_specialize db c m) ≡ returned none
  unfolding find_in_ctors contains
  find_in_ctors-none [] c h k = cc
  find_in_ctors-none (d ∷ ds) c h k =
      let (hit, rest) =
        loop-none d (find (phi_specialize db d m)) (find_in_ctors find db m t ds) h in
      elim (Bool-cases (ctor_eq d c)) [
        | inl same ↦ rw (← ctor_eq→eq d c same) hit
        | inr differ ↦ find_in_ctors-none ds c rest (ground arith)
      ]

  find_in_default-none :
      (s : SigmaSet)
      → find_in_default find db m t s ≡ returned none
      → find (d_specialize m) ≡ returned none
  unfolding find_in_default
  find_in_default-none s h = go (find (d_specialize m)) h
    where
      go :
          (r : Outcome (Option Patterns))
          → (r >>= λ found. elim found [
            | none ↦ returned none
            | some w ↦ missing_pattern db t s >>= λ p. returned (some (cons p w))
          ])
            ≡ returned none
          → r ≡ returned none
      go out_of_fuel g = g
      go panicked g = g
      go (returned none) g = refl
      go (returned (some w)) g = ground arith

opaque_incomplete :
    (db : AnalyzerDb) (t : TypeId) (s : SigmaSet)
    → IsOpaqueKind (typ db t)
    → is_complete db s ≡ true
    → HaveCtors db t s
    → ⊥
unfolding is_complete
opaque_incomplete db t [] o full h = cc
opaque_incomplete db t (c ∷ cs) o full h = opaque_without_ctors db t (typ db t) c o h.0

-- A typed value is built by one of the constructors of a complete set.
pub built_by_contained :
    (db : AnalyzerDb) (m : Matrix) (t : TypeId) (ts : List TypeId) (v : Value)
    → MatrixFits db m (t ∷ ts)
    → HasType db v t
    → is_complete db (from_rows m 0) ≡ true
    → (d : ConstructorKind) × (ws : Values) × (v ≡ build d ws)
      × (contains (from_rows m 0) d ≡ true)
      × HaveTypes db ws (field_types db d)
unfolding HasType
built_by_contained db m t ts (build d ws) h hv full = (
  d,
  ws,
  refl,
  contains_of_complete db t (from_rows m 0) d full (from_rows-HaveCtors db t m ts h)
      (from_rows-DistinctCtors m 0) hv.0,
  hv.1,
)
built_by_contained db m t ts (opaque n) h hv full =
    absurd (opaque_incomplete db t (from_rows m 0) hv full (from_rows-HaveCtors db t m ts h))

pub append-HaveTypes :
    (db : AnalyzerDb) (vs ws : Values) (ts us : List TypeId)
    → HaveTypes db vs ts
    → HaveTypes db ws us
    → HaveTypes db (append_values vs ws) (ts ++ us)
unfolding HasType
append-HaveTypes db empty ws [] us h k = k
append-HaveTypes db empty ws (t ∷ ts) us h k = absurd h
append-HaveTypes db (field v vs) ws [] us h k = absurd h
append-HaveTypes db (field v vs) ws (t ∷ ts) us h k = (h.0, append-HaveTypes db vs ws ts us h.1 k)

column_sound :
    (db : AnalyzerDb) (find : Matrix → Outcome (Option Patterns)) (m : Matrix) (t t' : TypeId)
    (ts : List TypeId) (v : Value) (vs : Values)
    → MatrixFits db m (t ∷ ts)
    → HasType db v t
    → HaveTypes db vs ts
    → ((m' : Matrix) (ts' : List TypeId) (vs' : Values)
        → MatrixFits db m' ts'
        → HaveTypes db vs' ts'
        → find m' ≡ returned none
        → covered m' vs' ≡ true)
    → find_in_column find db m t' ≡ returned none
    → covered m (field v vs) ≡ true
unfolding find_in_column
column_sound db find m t t' ts v vs h hv hvs ih e =
    elim (Bool-cases (is_complete db (from_rows m 0))) [
      | inl full ↦
          let (d, ws, built, has, hws) = built_by_contained db m t ts v h hv full in
          let none_found = find_in_ctors-none find db m t' (from_rows m 0) d (rw full at e) has in
          let counted = sym (count-HaveTypes db ws (field_types db d) hws) in
          rw built (
            sym (phi_specialize-covered db d t ts ws vs counted m h)
            ∙ ih (phi_specialize db d m) (field_types db d ++ ts) (append_values ws vs)
                (phi_specialize-fits db d ts m t h)
                (append-HaveTypes db ws vs (field_types db d) ts hws hvs) none_found)
      | inr part ↦ d_specialize_sound v vs m (
          ih (d_specialize m) ts vs (d_specialize-fits db ts m t h) hvs
            (find_in_default-none find db m t' (from_rows m 0) (rw part at e)))
    ]

-- If `find_non_exhaustiveness` finds nothing in a typed matrix, every row of values of the
-- columns' types matches some row of it.
pub find_sound :
    (db : AnalyzerDb) (fuel : ℕ) (m : Matrix) (ts : List TypeId) (vs : Values)
    → MatrixFits db m ts
    → HaveTypes db vs ts
    → find_non_exhaustiveness db fuel m ≡ returned none
    → covered m vs ≡ true
unfolding find_non_exhaustiveness FitsType HasType
find_sound db zero m ts vs h hv e = cc
find_sound db (suc fuel) [] ts vs h hv e = ground arith
find_sound db (suc fuel) (nil ∷ rows) ts vs h hv e = unfold matches in refl
find_sound db (suc fuel) (cons p rest ∷ rows) [] vs h hv e = absurd h.0
find_sound db (suc fuel) (cons p rest ∷ rows) (t ∷ ts) empty h hv e = absurd hv
find_sound db (suc fuel) (cons p rest ∷ rows) (t ∷ ts) (field v vs) h hv e =
    column_sound db (find_non_exhaustiveness db fuel) (cons p rest ∷ rows) t (ty_of p) ts v vs h
      hv.0 hv.1 (λ m' ts' vs' h' hv' e'. find_sound db fuel m' ts' vs' h' hv' e') e
