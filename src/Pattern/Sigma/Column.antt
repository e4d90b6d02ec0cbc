-- ===== src/Pattern/Sigma/Column.antt =====
-- The constructors of a column, as `SigmaSet::from_rows` collects them.
use fe.Prelude.{
  ℕ, ◌≡◌, refl, false, List, [], ◌∷◌, ◌++◌, arith, All-append, ||_false_split, Bool-cases, inl, inr,
}
use fe.Types.{TypeId, AnalyzerDb}
use fe.Pattern.Constructor.{ConstructorKind, ctor_eq, ctor_eq_sym}
use fe.Pattern.Syntax.{
  Pattern, Patterns, wildcard, constructor, or, nil, cons, Matrix, collect_ctors, collect_all,
}
use fe.Pattern.Value.{HasCtor, FitsType, AllFit}
use fe.Pattern.Sigma.{
  SigmaSet, contains, insert, insert_all, insert_rows, from_rows, collect_column_ctors,
  contains-append,
}
use fe.Pattern.Specialize.Meaning.{MatrixFits}
use fe.Pattern.Sigma.Index.{HaveCtors}

abbrev pub DistinctCtors : SigmaSet → Type 0
DistinctCtors [] = Unit
DistinctCtors (c ∷ cs) = (contains cs c ≡ false) × DistinctCtors cs

fresh_snoc :
    (ds : SigmaSet) (c d : ConstructorKind)
    → contains ds d ≡ false
    → ctor_eq d c ≡ false
    → contains (ds ++ c ∷ []) d ≡ false
fresh_snoc ds c d old ne =
    rw (contains-append ds (c ∷ []) d, old) (unfold contains in ground (arith, ctor_eq_sym c d))

DistinctCtors-snoc :
    (s : SigmaSet) (c : ConstructorKind)
    → DistinctCtors s
    → contains s c ≡ false
    → DistinctCtors (s ++ c ∷ [])
unfolding contains
DistinctCtors-snoc [] c h new = (refl, tt)
DistinctCtors-snoc (d ∷ ds) c h new =
    let n = ||_false_split (ctor_eq d c) (contains ds c) new in
    (fresh_snoc ds c d h.0 n.0, DistinctCtors-snoc ds c h.1 n.1)

pub insert_all-DistinctCtors :
    (s : SigmaSet) (cs : List ConstructorKind) → DistinctCtors s → DistinctCtors (insert_all s cs)
unfolding insert_all insert
insert_all-DistinctCtors s [] h = h
insert_all-DistinctCtors s (c ∷ cs) h = elim (Bool-cases (contains s c)) [
  | inl old ↦ rw old (insert_all-DistinctCtors s cs h)
  | inr new ↦ rw new (insert_all-DistinctCtors (s ++ c ∷ []) cs (DistinctCtors-snoc s c h new))
]

insert_rows-DistinctCtors :
    (s : SigmaSet) (m : Matrix) (column : ℕ)
    → DistinctCtors s
    → DistinctCtors (insert_rows s m column)
unfolding insert_rows
insert_rows-DistinctCtors s [] column h = h
insert_rows-DistinctCtors s (row ∷ rows) column h =
    insert_rows-DistinctCtors (insert_all s (collect_column_ctors row column)) rows column
      (insert_all-DistinctCtors s (collect_column_ctors row column) h)

pub from_rows-DistinctCtors : (m : Matrix) (column : ℕ) → DistinctCtors (from_rows m column)
unfolding from_rows
from_rows-DistinctCtors m column = insert_rows-DistinctCtors [] m column tt

module _ (db : AnalyzerDb) (t : TypeId) where
  mutual
    unfolding collect_ctors FitsType

    collect_ctors-HaveCtors : (p : Pattern) → FitsType db p t → HaveCtors db t (collect_ctors p)
    collect_ctors-HaveCtors (wildcard b t') h = tt
    collect_ctors-HaveCtors (constructor c fs t') h = (h.1, tt)
    collect_ctors-HaveCtors (or ps t') h = collect_all-HaveCtors ps h.1

    collect_all-HaveCtors : (ps : Patterns) → AllFit db ps t → HaveCtors db t (collect_all ps)
    collect_all-HaveCtors nil h = tt
    collect_all-HaveCtors (cons p ps) h =
        All-append (HasCtor db t) (collect_ctors p) (collect_all ps) (collect_ctors-HaveCtors p h.0)
          (collect_all-HaveCtors ps h.1)

  insert_all-HaveCtors :
      (s : SigmaSet) (cs : List ConstructorKind)
      → HaveCtors db t s
      → HaveCtors db t cs
      → HaveCtors db t (insert_all s cs)
  unfolding insert_all insert
  insert_all-HaveCtors s [] h k = h
  insert_all-HaveCtors s (c ∷ cs) h k = elim (Bool-cases (contains s c)) [
    | inl old ↦ rw old (insert_all-HaveCtors s cs h k.1)
    | inr new ↦ rw new (
        insert_all-HaveCtors (s ++ c ∷ []) cs (All-append (HasCtor db t) s (c ∷ []) h (k.0, tt))
          k.1)
  ]

  insert_rows-HaveCtors :
      (s : SigmaSet) (m : Matrix) (ts : List TypeId)
      → HaveCtors db t s
      → MatrixFits db m (t ∷ ts)
      → HaveCtors db t (insert_rows s m 0)
  unfolding insert_rows collect_column_ctors FitsType
  insert_rows-HaveCtors s [] ts h k = h
  insert_rows-HaveCtors s (nil ∷ rows) ts h k = absurd k.0
  insert_rows-HaveCtors s (cons p rest ∷ rows) ts h k =
      insert_rows-HaveCtors (insert_all s (collect_ctors p)) rows ts
        (insert_all-HaveCtors s (collect_ctors p) h (collect_ctors-HaveCtors p k.0.0)) k.1

  pub from_rows-HaveCtors :
      (m : Matrix) (ts : List TypeId) → MatrixFits db m (t ∷ ts) → HaveCtors db t (from_rows m 0)
  unfolding from_rows
  from_rows-HaveCtors m ts h = insert_rows-HaveCtors [] m ts tt h
