-- ===== src/Pattern/Sigma.antt =====
-- `SigmaSet` of pattern_analysis.rs. An `IndexSet` is a list in the order of insertion, each item
-- once.
pub mod Index
pub mod Column
pub mod Complete
use fe.Prelude.{
  ℕ, zero, suc, ◌≡◌, Bool, true, false, not, List, [], ◌∷◌, ◌++◌, ◌==◌, length, any, any-append,
  Bool-cases, inl, inr, ◌∙◌, arith, ◌||◌, refl, ap, if◌then◌else◌,
}
use fe.Types.{TypeId, EnumId, Base, TypeKind, AnalyzerDb, typ}
use fe.Pattern.Constructor.{
  ConstructorKind, enum, tuple, struct, literal, ctor_eq, ctor_eq→eq, ctor_eq_refl,
  ctor_variant_num,
}
use fe.Prelude.Outcome.{Outcome, panicked, returned}
use fe.Pattern.Syntax.{Pattern, Patterns, nil, cons, Row, Matrix, collect_ctors}

abbrev pub SigmaSet : Type 0
SigmaSet = List ConstructorKind

unfoldable pub contains : SigmaSet → ConstructorKind → Bool
contains s c = any (λ d. ctor_eq d c) s

unfoldable pub insert : SigmaSet → ConstructorKind → SigmaSet
unfolding contains
insert s c = if contains s c then s else s ++ c ∷ []

unfoldable pub insert_all : SigmaSet → List ConstructorKind → SigmaSet
insert_all s [] = s
insert_all s (c ∷ cs) = insert_all (insert s c) cs

-- `PatternRowVec::collect_column_ctors`; out of bounds there is nothing to collect.
unfoldable pub collect_column_ctors : Row → ℕ → List ConstructorKind
unfolding collect_ctors
collect_column_ctors nil i = []
collect_column_ctors (cons p ps) zero = collect_ctors p
collect_column_ctors (cons p ps) (suc i) = collect_column_ctors ps i

unfoldable pub insert_rows : SigmaSet → Matrix → ℕ → SigmaSet
insert_rows s [] column = s
insert_rows s (row ∷ rows) column =
    insert_rows (insert_all s (collect_column_ctors row column)) rows column

-- `SigmaSet::from_rows`
unfoldable pub from_rows : Matrix → ℕ → SigmaSet
unfolding insert_rows insert_all
from_rows rows column = insert_rows [] rows column

unfoldable pub is_complete : AnalyzerDb → SigmaSet → Bool
is_complete db [] = false
is_complete db (c ∷ cs) = length (c ∷ cs) == ctor_variant_num db c

abbrev variants_from : EnumId → ℕ → ℕ → SigmaSet
variants_from e i zero = []
variants_from e i (suc n) = enum e i ∷ variants_from e (suc i) n

-- `SigmaSet::complete_sigma`; `unimplemented!()` on types with no listed constructors.
unfoldable pub complete_sigma : AnalyzerDb → TypeId → Outcome SigmaSet
complete_sigma db t = elim (typ db t) [
  | TypeKind.enum e ↦ returned (variants_from e 0 (length (db.enum_variants e)))
  | TypeKind.tuple items ↦ returned (tuple t ∷ [])
  | TypeKind.base b ↦ elim b [
    | Base.bool ↦ returned (literal true t ∷ literal false t ∷ [])
    | _ ↦ panicked
  ]
  | _ ↦ panicked
]

unfoldable pub difference : SigmaSet → SigmaSet → SigmaSet
difference [] other = []
difference (c ∷ cs) other =
    let rest = difference cs other in if contains other c then rest else c ∷ rest

pub contains-append :
    (s r : SigmaSet) (c : ConstructorKind) → contains (s ++ r) c ≡ (contains s c || contains r c)
unfolding contains
contains-append s r c = any-append (λ d. ctor_eq d c) s r

-- What a set contains makes no difference when it is added.
contains_again :
    (s : SigmaSet) (c d : ConstructorKind)
    → contains s c ≡ true
    → contains s d ≡ (contains s d || ctor_eq c d)
contains_again s c d old = elim (Bool-cases (ctor_eq c d)) [
  | inl same ↦ rw (same, ← ctor_eq→eq c d same) (ground arith)
  | inr differ ↦ rw differ (ground arith)
]

pub contains-insert :
    (s : SigmaSet) (c d : ConstructorKind) → contains (insert s c) d ≡ (contains s d || ctor_eq c d)
unfolding insert
contains-insert s c d = elim (Bool-cases (contains s c)) [
  | inl old ↦ rw old (contains_again s c d old)
  | inr new ↦ rw (new, contains-append s (c ∷ []) d) (unfold contains in ground arith)
]

pub contains-insert_all :
    (s : SigmaSet) (cs : List ConstructorKind) (d : ConstructorKind)
    → contains (insert_all s cs) d ≡ (contains s d || contains cs d)
unfolding insert_all
contains-insert_all s [] d = unfold contains in ground arith
contains-insert_all s (c ∷ cs) d =
    contains-insert_all (insert s c) cs d ∙ rw contains-insert (unfold contains in ground arith)

-- The constructors in a column, row by row.
unfoldable pub column_ctors : Matrix → ℕ → List ConstructorKind
unfolding collect_column_ctors
column_ctors [] column = []
column_ctors (row ∷ rows) column = collect_column_ctors row column ++ column_ctors rows column

pub contains-insert_rows :
    (s : SigmaSet) (rows : Matrix) (column : ℕ) (d : ConstructorKind)
    → contains (insert_rows s rows column) d
      ≡ (contains s d || contains (column_ctors rows column) d)
unfolding insert_rows column_ctors
contains-insert_rows s [] column d = unfold contains in ground arith
contains-insert_rows s (row ∷ rows) column d =
    contains-insert_rows (insert_all s (collect_column_ctors row column)) rows column d
    ∙ rw
        (
          contains-insert_all s (collect_column_ctors row column) d,
          contains-append (collect_column_ctors row column) (column_ctors rows column) d,
        )
        (ground arith)

-- The set of a column holds the column's constructors and no others.
pub contains-from_rows :
    (rows : Matrix) (column : ℕ) (d : ConstructorKind)
    → contains (from_rows rows column) d ≡ contains (column_ctors rows column) d
unfolding contains
contains-from_rows rows column d = unfold from_rows in contains-insert_rows [] rows column d
