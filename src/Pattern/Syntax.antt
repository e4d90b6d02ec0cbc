-- ===== src/Pattern/Syntax.antt =====
-- `SimplifiedPattern`, `SimplifiedPatternKind` and `PatternRowVec` of pattern_analysis.rs.
-- A `Vec<SimplifiedPattern>` is a list of the same block, `Patterns`.
use fe.Prelude.{ℕ, suc, String, Bool, true, false, Option, none, List, [], ◌∷◌, ◌++◌}
use fe.Types.{TypeId, AnalyzerDb}
use fe.Pattern.Constructor.{ConstructorKind, field_types}

-- A variable of a pattern and the index of its arm.
abbrev pub Bind : Type 0
Bind = String × ℕ

mutual
  pub data Pattern : Type 0 where
    wildcard : Option Bind → TypeId → Pattern
    constructor : ConstructorKind → Patterns → TypeId → Pattern
    or : Patterns → TypeId → Pattern

  pub data Patterns : Type 0 where
    nil : Patterns
    cons : Pattern → Patterns → Patterns

-- A `PatternRowVec`, and the rows of a `PatternMatrix`.
abbrev pub Row : Type 0
Row = Patterns

abbrev pub Matrix : Type 0
Matrix = List Row

abbrev pub len : Patterns → ℕ
len nil = 0
len (cons p ps) = suc (len ps)

-- `extend_from_slice`
abbrev pub append : Patterns → Patterns → Patterns
append nil qs = qs
append (cons p ps) qs = cons p (append ps qs)

unfoldable pub ty_of : Pattern → TypeId
ty_of (wildcard b t) = t
ty_of (constructor c fs t) = t
ty_of (or ps t) = t

unfoldable pub is_wildcard : Pattern → Bool
is_wildcard (wildcard b t) = true
is_wildcard (constructor c fs t) = false
is_wildcard (or ps t) = false

-- `SimplifiedPatternKind::collect_ctors`
unfoldable mutual
  pub collect_ctors : Pattern → List ConstructorKind
  collect_ctors (wildcard b t) = []
  collect_ctors (constructor c fs t) = c ∷ []
  collect_ctors (or ps t) = collect_all ps

  pub collect_all : Patterns → List ConstructorKind
  collect_all nil = []
  collect_all (cons p ps) = collect_ctors p ++ collect_all ps

-- One wildcard for each field, with the binding of the wildcard that they stand for.
unfoldable pub wildcards : Option Bind → List TypeId → Patterns
wildcards b [] = nil
wildcards b (t ∷ ts) = cons (wildcard b t) (wildcards b ts)

-- `SimplifiedPatternKind::ctor_with_wild_card_fields`, as a pattern of type `t`
unfoldable pub ctor_with_wild_card_fields : AnalyzerDb → ConstructorKind → TypeId → Pattern
ctor_with_wild_card_fields db c t = constructor c (wildcards none (field_types db c)) t
