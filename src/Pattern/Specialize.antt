-- ===== src/Pattern/Specialize.antt =====
-- `phi_specialize` and `d_specialize` of pattern_analysis.rs, of rows and of matrices.
pub mod Meaning
pub mod Typing
pub mod Measure
use fe.Prelude.{Bool, List, [], ◌∷◌, ◌++◌, if◌then◌else◌}
use fe.Types.{AnalyzerDb}
use fe.Pattern.Constructor.{ConstructorKind, ctor_eq, field_types}
use fe.Pattern.Syntax.{
  Pattern, Patterns, wildcard, constructor, or, nil, cons, Row, Matrix, append, wildcards,
}

-- `PatternRowVec::phi_specialize` on the row that begins with the pattern. A row with no pattern
-- fails the source's assertion; it has no rows here.
unfoldable mutual
  pub phi_pattern : AnalyzerDb → ConstructorKind → Pattern → Row → List Row
  phi_pattern db c (wildcard b t) rest = append (wildcards b (field_types db c)) rest ∷ []
  phi_pattern db c (constructor k fs t) rest = if ctor_eq k c then append fs rest ∷ [] else []
  phi_pattern db c (or ps t) rest = phi_alternatives db c ps rest

  pub phi_alternatives : AnalyzerDb → ConstructorKind → Patterns → Row → List Row
  phi_alternatives db c nil rest = []
  phi_alternatives db c (cons p ps) rest = phi_pattern db c p rest ++ phi_alternatives db c ps rest

unfoldable pub phi_row : AnalyzerDb → ConstructorKind → Row → List Row
unfolding phi_pattern
phi_row db c nil = []
phi_row db c (cons p rest) = phi_pattern db c p rest

-- `PatternMatrix::phi_specialize`
unfoldable pub phi_specialize : AnalyzerDb → ConstructorKind → Matrix → Matrix
phi_specialize db c [] = []
phi_specialize db c (row ∷ rows) = phi_row db c row ++ phi_specialize db c rows

unfoldable mutual
  pub d_pattern : Pattern → Row → List Row
  d_pattern (wildcard b t) rest = rest ∷ []
  d_pattern (constructor k fs t) rest = []
  d_pattern (or ps t) rest = d_alternatives ps rest

  pub d_alternatives : Patterns → Row → List Row
  d_alternatives nil rest = []
  d_alternatives (cons p ps) rest = d_pattern p rest ++ d_alternatives ps rest

unfoldable pub d_row : Row → List Row
unfolding d_pattern
d_row nil = []
d_row (cons p rest) = d_pattern p rest

-- `PatternMatrix::d_specialize`
unfoldable pub d_specialize : Matrix → Matrix
d_specialize [] = []
d_specialize (row ∷ rows) = d_row row ++ d_specialize rows
