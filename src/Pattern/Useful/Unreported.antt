-- ===== src/Pattern/Useful/Unreported.antt =====
-- Matches on which `is_pattern_useful` and the values that an arm can take are at odds.
use fe.Prelude.{if◌then◌else◌, ℕ, suc, ◌≡◌, refl, ◌∙◌, ap, true, Option, none, [], ◌∷◌}
use fe.Prelude.Outcome.{panicked, returned, ◌>>=◌}
use fe.Types.{TypeId, AnalyzerDb}
use fe.Pattern.Constructor.{ConstructorKind}
use fe.Pattern.Syntax.{Pattern, Patterns, wildcard, constructor, or, nil, cons, Row, Matrix, Bind}
use fe.Pattern.Specialize.{phi_specialize, d_row, d_specialize}
use fe.Pattern.Specialize.Meaning.{MatrixFits}
use fe.Pattern.Value.{Values, covered, HaveTypes}
use fe.Pattern.Exhaustive.{find_non_exhaustiveness}
use fe.Pattern.Exhaustive.Sound.{find_sound}
use fe.Pattern.Useful.{any_useful, is_pattern_useful}

-- Each row begins with a constructor.
abbrev pub IsCtorLed : Matrix → Type 0
IsCtorLed [] = Unit
IsCtorLed (nil ∷ rows) = ⊥
IsCtorLed (cons (wildcard b t) rest ∷ rows) = ⊥
IsCtorLed (cons (constructor c fs t) rest ∷ rows) = IsCtorLed rows
IsCtorLed (cons (or ps t) rest ∷ rows) = ⊥

d_specialize-IsCtorLed : (m : Matrix) → IsCtorLed m → d_specialize m ≡ []
unfolding d_specialize d_row
d_specialize-IsCtorLed [] h = refl
d_specialize-IsCtorLed (nil ∷ rows) h = absurd h
d_specialize-IsCtorLed (cons (wildcard b t) rest ∷ rows) h = absurd h
d_specialize-IsCtorLed (cons (constructor c fs t) rest ∷ rows) h = d_specialize-IsCtorLed rows h
d_specialize-IsCtorLed (cons (or ps t) rest ∷ rows) h = absurd h

useful_in_none :
    (db : AnalyzerDb) (fuel : ℕ) (row : Row)
    → is_pattern_useful db (suc fuel) [] row ≡ returned true
unfolding is_pattern_useful
useful_in_none db fuel row = refl

wildcard_useful :
    (db : AnalyzerDb) (fuel : ℕ) (m : Matrix) (b : Option Bind) (t : TypeId)
    → IsCtorLed m
    → is_pattern_useful db (suc (suc fuel)) m (cons (wildcard b t) nil) ≡ returned true
unfolding is_pattern_useful
wildcard_useful db fuel [] b t h = refl
wildcard_useful db fuel (nil ∷ rows) b t h = absurd h
wildcard_useful db fuel (cons p rest ∷ rows) b t h =
    ap (λ m. is_pattern_useful db (suc fuel) m nil) (d_specialize-IsCtorLed (cons p rest ∷ rows) h)
    ∙ useful_in_none db fuel nil

-- A wildcard arm after typed, accepted arms of one column that begin with constructors is called
-- useful, with any fuel of at least 2, by `is_pattern_useful`, although every value is covered
-- before it.
pub unreachable_wildcard_useful :
    (db : AnalyzerDb) (fuel found_fuel : ℕ) (m : Matrix) (b : Option Bind) (t : TypeId)
    → IsCtorLed m
    → MatrixFits db m (t ∷ [])
    → find_non_exhaustiveness db found_fuel m ≡ returned none
    → (is_pattern_useful db (suc (suc fuel)) m (cons (wildcard b t) nil) ≡ returned true)
      × ((vs : Values) → HaveTypes db vs (t ∷ []) → covered m vs ≡ true)
unreachable_wildcard_useful db fuel found_fuel m b t led fits accepted = (
  wildcard_useful db fuel m b t led,
  λ vs hv. find_sound db found_fuel m (t ∷ []) vs fits hv accepted,
)

-- `is_pattern_useful` panics on a row that begins with alternatives, the first a constructor with
-- no arguments, if specializing the matrix to it leaves a first row with columns, with any fuel of
-- at least 3.
pub useful-or_panics :
    (db : AnalyzerDb) (fuel : ℕ) (c : ConstructorKind) (ps rest : Patterns) (t : TypeId)
    (p q : Pattern) (row row' : Patterns) (rows rows' : Matrix)
    → phi_specialize db c (cons p row ∷ rows) ≡ cons q row' ∷ rows'
    → is_pattern_useful db
        (suc (suc (suc fuel)))
        (cons p row ∷ rows)
        (cons (or (cons (constructor c nil t) ps) t) rest)
      ≡ panicked
unfolding is_pattern_useful
useful-or_panics db fuel c ps rest t p q row row' rows rows' h =
    let others = any_useful (is_pattern_useful db (suc (suc fuel)) (cons p row ∷ rows)) ps in
    ap
      (λ m.
        is_pattern_useful db (suc fuel) m nil >>= λ found. if found then returned true else others)
      h
