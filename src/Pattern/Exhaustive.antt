-- ===== src/Pattern/Exhaustive.antt =====
-- `PatternMatrix::find_non_exhaustiveness` of pattern_analysis.rs. The recursion takes fuel.
pub mod Sound
pub mod Complete
pub mod Terminates
pub mod Panics
use fe.Prelude.{ℕ, zero, suc, Bool, Option, none, some, List, [], ◌∷◌, leb, if◌then◌else◌}
use fe.Prelude.Outcome.{Outcome, out_of_fuel, panicked, returned, ◌>>=◌}
use fe.Types.{TypeId, AnalyzerDb}
use fe.Pattern.Constructor.{ConstructorKind, arity}
use fe.Pattern.Syntax.{
  Pattern, Patterns, wildcard, constructor, or, nil, cons, Matrix, len, ty_of,
  ctor_with_wild_card_fields,
}
use fe.Pattern.Specialize.{phi_specialize, d_specialize}
use fe.Pattern.Sigma.{SigmaSet, from_rows, is_complete, complete_sigma, difference}

-- The two halves of `Vec::split_off`.
unfoldable pub take : ℕ → Patterns → Patterns
take zero ps = nil
take (suc n) nil = nil
take (suc n) (cons p ps) = cons p (take n ps)

unfoldable pub drop : ℕ → Patterns → Patterns
drop zero ps = ps
drop (suc n) nil = nil
drop (suc n) (cons p ps) = drop n ps

-- A witness under the constructor, out of a witness for its specialized matrix. `split_off` panics
-- past the end of the vector.
unfoldable pub rebuild :
    AnalyzerDb → ConstructorKind → TypeId → Patterns → Outcome (Option Patterns)
unfolding take drop
rebuild db c t nil = returned (some (cons (constructor c nil t) nil))
rebuild db c t (cons p ps) =
    let witness = cons p ps in
    let field_num = arity db c in
    if leb field_num (len witness)
    then returned (some (cons (constructor c (take field_num witness) t) (drop field_num witness)))
    else panicked

-- The loop over a complete set of constructors.
unfoldable pub find_in_ctors :
    (Matrix → Outcome (Option Patterns))
    → AnalyzerDb
    → Matrix
    → TypeId
    → SigmaSet
    → Outcome (Option Patterns)
find_in_ctors find db m t [] = returned none
find_in_ctors find db m t (c ∷ cs) =
    let rest = find_in_ctors find db m t cs in
    do
      found ← find (phi_specialize db c m)
      elim found [ none ↦ rest | some witness ↦ rebuild db c t witness ]

unfoldable pub alternatives : AnalyzerDb → TypeId → SigmaSet → Patterns
alternatives db t [] = nil
alternatives db t (c ∷ cs) = cons (ctor_with_wild_card_fields db c t) (alternatives db t cs)

-- The pattern that stands for the constructors that the column lacks.
unfoldable pub missing_pattern : AnalyzerDb → TypeId → SigmaSet → Outcome Pattern
unfolding alternatives difference
missing_pattern db t [] = returned (wildcard none t)
missing_pattern db t (c ∷ cs) = do
  complete ← complete_sigma db t
  returned (or (alternatives db t (difference complete (c ∷ cs))) t)

unfoldable pub find_in_default :
    (Matrix → Outcome (Option Patterns))
    → AnalyzerDb
    → Matrix
    → TypeId
    → SigmaSet
    → Outcome (Option Patterns)
unfolding missing_pattern
find_in_default find db m t sigma = do
  found ← find (d_specialize m)
  elim found [
    | none ↦ returned none
    | some witness ↦ missing_pattern db t sigma >>= λ p. returned (some (cons p witness))
  ]

unfoldable pub find_in_column :
    (Matrix → Outcome (Option Patterns)) → AnalyzerDb → Matrix → TypeId → Outcome (Option Patterns)
unfolding find_in_ctors find_in_default
find_in_column find db m t =
    let sigma = from_rows m 0 in
    if is_complete db sigma
    then find_in_ctors find db m t sigma
    else find_in_default find db m t sigma

unfoldable pub find_non_exhaustiveness : AnalyzerDb → ℕ → Matrix → Outcome (Option Patterns)
find_non_exhaustiveness db zero m = out_of_fuel
find_non_exhaustiveness db (suc fuel) [] = returned (some nil)
find_non_exhaustiveness db (suc fuel) (nil ∷ rows) = returned none
find_non_exhaustiveness db (suc fuel) (cons p rest ∷ rows) =
    find_in_column (find_non_exhaustiveness db fuel) db (cons p rest ∷ rows) (ty_of p)
