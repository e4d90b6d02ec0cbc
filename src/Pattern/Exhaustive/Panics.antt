-- ===== src/Pattern/Exhaustive/Panics.antt =====
-- `find_non_exhaustiveness` on matches whose scrutinee is a tuple.
use fe.Prelude.{
  ℕ, suc, ◌<◌, ◌≡◌, ◌≢◌, refl, ap, ◌∙◌, true, false, Option, none, some, List, [], ◌∷◌, arith,
}
use fe.Prelude.Outcome.{Outcome, out_of_fuel, panicked, returned, ◌>>=◌}
use fe.Types.{TypeId, AnalyzerDb}
use fe.Pattern.Constructor.{ConstructorKind, tuple, arity, ctor_eq_refl, ctor_variant_num}
use fe.Pattern.Syntax.{Pattern, Patterns, constructor, nil, cons, Row, Matrix, append, ty_of}
use fe.Pattern.Specialize.{phi_row, phi_specialize, d_row, d_specialize}
use fe.Pattern.Sigma.{
  SigmaSet, contains, insert, insert_all, insert_rows, from_rows, is_complete, collect_column_ctors,
}
use fe.Pattern.Exhaustive.Terminates.{missing_pattern-ends}
use fe.Pattern.Exhaustive.{
  find_in_ctors, find_in_default, find_in_column, find_non_exhaustiveness, rebuild, missing_pattern,
}

-- A row that begins with the constructor `c`, over the type `t`: the arguments, and the rest.
abbrev pub under : ConstructorKind → TypeId → Patterns × Patterns → Row
under c t r = cons (constructor c r.0 t) r.1

abbrev pub all_under : ConstructorKind → TypeId → List (Patterns × Patterns) → Matrix
all_under c t [] = []
all_under c t (r ∷ rs) = under c t r ∷ all_under c t rs

insert_again : (c : ConstructorKind) → insert (c ∷ []) c ≡ c ∷ []
unfolding insert contains
insert_again c = ground (arith, ctor_eq_refl c)

module _ (c : ConstructorKind) (t : TypeId) where
  insert_rows-all_under :
      (rs : List (Patterns × Patterns)) → insert_rows (c ∷ []) (all_under c t rs) 0 ≡ c ∷ []
  unfolding insert_rows insert_all insert collect_column_ctors contains
  insert_rows-all_under [] = refl
  insert_rows-all_under (r ∷ rs) =
      ap (λ x. insert_rows x (all_under c t rs) 0) (insert_again c) ∙ insert_rows-all_under rs

  from_rows-all_under :
      (r : Patterns × Patterns) (rs : List (Patterns × Patterns))
      → from_rows (all_under c t (r ∷ rs)) 0 ≡ c ∷ []
  unfolding from_rows insert contains collect_column_ctors
  from_rows-all_under r rs = insert_rows-all_under rs

  d_specialize-all_under : (rs : List (Patterns × Patterns)) → d_specialize (all_under c t rs) ≡ []
  unfolding d_specialize d_row
  d_specialize-all_under [] = refl
  d_specialize-all_under (r ∷ rs) = d_specialize-all_under rs

-- The patterns of the arms `(c fields…, others…)` of a match on the tuple type `t`; `a` is the type
-- of the first element.
abbrev pub tuple_arms :
    TypeId → ConstructorKind → TypeId → List (Patterns × Patterns) → List (Patterns × Patterns)
tuple_arms t c a [] = []
tuple_arms t c a (r ∷ rs) = (under c a r, nil) ∷ tuple_arms t c a rs

abbrev with_nil : List (Patterns × Patterns) → List (Patterns × Patterns)
with_nil [] = []
with_nil (r ∷ rs) = (r.0, append r.1 nil) ∷ with_nil rs

phi_specialize-tuple_arms :
    (db : AnalyzerDb) (t a : TypeId) (c : ConstructorKind) (rs : List (Patterns × Patterns))
    → phi_specialize db (tuple t) (all_under (tuple t) t (tuple_arms t c a rs))
      ≡ all_under c a (with_nil rs)
unfolding phi_specialize phi_row
phi_specialize-tuple_arms db t a c [] = refl
phi_specialize-tuple_arms db t a c (r ∷ rs) =
    rw (ctor_eq_refl (tuple t))
      (ap (λ x. under c a (r.0, append r.1 nil) ∷ x) (phi_specialize-tuple_arms db t a c rs))

incomplete_singleton :
    (db : AnalyzerDb) (c : ConstructorKind)
    → 1 < ctor_variant_num db c
    → is_complete db (c ∷ []) ≡ false
unfolding is_complete
incomplete_singleton db c h = ground arith

-- A witness of one pattern, or a panic.
abbrev IsShort : Outcome (Option Patterns) → Type 0
IsShort out_of_fuel = ⊥
IsShort panicked = Unit
IsShort (returned none) = ⊥
IsShort (returned (some nil)) = ⊥
IsShort (returned (some (cons p ps))) = ps ≡ nil

missing-IsShort :
    (missing : Outcome Pattern)
    → missing ≢ out_of_fuel
    → IsShort (missing >>= λ p. returned (some (cons p nil)))
missing-IsShort out_of_fuel h = h refl
missing-IsShort panicked h = tt
missing-IsShort (returned p) h = refl

module _ (find : Matrix → Outcome (Option Patterns)) (db : AnalyzerDb) (m : Matrix) (t : TypeId)
    (s : SigmaSet) (column : from_rows m 0 ≡ s) where
  find_in_column_complete :
      is_complete db s ≡ true → find_in_column find db m t ≡ find_in_ctors find db m t s
  unfolding find_in_column
  find_in_column_complete full = rw (column, full)

  find_in_column_incomplete :
      is_complete db s ≡ false → find_in_column find db m t ≡ find_in_default find db m t s
  unfolding find_in_column
  find_in_column_incomplete part = rw (column, part) (ap (find_in_default find db m t) column)

default-IsShort :
    (find : Matrix → Outcome (Option Patterns)) (db : AnalyzerDb) (m : Matrix) (t : TypeId)
    (s : SigmaSet)
    → find (d_specialize m) ≡ returned (some nil)
    → IsShort (find_in_default find db m t s)
unfolding find_in_default
default-IsShort find db m t s h =
    rw h (missing-IsShort (missing_pattern db t s) (missing_pattern-ends db t s))

find-empty :
    (db : AnalyzerDb) (fuel : ℕ) → find_non_exhaustiveness db (suc fuel) [] ≡ returned (some nil)
unfolding find_non_exhaustiveness
find-empty db fuel = refl

find-column :
    (db : AnalyzerDb) (fuel : ℕ) (p : Pattern) (rest : Patterns) (rows : Matrix)
    → find_non_exhaustiveness db (suc fuel) (cons p rest ∷ rows)
      ≡ find_in_column (find_non_exhaustiveness db fuel) db (cons p rest ∷ rows) (ty_of p)
unfolding find_non_exhaustiveness
find-column db fuel p rest rows = refl

-- With its first column incomplete, the matrix of the elements gets a witness of one pattern only.
IsShort-witness :
    (db : AnalyzerDb) (c : ConstructorKind) (a : TypeId) (r : Patterns × Patterns)
    (rs : List (Patterns × Patterns)) (fuel : ℕ)
    → 1 < ctor_variant_num db c
    → IsShort (find_non_exhaustiveness db (suc (suc fuel)) (all_under c a (r ∷ rs)))
IsShort-witness db c a r rs fuel h =
    let find = find_non_exhaustiveness db (suc fuel) in
    let m : Matrix = all_under c a (r ∷ rs) in
    let p : Pattern = constructor c r.0 a in
    let column =
      find_in_column_incomplete find db m (ty_of p) (c ∷ []) (from_rows-all_under c a r rs)
        (incomplete_singleton db c h) in
    rw (find-column db (suc fuel) p r.1 (all_under c a rs) ∙ column) (
      default-IsShort find db m (ty_of p) (c ∷ [])
        (ap find (d_specialize-all_under c a (r ∷ rs)) ∙ find-empty db fuel))

loop-panics :
    (db : AnalyzerDb) (c : ConstructorKind) (t : TypeId) (found rest : Outcome (Option Patterns))
    → 1 < arity db c
    → IsShort found
    → (found >>= λ x. elim x [ none ↦ rest | some w ↦ rebuild db c t w ]) ≡ panicked
unfolding rebuild
loop-panics db c t out_of_fuel rest h s = absurd s
loop-panics db c t panicked rest h s = refl
loop-panics db c t (returned none) rest h s = absurd s
loop-panics db c t (returned (some nil)) rest h s = absurd s
loop-panics db c t (returned (some (cons p ps))) rest h s = rw s (ground arith)

complete_tuple : (db : AnalyzerDb) (t : TypeId) → is_complete db (tuple t ∷ []) ≡ true
unfolding is_complete ctor_variant_num
complete_tuple db t = refl

-- On a match over a tuple of at least two elements, all of whose arms name the same constructor,
-- of a type that has others, as the first element, `find_non_exhaustiveness` panics, with any fuel
-- of at least 3.
pub find-tuple_arms_panics :
    (db : AnalyzerDb) (t a : TypeId) (c : ConstructorKind) (first : Patterns × Patterns)
    (others : List (Patterns × Patterns)) (fuel : ℕ)
    → 1 < arity db (tuple t)
    → 1 < ctor_variant_num db c
    → find_non_exhaustiveness db
        (suc (suc (suc fuel)))
        (all_under (tuple t) t (tuple_arms t c a (first ∷ others)))
      ≡ panicked
find-tuple_arms_panics db t a c first others fuel ha hc =
    let find = find_non_exhaustiveness db (suc (suc fuel)) in
    let arms : List (Patterns × Patterns) = tuple_arms t c a others in
    let m : Matrix = all_under (tuple t) t ((under c a first, nil) ∷ arms) in
    let p : Pattern = constructor (tuple t) (under c a first) t in
    find-column db (suc (suc fuel)) p nil (all_under (tuple t) t arms)
    ∙ find_in_column_complete find db m (ty_of p) (tuple t ∷ [])
        (from_rows-all_under (tuple t) t (under c a first, nil) arms) (complete_tuple db t)
    ∙ unfold find_in_ctors in
      loop-panics db (tuple t) (ty_of p) (find (phi_specialize db (tuple t) m)) (returned none) ha (
        rw (phi_specialize-tuple_arms db t a c (first ∷ others))
          (IsShort-witness db c a (first.0, append first.1 nil) (with_nil others) fuel hc))
