-- ===== src/Pattern/Exhaustive/Terminates.antt =====
-- The fuel that `find_non_exhaustiveness` takes.
use fe.Prelude.{
  ℕ, zero, suc, ◌+◌, ◌≤◌, ◌≡◌, ◌≢◌, refl, sym, true, Option, none, some, List, [], ◌∷◌, ◌++◌, arith,
  Bool-cases, inl, inr, ◌∙◌,
}
use fe.Prelude.Outcome.{Outcome, out_of_fuel, panicked, returned, ◌>>=◌}
use fe.Types.{TypeId, AnalyzerDb}
use fe.Pattern.Constructor.{ConstructorKind, field_types, ctor_eq, ctor_eq→eq, ctor_eq_refl}
use fe.Pattern.Syntax.{Pattern, Patterns, nil, cons, Matrix, ty_of}
use fe.Pattern.Specialize.{phi_specialize, d_specialize}
use fe.Pattern.Specialize.Meaning.{MatrixFits}
use fe.Pattern.Specialize.Typing.{phi_specialize-fits, d_specialize-fits}
use fe.Pattern.Specialize.Measure.{
  Smaller, matrix_induction, phi_specialize-weight_lt, d_specialize-weight,
}
use fe.Pattern.Sigma.{
  SigmaSet, contains, from_rows, is_complete, complete_sigma, contains-from_rows,
}
use fe.Pattern.Value.{FitsType}
use fe.Pattern.Exhaustive.{
  find_in_ctors, find_in_default, find_in_column, find_non_exhaustiveness, rebuild, missing_pattern,
}

-- From some amount of fuel on, the check ends.
abbrev pub EndsAfter : AnalyzerDb → Matrix → Type 0
EndsAfter db m =
    (enough : ℕ) × ((fuel : ℕ) → enough ≤ fuel → find_non_exhaustiveness db fuel m ≢ out_of_fuel)

rebuild-ends :
    (db : AnalyzerDb) (c : ConstructorKind) (t : TypeId) (w : Patterns)
    → rebuild db c t w ≢ out_of_fuel
unfolding rebuild
rebuild-ends db c t nil e = cc
rebuild-ends db c t (cons p ps) e = ground arith

complete_sigma-ends : (db : AnalyzerDb) (t : TypeId) → complete_sigma db t ≢ out_of_fuel
unfolding complete_sigma
complete_sigma-ends db t e = ground arith

pub missing_pattern-ends :
    (db : AnalyzerDb) (t : TypeId) (s : SigmaSet) → missing_pattern db t s ≢ out_of_fuel
unfolding missing_pattern
missing_pattern-ends db t [] e = cc
missing_pattern-ends db t (c ∷ cs) e = ground (arith, complete_sigma-ends db t)

module _ (find : Matrix → Outcome (Option Patterns)) (db : AnalyzerDb) (m : Matrix)
    (t : TypeId) where
  loop-ends :
      (c : ConstructorKind) (found rest : Outcome (Option Patterns))
      → found ≢ out_of_fuel
      → rest ≢ out_of_fuel
      → (found >>= λ x. elim x [ none ↦ rest | some w ↦ rebuild db c t w ]) ≢ out_of_fuel
  loop-ends c out_of_fuel rest hf hr e = hf refl
  loop-ends c panicked rest hf hr e = cc
  loop-ends c (returned none) rest hf hr e = hr e
  loop-ends c (returned (some w)) rest hf hr e = rebuild-ends db c t w e

  find_in_ctors-ends :
      (s : SigmaSet)
      → ((c : ConstructorKind) → contains s c ≡ true → find (phi_specialize db c m) ≢ out_of_fuel)
      → find_in_ctors find db m t s ≢ out_of_fuel
  unfolding find_in_ctors contains
  find_in_ctors-ends [] h e = cc
  find_in_ctors-ends (c ∷ cs) h e =
      loop-ends c (find (phi_specialize db c m)) (find_in_ctors find db m t cs)
        (h c (ground (arith, ctor_eq_refl c))) (find_in_ctors-ends cs (λ d k. h d (ground arith))) e

  default-ends :
      (s : SigmaSet) (found : Outcome (Option Patterns))
      → found ≢ out_of_fuel
      → (found >>= λ x. elim x [
        | none ↦ returned none
        | some w ↦ missing_pattern db t s >>= λ p. returned (some (cons p w))
      ])
        ≢ out_of_fuel
  default-ends s out_of_fuel h e = h e
  default-ends s panicked h e = cc
  default-ends s (returned none) h e = cc
  default-ends s (returned (some w)) h e = ground (arith, missing_pattern-ends db t s)

  find_in_column-ends :
      ((c : ConstructorKind)
        → contains (from_rows m 0) c ≡ true
        → find (phi_specialize db c m) ≢ out_of_fuel)
      → find (d_specialize m) ≢ out_of_fuel
      → find_in_column find db m t ≢ out_of_fuel
  unfolding find_in_column
  find_in_column-ends hp hd = elim (Bool-cases (is_complete db (from_rows m 0))) [
    | inl full ↦ rw full (find_in_ctors-ends (from_rows m 0) hp)
    | inr part ↦
        rw part (unfold find_in_default in default-ends (from_rows m 0) (find (d_specialize m)) hd)
  ]

-- Fuel for every constructor of a set.
fuel_for_all :
    (db : AnalyzerDb) (m : Matrix) (s : SigmaSet)
    → ((c : ConstructorKind) → contains s c ≡ true → EndsAfter db (phi_specialize db c m))
    → (enough : ℕ) × ((fuel : ℕ)
        → enough ≤ fuel
        → (c : ConstructorKind) → contains s c ≡ true
        → find_non_exhaustiveness db fuel (phi_specialize db c m) ≢ out_of_fuel)
unfolding contains
fuel_for_all db m [] h = (0, λ fuel le c k. cc)
fuel_for_all db m (d ∷ ds) h =
    let (a, ha) = h d (ground (arith, ctor_eq_refl d)) in
    let (b, hb) = fuel_for_all db m ds (λ c k. h c (ground arith)) in
    (
      a + b,
      λ fuel le c k. elim (Bool-cases (ctor_eq d c)) [
        | inl same ↦ rw (← ctor_eq→eq d c same) (ha fuel (omega arith))
        | inr differ ↦ hb fuel (omega arith) c (ground arith)
      ],
    )

ends_empty :
    (db : AnalyzerDb) (fuel : ℕ) → 1 ≤ fuel → find_non_exhaustiveness db fuel [] ≢ out_of_fuel
unfolding find_non_exhaustiveness
ends_empty db zero le e = omega arith
ends_empty db (suc fuel) le e = cc

ends_no_columns :
    (db : AnalyzerDb) (rows : Matrix) (fuel : ℕ)
    → 1 ≤ fuel
    → find_non_exhaustiveness db fuel (nil ∷ rows) ≢ out_of_fuel
unfolding find_non_exhaustiveness
ends_no_columns db rows zero le e = omega arith
ends_no_columns db rows (suc fuel) le e = cc

ends_column :
    (db : AnalyzerDb) (p : Pattern) (rest : Patterns) (rows : Matrix) (a b fuel : ℕ)
    → suc (a + b) ≤ fuel
    → ((f : ℕ)
        → a ≤ f
        → (c : ConstructorKind) → contains (from_rows (cons p rest ∷ rows) 0) c ≡ true
        → find_non_exhaustiveness db f (phi_specialize db c (cons p rest ∷ rows)) ≢ out_of_fuel)
    → ((f : ℕ)
        → b ≤ f
        → find_non_exhaustiveness db f (d_specialize (cons p rest ∷ rows)) ≢ out_of_fuel)
    → find_non_exhaustiveness db fuel (cons p rest ∷ rows) ≢ out_of_fuel
unfolding find_non_exhaustiveness
ends_column db p rest rows a b zero le ha hb e = omega arith
ends_column db p rest rows a b (suc fuel) le ha hb e =
    find_in_column-ends (find_non_exhaustiveness db fuel) db (cons p rest ∷ rows) (ty_of p)
      (ha fuel (omega arith)) (hb fuel (omega arith)) e

terminates_step :
    (db : AnalyzerDb) (m : Matrix) (ts : List TypeId)
    → ((m' : Matrix) (ts' : List TypeId)
        → Smaller m' ts' m ts
        → MatrixFits db m' ts'
        → EndsAfter db m')
    → MatrixFits db m ts
    → EndsAfter db m
unfolding FitsType
terminates_step db [] ts ih h = (1, λ fuel le. ends_empty db fuel le)
terminates_step db (nil ∷ rows) ts ih h = (1, λ fuel le. ends_no_columns db rows fuel le)
terminates_step db (cons p rest ∷ rows) [] ih h = absurd h.0
terminates_step db (cons p rest ∷ rows) (t ∷ ts) ih h =
    let m : Matrix = cons p rest ∷ rows in
    let (a, ha) = fuel_for_all db m (from_rows m 0) (λ c k.
      ih (phi_specialize db c m) (field_types db c ++ ts)
        (inl (phi_specialize-weight_lt db c m c (sym (contains-from_rows m 0 c) ∙ k)))
        (phi_specialize-fits db c ts m t h)) in
    let (b, hb) =
      ih (d_specialize m) ts (inr (d_specialize-weight m, omega arith))
        (d_specialize-fits db ts m t h) in
    (suc (a + b), λ fuel le. ends_column db p rest rows a b fuel le ha hb)

-- `find_non_exhaustiveness` ends on every typed matrix: from some amount of fuel on it is never
-- out of fuel.
pub find_terminates :
    (db : AnalyzerDb) (m : Matrix) (ts : List TypeId)
    → MatrixFits db m ts
    → (enough : ℕ) × ((fuel : ℕ) → enough ≤ fuel → find_non_exhaustiveness db fuel m ≢ out_of_fuel)
find_terminates db =
    matrix_induction (λ m ts. MatrixFits db m ts → EndsAfter db m) (terminates_step db)
