-- ===== src/Pattern/Exhaustive/Complete.antt =====
-- The reports of `find_non_exhaustiveness` against the values that no row matches.
use fe.Prelude.{
  ℕ, zero, suc, ◌≡◌, refl, sym, ap, ◌∙◌, ◌⊎◌, false, Option, none, some, List, [], ◌∷◌, ◌++◌,
  Bool-cases, inl, inr,
}
use fe.Prelude.Outcome.{Outcome, out_of_fuel, panicked, returned, ◌>>=◌}
use fe.Types.{TypeId, AnalyzerDb}
use fe.Pattern.Constructor.{ConstructorKind, field_types}
use fe.Pattern.Syntax.{Patterns, nil, cons, Matrix, ty_of}
use fe.Pattern.Specialize.{phi_specialize, d_specialize}
use fe.Pattern.Specialize.Meaning.{
  MatrixFits, Avoids, count-HaveTypes, phi_specialize-covered, d_specialize-covered,
}
use fe.Pattern.Specialize.Typing.{phi_specialize-fits, d_specialize-fits}
use fe.Pattern.Sigma.{SigmaSet, contains, from_rows, is_complete}
use fe.Pattern.Sigma.Index.{HaveCtors}
use fe.Pattern.Sigma.Column.{from_rows-DistinctCtors, from_rows-HaveCtors, DistinctCtors}
use fe.Pattern.Sigma.Complete.{missing_of_incomplete}
use fe.Pattern.Value.{
  Value, Values, build, opaque, empty, field, append_values, covered, HasCtor, HasType, HaveTypes,
  FitsType,
}
use fe.Pattern.Exhaustive.{
  find_in_ctors, find_in_default, find_in_column, find_non_exhaustiveness, rebuild, missing_pattern,
}

-- The check ended, and not with acceptance: it returned a witness, or panicked while it built one.
abbrev pub Reports : Outcome (Option Patterns) → Type 0
Reports out_of_fuel = ⊥
Reports panicked = Unit
Reports (returned none) = ⊥
Reports (returned (some w)) = Unit

-- Values of the columns' types that no row matches.
abbrev pub Uncovered : AnalyzerDb → Matrix → List TypeId → Type 0
Uncovered db m ts = (vs : Values) × HaveTypes db vs ts × (covered m vs ≡ false)

-- Every type has a value.
abbrev pub Inhabited : AnalyzerDb → Type 0
Inhabited db = (t : TypeId) → (v : Value) × HasType db v t

inhabit : (db : AnalyzerDb) → Inhabited db → (ts : List TypeId) → (vs : Values) × HaveTypes db vs ts
unfolding HasType
inhabit db some_value [] = (empty, tt)
inhabit db some_value (t ∷ ts) =
    let (v, hv) = some_value t in
    let (vs, hvs) = inhabit db some_value ts in (field v vs, (hv, hvs))

Avoids-nil : (v : Value) → Avoids [] v
Avoids-nil (build d vs) = unfold contains in refl
Avoids-nil (opaque n) = tt

split_values :
    (db : AnalyzerDb) (vs : Values) (ts us : List TypeId)
    → HaveTypes db vs (ts ++ us)
    → (xs : Values) × (ys : Values) × (vs ≡ append_values xs ys)
      × HaveTypes db xs ts
      × HaveTypes db ys us
unfolding HasType
split_values db vs [] us h = (empty, vs, refl, tt, h)
split_values db empty (t ∷ ts) us h = absurd h
split_values db (field v vs) (t ∷ ts) us h =
    let (xs, ys, e, hx, hy) = split_values db vs ts us h.1 in
    (field v xs, ys, ap (field v) e, (h.0, hx), hy)

module _ (find : Matrix → Outcome (Option Patterns)) (db : AnalyzerDb) (m : Matrix)
    (t t' : TypeId) where
  loop-Reports :
      (c : ConstructorKind) (found rest : Outcome (Option Patterns))
      → Reports (found >>= λ x. elim x [ none ↦ rest | some w ↦ rebuild db c t' w ])
      → Reports found ⊎ Reports rest
  loop-Reports c out_of_fuel rest k = absurd k
  loop-Reports c panicked rest k = inl tt
  loop-Reports c (returned none) rest k = inr k
  loop-Reports c (returned (some w)) rest k = inl tt

  -- The loop reports only if the check of one of the specialized matrices does.
  find_in_ctors-Reports :
      (s : SigmaSet)
      → HaveCtors db t s
      → Reports (find_in_ctors find db m t' s)
      → (c : ConstructorKind) × HasCtor db t c × Reports (find (phi_specialize db c m))
  unfolding find_in_ctors
  find_in_ctors-Reports [] hs r = absurd r
  find_in_ctors-Reports (c ∷ cs) hs r =
      elim (loop-Reports c (find (phi_specialize db c m)) (find_in_ctors find db m t' cs) r) [
        | inl here ↦ (c, hs.0, here)
        | inr later ↦ find_in_ctors-Reports cs hs.1 later
      ]

  default-Reports :
      (s : SigmaSet) (found : Outcome (Option Patterns))
      → Reports (
          found >>= λ x. elim x [
            | none ↦ returned none
            | some w ↦ missing_pattern db t' s >>= λ p. returned (some (cons p w))
          ])
      → Reports found
  default-Reports s out_of_fuel k = k
  default-Reports s panicked k = tt
  default-Reports s (returned none) k = k
  default-Reports s (returned (some w)) k = tt

  find_in_default-Reports :
      (s : SigmaSet) → Reports (find_in_default find db m t' s) → Reports (find (d_specialize m))
  unfolding find_in_default
  find_in_default-Reports s r = default-Reports s (find (d_specialize m)) r

-- A value of the type that an incomplete set leaves out.
avoiding_value :
    (db : AnalyzerDb) (t : TypeId) (s : SigmaSet)
    → Inhabited db
    → is_complete db s ≡ false
    → HaveCtors db t s
    → DistinctCtors s
    → (v : Value) × HasType db v t × Avoids s v
unfolding HasType
avoiding_value db t [] some_value part h d = let (v, hv) = some_value t in (v, hv, Avoids-nil v)
avoiding_value db t (c ∷ cs) some_value part h d =
    let (k, hk, absent) = missing_of_incomplete db t c cs part h d in
    let (ws, hws) = inhabit db some_value (field_types db k) in (build k ws, (hk, hws), absent)

column_complete :
    (db : AnalyzerDb) (find : Matrix → Outcome (Option Patterns)) (m : Matrix) (t t' : TypeId)
    (ts : List TypeId)
    → Inhabited db
    → MatrixFits db m (t ∷ ts)
    → ((m' : Matrix) (ts' : List TypeId)
        → MatrixFits db m' ts'
        → Reports (find m')
        → Uncovered db m' ts')
    → Reports (find_in_column find db m t')
    → Uncovered db m (t ∷ ts)
unfolding find_in_column HasType
column_complete db find m t t' ts some_value h ih r =
    elim (Bool-cases (is_complete db (from_rows m 0))) [
      | inl full ↦
          let (c, hc, reports) =
            find_in_ctors-Reports find db m t t' (from_rows m 0) (from_rows-HaveCtors db t m ts h)
              (rw full at r) in
          let (vs, hvs, open_) =
            ih (phi_specialize db c m) (field_types db c ++ ts) (phi_specialize-fits db c ts m t h)
              reports in
          let (xs, ys, e, hx, hy) = split_values db vs (field_types db c) ts hvs in
          (
            field (build c xs) ys,
            ((hc, hx), hy),
            sym (
                  phi_specialize-covered db c t ts xs ys
                    (sym (count-HaveTypes db xs (field_types db c) hx)) m h)
                ∙ ap (covered (phi_specialize db c m)) (sym e)
                ∙ open_,
          )
      | inr part ↦
          let (vs, hvs, open_) =
            ih (d_specialize m) ts (d_specialize-fits db ts m t h)
              (find_in_default-Reports find db m t t' (from_rows m 0) (rw part at r)) in
          let (v, hv, avoids) =
            avoiding_value db t (from_rows m 0) some_value part (from_rows-HaveCtors db t m ts h)
              (from_rows-DistinctCtors m 0) in
          (field v vs, (hv, hvs), sym (d_specialize-covered db m t ts v vs h avoids) ∙ open_)
    ]

-- If every type has a value and `find_non_exhaustiveness` ends on a typed matrix with a witness or
-- in a panic, some values of the columns' types match no row.
pub find_complete :
    (db : AnalyzerDb) (fuel : ℕ) (m : Matrix) (ts : List TypeId)
    → Inhabited db
    → MatrixFits db m ts
    → Reports (find_non_exhaustiveness db fuel m)
    → Uncovered db m ts
unfolding find_non_exhaustiveness FitsType
find_complete db zero m ts some_value h r = absurd r
find_complete db (suc fuel) [] ts some_value h r =
    let (vs, hvs) = inhabit db some_value ts in (vs, hvs, refl)
find_complete db (suc fuel) (nil ∷ rows) ts some_value h r = absurd r
find_complete db (suc fuel) (cons p rest ∷ rows) [] some_value h r = absurd h.0
find_complete db (suc fuel) (cons p rest ∷ rows) (t ∷ ts) some_value h r =
    column_complete db (find_non_exhaustiveness db fuel) (cons p rest ∷ rows) t (ty_of p) ts
      some_value h (λ m' ts' h' r'. find_complete db fuel m' ts' some_value h' r') r
