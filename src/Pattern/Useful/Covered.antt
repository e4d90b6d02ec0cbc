-- ===== src/Pattern/Useful/Covered.antt =====
-- `is_pattern_useful` against the values that a matrix covers, and the fuel that it takes.
use fe.Prelude.{
  ℕ, zero, suc, ◌+◌, ◌<◌, ◌≡◌, ◌≢◌, refl, sym, ap, ◌∙◌, inl, inr, Bool, true, false, ◌&&◌, List, [],
  ◌∷◌, ◌++◌, arith, Bool-cases, &&_split, if◌then◌else◌,
}
use mathlib.Core.List.{append-nil, append_assoc}
use fe.Prelude.Outcome.{Outcome, out_of_fuel, panicked, returned, ◌>>=◌}
use fe.Types.{TypeId, AnalyzerDb}
use fe.Pattern.Constructor.{ConstructorKind, ctor_eq, ctor_eq→eq, field_types}
use fe.Pattern.Syntax.{Pattern, Patterns, wildcard, constructor, or, nil, cons, Row, Matrix, append}
use fe.Pattern.Specialize.{phi_specialize, d_specialize}
use fe.Pattern.Specialize.Meaning.{
  MatrixFits, len-FitTypes, count-HaveTypes, matches_row-append, phi_specialize-covered,
}
use fe.Pattern.Specialize.Typing.{phi_specialize-fits, d_specialize-fits, append-FitTypes}
use fe.Pattern.Value.{
  Value, Values, build, opaque, empty, field, append_values, matches, matches_row, matches_any,
  covered, HasType, HaveTypes, FitsType, FitTypes, AllFit,
}
use fe.Pattern.Exhaustive.Sound.{d_specialize_sound, append-HaveTypes}
use fe.Pattern.Useful.{any_useful, useful_in_column, is_pattern_useful, nodes, nodes_row}

nodes_row-append : (ps qs : Patterns) → nodes_row (append ps qs) ≡ nodes_row ps + nodes_row qs
unfolding nodes
nodes_row-append nil qs = omega arith
nodes_row-append (cons p ps) qs = omega (arith, nodes_row-append ps qs)

alternative-ends :
    (found rest : Outcome Bool)
    → found ≢ out_of_fuel
    → rest ≢ out_of_fuel
    → (found >>= λ b. if b then returned true else rest) ≢ out_of_fuel
alternative-ends out_of_fuel rest hf hr e = hf refl
alternative-ends panicked rest hf hr e = cc
alternative-ends (returned true) rest hf hr e = cc
alternative-ends (returned false) rest hf hr e = hr e

module _ (useful : Row → Outcome Bool) where
  any_useful-ends :
      (ps : Patterns)
      → ((p : Pattern) → nodes p < suc (nodes_row ps) → useful (cons p nil) ≢ out_of_fuel)
      → any_useful useful ps ≢ out_of_fuel
  unfolding any_useful nodes
  any_useful-ends nil h e = cc
  any_useful-ends (cons p ps) h e =
      alternative-ends (useful (cons p nil)) (any_useful useful ps) (h p (omega arith))
        (any_useful-ends ps (λ q lt. h q (omega arith))) e

column-ends :
    (db : AnalyzerDb) (useful : Matrix → Row → Outcome Bool) (m : Matrix) (row : Row)
    → ((m' : Matrix) (row' : Row) → nodes_row row' < nodes_row row → useful m' row' ≢ out_of_fuel)
    → useful_in_column useful db m row ≢ out_of_fuel
unfolding useful_in_column nodes
column-ends db useful m nil h e = cc
column-ends db useful m (cons (wildcard b t) rest) h e = h (d_specialize m) rest (omega arith) e
column-ends db useful m (cons (constructor c fs t) rest) h e =
    h (phi_specialize db c m) (append fs rest) (omega (arith, nodes_row-append fs rest)) e
column-ends db useful m (cons (or ps t) rest) h e =
    any_useful-ends (useful m) ps (λ p lt. h m (cons p nil) (omega arith)) e

-- `is_pattern_useful` is never out of fuel when the fuel exceeds the number of nodes of the row.
pub useful_terminates :
    (db : AnalyzerDb) (fuel : ℕ) (m : Matrix) (row : Row)
    → nodes_row row < fuel
    → is_pattern_useful db fuel m row ≢ out_of_fuel
unfolding is_pattern_useful
useful_terminates db zero m row h e = omega arith
useful_terminates db (suc fuel) [] row h e = cc
useful_terminates db (suc fuel) (nil ∷ rows) row h e = cc
useful_terminates db (suc fuel) (cons p rest ∷ rows) row h e =
    column-ends db (is_pattern_useful db fuel) (cons p rest ∷ rows) row
      (λ m' row' lt. useful_terminates db fuel m' row' (omega arith)) e

append_values_assoc :
    (xs ys zs : Values)
    → append_values (append_values xs ys) zs ≡ append_values xs (append_values ys zs)
append_values_assoc empty ys zs = refl
append_values_assoc (field v vs) ys zs = ap (field v) (append_values_assoc vs ys zs)

append_values-empty : (vs : Values) → append_values vs empty ≡ vs
append_values-empty empty = refl
append_values-empty (field v vs) = ap (field v) (append_values-empty vs)

-- If the loop over the alternatives finds nothing, then none of them was useful.
any_useful-false :
    (useful : Row → Outcome Bool) (found : Outcome Bool) (p : Pattern) (ps : Patterns)
    → (found >>= λ b. if b then returned true else any_useful useful ps) ≡ returned false
    → (found ≡ returned false) × (any_useful useful ps ≡ returned false)
any_useful-false useful out_of_fuel p ps h = cc
any_useful-false useful panicked p ps h = cc
any_useful-false useful (returned true) p ps h = cc
any_useful-false useful (returned false) p ps h = (refl, h)

alternatives_covered :
    (db : AnalyzerDb) (useful : Row → Outcome Bool) (m : Matrix) (t : TypeId) (ps : Patterns)
    (v : Value) (ws : Values)
    → ((p : Pattern)
        → FitsType db p t
        → matches p v ≡ true
        → useful (cons p nil) ≡ returned false
        → covered m (field v ws) ≡ true)
    → AllFit db ps t
    → matches_any ps v ≡ true
    → any_useful useful ps ≡ returned false
    → covered m (field v ws) ≡ true
unfolding any_useful matches FitsType
alternatives_covered db useful m t nil v ws ih h hm e = cc
alternatives_covered db useful m t (cons p ps) v ws ih h hm e =
    let (first, rest) = any_useful-false useful (useful (cons p nil)) p ps e in
    elim (Bool-cases (matches p v)) [
      | inl hit ↦ ih p h.0 hit first
      | inr miss ↦ alternatives_covered db useful m t ps v ws ih h.1 (ground arith) rest
    ]

-- What the recursion is used for: rows on the first columns of a matrix.
abbrev Covers : AnalyzerDb → (Matrix → Row → Outcome Bool) → Type 0
Covers db useful =
    (m : Matrix) (row : Row) (ts us : List TypeId) (vs ws : Values)
    → MatrixFits db m (ts ++ us)
    → FitTypes db row ts
    → HaveTypes db vs ts
    → matches_row row vs ≡ true
    → useful m row ≡ returned false
    → covered m (append_values vs ws) ≡ true

module _ (db : AnalyzerDb) (useful : Matrix → Row → Outcome Bool) (ih : Covers db useful) where
  constructor_covered :
      (m : Matrix) (c : ConstructorKind) (fs rest : Patterns) (t : TypeId) (ts us : List TypeId)
      (d : ConstructorKind) (xs vs ws : Values)
      → MatrixFits db m (t ∷ (ts ++ us))
      → FitTypes db fs (field_types db c)
      → FitTypes db rest ts
      → HaveTypes db xs (field_types db d)
      → HaveTypes db vs ts
      → (ctor_eq c d && matches_row fs xs && matches_row rest vs) ≡ true
      → useful (phi_specialize db c m) (append fs rest) ≡ returned false
      → covered m (field (build d xs) (append_values vs ws)) ≡ true
  constructor_covered m c fs rest t ts us d xs vs ws hm hf hr hx hv match e =
      let (same, both) =
        &&_split (ctor_eq c d) (matches_row fs xs && matches_row rest vs) (ground arith) in
      let eq = ctor_eq→eq c d same in
      let hx' : HaveTypes db xs (field_types db c) = rw eq hx in
      let counted = sym (count-HaveTypes db xs (field_types db c) hx') in
      rw (← eq) (
        sym (phi_specialize-covered db c t (ts ++ us) xs (append_values vs ws) counted m hm)
        ∙ ap (covered (phi_specialize db c m)) (sym (append_values_assoc xs vs ws))
        ∙ ih (phi_specialize db c m) (append fs rest) (field_types db c ++ ts) us
            (append_values xs vs) ws
            (rw (append_assoc (field_types db c) ts us)
              (phi_specialize-fits db c (ts ++ us) m t hm))
            (append-FitTypes db fs rest (field_types db c) ts hf hr)
            (append-HaveTypes db xs vs (field_types db c) ts hx' hv)
            (matches_row-append fs rest xs vs (len-FitTypes db fs (field_types db c) hf ∙ counted)
              ∙ both)
            e)

  column_covered :
      (m : Matrix) (p : Pattern) (rest : Patterns) (t : TypeId) (ts us : List TypeId) (v : Value)
      (vs ws : Values)
      → MatrixFits db m (t ∷ (ts ++ us))
      → FitsType db p t
      → FitTypes db rest ts
      → HasType db v t
      → HaveTypes db vs ts
      → (matches p v && matches_row rest vs) ≡ true
      → useful_in_column useful db m (cons p rest) ≡ returned false
      → covered m (field v (append_values vs ws)) ≡ true
  unfolding useful_in_column matches FitsType HasType
  column_covered m (wildcard b t') rest t ts us v vs ws hm hp hr hv hvs match e =
      d_specialize_sound v (append_values vs ws) m (
        ih (d_specialize m) rest ts us vs ws (d_specialize-fits db (ts ++ us) m t hm) hr hvs
          (ground arith) e)
  column_covered m (constructor c fs t') rest t ts us (opaque n) vs ws hm hp hr hv hvs match e = cc
  column_covered m (constructor c fs t') rest t ts us (build d xs) vs ws hm hp hr hv hvs match e =
      constructor_covered m c fs rest t ts us d xs vs ws hm hp.2 hr hv.1 hvs (ground arith) e
  column_covered m (or ps t') rest t ts us v vs ws hm hp hr hv hvs match e =
      alternatives_covered db (useful m) m t ps v (append_values vs ws)
        (λ p fits hit e'.
          ih m (cons p nil) (t ∷ []) (ts ++ us) (field v empty) (append_values vs ws) hm (fits, tt)
            (hv, tt) (ground arith) e')
        hp.1 (ground arith) e

useless_prefix_covered : (db : AnalyzerDb) (fuel : ℕ) → Covers db (is_pattern_useful db fuel)
unfolding is_pattern_useful FitsType HasType
useless_prefix_covered db zero m row ts us vs ws hm hr hv match e = cc
useless_prefix_covered db (suc fuel) [] row ts us vs ws hm hr hv match e = cc
useless_prefix_covered db (suc fuel) (nil ∷ rows) row ts us vs ws hm hr hv match e =
    unfold matches in refl
useless_prefix_covered db (suc fuel) (cons q qs ∷ rows) nil ts us vs ws hm hr hv match e =
    unfold useful_in_column in cc
useless_prefix_covered db (suc fuel) (cons q qs ∷ rows) (cons p rest) [] us vs ws hm hr hv match e =
    absurd hr
useless_prefix_covered db (suc fuel) (cons q qs ∷ rows) (cons p rest) (t ∷ ts) us empty ws hm hr hv
      match e =
    absurd hv
useless_prefix_covered db (suc fuel) (cons q qs ∷ rows) (cons p rest) (t ∷ ts) us (field v vs) ws hm
      hr hv match e =
    column_covered db (is_pattern_useful db fuel) (useless_prefix_covered db fuel)
      (cons q qs ∷ rows) p rest t ts us v vs ws hm hr.0 hr.1 hv.0 hv.1 (unfold matches in match) e

-- A row that `is_pattern_useful` calls useless against a typed matrix is covered: whatever it
-- matches, some row of the matrix matches.
pub useless_covered :
    (db : AnalyzerDb) (fuel : ℕ) (m : Matrix) (row : Row) (ts : List TypeId) (vs : Values)
    → MatrixFits db m ts
    → FitTypes db row ts
    → HaveTypes db vs ts
    → is_pattern_useful db fuel m row ≡ returned false
    → matches_row row vs ≡ true
    → covered m vs ≡ true
useless_covered db fuel m row ts vs hm hr hv e match =
    ap (covered m) (sym (append_values-empty vs))
    ∙ useless_prefix_covered db fuel m row ts [] vs empty (rw append-nil hm) hr hv match e
