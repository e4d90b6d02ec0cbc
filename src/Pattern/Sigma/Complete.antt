-- ===== src/Pattern/Sigma/Complete.antt =====
-- `SigmaSet::is_complete` against the constructors of a type.
use fe.Prelude.{
  ◌⊎◌, inl, inr, Bool-cases, ℕ, ◌<◌, ◌≡◌, sym, ap, ◌∙◌, true, false, List, [], ◌∷◌, arith, ==_iff,
  length, map, length-map,
}
use fe.Prelude.Pigeonhole.{mem, Distinct, Below, mem_of_full, missing_of_short, length-le-bound}
use fe.Types.{TypeId, AnalyzerDb, typ}
use fe.Pattern.Constructor.{ConstructorKind, ctor_variant_num}
use fe.Pattern.Value.{HasCtor, ctor_index}
use fe.Pattern.Sigma.{SigmaSet, contains, is_complete}
use fe.Pattern.Sigma.Index.{HaveCtors, contains-eq-mem, ctor_at, index_lt}
use fe.Pattern.Sigma.Column.{DistinctCtors}

module _ (db : AnalyzerDb) (t : TypeId) where
  indices-Distinct :
      (s : SigmaSet) → HaveCtors db t s → DistinctCtors s → Distinct (map ctor_index s)
  indices-Distinct [] h d = tt
  indices-Distinct (c ∷ cs) h d =
      (sym (contains-eq-mem db t cs c h.1 h.0) ∙ d.0, indices-Distinct cs h.1 d.1)

  indices-Below :
      (s : SigmaSet) (c : ConstructorKind)
      → HaveCtors db t s
      → HasCtor db t c
      → Below (ctor_variant_num db c) (map ctor_index s)
  indices-Below [] c h hc = tt
  indices-Below (d ∷ ds) c h hc = (index_lt db t (typ db t) d c h.0 hc, indices-Below ds c h.1 hc)

  pub contains_of_complete :
      (s : SigmaSet) (d : ConstructorKind)
      → is_complete db s ≡ true
      → HaveCtors db t s
      → DistinctCtors s
      → HasCtor db t d
      → contains s d ≡ true
  unfolding is_complete
  contains_of_complete [] d full h ds hd = cc
  contains_of_complete (c ∷ cs) d full h ds hd =
      contains-eq-mem db t (c ∷ cs) d h hd
      ∙ mem_of_full (ctor_variant_num db c) (ctor_index d) (map ctor_index (c ∷ cs))
          (indices-Distinct (c ∷ cs) h ds) (indices-Below (c ∷ cs) c h h.0)
          (length-map (c ∷ cs) ctor_index ∙ (==_iff _ _).0 full)
          (index_lt db t (typ db t) d c hd h.0)

  short_of_incomplete :
      (c : ConstructorKind) (cs : SigmaSet)
      → is_complete db (c ∷ cs) ≡ false
      → HaveCtors db t (c ∷ cs)
      → DistinctCtors (c ∷ cs)
      → length (map ctor_index (c ∷ cs)) < ctor_variant_num db c
  unfolding is_complete
  short_of_incomplete c cs part h ds =
      let s : SigmaSet = c ∷ cs in
      ground (
        arith,
        length-map s ctor_index,
        length-le-bound (ctor_variant_num db c) (map ctor_index s) (indices-Distinct s h ds)
            (indices-Below s c h h.0),
      )

  pub missing_of_incomplete :
      (c : ConstructorKind) (cs : SigmaSet)
      → is_complete db (c ∷ cs) ≡ false
      → HaveCtors db t (c ∷ cs)
      → DistinctCtors (c ∷ cs)
      → (d : ConstructorKind) × HasCtor db t d × (contains (c ∷ cs) d ≡ false)
  unfolding is_complete
  missing_of_incomplete c cs part h ds =
      let s : SigmaSet = c ∷ cs in
      let indices : List ℕ = map ctor_index s in
      let short : length indices < ctor_variant_num db c = short_of_incomplete c cs part h ds in
      let (i, lt, absent) = missing_of_short (ctor_variant_num db c) indices short in
      let (d, hd, e) = ctor_at db t (typ db t) c i h.0 lt in
      (d, hd, contains-eq-mem db t s d h hd ∙ (ap (λ x. mem x indices) e ∙ absent))

  -- A non-empty set of distinct constructors of one type either is accepted by `is_complete` and
  -- contains any given constructor of the type, or is rejected and lacks some constructor of it.
  pub is_complete_lem :
      (c : ConstructorKind) (cs : SigmaSet) (d : ConstructorKind)
      → HaveCtors db t (c ∷ cs)
      → DistinctCtors (c ∷ cs)
      → HasCtor db t d
      → ((is_complete db (c ∷ cs) ≡ true) × (contains (c ∷ cs) d ≡ true))
        ⊎ ((is_complete db (c ∷ cs) ≡ false)
            × ((d' : ConstructorKind) × HasCtor db t d' × (contains (c ∷ cs) d' ≡ false)))
  is_complete_lem c cs d h ds hd = elim (Bool-cases (is_complete db (c ∷ cs))) [
    | inl full ↦ inl (full, contains_of_complete (c ∷ cs) d full h ds hd)
    | inr part ↦ inr (part, missing_of_incomplete c cs part h ds)
  ]
