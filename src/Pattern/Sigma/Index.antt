-- ===== src/Pattern/Sigma/Index.antt =====
-- The place of a constructor among those of its type.
use fe.Prelude.{
  ℕ, zero, suc, ◌<◌, ◌≡◌, refl, sym, ap, ◌∙◌, Bool, true, false, [], ◌∷◌, arith, ◌==◌, ==_iff, All,
  map, Bool-cases, inl, inr,
}
use fe.Prelude.Pigeonhole.{mem}
use fe.Types.{TypeId, Base, TypeKind, AnalyzerDb, typ}
use fe.Pattern.Constructor.{
  ConstructorKind, enum, tuple, struct, literal, ctor_eq, ctor_eq→eq, ctor_eq_refl,
  ctor_variant_num,
}
use fe.Pattern.Value.{HasCtor, HasCtorKind, ctor_index}
use fe.Pattern.Sigma.{SigmaSet, contains}

literal_index :
    (a b : Bool) {t : TypeId} (c d : ConstructorKind)
    → c ≡ literal a t
    → d ≡ literal b t
    → ctor_index c ≡ ctor_index d
    → c ≡ d
literal_index true true c d p q i = p ∙ sym q
literal_index false false c d p q i = p ∙ sym q
literal_index true false c d p q i = absurd (omega (arith, ap ctor_index p, ap ctor_index q))
literal_index false true c d p q i = absurd (omega (arith, ap ctor_index p, ap ctor_index q))

literal_lt :
    (db : AnalyzerDb) (a b : Bool) {t : TypeId} (c d : ConstructorKind)
    → c ≡ literal a t
    → d ≡ literal b t
    → ctor_index c < ctor_variant_num db d
unfolding ctor_variant_num
literal_lt db true b c d p q = rw (p, q) (omega arith)
literal_lt db false b c d p q = rw (p, q) (omega arith)

literal_at :
    (db : AnalyzerDb) (i : ℕ) (b : Bool) {t : TypeId} (d : ConstructorKind)
    → d ≡ literal b t
    → i < ctor_variant_num db d
    → (c : ConstructorKind) × ((b' : Bool) × (c ≡ literal b' t)) × (ctor_index c ≡ i)
unfolding ctor_variant_num
literal_at db zero b {t} d q lt = (literal true t, (true, refl), refl)
literal_at db (suc zero) b {t} d q lt = (literal false t, (false, refl), refl)
literal_at db (suc (suc i)) b d q lt = absurd (omega (arith, rw q at lt))

module _ (db : AnalyzerDb) (t : TypeId) where
  abbrev pub HaveCtors : SigmaSet → Type 0
  HaveCtors s = All (HasCtor db t) s

  -- Within one type a constructor is known by its place.
  kind-eq_of_index :
      (k : TypeKind) (c d : ConstructorKind)
      → HasCtorKind db t k c
      → HasCtorKind db t k d
      → ctor_index c ≡ ctor_index d
      → c ≡ d
  kind-eq_of_index (TypeKind.enum e) c d hc hd i = hc.0 ∙ ap (enum e) i ∙ sym hd.0
  kind-eq_of_index (TypeKind.tuple items) c d hc hd i = hc ∙ sym hd
  kind-eq_of_index (TypeKind.struct s) c d hc hd i = hc ∙ sym hd
  kind-eq_of_index (TypeKind.base Base.bool) c d hc hd i = literal_index hc.0 hd.0 c d hc.1 hd.1 i
  kind-eq_of_index _ c d hc hd i = absurd hc

  pub index_lt :
      (k : TypeKind) (c d : ConstructorKind)
      → HasCtorKind db t k c
      → HasCtorKind db t k d
      → ctor_index c < ctor_variant_num db d
  unfolding ctor_variant_num
  index_lt (TypeKind.enum e) c d hc hd = rw hd.0 hc.1
  index_lt (TypeKind.tuple items) c d hc hd = rw (hc, hd) (omega arith)
  index_lt (TypeKind.struct s) c d hc hd = rw (hc, hd) (omega arith)
  index_lt (TypeKind.base Base.bool) c d hc hd = literal_lt db hc.0 hd.0 c d hc.1 hd.1
  index_lt _ c d hc hd = absurd hc

  pub ctor_at :
      (k : TypeKind) (d : ConstructorKind) (i : ℕ)
      → HasCtorKind db t k d
      → i < ctor_variant_num db d
      → (c : ConstructorKind) × HasCtorKind db t k c × (ctor_index c ≡ i)
  unfolding ctor_variant_num
  ctor_at (TypeKind.enum e) d i hd lt = (enum e i, (refl, rw hd.0 at lt), refl)
  ctor_at (TypeKind.tuple items) d i hd lt = (tuple t, refl, omega (arith, rw hd at lt))
  ctor_at (TypeKind.struct s) d i hd lt = (struct s, refl, omega (arith, rw hd at lt))
  ctor_at (TypeKind.base Base.bool) d i hd lt = literal_at db i hd.0 d hd.1 lt
  ctor_at _ d i hd lt = absurd hd

  pub contains-eq-mem :
      (s : SigmaSet) (d : ConstructorKind)
      → HaveCtors s
      → HasCtor db t d
      → contains s d ≡ mem (ctor_index d) (map ctor_index s)
  unfolding contains
  contains-eq-mem [] d h hd = refl
  contains-eq-mem (c ∷ cs) d h hd = elim (Bool-cases (ctor_eq c d)) [
    | inl same ↦
        rw (same, (==_iff (ctor_index c) (ctor_index d)).1 (ap ctor_index (ctor_eq→eq c d same)))
          refl
    | inr differ ↦ elim (Bool-cases (ctor_index c == ctor_index d)) [
      | inl e ↦
          let p = kind-eq_of_index (typ db t) c d h.0 hd ((==_iff _ _).0 e) in
          cc (ap (λ x. ctor_eq x d) p, ctor_eq_refl d, differ)
      | inr ne ↦ rw (differ, ne) (contains-eq-mem cs d h.1 hd)
    ]
  ]

-- Each constructor once.
