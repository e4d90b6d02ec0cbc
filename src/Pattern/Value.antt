-- ===== src/Pattern/Value.antt =====
-- Values that patterns are matched against, their types, and what it means to match.
use fe.Prelude.{ℕ, suc, ◌<◌, ◌≡◌, Bool, true, false, ◌&&◌, ◌||◌, List, [], ◌∷◌, length, any}
use fe.Types.{TypeId, Base, TypeKind, AnalyzerDb, typ}
use fe.Pattern.Constructor.{ConstructorKind, enum, tuple, struct, literal, ctor_eq, field_types}
use fe.Pattern.Syntax.{Pattern, Patterns, wildcard, constructor, or, nil, cons, Matrix}

-- A value built by a constructor, or one of a type that no constructor pattern can take apart.
mutual
  pub data Value : Type 0 where
    build : ConstructorKind → Values → Value
    opaque : ℕ → Value

  pub data Values : Type 0 where
    empty : Values
    field : Value → Values → Values

abbrev pub append_values : Values → Values → Values
append_values empty ws = ws
append_values (field v vs) ws = field v (append_values vs ws)

abbrev pub count_values : Values → ℕ
count_values empty = 0
count_values (field v vs) = suc (count_values vs)

unfoldable mutual
  pub matches : Pattern → Value → Bool
  matches (wildcard b t) v = true
  matches (constructor c fs t) (build d vs) = ctor_eq c d && matches_row fs vs
  matches (constructor c fs t) (opaque n) = false
  matches (or ps t) v = matches_any ps v

  pub matches_row : Patterns → Values → Bool
  matches_row nil vs = true
  matches_row (cons p ps) empty = false
  matches_row (cons p ps) (field v vs) = matches p v && matches_row ps vs

  pub matches_any : Patterns → Value → Bool
  matches_any nil v = false
  matches_any (cons p ps) v = matches p v || matches_any ps v

-- Some row matches.
abbrev pub covered : Matrix → Values → Bool
covered m vs = any (λ row. matches_row row vs) m

-- The place of a constructor among those of its type.
abbrev pub ctor_index : ConstructorKind → ℕ
ctor_index (enum e i) = i
ctor_index (tuple t) = 0
ctor_index (struct s) = 0
ctor_index (literal true t) = 0
ctor_index (literal false t) = 1

abbrev pub HasCtorKind : AnalyzerDb → TypeId → TypeKind → ConstructorKind → Type 0
HasCtorKind db t (TypeKind.enum e) c =
    (c ≡ enum e (ctor_index c)) × (ctor_index c < length (db.enum_variants e))
HasCtorKind db t (TypeKind.tuple items) c = c ≡ tuple t
HasCtorKind db t (TypeKind.struct s) c = c ≡ struct s
HasCtorKind db t (TypeKind.base Base.bool) c = (b : Bool) × (c ≡ literal b t)
HasCtorKind db t _ c = ⊥

-- `c` is a constructor of the type `t`.
abbrev pub HasCtor : AnalyzerDb → TypeId → ConstructorKind → Type 0
HasCtor db t c = HasCtorKind db t (typ db t) c

abbrev pub IsOpaqueKind : TypeKind → Type 0
IsOpaqueKind (TypeKind.enum e) = ⊥
IsOpaqueKind (TypeKind.tuple items) = ⊥
IsOpaqueKind (TypeKind.struct s) = ⊥
IsOpaqueKind (TypeKind.base Base.bool) = ⊥
IsOpaqueKind _ = Unit

unfoldable mutual
  pub HasType : AnalyzerDb → Value → TypeId → Type 0
  HasType db (build c vs) t = HasCtor db t c × HaveTypes db vs (field_types db c)
  HasType db (opaque n) t = IsOpaqueKind (typ db t)

  pub HaveTypes : AnalyzerDb → Values → List TypeId → Type 0
  HaveTypes db empty [] = Unit
  HaveTypes db empty (t ∷ ts) = ⊥
  HaveTypes db (field v vs) [] = ⊥
  HaveTypes db (field v vs) (t ∷ ts) = HasType db v t × HaveTypes db vs ts

-- A pattern fits a type: its constructors are the type's, with a pattern for each field.
unfoldable mutual
  pub FitsType : AnalyzerDb → Pattern → TypeId → Type 0
  FitsType db (wildcard b t') t = t' ≡ t
  FitsType db (constructor c fs t') t =
      (t' ≡ t) × HasCtor db t c × FitTypes db fs (field_types db c)
  FitsType db (or ps t') t = (t' ≡ t) × AllFit db ps t

  pub FitTypes : AnalyzerDb → Patterns → List TypeId → Type 0
  FitTypes db nil [] = Unit
  FitTypes db nil (t ∷ ts) = ⊥
  FitTypes db (cons p ps) [] = ⊥
  FitTypes db (cons p ps) (t ∷ ts) = FitsType db p t × FitTypes db ps ts

  pub AllFit : AnalyzerDb → Patterns → TypeId → Type 0
  AllFit db nil t = Unit
  AllFit db (cons p ps) t = FitsType db p t × AllFit db ps t
