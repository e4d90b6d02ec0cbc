-- ===== src/Pattern/Constructor.antt =====
-- `ConstructorKind` of pattern_analysis.rs: constructors, their arities and their equality.
use fe.Prelude.{
  ℕ, ◌≡◌, refl, Bool, true, false, ◌&&◌, none, some, List, [], arith, ◌==◌, length, get_elem?,
}
use fe.Types.{TypeId, EnumId, StructId, TypeKind, EnumVariantKind, AnalyzerDb, typ}

pub data ConstructorKind : Type 0 where
  enum : (parent : EnumId) (tag : ℕ) → ConstructorKind
  tuple : TypeId → ConstructorKind
  struct : StructId → ConstructorKind
  literal : Bool → TypeId → ConstructorKind

-- `EnumVariantId::kind`; the `unwrap` of a variant that is not there is read as a unit variant.
unfoldable pub variant_kind : AnalyzerDb → EnumId → ℕ → EnumVariantKind
variant_kind db e i = elim (get_elem? (db.enum_variants e) i) [
  | some k ↦ k
  | none ↦ EnumVariantKind.unit
]

-- `TypeId::tuple_elts`; `unreachable!()` on another type is read as no elements.
unfoldable pub tuple_elts : AnalyzerDb → TypeId → List TypeId
tuple_elts db t = elim (typ db t) [ TypeKind.tuple items ↦ items | _ ↦ [] ]

abbrev variant_types : EnumVariantKind → List TypeId
variant_types EnumVariantKind.unit = []
variant_types (EnumVariantKind.tuple types) = types

unfoldable pub field_types : AnalyzerDb → ConstructorKind → List TypeId
unfolding variant_kind tuple_elts
field_types db (enum e i) = variant_types (variant_kind db e i)
field_types db (tuple t) = tuple_elts db t
field_types db (struct s) = db.struct_fields s
field_types db (literal b t) = []

abbrev variant_arity : EnumVariantKind → ℕ
variant_arity EnumVariantKind.unit = 0
variant_arity (EnumVariantKind.tuple types) = length types

unfoldable pub arity : AnalyzerDb → ConstructorKind → ℕ
unfolding variant_kind tuple_elts
arity db (enum e i) = variant_arity (variant_kind db e i)
arity db (tuple t) = length (tuple_elts db t)
arity db (struct s) = length (db.struct_fields s)
arity db (literal b t) = 0

unfoldable pub ctor_variant_num : AnalyzerDb → ConstructorKind → ℕ
ctor_variant_num db (enum e i) = length (db.enum_variants e)
ctor_variant_num db (tuple t) = 1
ctor_variant_num db (struct s) = 1
ctor_variant_num db (literal b t) = 2

abbrev pub bool_eq : Bool → Bool → Bool
bool_eq true b = b
bool_eq false true = false
bool_eq false false = true

-- The derived `PartialEq`.
unfoldable pub ctor_eq : ConstructorKind → ConstructorKind → Bool
ctor_eq (enum e i) (enum e' i') = e == e' && i == i'
ctor_eq (tuple t) (tuple t') = t == t'
ctor_eq (struct s) (struct s') = s == s'
ctor_eq (literal b t) (literal b' t') = bool_eq b b' && t == t'
ctor_eq _ _ = false

pub ctor_eq→eq : (c d : ConstructorKind) → ctor_eq c d ≡ true → c ≡ d
unfolding ctor_eq
ctor_eq→eq (enum e i) (enum e' i') h = ground arith
ctor_eq→eq (tuple t) (tuple t') h = ground arith
ctor_eq→eq (struct s) (struct s') h = ground arith
ctor_eq→eq (literal b t) (literal b' t') h = ground arith
ctor_eq→eq c d h = cc

pub ctor_eq_refl : (c : ConstructorKind) → ctor_eq c c ≡ true
unfolding ctor_eq
ctor_eq_refl (enum e i) = ground arith
ctor_eq_refl (tuple t) = ground arith
ctor_eq_refl (struct s) = ground arith
ctor_eq_refl (literal b t) = ground arith

pub ctor_eq_sym : (c d : ConstructorKind) → ctor_eq c d ≡ ctor_eq d c
unfolding ctor_eq
ctor_eq_sym (enum e i) (enum e' i') = ground arith
ctor_eq_sym (tuple t) (tuple t') = ground arith
ctor_eq_sym (struct s) (struct s') = ground arith
ctor_eq_sym (literal b t) (literal b' t') = ground arith
ctor_eq_sym c d = ground arith

-- The number of a constructor's field types is its arity, for every constructor.
pub length-field_types :
    (db : AnalyzerDb) (c : ConstructorKind) → length (field_types db c) ≡ arity db c
unfolding field_types arity
length-field_types db (enum e i) = go (variant_kind db e i)
  where
    go : (k : EnumVariantKind) → length (variant_types k) ≡ variant_arity k
    go EnumVariantKind.unit = refl
    go (EnumVariantKind.tuple types) = refl
length-field_types db (tuple t) = refl
length-field_types db (struct s) = refl
length-field_types db (literal b t) = refl
