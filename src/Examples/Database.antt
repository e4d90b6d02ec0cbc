-- ===== src/Examples/Database.antt =====
-- A database with booleans, pairs of booleans and an enum, and matches on them.
use fe.Prelude.{zero, suc, refl, true, false, none, [], ◌∷◌, arith}
use fe.Types.{Integer, Base, TypeId, TypeKind, EnumVariantKind, AnalyzerDb}
use fe.Pattern.Constructor.{
  ConstructorKind, enum, tuple, literal, field_types, variant_kind, tuple_elts,
}
use fe.Pattern.Syntax.{Pattern, wildcard, constructor, nil, cons, Row, Matrix}
use fe.Pattern.Specialize.Meaning.{MatrixFits}
use fe.Pattern.Value.{Value, build, opaque, empty, field, HasType, FitsType}
use fe.Pattern.Exhaustive.Complete.{Inhabited}

-- 0 is bool, 1 is (bool, bool), 2 an enum with a unit variant and one that holds a u256 (3).
abbrev types : TypeId → TypeKind
types zero = TypeKind.base Base.bool
types (suc zero) = TypeKind.tuple (0 ∷ 0 ∷ [])
types (suc (suc zero)) = TypeKind.enum 0
types (suc (suc (suc t))) = TypeKind.base (Base.numeric Integer.u256)

abbrev pub db : AnalyzerDb
db = record {
  lookup_intern_type = types;
  enum_variants = λ e. EnumVariantKind.unit ∷ EnumVariantKind.tuple (3 ∷ []) ∷ [];
  struct_fields = λ s. [];
}

abbrev pub yes_ : ConstructorKind
yes_ = literal true 0

abbrev pub no_ : ConstructorKind
no_ = literal false 0

abbrev pub lit : ConstructorKind → Pattern
lit c = constructor c nil 0

abbrev pub any_ : TypeId → Pattern
any_ t = wildcard none t

abbrev pair : Pattern → Pattern → Row
pair p q = cons (constructor (tuple 1) (cons p (cons q nil)) 1) nil

-- (true, _), (false, true), (_, false)
abbrev pub pairs : Matrix
pairs = pair (lit yes_) (any_ 0) ∷ pair (lit no_) (lit yes_) ∷ pair (any_ 0) (lit no_) ∷ []

-- true and false
abbrev pub bools : Matrix
bools = cons (lit yes_) nil ∷ cons (lit no_) nil ∷ []

-- Some(_) only
abbrev pub just_some : Matrix
just_some = cons (constructor (enum 0 1) (cons (any_ 3) nil) 2) nil ∷ []

abbrev pub some_value : Value
some_value = build (enum 0 1) (field (opaque 7) empty)

abbrev pub none_value : Value
none_value = build (enum 0 0) empty

abbrev pub bool_value : ConstructorKind → Value
bool_value c = build c empty

abbrev pub pair_value : ConstructorKind → ConstructorKind → Value
pair_value c d = build (tuple 1) (field (bool_value c) (field (bool_value d) empty))

pub pairs-fit : MatrixFits db pairs (1 ∷ [])
unfolding FitsType field_types tuple_elts
pairs-fit = (
  ((refl, refl, ((refl, (true, refl), tt), (refl, tt))), tt),
  (
    ((refl, refl, ((refl, (false, refl), tt), ((refl, (true, refl), tt), tt))), tt),
    (((refl, refl, (refl, ((refl, (false, refl), tt), tt))), tt), tt),
  ),
)

pub bools-fit : MatrixFits db bools (0 ∷ [])
unfolding FitsType field_types
bools-fit = (((refl, (true, refl), tt), tt), (((refl, (false, refl), tt), tt), tt))

pub just_some-fits : MatrixFits db just_some (2 ∷ [])
unfolding FitsType field_types variant_kind
just_some-fits = (((refl, (refl, omega arith), (refl, tt)), tt), tt)

pub no_yes : HasType db (pair_value no_ yes_) 1
unfolding HasType field_types tuple_elts
no_yes = (refl, (((false, refl), tt), (((true, refl), tt), tt)))

pub inhabited : Inhabited db
unfolding HasType field_types tuple_elts variant_kind
inhabited zero = (bool_value yes_, ((true, refl), tt))
inhabited (suc zero) =
    (pair_value no_ yes_, (refl, (((false, refl), tt), (((true, refl), tt), tt))))
inhabited (suc (suc zero)) = (none_value, ((refl, omega arith), tt))
inhabited (suc (suc (suc n))) = (opaque 0, tt)
