-- ===== src/ConstExpr/Kinded.antt =====
-- The kinds of constants, and of the expressions that the analysis accepts.
use fe.Prelude.{◌≡◌, ◌≢◌, refl, Bool, Option, none, some}
use fe.Prelude.Int.{ℤ}
use fe.Types.{Integer, Base, numeric, TypeKind}
use fe.ConstExpr.{
  Constant, UnaryOperator, Expr, ternary, bool_operation, bin_operation, unary_operation,
  comp_operation, name, num, Eval, panics, failed, value, ◌>>=◌, Context, expr_typ, eval_expr,
}

-- The kinds of constants.
pub data Kind : Type 0 where
  int_kind address_kind bool_kind str_kind : Kind

abbrev pub kind_of : Constant → Kind
kind_of (Constant.int n) = int_kind
kind_of (Constant.address n) = address_kind
kind_of (Constant.bool b) = bool_kind
kind_of (Constant.str s) = str_kind

-- The kind that a type stands for, if it has constants.
abbrev pub type_kind : TypeKind → Option Kind
type_kind (TypeKind.base (numeric i)) = some int_kind
type_kind (TypeKind.base Base.address) = some address_kind
type_kind (TypeKind.base Base.bool) = some bool_kind
type_kind (TypeKind.string n) = some str_kind
type_kind _ = none

-- The kinds that the operand of a unary operator and its result have.
abbrev pub unary_kind : UnaryOperator → Kind
unary_kind UnaryOperator.not = bool_kind
unary_kind _ = int_kind

-- The kinds of constants that can be compared.
abbrev pub IsComparable : Option Kind → Type 0
IsComparable (some int_kind) = Unit
IsComparable (some bool_kind) = Unit
IsComparable _ = ⊥

abbrev pub IsLiteralKind : Option Kind → Type 0
IsLiteralKind (some int_kind) = Unit
IsLiteralKind (some address_kind) = Unit
IsLiteralKind _ = ⊥

-- What the analysis of expressions makes sure of, up to the kinds of the types; of comparisons, it
-- does not make sure that their operands are comparable.
unfoldable pub WellKinded : Expr → Type 0
WellKinded (ternary t a c b) =
    WellKinded a
    × WellKinded c
    × WellKinded b
    × (type_kind (expr_typ c) ≡ some bool_kind)
    × (type_kind (expr_typ a) ≡ type_kind t)
    × (type_kind (expr_typ b) ≡ type_kind t)
WellKinded (bool_operation t l op r) =
    WellKinded l
    × WellKinded r
    × (type_kind (expr_typ l) ≡ some bool_kind)
    × (type_kind (expr_typ r) ≡ some bool_kind)
    × (type_kind t ≡ some bool_kind)
WellKinded (bin_operation t l op r) =
    WellKinded l
    × WellKinded r
    × (type_kind (expr_typ l) ≡ some int_kind)
    × (type_kind (expr_typ r) ≡ some int_kind)
    × (type_kind t ≡ some int_kind)
WellKinded (unary_operation t op e) =
    WellKinded e
    × (type_kind (expr_typ e) ≡ some (unary_kind op))
    × (type_kind t ≡ some (unary_kind op))
WellKinded (comp_operation t l op r) =
    WellKinded l
    × WellKinded r
    × (type_kind (expr_typ l) ≡ type_kind (expr_typ r))
    × IsComparable (type_kind (expr_typ l))
    × (type_kind t ≡ some bool_kind)
WellKinded (Expr.bool t b) = type_kind t ≡ some bool_kind
WellKinded (name t n) = Unit
WellKinded (num t n) = IsLiteralKind (type_kind t)
WellKinded (Expr.str t s) = type_kind t ≡ some str_kind
WellKinded _ = Unit

-- No panic, and a value only of the kind.
abbrev pub Yields : Option Kind → Eval Constant → Type 0
Yields k panics = ⊥
Yields k (failed e) = Unit
Yields k (value c) = k ≡ some (kind_of c)

-- The constants that the context knows have the kinds of the types of their names.
unfoldable pub NamesYield : Context → Expr → Type 0
NamesYield ctx (ternary t a c b) = NamesYield ctx a × NamesYield ctx c × NamesYield ctx b
NamesYield ctx (bool_operation t l op r) = NamesYield ctx l × NamesYield ctx r
NamesYield ctx (bin_operation t l op r) = NamesYield ctx l × NamesYield ctx r
NamesYield ctx (unary_operation t op e) = NamesYield ctx e
NamesYield ctx (comp_operation t l op r) = NamesYield ctx l × NamesYield ctx r
NamesYield ctx (name t n) = Yields (type_kind t) (eval_expr ctx (name t n))
NamesYield ctx _ = Unit

pub bind-Yields {ℓ} :
    {A : Type ℓ} (m : Eval A) (f : A → Eval Constant) (k : Option Kind)
    → m ≢ panics
    → ((a : A) → m ≡ value a → Yields k (f a))
    → Yields k (m >>= f)
bind-Yields panics f k hm hf = absurd (hm refl)
bind-Yields (failed e) f k hm hf = tt
bind-Yields (value a) f k hm hf = hf a refl

-- A step that goes on with a constant of a known kind.
pub use-Yields :
    (m : Eval Constant) (f : Constant → Eval Constant) (k k' : Option Kind)
    → Yields k m
    → ((c : Constant) → k ≡ some (kind_of c) → Yields k' (f c))
    → Yields k' (m >>= f)
use-Yields panics f k k' hm hf = absurd hm
use-Yields (failed e) f k k' hm hf = tt
use-Yields (value c) f k k' hm hf = hf c hm

pub int_constant :
    (c : Constant) → some int_kind ≡ some (kind_of c) → (n : ℤ) × (c ≡ Constant.int n)
int_constant (Constant.int n) h = (n, refl)
int_constant (Constant.address n) h = cc
int_constant (Constant.bool b) h = cc
int_constant (Constant.str s) h = cc

pub bool_constant :
    (c : Constant) → some bool_kind ≡ some (kind_of c) → (b : Bool) × (c ≡ Constant.bool b)
bool_constant (Constant.bool b) h = (b, refl)
bool_constant (Constant.int n) h = cc
bool_constant (Constant.address n) h = cc
bool_constant (Constant.str s) h = cc

pub numeric_type :
    (t : TypeKind) → type_kind t ≡ some int_kind → (i : Integer) × (t ≡ TypeKind.base (numeric i))
numeric_type (TypeKind.base (numeric i)) h = (i, refl)
numeric_type (TypeKind.base Base.bool) h = cc
numeric_type (TypeKind.base Base.address) h = cc
numeric_type (TypeKind.base Base.unit) h = cc
numeric_type t h = cc
