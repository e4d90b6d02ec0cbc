-- ===== src/ConstExpr.antt =====
-- Constant evaluation (crates/analyzer/src/traversal/const_expr.rs): expressions with the type that
-- the analysis recorded for each (`expr_typ`), constants, and `eval_expr`.
pub mod Kinded
pub mod Kinds
pub mod Bounds
pub mod Unchecked
use fe.Prelude.{
  ℕ, Bool, true, false, not as not_bool, ◌&&◌, ◌||◌, Option, none, some, String, leb, ◌-◌, ◌==◌,
  if◌then◌else◌,
}
use fe.Prelude.Int.{ℤ, pos, negsuc, ltb_ℤ, leb_ℤ, eq_ℤ, neg_ℕ}
use fe.Types.{Integer, Base, numeric, TypeKind}
use fe.Integer.{BigIntCasts, fits, is_signed, bits, min_value, u256_min, address_max}

-- `Constant` of context.rs
pub data Constant : Type 0 where
  int : ℤ → Constant
  address : ℤ → Constant
  bool : Bool → Constant
  str : String → Constant

pub data BoolOperator : Type 0 where
  and or : BoolOperator

pub data BinOperator : Type 0 where
  add sub mult div mod_ pow l_shift r_shift bit_or bit_xor bit_and : BinOperator

pub data UnaryOperator : Type 0 where
  invert not u_sub : UnaryOperator

pub data CompOperator : Type 0 where
  eq not_eq lt lt_e gt gt_e : CompOperator

-- `ast::Expr`. A numeric literal is the number that it reads as; the kinds that are never constant
-- keep only their type.
pub data Expr : Type 0 where
  ternary : TypeKind → (if_expr test else_expr : Expr) → Expr
  bool_operation : TypeKind → Expr → BoolOperator → Expr → Expr
  bin_operation : TypeKind → Expr → BinOperator → Expr → Expr
  unary_operation : TypeKind → UnaryOperator → Expr → Expr
  comp_operation : TypeKind → Expr → CompOperator → Expr → Expr
  bool : TypeKind → Bool → Expr
  name : TypeKind → String → Expr
  num : TypeKind → ℤ → Expr
  str : TypeKind → String → Expr
  subscript path attribute call list repeat tuple unit : TypeKind → Expr

pub data ConstEvalError : Type 0 where
  not_const overflow zero_division : ConstEvalError
  other_error : ℕ → ConstEvalError

-- The result of an evaluation: a panic, a reported error, or a value.
pub data Eval {ℓ} (A : Type ℓ) : Type ℓ where
  panics : Eval A
  failed : ConstEvalError → Eval A
  value : A → Eval A

infixl 5 ◌>>=◌
abbrev pub ◌>>=◌ {ℓ κ} : {A : Type ℓ} {B : Type κ} → Eval A → (A → Eval B) → Eval B
panics >>= f = panics
failed e >>= f = failed e
value a >>= f = f a

-- The arithmetic of `BigInt`, which belongs to another crate.
pub record BigIntOps : Type 0 where
  pub plus : ℤ → ℤ → ℤ
  pub minus : ℤ → ℤ → ℤ
  pub times : ℤ → ℤ → ℤ
  pub quotient : ℤ → ℤ → ℤ
  pub remainder : ℤ → ℤ → ℤ
  pub lor : ℤ → ℤ → ℤ
  pub lxor : ℤ → ℤ → ℤ
  pub land : ℤ → ℤ → ℤ
  pub power : ℤ → ℕ → ℤ
  pub complement : ℤ → ℤ
  pub negate : ℤ → ℤ

-- What the evaluation asks of its context, and of other crates.
pub record Context : Type 0 where
  pub constant_value_by_name : String → Eval (Option Constant)
  pub ops : BigIntOps
  pub casts : BigIntCasts

abbrev pub expr_typ : Expr → TypeKind
expr_typ (ternary t a c b) = t
expr_typ (bool_operation t l o r) = t
expr_typ (bin_operation t l o r) = t
expr_typ (unary_operation t o e) = t
expr_typ (comp_operation t l o r) = t
expr_typ (bool t b) = t
expr_typ (name t n) = t
expr_typ (num t n) = t
expr_typ (str t s) = t
expr_typ (subscript t) = t
expr_typ (path t) = t
expr_typ (attribute t) = t
expr_typ (call t) = t
expr_typ (list t) = t
expr_typ (repeat t) = t
expr_typ (tuple t) = t
expr_typ (unit t) = t

unfoldable pub extract_int_typ : TypeKind → Eval Integer
extract_int_typ (TypeKind.base (numeric i)) = value i
extract_int_typ _ = panics

unfoldable pub extract_numeric : Constant → Eval ℤ
extract_numeric (int n) = value n
extract_numeric _ = panics

unfoldable pub extract_bool : Constant → Eval Bool
extract_bool (bool b) = value b
extract_bool _ = panics

unfoldable pub make_const_numeric_with_ty : Context → ℤ → TypeKind → Eval Constant
unfolding extract_int_typ
make_const_numeric_with_ty ctx val typ = do
  i ← extract_int_typ typ
  if fits ctx.casts i val then value (int val) else failed overflow

unfoldable pub from_num : Context → ℤ → TypeKind → Eval Constant
unfolding make_const_numeric_with_ty
from_num ctx n (TypeKind.base (numeric i)) =
    make_const_numeric_with_ty ctx n (TypeKind.base (numeric i))
from_num ctx n (TypeKind.base Base.address) =
    if leb_ℤ (pos 0) n && leb_ℤ n address_max then value (address n) else failed overflow
from_num ctx n _ = panics

-- 2 to the power of the type's bits, less one.
unfoldable pub make_mask : Context → TypeKind → Eval ℤ
unfolding extract_int_typ
make_mask ctx typ = do
  i ← extract_int_typ typ
  value (ctx.ops.minus (ctx.ops.power (pos 2) (bits i)) (pos 1))

-- The two shifts: an exponent that is not below the bits of the left type is an overflow.
unfoldable pub shift : Context → Integer → Option ℕ → TypeKind → (ℕ → ℤ) → Eval ℤ
unfolding make_mask
shift ctx lhs_ty none typ shifted = failed overflow
shift ctx lhs_ty (some exponent) typ shifted =
    if leb (bits lhs_ty) exponent
    then failed overflow
    else do mask ← make_mask ctx typ; value (ctx.ops.land (shifted exponent) mask)

-- A base with an exponent that no `u32` holds.
unfoldable pub raise : Context → ℤ → Option ℕ → Eval ℤ
raise ctx lhs (some exponent) = value (ctx.ops.power lhs exponent)
raise ctx lhs none =
    if eq_ℤ lhs (pos 0)
    then value (pos 0)
    else if eq_ℤ lhs (pos 1)
    then value (pos 1)
    else failed overflow

-- The match of `eval_bin_op` on the operator.
unfoldable pub compute : Context → Integer → BinOperator → ℤ → ℤ → TypeKind → Eval ℤ
unfolding shift raise
compute ctx lhs_ty add lhs rhs typ = value (ctx.ops.plus lhs rhs)
compute ctx lhs_ty sub lhs rhs typ = value (ctx.ops.minus lhs rhs)
compute ctx lhs_ty mult lhs rhs typ = value (ctx.ops.times lhs rhs)
compute ctx lhs_ty div lhs rhs typ =
    if eq_ℤ rhs (pos 0)
    then failed zero_division
    else if is_signed lhs_ty && eq_ℤ lhs (min_value lhs_ty) && eq_ℤ rhs (negsuc 0)
    then failed overflow
    else value (ctx.ops.quotient lhs rhs)
compute ctx lhs_ty mod_ lhs rhs typ =
    if eq_ℤ rhs (pos 0) then failed zero_division else value (ctx.ops.remainder lhs rhs)
compute ctx lhs_ty pow lhs rhs typ = raise ctx lhs (ctx.casts.to_unsigned 32 rhs)
compute ctx lhs_ty l_shift lhs rhs typ =
    shift ctx lhs_ty (ctx.casts.to_unsigned 64 rhs) typ
      (λ e. ctx.ops.times lhs (ctx.ops.power (pos 2) e))
compute ctx lhs_ty r_shift lhs rhs typ =
    shift ctx lhs_ty (ctx.casts.to_unsigned 64 rhs) typ
      (λ e. ctx.ops.quotient lhs (ctx.ops.power (pos 2) e))
compute ctx lhs_ty bit_or lhs rhs typ = value (ctx.ops.lor lhs rhs)
compute ctx lhs_ty bit_xor lhs rhs typ = value (ctx.ops.lxor lhs rhs)
compute ctx lhs_ty bit_and lhs rhs typ = value (ctx.ops.land lhs rhs)

unfoldable pub eval_bin_op :
    Context → TypeKind → TypeKind → BinOperator → Eval Constant → Eval Constant → Eval Constant
unfolding extract_int_typ extract_numeric compute make_const_numeric_with_ty
eval_bin_op ctx typ left_typ op left right = do
  lhs_ty ← extract_int_typ left_typ
  l ← left
  r ← right
  lhs ← extract_numeric l
  rhs ← extract_numeric r
  result ← compute ctx lhs_ty op lhs rhs typ
  make_const_numeric_with_ty ctx result typ

unfoldable pub apply_unary : Context → UnaryOperator → Constant → Eval Constant
unfolding extract_numeric extract_bool
apply_unary ctx invert c = do n ← extract_numeric c; value (int (ctx.ops.complement n))
apply_unary ctx UnaryOperator.not c = do b ← extract_bool c; value (bool (not_bool b))
apply_unary ctx u_sub c = do n ← extract_numeric c; value (int (ctx.ops.negate n))

unfoldable pub comp_int : CompOperator → ℤ → ℤ → Bool
comp_int eq l r = eq_ℤ l r
comp_int not_eq l r = not_bool (eq_ℤ l r)
comp_int lt l r = ltb_ℤ l r
comp_int lt_e l r = leb_ℤ l r
comp_int gt l r = ltb_ℤ r l
comp_int gt_e l r = leb_ℤ r l

abbrev same_bool : Bool → Bool → Bool
same_bool true r = r
same_bool false r = not_bool r

-- On booleans `false` is below `true`.
unfoldable pub comp_bool : CompOperator → Bool → Bool → Bool
comp_bool eq l r = same_bool l r
comp_bool not_eq l r = not_bool (same_bool l r)
comp_bool lt l r = not_bool l && r
comp_bool lt_e l r = not_bool l || r
comp_bool gt l r = l && not_bool r
comp_bool gt_e l r = l || not_bool r

unfoldable pub compare_constants : CompOperator → Constant → Constant → Eval Constant
unfolding comp_int comp_bool
compare_constants op (int l) (int r) = value (bool (comp_int op l r))
compare_constants op (bool l) (bool r) = value (bool (comp_bool op l r))
compare_constants op _ _ = panics

unfoldable pub apply_bool : BoolOperator → Constant → Constant → Eval Constant
apply_bool and (bool l) (bool r) = value (bool (l && r))
apply_bool or (bool l) (bool r) = value (bool (l || r))
apply_bool op _ _ = panics

unfoldable pub choose : Constant → Constant → Constant → Eval Constant
choose (bool c) then_ else_ = value (if c then then_ else else_)
choose _ then_ else_ = panics

abbrev named : Option Constant → Eval Constant
named (some c) = value c
named none = failed not_const

-- `eval_expr`, with its calls of `eval_ternary`, `eval_bool_op`, `eval_unary_op` and
-- `eval_comp_op`.
unfoldable pub eval_expr : Context → Expr → Eval Constant
unfolding eval_bin_op apply_unary compare_constants apply_bool choose from_num
eval_expr ctx (ternary t if_expr test else_expr) = do
  then_ ← eval_expr ctx if_expr
  cond ← eval_expr ctx test
  else_ ← eval_expr ctx else_expr
  choose cond then_ else_
eval_expr ctx (bool_operation t left op right) = do
  lhs ← eval_expr ctx left
  rhs ← eval_expr ctx right
  apply_bool op lhs rhs
eval_expr ctx (bin_operation t left op right) =
    eval_bin_op ctx t (expr_typ left) op (eval_expr ctx left) (eval_expr ctx right)
eval_expr ctx (unary_operation t op operand) = do
  arg ← eval_expr ctx operand
  apply_unary ctx op arg
eval_expr ctx (comp_operation t left op right) = do
  lhs ← eval_expr ctx left
  rhs ← eval_expr ctx right
  compare_constants op lhs rhs
eval_expr ctx (bool t b) = value (bool b)
eval_expr ctx (name t n) = do found ← ctx.constant_value_by_name n; named found
eval_expr ctx (num t n) = from_num ctx n t
eval_expr ctx (str t s) = value (str s)
eval_expr ctx _ = failed not_const
