-- ===== src/ConstExpr/Bounds.antt =====
-- The range check of `make_const_numeric_with_ty`, through the evaluation of binary operations and
-- of literals.
use fe.Prelude.{◌≡◌, refl, ◌⊎◌, inl, inr, Bool-cases, ◌&&◌, arith, &&_split}
use fe.Prelude.Int.{ℤ, pos, leb_ℤ, ◌≤ℤ◌}
use fe.Types.{Integer, Base, numeric, TypeKind}
use fe.Integer.{fits, CastsLaws, address_max}
use fe.Integer.Ranges.{InRange, fits_iff}
use fe.ConstExpr.{
  Constant, BinOperator, Expr, bin_operation, num, Eval, panics, failed, value, ◌>>=◌, Context,
  expr_typ, extract_int_typ, extract_numeric, make_const_numeric_with_ty, from_num, compute,
  eval_bin_op, eval_expr,
}

>>=-eq-value {ℓ κ} :
    {A : Type ℓ} {B : Type κ} (m : Eval A) (f : A → Eval B) {b : B}
    → (m >>= f) ≡ value b
    → (a : A) × (f a ≡ value b)
>>=-eq-value (value a) f h = (a, h)
>>=-eq-value panics f h = cc
>>=-eq-value (failed e) f h = cc

-- The constant is a number of the type, and the type is an integer type.
abbrev pub IsNumberOf : Constant → TypeKind → Type 0
IsNumberOf c t =
    (i : Integer) × (v : ℤ) × (t ≡ TypeKind.base (numeric i)) × (c ≡ Constant.int v) × InRange i v

the_constant : (c d : Constant) → ◌≡◌ {A = Eval Constant} (value c) (value d) → d ≡ c
the_constant c d h = cc

module _ (ctx : Context) (laws : CastsLaws ctx.casts) where
  make-IsNumberOf :
      (n : ℤ) (t : TypeKind) (c : Constant)
      → make_const_numeric_with_ty ctx n t ≡ value c
      → IsNumberOf c t
  unfolding make_const_numeric_with_ty extract_int_typ
  make-IsNumberOf n (TypeKind.base (numeric i)) c h = elim (Bool-cases (fits ctx.casts i n)) [
    | inl fit ↦ (
      i,
      n,
      refl,
      the_constant (Constant.int n) c (rw fit at h),
      (fits_iff ctx.casts i n laws).0 fit,
    )
    | inr over ↦ cc (rw over at h)
  ]
  make-IsNumberOf n (TypeKind.base Base.bool) c h = cc
  make-IsNumberOf n (TypeKind.base Base.address) c h = cc
  make-IsNumberOf n (TypeKind.base Base.unit) c h = cc
  make-IsNumberOf n t c h = cc

-- Where the integer conversions keep their contract, the value that a constant binary operation
-- evaluates to is a number in the range of the operation's integer type.
pub bin_operation-IsNumberOf :
    (ctx : Context) (t : TypeKind) (left : Expr) (op : BinOperator) (right : Expr) (c : Constant)
    → CastsLaws ctx.casts
    → eval_expr ctx (bin_operation t left op right) ≡ value c
    → IsNumberOf c t
unfolding eval_expr eval_bin_op
bin_operation-IsNumberOf ctx t left op right c laws h =
    let (i, h1) = >>=-eq-value (extract_int_typ (expr_typ left)) _ h in
    let (l, h2) = >>=-eq-value (eval_expr ctx left) _ h1 in
    let (r, h3) = >>=-eq-value (eval_expr ctx right) _ h2 in
    let (lhs, h4) = >>=-eq-value (extract_numeric l) _ h3 in
    let (rhs, h5) = >>=-eq-value (extract_numeric r) _ h4 in
    let (v, h6) = >>=-eq-value (compute ctx i op lhs rhs t) _ h5 in
    make-IsNumberOf ctx laws v t c h6

-- The constant is the address, and the type is the type of addresses.
abbrev pub IsAddressOf : Constant → TypeKind → Type 0
IsAddressOf c t =
    (v : ℤ) × (t ≡ TypeKind.base Base.address)
    × (c ≡ Constant.address v)
    × (pos 0 ≤ℤ v)
    × (v ≤ℤ address_max)

-- Where the integer conversions keep their contract, a literal evaluates only to a number in the
-- range of its integer type, or to an address of 160 bits.
num-InRange :
    (ctx : Context) (t : TypeKind) (n : ℤ) (c : Constant)
    → CastsLaws ctx.casts
    → eval_expr ctx (num t n) ≡ value c
    → IsNumberOf c t ⊎ IsAddressOf c t
unfolding eval_expr from_num
num-InRange ctx (TypeKind.base (numeric i)) n c laws h =
    inl (make-IsNumberOf ctx laws n (TypeKind.base (numeric i)) c h)
num-InRange ctx (TypeKind.base Base.address) n c laws h =
    elim (Bool-cases (leb_ℤ (pos 0) n && leb_ℤ n address_max)) [
      | inl fit ↦
          let (low, high) = &&_split (leb_ℤ (pos 0) n) (leb_ℤ n address_max) fit in
          inr
            (n, refl, the_constant (Constant.address n) c (rw fit at h), ground arith, ground arith)
      | inr over ↦ cc (rw over at h)
    ]
num-InRange ctx (TypeKind.base Base.bool) n c laws h = cc
num-InRange ctx (TypeKind.base Base.unit) n c laws h = cc
num-InRange ctx t n c laws h = cc
