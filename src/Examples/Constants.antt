-- ===== src/Examples/Constants.antt =====
-- Runs of constant evaluation and of the integer types.
use Prim.Native.Nat.{◌^◌}
use fe.Prelude.{
  ℕ, ◌-◌, ◌<◌, ◌≤◌, ◌≡◌, refl, ap, ◌∙◌, Bool, Option, none, some, arith, ltb, leb, if◌then◌else◌,
  Bool-cases, inl, inr, ◌&&◌,
}
use fe.Prelude.Int.{ℤ, pos, negsuc, pos_part, neg_part, ◌+ℤ◌}
use fe.Types.{numeric, TypeKind, u256, u8, u16}
use fe.Integer.{BigIntCasts, CastsLaws, fits, is_signed, can_hold, size, min_value, max_value}
use fe.Integer.Ranges.{InRange}
use fe.ConstExpr.{
  Constant, add, invert, Expr, bin_operation, unary_operation, num, value, Context, BigIntOps,
  eval_expr, eval_bin_op, extract_int_typ, extract_numeric, compute, make_const_numeric_with_ty,
  from_num,
}
use fe.Operations.{bin_pow}
use fe.Operations.Exponents.{exponent_too_large}
use fe.ConstExpr.Kinded.{WellKinded, NamesYield, Yields, type_kind}
use fe.ConstExpr.Kinds.{eval_expr-Yields}
use fe.ConstExpr.Bounds.{bin_operation-IsNumberOf, IsNumberOf}
use fe.ConstExpr.Unchecked.{invert_unsigned}

unfoldable unsigned : ℕ → ℤ → Option ℕ
unsigned w (pos n) = if ltb n (2 ^ w) then some n else none
unsigned w (negsuc n) = none

unfoldable signed : ℕ → ℤ → Option ℤ
signed w z =
    if ltb (pos_part z) (2 ^ (w - 1)) && leb (neg_part z) (2 ^ (w - 1)) then some z else none

abbrev casts : BigIntCasts
casts = record { to_unsigned = unsigned; to_signed = signed }

the_number : (m n : ℕ) → ◌≡◌ {A = Option ℕ} (some m) (some n) → m ≡ n
the_number m n h = cc

the_integer : (y z : ℤ) → ◌≡◌ {A = Option ℤ} (some y) (some z) → y ≡ z
the_integer y z h = cc

unsigned_there : (w : ℕ) (z : ℤ) (n : ℕ) → unsigned w z ≡ some n → (z ≡ pos n) × (n < 2 ^ w)
unfolding unsigned
unsigned_there w (negsuc m) n h = cc
unsigned_there w (pos m) n h = elim (Bool-cases (ltb m (2 ^ w))) [
  | inr big ↦ cc (rw big at h)
  | inl small ↦ let e = the_number m n (rw small at h) in (ap pos e, ground arith)
]

unsigned_back : (w n : ℕ) → n < 2 ^ w → unsigned w (pos n) ≡ some n
unfolding unsigned
unsigned_back w n lt = elim (Bool-cases (ltb n (2 ^ w))) [
  | inr big ↦ absurd (ground arith)
  | inl small ↦ rw small refl
]

abbrev in_width : ℕ → ℤ → Bool
in_width w z = ltb (pos_part z) (2 ^ (w - 1)) && leb (neg_part z) (2 ^ (w - 1))

signed_there :
    (w : ℕ) (z y : ℤ)
    → signed w z ≡ some y
    → (z ≡ y) × (pos_part y < 2 ^ (w - 1)) × (neg_part y ≤ 2 ^ (w - 1))
unfolding signed
signed_there w z y h = elim (Bool-cases (in_width w z)) [
  | inr big ↦ cc (rw big at h)
  | inl small ↦
      let e = the_integer z y (rw small at h) in
      (e, rw (← e) (ground arith), rw (← e) (ground arith))
]

signed_back :
    (w : ℕ) (y : ℤ) → pos_part y < 2 ^ (w - 1) → neg_part y ≤ 2 ^ (w - 1) → signed w y ≡ some y
unfolding signed
signed_back w y lt le = elim (Bool-cases (in_width w y)) [
  | inr big ↦ absurd (ground arith)
  | inl small ↦ rw small refl
]

casts-CastsLaws : CastsLaws casts
casts-CastsLaws = record {
  to_unsigned_some =
      λ w z n. (unsigned_there w z n, λ h. ap (unsigned w) h.0 ∙ unsigned_back w n h.1);
  to_signed_some = λ w z y. (signed_there w z y, λ h. ap (signed w) h.0 ∙ signed_back w y h.1 h.2);
}

-- Addition and complement of integers; the rest is not run here.
abbrev ops : BigIntOps
ops = record {
  plus = λ a b. a +ℤ b;
  minus = λ a b. a;
  times = λ a b. a;
  quotient = λ a b. a;
  remainder = λ a b. a;
  lor = λ a b. a;
  lxor = λ a b. a;
  land = λ a b. a;
  power = λ a n. a;
  complement = λ a. elim a [ pos n ↦ negsuc n | negsuc n ↦ pos n ];
  negate = λ a. a;
}

abbrev ctx : Context
ctx = record {
  constant_value_by_name = λ n. value (some (Constant.address (pos 1)));
  ops = ops;
  casts = casts;
}

abbrev byte : TypeKind
byte = TypeKind.base (numeric u8)

abbrev sum : Expr
sum = bin_operation byte (num byte (pos 2)) add (num byte (pos 3))

sum_is_five : eval_expr ctx sum ≡ value (Constant.int (pos 5))
unfolding eval_expr eval_bin_op extract_int_typ extract_numeric compute make_const_numeric_with_ty
    from_num fits unsigned
sum_is_five = refl

eval_expr-Yields_example : Yields (type_kind byte) (eval_expr ctx sum)
eval_expr-Yields_example =
    eval_expr-Yields ctx sum (unfold WellKinded in (tt, tt, refl, refl, refl))
      (unfold NamesYield in (tt, tt))

bin_operation-IsNumberOf_example : IsNumberOf (Constant.int (pos 5)) byte
bin_operation-IsNumberOf_example =
    bin_operation-IsNumberOf ctx byte (num byte (pos 2)) add (num byte (pos 3))
      (Constant.int (pos 5)) casts-CastsLaws sum_is_five

seven : eval_expr ctx (num byte (pos 7)) ≡ value (Constant.int (pos 7))
unfolding eval_expr make_const_numeric_with_ty from_num extract_int_typ fits unsigned
seven = refl

-- The complement of 7 as a byte is -8.
invert_unsigned_example :
    (eval_expr ctx (unary_operation byte invert (num byte (pos 7)))
      ≡ value (Constant.int (negsuc 7)))
    × ¬ InRange u8 (negsuc 7)
invert_unsigned_example =
    invert_unsigned ctx u8 (num byte (pos 7)) 7 (λ m. refl) (unfold is_signed in refl) seven

-- An exponent of 300, as a u16: u32 holds it.
exponent_too_large_example :
    (n : ℕ) × (pos 300 ≡ pos n)
    × (casts.to_unsigned 32 (pos 300) ≡ none → 2 ^ 32 ≤ n)
    × (casts.to_unsigned 64 (pos 300) ≡ none → 2 ^ 64 ≤ n)
exponent_too_large_example =
    exponent_too_large casts u256 u16 u256 (pos 300) casts-CastsLaws
      (unfold min_value max_value in (omega arith, omega arith))
      (inl (unfold bin_pow is_signed can_hold size in refl))
