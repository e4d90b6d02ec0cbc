-- ===== src/ConstExpr/Kinds.antt =====
-- Constant evaluation against the kinds of constants that the types of expressions stand for.
use fe.Prelude.{ℕ, ◌≡◌, ◌≢◌, refl, inl, inr, Option, none, some, Bool-cases, ◌&&◌, leb}
use fe.Prelude.Int.{ℤ, pos, negsuc, eq_ℤ, leb_ℤ}
use fe.Types.{Integer, Base, numeric, TypeKind}
use fe.Integer.{fits, is_signed, bits, min_value, address_max}
use fe.ConstExpr.{
  Constant, BoolOperator, and, BinOperator, add, sub, mult, div, mod_, pow, l_shift, r_shift,
  bit_or, bit_xor, bit_and, UnaryOperator, invert, u_sub, CompOperator, Expr, ternary,
  bool_operation, bin_operation, unary_operation, comp_operation, name, num, Eval, panics, Context,
  expr_typ, extract_int_typ, extract_numeric, extract_bool, make_const_numeric_with_ty, from_num,
  make_mask, shift, raise, compute, eval_bin_op, apply_unary, compare_constants, apply_bool, choose,
  eval_expr,
}
use fe.ConstExpr.Kinded.{
  Kind, int_kind, address_kind, bool_kind, str_kind, kind_of, type_kind, unary_kind, IsComparable,
  IsLiteralKind, WellKinded, Yields, NamesYield, bind-Yields, use-Yields, int_constant,
  bool_constant, numeric_type,
}

module _ (ctx : Context) where
  make-Yields :
      (n : ℤ) (t : TypeKind)
      → type_kind t ≡ some int_kind
      → Yields (type_kind t) (make_const_numeric_with_ty ctx n t)
  unfolding make_const_numeric_with_ty extract_int_typ
  make-Yields n t h =
      let (i, e) = numeric_type t h in
      rw e
        (elim (Bool-cases (fits ctx.casts i n)) [ inl yes_ ↦ rw yes_ refl | inr no_ ↦ rw no_ tt ])

  from_num-Yields :
      (n : ℤ) (t : TypeKind) → IsLiteralKind (type_kind t) → Yields (type_kind t) (from_num ctx n t)
  unfolding from_num
  from_num-Yields n (TypeKind.base (numeric i)) h = make-Yields n (TypeKind.base (numeric i)) refl
  from_num-Yields n (TypeKind.base Base.address) h =
      elim (Bool-cases (leb_ℤ (pos 0) n && leb_ℤ n address_max)) [
        | inl yes_ ↦ rw yes_ refl
        | inr no_ ↦ rw no_ tt
      ]
  from_num-Yields n (TypeKind.base Base.bool) h = absurd h
  from_num-Yields n (TypeKind.base Base.unit) h = absurd h
  from_num-Yields n t h = absurd h

  shift-no_panic :
      (i : Integer) (exponent : Option ℕ) (t : TypeKind) (f : ℕ → ℤ)
      → type_kind t ≡ some int_kind
      → shift ctx i exponent t f ≢ panics
  unfolding shift make_mask extract_int_typ
  shift-no_panic i none t f h = λ p. cc
  shift-no_panic i (some n) t f h =
      let (j, same) = numeric_type t h in
      elim (Bool-cases (leb (bits i) n)) [
        | inl big ↦ rw big (λ p. cc)
        | inr small ↦ rw (small, same) (λ p. cc)
      ]

  raise-no_panic : (l : ℤ) (exponent : Option ℕ) → raise ctx l exponent ≢ panics
  unfolding raise
  raise-no_panic l (some n) = λ p. cc
  raise-no_panic l none = elim (Bool-cases (eq_ℤ l (pos 0))) [
    | inl zero_ ↦ rw zero_ (λ p. cc)
    | inr other ↦ elim (Bool-cases (eq_ℤ l (pos 1))) [
      | inl one ↦ rw (other, one) (λ p. cc)
      | inr big ↦ rw (other, big) (λ p. cc)
    ]
  ]

  compute-no_panic :
      (i : Integer) (op : BinOperator) (l r : ℤ) (t : TypeKind)
      → type_kind t ≡ some int_kind
      → compute ctx i op l r t ≢ panics
  unfolding compute
  compute-no_panic i add l r t h = λ p. cc
  compute-no_panic i sub l r t h = λ p. cc
  compute-no_panic i mult l r t h = λ p. cc
  compute-no_panic i div l r t h = elim (Bool-cases (eq_ℤ r (pos 0))) [
    | inl zero_ ↦ rw zero_ (λ p. cc)
    | inr other ↦ elim (Bool-cases (is_signed i && eq_ℤ l (min_value i) && eq_ℤ r (negsuc 0))) [
      | inl over ↦ rw (other, over) (λ p. cc)
      | inr fine ↦ rw (other, fine) (λ p. cc)
    ]
  ]
  compute-no_panic i mod_ l r t h = elim (Bool-cases (eq_ℤ r (pos 0))) [
    | inl zero_ ↦ rw zero_ (λ p. cc)
    | inr other ↦ rw other (λ p. cc)
  ]
  compute-no_panic i pow l r t h = raise-no_panic l (ctx.casts.to_unsigned 32 r)
  compute-no_panic i l_shift l r t h = shift-no_panic i (ctx.casts.to_unsigned 64 r) t _ h
  compute-no_panic i r_shift l r t h = shift-no_panic i (ctx.casts.to_unsigned 64 r) t _ h
  compute-no_panic i bit_or l r t h = λ p. cc
  compute-no_panic i bit_xor l r t h = λ p. cc
  compute-no_panic i bit_and l r t h = λ p. cc

  bin-Yields :
      (t left_typ : TypeKind) (op : BinOperator) (left right : Eval Constant)
      → type_kind left_typ ≡ some int_kind
      → type_kind t ≡ some int_kind
      → Yields (some int_kind) left
      → Yields (some int_kind) right
      → Yields (type_kind t) (eval_bin_op ctx t left_typ op left right)
  unfolding eval_bin_op extract_int_typ extract_numeric
  bin-Yields t left_typ op left right hl ht l r =
      let (i, e) = numeric_type left_typ hl in
      rw e (
        use-Yields left _ (some int_kind) (type_kind t) l (λ c hc.
          use-Yields right _ (some int_kind) (type_kind t) r (λ d hd.
            let (m, em) = int_constant c hc in
            let (n, en) = int_constant d hd in
            rw (em, en)
              (bind-Yields (compute ctx i op m n t) _ (type_kind t) (compute-no_panic i op m n t ht)
                (λ v ev. make-Yields v t ht)))))

  unary-Yields :
      (op : UnaryOperator) (c : Constant)
      → some (unary_kind op) ≡ some (kind_of c)
      → Yields (some (unary_kind op)) (apply_unary ctx op c)
  unfolding apply_unary extract_numeric extract_bool
  unary-Yields invert c h = let (n, e) = int_constant c h in rw e refl
  unary-Yields u_sub c h = let (n, e) = int_constant c h in rw e refl
  unary-Yields UnaryOperator.not c h = let (b, e) = bool_constant c h in rw e refl

bool_op-Yields :
    (op : BoolOperator) (c d : Constant)
    → some bool_kind ≡ some (kind_of c)
    → some bool_kind ≡ some (kind_of d)
    → Yields (some bool_kind) (apply_bool op c d)
unfolding apply_bool
bool_op-Yields and c d h k =
    let (a, e) = bool_constant c h in let (b, e') = bool_constant d k in rw (e, e') refl
bool_op-Yields BoolOperator.or c d h k =
    let (a, e) = bool_constant c h in let (b, e') = bool_constant d k in rw (e, e') refl

comp-Yields :
    (op : CompOperator) (k : Option Kind) (c d : Constant)
    → IsComparable k
    → k ≡ some (kind_of c)
    → k ≡ some (kind_of d)
    → Yields (some bool_kind) (compare_constants op c d)
unfolding compare_constants
comp-Yields op none c d able h h' = absurd able
comp-Yields op (some str_kind) c d able h h' = absurd able
comp-Yields op (some address_kind) c d able h h' = absurd able
comp-Yields op (some int_kind) c d able h h' =
    let (a, e) = int_constant c h in let (b, e') = int_constant d h' in rw (e, e') refl
comp-Yields op (some bool_kind) c d able h h' =
    let (a, e) = bool_constant c h in let (b, e') = bool_constant d h' in rw (e, e') refl

choose-Yields :
    (k : Option Kind) (c a b : Constant)
    → some bool_kind ≡ some (kind_of c)
    → k ≡ some (kind_of a)
    → k ≡ some (kind_of b)
    → Yields k (choose c a b)
unfolding choose
choose-Yields k c a b h ha hb =
    let (x, e) = bool_constant c h in
    rw e (elim (Bool-cases x) [ inl t ↦ rw t ha | inr f ↦ rw f hb ])

-- `eval_expr` of an expression whose parts have the kinds that their operators take, and whose
-- names yield constants of their kinds, does not panic, and its value has the kind of the
-- expression's type; comparisons are taken to be of numbers or of booleans.
pub eval_expr-Yields :
    (ctx : Context) (e : Expr)
    → WellKinded e
    → NamesYield ctx e
    → Yields (type_kind (expr_typ e)) (eval_expr ctx e)
unfolding eval_expr WellKinded NamesYield
eval_expr-Yields ctx (ternary t a c b) (wa, wc, wb, kc, ka, kb) (na, nc, nb) =
    use-Yields (eval_expr ctx a) _ (type_kind t) (type_kind t)
      (rw ka at (eval_expr-Yields ctx a wa na))
      (λ x hx.
        use-Yields (eval_expr ctx c) _ (some bool_kind) (type_kind t)
          (rw kc at (eval_expr-Yields ctx c wc nc))
          (λ y hy.
            use-Yields (eval_expr ctx b) _ (type_kind t) (type_kind t)
              (rw kb at (eval_expr-Yields ctx b wb nb))
              (λ z hz. choose-Yields (type_kind t) y x z hy hx hz)))
eval_expr-Yields ctx (bool_operation t l op r) (wl, wr, kl, kr, kt) (nl, nr) =
    use-Yields (eval_expr ctx l) _ (some bool_kind) (type_kind t)
      (rw kl at (eval_expr-Yields ctx l wl nl))
      (λ x hx.
        use-Yields (eval_expr ctx r) _ (some bool_kind) (type_kind t)
          (rw kr at (eval_expr-Yields ctx r wr nr)) (λ y hy. rw kt (bool_op-Yields op x y hx hy)))
eval_expr-Yields ctx (bin_operation t l op r) (wl, wr, kl, kr, kt) (nl, nr) =
    bin-Yields ctx t (expr_typ l) op (eval_expr ctx l) (eval_expr ctx r) kl kt
      (rw kl at (eval_expr-Yields ctx l wl nl)) (rw kr at (eval_expr-Yields ctx r wr nr))
eval_expr-Yields ctx (unary_operation t op e) (we, ke, kt) ne =
    use-Yields (eval_expr ctx e) _ (some (unary_kind op)) (type_kind t)
      (rw ke at (eval_expr-Yields ctx e we ne)) (λ x hx. rw kt (unary-Yields ctx op x hx))
eval_expr-Yields ctx (comp_operation t l op r) (wl, wr, kl, able, kt) (nl, nr) =
    use-Yields (eval_expr ctx l) _ (type_kind (expr_typ l)) (type_kind t)
      (eval_expr-Yields ctx l wl nl)
      (λ x hx.
        use-Yields (eval_expr ctx r) _ (type_kind (expr_typ l)) (type_kind t)
          (rw kl (eval_expr-Yields ctx r wr nr))
          (λ y hy. rw kt (comp-Yields op (type_kind (expr_typ l)) x y able hx hy)))
eval_expr-Yields ctx (Expr.bool t b) w ns = w
eval_expr-Yields ctx (name t n) w ns = ns
eval_expr-Yields ctx (num t n) w ns = from_num-Yields ctx n t w
eval_expr-Yields ctx (Expr.str t s) w ns = w
eval_expr-Yields ctx e w ns = tt
