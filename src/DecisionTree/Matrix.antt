-- ===== src/DecisionTree/Matrix.antt =====
-- `SimplifiedArmMatrix` of decision_tree.rs.
use fe.Prelude.{
  ℕ, zero, suc, Bool, true, ◌&&◌, Option, none, some, List, [], ◌∷◌, ◌++◌, map, get_elem?,
}
use fe.Types.{AnalyzerDb}
use fe.Pattern.Constructor.{ConstructorKind, arity}
use fe.Pattern.Syntax.{Pattern, Patterns, nil, cons, Row, Matrix, is_wildcard}
use fe.Pattern.Specialize.{phi_row, d_row}
use fe.DecisionTree.{Occurrence, Arm, head_binds, generalize_fields}

pub record ArmMatrix : Type 0 where
  pub arms : List Arm
  pub occurrences : List Occurrence

abbrev pub rows_of : List Arm → Matrix
rows_of [] = []
rows_of (a ∷ as_) = a.pat_vec ∷ rows_of as_

-- `SimplifiedArmMatrix::new`: the arms in order, each with its index and no bindings.
unfoldable pub new_arms : ℕ → Matrix → List Arm
new_arms i [] = []
new_arms i (row ∷ rows) =
    record { pat_vec = generalize_fields row; body = i; binds = [] } ∷ new_arms (suc i) rows

abbrev pub roots : Row → List Occurrence
roots nil = []
roots (cons p ps) = [] ∷ roots ps

unfoldable pub new : Matrix → ArmMatrix
unfolding new_arms
new [] = record { arms = []; occurrences = [] }
new (row ∷ rows) = record { arms = new_arms 0 (row ∷ rows); occurrences = roots row }

unfoldable pub all_wildcards : Row → Bool
all_wildcards nil = true
all_wildcards (cons p ps) = is_wildcard p && all_wildcards ps

-- `SimplifiedArm::phi_specialize`
unfoldable pub phi_arm : AnalyzerDb → ConstructorKind → Occurrence → Arm → List Arm
phi_arm db c o a =
    map (λ row. record { pat_vec = row; body = a.body; binds = head_binds a.binds a.pat_vec o })
      (phi_row db c a.pat_vec)

unfoldable pub phi_arms : AnalyzerDb → ConstructorKind → Occurrence → List Arm → List Arm
unfolding phi_arm
phi_arms db c o [] = []
phi_arms db c o (a ∷ rest) = phi_arm db c o a ++ phi_arms db c o rest

-- `SimplifiedArm::d_specialize`
unfoldable pub d_arm : Occurrence → Arm → List Arm
d_arm o a =
    map (λ row. record { pat_vec = row; body = a.body; binds = head_binds a.binds a.pat_vec o })
      (d_row a.pat_vec)

unfoldable pub d_arms : Occurrence → List Arm → List Arm
unfolding d_arm
d_arms o [] = []
d_arms o (a ∷ rest) = d_arm o a ++ d_arms o rest

abbrev pub children_from : Occurrence → ℕ → ℕ → List Occurrence
children_from o i zero = []
children_from o i (suc n) = (o ++ i ∷ []) ∷ children_from o (suc i) n

-- `Occurrence::phi_specialize`: one occurrence for each argument of the constructor.
unfoldable pub children : AnalyzerDb → ConstructorKind → Occurrence → List Occurrence
children db c o = children_from o 0 (arity db c)

-- `SimplifiedArmMatrix::phi_specialize`, for the occurrences `o ∷ os`
unfoldable pub phi_specialize :
    AnalyzerDb → ConstructorKind → List Arm → Occurrence → List Occurrence → ArmMatrix
unfolding phi_arms children
phi_specialize db c arms o os = record {
  arms = phi_arms db c o arms;
  occurrences = children db c o ++ os;
}

unfoldable pub d_specialize : List Arm → Occurrence → List Occurrence → ArmMatrix
unfolding d_arms
d_specialize arms o os = record { arms = d_arms o arms; occurrences = os }

-- `Vec::swap(0, i)`, which panics out of bounds; here nothing is changed then.
abbrev pub replace {ℓ} : {A : Type ℓ} → List A → ℕ → A → List A
replace [] i x = []
replace (y ∷ ys) zero x = x ∷ ys
replace (y ∷ ys) (suc i) x = y ∷ replace ys i x

abbrev pub swap_with {ℓ} : {A : Type ℓ} → A → List A → ℕ → Option A → List A
swap_with x xs i none = x ∷ xs
swap_with x xs i (some y) = y ∷ replace xs i x

unfoldable pub swap_list {ℓ} : {A : Type ℓ} → List A → ℕ → List A
swap_list [] i = []
swap_list (x ∷ xs) zero = x ∷ xs
swap_list (x ∷ xs) (suc i) = swap_with x xs i (get_elem? xs i)

abbrev pub pattern_at : Patterns → ℕ → Option Pattern
pattern_at nil i = none
pattern_at (cons p ps) zero = some p
pattern_at (cons p ps) (suc i) = pattern_at ps i

abbrev pub replace_pattern : Patterns → ℕ → Pattern → Patterns
replace_pattern nil i q = nil
replace_pattern (cons p ps) zero q = cons q ps
replace_pattern (cons p ps) (suc i) q = cons p (replace_pattern ps i q)

abbrev pub swap_pattern_with : Pattern → Patterns → ℕ → Option Pattern → Patterns
swap_pattern_with p ps i none = cons p ps
swap_pattern_with p ps i (some q) = cons q (replace_pattern ps i p)

unfoldable pub swap_row : Row → ℕ → Row
swap_row nil i = nil
swap_row (cons p ps) zero = cons p ps
swap_row (cons p ps) (suc i) = swap_pattern_with p ps i (pattern_at ps i)

abbrev pub swap_arm : ℕ → Arm → Arm
swap_arm i a = record a { pat_vec = swap_row a.pat_vec i }

-- `SimplifiedArmMatrix::swap`
unfoldable pub swap : ArmMatrix → ℕ → ArmMatrix
unfolding swap_row swap_list
swap mat i = record { arms = map (swap_arm i) mat.arms; occurrences = swap_list mat.occurrences i }
