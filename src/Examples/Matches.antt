-- ===== src/Examples/Matches.antt =====
-- Runs of the match analysis and of decision trees.
use fe.Prelude.{◌⊎◌, ℕ, ◌≤◌, ◌≡◌, ◌≢◌, refl, true, false, none, some, [], ◌∷◌, arith}
use fe.Prelude.Outcome.{out_of_fuel, panicked, returned}
use fe.Pattern.Constructor.{
  ConstructorKind, enum, tuple, field_types, arity, ctor_variant_num, ctor_eq, variant_kind,
  tuple_elts,
}
use fe.Pattern.Syntax.{or, nil, cons, is_wildcard, wildcards, ty_of, collect_ctors}
use fe.Pattern.Specialize
use fe.Pattern.Specialize.Meaning.{Avoids, phi_specialize-covered, d_specialize-covered}
use fe.Pattern.Sigma.{
  contains, from_rows, is_complete, collect_column_ctors, insert, insert_rows, insert_all,
  complete_sigma,
}
use fe.Pattern.Sigma.Complete.{is_complete_lem}
use fe.Pattern.Value.{
  Values, opaque, empty, field, matches, covered, HasType, HaveTypes, FitsType, append_values,
  HasCtor,
}
use fe.Pattern.Exhaustive.{find_non_exhaustiveness, find_in_column, find_in_ctors, find_in_default}
use fe.Pattern.Exhaustive.Sound.{find_sound}
use fe.Pattern.Exhaustive.Complete.{find_complete, Uncovered, Reports}
use fe.Pattern.Exhaustive.Terminates.{find_terminates}
use fe.Pattern.Exhaustive.Panics.{find-tuple_arms_panics, all_under, tuple_arms}
use fe.Pattern.Useful.{
  is_pattern_useful, nodes, is_row_useful, useful_after, useful_in_column, any_useful,
}
use fe.Pattern.Useful.Covered.{useless_covered, useful_terminates}
use fe.Pattern.Useful.Unreported.{unreachable_wildcard_useful, useful-or_panics}
use fe.DecisionTree.{
  DecisionTree, leaf, generalize_pattern, collapse, bind_pattern, head_binds, finalize_binds,
  or_insert,
}
use fe.DecisionTree.Matrix.{
  new, new_arms, all_wildcards, swap, swap_list, swap_row, phi_specialize, phi_arms, phi_arm,
  children, d_specialize, d_arms, d_arm,
}
use fe.DecisionTree.Policy.{
  lower_match_policy, select_column, select_from, score, necessity_matrix, needed_rows, needed_cols,
  is_needed, reduced_pat_mat, needed_prefix_score, best_columns, shortest_columns,
}
use fe.DecisionTree.Build
use fe.DecisionTree.Build.{build_decision_tree}
use fe.DecisionTree.Run.{run, arm_of}
use fe.DecisionTree.Compiled.{first_row, build_decision_tree_correct, accepted_match_takes_arm}
use fe.DecisionTree.Terminates.{build_decision_tree_terminates}
use fe.Examples.Database.{
  any_, bool_value, bools, bools-fit, db, inhabited, just_some, just_some-fits, lit, no_, no_yes,
  none_value, pair_value, pairs, pairs-fit, some_value, yes_,
}

-- The tree of the pairs, under the policy of `lower_match`.
abbrev pairs_tree : DecisionTree
pairs_tree = elim (build_decision_tree db lower_match_policy 9 pairs) [
  | returned t ↦ t
  | _ ↦ leaf 0 []
]

pairs-built : build_decision_tree db lower_match_policy 9 pairs ≡ returned pairs_tree
unfolding build_decision_tree Build.build Build.build_matrix Build.build_switch Build.build_arms
    Build.build_default all_wildcards generalize_pattern collapse is_wildcard select_column
    select_from score necessity_matrix needed_rows needed_cols is_needed reduced_pat_mat
    needed_prefix_score best_columns shortest_columns swap swap_list swap_row from_rows
    collect_column_ctors insert insert_rows insert_all contains ctor_eq ctor_variant_num
    phi_specialize phi_arms phi_arm children d_specialize d_arms d_arm Specialize.phi_row
    Specialize.phi_pattern Specialize.phi_specialize is_row_useful useful_after is_pattern_useful
    useful_in_column any_useful nodes wildcards new new_arms bind_pattern head_binds finalize_binds
    or_insert arity field_types tuple_elts variant_kind is_complete Specialize.d_pattern
    Specialize.d_row Specialize.d_specialize collect_ctors
pairs-built = refl

pairs-accepted : find_non_exhaustiveness db 9 pairs ≡ returned none
unfolding find_non_exhaustiveness find_in_column is_complete from_rows collect_column_ctors insert
    insert_rows insert_all contains ctor_eq ctor_variant_num Specialize.phi_specialize
    Specialize.phi_row Specialize.phi_pattern wildcards field_types tuple_elts variant_kind
    Specialize.d_specialize Specialize.d_row Specialize.d_pattern find_in_ctors find_in_default
pairs-accepted = refl

build_decision_tree_terminates_example :
    (enough : ℕ) × ((fuel : ℕ)
      → enough ≤ fuel
      → build_decision_tree db lower_match_policy fuel pairs ≢ out_of_fuel)
build_decision_tree_terminates_example =
    build_decision_tree_terminates db lower_match_policy pairs 1 pairs-fit

-- (false, true) takes the second arm.
build_decision_tree_correct_example :
    arm_of (run pairs_tree (pair_value no_ yes_))
    ≡ first_row 0 pairs (field (pair_value no_ yes_) empty)
build_decision_tree_correct_example =
    build_decision_tree_correct db lower_match_policy 9 pairs 1 (pair_value no_ yes_) pairs_tree
      pairs-fit no_yes pairs-built

accepted_match_takes_arm_example :
    (j : ℕ) × (arm_of (run pairs_tree (pair_value no_ yes_)) ≡ some j)
    × (first_row 0 pairs (field (pair_value no_ yes_) empty) ≡ some j)
accepted_match_takes_arm_example =
    accepted_match_takes_arm db lower_match_policy 9 9 pairs 1 (pair_value no_ yes_) pairs_tree
      pairs-fit no_yes pairs-accepted pairs-built

find_sound_example : covered pairs (field (pair_value no_ yes_) empty) ≡ true
find_sound_example =
    find_sound db 9 pairs (1 ∷ []) (field (pair_value no_ yes_) empty) pairs-fit
      (unfold HasType in (no_yes, tt)) pairs-accepted

just_some-Reports : Reports (find_non_exhaustiveness db 5 just_some)
unfolding find_non_exhaustiveness find_in_column is_complete from_rows collect_column_ctors insert
    insert_rows insert_all contains ctor_eq ctor_variant_num Specialize.phi_specialize
    Specialize.phi_row Specialize.phi_pattern wildcards field_types tuple_elts variant_kind
    Specialize.d_specialize Specialize.d_row Specialize.d_pattern find_in_ctors find_in_default
    complete_sigma ty_of
just_some-Reports = tt

-- None is not covered.
find_complete_example : Uncovered db just_some (2 ∷ [])
find_complete_example =
    find_complete db 5 just_some (2 ∷ []) inhabited just_some-fits just_some-Reports

find_terminates_example :
    (enough : ℕ) × ((fuel : ℕ)
      → enough ≤ fuel
      → find_non_exhaustiveness db fuel pairs ≢ out_of_fuel)
find_terminates_example = find_terminates db pairs (1 ∷ []) pairs-fit

true_again : is_pattern_useful db 3 bools (cons (lit yes_) nil) ≡ returned false
unfolding is_pattern_useful useful_in_column any_useful Specialize.phi_specialize Specialize.phi_row
    Specialize.phi_pattern ctor_eq wildcards field_types
true_again = refl

-- A second `true` arm is covered.
useless_covered_example : covered bools (field (bool_value yes_) empty) ≡ true
useless_covered_example =
    useless_covered db 3 bools (cons (lit yes_) nil) (0 ∷ []) (field (bool_value yes_) empty)
      bools-fit (unfold FitsType field_types in ((refl, (true, refl), tt), tt))
      (unfold HasType field_types in (((true, refl), tt), tt)) true_again
      (unfold matches ctor_eq in refl)

useful_terminates_example : is_pattern_useful db 3 bools (cons (lit yes_) nil) ≢ out_of_fuel
useful_terminates_example =
    useful_terminates db 3 bools (cons (lit yes_) nil) (unfold nodes in omega arith)

-- (true, _), (true, false): the check panics.
find-tuple_arms_panics_example :
    find_non_exhaustiveness db 4 (
      all_under
        (tuple 1)
        1
        (tuple_arms 1 yes_ 0 ((nil, cons (any_ 0) nil) ∷ (nil, cons (lit no_) nil) ∷ [])))
    ≡ panicked
find-tuple_arms_panics_example =
    find-tuple_arms_panics db 1 0 yes_ (nil, cons (any_ 0) nil) ((nil, cons (lit no_) nil) ∷ []) 1
      (unfold arity tuple_elts in omega arith) (unfold ctor_variant_num in omega arith)

bools-accepted : find_non_exhaustiveness db 5 bools ≡ returned none
unfolding find_non_exhaustiveness find_in_column is_complete from_rows collect_column_ctors insert
    insert_rows insert_all contains ctor_eq ctor_variant_num Specialize.phi_specialize
    Specialize.phi_row Specialize.phi_pattern wildcards field_types tuple_elts variant_kind
    Specialize.d_specialize Specialize.d_row Specialize.d_pattern find_in_ctors find_in_default
bools-accepted = refl

unreachable_wildcard_useful_example :
    (is_pattern_useful db 4 bools (cons (any_ 0) nil) ≡ returned true)
    × ((vs : Values) → HaveTypes db vs (0 ∷ []) → covered bools vs ≡ true)
unreachable_wildcard_useful_example =
    unreachable_wildcard_useful db 2 5 bools none 0 tt bools-fit bools-accepted

-- (true, true) and then (true | false, _), without the tuple around them.
useful-or_panics_example :
    is_pattern_useful db 4
      (cons (lit yes_) (cons (lit yes_) nil) ∷ [])
      (cons (or (cons (lit yes_) (cons (lit no_) nil)) 0) (cons (any_ 0) nil))
    ≡ panicked
useful-or_panics_example =
    useful-or_panics db 1 yes_ (cons (lit no_) nil) (cons (any_ 0) nil) 0 (lit yes_) (lit yes_)
      (cons (lit yes_) nil) nil [] []
      (unfold Specialize.phi_specialize Specialize.phi_row Specialize.phi_pattern ctor_eq in refl)

phi_specialize-covered_example :
    covered
      (Specialize.phi_specialize db (enum 0 1) just_some)
      (append_values (field (opaque 7) empty) empty)
    ≡ covered just_some (field some_value empty)
phi_specialize-covered_example =
    phi_specialize-covered db (enum 0 1) 2 [] (field (opaque 7) empty) empty
      (unfold field_types variant_kind in refl) just_some just_some-fits

none-Avoids : Avoids (from_rows just_some 0) none_value
unfolding find_non_exhaustiveness find_in_column is_complete from_rows collect_column_ctors insert
    insert_rows insert_all contains ctor_eq ctor_variant_num Specialize.phi_specialize
    Specialize.phi_row Specialize.phi_pattern wildcards field_types tuple_elts variant_kind
    Specialize.d_specialize Specialize.d_row Specialize.d_pattern find_in_ctors find_in_default
none-Avoids = refl

d_specialize-covered_example :
    covered (Specialize.d_specialize just_some) empty ≡ covered just_some (field none_value empty)
d_specialize-covered_example =
    d_specialize-covered db just_some 2 [] none_value empty just_some-fits none-Avoids

is_complete_lem_example :
    ((is_complete db (yes_ ∷ []) ≡ true) × (contains (yes_ ∷ []) no_ ≡ true))
    ⊎ ((is_complete db (yes_ ∷ []) ≡ false)
        × ((d : ConstructorKind) × HasCtor db 0 d × (contains (yes_ ∷ []) d ≡ false)))
is_complete_lem_example =
    is_complete_lem db 0 yes_ [] no_ ((true, refl), tt) (unfold contains in (refl, tt))
      (false, refl)
