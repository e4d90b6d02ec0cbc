-- ===== src/DecisionTree.antt =====
-- Decision trees for match expressions (crates/mir/src/lower/pattern_match/decision_tree.rs): the
-- tree, occurrences, and the arms of a match.
pub mod Matrix
pub mod Policy
pub mod Build
pub mod Run
pub mod Swap
pub mod FirstArm
pub mod Subtrees
pub mod Correct
pub mod Generalize
pub mod Compiled
pub mod Weight
pub mod Fuel
pub mod Terminates
use text.Mathlib.Text.{◌==◌ as str_eq}
use fe.Prelude.{
  ℕ, zero, suc, Bool, true, false, ◌&&◌, ◌||◌, Option, none, some, List, [], ◌∷◌, ◌++◌, ◌==◌, any,
  if◌then◌else◌,
}
use fe.Pattern.Constructor.{ConstructorKind}
use fe.Pattern.Syntax.{
  Pattern, Patterns, wildcard, constructor, or, nil, cons, Row, Bind, is_wildcard,
}

-- A path from the scrutinee to one of its parts.
abbrev pub Occurrence : Type 0
Occurrence = List ℕ

-- An `IndexMap<(SmolStr, usize), Occurrence>`, in the order of insertion.
abbrev pub Binds : Type 0
Binds = List (Bind × Occurrence)

pub data Case : Type 0 where
  ctor : ConstructorKind → Case
  default : Case

mutual
  pub data DecisionTree : Type 0 where
    leaf : (arm_idx : ℕ) (binds : Binds) → DecisionTree
    switch : Occurrence → SwitchArms → DecisionTree

  pub data SwitchArms : Type 0 where
    end : SwitchArms
    arm : Case → DecisionTree → SwitchArms → SwitchArms

abbrev pub bind_eq : Bind → Bind → Bool
bind_eq a b = str_eq a.0 b.0 && a.1 == b.1

abbrev pub is_bound : Binds → Bind → Bool
is_bound binds b = any (λ e. bind_eq e.0 b) binds

-- `binds.entry(bind).or_insert(occurrence)`
unfoldable pub or_insert : Binds → Bind → Occurrence → Binds
or_insert binds b o = if is_bound binds b then binds else binds ++ (b, o) ∷ []

-- The binding that a pattern adds, if it is a wildcard with a name.
unfoldable pub bind_pattern : Binds → Pattern → Occurrence → Binds
unfolding or_insert
bind_pattern binds (wildcard (some b) t) o = or_insert binds b o
bind_pattern binds (wildcard none t) o = binds
bind_pattern binds (constructor c fs t) o = binds
bind_pattern binds (or ps t) o = binds

-- `SimplifiedArm`
pub record Arm : Type 0 where
  pub pat_vec : Row
  pub body : ℕ
  pub binds : Binds

-- `SimplifiedArm::new_binds`
unfoldable pub head_binds : Binds → Row → Occurrence → Binds
unfolding bind_pattern
head_binds binds nil o = binds
head_binds binds (cons p ps) o = bind_pattern binds p o

-- `SimplifiedArm::finalize_binds`
unfoldable pub finalize_binds : Binds → Row → List Occurrence → Binds
unfolding bind_pattern
finalize_binds binds nil os = binds
finalize_binds binds (cons p ps) [] = binds
finalize_binds binds (cons p ps) (o ∷ os) = finalize_binds (bind_pattern binds p o) ps os

-- An alternative of a single pattern is that pattern.
unfoldable pub collapse : Patterns → ℕ → Pattern
collapse nil t = or nil t
collapse (cons p nil) t = p
collapse (cons p (cons q qs)) t = or (cons p (cons q qs)) t

-- `generalize_pattern`: what follows a wildcard among alternatives is dropped.
unfoldable mutual
  pub generalize_pattern : Pattern → Pattern
  generalize_pattern (wildcard b t) = wildcard b t
  generalize_pattern (constructor c fs t) = constructor c (generalize_fields fs) t
  generalize_pattern (or ps t) = collapse (generalize_alternatives ps) t

  pub generalize_fields : Patterns → Patterns
  generalize_fields nil = nil
  generalize_fields (cons p ps) = cons (generalize_pattern p) (generalize_fields ps)

  pub generalize_alternatives : Patterns → Patterns
  generalize_alternatives nil = nil
  generalize_alternatives (cons p ps) =
      let rest = generalize_alternatives ps in
      if is_wildcard (generalize_pattern p)
      then cons (generalize_pattern p) nil
      else cons (generalize_pattern p) rest
