-- ===== src/Lib.antt =====
-- Verification of parts of the Fe compiler: match expressions, constant evaluation, ABI sizes,
-- control flow graphs, the order of a function body, checked arithmetic.
--
-- The compiler reads Fe sources into an AST (crates/parser), types it (crates/analyzer), lowers it
-- to MIR (crates/mir) and emits Yul (crates/codegen). Of this, the development models how match
-- expressions are checked and compiled: the analyzer simplifies the patterns of the arms to a
-- `PatternMatrix`, looks for values that no arm matches and for arms that are never taken, and the
-- lowering builds a decision tree from the same matrix. It also models the analyzer's integer types
-- and its evaluation of constant expressions, which checks against them, the types of the ABI
-- (crates/abi), which the code generator lays calldata out by, the control flow graph that the
-- analyses of MIR start from, the order of blocks and instructions that the passes edit through a
-- cursor, and the arithmetic that the generated Yul calls.
--
-- Files, with the code that they model:
--   Types.antt                   crates/analyzer/src/namespace/types.rs (Type, Base, Integer), and the
--                                queries on enums and structs that the analysis makes
--   Pattern/Constructor.antt     ConstructorKind and ctor_variant_num of
--                                crates/analyzer/src/traversal/pattern_analysis.rs
--   Pattern/Syntax.antt          SimplifiedPattern, SimplifiedPatternKind, PatternRowVec
--   Pattern/Sigma.antt           SigmaSet, and is_complete against the constructors of a type
--   Pattern/Specialize.antt      phi_specialize and d_specialize of rows and of matrices
--   Pattern/Exhaustive.antt      PatternMatrix::find_non_exhaustiveness
--   Pattern/Useful.antt          PatternMatrix::is_row_useful and is_pattern_useful
--   Pattern/Value.antt           what the code is compared with: values, their types, matching
--   DecisionTree.antt            the tree, occurrences, bindings and generalize_pattern of
--                                crates/mir/src/lower/pattern_match/decision_tree.rs
--   DecisionTree/Matrix.antt     SimplifiedArmMatrix and SimplifiedArm
--   DecisionTree/Policy.antt     NecessityMatrix, ColumnScoringFunction, ColumnSelectionPolicy
--   DecisionTree/Build.antt      DecisionTreeBuilder and build_decision_tree
--   DecisionTree/Run.antt        what a tree does with a value, and what a list of arms does
--   Integer.antt                 Integer of crates/analyzer/src/namespace/types.rs: sizes and ranges
--   Operations.antt              bin_pow, bin_bit_shift and bin_bit of
--                                crates/analyzer/src/operations.rs
--   ConstExpr.antt               eval_expr of crates/analyzer/src/traversal/const_expr.rs
--   Abi.antt                     AbiType of crates/abi/src/types.rs
--   Abi/Mutability.antt          StateMutability of crates/abi/src/function.rs
--   Cfg.antt                     ControlFlowGraph of crates/mir/src/analysis/cfg.rs
--   Cfg/PostOrder.antt           CfgPostOrder of the same file, an iterator as a state and its rounds
--   Cfg/PostDom.antt             the reverse graph of PostDomTree::compute of
--                                crates/mir/src/analysis/post_domtree.rs
--   BodyOrder.antt               BodyOrder of crates/mir/src/ir/body_order.rs: queries and insertions
--   BodyOrder/Removing.antt      remove_inst and remove_block of the same file
--   BodyOrder/Walk.antt          BlockIter and InstIter of the same file
--   BodyOrder/Layout.antt        what an order stands for: the list of blocks, and that of instructions
--                                of each block
--   BodyCursor.antt              CursorLocation and BodyCursor of crates/mir/src/ir/body_cursor.rs
--   Yul.antt                     words of the Ethereum virtual machine and its instructions
--   SafeMath.antt                crates/codegen/src/yul/runtime/safe_math.rs: the emitted functions and
--                                their dispatchers
--   SafeMath/Exponents.antt      the checked powers of the same file
--   Examples                     runs and tests
-- The files below these hold lemmas and theorems.
--
-- A vector of patterns is a list of the same mutual block as patterns. An `IndexSet` or an
-- `IndexMap` is a list in the order of insertion. Interned keys are numbers, and what the database
-- holds under them is the record `AnalyzerDb`, a parameter: an enum variant is its enum and its
-- place in it.
--
-- The recursions over matrices take fuel. Their result is an `Outcome`: out of fuel, a panic (an
-- `unwrap`, an index out of bounds, `unimplemented!`, `split_off` past the end), or what is
-- returned. Fuel is enough because specialization lowers a weight of typed matrices; the column
-- policy calls the usefulness check with one more than the number of pattern nodes of the matrix.
-- Scores of columns are unbounded integers where the source has `i32`: its overflow, at counts
-- above 2 ^ 31, is not modelled.
--
-- A `BigInt` is an integer; its arithmetic and its conversions belong to other crates and are
-- parameters (`BigIntOps`, `BigIntCasts`), with the contract of the conversions as `CastsLaws`. An
-- expression carries the type that the analysis recorded for it. Constant evaluation gives a panic,
-- an error or a value. Sums and products of ABI sizes wrap around at 64 bits.
--
-- The hash maps of the control flow graph are functions. Its post-order takes fuel, one unit for
-- each round of the loop of `next` at most.
--
-- The hash maps of a body order are functions too. The loops of `remove_block` and the iterators
-- take fuel: the number of instructions of the block, or of blocks, is enough.
--
-- The emitted Yul functions are functions on words below 2 ^ 256: an `if` with a `revert` is a test
-- before the rest, and a revert carries its panic code. Arguments of a type are the words of
-- integers of its range. The loop of the powers has 256 rounds, the number of binary digits of a
-- word, and each round halves the exponent.
--
-- Not modelled: `simplify_pattern`, which reads the AST and the scope of the function, the emission
-- of MIR blocks from a tree, and the rest of the compiler, which the list of components accounts
-- for.
pub mod Prelude
pub mod Types
pub mod Pattern
pub mod Integer
pub mod ConstExpr
pub mod Abi
pub mod Yul
pub mod SafeMath
pub mod Cfg
pub mod BodyOrder
pub mod BodyCursor
pub mod Operations
pub mod DecisionTree
pub mod Examples
