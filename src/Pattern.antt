-- ===== src/Pattern.antt =====
-- Pattern analysis (crates/analyzer/src/traversal/pattern_analysis.rs).
pub mod Constructor
pub mod Syntax
pub mod Specialize
pub mod Sigma
pub mod Value
pub mod Exhaustive
pub mod Useful
