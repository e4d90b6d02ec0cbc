-- ===== src/Examples.antt =====
-- Runs on small databases and matches: each theorem with hypotheses applied at an input where they
-- hold.
pub mod Database
pub mod Matches
pub mod Constants
pub mod Sizes
pub mod Orders
pub mod Cursors
pub mod Arithmetic
pub mod Graphs
