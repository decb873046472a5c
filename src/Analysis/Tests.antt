-- ===== src/Analysis/Tests.antt =====
-- Runs of the analyses on small states.
pub mod Data
pub mod Graphs
pub mod Series
pub mod Spins
pub mod Utilizations
