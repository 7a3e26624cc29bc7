-- ===== src/Algo.antt =====
-- The planner's algorithms (src/algo).
pub mod Planner
pub mod ArgIterator
pub mod DominationResolver
pub mod FactAnalysis
