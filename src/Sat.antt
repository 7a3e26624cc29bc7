-- ===== src/Sat.antt =====
-- The propositional side (src/sat): variables, clauses, and the encodings that yield them.
pub mod Clauses
pub mod VariableDomain
pub mod VariableProvider
pub mod Encoding
pub mod OrderedSets
pub mod Dnf2Cnf
pub mod BinaryAmo
pub mod LiteralTree
pub mod EncodingStatistics
pub mod SatInterface
pub mod PlanOptimizer
