-- ===== src/Data.antt =====
-- The planner's data (src/data): substitutions, signatures, operators, positions and layers.
pub mod Substitution
pub mod Signature
pub mod HtnOp
pub mod Reduction
pub mod OpTable
pub mod Layer
pub mod SubstitutionConstraint
pub mod Position
