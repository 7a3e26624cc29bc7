-- ===== src/Algo/Planner.antt =====
-- The planner (src/algo/planner.cpp): the part that restricts the substitutions of pseudo-constants.
pub mod MergeConstraints
pub mod Precondition
