-- ===== src/Algo/Planner/MergeConstraints.antt =====
-- The merging of an operator's constraints, in `addPreconditionsAndConstraints`
-- (src/algo/planner.cpp). Each round of the inner loop either goes on to the next constraint or removes
-- one, so that as many rounds as there are constraints are enough.
pub mod Correct
mod Examples
use lilotane_smt_csp.Prelude.{ℕ, zero, suc, Bool, List, [], ◌∷◌, length, if◌then◌else◌}
use lilotane_smt_csp.Data.SubstitutionConstraint.{
  SubstitutionConstraint, can_merge, merge_constraint,
}

-- `constraints[j] = std::move(constraints.back())` and the erasure of the last element, for the
-- elements behind index `j`.
pub last_first : List SubstitutionConstraint → List SubstitutionConstraint
last_first [] = []
last_first (x ∷ []) = x ∷ []
last_first (x ∷ y ∷ ys) = elim (last_first (y ∷ ys)) [ [] ↦ x ∷ [] | l ∷ rest ↦ l ∷ x ∷ rest ]

-- The inner loop: the constraint `i` and the constraints behind it.
pub merge_into :
    ℕ
    → SubstitutionConstraint
    → List SubstitutionConstraint
    → SubstitutionConstraint × List SubstitutionConstraint
unfolding last_first
merge_into zero c xs = (c, xs)
merge_into (suc fuel) c [] = (c, [])
merge_into (suc fuel) c (x ∷ xs) =
    let merged = merge_into fuel (merge_constraint x c) (last_first xs) in
    let (c', kept) = merge_into fuel c xs in if can_merge x c then merged else (c', x ∷ kept)

-- The outer loop.
pub merge_from : ℕ → List SubstitutionConstraint → List SubstitutionConstraint
unfolding merge_into
merge_from zero cs = cs
merge_from (suc fuel) [] = []
merge_from (suc fuel) (c ∷ cs) =
    let (c', rest) = merge_into (length cs) c cs in c' ∷ merge_from fuel rest

pub merge_constraints : List SubstitutionConstraint → List SubstitutionConstraint
unfolding merge_from
merge_constraints cs = merge_from (length cs) cs
