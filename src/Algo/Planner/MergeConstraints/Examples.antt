-- ===== src/Algo/Planner/MergeConstraints/Examples.antt =====
-- Three constraints of one operator (src/algo/planner.cpp), two of which can be merged.
use lilotane_smt_csp.Prelude.{◌≡◌, List, [], ◌∷◌, ℤ, pos, All, int_eq, pair_eq}
use lilotane_smt_csp.Sat.LiteralTree.{new_node}
use lilotane_smt_csp.Sat.LiteralTree.Paths.{IsWf, insert-IsWf}
use lilotane_smt_csp.Data.SubstitutionConstraint.{
  SubstitutionConstraint, IntPair, any_valid, no_invalid, new_constraint, add_valid, add_invalid,
  fix_polarity, keep_valid, keep_invalid,
}
use lilotane_smt_csp.Data.SubstitutionConstraint.Laws.{IsWfConstraint}
use lilotane_smt_csp.Algo.Planner.MergeConstraints.{merge_constraints}
use lilotane_smt_csp.Algo.Planner.MergeConstraints.Correct.{
  admits, merge_constraints-admits, IsMerged, merge_constraints-IsMerged,
}

abbrev qs : List ℤ
qs = pos 5 ∷ []

abbrev to_constant : ℤ → List IntPair
to_constant c = (pos 5, c) ∷ []

valid : ℤ → SubstitutionConstraint
valid c = fix_polarity any_valid (add_valid (to_constant c) (new_constraint qs))

invalid : SubstitutionConstraint
invalid = fix_polarity no_invalid (add_invalid (to_constant (pos 2)) (new_constraint qs))

three : List SubstitutionConstraint
three = valid (pos 1) ∷ invalid ∷ valid (pos 2) ∷ []

three-IsWf : All IsWfConstraint three
unfolding three valid invalid fix_polarity keep_valid keep_invalid add_valid add_invalid
    new_constraint IsWf
three-IsWf = (
  record { valid_wf = insert-IsWf (to_constant (pos 1)) new_node tt; invalid_wf = tt },
  (
    record { valid_wf = tt; invalid_wf = insert-IsWf (to_constant (pos 2)) new_node tt },
    (record { valid_wf = insert-IsWf (to_constant (pos 2)) new_node tt; invalid_wf = tt }, tt),
  ),
)

merge_constraints-admits_example :
    admits qs (to_constant (pos 1)) (merge_constraints three)
    ≡ admits qs (to_constant (pos 1)) three
merge_constraints-admits_example =
    merge_constraints-admits three qs (to_constant (pos 1)) three-IsWf

merge_constraints-IsMerged_example : IsMerged (merge_constraints three)
merge_constraints-IsMerged_example = merge_constraints-IsMerged three three-IsWf
