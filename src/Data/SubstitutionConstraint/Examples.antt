-- ===== src/Data/SubstitutionConstraint/Examples.antt =====
-- Constraints of two pseudo-constants (src/data/substitution_constraint.h).
use lilotane_smt_csp.Prelude.{◌≡◌, refl, true, List, [], ◌∷◌, ℤ, pos, int_eq, pair_eq}
use lilotane_smt_csp.Sat.LiteralTree.{new_node}
use lilotane_smt_csp.Sat.LiteralTree.Paths.{IsWf, insert-IsWf}
use lilotane_smt_csp.Data.SubstitutionConstraint.{
  SubstitutionConstraint, IntPair, any_valid, new_constraint, add_valid, fix_polarity, can_merge,
  keep_valid, same_polarity,
}
use lilotane_smt_csp.Data.SubstitutionConstraint.Laws.{IsWfConstraint}

abbrev qs : List ℤ
qs = pos 5 ∷ pos 6 ∷ []

abbrev path : ℤ → List IntPair
path c = (pos 5, c) ∷ (pos 6, c) ∷ []

first_valid : SubstitutionConstraint
first_valid = fix_polarity any_valid (add_valid (path (pos 1)) (new_constraint qs))

both_valid : SubstitutionConstraint
both_valid =
    fix_polarity any_valid (add_valid (path (pos 2)) (add_valid (path (pos 1)) (new_constraint qs)))

first_valid-IsWf : IsWfConstraint first_valid
unfolding first_valid fix_polarity keep_valid add_valid new_constraint IsWf
first_valid-IsWf = record { valid_wf = insert-IsWf (path (pos 1)) new_node tt; invalid_wf = tt }

can_merge_them : can_merge first_valid both_valid ≡ true
unfolding first_valid both_valid fix_polarity keep_valid add_valid new_constraint can_merge
    same_polarity
can_merge_them = refl
