-- ===== src/Algo/Planner/Precondition/Examples.antt =====
-- A precondition with three decodings (src/algo/planner.cpp), one of which can hold.
use lilotane_smt_csp.Prelude.{
  ◌≡◌, refl, Bool, true, List, [], ◌∷◌, ℤ, pos, mem, ◌≟◌, list_eq, int_eq, pair_eq,
}
use lilotane_smt_csp.Data.SubstitutionConstraint.{IntPair, undecided, is_valid}
use lilotane_smt_csp.Algo.Planner.Precondition.{precondition_constraint}
use lilotane_smt_csp.Algo.Planner.Precondition.Exact.{is_valid-precondition_constraint}

abbrev to_constant : ℤ → List IntPair
to_constant c = (pos 5, c) ∷ []

abbrev decodings : List (List IntPair)
decodings = to_constant (pos 1) ∷ to_constant (pos 2) ∷ to_constant (pos 3) ∷ []

abbrev can_hold : List IntPair → Bool
can_hold path = path ≟ to_constant (pos 2)

is_decoding : mem (to_constant (pos 3)) decodings ≡ true
unfolding mem
is_decoding = refl

is_valid-precondition_constraint_example :
    is_valid
      (to_constant (pos 3))
      true
      (precondition_constraint (pos 5 ∷ []) undecided can_hold decodings)
    ≡ can_hold (to_constant (pos 3))
is_valid-precondition_constraint_example =
    is_valid-precondition_constraint (pos 5 ∷ []) undecided can_hold decodings (to_constant (pos 3))
      is_decoding
