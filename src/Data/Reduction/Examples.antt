-- ===== src/Data/Reduction/Examples.antt =====
-- A reduction (src/data/reduction.cpp) with one subtask, and two substitutions one after the other.
use lilotane_smt_csp.Prelude.{[], ◌∷◌, pos}
use lilotane_smt_csp.Data.Substitution.{Substitution, concatenate, assign, image}
use lilotane_smt_csp.Data.Substitution.Order.{IsKept, empty, assign-IsKept}
use lilotane_smt_csp.Data.Reduction.{Reduction, new_reduction, add_subtask, substitute_red}
use lilotane_smt_csp.Data.Reduction.Replaced.{IsReplaced, substitute_red-twice}

one_to_two : Substitution
one_to_two = assign (pos 1) (pos 2) []

abbrev two_to_three : Substitution
two_to_three = record { first = pos 2; second = pos 3 } ∷ []

go_twice : Reduction
go_twice =
    add_subtask (record { name_id = pos 8; args = pos 1 ∷ [] })
      (new_reduction (pos 9) (pos 1 ∷ []) (record { name_id = pos 7; args = pos 1 ∷ [] }))

one_to_two-IsKept : IsKept one_to_two
unfolding one_to_two
one_to_two-IsKept = assign-IsKept (pos 1) (pos 2) [] empty

substitute_red-twice_example :
    IsReplaced
      (λ x. image two_to_three (image one_to_two x))
      go_twice
      (substitute_red (concatenate one_to_two two_to_three) go_twice)
    × IsReplaced
        (λ x. image two_to_three (image one_to_two x))
        go_twice
        (substitute_red two_to_three (substitute_red one_to_two go_twice))
substitute_red-twice_example =
    substitute_red-twice one_to_two two_to_three go_twice one_to_two-IsKept
