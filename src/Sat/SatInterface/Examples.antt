-- ===== src/Sat/SatInterface/Examples.antt =====
-- Clauses and assumptions for a solver that always answers 10 (src/sat/sat_interface.h).
use lilotane_smt_csp.Prelude.{◌≡◌, refl, List, [], ◌∷◌, ℤ, pos}
use lilotane_smt_csp.Sat.EncodingStatistics.{new_statistics}
use lilotane_smt_csp.Sat.SatInterface.{SatInterface, new_interface, add_clause, assume, solve}
use lilotane_smt_csp.Sat.SatInterface.Stream.{formula}
use lilotane_smt_csp.Sat.SatInterface.Assumptions.{
  Reached, start, step, adds, assumes, last_assumptions-solve,
}

empty : SatInterface
empty = new_interface new_statistics

nothing_open : (formula empty).1 ≡ []
unfolding empty new_interface formula
nothing_open = refl

abbrev yes : List ℤ → List ℤ → ℤ
yes added assumed = pos 10

assuming : SatInterface
assuming = assume (pos 7) (add_clause (pos 1 ∷ []) empty)

no_assumptions : new_statistics.num_asmpts ≡ 0
unfolding new_statistics
no_assumptions = refl

assuming-Reached : Reached yes assuming
unfolding assuming empty
assuming-Reached =
    step
      (step (start new_statistics no_assumptions)
        (adds (pos 1 ∷ []) (new_interface new_statistics)))
      (assumes (pos 7) (add_clause (pos 1 ∷ []) (new_interface new_statistics)))

last_assumptions-solve_example : (solve yes assuming).1.last_assumptions ≡ assuming.assumed
last_assumptions-solve_example = last_assumptions-solve assuming-Reached
