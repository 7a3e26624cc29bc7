-- ===== src/Algo/FactAnalysis/Examples.antt =====
-- An initial state of one fact (src/algo/fact_analysis.h), whose negation becomes reachable.
use lilotane_smt_csp.Prelude.{true, [], ◌∷◌, pos}
use lilotane_smt_csp.Data.Signature.{USignature, usig_eq}
use lilotane_smt_csp.Algo.FactAnalysis.{
  FactAnalysis, new_analysis, reset_reachability, add_reachable_fact,
}
use lilotane_smt_csp.Algo.FactAnalysis.Reachability.{Steps, none_left, then_step, reaches}

abbrev at_home : USignature
at_home = record { name_id = pos 4; args = [] }

initial : FactAnalysis
initial = new_analysis (at_home ∷ [])

left : FactAnalysis
left = add_reachable_fact at_home true (reset_reachability initial)

leaves : Steps (reset_reachability initial) left
unfolding left
leaves = then_step none_left (reaches at_home true (reset_reachability initial))
