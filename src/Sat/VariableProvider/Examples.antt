-- ===== src/Sat/VariableProvider/Examples.antt =====
-- Two substitutions of one pseudo-constant (src/sat/variable_provider.h), with an equality between.
use lilotane_smt_csp.Prelude.{◌≡◌, ◌↔◌, refl, pos, lookup, put}
use lilotane_smt_csp.Sat.VariableProvider.{
  var_substitution, new_provider, sig_substitute, encode_q_constant_equality_var,
  get_q_constant_equality_var, skip_variable,
}
use lilotane_smt_csp.Sat.VariableProvider.Run.{
  State, initial, substitute, equate, ask, skip, equated, asked, skipped, now, then_step,
}
use lilotane_smt_csp.Sat.VariableProvider.Stable.{var_substitution-Later}

abbrev before : State
before = initial (pos 1) (pos 2)

abbrev after : State
after = skip (ask (pos 5) (pos 6) (equate (pos 5) (pos 7) (substitute (pos 5) (pos 3) before)))

third : (var_substitution (pos 5) (pos 4) after.provider after.domain).0 ≡ 4
unfolding var_substitution initial new_provider sig_substitute substitute equate ask skip
    encode_q_constant_equality_var get_q_constant_equality_var skip_variable lookup put
third = refl

var_substitution-Later_example :
    ((var_substitution (pos 5) (pos 3) before.provider before.domain).0
      ≡ (var_substitution (pos 5) (pos 3) after.provider after.domain).0)
    ↔ ((pos 5 ≡ pos 5) × (pos 3 ≡ pos 3))
var_substitution-Later_example =
    var_substitution-Later (pos 1) (pos 2) (pos 5) (pos 3) (pos 5) (pos 3) before after now (
      then_step (then_step (then_step now (equated (pos 5) (pos 7))) (asked (pos 5) (pos 6)))
        skipped)
