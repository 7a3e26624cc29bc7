-- ===== src/Sat/Encoding/Equality/Examples.antt =====
-- Two pseudo-constants that share one constant (src/sat/encoding.cpp).
use lilotane_smt_csp.Prelude.{
  ◌≡◌, refl, List, [], ◌∷◌, ℤ, pos, some, int_eq, pair_eq, ◌≟◌, if◌then◌else◌, ltb, ◌&&◌, iff,
  lookup, put, mem, has_key, arith,
}
use lilotane_smt_csp.Data.Signature.{usig_eq}
use lilotane_smt_csp.Sat.Clauses.{Assignment, holds, cnf_holds}
use lilotane_smt_csp.Sat.VariableProvider.{
  new_provider, sig_substitute, var_substitution, encode_q_constant_equality_var,
  get_q_constant_equality_var, is_q_constant_equality_encoded,
}
use lilotane_smt_csp.Sat.VariableProvider.Run.{
  initial, substitute, equate, ask, variable_for, pair_for,
}
use lilotane_smt_csp.Sat.Encoding.{
  Encoder, for_each, add_clause, var_subst, encode_equality_var, equality_var, reads,
}
use lilotane_smt_csp.Sat.Encoding.Emits.{state_after}
use lilotane_smt_csp.Sat.Encoding.Equality.{
  common, missing, equivalent, implies_equality, implies_inequality, relate, encode_equality,
  encode_q_const_equality,
}
use lilotane_smt_csp.Sat.Encoding.Equality.Meaning.{Chooses, encode_q_const_equality-holds}
use lilotane_smt_csp.Sat.Encoding.Recorded.{
  env_of, env_of-Agrees, env_of-IsReal, AllPositive, by_members, start, start-Known,
}

abbrev domain : ℤ → List ℤ
domain q = if q ≟ pos 7 then pos 10 ∷ pos 11 ∷ [] else pos 11 ∷ pos 12 ∷ []

abbrev chosen : Assignment
chosen n = ltb n 4

abbrev related : Encoder
related = state_after (encode_q_const_equality domain (pos 7) (pos 8)) start

facts :
    AllPositive related.vars
    × Chooses domain (env_of related.vars) chosen (pos 7) (pos 11)
    × Chooses domain (env_of related.vars) chosen (pos 8) (pos 11)
unfolding encode_q_const_equality encode_equality relate common missing equivalent implies_equality
    implies_inequality for_each add_clause var_subst encode_equality_var equality_var reads
    new_provider sig_substitute var_substitution encode_q_constant_equality_var
    get_q_constant_equality_var is_q_constant_equality_encoded initial substitute equate ask lookup
    put mem has_key variable_for pair_for
facts = (
  ((omega arith, (omega arith, (omega arith, (omega arith, tt)))), (omega arith, tt)),
  record {
    within = refl;
    just =
        by_members (λ x. holds chosen ((env_of related.vars).sub (pos 7) x) ≡ x ≟ pos 11)
          (pos 10 ∷ pos 11 ∷ []) (refl, (refl, tt));
  },
  record {
    within = refl;
    just =
        by_members (λ x. holds chosen ((env_of related.vars).sub (pos 8) x) ≡ x ≟ pos 11)
          (pos 11 ∷ pos 12 ∷ []) (refl, (refl, tt));
  },
)

encode_q_const_equality-holds_example :
    (encode_q_const_equality domain (pos 7) (pos 8) start
      ≡ some ((env_of related.vars).eq (pos 7) (pos 8), related))
    × (cnf_holds chosen related.clauses ≡ (
        cnf_holds chosen start.clauses
        && iff (holds chosen ((env_of related.vars).eq (pos 7) (pos 8))) (pos 11 ≟ pos 11)))
encode_q_const_equality-holds_example =
    encode_q_const_equality-holds domain (pos 7) (pos 8) (pos 11) (pos 11) start
      (env_of related.vars) chosen (start-Known domain) (env_of-Agrees related.vars)
      (env_of-IsReal related.vars facts.0) facts.1 facts.2
