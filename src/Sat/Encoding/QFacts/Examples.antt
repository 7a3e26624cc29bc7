-- ===== src/Sat/Encoding/QFacts/Examples.antt =====
-- A fact with a pseudo-constant and its two decodings (src/sat/encoding.cpp).
use lilotane_smt_csp.Prelude.{
  ◌≡◌, refl, List, [], ◌∷◌, ◌||◌, ℤ, pos, ℕ, none, some, int_eq, pair_eq, ◌==◌, ◌&&◌, all, lookup,
  put, has_key, mem, arith,
}
use lilotane_smt_csp.Data.Signature.{USignature, usig_eq}
use lilotane_smt_csp.Data.Position.{
  Position, new_position, has_qfact_decodings, get_qfact_decodings, qfact_decodings,
}
use lilotane_smt_csp.Data.Position.Variables.{get_variable, get_variable_or_zero, variable_table}
use lilotane_smt_csp.Sat.Clauses.{Assignment, cnf_holds}
use lilotane_smt_csp.Sat.VariableProvider.{new_provider, sig_substitute, var_substitution}
use lilotane_smt_csp.Sat.VariableProvider.Run.{initial, substitute, variable_for, pair_for}
use lilotane_smt_csp.Sat.Encoding.{Encoder, for_each, add_clause, var_subst, reads}
use lilotane_smt_csp.Sat.Encoding.Emits.{state_after}
use lilotane_smt_csp.Sat.Encoding.Equality.Working.{Working}
use lilotane_smt_csp.Sat.Encoding.Effects.{of_option}
use lilotane_smt_csp.Sat.Encoding.QFacts.{
  substitution_vars, signed_var, filters_above, same_to_the_left, is_above, decoding,
  signed_semantics, qfact_semantics, encode_qfact_semantics,
}
use lilotane_smt_csp.Sat.Encoding.QFacts.Emitted.{IsReady}
use lilotane_smt_csp.Sat.Encoding.QFacts.Meaning.{IsFit, qfact_holds, encode_qfact_semantics-holds}
use lilotane_smt_csp.Sat.Encoding.Recorded.{
  env_of, env_of-Agrees, env_of-IsReal, AllPositive, start, start-Known,
}

abbrev domain : ℤ → List ℤ
domain q = pos 10 ∷ pos 11 ∷ []

abbrev at : ℤ → USignature
at x = record { name_id = pos 4; args = x ∷ [] }

abbrev there : Position
there = record new_position {
  qfacts = at (pos 7) ∷ [];
  pos_qfact_decodings = (at (pos 7), at (pos 10) ∷ at (pos 11) ∷ []) ∷ [];
  fact_variables = (at (pos 7), 20) ∷ (at (pos 10), 21) ∷ (at (pos 11), 22) ∷ [];
}

abbrev decoded : Encoder
decoded = state_after (encode_qfact_semantics none none there) start

abbrev choice : ℤ → ℤ
choice q = pos 11

-- The fact and its second decoding hold.
abbrev arrived : Assignment
arrived n = n == 2 || (n == 20 || n == 22)

abbrev at_var : USignature → ℕ
at_var sig = 20

decoded-AllPositive : AllPositive decoded.vars
unfolding encode_qfact_semantics qfact_semantics signed_semantics decoding is_above filters_above
    same_to_the_left signed_var substitution_vars has_qfact_decodings get_qfact_decodings
    qfact_decodings for_each add_clause var_subst reads new_provider sig_substitute var_substitution
    initial substitute variable_for pair_for lookup put mem has_key get_variable
    get_variable_or_zero variable_table new_position of_option
decoded-AllPositive = ((omega arith, (omega arith, tt)), tt)

facts :
    IsReady none none there [] at_var (at (pos 7))
    × IsFit none none there choice arrived
        (env_of decoded.vars)
        (env_of-IsReal decoded.vars decoded-AllPositive)
        []
        at_var
        (at (pos 7))
unfolding encode_qfact_semantics qfact_semantics signed_semantics decoding is_above filters_above
    same_to_the_left signed_var substitution_vars has_qfact_decodings get_qfact_decodings
    qfact_decodings for_each add_clause var_subst reads new_provider sig_substitute var_substitution
    initial substitute variable_for pair_for lookup put mem has_key get_variable
    get_variable_or_zero variable_table new_position of_option
facts = (
  record { variable = refl; negative = tt; positive = (omega arith, (omega arith, tt)) },
  record {
    present = omega arith;
    negative = tt;
    positive = (
      (record { same = λ h. cc h; other = λ h. refl }, tt),
      ((record { same = λ h. refl; other = λ h. refl }, tt), tt),
    );
  },
)

start-Working : Working domain [] [] start
unfolding initial new_provider
start-Working = record {
  known = start-Known domain;
  q_constants_are = refl;
  new_fact_vars_are = refl;
  counting = omega arith;
}

encode_qfact_semantics-holds_example :
    (encode_qfact_semantics none none there start ≡ some (tt, decoded))
    × (cnf_holds arrived decoded.clauses ≡ (
        cnf_holds arrived start.clauses
        && all
            (qfact_holds none none there choice arrived
              (env_of decoded.vars)
              (env_of-IsReal decoded.vars decoded-AllPositive)
              []
              at_var)
            there.qfacts))
encode_qfact_semantics-holds_example =
    encode_qfact_semantics-holds none none there choice arrived (env_of decoded.vars)
      (env_of-IsReal decoded.vars decoded-AllPositive) [] at_var domain [] start start-Working
      (env_of-Agrees decoded.vars) (facts.0, tt) (facts.1, tt)
