-- ===== src/Sat/Encoding/QConstraints/Examples.antt =====
-- An operator with a good constant and a restriction (src/sat/encoding.cpp).
use lilotane_smt_csp.Prelude.{
  ◌≡◌, ◌↔◌, refl, true, false, [], ◌∷◌, pos, ℕ, some, int_eq, pair_eq, ◌&&◌, ◌||◌, lookup, put,
  ◌==◌, arith,
}
use lilotane_smt_csp.Data.Signature.{USignature, usig_eq}
use lilotane_smt_csp.Data.SubstitutionConstraint.{
  SubstitutionConstraint, any_valid, get_encoding, same_polarity, flip_pair,
}
use lilotane_smt_csp.Data.Position.{Position, new_position, op, clear_substitutions}
use lilotane_smt_csp.Data.Position.Variables.{get_variable, get_variable_or_zero, variable_table}
use lilotane_smt_csp.Sat.Clauses.{Assignment, cnf_holds}
use lilotane_smt_csp.Sat.LiteralTree.{node, nil, cons, contains, find, encode, keys}
use lilotane_smt_csp.Sat.LiteralTree.Paths.{IsWf, HasLiterals}
use lilotane_smt_csp.Sat.LiteralTree.Encode.{IsExclusive}
use lilotane_smt_csp.Sat.VariableProvider.{new_provider, sig_substitute, var_substitution}
use lilotane_smt_csp.Sat.VariableProvider.Run.{initial, substitute}
use lilotane_smt_csp.Sat.Encoding.{Encoder, for_each, literals, add_clause, var_subst, var_at}
use lilotane_smt_csp.Sat.Encoding.Emits.{state_after}
use lilotane_smt_csp.Sat.Encoding.QConstraints.{
  forbid_constant, type_constraint, type_constraints, signed, pair_literal, constraint_clause,
  substitution_constraint, op_constraints, encode_q_constraints,
}
use lilotane_smt_csp.Sat.Encoding.QConstraints.Meaning.{
  q_constraints_hold, encode_q_constraints-hold, restriction_holds, restriction_holds-iff_Allows,
  Allows, IsTidy,
}
use lilotane_smt_csp.Sat.Encoding.Recorded.{
  env_of, env_of-Agrees, env_of-IsReal, AllPositive, start, start-Known,
}

abbrev move : USignature
move = record { name_id = pos 5; args = pos 7 ∷ [] }

abbrev restriction : SubstitutionConstraint
restriction = record {
  involved_q_consts = pos 7 ∷ [];
  valid_substitutions = node false (cons (pos 7, pos 11) (node true nil) nil);
  invalid_substitutions = node false nil;
  polarity = any_valid;
}

abbrev restricted : Position
restricted = record new_position {
  actions = move ∷ [];
  op_variables = (move, 21) ∷ [];
  q_constants_type_constraints =
      (
        move,
        record { qconstant = pos 7; sign = true; constants = pos 11 ∷ pos 12 ∷ [] }
            ∷ record { qconstant = pos 7; sign = false; constants = pos 13 ∷ [] }
            ∷ [],
      )
      ∷ [];
  substitution_constraints = (move, restriction ∷ []) ∷ [];
}

abbrev constrained : Encoder
constrained = state_after (encode_q_constraints restricted) start

abbrev occurs : Assignment
occurs n = n == 1 || n == 21

facts : AllPositive constrained.vars × (get_variable op move restricted ≡ some 21)
unfolding encode_q_constraints forbid_constant type_constraint type_constraints signed pair_literal
    constraint_clause substitution_constraint op_constraints for_each literals add_clause var_subst
    var_at new_provider sig_substitute var_substitution initial substitute lookup put get_variable
    get_variable_or_zero variable_table new_position get_encoding same_polarity flip_pair encode
    keys
facts = (((omega arith, (omega arith, (omega arith, tt))), tt), refl)

abbrev move_var : USignature → ℕ
move_var sig = 21

encode_q_constraints-hold_example :
    (encode_q_constraints restricted start ≡ some (clear_substitutions restricted, constrained))
    × (cnf_holds occurs constrained.clauses ≡ (
        cnf_holds occurs start.clauses
        && q_constraints_hold
            (env_of constrained.vars)
            occurs
            (env_of-IsReal constrained.vars facts.0)
            restricted
            move_var
            (λ sig. omega arith)))
unfolding new_position
encode_q_constraints-hold_example =
    encode_q_constraints-hold (env_of constrained.vars) occurs
      (env_of-IsReal constrained.vars facts.0) restricted move_var (λ sig. omega arith) (λ q. [])
      start (start-Known (λ q. [])) (env_of-Agrees constrained.vars) (facts.1, tt) tt

restriction-IsTidy :
    IsTidy (env_of constrained.vars) occurs (env_of-IsReal constrained.vars facts.0) restriction
unfolding HasLiterals IsWf IsExclusive contains find keys
restriction-IsTidy = record {
  valid_pairs = (omega arith, tt, tt);
  valid_IsWf = (refl, tt, tt);
  exclusive = (λ h. refl, tt, tt);
  invalid_pairs = tt;
  invalid_IsWf = tt;
  inner = refl;
}

restriction_holds-iff_Allows_example :
    (restriction_holds (env_of constrained.vars) occurs restriction ≡ true)
    ↔ Allows (env_of constrained.vars) occurs restriction any_valid
unfolding same_polarity
restriction_holds-iff_Allows_example =
    restriction_holds-iff_Allows (env_of constrained.vars) occurs
      (env_of-IsReal constrained.vars facts.0) restriction restriction-IsTidy refl
