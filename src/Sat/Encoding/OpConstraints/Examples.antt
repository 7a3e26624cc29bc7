-- ===== src/Sat/Encoding/OpConstraints/Examples.antt =====
-- A position with an action and a reduction (src/sat/encoding.cpp).
use lilotane_smt_csp.Prelude.{
  ◌≡◌, refl, Bool, true, false, List, [], ◌∷◌, ℤ, pos, ℕ, some, int_eq, pair_eq, ◌≟◌, ◌==◌, ◌||◌,
  if◌then◌else◌, lookup, put, mem, insert_new, arith, ◌<◌, has_key, Bool-cases, inl, inr,
}
use lilotane_smt_csp.Data.Signature.{USignature, Signature, usig_eq}
use lilotane_smt_csp.Data.HtnOp.{HtnOp}
use lilotane_smt_csp.Data.Reduction.{Reduction}
use lilotane_smt_csp.Data.OpTable.{OpTable, get_action, get_reduction}
use lilotane_smt_csp.Data.Position.{Position, new_position, op, fact}
use lilotane_smt_csp.Data.Position.Variables.{
  get_variable, get_variable_or_zero, variable_table, has_variable,
}
use lilotane_smt_csp.Sat.Clauses.{Assignment, cnf_holds}
use lilotane_smt_csp.Sat.VariableProvider.{
  new_provider, sig_substitute, var_substitution, is_encoded,
}
use lilotane_smt_csp.Sat.VariableProvider.Run.{initial, substitute}
use lilotane_smt_csp.Sat.OrderedSets.{less}
use lilotane_smt_csp.Sat.Encoding.{
  Encoder, for_each, literals, add_clause, var_subst, var_at, reads,
}
use lilotane_smt_csp.Sat.Encoding.Emits.{state_after}
use lilotane_smt_csp.Sat.Encoding.Equality.Emitted.{empty-Known}
use lilotane_smt_csp.Sat.Encoding.Equality.Working.{Working}
use lilotane_smt_csp.Sat.Encoding.AtMostOne.{
  element_amo, substitution_amo, naive_amo, naive_ordered, forbid_both,
}
use lilotane_smt_csp.Sat.Encoding.AtMostOne.Exclusive.{is_exclusive}
use lilotane_smt_csp.Sat.Encoding.Effects.{of_option, with_sign}
use lilotane_smt_csp.Sat.Encoding.OpConstraints.{
  note_new, settle, insert_all, init_substitution, encode_substitution_vars, precondition,
  action_constraints, reduction_constraints, element_vars, encode_operation_constraints,
}
use lilotane_smt_csp.Sat.Encoding.OpConstraints.Meaning.{
  each_holds, operator_literals, encode_operation_constraints-secures,
}
use lilotane_smt_csp.Sat.Encoding.Recorded.{
  env_of, env_of-Agrees, env_of-IsReal, AllPositive, start,
}

abbrev domain : ℤ → List ℤ
domain q = pos 10 ∷ pos 11 ∷ []

abbrev op_domain : ℤ → USignature → List ℤ
op_domain q sig = pos 10 ∷ pos 11 ∷ []

abbrev is_q_constant : ℤ → Bool
is_q_constant x = x ≟ pos 7

abbrev is_repetition : ℤ → Bool
is_repetition id = id ≟ pos 9

abbrev place : USignature
place = record { name_id = pos 3; args = pos 7 ∷ [] }

abbrev move : USignature
move = record { name_id = pos 5; args = pos 7 ∷ [] }

abbrev travel : USignature
travel = record { name_id = pos 4; args = pos 11 ∷ [] }

abbrev move_op : HtnOp
move_op = record {
  id = pos 5;
  args = pos 7 ∷ [];
  preconditions = record { usig = place; negated = false } ∷ [];
  extra_preconditions = [];
  effects = [];
}

abbrev travel_reduction : Reduction
travel_reduction = record {
  op = record move_op { id = pos 4; args = pos 11 ∷ []; preconditions = [] };
  task_name_id = pos 6;
  task_args = pos 11 ∷ [];
  subtasks = [];
}

abbrev table : OpTable
table = record {
  actions_by_sig = (move, move_op) ∷ [];
  reductions_by_sig = (travel, travel_reduction) ∷ [];
}

abbrev here : Position
here = record new_position {
  actions = move ∷ [];
  reductions = travel ∷ [];
  op_variables = (move, 21) ∷ (travel, 20) ∷ [];
  fact_variables = (place, 30) ∷ [];
}

abbrev constrained : Encoder
constrained =
    state_after (encode_operation_constraints 50 is_q_constant op_domain is_repetition table here)
      start

abbrev occurs : Assignment
occurs n = n == 1 || (n == 21 || n == 30)

abbrev op_var : USignature → ℕ
op_var sig = if sig ≟ move then 21 else 20

op_positive : (sig : USignature) → 0 < op_var sig
op_positive sig = elim (Bool-cases (sig ≟ move)) [
  | inl same ↦ rw same (omega arith)
  | inr other ↦ rw other (omega arith)
]

fact_positive :
    (pre : Signature)
    → is_encoded fact here pre.usig ≡ true
    → 0 < get_variable_or_zero fact pre.usig here
unfolding is_encoded has_variable has_key get_variable_or_zero variable_table lookup
fact_positive pre h = elim (Bool-cases (pre.usig ≟ place)) [
  | inl same ↦ rw same (omega arith)
  | inr other ↦ let no : false ≡ true = rw other at h in cc no
]

start-Working : Working domain [] [] start
unfolding initial new_provider
start-Working = record {
  known = empty-Known domain start refl;
  q_constants_are = refl;
  new_fact_vars_are = refl;
  counting = omega arith;
}

facts :
    AllPositive constrained.vars
    × (cnf_holds occurs constrained.clauses ≡ true)
    × (get_variable op move here ≡ some 21)
    × (get_action move table ≡ some move_op)
    × (get_variable op travel here ≡ some 20)
    × (get_reduction travel table ≡ some travel_reduction)
unfolding encode_operation_constraints element_vars action_constraints reduction_constraints
    precondition encode_substitution_vars init_substitution insert_all settle note_new element_amo
    substitution_amo naive_amo naive_ordered forbid_both of_option with_sign for_each literals
    add_clause var_subst var_at reads less new_provider sig_substitute var_substitution is_encoded
    initial substitute lookup put mem insert_new has_key get_variable get_variable_or_zero
    variable_table has_variable get_action get_reduction new_position
facts = (((omega arith, (omega arith, tt)), tt), refl, refl, refl, refl, refl)

abbrev action_of : USignature → HtnOp
action_of sig = move_op

abbrev reduction_of : USignature → Reduction
reduction_of sig = travel_reduction

encode_operation_constraints-secures_example :
    (encode_operation_constraints 50 is_q_constant op_domain is_repetition table here start
      ≡ some (tt, constrained))
    × (cnf_holds occurs constrained.clauses ≡ true
        → (cnf_holds occurs start.clauses ≡ true)
          × (each_holds domain [] [] 50 is_q_constant op_domain is_repetition table here
                fact_positive op_var op_positive action_of reduction_of
                (env_of constrained.vars)
                occurs
              ≡ true)
          × (is_exclusive occurs (
                operator_literals domain [] [] 50 is_q_constant op_domain is_repetition table here
                  fact_positive op_var op_positive action_of reduction_of)
              ≡ true))
unfolding new_position
encode_operation_constraints-secures_example =
    encode_operation_constraints-secures domain [] [] 50 is_q_constant op_domain is_repetition table
      here fact_positive op_var op_positive action_of reduction_of start (env_of constrained.vars)
      occurs start-Working (env_of-IsReal constrained.vars facts.0) ((facts.2, λ h. facts.3), tt)
      ((facts.4, facts.5), tt) (env_of-Agrees constrained.vars)
