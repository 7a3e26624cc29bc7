-- ===== src/Sat/Encoding/OpConstraints.antt =====
-- The operators of a position (src/sat/encoding.cpp): `encodeOperationConstraints` and
-- `encodeSubstitutionVars`. The option `bamot`, which arguments are pseudo-constants, what
-- `popOperationDependentDomainOfQConstant` takes out of the instance, which actions are repetitions,
-- and the table of operators are parameters.
pub mod Secured
pub mod Meaning
mod Examples
use lilotane_smt_csp.Prelude.{
  ℕ, zero, suc, Bool, true, false, not, List, [], ◌∷◌, ◌++◌, ℤ, neg, if◌then◌else◌, some, mem,
  insert_new, int_eq, length, ◌==◌,
}
use lilotane_smt_csp.Data.Signature.{USignature, Signature}
use lilotane_smt_csp.Data.HtnOp.{HtnOp}
use lilotane_smt_csp.Data.Reduction.{Reduction}
use lilotane_smt_csp.Data.OpTable.{OpTable, get_action, get_reduction}
use lilotane_smt_csp.Data.Position.{Position, fact, op}
use lilotane_smt_csp.Sat.VariableProvider.{is_encoded}
use lilotane_smt_csp.Sat.Encoding.{
  Encoder, M, ◌>>=◌, ◌>>◌, return, for_each, literals, add_clause, var_subst, var_at, reads,
}
use lilotane_smt_csp.Sat.Encoding.AtMostOne.{element_amo, substitution_amo}
use lilotane_smt_csp.Sat.Encoding.Effects.{of_option, with_sign}

-- `_new_q_constants.insert(arg)`
pub note_new : ℤ → M (Unit {0})
note_new arg s = some (tt, record s { new_q_constants = insert_new arg s.new_q_constants })

pub insert_all : List ℤ → List ℤ → List ℤ
insert_all [] qs = qs
insert_all (q ∷ new) qs = insert_all new (insert_new q qs)

-- The new pseudo-constants become known.
pub settle : M (Unit {0})
unfolding insert_all
settle s = some (
  tt,
  record s { q_constants = insert_all s.new_q_constants s.q_constants; new_q_constants = [] },
)

module _ (bamot : ℕ) (is_q_constant : ℤ → Bool) (op_domain : ℤ → USignature → List ℤ) where
  pub init_substitution : USignature → ℤ → ℤ → M (Unit {0})
  unfolding note_new
  init_substitution sig op_var arg = do
    note_new arg
    vs ← literals (op_domain arg sig) (var_subst arg)
    add_clause (neg op_var ∷ vs)
    substitution_amo bamot vs

  pub encode_substitution_vars : USignature → ℤ → ℤ → M (Unit {0})
  unfolding init_substitution
  encode_substitution_vars sig op_var arg = if not (is_q_constant arg) then return tt else do
    known ← reads (λ s. mem arg s.q_constants)
    if known then return tt else init_substitution sig op_var arg

  module _ (is_repetition : ℤ → Bool) (table : OpTable) (new : Position) where
    pub precondition : ℤ → Signature → M (Unit {0})
    precondition op_var pre =
        if not (is_encoded fact new pre.usig)
        then return tt
        else do f ← var_at fact new pre.usig; add_clause (neg op_var ∷ with_sign pre.negated f ∷ [])

    -- The two loops; the literal of the operator.
    pub action_constraints : USignature → M ℤ
    unfolding encode_substitution_vars precondition
    action_constraints sig = do
      a ← var_at op new sig
      if is_repetition sig.name_id then return a else (do
        for_each sig.args (encode_substitution_vars sig a)
        action ← of_option (get_action sig table)
        for_each action.preconditions (precondition a)
        return a)

    pub reduction_constraints : USignature → M ℤ
    unfolding encode_substitution_vars precondition
    reduction_constraints sig = do
      r ← var_at op new sig
      for_each sig.args (encode_substitution_vars sig r)
      reduction ← of_option (get_reduction sig table)
      for_each reduction.op.preconditions (precondition r)
      return r

    pub element_vars : M (List ℤ)
    unfolding action_constraints reduction_constraints
    element_vars = do
      a_vars ← literals new.actions action_constraints
      r_vars ← literals new.reductions reduction_constraints
      return (a_vars ++ r_vars)

    pub encode_operation_constraints : M (Unit {0})
    unfolding element_vars settle
    encode_operation_constraints = do
      vars ← element_vars
      settle
      if length vars == 0 then return tt else element_amo bamot vars
