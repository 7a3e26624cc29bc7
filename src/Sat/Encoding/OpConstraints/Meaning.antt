-- ===== src/Sat/Encoding/OpConstraints/Meaning.antt =====
-- The theorem on `encodeOperationConstraints` (src/sat/encoding.cpp).
use lilotane_smt_csp.Prelude.{
  ◌≡◌, refl, ap, sym, ◌∙◌, Bool, true, ◌&&◌, List, [], ◌∷◌, ◌++◌, map, ℤ, pos, ℕ, ◌<◌, some, All,
  All_map, if◌then◌else◌, int_eq, all, arith, subst, length, ◌==◌,
}
use lilotane_smt_csp.Data.Signature.{USignature, Signature}
use lilotane_smt_csp.Data.HtnOp.{HtnOp}
use lilotane_smt_csp.Data.Reduction.{Reduction}
use lilotane_smt_csp.Data.OpTable.{OpTable}
use lilotane_smt_csp.Data.Position.{Position, fact}
use lilotane_smt_csp.Data.Position.Variables.{get_variable_or_zero}
use lilotane_smt_csp.Sat.VariableProvider.{is_encoded}
use lilotane_smt_csp.Sat.Clauses.{Assignment, cnf_holds}
use lilotane_smt_csp.Sat.Encoding.{Encoder, ◌>>◌, return}
use lilotane_smt_csp.Sat.Encoding.Emits.{Env, Agrees, Agrees-Grows, state_after}
use lilotane_smt_csp.Sat.Encoding.Equality.Emitted.{Known-settled}
use lilotane_smt_csp.Sat.Encoding.Equality.Working.{working, Working, Working-Change}
use lilotane_smt_csp.Sat.Encoding.Equality.Meaning.{IsReal}
use lilotane_smt_csp.Sat.Encoding.Ensures.{
  Ensures, Ensures-bind, Ensures-cases, Ensures-less, Ensures-return, Ensures-literals, bind_runs,
}
use lilotane_smt_csp.Sat.Encoding.AtMostOne.{element_amo}
use lilotane_smt_csp.Sat.Encoding.AtMostOne.Exclusive.{are_proper, is_exclusive, excludes}
use lilotane_smt_csp.Sat.Encoding.AtMostOne.Ensured.{element_amo-Ensures}
use lilotane_smt_csp.Sat.Encoding.OpConstraints.{
  settle, insert_all, element_vars, encode_operation_constraints, action_constraints,
  reduction_constraints,
}
use lilotane_smt_csp.Sat.Encoding.OpConstraints.Secured.{
  ActionSupplied, ReductionSupplied, action_holds, reduction_holds, action-Ensures,
  reduction-Ensures,
}

module _ (domain : ℤ → List ℤ) (qs : List ℤ) (fs : List ℕ) (bamot : ℕ) (is_q_constant : ℤ → Bool)
    (op_domain : ℤ → USignature → List ℤ) (is_repetition : ℤ → Bool) (table : OpTable)
    (new : Position)
    (positive : (pre : Signature)
      → is_encoded fact new pre.usig ≡ true
      → 0 < get_variable_or_zero fact pre.usig new)
    (op_var : USignature → ℕ) (op_positive : (sig : USignature) → 0 < op_var sig)
    (action_of : USignature → HtnOp) (reduction_of : USignature → Reduction) where
  abbrev action_ok : USignature → Env → Assignment → Bool
  action_ok =
      action_holds domain qs fs bamot is_q_constant op_domain is_repetition table new positive
        op_var op_positive action_of reduction_of

  abbrev reduction_ok : USignature → Env → Assignment → Bool
  reduction_ok =
      reduction_holds domain qs fs bamot is_q_constant op_domain is_repetition table new positive
        op_var op_positive action_of reduction_of

  -- The literals of the position's operators.
  abbrev pub operator_literals : List ℤ
  operator_literals =
      map (λ sig. pos (op_var sig)) new.actions ++ map (λ sig. pos (op_var sig)) new.reductions

  -- What the clauses imply of the operators, each on its own.
  pub each_holds : Env → Assignment → Bool
  each_holds ρ σ =
      all (λ sig. action_ok sig ρ σ) new.actions && all (λ sig. reduction_ok sig ρ σ) new.reductions

  abbrev SuppliedAction : USignature → Type 0
  SuppliedAction =
      ActionSupplied domain qs fs bamot is_q_constant op_domain is_repetition table new positive
        op_var op_positive action_of reduction_of

  abbrev SuppliedReduction : USignature → Type 0
  SuppliedReduction =
      ReductionSupplied domain qs fs bamot is_q_constant op_domain is_repetition table new positive
        op_var op_positive action_of reduction_of

  element_vars-Ensures :
      All SuppliedAction new.actions
      → All SuppliedReduction new.reductions
      → Ensures
          (working domain qs fs)
          (element_vars bamot is_q_constant op_domain is_repetition table new)
          each_holds
          (λ ρ. operator_literals)
  unfolding element_vars each_holds
  element_vars-Ensures actions reductions =
      let d =
        Ensures-bind
          (Ensures-literals {C = working domain qs fs}
            (action_constraints bamot is_q_constant op_domain is_repetition table new) action_ok
            (λ sig ρ. pos (op_var sig)) new.actions
            (All_map
              (action-Ensures domain qs fs bamot is_q_constant op_domain is_repetition table new
                positive op_var op_positive action_of reduction_of)
              new.actions actions))
          (λ a_vars.
            Ensures-bind
              (Ensures-literals
                (reduction_constraints bamot is_q_constant op_domain is_repetition table new)
                reduction_ok (λ sig ρ. pos (op_var sig)) new.reductions
                (All_map
                  (reduction-Ensures domain qs fs bamot is_q_constant op_domain is_repetition table
                    new positive op_var op_positive action_of reduction_of)
                  new.reductions reductions))
              (λ r_vars. Ensures-return (a_vars ++ r_vars))) in
      Ensures-less _ _ (λ ρ σ real h. ground (arith, h)) d

  elements-Ensures :
      (qs' : List ℤ) (vars : List ℤ)
      → Ensures
          (working domain qs' fs)
          (if length vars == 0 then return tt else element_amo bamot vars)
          (excludes vars)
          (λ ρ. tt)
  unfolding excludes is_exclusive
  elements-Ensures qs' [] =
      Ensures-less (λ ρ σ. true) (excludes []) (λ ρ σ real h. refl) (Ensures-return tt)
  elements-Ensures qs' (v ∷ vars) =
      Ensures-cases (length (v ∷ vars) == 0) (λ h. absurd (ground (arith, h)))
        (λ h. element_amo-Ensures domain qs' fs bamot (v ∷ vars))

  proper-operators :
      (xs ys : List USignature)
      → are_proper (map (λ sig. pos (op_var sig)) xs ++ map (λ sig. pos (op_var sig)) ys) ≡ true
  unfolding are_proper
  proper-operators [] [] = refl
  proper-operators [] (y ∷ ys) = ground (arith, proper-operators [] ys, op_positive y)
  proper-operators (x ∷ xs) ys = ground (arith, proper-operators xs ys, op_positive x)

  -- `encodeOperationConstraints` returns where every operator has its variable and is in the table. If
  -- its clauses hold, then so do the clauses before; of the operators at most one occurs; the encoded
  -- preconditions of one that occurs hold, if it is no repetition; and of each pseudo-constant of
  -- such an operator that was not known before some substitution by its domain holds if the operator
  -- occurs, and no two do.
  pub encode_operation_constraints-secures :
      (s : Encoder) (ρ : Env) (σ : Assignment)
      → Working domain qs fs s
      → IsReal ρ
      → All SuppliedAction new.actions
      → All SuppliedReduction new.reductions
      → Agrees ρ
          (state_after
            (encode_operation_constraints bamot is_q_constant op_domain is_repetition table new)
            s).vars
      → let m =
          encode_operation_constraints bamot is_q_constant op_domain is_repetition table new in
        let t = state_after m s in
        (m s ≡ some (tt, t))
        × (cnf_holds σ t.clauses ≡ true
            → (cnf_holds σ s.clauses ≡ true)
              × (each_holds ρ σ ≡ true)
              × (is_exclusive σ operator_literals ≡ true))
  unfolding encode_operation_constraints settle excludes
  encode_operation_constraints-secures s ρ σ w real actions reductions agrees =
      let m = encode_operation_constraints bamot is_q_constant op_domain is_repetition table new in
      let e = (element_vars-Ensures actions reductions).from s w in
      let known = Working-Change domain qs fs s e.after e.change w in
      let s' = record e.after {
        q_constants = insert_all e.after.new_q_constants e.after.q_constants;
        new_q_constants = [];
      } in
      let settled : Working domain s'.q_constants fs s' = record {
        known = Known-settled domain e.after s'.q_constants [] known.known;
        q_constants_are = refl;
        new_fact_vars_are = known.new_fact_vars_are;
        counting = known.counting;
      } in
      let k = (elements-Ensures s'.q_constants e.result).from s' settled in
      let runs : m s ≡ some (tt, k.after) =
        bind_runs (element_vars bamot is_q_constant op_domain is_repetition table new)
          (λ vars. settle >> (if length vars == 0 then return tt else element_amo bamot vars)) s
          e.after e.result e.runs
        ∙ k.runs in
      let after : state_after m s ≡ k.after = rw (runs, state_after) refl in
      let later : Agrees ρ k.after.vars = subst (λ t. Agrees ρ t.vars) after agrees in
      let earlier = Agrees-Grows ρ e.after.vars k.after.vars k.change.grows later in
      (
        runs ∙ ap (λ t. some (tt, t)) (sym after),
        λ h.
            let all_hold : cnf_holds σ k.after.clauses ≡ true =
              subst (λ t. cnf_holds σ t.clauses ≡ true) after h in
            let elements_hold = k.change.implied σ all_hold in
            (
              e.change.implied σ elements_hold,
              e.secured ρ σ real earlier elements_hold,
              ground (
                arith,
                k.secured ρ σ real later all_hold,
                ap (λ vs. excludes vs ρ σ) (e.valued ρ earlier),
                proper-operators new.actions new.reductions,
              ),
            ),
      )
