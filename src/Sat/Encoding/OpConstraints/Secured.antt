-- ===== src/Sat/Encoding/OpConstraints/Secured.antt =====
-- What the clauses of `encodeOperationConstraints` imply (src/sat/encoding.cpp).
use lilotane_smt_csp.Prelude.{
  ◌≡◌, refl, ap, sym, Bool, true, false, not, ◌&&◌, ◌||◌, List, [], ◌∷◌, map, ℤ, pos, neg, ℕ, ◌<◌,
  some, Option, All_of, if◌then◌else◌, ◌≟◌, ≟_sound, int_eq, any, all, arith, mem, insert_new,
  subst, Bool-cases, inl, inr,
}
use lilotane_smt_csp.Data.Signature.{USignature, Signature}
use lilotane_smt_csp.Data.HtnOp.{HtnOp}
use lilotane_smt_csp.Data.Reduction.{Reduction}
use lilotane_smt_csp.Data.OpTable.{OpTable, get_action, get_reduction}
use lilotane_smt_csp.Data.Position.{Position, fact, op}
use lilotane_smt_csp.Data.Position.Variables.{
  get_variable, get_variable_or_zero, has_variable-get_variable,
}
use lilotane_smt_csp.Sat.VariableProvider.{is_encoded}
use lilotane_smt_csp.Sat.Clauses.{Clause, Assignment, holds, cnf_holds, holds-neg_pos}
use lilotane_smt_csp.Sat.Encoding.{M, ◌>>=◌, ◌>>◌, return, for_each, var_subst}
use lilotane_smt_csp.Sat.Encoding.Emits.{Env, Context, Grows-refl, Does}
use lilotane_smt_csp.Sat.Encoding.Rules.{
  bind_rule, add_clause_rule, literals_rule, var_subst_rule, var_at_rule,
}
use lilotane_smt_csp.Sat.Encoding.Equality.Working.{working}
use lilotane_smt_csp.Sat.Encoding.Equality.Meaning.{IsReal}
use lilotane_smt_csp.Sat.Encoding.Ensures.{
  Ensures, ensured, Ensures-bind, Ensures-if, Ensures-less, Ensures-return, Ensures-for_each,
  Ensures-reads, Ensures-var_at, Ensures-cases,
}
use lilotane_smt_csp.Sat.Encoding.AtMostOne.Exclusive.{are_proper, is_exclusive, excludes}
use lilotane_smt_csp.Sat.Encoding.AtMostOne.Ensured.{substitution_amo-Ensures}
use lilotane_smt_csp.Sat.Encoding.Effects.{of_option, with_sign}
use lilotane_smt_csp.Sat.Encoding.OpConstraints.{
  note_new, init_substitution, encode_substitution_vars, precondition, action_constraints,
  reduction_constraints,
}

module _ {C : Context} where
  note_new_rule : (arg : ℤ) → Does C (note_new arg) (λ ρ. []) (λ ρ. tt)
  unfolding note_new
  note_new_rule arg = record {
    from = λ s g. record {
      result = tt;
      after = record s { new_q_constants = insert_new arg s.new_q_constants };
      runs = refl;
      change = record {
        grows = Grows-refl s.vars;
        q_constants = refl;
        new_fact_vars = refl;
        implied = λ σ h. h;
        known = λ q r v h. inl h;
      };
      valued = λ ρ a. refl;
      says = λ ρ σ a. ground arith;
    };
  }

  Ensures-option :
      {A B : Type 0} (o : Option A) (a : A) (f : A → M B) {ψ : Env → Assignment → Bool}
      {w : Env → B}
      → o ≡ some a
      → Ensures C (f a) ψ w
      → Ensures C (of_option o >>= f) ψ w
  unfolding of_option
  Ensures-option o a f {ψ = ψ} {w = w} h d =
      subst (λ o. Ensures C (of_option o >>= f) ψ w) (sym h) d

  Ensures-Does :
      {A : Type 0} {m : M A} {φ : Env → List Clause} {v : Env → A}
      → Does C m φ v
      → Ensures C m (λ ρ σ. cnf_holds σ (φ ρ)) v
  Ensures-Does {φ = φ} d = ensured φ (λ ρ σ. cnf_holds σ (φ ρ)) (λ ρ σ real h. h) d

proper-subs : (ρ : Env) → IsReal ρ → (q : ℤ) (cs : List ℤ) → are_proper (map (ρ.sub q) cs) ≡ true
unfolding are_proper
proper-subs ρ real q [] = refl
proper-subs ρ real q (c ∷ cs) = elim (Bool-cases (ρ.sub q c ≟ pos 0)) [
  | inl zero_l ↦ absurd (real.sub q c (≟_sound (ρ.sub q c) (pos 0) zero_l))
  | inr other ↦ ground (arith, other, proper-subs ρ real q cs)
]

module _ (domain : ℤ → List ℤ) (qs : List ℤ) (fs : List ℕ) (bamot : ℕ) (is_q_constant : ℤ → Bool)
    (op_domain : ℤ → USignature → List ℤ) where
  -- A new pseudo-constant of an operator: if the operator occurs, then some substitution by its domain
  -- holds; and no two do.
  pub substitution_holds : ℕ → USignature → ℤ → Env → Assignment → Bool
  substitution_holds var sig arg ρ σ =
      let subs = map (ρ.sub arg) (op_domain arg sig) in
      not (is_q_constant arg)
      || (mem arg qs || ((not (σ var) || any (holds σ) subs) && is_exclusive σ subs))

  init_substitution-Ensures :
      (var : ℕ) (sig : USignature) (arg : ℤ)
      → 0 < var
      → Ensures
          (working domain qs fs)
          (init_substitution bamot is_q_constant op_domain sig (pos var) arg)
          (λ ρ σ.
            let subs = map (ρ.sub arg) (op_domain arg sig) in
            (not (σ var) || any (holds σ) subs) && is_exclusive σ subs)
          (λ ρ. tt)
  unfolding init_substitution excludes
  init_substitution-Ensures var sig arg p =
      let d = Ensures-bind (Ensures-Does (note_new_rule {C = working domain qs fs} arg)) (λ _.
        Ensures-bind
          (Ensures-Does (
            literals_rule (var_subst arg) (λ c ρ. ρ.sub arg c) (op_domain arg sig)
              (All_of (var_subst_rule arg) (op_domain arg sig))))
          (λ vs.
            Ensures-bind (Ensures-Does (add_clause_rule (neg (pos var) ∷ vs)))
              (λ _. substitution_amo-Ensures domain qs fs bamot vs))) in
      Ensures-less _ _
        (λ ρ σ real h.
          ground (arith, h, holds-neg_pos σ var p, proper-subs ρ real arg (op_domain arg sig)))
        d

  encode_substitution_vars-Ensures :
      (var : ℕ) (sig : USignature) (arg : ℤ)
      → 0 < var
      → Ensures
          (working domain qs fs)
          (encode_substitution_vars bamot is_q_constant op_domain sig (pos var) arg)
          (substitution_holds var sig arg)
          (λ ρ. tt)
  unfolding encode_substitution_vars substitution_holds
  encode_substitution_vars-Ensures var sig arg p =
      let d =
        Ensures-if (not (is_q_constant arg)) (λ other. Ensures-return {C = working domain qs fs} tt)
          (λ q.
            Ensures-reads (λ s. mem arg s.q_constants) (mem arg qs) _
              (λ s g. ap (mem arg) g.q_constants_are)
              (Ensures-if (mem arg qs) (λ k. Ensures-return {C = working domain qs fs} tt)
                (λ k. init_substitution-Ensures var sig arg p))) in
      Ensures-less _ _ (λ ρ σ real h. ground (arith, h)) d

  module _ (is_repetition : ℤ → Bool) (table : OpTable) (new : Position)
      (positive : (pre : Signature)
        → is_encoded fact new pre.usig ≡ true
        → 0 < get_variable_or_zero fact pre.usig new) where
    -- If the operator occurs, then an encoded precondition has its value.
    pub precondition_holds : ℕ → Signature → Assignment → Bool
    precondition_holds var pre σ =
        let f = get_variable_or_zero fact pre.usig new in
        not (is_encoded fact new pre.usig)
        || (not (σ var) || (if pre.negated then not (σ f) else σ f))

    precondition-Ensures :
        (var : ℕ) (pre : Signature)
        → 0 < var
        → Ensures
            (working domain qs fs)
            (precondition bamot is_q_constant op_domain is_repetition table new (pos var) pre)
            (λ ρ σ. precondition_holds var pre σ)
            (λ ρ. tt)
    unfolding precondition precondition_holds with_sign is_encoded
    precondition-Ensures var pre p =
        let f = get_variable_or_zero fact pre.usig new in
        let d =
          Ensures-if (not (is_encoded fact new pre.usig))
            (λ off. Ensures-return {C = working domain qs fs} tt)
            (λ on.
              let encoded : is_encoded fact new pre.usig ≡ true = ground (arith, on) in
              Ensures-Does (
                bind_rule
                  (var_at_rule {C = working domain qs fs} fact new pre.usig f
                    (has_variable-get_variable fact pre.usig new encoded))
                  (λ l. add_clause_rule (neg (pos var) ∷ with_sign pre.negated l ∷ [])))) in
        Ensures-less _ _
          (λ ρ σ real h.
            ground (arith, h, holds-neg_pos σ var p, holds-with_sign σ pre.negated f, positive pre))
          d
      where
        holds-with_sign :
            (σ : Assignment) (b : Bool) (f : ℕ)
            → 0 < f
            → holds σ (with_sign b (pos f)) ≡ (if b then not (σ f) else σ f)
        holds-with_sign σ true f q = holds-neg_pos σ f q
        holds-with_sign σ false f q = refl

    module _ (op_var : USignature → ℕ) (op_positive : (sig : USignature) → 0 < op_var sig) where
      -- What the constraints of an operator's arguments and preconditions imply.
      pub operator_holds : List Signature → USignature → Env → Assignment → Bool
      unfolding substitution_holds precondition_holds
      operator_holds preconditions sig ρ σ =
          all (λ arg. substitution_holds (op_var sig) sig arg ρ σ) sig.args
          && all (λ pre. precondition_holds (op_var sig) pre σ) preconditions

      module _ (action_of : USignature → HtnOp) (reduction_of : USignature → Reduction) where
        abbrev pub ActionSupplied : USignature → Type 0
        ActionSupplied sig =
            (get_variable op sig new ≡ some (op_var sig))
            × (is_repetition sig.name_id ≡ false → get_action sig table ≡ some (action_of sig))

        abbrev pub ReductionSupplied : USignature → Type 0
        ReductionSupplied sig =
            (get_variable op sig new ≡ some (op_var sig))
            × (get_reduction sig table ≡ some (reduction_of sig))

        pub action_holds : USignature → Env → Assignment → Bool
        unfolding operator_holds
        action_holds sig ρ σ =
            is_repetition sig.name_id || operator_holds (action_of sig).preconditions sig ρ σ

        pub reduction_holds : USignature → Env → Assignment → Bool
        unfolding operator_holds
        reduction_holds sig ρ σ = operator_holds (reduction_of sig).op.preconditions sig ρ σ

        -- The arguments, then the preconditions; the operator's literal.
        operator-Ensures :
            {Op : Type 0} (found : Option Op) (operator : Op)
            (preconditions_of : Op → List Signature) (sig : USignature)
            → found ≡ some operator
            → Ensures
                (working domain qs fs)
                (for_each sig.args
                    (encode_substitution_vars bamot is_q_constant op_domain sig (pos (op_var sig)))
                  >> (of_option found >>= λ o.
                      for_each (preconditions_of o) (
                        precondition bamot is_q_constant op_domain is_repetition table new
                          (pos (op_var sig)))
                      >> return (pos (op_var sig))))
                (operator_holds (preconditions_of operator) sig)
                (λ ρ. pos (op_var sig))
        unfolding operator_holds
        operator-Ensures found operator preconditions_of sig h =
            let d =
              Ensures-bind
                (Ensures-for_each {C = working domain qs fs} _ (substitution_holds (op_var sig) sig)
                  sig.args
                  (All_of
                    (λ arg. encode_substitution_vars-Ensures (op_var sig) sig arg (op_positive sig))
                    sig.args))
                (λ _. Ensures-option found operator _ h (
                  Ensures-bind
                    (Ensures-for_each _ (λ pre ρ σ. precondition_holds (op_var sig) pre σ)
                      (preconditions_of operator)
                      (All_of (λ pre. precondition-Ensures (op_var sig) pre (op_positive sig))
                        (preconditions_of operator)))
                    (λ _. Ensures-return (pos (op_var sig))))) in
            Ensures-less _ _ (λ ρ σ real h. ground (arith, h)) d

        pub action-Ensures :
            (sig : USignature)
            → ActionSupplied sig
            → Ensures
                (working domain qs fs)
                (action_constraints bamot is_q_constant op_domain is_repetition table new sig)
                (action_holds sig)
                (λ ρ. pos (op_var sig))
        unfolding action_constraints action_holds
        action-Ensures sig h = Ensures-var_at op new sig (op_var sig) _ h.0 (
            Ensures-cases (is_repetition sig.name_id)
              (λ r.
                Ensures-less (λ ρ σ. true) _ (λ ρ σ real k. ground (arith, r))
                  (Ensures-return (pos (op_var sig))))
              (λ r.
                Ensures-less (operator_holds (action_of sig).preconditions sig) _
                  (λ ρ σ real k. ground (arith, k))
                  (operator-Ensures (get_action sig table) (action_of sig) (λ o. o.preconditions)
                    sig (h.1 r))))

        pub reduction-Ensures :
            (sig : USignature)
            → ReductionSupplied sig
            → Ensures
                (working domain qs fs)
                (reduction_constraints bamot is_q_constant op_domain is_repetition table new sig)
                (reduction_holds sig)
                (λ ρ. pos (op_var sig))
        unfolding reduction_constraints reduction_holds
        reduction-Ensures sig h = Ensures-var_at op new sig (op_var sig) _ h.0 (
            operator-Ensures (get_reduction sig table) (reduction_of sig) (λ r. r.op.preconditions)
              sig h.1)
