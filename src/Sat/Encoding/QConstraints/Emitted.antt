-- ===== src/Sat/Encoding/QConstraints/Emitted.antt =====
-- The clauses of `encodeQConstraints` (src/sat/encoding.cpp).
use lilotane_smt_csp.Prelude.{
  ◌≡◌, List, [], ◌∷◌, ◌++◌, map, ℤ, pos, neg, some, none, ℕ, Option, All, All_map, All_of,
  if◌then◌else◌, ◌==◌, lookup, or_default,
}
use lilotane_smt_csp.Data.Signature.{USignature, usig_eq, TypeConstraint}
use lilotane_smt_csp.Data.SubstitutionConstraint.{
  SubstitutionConstraint, Polarity, undecided, IntPair, get_encoding,
}
use lilotane_smt_csp.Data.Position.{Position, clear_substitutions, op}
use lilotane_smt_csp.Data.Position.Variables.{get_variable, get_variable_or_zero}
use lilotane_smt_csp.Sat.Clauses.{Clause}
use lilotane_smt_csp.Sat.Encoding.{return, for_each, var_subst}
use lilotane_smt_csp.Sat.Encoding.ConcatMap.{concat_map}
use lilotane_smt_csp.Sat.Encoding.Emits.{Env, Context, Does}
use lilotane_smt_csp.Sat.Encoding.Rules.{
  bind_rule, return_rule, add_clause_rule, for_each_rule, for_each_all_rule, literals_rule,
  var_subst_rule, var_at_rule, if_rule,
}
use lilotane_smt_csp.Sat.Encoding.QConstraints.{
  forbid_constant, type_constraint, type_constraints, abs, signed, pair_literal, constraint_clause,
  substitution_constraint, op_constraints, encode_q_constraints,
}

unfoldable pub type_clauses : ℤ → TypeConstraint → Env → List Clause
type_clauses op_var c ρ =
    if c.sign
    then (neg op_var ∷ map (λ x. ρ.sub c.qconstant x) c.constants) ∷ []
    else concat_map (λ x. (neg op_var ∷ neg (ρ.sub c.qconstant x) ∷ []) ∷ []) c.constants

unfoldable pub all_type_clauses : Position → USignature × List TypeConstraint → Env → List Clause
unfolding type_clauses
all_type_clauses new (sig, cs) ρ =
    let var = get_variable_or_zero op sig new in
    if var == 0 then [] else concat_map (λ c. type_clauses (pos var) c ρ) cs

unfoldable pub pair_of : Polarity → Env → IntPair → ℤ
pair_of polarity ρ (q, c) = signed polarity q (ρ.sub (abs q) c)

unfoldable pub constraint_clauses : ℤ → SubstitutionConstraint → Env → List Clause
unfolding pair_of
constraint_clauses op_var c ρ =
    concat_map (λ cls. (neg op_var ∷ map (pair_of c.polarity ρ) cls) ∷ [])
      (get_encoding undecided c)

module _ (new : Position) (new_var : USignature → ℕ) where
  unfoldable pub op_clauses : USignature → Env → List Clause
  unfolding constraint_clauses
  op_clauses sig ρ =
      concat_map (λ c. constraint_clauses (pos (new_var sig)) c ρ)
        (or_default [] (lookup sig new.substitution_constraints))

  abbrev pub HaveVariables : List USignature → Type 0
  HaveVariables sigs = All (λ sig. get_variable op sig new ≡ some (new_var sig)) sigs

  unfoldable pub q_constraint_clauses : Env → List Clause
  unfolding all_type_clauses op_clauses
  q_constraint_clauses ρ =
      concat_map (λ x. all_type_clauses new x ρ) new.q_constants_type_constraints
      ++ (concat_map (λ sig. op_clauses sig ρ) new.actions
          ++ (concat_map (λ sig. op_clauses sig ρ) new.reductions ++ []))

module _ {C : Context} where
  forbid_constant_rule :
      (op_var q c : ℤ)
      → Does C
          (forbid_constant op_var q c)
          (λ ρ. (neg op_var ∷ neg (ρ.sub q c) ∷ []) ∷ [])
          (λ ρ. tt)
  unfolding forbid_constant
  forbid_constant_rule op_var q c =
      let d =
        bind_rule (var_subst_rule {C = C} q c) (λ v. add_clause_rule (neg op_var ∷ neg v ∷ [])) in
      d

  type_constraint_rule :
      (op_var : ℤ) (c : TypeConstraint)
      → Does C (type_constraint op_var c) (type_clauses op_var c) (λ ρ. tt)
  unfolding type_constraint type_clauses
  type_constraint_rule op_var c =
      let d =
        if_rule c.sign
          (bind_rule
            (literals_rule {C = C} (var_subst c.qconstant) (λ x ρ. ρ.sub c.qconstant x) c.constants
              (All_of (var_subst_rule c.qconstant) c.constants))
            (λ ls. add_clause_rule (neg op_var ∷ ls)))
          (for_each_rule c.constants (forbid_constant_rule op_var c.qconstant)) in
      d

  type_constraints_rule :
      (new : Position) (x : USignature × List TypeConstraint)
      → Does C (type_constraints new x) (all_type_clauses new x) (λ ρ. tt)
  unfolding type_constraints all_type_clauses
  type_constraints_rule new (sig, cs) =
      let var = get_variable_or_zero op sig new in
      let d =
        if_rule (var == 0) (return_rule {C = C} tt)
          (for_each_rule cs (type_constraint_rule (pos var))) in
      d

  pair_literal_rule :
      (polarity : Polarity) (p : IntPair)
      → Does C (pair_literal polarity p) (λ ρ. []) (λ ρ. pair_of polarity ρ p)
  unfolding pair_literal pair_of
  pair_literal_rule polarity (q, c) =
      let d =
        bind_rule (var_subst_rule {C = C} (abs q) c) (λ v. return_rule (signed polarity q v)) in
      d

  module _ (new : Position) (new_var : USignature → ℕ) where
    constraint_rule :
        (sig : USignature) (c : SubstitutionConstraint)
        → get_variable op sig new ≡ some (new_var sig)
        → Does C
            (substitution_constraint new sig c)
            (constraint_clauses (pos (new_var sig)) c)
            (λ ρ. tt)
    unfolding substitution_constraint constraint_clause constraint_clauses
    constraint_rule sig c h =
        let d = for_each_rule (get_encoding undecided c) (λ cls.
          bind_rule (var_at_rule {C = C} op new sig (new_var sig) h) (λ o.
            bind_rule
              (literals_rule (pair_literal c.polarity) (λ p ρ. pair_of c.polarity ρ p) cls
                (All_of (pair_literal_rule c.polarity) cls))
              (λ ls. add_clause_rule (neg o ∷ ls)))) in
        d

    op_constraints_rule :
        (sig : USignature)
        → get_variable op sig new ≡ some (new_var sig)
        → Does C (op_constraints new sig) (op_clauses new new_var sig) (λ ρ. tt)
    unfolding op_constraints op_clauses concat_map
    op_constraints_rule sig h = each (lookup sig new.substitution_constraints)
      where
        each :
            (o : Option (List SubstitutionConstraint))
            → Does C
                (elim o [
                  | none ↦ return tt
                  | some cs ↦ for_each cs (substitution_constraint new sig)
                ])
                (λ ρ.
                  concat_map (λ c. constraint_clauses (pos (new_var sig)) c ρ) (or_default [] o))
                (λ ρ. tt)
        each none = return_rule tt
        each (some cs) = for_each_rule cs (λ c. constraint_rule sig c h)

    pub encode_q_constraints_rule :
        HaveVariables new new_var new.actions
        → HaveVariables new new_var new.reductions
        → Does C
            (encode_q_constraints new)
            (λ ρ. q_constraint_clauses new new_var ρ)
            (λ ρ. clear_substitutions new)
    unfolding encode_q_constraints q_constraint_clauses
    encode_q_constraints_rule h h' =
        let d =
          bind_rule
            (for_each_rule {C = C} new.q_constants_type_constraints (type_constraints_rule new))
            (λ _.
              bind_rule
                (for_each_all_rule (op_constraints new) (op_clauses new new_var) new.actions
                  (All_map op_constraints_rule new.actions h))
                (λ _.
                  bind_rule
                    (for_each_all_rule (op_constraints new) (op_clauses new new_var) new.reductions
                      (All_map op_constraints_rule new.reductions h'))
                    (λ _. return_rule (clear_substitutions new)))) in
        d
