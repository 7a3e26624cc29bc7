-- ===== src/Sat/Encoding/Subtasks/Emitted.antt =====
-- The clauses of `encodeSubtaskRelationships` (src/sat/encoding.cpp).
use lilotane_smt_csp.Prelude.{
  ◌≡◌, Bool, not, List, [], ◌∷◌, ◌++◌, map, ℤ, pos, neg, some, none, ℕ, Option, All, if◌then◌else◌,
  ◌==◌, lookup, or_default,
}
use lilotane_smt_csp.Data.Signature.{USignature, usig_eq}
use lilotane_smt_csp.Data.Substitution.{Entry, Substitution}
use lilotane_smt_csp.Data.Position.{Position, USigSet, op}
use lilotane_smt_csp.Data.Position.Variables.{get_variable, get_variable_or_zero}
use lilotane_smt_csp.Sat.Clauses.{Clause}
use lilotane_smt_csp.Sat.Encoding.{return, for_each}
use lilotane_smt_csp.Sat.Encoding.ConcatMap.{concat_map}
use lilotane_smt_csp.Sat.Encoding.Emits.{Env, Does}
use lilotane_smt_csp.Sat.Encoding.Rules.{
  bind_rule, return_rule, add_clause_rule, for_each_rule, for_each_all_rule, vars_at_rule,
  var_subst_rule, var_at_rule, if_rule,
}
use lilotane_smt_csp.Sat.Encoding.Equality.Emitted.{
  equality_clauses, knowing, encode_q_const_equality_rule,
}
use lilotane_smt_csp.Sat.Encoding.Subtasks.{
  restrict, restrict_child, expansion, predecessor, only_blank, encode_subtask_relationships,
}

module _ (domain : ℤ → List ℤ) (is_q_constant : ℤ → Bool) where
  unfoldable pub restrict_clauses : ℤ → ℤ → Entry → Env → List Clause
  restrict_clauses parent child e ρ =
      (if not (is_q_constant e.first) then [] else equality_clauses domain ρ e.second e.first ++ [])
      ++ (neg parent
          ∷ neg child
          ∷ (if not (is_q_constant e.first) then ρ.sub e.second e.first else ρ.eq e.second e.first)
          ∷ [])
        ∷ []

  restrict_rule :
      (parent child : ℤ) (e : Entry)
      → Does
          (knowing domain)
          (restrict domain is_q_constant parent child e)
          (restrict_clauses parent child e)
          (λ ρ. tt)
  unfolding restrict restrict_clauses
  restrict_rule parent child e =
      let d =
        bind_rule
          (if_rule (not (is_q_constant e.first)) (var_subst_rule e.second e.first)
            (encode_q_const_equality_rule domain e.second e.first))
          (λ l. add_clause_rule (neg parent ∷ neg child ∷ l ∷ [])) in
      d

  unfoldable pub child_clauses : Position → ℤ → USignature × Substitution → Env → List Clause
  unfolding restrict_clauses
  child_clauses new parent (child, s) ρ =
      let var = get_variable_or_zero op child new in
      if var == 0 then [] else concat_map (λ e. restrict_clauses parent (pos var) e ρ) s

  restrict_child_rule :
      (new : Position) (parent : ℤ) (x : USignature × Substitution)
      → Does
          (knowing domain)
          (restrict_child domain is_q_constant new parent x)
          (child_clauses new parent x)
          (λ ρ. tt)
  unfolding restrict_child child_clauses
  restrict_child_rule new parent (child, s) =
      let d =
        if_rule (get_variable_or_zero op child new == 0) (return_rule {C = knowing domain} tt)
          (for_each_rule s (restrict_rule parent (pos (get_variable_or_zero op child new)))) in
      d

  module _ (above new : Position) (above_var new_var : USignature → ℕ) where
    unfoldable pub expansion_clauses : USignature × USigSet → Env → List Clause
    unfolding child_clauses
    expansion_clauses (parent, children) ρ =
        (neg (pos (above_var parent)) ∷ map (λ c. pos (new_var c)) children)
        ∷ concat_map (λ x. child_clauses new (pos (above_var parent)) x ρ)
            (or_default [] (lookup parent new.expansion_substitutions))

    unfoldable pub predecessor_clauses : USignature × USigSet → Env → List Clause
    predecessor_clauses (child, parents) ρ =
        (neg (pos (new_var child)) ∷ map (λ c. pos (above_var c)) parents) ∷ []

    -- The operators of a table have their variables.
    abbrev pub HasVariables : USignature × USigSet → Type 0
    HasVariables (parent, children) =
        (get_variable op parent above ≡ some (above_var parent))
        × All (λ c. get_variable op c new ≡ some (new_var c)) children

    abbrev pub HaveVariables : USignature × USigSet → Type 0
    HaveVariables (child, parents) =
        (get_variable op child new ≡ some (new_var child))
        × All (λ c. get_variable op c above ≡ some (above_var c)) parents

    substitutions_rule :
        (parent : ℤ) (o : Option (List (USignature × Substitution)))
        → Does
            (knowing domain)
            (elim o [
              | none ↦ return tt
              | some subs ↦ for_each subs (restrict_child domain is_q_constant new parent)
            ])
            (λ ρ. concat_map (λ x. child_clauses new parent x ρ) (or_default [] o))
            (λ ρ. tt)
    unfolding concat_map
    substitutions_rule parent none = return_rule tt
    substitutions_rule parent (some subs) = for_each_rule subs (restrict_child_rule new parent)

    expansion_rule :
        (x : USignature × USigSet)
        → HasVariables x
        → Does
            (knowing domain)
            (expansion domain is_q_constant above new x)
            (expansion_clauses x)
            (λ ρ. tt)
    unfolding expansion expansion_clauses
    expansion_rule (parent, children) (p, cs) =
        let d =
          bind_rule (var_at_rule {C = knowing domain} op above parent (above_var parent) p) (λ l.
            bind_rule (vars_at_rule op new new_var children cs) (λ ls.
              bind_rule (add_clause_rule (neg l ∷ ls))
                (λ _. substitutions_rule l (lookup parent new.expansion_substitutions)))) in
        d

    predecessor_rule :
        (x : USignature × USigSet)
        → HaveVariables x
        → Does (knowing domain) (predecessor above new x) (predecessor_clauses x) (λ ρ. tt)
    unfolding predecessor predecessor_clauses
    predecessor_rule (child, parents) (c, ps) =
        let d = bind_rule (var_at_rule {C = knowing domain} op new child (new_var child) c) (λ l.
          bind_rule (vars_at_rule op above above_var parents ps)
            (λ ls. add_clause_rule (neg l ∷ ls))) in
        d

    unfoldable pub relation_clauses : Bool → Env → List Clause
    unfolding concat_map
    relation_clauses use_predecessors ρ =
        concat_map (λ x. expansion_clauses x ρ) new.expansions
        ++ (if use_predecessors
            then concat_map (λ x. predecessor_clauses x ρ) new.predecessors
            else [])

    module _ (wanted : All HasVariables new.expansions)
        (wanted' : All HaveVariables new.predecessors) where
      expansions_rule :
          (xs : List (USignature × USigSet))
          → All HasVariables xs
          → All
              (λ x.
                Does
                  (knowing domain)
                  (expansion domain is_q_constant above new x)
                  (expansion_clauses x)
                  (λ ρ. tt))
              xs
      expansions_rule [] h = tt
      expansions_rule (x ∷ xs) h = (expansion_rule x h.0, expansions_rule xs h.1)

      predecessors_rule :
          (xs : List (USignature × USigSet))
          → All HaveVariables xs
          → All
              (λ x.
                Does (knowing domain) (predecessor above new x) (predecessor_clauses x) (λ ρ. tt))
              xs
      predecessors_rule [] h = tt
      predecessors_rule (x ∷ xs) h = (predecessor_rule x h.0, predecessors_rule xs h.1)

      pub encode_subtask_relationships_rule :
          (use_predecessors : Bool) (blank : USignature)
          → Does
              (knowing domain)
              (encode_subtask_relationships domain is_q_constant use_predecessors blank above new)
              (λ ρ. if only_blank blank new then [] else relation_clauses use_predecessors ρ)
              (λ ρ. tt)
      unfolding encode_subtask_relationships relation_clauses
      encode_subtask_relationships_rule use_predecessors blank =
          let d = if_rule (only_blank blank new) (return_rule {C = knowing domain} tt) (
            bind_rule
              (for_each_all_rule (expansion domain is_q_constant above new) expansion_clauses
                new.expansions (expansions_rule new.expansions wanted))
              (λ _.
                if_rule use_predecessors
                  (for_each_all_rule (predecessor above new) predecessor_clauses new.predecessors
                    (predecessors_rule new.predecessors wanted'))
                  (return_rule tt))) in
          d
