-- ===== src/Sat/Encoding/Subtasks.antt =====
-- Parents and children (src/sat/encoding.cpp): `encodeSubtaskRelationships`. The option `p`, the blank
-- action, which arguments are pseudo-constants, and their domains are parameters.
pub mod Emitted
pub mod Meaning
mod Examples
use lilotane_smt_csp.Prelude.{
  ℕ, Bool, true, false, not, ◌&&◌, List, [], ◌∷◌, ℤ, pos, neg, if◌then◌else◌, ◌==◌, Option, none,
  some, lookup, mem, length, Eq,
}
use lilotane_smt_csp.Data.Signature.{USignature, usig_eq}
use lilotane_smt_csp.Data.Substitution.{Entry, Substitution}
use lilotane_smt_csp.Data.Position.{Position, USigSet, op}
use lilotane_smt_csp.Data.Position.Variables.{get_variable_or_zero}
use lilotane_smt_csp.Sat.Encoding.{
  Encoder, M, ◌>>=◌, ◌>>◌, return, for_each, literals, add_clause, var_subst, var_at,
}
use lilotane_smt_csp.Sat.Encoding.Equality.{encode_q_const_equality}

pub predecessor : Position → Position → USignature × USigSet → M (Unit {0})
predecessor above new (child, parents) = do
  c ← var_at op new child
  ps ← literals parents (var_at op above)
  add_clause (neg c ∷ ps)

-- "This position contains the blank action and nothing else."
pub only_blank : USignature → Position → Bool
only_blank blank new =
    length new.actions == 1 && (length new.reductions == 0 && mem blank new.actions)

module _ (domain : ℤ → List ℤ) (is_q_constant : ℤ → Bool) where
  -- "Enforce that dest only takes values from the domain of src!"
  pub restrict : ℤ → ℤ → Entry → M (Unit {0})
  restrict parent child e = do
    l ←
        if not (is_q_constant e.first)
        then var_subst e.second e.first
        else encode_q_const_equality domain e.second e.first
    add_clause (neg parent ∷ neg child ∷ l ∷ [])

  pub restrict_child : Position → ℤ → USignature × Substitution → M (Unit {0})
  unfolding restrict
  restrict_child new parent (child, s) =
      let var = get_variable_or_zero op child new in
      if var == 0 then return tt else for_each s (restrict parent (pos var))

  pub expansion : Position → Position → USignature × USigSet → M (Unit {0})
  unfolding restrict_child
  expansion above new (parent, children) = do
    p ← var_at op above parent
    cs ← literals children (var_at op new)
    add_clause (neg p ∷ cs)
    elim (lookup parent new.expansion_substitutions) [
      | none ↦ return tt
      | some subs ↦ for_each subs (restrict_child new p)
    ]

  pub encode_subtask_relationships : Bool → USignature → Position → Position → M (Unit {0})
  unfolding expansion predecessor only_blank
  encode_subtask_relationships use_predecessors blank above new =
      if only_blank blank new then return tt else do
        for_each new.expansions (expansion above new)
        if use_predecessors then for_each new.predecessors (predecessor above new) else return tt
