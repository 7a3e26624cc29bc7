-- ===== src/Sat/Encoding/QConstraints.antt =====
-- Restrictions of pseudo-constants (src/sat/encoding.cpp): `encodeQConstraints`.
pub mod Emitted
pub mod Meaning
mod Examples
use lilotane_smt_csp.Prelude.{
  ℕ, zero, suc, Bool, true, false, List, [], ◌∷◌, ℤ, pos, negsuc, neg, if◌then◌else◌, ◌==◌, none,
  some, lookup,
}
use lilotane_smt_csp.Sat.Clauses.{Clause}
use lilotane_smt_csp.Data.Signature.{USignature, usig_eq, TypeConstraint}
use lilotane_smt_csp.Data.SubstitutionConstraint.{
  SubstitutionConstraint, Polarity, undecided, no_invalid, IntPair, same_polarity, get_encoding,
}
use lilotane_smt_csp.Data.Position.{Position, clear_substitutions, op}
use lilotane_smt_csp.Data.Position.Variables.{get_variable_or_zero}
use lilotane_smt_csp.Sat.Encoding.{
  Encoder, M, ◌>>=◌, ◌>>◌, return, for_each, literals, add_clause, var_subst, var_at,
}

-- "NEITHER of the BAD constants"
pub forbid_constant : ℤ → ℤ → ℤ → M (Unit {0})
forbid_constant op_var q c = do v ← var_subst q c; add_clause (neg op_var ∷ neg v ∷ [])

pub type_constraint : ℤ → TypeConstraint → M (Unit {0})
unfolding forbid_constant
type_constraint op_var c =
    if c.sign
    then (literals c.constants (var_subst c.qconstant) >>= λ ls. add_clause (neg op_var ∷ ls))
    else for_each c.constants (forbid_constant op_var c.qconstant)

pub type_constraints : Position → USignature × List TypeConstraint → M (Unit {0})
unfolding type_constraint
type_constraints new (sig, cs) =
    let var = get_variable_or_zero op sig new in
    if var == 0 then return tt else for_each cs (type_constraint (pos var))

-- `std::abs`, and `qArg < 0`.
abbrev pub abs : ℤ → ℤ
abs (pos n) = pos n
abs (negsuc n) = pos (suc n)

abbrev pub is_negative : ℤ → Bool
is_negative (pos n) = false
is_negative (negsuc n) = true

-- The sign of a literal of the tree's clauses.
pub signed : Polarity → ℤ → ℤ → ℤ
signed polarity q v =
    if same_polarity polarity no_invalid then neg v else if is_negative q then neg v else v

pub pair_literal : Polarity → IntPair → M ℤ
unfolding signed
pair_literal polarity (q, c) = do v ← var_subst (abs q) c; return (signed polarity q v)

pub constraint_clause : Position → USignature → Polarity → List IntPair → M (Unit {0})
unfolding pair_literal
constraint_clause new sig polarity cls = do
  o ← var_at op new sig
  ls ← literals cls (pair_literal polarity)
  add_clause (neg o ∷ ls)

pub substitution_constraint : Position → USignature → SubstitutionConstraint → M (Unit {0})
unfolding constraint_clause
substitution_constraint new sig c =
    for_each (get_encoding undecided c) (constraint_clause new sig c.polarity)

pub op_constraints : Position → USignature → M (Unit {0})
unfolding substitution_constraint
op_constraints new sig = elim (lookup sig new.substitution_constraints) [
  | none ↦ return tt
  | some cs ↦ for_each cs (substitution_constraint new sig)
]

-- The position afterwards.
pub encode_q_constraints : Position → M Position
unfolding type_constraints op_constraints
encode_q_constraints new = do
  for_each new.q_constants_type_constraints (type_constraints new)
  for_each new.actions (op_constraints new)
  for_each new.reductions (op_constraints new)
  return (clear_substitutions new)
