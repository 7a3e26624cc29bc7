-- ===== src/Sat/Encoding/Equality.antt =====
-- Equality of two pseudo-constants (src/sat/encoding.cpp): `encodeQConstEquality`. The domains of
-- pseudo-constants are the instance's, as lists of their elements.
pub mod Emitted
pub mod Working
pub mod Meaning
mod Examples
use lilotane_smt_csp.Prelude.{
  ℕ, Bool, true, false, not, List, [], ◌∷◌, ◌++◌, ℤ, pos, neg, if◌then◌else◌, mem, has_key, Eq,
  int_eq,
}
use lilotane_smt_csp.Sat.VariableProvider.{is_q_constant_equality_encoded}
use lilotane_smt_csp.Sat.Encoding.{
  Encoder, M, ◌>>=◌, ◌>>◌, return, for_each, add_clause, var_subst, encode_equality_var,
  equality_var, reads,
}

-- The elements of the first list that are in the second, and those that are not.
pub common : List ℤ → List ℤ → List ℤ
common [] ys = []
common (x ∷ xs) ys = if mem x ys then x ∷ common xs ys else common xs ys

pub missing : List ℤ → List ℤ → List ℤ
missing [] ys = []
missing (x ∷ xs) ys = if mem x ys then missing xs ys else x ∷ missing xs ys

-- "If equality, then all "good" substitution vars are equivalent"
pub equivalent : ℤ → ℤ → ℤ → ℤ → M (Unit {0})
equivalent eq q1 q2 c = do
  v1 ← var_subst q1 c
  v2 ← var_subst q2 c
  add_clause (neg eq ∷ v1 ∷ neg v2 ∷ [])
  add_clause (neg eq ∷ neg v1 ∷ v2 ∷ [])

-- "If any of the GOOD ones, then equality"
pub implies_equality : ℤ → ℤ → ℤ → ℤ → M (Unit {0})
implies_equality eq q1 q2 c = do
  v1 ← var_subst q1 c
  v2 ← var_subst q2 c
  add_clause (neg v1 ∷ neg v2 ∷ eq ∷ [])

-- "If any of the BAD ones, then inequality"
pub implies_inequality : ℤ → ℤ → ℤ → M (Unit {0})
implies_inequality eq q c = do v ← var_subst q c; add_clause (neg v ∷ neg eq ∷ [])

module _ (domain : ℤ → List ℤ) where
  pub relate : ℤ → ℤ → ℤ → List ℤ → M (Unit {0})
  unfolding equivalent implies_equality implies_inequality missing
  relate eq q1 q2 [] = add_clause (neg eq ∷ [])
  relate eq q1 q2 (c ∷ cs) = do
    for_each (c ∷ cs) (equivalent eq q1 q2)
    for_each (c ∷ cs) (implies_equality eq q1 q2)
    for_each (missing (domain q1) (domain q2)) (implies_inequality eq q1)
    for_each (missing (domain q2) (domain q1)) (implies_inequality eq q2)

  pub encode_equality : ℤ → ℤ → M (Unit {0})
  unfolding relate common
  encode_equality q1 q2 = do
    eq ← encode_equality_var q1 q2
    relate eq q1 q2 (common (domain q1) (domain q2))

  pub encode_q_const_equality : ℤ → ℤ → M ℤ
  unfolding encode_equality
  encode_q_const_equality q1 q2 = do
    known ← reads (λ s. is_q_constant_equality_encoded q1 q2 s.vars.provider)
    if known then return tt else encode_equality q1 q2
    equality_var q1 q2
