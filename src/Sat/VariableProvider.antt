-- ===== src/Sat/VariableProvider.antt =====
-- The variables of the encoding (src/sat/variable_provider.h): those of a position's signatures, those
-- of substitutions and those of equalities of pseudo-constants, from the counter of
-- src/sat/variable_domain.cpp, which the operations take along. The names are the instance's; the
-- constructor's `VariableDomain::init` is `init`. Positions are passed instead of looked up in the
-- layers. `sigSubstitute` builds its result in a field, which is no part of the state here: the result is
-- a value. Assertions and the printing of variables are left out.
pub mod Run
pub mod Distinct
pub mod Stable
mod Examples
use lilotane_smt_csp.Prelude.{
  ℕ, Bool, List, [], ◌∷◌, ℤ, Option, none, some, lookup, has_key, put, or_default, Eq, int_eq,
  pair_eq, if◌then◌else◌, ◌==◌,
}
use lilotane_smt_csp.Sat.VariableDomain.{VariableDomain, next_var, get_max_var}
use lilotane_smt_csp.Data.Signature.{USignature, usig_eq}
use lilotane_smt_csp.Data.SubstitutionConstraint.{IntPair}
use lilotane_smt_csp.Data.Position.{Position, VarType, op}
use lilotane_smt_csp.Data.Position.Variables.{
  encode, has_variable, get_variable, get_variable_or_zero,
}

pub record VariableProvider : Type 0 where
  pub substitution_variables : List (USignature × ℕ)
  pub sig_primitive : USignature
  pub substitute_name_id : ℤ
  pub q_equality_variables : List (IntPair × ℕ)

-- The constructor; `name_id` is the instance's number of a name.
unfoldable pub new_provider : (primitive_id substitute_id : ℤ) → VariableProvider
new_provider primitive_id substitute_id = record {
  substitution_variables = [];
  sig_primitive = record { name_id = primitive_id; args = [] };
  substitute_name_id = substitute_id;
  q_equality_variables = [];
}

unfoldable pub is_encoded : VarType → Position → USignature → Bool
is_encoded type pos sig = has_variable type sig pos

-- `getVariable` of a position; none where `at` throws.
pub variable_at : VarType → Position → USignature → Option ℕ
variable_at type pos sig = get_variable type sig pos

pub encode_variable :
    VarType → Position → USignature → VariableDomain → ℕ × Position × VariableDomain
encode_variable type pos sig d =
    let var = get_variable_or_zero type sig pos in
    let encoded = encode type sig pos d in if var == 0 then encoded else (var, pos, d)

pub is_encoded_substitution : USignature → VariableProvider → Bool
is_encoded_substitution sig vp = has_key sig vp.substitution_variables

unfoldable pub sig_substitute : ℤ → ℤ → VariableProvider → USignature
sig_substitute q_const_id true_const_id vp = record {
  name_id = vp.substitute_name_id;
  args = q_const_id ∷ true_const_id ∷ [];
}

unfoldable pub var_substitution :
    ℤ → ℤ → VariableProvider → VariableDomain → ℕ × VariableProvider × VariableDomain
unfolding sig_substitute
var_substitution q_const_id true_const_id vp d =
    let sig = sig_substitute q_const_id true_const_id vp in
    elim (lookup sig vp.substitution_variables) [
      | some var ↦ (var, vp, d)
      | none ↦
          let (var, d') = next_var d in
          (var, record vp { substitution_variables = put sig var vp.substitution_variables }, d')
    ]

pub encode_var_primitive :
    VariableProvider → Position → VariableDomain → ℕ × Position × VariableDomain
unfolding encode_variable
encode_var_primitive vp pos d = encode_variable op pos vp.sig_primitive d

pub get_var_primitive_or_zero : VariableProvider → Position → ℕ
get_var_primitive_or_zero vp pos = get_variable_or_zero op vp.sig_primitive pos

unfoldable pub is_q_constant_equality_encoded : ℤ → ℤ → VariableProvider → Bool
is_q_constant_equality_encoded q r vp = has_key (q, r) vp.q_equality_variables

unfoldable pub encode_q_constant_equality_var :
    ℤ → ℤ → VariableProvider → VariableDomain → ℕ × VariableProvider × VariableDomain
encode_q_constant_equality_var q r vp d =
    let (var, d') = next_var d in
    (var, record vp { q_equality_variables = put (q, r) var vp.q_equality_variables }, d')

-- `operator[]` makes an entry with 0 where there is none.
unfoldable pub get_q_constant_equality_var : ℤ → ℤ → VariableProvider → ℕ × VariableProvider
get_q_constant_equality_var q r vp = elim (lookup (q, r) vp.q_equality_variables) [
  | some var ↦ (var, vp)
  | none ↦ (0, record vp { q_equality_variables = put (q, r) 0 vp.q_equality_variables })
]

unfoldable pub skip_variable : VariableDomain → VariableDomain
skip_variable d = (next_var d).1

pub get_num_variables : VariableDomain → ℕ
get_num_variables d = get_max_var d
