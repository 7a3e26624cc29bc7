-- ===== src/Sat/VariableProvider/Run.antt =====
-- The states that the operations of a variable provider (src/sat/variable_provider.h) reach, and what
-- a look-up that makes an entry gives.
use lilotane_smt_csp.Prelude.{ℕ, ◌≡◌, refl, ℤ, Option, none, some, lookup, put, int_eq, pair_eq}
use lilotane_smt_csp.Sat.VariableDomain.{VariableDomain, init}
use lilotane_smt_csp.Data.Signature.{USignature, usig_eq}
use lilotane_smt_csp.Data.SubstitutionConstraint.{IntPair}
use lilotane_smt_csp.Sat.VariableProvider.{
  VariableProvider, new_provider, sig_substitute, var_substitution, encode_q_constant_equality_var,
  get_q_constant_equality_var, skip_variable,
}

-- What a variable is for.
pub data Purpose : Type 0 where
  of_substitution : USignature → Purpose
  of_equality : IntPair → Purpose

unfoldable pub variable_for : Purpose → VariableProvider → Option ℕ
variable_for (of_substitution sig) vp = lookup sig vp.substitution_variables
variable_for (of_equality pair) vp = lookup pair vp.q_equality_variables

pub record State : Type 0 where
  pub provider : VariableProvider
  pub domain : VariableDomain

-- The states after the operations.
unfoldable pub substitute : ℤ → ℤ → State → State
substitute q c s = record {
  provider = (var_substitution q c s.provider s.domain).1;
  domain = (var_substitution q c s.provider s.domain).2;
}

unfoldable pub equate : ℤ → ℤ → State → State
equate q r s = record {
  provider = (encode_q_constant_equality_var q r s.provider s.domain).1;
  domain = (encode_q_constant_equality_var q r s.provider s.domain).2;
}

unfoldable pub ask : ℤ → ℤ → State → State
ask q r s = record s { provider = (get_q_constant_equality_var q r s.provider).1 }

unfoldable pub skip : State → State
skip s = record s { domain = skip_variable s.domain }

pub data Step (s : State) : State → Type 0 where
  substituted : (q c : ℤ) → Step s (substitute q c s)
  equated : (q r : ℤ) → Step s (equate q r s)
  asked : (q r : ℤ) → Step s (ask q r s)
  skipped : Step s (skip s)

pub data Later (s : State) : State → Type 0 where
  now : Later s s
  then_step : {t u : State} → Later s t → Step t u → Later s u

unfoldable pub initial : ℤ → ℤ → State
initial primitive_id substitute_id = record {
  provider = new_provider primitive_id substitute_id;
  domain = init;
}

-- The purpose of the variable that `varSubstitution` gives.
unfoldable pub pair_for : ℤ → ℤ → State → Purpose
pair_for q c s = of_substitution (sig_substitute q c s.provider)

pub known_substitution :
    (q c : ℤ) (s : State) (v : ℕ)
    → variable_for (pair_for q c s) s.provider ≡ some v
    → var_substitution q c s.provider s.domain ≡ (v, s.provider, s.domain)
unfolding var_substitution sig_substitute pair_for variable_for
known_substitution q c s v h = rw (h, var_substitution) refl

-- The provider with a new variable of a substitution.
unfoldable pub with_substitution : USignature → ℕ → VariableProvider → VariableProvider
with_substitution sig v vp = record vp {
  substitution_variables = put sig v vp.substitution_variables;
}

pub new_substitution :
    (q c : ℤ) (s : State)
    → variable_for (pair_for q c s) s.provider ≡ none
    → var_substitution q c s.provider s.domain ≡ (
      s.domain.running_var_id,
      with_substitution (sig_substitute q c s.provider) s.domain.running_var_id s.provider,
      skip_variable s.domain,
    )
unfolding var_substitution sig_substitute pair_for variable_for with_substitution skip_variable
new_substitution q c s h = rw (h, var_substitution) refl

pub known_equality :
    (q r : ℤ) (vp : VariableProvider) (v : ℕ)
    → variable_for (of_equality (q, r)) vp ≡ some v
    → get_q_constant_equality_var q r vp ≡ (v, vp)
unfolding get_q_constant_equality_var variable_for
known_equality q r vp v h = rw (h, get_q_constant_equality_var) refl

pub new_equality :
    (q r : ℤ) (vp : VariableProvider)
    → variable_for (of_equality (q, r)) vp ≡ none
    → get_q_constant_equality_var q r vp
      ≡ (0, record vp { q_equality_variables = put (q, r) 0 vp.q_equality_variables })
unfolding get_q_constant_equality_var variable_for
new_equality q r vp h = rw (h, get_q_constant_equality_var) refl
