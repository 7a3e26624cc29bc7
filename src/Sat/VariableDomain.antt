-- ===== src/Sat/VariableDomain.antt =====
-- The counter of propositional variables (src/sat/variable_domain.cpp). The static members are a
-- state that is passed on. Printing of variables is left out.
use lilotane_smt_csp.Prelude.{ℕ, suc, ◌-◌, Bool, true, false}

pub record VariableDomain : Type 0 where
  pub running_var_id : ℕ
  pub locked : Bool

abbrev pub init : VariableDomain
init = record { running_var_id = 1; locked = false }

-- `nextVar`: the variable, and the counter after it.
abbrev pub next_var : VariableDomain → ℕ × VariableDomain
next_var d = (d.running_var_id, record d { running_var_id = suc d.running_var_id })

abbrev pub get_max_var : VariableDomain → ℕ
get_max_var d = d.running_var_id - 1

abbrev pub lock : VariableDomain → VariableDomain
lock d = record d { locked = true }

abbrev pub unlock : VariableDomain → VariableDomain
unlock d = record d { locked = false }

abbrev pub is_locked : VariableDomain → Bool
is_locked d = d.locked
