-- ===== src/Data/Position/Variables.antt =====
-- The propositional variables of a position's signatures (src/data/position.h and .cpp). `encode` takes
-- the counter of src/sat/variable_domain.cpp along; its assertion, that the counter is not locked for
-- a new variable, and the printing are left out.
pub mod Fresh
use lilotane_smt_csp.Prelude.{
  ℕ, zero, Bool, List, [], ◌∷◌, Option, none, some, lookup, has_key, put, remove, or_default, Eq,
  ◌≡◌, refl, true, has_key-cases, inl, inr, arith,
}
use lilotane_smt_csp.Sat.VariableDomain.{VariableDomain, next_var}
use lilotane_smt_csp.Data.Signature.{USignature, usig_eq}
use lilotane_smt_csp.Data.Position.{Position, VarType, fact, op}

-- `type == OP ? _op_variables : _fact_variables`, which is `getVariableTable`.
unfoldable pub variable_table : VarType → Position → List (USignature × ℕ)
variable_table op p = p.op_variables
variable_table fact p = p.fact_variables

pub set_variable_table : VarType → List (USignature × ℕ) → Position → Position
set_variable_table op t p = record p { op_variables = t }
set_variable_table fact t p = record p { fact_variables = t }

-- `moveVariableTable`: the source and the destination afterwards.
pub move_variable_table : VarType → Position → Position → Position × Position
unfolding variable_table set_variable_table
move_variable_table type src dest =
    (set_variable_table type [] src, set_variable_table type (variable_table type src) dest)

-- `Position::encode`: the variable, the position and the counter afterwards.
pub encode : VarType → USignature → Position → VariableDomain → ℕ × Position × VariableDomain
unfolding variable_table set_variable_table
encode type sig p d = elim (lookup sig (variable_table type p)) [
  | some var ↦ (var, p, d)
  | none ↦
      let (var, d') = next_var d in
      (var, set_variable_table type (put sig var (variable_table type p)) p, d')
]

pub set_variable : VarType → USignature → ℕ → Position → Position
unfolding variable_table set_variable_table
set_variable type sig var p = set_variable_table type (put sig var (variable_table type p)) p

unfoldable pub has_variable : VarType → USignature → Position → Bool
unfolding variable_table
has_variable type sig p = has_key sig (variable_table type p)

unfoldable pub get_variable : VarType → USignature → Position → Option ℕ
unfolding variable_table
get_variable type sig p = lookup sig (variable_table type p)

unfoldable pub get_variable_or_zero : VarType → USignature → Position → ℕ
unfolding variable_table
get_variable_or_zero type sig p = or_default 0 (lookup sig (variable_table type p))

pub has_variable-get_variable :
    (type : VarType) (sig : USignature) (p : Position)
    → has_variable type sig p ≡ true
    → get_variable type sig p ≡ some (get_variable_or_zero type sig p)
unfolding has_variable get_variable get_variable_or_zero
has_variable-get_variable type sig p h = elim (has_key-cases sig (variable_table type p)) [
  | inl (off, absent) ↦ ground (arith, off, h)
  | inr (on, v, found) ↦ rw found refl
]

pub remove_variable : VarType → USignature → Position → Position
unfolding variable_table set_variable_table
remove_variable type sig p = set_variable_table type (remove sig (variable_table type p)) p
