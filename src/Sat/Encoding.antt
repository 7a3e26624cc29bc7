-- ===== src/Sat/Encoding.antt =====
-- The encoding of positions as clauses (src/sat/encoding.cpp), for the SAT solver: the branches for
-- the SMT interface, the statistics' stages and the logging are left out. A clause is kept as the
-- list of its literals, whether it is added at once or literal by literal; Sat/SatInterface has what
-- the solver gets. A method is a step that returns its result and the state, or nothing where
-- `getVariable` throws.
pub mod ConcatMap
pub mod Emits
pub mod Rules
pub mod Equality
pub mod Subtasks
pub mod Ensures
pub mod AtMostOne
pub mod OpConstraints
pub mod QFacts
pub mod QConstraints
pub mod Unify
pub mod Effects
mod Recorded
use lilotane_smt_csp.Prelude.{ℕ, Bool, true, false, List, [], ◌∷◌, ◌++◌, ℤ, pos, Option, none, some}
use lilotane_smt_csp.Data.Signature.{USignature}
use lilotane_smt_csp.Data.Position.{Position, VarType}
use lilotane_smt_csp.Data.Position.Variables.{get_variable}
use lilotane_smt_csp.Sat.Clauses.{Clause}
use lilotane_smt_csp.Sat.VariableProvider.{
  var_substitution, encode_q_constant_equality_var, get_q_constant_equality_var,
}
use lilotane_smt_csp.Sat.VariableProvider.Run.{State, substitute, equate, ask}

-- `_vars` with the counter, the clauses so far, and the sets that the passes over a position share.
pub record Encoder : Type 0 where
  pub vars : State
  pub clauses : List Clause
  pub new_fact_vars : List ℕ
  pub q_constants : List ℤ
  pub new_q_constants : List ℤ
  pub primitive_ops : List ℕ
  pub nonprimitive_ops : List ℕ

abbrev pub M : Type 0 → Type 0
M A = Encoder → Option (A × Encoder)

infixl 5 ◌>>=◌ ◌>>◌
abbrev pub ◌>>=◌ : {A B : Type 0} → M A → (A → M B) → M B
◌>>=◌ m f s = elim (m s) [ none ↦ none | some (a, t) ↦ f a t ]

abbrev pub ◌>>◌ : {B : Type 0} → M (Unit {0}) → M B → M B
m >> k = m >>= λ _. k

abbrev pub return : {A : Type 0} → A → M A
return a s = some (a, s)

-- `for (x : xs) body(x);`
pub for_each : {X : Type 0} → List X → (X → M (Unit {0})) → M (Unit {0})
for_each [] body = return tt
for_each (x ∷ xs) body = do body x; for_each xs body

-- A loop that appends one literal for each element.
pub literals : {X : Type 0} → List X → (X → M ℤ) → M (List ℤ)
literals [] body = return []
literals (x ∷ xs) body = do l ← body x; ls ← literals xs body; return (l ∷ ls)

-- `__interfaceSolver__addClause`, and `__interfaceSolver__endClause` after the literals.
pub add_clause : Clause → M (Unit {0})
add_clause c s = some (tt, record s { clauses = s.clauses ++ c ∷ [] })

-- `__interfaceSolver__varSubstitution`, as a literal.
pub var_subst : ℤ → ℤ → M ℤ
unfolding substitute
var_subst q c s = some (
  pos (var_substitution q c s.vars.provider s.vars.domain).0,
  record s { vars = substitute q c s.vars },
)

-- `__interfaceSolver__encodeQConstantEqualityVar`
pub encode_equality_var : ℤ → ℤ → M ℤ
unfolding equate
encode_equality_var q r s = some (
  pos (encode_q_constant_equality_var q r s.vars.provider s.vars.domain).0,
  record s { vars = equate q r s.vars },
)

-- `_vars.getQConstantEqualityVar`
pub equality_var : ℤ → ℤ → M ℤ
unfolding ask
equality_var q r s =
    some
      (pos (get_q_constant_equality_var q r s.vars.provider).0, record s { vars = ask q r s.vars })

-- `_vars.getVariable(type, position, sig)`
pub var_at : VarType → Position → USignature → M ℤ
var_at type p sig s = elim (get_variable type sig p) [ none ↦ none | some v ↦ some (pos v, s) ]

-- What a test of the state asks.
pub reads : {A : Type 0} → (Encoder → A) → M A
reads f s = some (f s, s)
