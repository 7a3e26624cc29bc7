-- ===== src/Sat/Encoding/Subtasks/Examples.antt =====
-- A parent with one child, whose pseudo-constant stands for a constant (src/sat/encoding.cpp).
use lilotane_smt_csp.Prelude.{
  ◌≡◌, refl, sym, subst, Bool, true, false, List, [], ◌∷◌, ℤ, pos, ℕ, some, int_eq, pair_eq, ◌≟◌,
  ≟_sound, ◌&&◌, ◌||◌, lookup, put, mem, arith, All, or_default, Bool-cases, inl, inr,
}
use lilotane_smt_csp.Data.Signature.{USignature, usig_eq}
use lilotane_smt_csp.Data.Position.{Position, new_position, op}
use lilotane_smt_csp.Data.Position.Variables.{get_variable, get_variable_or_zero, variable_table}
use lilotane_smt_csp.Sat.Clauses.{Assignment, holds, cnf_holds}
use lilotane_smt_csp.Sat.VariableProvider.{new_provider, sig_substitute, var_substitution}
use lilotane_smt_csp.Sat.VariableProvider.Run.{initial, substitute, variable_for, pair_for}
use lilotane_smt_csp.Sat.Encoding.{Encoder, for_each, literals, add_clause, var_subst, var_at}
use lilotane_smt_csp.Sat.Encoding.Emits.{state_after}
use lilotane_smt_csp.Sat.Encoding.Equality.Meaning.{Chooses}
use lilotane_smt_csp.Sat.Encoding.Subtasks.{
  restrict, restrict_child, expansion, predecessor, only_blank, encode_subtask_relationships,
}
use lilotane_smt_csp.Sat.Encoding.Subtasks.Meaning.{
  relations_hold, encode_subtask_relationships-holds,
}
use lilotane_smt_csp.Sat.Encoding.Recorded.{
  env_of, env_of-Agrees, env_of-IsReal, AllPositive, by_members, start, start-Known,
}

abbrev domain : ℤ → List ℤ
domain q = pos 10 ∷ pos 11 ∷ []

abbrev is_q_constant : ℤ → Bool
is_q_constant x = x ≟ pos 7

abbrev blank : USignature
blank = record { name_id = pos 3; args = [] }

abbrev travel : USignature
travel = record { name_id = pos 4; args = pos 11 ∷ [] }

abbrev move : USignature
move = record { name_id = pos 5; args = pos 7 ∷ [] }

abbrev above : Position
above = record new_position { reductions = travel ∷ []; op_variables = (travel, 20) ∷ [] }

abbrev below : Position
below = record new_position {
  actions = move ∷ [];
  op_variables = (move, 21) ∷ [];
  expansions = (travel, move ∷ []) ∷ [];
  predecessors = (move, travel ∷ []) ∷ [];
  expansion_substitutions =
      (travel, (move, record { first = pos 11; second = pos 7 } ∷ []) ∷ []) ∷ [];
}

abbrev related : Encoder
related =
    state_after (encode_subtask_relationships domain is_q_constant true blank above below) start

abbrev occurs : Assignment
occurs n = true

facts :
    AllPositive related.vars
    × Chooses domain (env_of related.vars) occurs (pos 7) (pos 11)
    × (get_variable op travel above ≡ some 20)
    × (get_variable op move below ≡ some 21)
unfolding encode_subtask_relationships restrict restrict_child expansion predecessor only_blank
    for_each literals add_clause var_subst var_at new_provider sig_substitute var_substitution
    initial substitute variable_for pair_for lookup put mem get_variable get_variable_or_zero
    variable_table new_position
facts = (
  ((omega arith, tt), tt),
  record {
    within = refl;
    just =
        by_members (λ x. holds occurs ((env_of related.vars).sub (pos 7) x) ≡ x ≟ pos 11)
          (pos 10 ∷ pos 11 ∷ []) (refl, (refl, tt));
  },
  refl,
  refl,
)

choice : (q : ℤ) → is_q_constant q ≡ true → Chooses domain (env_of related.vars) occurs q (pos 11)
choice q h =
    subst (λ z. Chooses domain (env_of related.vars) occurs z (pos 11)) (sym (≟_sound q (pos 7) h))
      facts.1

abbrev above_var : USignature → ℕ
above_var sig = 20

abbrev below_var : USignature → ℕ
below_var sig = 21

fits :
    (parent : USignature)
    → All
        (λ x.
          All
            (λ e.
              (is_q_constant e.second ≡ true)
              × (is_q_constant e.first ≡ false → mem e.first (domain e.second) ≡ true))
            x.1)
        (or_default [] (lookup parent below.expansion_substitutions))
unfolding lookup mem
fits parent = elim (Bool-cases (parent ≟ travel)) [
  | inl same ↦ rw same (((refl, λ h. refl), tt), tt)
  | inr other ↦ rw other tt
]

encode_subtask_relationships-holds_example :
    (encode_subtask_relationships domain is_q_constant true blank above below start
      ≡ some (tt, related))
    × (cnf_holds occurs related.clauses ≡ (
        cnf_holds occurs start.clauses
        && (only_blank blank below
            || relations_hold domain is_q_constant
                (env_of related.vars)
                occurs
                (env_of-IsReal related.vars facts.0)
                (λ q. pos 11)
                choice
                below
                above
                above_var
                below_var
                (λ sig. (omega arith, omega arith))
                fits
                true)))
encode_subtask_relationships-holds_example =
    encode_subtask_relationships-holds domain is_q_constant (env_of related.vars) occurs
      (env_of-IsReal related.vars facts.0) (λ q. pos 11) choice below above above_var below_var
      (λ sig. (omega arith, omega arith)) fits true blank start (start-Known domain)
      (env_of-Agrees related.vars) ((facts.2, (facts.3, tt)), tt) ((facts.3, (facts.2, tt)), tt)
