-- ===== src/Sat/Encoding/Effects/Examples.antt =====
-- A drive from a place that a pseudo-constant stands for (src/sat/encoding.cpp): it may end where it
-- began.
use lilotane_smt_csp.Prelude.{
  ◌≡◌, refl, Bool, true, false, List, [], ◌∷◌, ℤ, pos, ℕ, some, int_eq, pair_eq, list_eq, ◌≟◌, ltb,
  All, ≟_sound, lookup, put, mem, arith, ◌<◌, all, any, neg, Bool-cases, inl, inr, has_key,
}
use lilotane_smt_csp.Data.Signature.{USignature, Signature, usig_eq}
use lilotane_smt_csp.Data.HtnOp.{HtnOp}
use lilotane_smt_csp.Data.OpTable.{OpTable, get_action}
use lilotane_smt_csp.Data.Position.{Position, new_position, fact}
use lilotane_smt_csp.Data.Position.Variables.{
  get_variable, get_variable_or_zero, variable_table, has_variable,
}
use lilotane_smt_csp.Sat.Clauses.{Assignment, holds, cnf_holds}
use lilotane_smt_csp.Sat.VariableProvider.{
  new_provider, sig_substitute, var_substitution, is_encoded,
}
use lilotane_smt_csp.Sat.VariableProvider.Run.{initial, substitute, variable_for, pair_for}
use lilotane_smt_csp.Sat.Encoding.{Encoder, for_each, add_clause, var_subst, var_at, reads}
use lilotane_smt_csp.Sat.LiteralTree.{encode, find, insert, alter, keys, new_node}
use lilotane_smt_csp.Sat.OrderedSets.{sets_insert, set_insert, ordered_insert}
use lilotane_smt_csp.Sat.Encoding.Emits.{state_after}
use lilotane_smt_csp.Sat.Encoding.Equality.Emitted.{empty-Known}
use lilotane_smt_csp.Sat.Encoding.Equality.Working.{Working}
use lilotane_smt_csp.Sat.Encoding.Equality.Meaning.{Chooses, IsReal}
use lilotane_smt_csp.Sat.Encoding.Effects.{
  is_candidate, is_empty, unifiers, conditional, enforce, decided, effect, action_effects,
  encode_action_effects, insert_sets, with_sign, of_option,
}
use lilotane_smt_csp.Sat.Encoding.Unify.{unify_args, unify_arg, unify_q}
use lilotane_smt_csp.Sat.Encoding.Effects.Emitted.{IsSupplied}
use lilotane_smt_csp.Sat.Encoding.Unify.Complete.{Equates}
use lilotane_smt_csp.Sat.Encoding.Unify.Emitted.{unify_args_value, unify_arg_value, unify_q_value}
use lilotane_smt_csp.Sat.LiteralTree.Encode.{IsExclusive}
use lilotane_smt_csp.Sat.Encoding.Effects.Emitted.{unifiers_value}
use lilotane_smt_csp.Sat.Encoding.Effects.Exact.{
  all_effects_hold, HasExclusiveTree, HaveExclusiveTrees, encode_action_effects-decides,
}
use lilotane_smt_csp.Sat.Encoding.Recorded.{
  env_of, env_of-Agrees, env_of-IsReal, AllPositive, by_members, start,
}

abbrev domain : ℤ → List ℤ
domain q = pos 10 ∷ pos 11 ∷ []

abbrev is_repetition : ℤ → Bool
is_repetition id = id ≟ pos 9

abbrev at_place : ℤ → USignature
at_place x = record { name_id = pos 4; args = x ∷ [] }

abbrev drive : USignature
drive = record { name_id = pos 5; args = pos 7 ∷ [] }

abbrev drive_op : HtnOp
drive_op = record {
  id = pos 5;
  args = pos 7 ∷ [];
  preconditions = [];
  extra_preconditions = [];
  effects =
      record { usig = at_place (pos 11); negated = false }
      ∷ record { usig = at_place (pos 7); negated = true }
      ∷ [];
}

abbrev table : OpTable
table = record { actions_by_sig = (drive, drive_op) ∷ []; reductions_by_sig = [] }

abbrev left : Position
left = record new_position { actions = drive ∷ []; op_variables = (drive, 20) ∷ [] }

abbrev right : Position
right = record new_position {
  fact_variables = (at_place (pos 7), 30) ∷ (at_place (pos 11), 31) ∷ [];
}

abbrev begun : Encoder
begun = record start { q_constants = pos 7 ∷ [] }

abbrev moved : Encoder
moved = state_after (encode_action_effects domain is_repetition true table right left) begun

abbrev occurs : Assignment
occurs n = true

facts :
    AllPositive moved.vars
    × Chooses domain (env_of moved.vars) occurs (pos 7) (pos 11)
    × (cnf_holds occurs moved.clauses ≡ true)
unfolding encode_action_effects action_effects effect decided enforce conditional unifiers
    is_candidate is_empty insert_sets with_sign of_option unify_args unify_arg unify_q for_each
    add_clause var_subst var_at reads encode find insert alter keys sets_insert set_insert
    ordered_insert new_provider sig_substitute var_substitution is_encoded initial substitute
    variable_for pair_for lookup put mem has_key get_variable get_variable_or_zero variable_table
    has_variable get_action new_position
facts = (
  ((omega arith, tt), tt),
  record {
    within = refl;
    just =
        by_members (λ x. holds occurs ((env_of moved.vars).sub (pos 7) x) ≡ x ≟ pos 11)
          (pos 10 ∷ pos 11 ∷ []) (refl, (refl, tt));
  },
  refl,
)

choice : (q : ℤ) → mem q (pos 7 ∷ []) ≡ true → Chooses domain (env_of moved.vars) occurs q (pos 11)
choice =
    by_members (λ q. Chooses domain (env_of moved.vars) occurs q (pos 11)) (pos 7 ∷ [])
      (facts.1, tt)

abbrev action_var : USignature → ℕ
action_var sig = 20

abbrev action_of : USignature → HtnOp
action_of sig = drive_op

fact_positive :
    (eff : Signature)
    → is_encoded fact right eff.usig ≡ true
    → 0 < get_variable_or_zero fact eff.usig right
unfolding is_encoded has_variable has_key get_variable_or_zero variable_table lookup
fact_positive eff h = elim (Bool-cases (eff.usig ≟ at_place (pos 7))) [
  | inl from ↦ rw from (omega arith)
  | inr other ↦ elim (Bool-cases (eff.usig ≟ at_place (pos 11))) [
    | inl to ↦ rw (other, to) (omega arith)
    | inr none_of ↦ let no : false ≡ true = rw (other, none_of) at h in cc no
  ]
]

begun-Working : Working domain (pos 7 ∷ []) [] begun
unfolding initial new_provider
begun-Working = record {
  known = empty-Known domain begun refl;
  q_constants_are = refl;
  new_fact_vars_are = refl;
  counting = omega arith;
}

drive-IsSupplied :
    IsSupplied domain is_repetition table right
      (pos 7 ∷ [])
      []
      (λ name. 1)
      left
      action_var
      action_of
      drive
unfolding get_variable variable_table lookup get_action new_position
drive-IsSupplied = record { variable = refl; action = refl; arities = (refl, (refl, tt)) }

abbrev real : IsReal (env_of moved.vars)
real = env_of-IsReal moved.vars facts.0

drive_equates : Equates domain (pos 7 ∷ []) (env_of moved.vars) occurs real (λ q. pos 11) choice
unfolding Equates mem
drive_equates q r m n other =
    let first = ≟_sound q (pos 7) (ground (arith, m)) in
    let second = ≟_sound r (pos 7) (ground (arith, n)) in
    let no : pos 7 ≟ pos 7 ≡ false = rw (first, second) at other in cc no

-- The action may undo its own negative effect by one literal alone.
drive_trees :
    HaveExclusiveTrees domain is_repetition table right
      (pos 7 ∷ [])
      (env_of moved.vars)
      occurs
      real
      (λ q. pos 11)
      choice
      fact_positive
      drive_equates
      left
      action_var
      action_of
      (λ sig. omega arith)
      drive
unfolding HasExclusiveTree unifiers_value unify_args_value unify_arg_value unify_q_value
    is_candidate is_empty insert_sets insert alter find sets_insert set_insert ordered_insert
    IsExclusive mem is_encoded has_variable has_key keys
drive_trees = λ once. ((λ n. cc n), ((λ n. ((λ h. refl), tt, tt)), tt))

encode_action_effects-decides_example :
    (encode_action_effects domain is_repetition true table right left begun ≡ some (tt, moved))
    × (cnf_holds occurs moved.clauses ≡ true
        → (cnf_holds occurs begun.clauses ≡ true)
          × (all_effects_hold domain is_repetition table right
                (pos 7 ∷ [])
                (env_of moved.vars)
                occurs
                real
                (λ q. pos 11)
                choice
                fact_positive
                left
                action_var
                action_of
                (λ sig. omega arith)
              ≡ true))
    × ((equates : Equates domain (pos 7 ∷ []) (env_of moved.vars) occurs real (λ q. pos 11) choice)
        → All
            (HaveExclusiveTrees domain is_repetition table right
              (pos 7 ∷ [])
              (env_of moved.vars)
              occurs
              real
              (λ q. pos 11)
              choice
              fact_positive
              equates
              left
              action_var
              action_of
              (λ sig. omega arith))
            left.actions
        → cnf_holds occurs begun.clauses ≡ true
        → all_effects_hold domain is_repetition table right
            (pos 7 ∷ [])
            (env_of moved.vars)
            occurs
            real
            (λ q. pos 11)
            choice
            fact_positive
            left
            action_var
            action_of
            (λ sig. omega arith)
          ≡ true
        → cnf_holds occurs moved.clauses ≡ true)
unfolding new_position
encode_action_effects-decides_example =
    encode_action_effects-decides domain is_repetition table right (pos 7 ∷ []) (env_of moved.vars)
      occurs real (λ q. pos 11) choice fact_positive left action_var action_of (λ sig. omega arith)
      [] (λ name. 1) begun begun-Working (env_of-Agrees moved.vars) ((λ h. drive-IsSupplied), tt)

-- Sets that share no first literal: one of them holds, but a tree's clauses also want the other one to
-- hold from its first literal on.
abbrev two_sets : List (List ℤ)
two_sets = (pos 1 ∷ []) ∷ (pos 2 ∷ pos 3 ∷ []) ∷ []

abbrev first_only : Assignment
first_only n = ltb n 3

trees_want_more :
    (any (all (holds first_only)) two_sets ≡ true)
    × (cnf_holds first_only (encode neg [] (insert_sets two_sets new_node)) ≡ false)
unfolding insert_sets insert alter encode find keys
trees_want_more = (refl, refl)
