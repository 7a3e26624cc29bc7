-- ===== src/Sat/Encoding/Effects/Emitted.antt =====
-- The clauses of `encodeActionEffects` (src/sat/encoding.cpp), with the conversion by trees.
use lilotane_smt_csp.Prelude.{
  ◌≡◌, ap, sym, Bool, true, false, List, [], ◌∷◌, ◌++◌, ℤ, pos, neg, some, ℕ, All, All_map,
  if◌then◌else◌, ◌≟◌, int_eq, ≟_sound, length, ◌≤◌, arith, Option, subst,
}
use lilotane_smt_csp.Data.Signature.{USignature, Signature}
use lilotane_smt_csp.Data.HtnOp.{HtnOp}
use lilotane_smt_csp.Data.OpTable.{OpTable, get_action}
use lilotane_smt_csp.Data.Position.{Position, fact, op}
use lilotane_smt_csp.Data.Position.Variables.{
  get_variable, get_variable_or_zero, has_variable-get_variable,
}
use lilotane_smt_csp.Sat.VariableProvider.{is_encoded}
use lilotane_smt_csp.Sat.LiteralTree.{new_node, encode}
use lilotane_smt_csp.Sat.Clauses.{Clause}
use lilotane_smt_csp.Sat.OrderedSets.{sets_insert}
use lilotane_smt_csp.Sat.Encoding.{M, ◌>>=◌}
use lilotane_smt_csp.Sat.Encoding.ConcatMap.{concat_map}
use lilotane_smt_csp.Sat.Encoding.Emits.{Env, Context, Does}
use lilotane_smt_csp.Sat.Encoding.Rules.{
  bind_rule, return_rule, add_clause_rule, for_each_rule, for_each_all_rule, var_at_rule, if_rule,
  if_cases_rule,
}
use lilotane_smt_csp.Sat.Encoding.Equality.Working.{working}
use lilotane_smt_csp.Sat.Encoding.Unify.Emitted.{
  unify_args_clauses, unify_args_value, unify_args_rule,
}
use lilotane_smt_csp.Sat.Encoding.Effects.{
  is_candidate, is_empty, unifiers, conditional, enforce, decided, effect, action_effects,
  encode_action_effects, insert_sets, with_sign, of_option,
}

pub of_option_rule :
    {C : Context} {A B : Type 0} (o : Option A) (a : A) (f : A → M B) {ψ : Env → List Clause}
    {w : Env → B}
    → o ≡ some a
    → Does C (f a) ψ w
    → Does C (of_option o >>= f) ψ w
unfolding of_option
of_option_rule {C = C} o a f {ψ = ψ} {w = w} h d =
    subst (λ o. Does C (of_option o >>= f) ψ w) (sym h) d

module _ (domain : ℤ → List ℤ) (is_repetition : ℤ → Bool) (table : OpTable) (new : Position)
    (qs : List ℤ) where
  -- The literal of an encoded fact.
  abbrev pub fact_literal : Signature → ℤ
  fact_literal eff = pos (get_variable_or_zero fact eff.usig new)

  abbrev pub candidate : Signature → Signature → Bool
  candidate = is_candidate domain is_repetition true table new

  unfoldable pub unifiers_clauses : Signature → List Signature → List (List ℤ) → Env → List Clause
  unifiers_clauses eff [] dnf ρ = []
  unifiers_clauses eff (p ∷ ps) dnf ρ =
      let u = unify_args_value domain qs eff.usig.args p.usig.args (true, []) ρ in
      let others = unifiers_clauses eff ps dnf ρ in
      let more = unifiers_clauses eff ps (sets_insert u.1 dnf) ρ in
      if candidate eff p
      then unify_args_clauses domain qs eff.usig.args p.usig.args ρ
        ++ (if u.0 then (if is_empty u.1 then [] else more) else others)
      else others

  unfoldable pub unifiers_value :
      Signature → List Signature → List (List ℤ) → Env → Bool × List (List ℤ)
  unifiers_value eff [] dnf ρ = (false, dnf)
  unifiers_value eff (p ∷ ps) dnf ρ =
      let u = unify_args_value domain qs eff.usig.args p.usig.args (true, []) ρ in
      let others = unifiers_value eff ps dnf ρ in
      let more = unifiers_value eff ps (sets_insert u.1 dnf) ρ in
      if candidate eff p
      then if u.0 then (if is_empty u.1 then (true, dnf) else more) else others
      else others

  unfoldable pub decided_clauses : ℤ → Signature → Bool × List (List ℤ) → List Clause
  decided_clauses a eff (true, dnf) = []
  decided_clauses a eff (false, []) = (neg a ∷ with_sign eff.negated (fact_literal eff) ∷ []) ∷ []
  decided_clauses a eff (false, s ∷ dnf) =
      concat_map (λ c. c ∷ [])
        (encode neg (a ∷ fact_literal eff ∷ []) (insert_sets (s ∷ dnf) new_node))

  unfoldable pub effect_clauses : ℤ → List Signature → Signature → Env → List Clause
  unfolding unifiers_clauses unifiers_value decided_clauses
  effect_clauses a effects eff ρ =
      if is_encoded fact new eff.usig
      then (if eff.negated then unifiers_clauses eff effects [] ρ else [])
        ++ decided_clauses a eff
            (if eff.negated then unifiers_value eff effects [] ρ else (false, []))
      else []

  -- Facts of one name have the same number of arguments.
  abbrev pub HaveArity : (ℤ → ℕ) → List Signature → Type 0
  HaveArity arity effects = All (λ p. length p.usig.args ≡ arity p.usig.name_id) effects

  module _ (fs : List ℕ) (arity : ℤ → ℕ) where
    abbrev C : Context
    C = working domain qs fs

    candidate-name :
        (eff p : Signature)
        → candidate eff p ≡ true
        → length eff.usig.args ≡ arity eff.usig.name_id
        → length p.usig.args ≡ arity p.usig.name_id
        → length eff.usig.args ≤ length p.usig.args
    unfolding is_candidate
    candidate-name eff p h e k =
        let names : p.usig.name_id ≟ eff.usig.name_id ≡ true = ground (arith, h) in
        let same = ap arity (≟_sound p.usig.name_id eff.usig.name_id names) in
        omega (arith, e, k, same)

    unifiers_rule :
        (eff : Signature) (ps : List Signature) (dnf : List (List ℤ))
        → length eff.usig.args ≡ arity eff.usig.name_id
        → HaveArity arity ps
        → Does C
            (unifiers domain is_repetition true table new eff ps dnf)
            (unifiers_clauses eff ps dnf)
            (unifiers_value eff ps dnf)
    unfolding unifiers unifiers_clauses unifiers_value
    unifiers_rule eff [] dnf e k = return_rule (false, dnf)
    unifiers_rule eff (p ∷ ps) dnf e k =
        let d =
          if_cases_rule (candidate eff p)
            (λ c.
              bind_rule
                (unify_args_rule domain qs fs eff.usig.args p.usig.args (true, [])
                  (candidate-name eff p c e k.0))
                (λ u.
                  if_rule u.0
                    (if_rule (is_empty u.1) (return_rule {C = C} (true, dnf))
                      (unifiers_rule eff ps (sets_insert u.1 dnf) e k.1))
                    (unifiers_rule eff ps dnf e k.1)))
            (λ c. unifiers_rule eff ps dnf e k.1) in
        d

    decided_rule :
        (a : ℤ) (eff : Signature) (u : Bool × List (List ℤ))
        → is_encoded fact new eff.usig ≡ true
        → Does C
            (decided domain is_repetition true table new a eff u)
            (λ ρ. decided_clauses a eff u)
            (λ ρ. tt)
    unfolding decided decided_clauses conditional enforce is_encoded
    decided_rule a eff (true, dnf) h = return_rule tt
    decided_rule a eff (false, []) h =
        let f =
          var_at_rule {C = C} fact new eff.usig (get_variable_or_zero fact eff.usig new)
            (has_variable-get_variable fact eff.usig new h) in
        let d = bind_rule f (λ l. add_clause_rule (neg a ∷ with_sign eff.negated l ∷ [])) in d
    decided_rule a eff (false, s ∷ dnf) h =
        let f =
          var_at_rule {C = C} fact new eff.usig (get_variable_or_zero fact eff.usig new)
            (has_variable-get_variable fact eff.usig new h) in
        let d = bind_rule f (λ l.
          for_each_rule (encode neg (a ∷ l ∷ []) (insert_sets (s ∷ dnf) new_node))
            add_clause_rule) in
        d

    effect_rule :
        (a : ℤ) (effects : List Signature) (eff : Signature)
        → length eff.usig.args ≡ arity eff.usig.name_id
        → HaveArity arity effects
        → Does C
            (effect domain is_repetition true table new a effects eff)
            (effect_clauses a effects eff)
            (λ ρ. tt)
    unfolding effect effect_clauses
    effect_rule a effects eff e k =
        let d =
          if_cases_rule (is_encoded fact new eff.usig)
            (λ h.
              bind_rule
                (if_rule eff.negated (unifiers_rule eff effects [] e k)
                  (return_rule {C = C} (false, [])))
                (λ u. decided_rule a eff u h))
            (λ h. return_rule {C = C} tt) in
        d

    module _ (left : Position) (action_var : USignature → ℕ) (action_of : USignature → HtnOp) where
      unfoldable pub action_clauses : USignature → Env → List Clause
      unfolding effect_clauses
      action_clauses sig ρ =
          if is_repetition sig.name_id
          then []
          else concat_map
              (λ eff. effect_clauses (pos (action_var sig)) (action_of sig).effects eff ρ)
              (action_of sig).effects

      -- An action that is no repetition has a variable and is in the table.
      pub record IsSupplied (sig : USignature) : Type 0 where
        pub variable : get_variable op sig left ≡ some (action_var sig)
        pub action : get_action sig table ≡ some (action_of sig)
        pub arities : HaveArity arity (action_of sig).effects

      abbrev pub Supplied : USignature → Type 0
      Supplied sig = is_repetition sig.name_id ≡ false → IsSupplied sig

      action_effects_rule :
          (sig : USignature)
          → Supplied sig
          → Does C
              (action_effects domain is_repetition true table new left sig)
              (action_clauses sig)
              (λ ρ. tt)
      unfolding action_effects action_clauses
      action_effects_rule sig supplied =
          let effects = (action_of sig).effects in
          let d =
            if_cases_rule (is_repetition sig.name_id) (λ r. return_rule {C = C} tt)
              (λ r.
                bind_rule (var_at_rule {C = C} op left sig (action_var sig) (supplied r).variable)
                  (λ a.
                    of_option_rule (get_action sig table) (action_of sig) _ (supplied r).action (
                      for_each_all_rule (effect domain is_repetition true table new a effects)
                        (effect_clauses a effects) effects
                        (All_map (λ eff e. effect_rule a effects eff e (supplied r).arities) effects
                          (supplied r).arities)))) in
          d

      pub encode_action_effects_rule :
          All Supplied left.actions
          → Does C
              (encode_action_effects domain is_repetition true table new left)
              (λ ρ. concat_map (λ sig. action_clauses sig ρ) left.actions)
              (λ ρ. tt)
      unfolding encode_action_effects
      encode_action_effects_rule supplied =
          for_each_all_rule (action_effects domain is_repetition true table new left) action_clauses
            left.actions (All_map action_effects_rule left.actions supplied)
