-- ===== src/Sat/Encoding/Effects/Meaning.antt =====
-- What the clauses of `encodeActionEffects` say (src/sat/encoding.cpp).
use lilotane_smt_csp.Prelude.{
  ◌≡◌, refl, ap, sym, ◌∙◌, Bool, true, false, not, ◌&&◌, ◌||◌, List, [], ◌∷◌, ◌++◌, ℤ, pos, neg,
  some, ℕ, ◌<◌, All, if◌then◌else◌, int_eq, list_eq, any, all, all-append, arith, mem, Bool-cases,
  inl, inr, &&-eq-true,
}
use lilotane_smt_csp.Data.Signature.{USignature, Signature}
use lilotane_smt_csp.Data.HtnOp.{HtnOp}
use lilotane_smt_csp.Data.OpTable.{OpTable}
use lilotane_smt_csp.Data.Position.{Position, fact}
use lilotane_smt_csp.Data.Position.Variables.{get_variable_or_zero}
use lilotane_smt_csp.Sat.VariableProvider.{is_encoded}
use lilotane_smt_csp.Sat.LiteralTree.{new_node, encode}
use lilotane_smt_csp.Sat.LiteralTree.Paths.{IsWf, HasLiterals}
use lilotane_smt_csp.Sat.LiteralTree.Encode.{encode-PathHolds}
use lilotane_smt_csp.Sat.Clauses.{Clause, Assignment, holds, clause_holds, cnf_holds, holds-neg_pos}
use lilotane_smt_csp.Sat.OrderedSets.{sets_insert, any-sets_insert, all-sets_insert}
use lilotane_smt_csp.Sat.Encoding.{Encoder}
use lilotane_smt_csp.Sat.Encoding.ConcatMap.{concat_map, concat_map-implies, concat_map-clauses}
use lilotane_smt_csp.Sat.Encoding.Emits.{Env, Agrees, Does-says, state_after}
use lilotane_smt_csp.Sat.Encoding.Equality.Working.{Working, working}
use lilotane_smt_csp.Sat.Encoding.Equality.Meaning.{IsReal, Chooses}
use lilotane_smt_csp.Sat.Encoding.Effects.{is_empty, insert_sets, with_sign, encode_action_effects}
use lilotane_smt_csp.Sat.Encoding.Unify.Emitted.{unify_args_clauses, unify_args_value}
use lilotane_smt_csp.Sat.Encoding.Unify.Meaning.{
  same_arguments, unify_args-same, nonzero, unify_args-nonzero,
}
use lilotane_smt_csp.Sat.Encoding.Effects.Emitted.{
  candidate, unifiers_clauses, unifiers_value, decided_clauses, effect_clauses, action_clauses,
  Supplied, encode_action_effects_rule,
}
use lilotane_smt_csp.Sat.Encoding.Effects.Trees.{
  IsLiteral, IsLiteral-neg, positive-IsLiteral, insert_sets-IsWf, some_set, insert_sets-HasLiterals,
}

module _ (domain : ℤ → List ℤ) (is_repetition : ℤ → Bool) (table : OpTable) (new : Position)
    (qs : List ℤ) (ρ : Env) (σ : Assignment) (real : IsReal ρ) (chosen : ℤ → ℤ)
    (choice : (q : ℤ) → mem q qs ≡ true → Chooses domain ρ σ q (chosen q)) where
  abbrev same_args : Signature → Signature → Bool
  same_args eff p = same_arguments domain qs ρ σ real chosen choice eff.usig.args p.usig.args

  -- Some positive effect makes the fact true that the effect `eff` makes false.
  pub is_undone : List Signature → Signature → Bool
  is_undone effects eff =
      any (λ p. candidate domain is_repetition table new qs eff p && same_args eff p) effects

  empty-all : (s : List ℤ) → is_empty s ≡ true → all (holds σ) s ≡ true
  unfolding is_empty
  empty-all [] h = refl
  empty-all (l ∷ s) h = cc h

  pub unifiers-undone :
      (eff : Signature) (ps : List Signature) (dnf : List (List ℤ))
      → cnf_holds σ (unifiers_clauses domain is_repetition table new qs eff ps dnf ρ) ≡ true
      → let u = unifiers_value domain is_repetition table new qs eff ps dnf ρ in
        (u.0 || any (all (holds σ)) u.1) ≡ (any (all (holds σ)) dnf || is_undone ps eff)
  unfolding unifiers_clauses unifiers_value is_undone
  unifiers-undone eff [] dnf k = ground arith
  unifiers-undone eff (p ∷ ps) dnf k =
      elim (Bool-cases (candidate domain is_repetition table new qs eff p)) [
        | inr never ↦ rw never (unifiers-undone eff ps dnf (rw never at k))
        | inl some_p ↦ rw some_p (with_candidate (unifiers-undone eff ps) (rw some_p at k))
      ]
    where
      u : Bool × List ℤ
      u = unify_args_value domain qs eff.usig.args p.usig.args (true, []) ρ

      more : List Clause
      more = unifiers_clauses domain is_repetition table new qs eff ps (sets_insert u.1 dnf) ρ

      others : List Clause
      others = unifiers_clauses domain is_repetition table new qs eff ps dnf ρ

      with_candidate :
          ((d : List (List ℤ))
            → cnf_holds σ (unifiers_clauses domain is_repetition table new qs eff ps d ρ) ≡ true
            → let v = unifiers_value domain is_repetition table new qs eff ps d ρ in
              (v.0 || any (all (holds σ)) v.1) ≡ (any (all (holds σ)) d || is_undone ps eff))
          → cnf_holds σ (
              unify_args_clauses domain qs eff.usig.args p.usig.args ρ
              ++ (if u.0 then (if is_empty u.1 then [] else more) else others))
            ≡ true
          → let v =
              if u.0
              then (if is_empty u.1
                  then (true, dnf)
                  else unifiers_value domain is_repetition table new qs eff ps
                      (sets_insert u.1 dnf)
                      ρ)
              else unifiers_value domain is_repetition table new qs eff ps dnf ρ in
            (v.0 || any (all (holds σ)) v.1)
            ≡ (any (all (holds σ)) dnf || (same_args eff p || is_undone ps eff))
      with_candidate rest k =
          let args = unify_args_clauses domain qs eff.usig.args p.usig.args ρ in
          let both =
            (&&-eq-true (cnf_holds σ args)
                (cnf_holds σ (if u.0 then (if is_empty u.1 then [] else more) else others))).0
              (sym (
                  all-append (clause_holds σ) args
                    (if u.0 then (if is_empty u.1 then [] else more) else others))
                ∙ k) in
          let same =
            unify_args-same domain qs ρ σ real chosen choice eff.usig.args p.usig.args (true, [])
              both.0 in
          elim (Bool-cases u.0) [
            | inr apart ↦ rw apart (ground (arith, same, apart, rest dnf (rw apart at both.1)))
            | inl fits ↦ elim (Bool-cases (is_empty u.1)) [
              | inl always ↦ rw (fits, always) (ground (arith, same, fits, empty-all u.1 always))
              | inr sometimes ↦
                  rw (fits, sometimes)
                    (ground (
                      arith,
                      same,
                      fits,
                      any-sets_insert (all (holds σ)) u.1 dnf,
                      rest (sets_insert u.1 dnf) (rw (fits, sometimes) at both.1),
                    ))
            ]
          ]

  pub unifiers-nonzero :
      (eff : Signature) (ps : List Signature) (dnf : List (List ℤ))
      → all (all nonzero) dnf ≡ true
      → all (all nonzero) (unifiers_value domain is_repetition table new qs eff ps dnf ρ).1 ≡ true
  unfolding unifiers_value
  unifiers-nonzero eff [] dnf h = h
  unifiers-nonzero eff (p ∷ ps) dnf h =
      let u = unify_args_value domain qs eff.usig.args p.usig.args (true, []) ρ in
      let more = unifiers-nonzero eff ps (sets_insert u.1 dnf) (
        ground (
          arith,
          all-sets_insert (all nonzero) u.1 dnf,
          unify_args-nonzero domain qs ρ σ real chosen choice eff.usig.args p.usig.args (true, [])
              refl,
          h,
        )) in
      elim (Bool-cases (candidate domain is_repetition table new qs eff p)) [
        | inr never ↦ rw never (unifiers-nonzero eff ps dnf h)
        | inl some_p ↦ elim (Bool-cases u.0) [
          | inr apart ↦ rw (some_p, apart) (unifiers-nonzero eff ps dnf h)
          | inl fits ↦ elim (Bool-cases (is_empty u.1)) [
            | inl always ↦ rw (some_p, fits, always) h
            | inr sometimes ↦ rw (some_p, fits, sometimes) more
          ]
        ]
      ]

  -- A positive effect of an action that occurs holds; a negative one too, unless it is undone.
  unfoldable pub effect_holds : ℕ → List Signature → Signature → Bool
  unfolding is_undone
  effect_holds a effects eff =
      let f = get_variable_or_zero fact eff.usig new in
      not (is_encoded fact new eff.usig)
      || (not (σ a) || (if eff.negated then not (σ f) || is_undone effects eff else σ f))

  module _
      (positive : (eff : Signature)
        → is_encoded fact new eff.usig ≡ true
        → 0 < get_variable_or_zero fact eff.usig new) where
    decided-negative :
        (a : ℕ) (eff : Signature) (u : Bool × List (List ℤ))
        → 0 < a
        → 0 < get_variable_or_zero fact eff.usig new
        → eff.negated ≡ true
        → all (all nonzero) u.1 ≡ true
        → cnf_holds σ (decided_clauses domain is_repetition table new qs (pos a) eff u) ≡ true
        → (not (σ a)
            || (not (σ (get_variable_or_zero fact eff.usig new))
                || (u.0 || any (all (holds σ)) u.1)))
          ≡ true
    unfolding decided_clauses with_sign HasLiterals IsWf
    decided-negative a eff (true, dnf) pa pf n z k = ground arith
    decided-negative a eff (false, []) pa pf n z k = ground (
      arith,
      n,
      k,
      holds-neg_pos σ a pa,
      holds-neg_pos σ (get_variable_or_zero fact eff.usig new) pf,
    )
    decided-negative a eff (false, s ∷ dnf) pa pf n z k =
        elim (Bool-cases (σ a && σ (get_variable_or_zero fact eff.usig new))) [
          | inr off ↦ ground (arith, off)
          | inl on ↦
              let f = get_variable_or_zero fact eff.usig new in
              let t = insert_sets (s ∷ dnf) new_node in
              let path =
                encode-PathHolds (holds σ) neg (IsLiteral σ) (IsLiteral-neg σ) (pos a ∷ pos f ∷ [])
                  t (positive-IsLiteral σ a pa, (positive-IsLiteral σ f pf, tt))
                  (insert_sets-HasLiterals σ (s ∷ dnf) new_node z tt)
                  (insert_sets-IsWf σ (s ∷ dnf) new_node tt)
                  (sym (concat_map-clauses σ (encode neg (pos a ∷ pos f ∷ []) t)) ∙ k)
                  (ground (arith, on)) in
              ground (arith, some_set σ (s ∷ dnf) path)
        ]

    negative_clauses-imply :
        (a : ℕ) (effects : List Signature) (eff : Signature)
        → 0 < a
        → is_encoded fact new eff.usig ≡ true
        → eff.negated ≡ true
        → let u = unifiers_value domain is_repetition table new qs eff effects [] ρ in
          cnf_holds σ (
              unifiers_clauses domain is_repetition table new qs eff effects [] ρ
              ++ decided_clauses domain is_repetition table new qs (pos a) eff u)
            ≡ true
          → (not (σ a)
              || (not (σ (get_variable_or_zero fact eff.usig new)) || is_undone effects eff))
            ≡ true
    negative_clauses-imply a effects eff pa on n k =
        let u = unifiers_value domain is_repetition table new qs eff effects [] ρ in
        let unifying = unifiers_clauses domain is_repetition table new qs eff effects [] ρ in
        let deciding = decided_clauses domain is_repetition table new qs (pos a) eff u in
        let both =
          (&&-eq-true (cnf_holds σ unifying) (cnf_holds σ deciding)).0
            (sym (all-append (clause_holds σ) unifying deciding) ∙ k) in
        ground (
          arith,
          unifiers-undone eff effects [] both.0,
          decided-negative a eff u pa (positive eff on) n (unifiers-nonzero eff effects [] refl)
              both.1,
        )

    effect_clauses-imply :
        (a : ℕ) (effects : List Signature) (eff : Signature)
        → 0 < a
        → cnf_holds σ (effect_clauses domain is_repetition table new qs (pos a) effects eff ρ)
          ≡ true
        → effect_holds a effects eff ≡ true
    unfolding effect_clauses effect_holds decided_clauses with_sign
    effect_clauses-imply a effects eff pa k = elim (Bool-cases (is_encoded fact new eff.usig)) [
      | inr off ↦ rw off refl
      | inl on ↦
          rw on (by_sign (negative_clauses-imply a effects eff pa on) eff.negated refl (rw on at k))
    ]
      where
        f : ℕ
        f = get_variable_or_zero fact eff.usig new

        deciding : Bool × List (List ℤ) → List Clause
        deciding = decided_clauses domain is_repetition table new qs (pos a) eff

        by_sign :
            (eff.negated ≡ true
              → cnf_holds σ (
                  unifiers_clauses domain is_repetition table new qs eff effects [] ρ
                  ++ deciding (unifiers_value domain is_repetition table new qs eff effects [] ρ))
                ≡ true
              → (not (σ a) || (not (σ f) || is_undone effects eff)) ≡ true)
            → (b : Bool) → eff.negated ≡ b
            → cnf_holds σ (
                (if b
                  then unifiers_clauses domain is_repetition table new qs eff effects [] ρ
                  else [])
                ++ deciding (
                    if b
                    then unifiers_value domain is_repetition table new qs eff effects [] ρ
                    else (false, [])))
              ≡ true
            → (not (σ a) || (if b then not (σ f) || is_undone effects eff else σ f)) ≡ true
        by_sign negative true n k = negative n k
        by_sign negative false n k =
            ground (arith, k, holds-neg_pos σ a pa, ap (λ b. holds σ (with_sign b (pos f))) n)

    -- The effects of the actions to the left that occur.
    module _ (left : Position) (action_var : USignature → ℕ) (action_of : USignature → HtnOp)
        (action_positive : (sig : USignature) → 0 < action_var sig) where
      unfoldable pub action_effects_hold : USignature → Bool
      unfolding effect_holds
      action_effects_hold sig =
          is_repetition sig.name_id
          || all (effect_holds (action_var sig) (action_of sig).effects) (action_of sig).effects

      action_clauses-imply :
          (fs : List ℕ) (arity : ℤ → ℕ) (sig : USignature)
          → cnf_holds σ (
              action_clauses domain is_repetition table new qs fs arity left action_var action_of
                sig ρ)
            ≡ true
          → action_effects_hold sig ≡ true
      unfolding action_clauses action_effects_hold
      action_clauses-imply fs arity sig k = elim (Bool-cases (is_repetition sig.name_id)) [
        | inl again ↦ rw again refl
        | inr once ↦
            let effects = (action_of sig).effects in
            let a = action_var sig in
            rw once (
              concat_map-implies σ
                (λ eff. effect_clauses domain is_repetition table new qs (pos a) effects eff ρ)
                (effect_holds a effects) effects
                (λ eff. effect_clauses-imply a effects eff (action_positive sig)) (rw once at k))
      ]

      -- `encodeActionEffects`, with the conversion by trees, returns where every action to the left
      -- that is no repetition has its variable and is in the table, and facts of one name have one
      -- number of arguments. If its clauses hold, then so do the clauses before, and of every such
      -- action that occurs, every encoded effect has its value at the position; but a negative
      -- effect need not, if the action has a positive effect of the same name whose arguments stand
      -- for the same constants.
      pub encode_action_effects-holds :
          (fs : List ℕ) (arity : ℤ → ℕ) (s : Encoder)
          → Working domain qs fs s
          → Agrees ρ
              (state_after (encode_action_effects domain is_repetition true table new left) s).vars
          → All
              (Supplied domain is_repetition table new qs fs arity left action_var action_of)
              left.actions
          → let m = encode_action_effects domain is_repetition true table new left in
            (m s ≡ some (tt, state_after m s))
            × (cnf_holds σ (state_after m s).clauses ≡ true
                → (cnf_holds σ s.clauses ≡ true) × (all action_effects_hold left.actions ≡ true))
      encode_action_effects-holds fs arity s w agrees supplied =
          let clauses = λ (sig : USignature) (ρ' : Env).
            action_clauses domain is_repetition table new qs fs arity left action_var action_of sig
              ρ' in
          let says =
            Does-says (working domain qs fs)
              (encode_action_effects domain is_repetition true table new left)
              (λ ρ'. concat_map (λ sig. clauses sig ρ') left.actions) (λ _. tt)
              (encode_action_effects_rule domain is_repetition table new qs fs arity left action_var
                action_of supplied)
              s w ρ σ agrees in
          (
            says.0,
            λ k.
                let both =
                  (&&-eq-true (cnf_holds σ s.clauses)
                      (cnf_holds σ (concat_map (λ sig. clauses sig ρ) left.actions))).0
                    (sym says.1 ∙ k) in
                (
                  both.0,
                  concat_map-implies σ (λ sig. clauses sig ρ) action_effects_hold left.actions
                      (action_clauses-imply fs arity) both.1,
                ),
          )
