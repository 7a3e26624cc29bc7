-- ===== src/Sat/Encoding/Effects/Exact.antt =====
-- When the clauses of `encodeActionEffects` hold (src/sat/encoding.cpp).
use lilotane_smt_csp.Prelude.{
  ◌≡◌, refl, ap, ap₂, ◌∙◌, Bool, true, false, not, ◌&&◌, ◌||◌, List, [], ◌∷◌, ◌++◌, ℤ, pos, neg,
  some, ℕ, ◌<◌, All, if◌then◌else◌, int_eq, list_eq, any, all, all-append, arith, mem, Bool-cases,
  inl, inr, &&-eq-true,
}
use lilotane_smt_csp.Data.Signature.{USignature, Signature}
use lilotane_smt_csp.Data.HtnOp.{HtnOp}
use lilotane_smt_csp.Data.OpTable.{OpTable}
use lilotane_smt_csp.Data.Position.{Position, fact}
use lilotane_smt_csp.Data.Position.Variables.{get_variable_or_zero}
use lilotane_smt_csp.Sat.VariableProvider.{is_encoded}
use lilotane_smt_csp.Sat.LiteralTree.{new_node, encode}
use lilotane_smt_csp.Sat.LiteralTree.Paths.{IsWf, HasLiterals}
use lilotane_smt_csp.Sat.LiteralTree.Encode.{IsExclusive, encode-iff_PathHolds}
use lilotane_smt_csp.Sat.Clauses.{Clause, Assignment, holds, clause_holds, cnf_holds, holds-neg_pos}
use lilotane_smt_csp.Sat.OrderedSets.{sets_insert}
use lilotane_smt_csp.Sat.Encoding.{Encoder}
use lilotane_smt_csp.Sat.Encoding.ConcatMap.{concat_map, concat_map-clauses}
use lilotane_smt_csp.Sat.Encoding.Emits.{Env, Agrees, Does-says, state_after}
use lilotane_smt_csp.Sat.Encoding.Equality.Working.{Working, working}
use lilotane_smt_csp.Sat.Encoding.Equality.Meaning.{IsReal, Chooses}
use lilotane_smt_csp.Sat.Encoding.Effects.{is_empty, insert_sets, with_sign, encode_action_effects}
use lilotane_smt_csp.Sat.Encoding.Unify.Emitted.{unify_args_clauses, unify_args_value}
use lilotane_smt_csp.Sat.Encoding.Unify.Complete.{Equates, unify_args_clauses-hold}
use lilotane_smt_csp.Sat.Encoding.Unify.Meaning.{nonzero}
use lilotane_smt_csp.Sat.Encoding.Effects.Emitted.{
  unifiers_clauses, unifiers_value, decided_clauses, effect_clauses, action_clauses, Supplied,
  encode_action_effects_rule,
}
use lilotane_smt_csp.Sat.Encoding.Effects.Trees.{
  IsLiteral, IsLiteral-neg, positive-IsLiteral, insert_sets-IsWf, set-PathHolds,
  insert_sets-HasLiterals,
}
use lilotane_smt_csp.Sat.Encoding.Effects.Meaning.{
  is_undone, unifiers-undone, unifiers-nonzero, effect_holds, action_effects_hold,
  encode_action_effects-holds,
}

concat_map-each :
    {X : Type 0} (σ : Assignment) (f : X → List Clause) (xs : List X)
    → All (λ x. cnf_holds σ (f x) ≡ true) xs
    → cnf_holds σ (concat_map f xs) ≡ true
unfolding concat_map
concat_map-each σ f [] h = refl
concat_map-each σ f (x ∷ xs) h =
    ground
      (arith, all-append (clause_holds σ) (f x) (concat_map f xs), h.0, concat_map-each σ f xs h.1)

All-both :
    {X : Type 0} (P Q : X → Type 0) (b : X → Bool)
    → ((x : X) → P x → b x ≡ true → Q x)
    → (xs : List X) → All P xs
    → all b xs ≡ true
    → All Q xs
All-both P Q b step [] h k = tt
All-both P Q b step (x ∷ xs) h k =
    let both = (&&-eq-true (b x) (all b xs)).0 k in
    (step x h.0 both.0, All-both P Q b step xs h.1 both.1)

module _ (domain : ℤ → List ℤ) (is_repetition : ℤ → Bool) (table : OpTable) (new : Position)
    (qs : List ℤ) (ρ : Env) (σ : Assignment) (real : IsReal ρ) (chosen : ℤ → ℤ)
    (choice : (q : ℤ) → mem q qs ≡ true → Chooses domain ρ σ q (chosen q))
    (positive : (eff : Signature)
      → is_encoded fact new eff.usig ≡ true
      → 0 < get_variable_or_zero fact eff.usig new) where
  -- In the tree of the conjunctions that may undo the effect, of the literals that lead on from one
  -- node at most one holds.
  unfoldable pub HasExclusiveTree : List Signature → Signature → Type 0
  HasExclusiveTree effects eff =
      IsExclusive (holds σ)
        (insert_sets (unifiers_value domain is_repetition table new qs eff effects [] ρ).1 new_node)

  module _ (equates : Equates domain qs ρ σ real chosen choice) where
    unifiers_clauses-hold :
        (eff : Signature) (ps : List Signature) (dnf : List (List ℤ))
        → cnf_holds σ (unifiers_clauses domain is_repetition table new qs eff ps dnf ρ) ≡ true
    unfolding unifiers_clauses
    unifiers_clauses-hold eff [] dnf = refl
    unifiers_clauses-hold eff (p ∷ ps) dnf =
        let u = unify_args_value domain qs eff.usig.args p.usig.args (true, []) ρ in
        let args = unify_args_clauses domain qs eff.usig.args p.usig.args ρ in
        let more =
          unifiers_clauses domain is_repetition table new qs eff ps (sets_insert u.1 dnf) ρ in
        let others = unifiers_clauses domain is_repetition table new qs eff ps dnf ρ in
        ground (
          arith,
          all-append (clause_holds σ) args
              (if u.0 then (if is_empty u.1 then [] else more) else others),
          unify_args_clauses-hold domain qs ρ σ real chosen choice equates eff.usig.args
              p.usig.args,
          unifiers_clauses-hold eff ps dnf,
          unifiers_clauses-hold eff ps (sets_insert u.1 dnf),
        )

    decided_clauses-hold :
        (a : ℕ) (eff : Signature) (u : Bool × List (List ℤ))
        → 0 < a
        → 0 < get_variable_or_zero fact eff.usig new
        → eff.negated ≡ true
        → all (all nonzero) u.1 ≡ true
        → IsExclusive (holds σ) (insert_sets u.1 new_node)
        → (not (σ a)
            || (not (σ (get_variable_or_zero fact eff.usig new))
                || (u.0 || any (all (holds σ)) u.1)))
          ≡ true
        → cnf_holds σ (decided_clauses domain is_repetition table new qs (pos a) eff u) ≡ true
    unfolding decided_clauses with_sign HasLiterals IsWf
    decided_clauses-hold a eff (true, dnf) pa pf n z ex k = refl
    decided_clauses-hold a eff (false, []) pa pf n z ex k = ground (
      arith,
      n,
      k,
      holds-neg_pos σ a pa,
      holds-neg_pos σ (get_variable_or_zero fact eff.usig new) pf,
    )
    decided_clauses-hold a eff (false, s ∷ dnf) pa pf n z ex k =
        let f = get_variable_or_zero fact eff.usig new in
        let t = insert_sets (s ∷ dnf) new_node in
        let says =
          encode-iff_PathHolds (holds σ) neg (IsLiteral σ) (IsLiteral-neg σ) (pos a ∷ pos f ∷ []) t
            (positive-IsLiteral σ a pa, (positive-IsLiteral σ f pf, tt))
            (insert_sets-HasLiterals σ (s ∷ dnf) new_node z tt)
            (insert_sets-IsWf σ (s ∷ dnf) new_node tt) ex in
        concat_map-clauses σ (encode neg (pos a ∷ pos f ∷ []) t) ∙ elim (Bool-cases (σ a && σ f)) [
          | inr off ↦ says.1 (inl (ground (arith, off)))
          | inl on ↦ says.1 (inr (set-PathHolds σ (s ∷ dnf) (ground (arith, on, k))))
        ]

    negative_clauses-hold :
        (a : ℕ) (effects : List Signature) (eff : Signature)
        → 0 < a
        → is_encoded fact new eff.usig ≡ true
        → eff.negated ≡ true
        → HasExclusiveTree effects eff
        → (not (σ a)
            || (not (σ (get_variable_or_zero fact eff.usig new))
                || is_undone domain is_repetition table new qs ρ σ real chosen choice effects eff))
          ≡ true
        → let u = unifiers_value domain is_repetition table new qs eff effects [] ρ in
          cnf_holds σ (
            unifiers_clauses domain is_repetition table new qs eff effects [] ρ
            ++ decided_clauses domain is_repetition table new qs (pos a) eff u)
          ≡ true
    unfolding HasExclusiveTree
    negative_clauses-hold a effects eff pa on n ex k =
        let u = unifiers_value domain is_repetition table new qs eff effects [] ρ in
        let unifying = unifiers_clauses domain is_repetition table new qs eff effects [] ρ in
        let deciding = decided_clauses domain is_repetition table new qs (pos a) eff u in
        let defined = unifiers_clauses-hold eff effects [] in
        let undone =
          unifiers-undone domain is_repetition table new qs ρ σ real chosen choice eff effects []
            defined in
        let literals =
          unifiers-nonzero domain is_repetition table new qs ρ σ real chosen choice eff effects []
            refl in
        all-append (clause_holds σ) unifying deciding
        ∙ ground (
          arith,
          defined,
          decided_clauses-hold a eff u pa (positive eff on) n literals ex
              (ground (arith, k, undone)),
        )

    effect_clauses-hold :
        (a : ℕ) (effects : List Signature) (eff : Signature)
        → 0 < a
        → (eff.negated ≡ true → HasExclusiveTree effects eff)
        → effect_holds domain is_repetition table new qs ρ σ real chosen choice a effects eff ≡ true
        → cnf_holds σ (effect_clauses domain is_repetition table new qs (pos a) effects eff ρ)
          ≡ true
    unfolding effect_clauses effect_holds decided_clauses with_sign HasExclusiveTree
    effect_clauses-hold a effects eff pa ex k = elim (Bool-cases (is_encoded fact new eff.usig)) [
      | inr off ↦ rw off refl
      | inl on ↦ rw on (
          by_sign (λ n h. negative_clauses-hold a effects eff pa on n (ex n) h) eff.negated refl
            (rw on at k))
    ]
      where
        f : ℕ
        f = get_variable_or_zero fact eff.usig new

        undoable : Bool
        undoable = is_undone domain is_repetition table new qs ρ σ real chosen choice effects eff

        deciding : Bool × List (List ℤ) → List Clause
        deciding = decided_clauses domain is_repetition table new qs (pos a) eff

        by_sign :
            (eff.negated ≡ true
              → (not (σ a) || (not (σ f) || undoable)) ≡ true
              → cnf_holds σ (
                  unifiers_clauses domain is_repetition table new qs eff effects [] ρ
                  ++ deciding (unifiers_value domain is_repetition table new qs eff effects [] ρ))
                ≡ true)
            → (b : Bool) → eff.negated ≡ b
            → (not (σ a) || (if b then not (σ f) || undoable else σ f)) ≡ true
            → cnf_holds σ (
                (if b
                  then unifiers_clauses domain is_repetition table new qs eff effects [] ρ
                  else [])
                ++ deciding (
                    if b
                    then unifiers_value domain is_repetition table new qs eff effects [] ρ
                    else (false, [])))
              ≡ true
        by_sign negative true n k = negative n k
        by_sign negative false n k =
            ground (arith, k, holds-neg_pos σ a pa, ap (λ b. holds σ (with_sign b (pos f))) n)

    module _ (left : Position) (action_var : USignature → ℕ) (action_of : USignature → HtnOp)
        (action_positive : (sig : USignature) → 0 < action_var sig) where
      abbrev pub HaveExclusiveTrees : USignature → Type 0
      HaveExclusiveTrees sig =
          is_repetition sig.name_id ≡ false
          → All (λ eff. eff.negated ≡ true → HasExclusiveTree (action_of sig).effects eff)
              (action_of sig).effects

      action_clauses-hold :
          (fs : List ℕ) (arity : ℤ → ℕ) (sig : USignature)
          → HaveExclusiveTrees sig
          → action_effects_hold domain is_repetition table new qs ρ σ real chosen choice positive
              left action_var action_of action_positive sig
            ≡ true
          → cnf_holds σ (
              action_clauses domain is_repetition table new qs fs arity left action_var action_of
                sig ρ)
            ≡ true
      unfolding action_clauses action_effects_hold
      action_clauses-hold fs arity sig ex k = elim (Bool-cases (is_repetition sig.name_id)) [
        | inl again ↦ rw again refl
        | inr once ↦
            let effects = (action_of sig).effects in
            let a = action_var sig in
            rw once (
              concat_map-each σ
                (λ eff. effect_clauses domain is_repetition table new qs (pos a) effects eff ρ)
                effects
                (All-both (λ eff. eff.negated ≡ true → HasExclusiveTree effects eff)
                  (λ eff.
                    cnf_holds σ
                      (effect_clauses domain is_repetition table new qs (pos a) effects eff ρ)
                    ≡ true)
                  (effect_holds domain is_repetition table new qs ρ σ real chosen choice a effects)
                  (λ eff. effect_clauses-hold a effects eff (action_positive sig)) effects (ex once)
                  (rw once at k)))
      ]

  module _ (left : Position) (action_var : USignature → ℕ) (action_of : USignature → HtnOp)
      (action_positive : (sig : USignature) → 0 < action_var sig) where
    -- What is asked of the actions to the left and their effects.
    abbrev pub all_effects_hold : Bool
    all_effects_hold =
        all
          (action_effects_hold domain is_repetition table new qs ρ σ real chosen choice positive
            left action_var action_of action_positive)
          left.actions

    -- For the conversion by trees, and assignments that choose for every known pseudo-constant
    -- exactly one constant of its domain, where no literal is 0: `encodeActionEffects` returns where
    -- every action to the left that is no repetition has its variable and is in the table, and facts
    -- of one name have one number of arguments. If its clauses hold, then so do the clauses before,
    -- and of every such action that occurs, every encoded effect has its value at the position; but a
    -- negative effect need not, if the action has a positive effect of the same name whose arguments
    -- stand for the same constants. Conversely, if the clauses before hold and the effects are so,
    -- then its clauses hold, provided that the literals of equalities of two of them hold exactly where the
    -- same constant is chosen, and that in the tree of the conjunctions that may undo a negative effect at most
    -- one literal holds of those that lead on from one node: then a negative effect that a positive
    -- one undoes is not enforced.
    pub encode_action_effects-decides :
        (fs : List ℕ) (arity : ℤ → ℕ) (s : Encoder)
        → Working domain qs fs s
        → Agrees ρ
            (state_after (encode_action_effects domain is_repetition true table new left) s).vars
        → All
            (Supplied domain is_repetition table new qs fs arity left action_var action_of)
            left.actions
        → let m = encode_action_effects domain is_repetition true table new left in
          (m s ≡ some (tt, state_after m s))
          × (cnf_holds σ (state_after m s).clauses ≡ true
              → (cnf_holds σ s.clauses ≡ true) × (all_effects_hold ≡ true))
          × ((equates : Equates domain qs ρ σ real chosen choice)
              → All
                  (HaveExclusiveTrees equates left action_var action_of action_positive)
                  left.actions
              → cnf_holds σ s.clauses ≡ true
              → all_effects_hold ≡ true
              → cnf_holds σ (state_after m s).clauses ≡ true)
    encode_action_effects-decides fs arity s w agrees supplied =
        let clauses = λ (sig : USignature) (ρ' : Env).
          action_clauses domain is_repetition table new qs fs arity left action_var action_of sig
            ρ' in
        let says =
          Does-says (working domain qs fs)
            (encode_action_effects domain is_repetition true table new left)
            (λ ρ'. concat_map (λ sig. clauses sig ρ') left.actions) (λ _. tt)
            (encode_action_effects_rule domain is_repetition table new qs fs arity left action_var
              action_of supplied)
            s w ρ σ agrees in
        let sound =
          encode_action_effects-holds domain is_repetition table new qs ρ σ real chosen choice
            positive left action_var action_of action_positive fs arity s w agrees supplied in
        (
          says.0,
          sound.1,
          λ equates exclusive before effects.
              says.1
              ∙ ap₂ ◌&&◌ before (
                  concat_map-each σ (λ sig. clauses sig ρ) left.actions
                    (All-both (HaveExclusiveTrees equates left action_var action_of action_positive)
                      (λ sig. cnf_holds σ (clauses sig ρ) ≡ true)
                      (action_effects_hold domain is_repetition table new qs ρ σ real chosen choice
                        positive left action_var action_of action_positive)
                      (action_clauses-hold equates left action_var action_of action_positive fs
                        arity)
                      left.actions exclusive effects)),
        )
