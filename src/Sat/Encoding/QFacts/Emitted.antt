-- ===== src/Sat/Encoding/QFacts/Emitted.antt =====
-- The clauses of `encodeQFactSemantics` (src/sat/encoding.cpp).
use lilotane_smt_csp.Prelude.{
  ◌≡◌, ap, Bool, true, false, not, ◌&&◌, ◌||◌, List, [], ◌∷◌, ◌++◌, map, ℤ, pos, neg, ℕ, some, ◌≤◌,
  All, All_map, if◌then◌else◌, ◌≟◌, int_eq, nat_eq, arith, mem, or_default, length, Bool-cases, inl,
  inr, ◌==◌, Option,
}
use lilotane_smt_csp.Data.Signature.{USignature, usig_eq}
use lilotane_smt_csp.Data.Position.{Position, fact, has_qfact_decodings, get_qfact_decodings}
use lilotane_smt_csp.Data.Position.Variables.{get_variable, get_variable_or_zero}
use lilotane_smt_csp.Sat.Clauses.{Clause}
use lilotane_smt_csp.Sat.Encoding.ConcatMap.{concat_map}
use lilotane_smt_csp.Sat.Encoding.Emits.{Env, Context, Does}
use lilotane_smt_csp.Sat.Encoding.Rules.{
  bind_rule, return_rule, add_clause_rule, for_each_all_rule, var_subst_rule, if_rule,
  reads_known_rule,
}
use lilotane_smt_csp.Sat.Encoding.Equality.Working.{working}
use lilotane_smt_csp.Sat.Encoding.Effects.Emitted.{of_option_rule}
use lilotane_smt_csp.Sat.Encoding.QFacts.{
  substitution_vars, signed_var, filters_above, same_to_the_left, is_above, decoding,
  signed_semantics, qfact_semantics, encode_qfact_semantics,
}

unfoldable pub differing : List ℤ → List ℤ → Env → List ℤ
differing [] ys = λ ρ. []
differing (x ∷ xs) [] = λ ρ. []
differing (x ∷ xs) (y ∷ ys) =
    let rest = differing xs ys in if x ≟ y then rest else (λ ρ. ρ.sub x y ∷ rest ρ)

module _ {C : Context} where
  substitution_vars_rule :
      (xs ys : List ℤ)
      → length xs ≤ length ys
      → Does C (substitution_vars xs ys) (λ ρ. []) (differing xs ys)
  unfolding substitution_vars differing
  substitution_vars_rule [] ys h = return_rule []
  substitution_vars_rule (x ∷ xs) [] h = absurd (omega (arith, h))
  substitution_vars_rule (x ∷ xs) (y ∷ ys) h =
      let rest = substitution_vars_rule xs ys (omega (arith, h)) in
      let one =
        bind_rule (var_subst_rule {C = C} x y) (λ v. bind_rule rest (λ vs. return_rule (v ∷ vs))) in
      elim (Bool-cases (x ≟ y)) [ inl same ↦ rw same rest | inr other ↦ rw other one ]

module _ (above left : Option Position) (new : Position) where
  unfoldable pub decoding_clauses : USignature → Bool → ℕ → Bool → USignature → Env → List Clause
  unfolding differing
  decoding_clauses qfact negated var filter_above dec ρ =
      let dec_var = get_variable_or_zero fact dec new in
      if dec_var == 0 || (filter_above && is_above above left new qfact negated dec)
      then []
      else (map neg (differing qfact.args dec.args ρ)
          ++ signed_var (not negated) (pos var) ∷ signed_var negated (pos dec_var) ∷ [])
        ∷ []

  unfoldable pub semantics_clauses : USignature → ℕ → Bool → Bool → Env → List Clause
  unfolding decoding_clauses
  semantics_clauses qfact var is_new negated ρ =
      let filter_above = filters_above above left new qfact negated var is_new in
      if not (has_qfact_decodings qfact negated new)
        || (not is_new && (not filter_above && same_to_the_left above left new qfact var))
      then []
      else concat_map (λ dec. decoding_clauses qfact negated var filter_above dec ρ)
          (or_default [] (get_qfact_decodings qfact negated new))

  module _ (fs : List ℕ) (qfact_var : USignature → ℕ) where
    unfoldable pub qfact_clauses : USignature → Env → List Clause
    unfolding semantics_clauses
    qfact_clauses qfact ρ =
        let var = qfact_var qfact in
        semantics_clauses qfact var (mem var fs) true ρ
        ++ semantics_clauses qfact var (mem var fs) false ρ

    -- The decodings of a fact have its number of arguments.
    abbrev pub Decodable : USignature → Bool → Type 0
    Decodable qfact negated =
        All (λ dec. length qfact.args ≤ length dec.args)
          (or_default [] (get_qfact_decodings qfact negated new))

    -- The fact has its variable.
    pub record IsReady (qfact : USignature) : Type 0 where
      pub variable : get_variable fact qfact new ≡ some (qfact_var qfact)
      pub negative : Decodable qfact true
      pub positive : Decodable qfact false

    module _ (domain : ℤ → List ℤ) (qs : List ℤ) where
      abbrev C : Context
      C = working domain qs fs

      decoding_rule :
          (qfact : USignature) (negated : Bool) (var : ℕ) (filter_above : Bool) (dec : USignature)
          → length qfact.args ≤ length dec.args
          → Does C
              (decoding above left new qfact negated var filter_above dec)
              (decoding_clauses qfact negated var filter_above dec)
              (λ ρ. tt)
      unfolding decoding decoding_clauses
      decoding_rule qfact negated var filter_above dec h =
          let dec_var = get_variable_or_zero fact dec new in
          let d =
            if_rule (dec_var == 0 || (filter_above && is_above above left new qfact negated dec))
              (return_rule {C = C} tt)
              (bind_rule (substitution_vars_rule qfact.args dec.args h) (λ vs. add_clause_rule (
                map neg vs
                ++ signed_var (not negated) (pos var) ∷ signed_var negated (pos dec_var) ∷ []))) in
          d

      semantics_rule :
          (qfact : USignature) (var : ℕ) (is_new negated : Bool)
          → Decodable qfact negated
          → Does C
              (signed_semantics above left new qfact var is_new negated)
              (semantics_clauses qfact var is_new negated)
              (λ ρ. tt)
      unfolding signed_semantics semantics_clauses
      semantics_rule qfact var is_new negated h =
          let filter_above = filters_above above left new qfact negated var is_new in
          let d =
            if_rule
              (not (has_qfact_decodings qfact negated new)
                || (not is_new && (not filter_above && same_to_the_left above left new qfact var)))
              (return_rule {C = C} tt)
              (for_each_all_rule (decoding above left new qfact negated var filter_above)
                (decoding_clauses qfact negated var filter_above)
                (or_default [] (get_qfact_decodings qfact negated new))
                (All_map (decoding_rule qfact negated var filter_above)
                  (or_default [] (get_qfact_decodings qfact negated new)) h)) in
          d

      qfact_rule :
          (qfact : USignature)
          → IsReady qfact
          → Does C (qfact_semantics above left new qfact) (qfact_clauses qfact) (λ ρ. tt)
      unfolding qfact_semantics qfact_clauses
      qfact_rule qfact h =
          let var = qfact_var qfact in
          of_option_rule (get_variable fact qfact new) var _ h.variable (
            reads_known_rule (λ s. mem var s.new_fact_vars) (mem var fs) _
              (λ s g. ap (mem var) g.new_fact_vars_are)
              (bind_rule (semantics_rule qfact var (mem var fs) true h.negative)
                (λ _. semantics_rule qfact var (mem var fs) false h.positive)))

      pub encode_qfact_semantics_rule :
          All IsReady new.qfacts
          → Does C
              (encode_qfact_semantics above left new)
              (λ ρ. concat_map (λ qfact. qfact_clauses qfact ρ) new.qfacts)
              (λ ρ. tt)
      unfolding encode_qfact_semantics
      encode_qfact_semantics_rule h =
          for_each_all_rule (qfact_semantics above left new) qfact_clauses new.qfacts
            (All_map qfact_rule new.qfacts h)
