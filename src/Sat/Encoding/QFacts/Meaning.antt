-- ===== src/Sat/Encoding/QFacts/Meaning.antt =====
-- What the clauses of `encodeQFactSemantics` (src/sat/encoding.cpp) say.
use lilotane_smt_csp.Prelude.{
  ◌≡◌, refl, ap, ap₂, ◌∙◌, Bool, true, false, not, ◌&&◌, ◌||◌, List, [], ◌∷◌, map, ℤ, pos, neg, ℕ,
  ◌<◌, some, All, All_map, ◌≟◌, int_eq, nat_eq, any, all, all-append, any-append, arith, mem,
  or_default, Bool-cases, inl, inr, ◌==◌, Option, if◌then◌else◌, ≟_refl,
}
use lilotane_smt_csp.Data.Signature.{USignature, usig_eq}
use lilotane_smt_csp.Data.Position.{Position, fact, has_qfact_decodings, get_qfact_decodings}
use lilotane_smt_csp.Data.Position.Variables.{get_variable_or_zero}
use lilotane_smt_csp.Sat.Clauses.{
  Assignment, holds, clause_holds, cnf_holds, holds-neg, holds-neg_pos,
}
use lilotane_smt_csp.Sat.Encoding.{Encoder}
use lilotane_smt_csp.Sat.Encoding.ConcatMap.{concat_map, concat_map-says}
use lilotane_smt_csp.Sat.Encoding.Emits.{Env, Agrees, Does-says, state_after}
use lilotane_smt_csp.Sat.Encoding.Equality.Working.{Working, working}
use lilotane_smt_csp.Sat.Encoding.Equality.Meaning.{IsReal}
use lilotane_smt_csp.Sat.Encoding.QFacts.{
  signed_var, filters_above, same_to_the_left, is_above, encode_qfact_semantics,
}
use lilotane_smt_csp.Sat.Encoding.QFacts.Emitted.{
  differing, decoding_clauses, semantics_clauses, qfact_clauses, IsReady,
  encode_qfact_semantics_rule,
}

module _ (choice : ℤ → ℤ) where
  -- The arguments of the fact are chosen as those of the decoding.
  pub decodes : List ℤ → List ℤ → Bool
  decodes [] ys = true
  decodes (x ∷ xs) [] = true
  decodes (x ∷ xs) (y ∷ ys) = choice x ≟ y && decodes xs ys

  module _ (ρ : Env) (σ : Assignment) where
    -- An argument that the decoding keeps stands for itself, and the substitution of another holds
    -- exactly if it is chosen.
    pub record Stands (x y : ℤ) : Type 0 where
      pub same : x ≟ y ≡ true → choice x ≡ y
      pub other : x ≟ y ≡ false → holds σ (ρ.sub x y) ≡ choice x ≟ y

    abbrev pub Fits : List ℤ → List ℤ → Type 0
    Fits [] ys = Unit
    Fits (x ∷ xs) [] = Unit
    Fits (x ∷ xs) (y ∷ ys) = Stands x y × Fits xs ys

    differing-decodes :
        IsReal ρ
        → (xs ys : List ℤ) → Fits xs ys
        → any (holds σ) (map neg (differing xs ys ρ)) ≡ not (decodes xs ys)
    unfolding differing decodes
    differing-decodes real [] ys h = refl
    differing-decodes real (x ∷ xs) [] h = refl
    differing-decodes real (x ∷ xs) (y ∷ ys) (h, k) =
        let rest = differing-decodes real xs ys k in
        elim (Bool-cases (x ≟ y)) [
          | inl same ↦
              let chosen : choice x ≟ y ≡ true = rw (h.same same) (≟_refl y) in
              rw same (ground (arith, rest, chosen))
          | inr other ↦
              let chosen = h.other other in
              rw other (ground (arith, rest, chosen, holds-neg σ (ρ.sub x y) (real.sub x y)))
        ]

-- What is negated follows for the fact from its decoding, what is not for the decoding from the fact.
pub signed_implies : Bool → Bool → Bool → Bool
signed_implies negated f d = if negated then (not d || f) else (not f || d)

signed-holds :
    (σ : Assignment) (negated : Bool) (v d : ℕ)
    → 0 < v
    → 0 < d
    → (holds σ (signed_var (not negated) (pos v)) || holds σ (signed_var negated (pos d)))
      ≡ signed_implies negated (σ v) (σ d)
unfolding signed_var signed_implies
signed-holds σ true v d p q = ground (arith, holds-neg_pos σ d q)
signed-holds σ false v d p q = ground (arith, holds-neg_pos σ v p)

module _ (above left : Option Position) (new : Position) (choice : ℤ → ℤ) (σ : Assignment) where
  -- The decoding has no variable, or is encoded above, or is not the one chosen, or the fact and the
  -- decoding are related.
  pub decoding_holds : USignature → Bool → ℕ → Bool → USignature → Bool
  decoding_holds qfact negated var filter_above dec =
      let dec_var = get_variable_or_zero fact dec new in
      dec_var == 0
      || (filter_above && is_above above left new qfact negated dec)
      || not (decodes choice qfact.args dec.args)
      || signed_implies negated (σ var) (σ dec_var)

  pub semantics_hold : USignature → ℕ → Bool → Bool → Bool
  unfolding decoding_holds
  semantics_hold qfact var is_new negated =
      let filter_above = filters_above above left new qfact negated var is_new in
      not (has_qfact_decodings qfact negated new)
      || (not is_new && (not filter_above && same_to_the_left above left new qfact var))
      || all (decoding_holds qfact negated var filter_above)
          (or_default [] (get_qfact_decodings qfact negated new))

  module _ (ρ : Env) (real : IsReal ρ) where
    decoding_clauses-hold :
        (qfact : USignature) (negated : Bool) (var : ℕ) (filter_above : Bool) (dec : USignature)
        → 0 < var
        → Fits choice ρ σ qfact.args dec.args
        → cnf_holds σ (decoding_clauses above left new qfact negated var filter_above dec ρ)
          ≡ decoding_holds qfact negated var filter_above dec
    unfolding decoding_clauses decoding_holds
    decoding_clauses-hold qfact negated var filter_above dec p h =
        let dec_var = get_variable_or_zero fact dec new in
        elim (Bool-cases
          (dec_var == 0 || (filter_above && is_above above left new qfact negated dec))) [
            | inl skipped ↦ rw skipped (ground (arith, skipped))
            | inr encoded ↦ rw encoded (
                ground (
                  arith,
                  encoded,
                  any-append (holds σ) (map neg (differing qfact.args dec.args ρ))
                      (signed_var (not negated) (pos var) ∷ signed_var negated (pos dec_var) ∷ []),
                  differing-decodes choice ρ σ real qfact.args dec.args h,
                  signed-holds σ negated var dec_var p (ground (arith, encoded)),
                ))
          ]

    -- The decodings of a fact fit the chosen substitutions.
    abbrev pub AllFit : USignature → Bool → Type 0
    AllFit qfact negated =
        All (λ dec. Fits choice ρ σ qfact.args dec.args)
          (or_default [] (get_qfact_decodings qfact negated new))

    semantics_clauses-hold :
        (qfact : USignature) (var : ℕ) (is_new negated : Bool)
        → 0 < var
        → AllFit qfact negated
        → cnf_holds σ (semantics_clauses above left new qfact var is_new negated ρ)
          ≡ semantics_hold qfact var is_new negated
    unfolding semantics_clauses semantics_hold
    semantics_clauses-hold qfact var is_new negated p h =
        let filter_above = filters_above above left new qfact negated var is_new in
        let skips =
          not (has_qfact_decodings qfact negated new)
          || (not is_new && (not filter_above && same_to_the_left above left new qfact var)) in
        elim (Bool-cases skips) [
          | inl skipped ↦ rw skipped (ground (arith, skipped))
          | inr encoded ↦
              let says =
                concat_map-says σ
                  (λ dec. decoding_clauses above left new qfact negated var filter_above dec ρ)
                  (decoding_holds qfact negated var filter_above)
                  (or_default [] (get_qfact_decodings qfact negated new))
                  (All_map (λ dec. decoding_clauses-hold qfact negated var filter_above dec p)
                    (or_default [] (get_qfact_decodings qfact negated new)) h) in
              rw encoded (ground (arith, encoded, says))
        ]

    module _ (fs : List ℕ) (qfact_var : USignature → ℕ) where
      -- Both directions of a fact's semantics.
      pub qfact_holds : USignature → Bool
      unfolding semantics_hold
      qfact_holds qfact =
          let var = qfact_var qfact in
          semantics_hold qfact var (mem var fs) true && semantics_hold qfact var (mem var fs) false

      -- The fact's variable is positive, and its decodings fit the chosen substitutions.
      pub record IsFit (qfact : USignature) : Type 0 where
        pub present : 0 < qfact_var qfact
        pub negative : AllFit qfact true
        pub positive : AllFit qfact false

      qfact_clauses-hold :
          (qfact : USignature)
          → IsFit qfact
          → cnf_holds σ (qfact_clauses above left new fs qfact_var qfact ρ) ≡ qfact_holds qfact
      unfolding qfact_clauses qfact_holds
      qfact_clauses-hold qfact h =
          let var = qfact_var qfact in
          all-append (clause_holds σ)
            (semantics_clauses above left new qfact var (mem var fs) true ρ)
            (semantics_clauses above left new qfact var (mem var fs) false ρ)
          ∙ ap₂ ◌&&◌ (semantics_clauses-hold qfact var (mem var fs) true h.present h.negative)
              (semantics_clauses-hold qfact var (mem var fs) false h.present h.positive)

      -- From a state whose recorded equalities are known, whose new fact variables are given and
      -- whose counter is positive, where every fact with pseudo-constants has its positive variable,
      -- where its decodings have at least its number of arguments, where no literal is 0, where an
      -- argument that a decoding keeps is chosen as itself, and where the literal of a substitution,
      -- for an argument that a decoding changes, holds exactly if the substitution is chosen, the
      -- pass returns, and its clauses hold exactly if those before it do and if for every such fact,
      -- in both directions, unless it is skipped (it has no decodings, or its variable is not new, is
      -- the one to the left and is not with decodings above), every decoding that has a variable,
      -- that is not encoded above and whose arguments are those chosen is implied by the fact, for
      -- the positive decodings, or implies it, for the negative ones.
      pub encode_qfact_semantics-holds :
          (domain : ℤ → List ℤ) (qs : List ℤ) (s : Encoder)
          → Working domain qs fs s
          → Agrees ρ (state_after (encode_qfact_semantics above left new) s).vars
          → All (IsReady above left new fs qfact_var) new.qfacts
          → All IsFit new.qfacts
          → let m = encode_qfact_semantics above left new in
            (m s ≡ some (tt, state_after m s))
            × (cnf_holds σ (state_after m s).clauses
                ≡ (cnf_holds σ s.clauses && all qfact_holds new.qfacts))
      encode_qfact_semantics-holds domain qs s good agrees ready fit =
          let says =
            Does-says (working domain qs fs) (encode_qfact_semantics above left new)
              (λ ρ'.
                concat_map (λ qfact. qfact_clauses above left new fs qfact_var qfact ρ') new.qfacts)
              (λ _. tt) (encode_qfact_semantics_rule above left new fs qfact_var domain qs ready) s
              good ρ σ agrees in
          (
            says.0,
            says.1
                ∙ ap (λ b. cnf_holds σ s.clauses && b)
                    (concat_map-says σ (λ qfact. qfact_clauses above left new fs qfact_var qfact ρ)
                      qfact_holds new.qfacts (All_map qfact_clauses-hold new.qfacts fit)),
          )
