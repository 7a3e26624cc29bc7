-- ===== src/Sat/Encoding/QFacts.antt =====
-- Facts with pseudo-constants (src/sat/encoding.cpp): `encodeQFactSemantics`. The position above, if
-- the offset is 0 and there is one, and the position to the left, if there is one, are arguments.
pub mod Emitted
pub mod Meaning
mod Examples
use lilotane_smt_csp.Prelude.{
  ℕ, Bool, true, false, not, ◌&&◌, ◌||◌, List, [], ◌∷◌, ◌++◌, map, ℤ, pos, neg, int_eq, nat_eq, ◌≟◌,
  ◌==◌, if◌then◌else◌, Option, none, some, mem, or_default,
}
use lilotane_smt_csp.Data.Signature.{USignature, usig_eq}
use lilotane_smt_csp.Data.Position.{
  Position, USigSet, fact, has_qfact_decodings, get_qfact_decodings,
}
use lilotane_smt_csp.Data.Position.Variables.{get_variable, get_variable_or_zero}
use lilotane_smt_csp.Sat.Encoding.{
  Encoder, M, ◌>>=◌, ◌>>◌, return, for_each, add_clause, var_subst, reads,
}
use lilotane_smt_csp.Sat.Encoding.Effects.{of_option}

-- "Assemble list of substitution variables"; a fact with too few arguments has no result.
pub substitution_vars : List ℤ → List ℤ → M (List ℤ)
substitution_vars [] ys = return []
substitution_vars (x ∷ xs) [] = λ s. none
substitution_vars (x ∷ xs) (y ∷ ys) =
    if x ≟ y
    then substitution_vars xs ys
    else (do v ← var_subst x y; vs ← substitution_vars xs ys; return (v ∷ vs))

-- `sign * var`, where the sign is -1 for what is negated.
pub signed_var : Bool → ℤ → ℤ
signed_var negated v = if negated then neg v else v

module _ (above left : Option Position) (new : Position) where
  -- `filterAbove`: the fact has its variable from above, where its decodings are encoded.
  pub filters_above : USignature → Bool → ℕ → Bool → Bool
  filters_above qfact negated var is_new = elim above [
    | none ↦ false
    | some p ↦
        not is_new
        && (get_variable_or_zero fact qfact p == var && has_qfact_decodings qfact negated p)
  ]

  pub same_to_the_left : USignature → ℕ → Bool
  same_to_the_left qfact var = elim left [
    | none ↦ false
    | some p ↦ get_variable_or_zero fact qfact p == var
  ]

  pub is_above : USignature → Bool → USignature → Bool
  is_above qfact negated dec = elim above [
    | none ↦ false
    | some p ↦ mem dec (or_default [] (get_qfact_decodings qfact negated p))
  ]

  -- "For each possible fact decoding"
  pub decoding : USignature → Bool → ℕ → Bool → USignature → M (Unit {0})
  unfolding is_above substitution_vars signed_var
  decoding qfact negated var filter_above dec =
      let dec_var = get_variable_or_zero fact dec new in
      if dec_var == 0 || (filter_above && is_above qfact negated dec) then return tt else do
        vs ← substitution_vars qfact.args dec.args
        add_clause (
            map neg vs
            ++ signed_var (not negated) (pos var) ∷ signed_var negated (pos dec_var) ∷ [])

  pub signed_semantics : USignature → ℕ → Bool → Bool → M (Unit {0})
  unfolding filters_above same_to_the_left decoding
  signed_semantics qfact var is_new negated =
      let filter_above = filters_above qfact negated var is_new in
      if not (has_qfact_decodings qfact negated new)
        || (not is_new && (not filter_above && same_to_the_left qfact var))
      then return tt
      else for_each (or_default [] (get_qfact_decodings qfact negated new))
          (decoding qfact negated var filter_above)

  pub qfact_semantics : USignature → M (Unit {0})
  unfolding signed_semantics
  qfact_semantics qfact = do
    var ← of_option (get_variable fact qfact new)
    is_new ← reads (λ s. mem var s.new_fact_vars)
    signed_semantics qfact var is_new true
    signed_semantics qfact var is_new false

  pub encode_qfact_semantics : M (Unit {0})
  unfolding qfact_semantics
  encode_qfact_semantics = for_each new.qfacts qfact_semantics
