-- ===== src/Algo/FactAnalysis/Reachability.antt =====
-- What the operations of src/algo/fact_analysis.h make of the reachable facts.
use lilotane_smt_csp.Prelude.{
  ◌≡◌, refl, ap, ◌∙◌, Bool, true, false, not, ◌&&◌, ◌||◌, mem, mem-insert_new, ◌≟◌, xor, arith,
}
use lilotane_smt_csp.Data.Signature.{USignature, usig_eq, usig_beq_iff}
use lilotane_smt_csp.Algo.FactAnalysis.{
  FactAnalysis, reset_reachability, add_reachable_fact, is_reachable, is_invariant,
  add_relevant_fact, add_initialized_fact,
}

-- The operations that change the analysis between two resets.
pub data Step : FactAnalysis → FactAnalysis → Type 0 where
  reaches :
      (usig : USignature) (negated : Bool) (a : FactAnalysis)
      → Step a (add_reachable_fact usig negated a)
  initializes : (usig : USignature) (a : FactAnalysis) → Step a (add_initialized_fact usig a)
  is_relevant_now : (usig : USignature) (a : FactAnalysis) → Step a (add_relevant_fact usig a)

pub data Steps : FactAnalysis → FactAnalysis → Type 0 where
  none_left : {a : FactAnalysis} → Steps a a
  then_step : {a b c : FactAnalysis} → Steps a b → Step b c → Steps a c

-- After `addReachableFact` exactly the new fact, with its sign, is reachable next to what was before.
pub is_reachable-add_reachable_fact :
    (u usig : USignature) (sign negated : Bool) (a : FactAnalysis)
    → is_reachable u sign (add_reachable_fact usig negated a)
      ≡ ((not (xor sign negated) && u ≟ usig) || is_reachable u sign a)
unfolding is_reachable add_reachable_fact xor
is_reachable-add_reachable_fact u usig true true a =
    ground (arith, mem-insert_new u usig a.neg_layer_facts)
is_reachable-add_reachable_fact u usig false false a =
    ground (arith, mem-insert_new u usig a.pos_layer_facts)
is_reachable-add_reachable_fact u usig true false a = refl
is_reachable-add_reachable_fact u usig false true a = refl

-- `addInitializedFact` changes nothing of what is reachable.
pub is_reachable-add_initialized_fact :
    (u usig : USignature) (sign : Bool) (a : FactAnalysis)
    → is_reachable u sign (add_initialized_fact usig a) ≡ is_reachable u sign a
unfolding is_reachable add_initialized_fact
is_reachable-add_initialized_fact u usig sign a =
    ground (arith, mem-insert_new u usig a.neg_layer_facts, same)
  where
    same :
        u ≟ usig ≡ true
        → (mem u a.neg_layer_facts || not (mem u a.init_state))
          ≡ (mem usig a.neg_layer_facts || not (mem usig a.init_state))
    same h =
        ap (λ v. mem v a.neg_layer_facts || not (mem v a.init_state)) ((usig_beq_iff u usig).0 h)

Step-is_reachable :
    {a b : FactAnalysis}
    → Step a b
    → (u : USignature) (sign : Bool) → is_reachable u sign a ≡ true
    → is_reachable u sign b ≡ true
unfolding add_relevant_fact is_reachable
Step-is_reachable (reaches usig negated a) u sign h =
    ground (arith, h, is_reachable-add_reachable_fact u usig sign negated a)
Step-is_reachable (initializes usig a) u sign h =
    is_reachable-add_initialized_fact u usig sign a ∙ h
Step-is_reachable (is_relevant_now usig a) u sign h = h

-- Between two resets a fact that is reachable with a sign stays so, and a fact that is not invariant
-- does not become so.
pub Steps-is_reachable :
    {a b : FactAnalysis}
    → Steps a b
    → (u : USignature) (sign : Bool) → is_reachable u sign a ≡ true
    → is_reachable u sign b ≡ true
Steps-is_reachable none_left = λ u sign h. h
Steps-is_reachable (then_step ss st) =
    λ u sign h. Step-is_reachable st u sign (Steps-is_reachable ss u sign h)

reset_lem :
    (u : USignature) (a : FactAnalysis)
    → ((is_reachable u false (reset_reachability a) || is_reachable u true (reset_reachability a))
        ≡ true)
      × (mem u a.init_state ≡ true → is_reachable u false (reset_reachability a) ≡ true)
unfolding is_reachable reset_reachability
reset_lem u a = (ground arith, λ h. h)

-- From a reset on, in whatever order facts are added, every fact is reachable with some sign, so that it
-- is invariant with at most one sign; and the facts of the initial state stay reachable.
pub reset_reachability-is_reachable :
    (a : FactAnalysis) {b : FactAnalysis}
    → Steps (reset_reachability a) b
    → (u : USignature)
    → ((is_reachable u false b || is_reachable u true b) ≡ true)
      × ((is_invariant u false b && is_invariant u true b) ≡ false)
      × ((not (mem u a.init_state) || is_reachable u false b) ≡ true)
unfolding is_invariant
reset_reachability-is_reachable a {b = b} ss u =
    (either, ground (arith, either), ground (arith, stays false, from_reset.1))
  where
    stays :
        (sign : Bool)
        → is_reachable u sign (reset_reachability a) ≡ true
        → is_reachable u sign b ≡ true
    stays sign h = Steps-is_reachable ss u sign h

    from_reset :
        ((is_reachable u false (reset_reachability a) || is_reachable u true (reset_reachability a))
          ≡ true)
        × (mem u a.init_state ≡ true → is_reachable u false (reset_reachability a) ≡ true)
    from_reset = reset_lem u a

    either : (is_reachable u false b || is_reachable u true b) ≡ true
    either = ground (arith, stays false, stays true, from_reset.0)
