-- ===== src/Algo/FactAnalysis.antt =====
-- The reachability of facts (src/algo/fact_analysis.h): the facts that may be true, or false, at the
-- present position. The fact changes and fact frames of operators are left out.
pub mod Reachability
mod Examples
use lilotane_smt_csp.Prelude.{
  Bool, true, false, not, ◌||◌, List, [], ◌∷◌, if◌then◌else◌, mem, insert_new, Eq,
}
use lilotane_smt_csp.Data.Signature.{USignature, Signature, usig_eq}

pub record FactAnalysis : Type 0 where
  pub init_state : List USignature
  pub pos_layer_facts : List USignature
  pub neg_layer_facts : List USignature
  pub initialized_facts : List USignature
  pub relevant_facts : List USignature

pub reset_reachability : FactAnalysis → FactAnalysis
reset_reachability a = record a {
  pos_layer_facts = a.init_state;
  neg_layer_facts = [];
  initialized_facts = [];
}

-- The constructor.
pub new_analysis : List USignature → FactAnalysis
unfolding reset_reachability
new_analysis init_state = reset_reachability (record {
  init_state = init_state;
  pos_layer_facts = [];
  neg_layer_facts = [];
  initialized_facts = [];
  relevant_facts = [];
})

pub add_reachable_fact : USignature → Bool → FactAnalysis → FactAnalysis
add_reachable_fact usig negated a =
    if negated
    then record a { neg_layer_facts = insert_new usig a.neg_layer_facts }
    else record a { pos_layer_facts = insert_new usig a.pos_layer_facts }

pub is_reachable : USignature → Bool → FactAnalysis → Bool
is_reachable usig negated a =
    if negated
    then mem usig a.neg_layer_facts || not (mem usig a.init_state)
    else mem usig a.pos_layer_facts

pub is_invariant : USignature → Bool → FactAnalysis → Bool
unfolding is_reachable
is_invariant usig negated a = not (is_reachable usig (not negated) a)

pub add_relevant_fact : USignature → FactAnalysis → FactAnalysis
add_relevant_fact usig a = record a { relevant_facts = insert_new usig a.relevant_facts }

pub is_relevant : USignature → FactAnalysis → Bool
is_relevant usig a = mem usig a.relevant_facts

pub add_initialized_fact : USignature → FactAnalysis → FactAnalysis
unfolding is_reachable
add_initialized_fact usig a =
    let b = record a { initialized_facts = insert_new usig a.initialized_facts } in
    if is_reachable usig true b
    then record b { neg_layer_facts = insert_new usig b.neg_layer_facts }
    else b

pub is_initialized : USignature → FactAnalysis → Bool
is_initialized usig a = mem usig a.initialized_facts
