-- ===== src/Data/Position.antt =====
-- The positions of a layer (src/data/position.h and .cpp): the operators and facts that may occur
-- there. The logging is left out. A table of supports is on the heap: its pointer is null, live or
-- dangling, and what uses a dangling one has no result.
pub mod Supports
pub mod Expansions
pub mod Variables
mod Examples
use lilotane_smt_csp.Prelude.{
  ℕ, suc, ◌+◌, ◌-◌, ◌^◌, max, Bool, true, false, not, List, [], ◌∷◌, ◌++◌, Option, none, some,
  if◌then◌else◌, mem, insert_new, erase_all, lookup, has_key, put, update, remove, map_values,
  or_default, Eq,
}
use lilotane_smt_csp.Sat.LiteralTree.{Node, new_node, insert}
use lilotane_smt_csp.Data.Substitution.{Substitution}
use lilotane_smt_csp.Data.Signature.{USignature, Signature, TypeConstraint, usig_eq}
use lilotane_smt_csp.Data.SubstitutionConstraint.{IntPair, SubstitutionConstraint}
use lilotane_smt_csp.Prelude.{int_eq, pair_eq}

pub data VarType : Type 0 where
  fact : VarType
  op : VarType

pub data Pointer {ℓ} (A : Type ℓ) : Type ℓ where
  null : Pointer A
  live : A → Pointer A
  dangling : Pointer A

abbrev pub USigSet : Type 0
USigSet = List USignature

abbrev pub USigSetMap : Type 0
USigSetMap = List (USignature × USigSet)

abbrev pub IndirectFactSupportMap : Type 0
IndirectFactSupportMap = List (USignature × List (USignature × Node IntPair))

pub record Position : Type 0 where
  pub layer_idx : ℕ
  pub pos : ℕ
  pub actions : USigSet
  pub reductions : USigSet
  pub expansions : USigSetMap
  pub predecessors : USigSetMap
  pub expansion_substitutions : List (USignature × List (USignature × Substitution))
  pub axiomatic_ops : USigSet
  pub qfacts : USigSet
  pub pos_qfact_decodings : USigSetMap
  pub neg_qfact_decodings : USigSetMap
  pub true_facts : USigSet
  pub false_facts : USigSet
  pub pos_fact_supports : Pointer USigSetMap
  pub neg_fact_supports : Pointer USigSetMap
  pub pos_indir_fact_supports : Pointer IndirectFactSupportMap
  pub neg_indir_fact_supports : Pointer IndirectFactSupportMap
  pub q_constants_type_constraints : List (USignature × List TypeConstraint)
  pub substitution_constraints : List (USignature × List SubstitutionConstraint)
  pub max_expansion_size : ℕ
  pub op_variables : List (USignature × ℕ)
  pub fact_variables : List (USignature × ℕ)
  pub has_primitive_ops : Bool
  pub has_nonprimitive_ops : Bool

-- `size_t(-1)`
abbrev no_index : ℕ
no_index = 2 ^ 64 - 1

unfoldable pub new_position : Position
new_position = record {
  layer_idx = no_index;
  pos = no_index;
  actions = [];
  reductions = [];
  expansions = [];
  predecessors = [];
  expansion_substitutions = [];
  axiomatic_ops = [];
  qfacts = [];
  pos_qfact_decodings = [];
  neg_qfact_decodings = [];
  true_facts = [];
  false_facts = [];
  pos_fact_supports = null;
  neg_fact_supports = null;
  pos_indir_fact_supports = null;
  neg_indir_fact_supports = null;
  q_constants_type_constraints = [];
  substitution_constraints = [];
  max_expansion_size = 1;
  op_variables = [];
  fact_variables = [];
  has_primitive_ops = false;
  has_nonprimitive_ops = false;
}

pub set_pos : ℕ → ℕ → Position → Position
set_pos layer_idx pos p = record p { layer_idx = layer_idx; pos = pos }

pub add_qfact : USignature → Position → Position
add_qfact sig p = record p { qfacts = insert_new sig p.qfacts }

pub add_true_fact : USignature → Position → Position
add_true_fact sig p = record p { true_facts = insert_new sig p.true_facts }

pub add_false_fact : USignature → Position → Position
add_false_fact sig p = record p { false_facts = insert_new sig p.false_facts }

pub add_definitive_fact : Signature → Position → Position
unfolding add_true_fact add_false_fact
add_definitive_fact sig p =
    if sig.negated then add_false_fact sig.usig p else add_true_fact sig.usig p

pub set_has_primitive_ops : Bool → Position → Position
set_has_primitive_ops has p = record p { has_primitive_ops = has }

pub set_has_nonprimitive_ops : Bool → Position → Position
set_has_nonprimitive_ops has p = record p { has_nonprimitive_ops = has }

pub add_q_constant_type_constraint : USignature → TypeConstraint → Position → Position
add_q_constant_type_constraint sig c p = record p {
  q_constants_type_constraints =
      update sig [] (λ cs. cs ++ (c ∷ [])) p.q_constants_type_constraints;
}

pub add_substitution_constraint : USignature → SubstitutionConstraint → Position → Position
add_substitution_constraint sig c p = record p {
  substitution_constraints = update sig [] (λ cs. cs ++ (c ∷ [])) p.substitution_constraints;
}

unfoldable pub qfact_decodings : Bool → Position → USigSetMap
qfact_decodings negated p = if negated then p.neg_qfact_decodings else p.pos_qfact_decodings

pub set_qfact_decodings : Bool → USigSetMap → Position → Position
set_qfact_decodings negated t p =
    if negated then record p { neg_qfact_decodings = t } else record p { pos_qfact_decodings = t }

unfoldable pub has_qfact_decodings : USignature → Bool → Position → Bool
unfolding qfact_decodings
has_qfact_decodings qfact negated p = has_key qfact (qfact_decodings negated p)

pub add_qfact_decoding : USignature → USignature → Bool → Position → Position
unfolding set_qfact_decodings
add_qfact_decoding qfact dec negated p =
    set_qfact_decodings negated (update qfact [] (insert_new dec) (qfact_decodings negated p)) p

-- `set[qFact].erase(decFact)`, which makes an empty entry if there is none.
pub remove_qfact_decoding : USignature → USignature → Bool → Position → Position
unfolding set_qfact_decodings
remove_qfact_decoding qfact dec negated p =
    set_qfact_decodings negated (update qfact [] (erase_all dec) (qfact_decodings negated p)) p

unfoldable pub get_qfact_decodings : USignature → Bool → Position → Option USigSet
unfolding qfact_decodings
get_qfact_decodings qfact negated p = lookup qfact (qfact_decodings negated p)

pub add_action : USignature → Position → Position
add_action sig p = record p { actions = insert_new sig p.actions }

pub add_reduction : USignature → Position → Position
add_reduction sig p = record p { reductions = insert_new sig p.reductions }

pub add_axiomatic_op : USignature → Position → Position
add_axiomatic_op sig p = record p { axiomatic_ops = insert_new sig p.axiomatic_ops }

pub add_expansion_size : ℕ → Position → Position
add_expansion_size size p = record p { max_expansion_size = max p.max_expansion_size size }

pub has_qfact : USignature → Position → Bool
has_qfact sig p = mem sig p.qfacts

pub has_action : USignature → Position → Bool
has_action sig p = mem sig p.actions

pub has_reduction : USignature → Position → Bool
has_reduction sig p = mem sig p.reductions

pub clear_substitutions : Position → Position
clear_substitutions p = record p { substitution_constraints = [] }

pub clear_at_past_layer : Position → Position
clear_at_past_layer p = record p {
  pos_qfact_decodings = [];
  neg_qfact_decodings = [];
  true_facts = [];
  false_facts = [];
  fact_variables = [];
}
