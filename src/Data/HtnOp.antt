-- ===== src/Data/HtnOp.antt =====
-- Operators (src/data/htn_op.h and .cpp) with what actions (src/data/action.h and .cpp) and fact frames
-- (src/data/fact_frame.h) share with them. Copies, moves and assignments copy every field.
pub mod Laws
mod Examples
use lilotane_smt_csp.Prelude.{
  Bool, true, false, ◌&&◌, List, [], ◌∷◌, ◌++◌, map, ℤ, if◌then◌else◌, mem, insert_new, erase_all,
  Eq,
}
use lilotane_smt_csp.Data.Substitution.{Substitution, image}
use lilotane_smt_csp.Data.Signature.{
  USignature, Signature, usig_substitute, sig_substitute, to_signature, sig_eq,
}

pub record HtnOp : Type 0 where
  pub id : ℤ
  pub args : List ℤ
  pub preconditions : List Signature
  pub extra_preconditions : List Signature
  pub effects : List Signature

-- `HtnOp(id, args)`
pub new_op : ℤ → List ℤ → HtnOp
new_op id args = record {
  id = id;
  args = args;
  preconditions = [];
  extra_preconditions = [];
  effects = [];
}

pub set_preconditions : List Signature → HtnOp → HtnOp
set_preconditions set op = record op { preconditions = set }

pub set_extra_preconditions : List Signature → HtnOp → HtnOp
set_extra_preconditions set op = record op { extra_preconditions = set }

pub set_effects : List Signature → HtnOp → HtnOp
set_effects set op = record op { effects = set }

pub add_precondition : Signature → HtnOp → HtnOp
add_precondition sig op = record op { preconditions = insert_new sig op.preconditions }

pub add_extra_precondition : Signature → HtnOp → HtnOp
add_extra_precondition sig op = record op {
  extra_preconditions = insert_new sig op.extra_preconditions;
}

pub add_effect : Signature → HtnOp → HtnOp
add_effect sig op = record op { effects = insert_new sig op.effects }

pub add_argument : ℤ → HtnOp → HtnOp
add_argument arg op = record op { args = op.args ++ (arg ∷ []) }

pub get_signature : HtnOp → USignature
get_signature op = record { name_id = op.id; args = op.args }

-- `removeInconsistentEffects`: the negated effects whose positive form is an effect as well are
-- collected, and then erased.
pub is_inconsistent : List Signature → Signature → Bool
is_inconsistent effects sig = sig.negated && mem (to_signature sig.usig false) effects

pub inconsistent_effects : List Signature → List Signature → List Signature
unfolding is_inconsistent
inconsistent_effects effects [] = []
inconsistent_effects effects (sig ∷ sigs) =
    let found = inconsistent_effects effects sigs in
    if is_inconsistent effects sig then insert_new sig found else found

pub erase_each : List Signature → List Signature → List Signature
erase_each [] effects = effects
erase_each (sig ∷ sigs) effects = erase_each sigs (erase_all sig effects)

pub remove_inconsistent_effects : HtnOp → HtnOp
unfolding inconsistent_effects erase_each
remove_inconsistent_effects op = record op {
  effects = erase_each (inconsistent_effects op.effects op.effects) op.effects;
}

-- A loop that substitutes in every signature of a set and inserts the results in a set.
pub add_substituted : Substitution → List Signature → List Signature → List Signature
add_substituted s [] set = set
add_substituted s (sig ∷ sigs) set = add_substituted s sigs (insert_new (sig_substitute s sig) set)

unfoldable pub substitute : Substitution → HtnOp → HtnOp
unfolding add_substituted
substitute s op = record {
  id = op.id;
  args = map (image s) op.args;
  preconditions = add_substituted s op.preconditions [];
  extra_preconditions = add_substituted s op.extra_preconditions [];
  effects = add_substituted s op.effects [];
}

pub record FactFrame : Type 0 where
  pub sig : USignature
  pub preconditions : List Signature
  pub effects : List Signature

-- `FactFrame::substitute`
pub frame_substitute : Substitution → FactFrame → FactFrame
unfolding add_substituted
frame_substitute s f = record {
  sig = usig_substitute s f.sig;
  preconditions = add_substituted s f.preconditions [];
  effects = add_substituted s f.effects [];
}
