-- ===== src/Data/OpTable.antt =====
-- The table of all operators (src/data/op_table.h). An action has the fields of an operator
-- (src/data/action.h), so that it is one. `at` of a missing key is `none`.
use lilotane_smt_csp.Prelude.{
  ◌≡◌, Bool, List, [], Option, some, lookup, put, has_key, lookup-put, ◌≟◌, if◌then◌else◌,
}
use lilotane_smt_csp.Data.Signature.{USignature, usig_eq}
use lilotane_smt_csp.Data.HtnOp.{HtnOp, get_signature}
use lilotane_smt_csp.Data.Reduction.{Reduction}

pub record OpTable : Type 0 where
  pub actions_by_sig : List (USignature × HtnOp)
  pub reductions_by_sig : List (USignature × Reduction)

pub empty_table : OpTable
empty_table = record { actions_by_sig = []; reductions_by_sig = [] }

pub add_action : HtnOp → OpTable → OpTable
add_action a t = record t { actions_by_sig = put (get_signature a) a t.actions_by_sig }

pub add_reduction : Reduction → OpTable → OpTable
add_reduction r t = record t { reductions_by_sig = put (get_signature r.op) r t.reductions_by_sig }

pub has_action : USignature → OpTable → Bool
has_action sig t = has_key sig t.actions_by_sig

pub has_reduction : USignature → OpTable → Bool
has_reduction sig t = has_key sig t.reductions_by_sig

unfoldable pub get_action : USignature → OpTable → Option HtnOp
get_action sig t = lookup sig t.actions_by_sig

unfoldable pub get_reduction : USignature → OpTable → Option Reduction
get_reduction sig t = lookup sig t.reductions_by_sig

-- The table after `add_action` and `add_reduction` in either order: a signature's action is the added
-- one where it is that one's signature, and the former one elsewhere, and so for reductions; an
-- action never hides a reduction of the same signature.
pub get-add :
    (sig : USignature) (a : HtnOp) (r : Reduction) (t : OpTable)
    → (get_action sig (add_action a (add_reduction r t))
        ≡ (if sig ≟ get_signature a then some a else get_action sig t))
      × (get_reduction sig (add_action a (add_reduction r t))
          ≡ (if sig ≟ get_signature r.op then some r else get_reduction sig t))
unfolding get_action get_reduction add_action add_reduction
get-add sig a r t = (
  lookup-put sig (get_signature a) a t.actions_by_sig,
  lookup-put sig (get_signature r.op) r t.reductions_by_sig,
)
