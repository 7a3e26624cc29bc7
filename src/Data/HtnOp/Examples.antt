-- ===== src/Data/HtnOp/Examples.antt =====
-- An action with an effect of both signs (src/data/htn_op.cpp).
use lilotane_smt_csp.Prelude.{true, false, [], ◌∷◌, pos}
use lilotane_smt_csp.Data.Signature.{USignature, Signature, sig_eq}
use lilotane_smt_csp.Data.HtnOp.{HtnOp, new_op, add_effect}

abbrev door_open : USignature
door_open = record { name_id = pos 4; args = pos 1 ∷ [] }

abbrev door_closed : Signature
door_closed = record { usig = door_open; negated = true }

flip_door : HtnOp
flip_door =
    add_effect (record { usig = door_open; negated = false })
      (add_effect door_closed (new_op (pos 9) (pos 1 ∷ [])))
