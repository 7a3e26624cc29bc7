-- ===== src/Data/Layer/Examples.antt =====
-- A layer of three positions (src/data/layer.cpp), and the round trip at its middle one.
use lilotane_smt_csp.Prelude.{◌+◌, ◌≡◌, [], ◌∷◌, arith}
use lilotane_smt_csp.Data.Layer.{
  consolidate, new_layer, get_successor_pos, get_predecessor_pos_and_offset,
  get_predecessor_pos_and_offset-consolidate,
}

get_predecessor_pos_and_offset-consolidate_example :
    get_predecessor_pos_and_offset
      (consolidate (new_layer 0 (2 ∷ 3 ∷ 1 ∷ [])))
      (get_successor_pos (consolidate (new_layer 0 (2 ∷ 3 ∷ 1 ∷ []))) 1 + 2)
    ≡ (1, 2)
get_predecessor_pos_and_offset-consolidate_example =
    get_predecessor_pos_and_offset-consolidate 0 (2 ∷ 3 ∷ 1 ∷ []) 1 2 (omega arith)
      (λ h. omega arith)
