-- ===== src/Data/Position/Examples.antt =====
-- A position of the second layer (src/data/position.cpp), in which one operator takes another's place.
use lilotane_smt_csp.Prelude.{
  ◌≡◌, ◌↔◌, refl, true, not, ◌&&◌, ◌||◌, [], ◌∷◌, pos, none, some, lookup, ◌≟◌, update, insert_new,
  put, erase_all, arith, mem,
}
use lilotane_smt_csp.Sat.VariableDomain.{init}
use lilotane_smt_csp.Data.Signature.{USignature, usig_eq}
use lilotane_smt_csp.Data.Position.{Position, new_position, VarType, fact, op, live}
use lilotane_smt_csp.Data.Position.Expansions.{
  add_expansion, replace_operation, erase_predecessor, is_child, is_parent,
}
use lilotane_smt_csp.Data.Position.Expansions.Inverse.{
  start, change, added, predecessor_erased, AreConsistent, Reached-AreConsistent,
  replace_operation-tables,
}
use lilotane_smt_csp.Data.Position.Variables.{encode, variable_table, get_variable}
use lilotane_smt_csp.Data.Position.Variables.Fresh.{IsFresh, IsEncoded, encode-IsEncoded}
use lilotane_smt_csp.Data.Position.Supports.{clear_at_past_position}
use lilotane_smt_csp.Data.Position.Supports.Life.{is_open, has_table, clear_at_past_position-twice}

abbrev move : USignature
move = record { name_id = pos 1; args = pos 2 ∷ [] }

abbrev walk : USignature
walk = record { name_id = pos 1; args = pos 3 ∷ [] }

abbrev travel : USignature
travel = record { name_id = pos 9; args = [] }

expanded : Position
expanded = add_expansion travel move new_position

abbrev carry : USignature
carry = record { name_id = pos 8; args = [] }

-- The move has two parents, of which one is pruned.
pruned : Position
pruned = record (add_expansion carry move expanded) { predecessors = (move, travel ∷ []) ∷ [] }

carry-pruned : erase_predecessor carry move (add_expansion carry move expanded) ≡ some pruned
unfolding pruned expanded erase_predecessor add_expansion new_position update insert_new lookup mem
    put erase_all
carry-pruned = refl

Reached-AreConsistent_example : AreConsistent true pruned
unfolding expanded
Reached-AreConsistent_example = Reached-AreConsistent (
    change (change (change start (added travel move new_position)) (added carry move expanded))
      (predecessor_erased carry move (add_expansion carry move expanded) pruned carry-pruned))

travel_expands : lookup move expanded.predecessors ≡ some (travel ∷ [])
unfolding expanded add_expansion new_position update insert_new lookup mem
travel_expands = refl

replace_operation-tables_example :
    (q : Position) × (replace_operation move walk [] expanded ≡ some q)
    × ((parent child : USignature)
        → (is_child child parent q ≡ (
            (child ≟ walk && is_parent parent move expanded)
            || (not (child ≟ move) && is_child child parent expanded)))
          × (is_parent parent child q ≡ (
              (child ≟ walk && is_parent parent move expanded)
              || (not (child ≟ move) && is_parent parent child expanded))))
replace_operation-tables_example =
    replace_operation-tables move walk [] expanded (travel ∷ []) travel_expands

no_variable : (type : VarType) (sig : USignature) → get_variable type sig new_position ≡ none
unfolding new_position get_variable variable_table lookup
no_variable op sig = refl
no_variable fact sig = refl

new_position-IsFresh : IsFresh new_position init
new_position-IsFresh = record {
  below = λ type sig var h. absurd (ground (arith, h, no_variable type sig));
  distinct = λ type type' sig sig' var h h'. absurd (ground (arith, h, no_variable type sig));
}

encode-IsEncoded_example : IsEncoded op move new_position (encode op move new_position init)
encode-IsEncoded_example = encode-IsEncoded op move new_position init new_position-IsFresh

-- One table has been made.
supported : Position
supported = record new_position { pos_fact_supports = live [] }

nothing_deleted : is_open supported ≡ true
unfolding supported is_open new_position
nothing_deleted = refl

clear_at_past_position-twice_example :
    (q : Position) × (clear_at_past_position supported ≡ some q)
    × (is_open q ≡ not (has_table supported))
    × ((clear_at_past_position q ≡ none) ↔ (has_table supported ≡ true))
clear_at_past_position-twice_example = clear_at_past_position-twice supported nothing_deleted
