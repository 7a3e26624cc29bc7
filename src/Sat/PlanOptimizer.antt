-- ===== src/Sat/PlanOptimizer.antt =====
-- The search for a shortest plan (src/sat/plan_optimizer.cpp): `findMinBySat` and `getPlanLength`. The
-- solver's answers, the plan length that is decoded from a model, and the variables of plan lengths
-- are parameters. The statistics' stages and the logging are left out; a plan length is not negative.
pub mod Probing
pub mod Rounds
pub mod Minimum
pub mod Enumeration
mod Examples
use lilotane_smt_csp.Prelude.{
  ℕ, zero, suc, ◌+◌, Bool, true, false, not, ◌||◌, List, [], ◌∷◌, ℤ, pos, negsuc, neg,
  if◌then◌else◌, ◌==◌, ◌≟◌, int_eq, ltb, Option, none, some,
}
use lilotane_smt_csp.Data.Signature.{USignature}
use lilotane_smt_csp.Sat.SatInterface.{SatInterface, add_clause, assume, solve}

pub data ConstraintAddition : Type 0 where
  transient : ConstraintAddition
  permanent : ConstraintAddition

-- `if (mode == TRANSIENT) _sat.assume(lit); else _sat.addClause(lit);`
pub add_lit : ConstraintAddition → ℤ → SatInterface → SatInterface
add_lit transient lit s = assume lit s
add_lit permanent lit s = add_clause (lit ∷ []) s

-- `while (upper > current) { ...; upper--; }`: the state afterwards; `upper` is `current` then, by an
-- assertion.
pub forbid_above : (ℕ → ℤ) → ConstraintAddition → ℕ → ℕ → SatInterface → SatInterface
unfolding add_lit
forbid_above var_map mode current zero s = s
forbid_above var_map mode current (suc upper) s =
    let rest =
      forbid_above var_map mode current upper (add_lit mode (neg (var_map (suc upper))) s) in
    if ltb current (suc upper) then rest else s

-- One round: the state that the solver gets.
pub probe : (ℕ → ℤ) → ConstraintAddition → ℕ → ℕ → ℕ → SatInterface → SatInterface
unfolding add_lit forbid_above
probe var_map transient original current upper s =
    add_lit transient (neg (var_map current)) (forbid_above var_map transient current original s)
probe var_map permanent original current upper s =
    add_lit permanent (neg (var_map current)) (forbid_above var_map permanent current upper s)

module _ (solver : List ℤ → List ℤ → ℤ) (decoded_length : List ℤ → List ℤ → ℕ) (var_map : ℕ → ℤ)
    (mode : ConstraintAddition) where
  -- `findMinBySat`, on the rounds that may be left.
  pub find_min : ℕ → ℕ → ℕ → ℕ → ℕ → SatInterface → Option (ℕ × SatInterface)
  unfolding probe
  find_min zero lower original upper current s = none
  find_min (suc fuel) lower original upper current s =
      let probed = probe var_map mode original current upper s in
      let (result, solved) = solve solver probed in
      let shorter = decoded_length probed.added probed.assumed in
      let further = find_min fuel lower original current shorter solved in
      if current == lower
      then some (current, s)
      else if result ≟ pos 10
      then further
      else some (current, solved)

  pub find_min_by_sat : ℕ → ℕ → SatInterface → Option (ℕ × SatInterface)
  unfolding find_min
  find_min_by_sat lower upper s = find_min (suc upper) lower upper upper upper s

-- `isEmptyAction`: the blank action and its repetitions. `name_of_repetition` is the instance's.
pub is_empty_action : USignature → (ℤ → ℤ) → (USignature → USignature → Bool) → USignature → Bool
is_empty_action blank name_of_repetition same sig =
    if same blank sig
    then true
    else if name_of_repetition sig.name_id ≟ blank.name_id
    then true
    else false

abbrev is_negative : ℤ → Bool
is_negative (pos n) = false
is_negative (negsuc n) = true

-- `getPlanLength`, for the tasks of the classical plan; the last one, the goal action, is not counted.
pub get_plan_length : (USignature → Bool) → List USignature → ℕ
get_plan_length is_empty [] = 0
get_plan_length is_empty (task ∷ []) = 0
get_plan_length is_empty (task ∷ next ∷ plan) =
    let rest = get_plan_length is_empty (next ∷ plan) in
    if is_negative task.name_id then rest else if not (is_empty task) then suc rest else rest
