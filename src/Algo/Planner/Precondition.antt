-- ===== src/Algo/Planner/Precondition.antt =====
-- The constraint that `addPrecondition` (src/algo/planner.cpp) builds for a precondition with
-- pseudo-constants. The decodings of the fact, as paths, and which of them can hold are parameters:
-- they come from the problem's instance and the fact analysis. That the relevant facts are
-- initialised is left out.
pub mod Exact
mod Examples
use lilotane_smt_csp.Prelude.{
  ℕ, zero, suc, ◌+◌, ◌*◌, ◌/◌, Bool, true, false, List, [], ◌∷◌, ℤ, if◌then◌else◌, ltb,
}
use lilotane_smt_csp.Data.SubstitutionConstraint.{
  Polarity, undecided, any_valid, no_invalid, IntPair, SubstitutionConstraint, new_constraint,
  add_valid, add_invalid, fix_polarity, same_polarity,
}

-- `sampleSize`
abbrev pub sample_size : ℕ
sample_size = 25

pub count_true : List Bool → ℕ
count_true [] = 0
count_true (true ∷ bs) = suc (count_true bs)
count_true (false ∷ bs) = count_true bs

-- The polarity, where the number of decodings makes it worth while to look at a sample: `sample` says
-- which of the sampled decodings can hold.
pub sampled_polarity : ℕ → List Bool → Polarity
unfolding count_true
sampled_polarity total_size sample =
    if ltb (2 * sample_size) total_size
    then (if ltb (count_true sample) (sample_size / 2) then any_valid else no_invalid)
    else undecided

-- The loop's body for one decoding: `reachable` says whether it can hold.
pub add_decoding : Polarity → Bool → List IntPair → SubstitutionConstraint → SubstitutionConstraint
add_decoding polarity reachable path c =
    if reachable
    then (if same_polarity polarity no_invalid then c else add_valid path c)
    else if same_polarity polarity any_valid
    then c
    else add_invalid path c

pub add_decodings :
    Polarity
    → (List IntPair → Bool)
    → List (List IntPair)
    → SubstitutionConstraint
    → SubstitutionConstraint
unfolding add_decoding
add_decodings polarity reachable [] c = c
add_decodings polarity reachable (path ∷ paths) c =
    add_decodings polarity reachable paths (add_decoding polarity (reachable path) path c)

-- The whole: the polarity is fixed before the loop if it has been sampled, and after it if not.
pub precondition_constraint :
    List ℤ → Polarity → (List IntPair → Bool) → List (List IntPair) → SubstitutionConstraint
unfolding add_decodings
precondition_constraint involved polarity reachable paths =
    let c = new_constraint involved in
    let start = (if same_polarity polarity undecided then c else fix_polarity polarity c) in
    let filled = add_decodings polarity reachable paths start in
    if same_polarity polarity undecided then fix_polarity undecided filled else filled
