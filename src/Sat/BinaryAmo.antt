-- ===== src/Sat/BinaryAmo.antt =====
-- The binary at-most-one encoding (src/sat/binary_amo.cpp): a number in binary digits, one helper
-- variable each, names the one state that holds. Sizes are below 2^30, so that the code's `int`
-- differences and shifts do not overflow.
pub mod Digits
pub mod Blocks
pub mod Correct
pub mod Complete
mod Examples
use lilotane_smt_csp.Prelude.{
  ℕ, zero, suc, ◌-◌, ◌*◌, ◌/◌, ◌%◌, ◌^◌, Bool, false, not, xor, List, [], ◌∷◌, ◌++◌, map, reverse,
  ℤ, pos, neg, ltb, leb, ◌==◌, if◌then◌else◌, length, take,
}
use lilotane_smt_csp.Sat.Clauses.{Clause}
use lilotane_smt_csp.Sat.VariableDomain.{VariableDomain, next_var}

pub record BinaryAtMostOne : Type 0 where
  pub states : List ℤ
  pub num_states : ℕ
  pub num_repr_states : ℕ
  pub bin_num_vars : List ℤ

-- The `while` loop of the constructor: `_num_repr_states` doubles with each new variable.
pub add_digits : ℕ → ℕ → ℕ → List ℤ → VariableDomain → ℕ × List ℤ × VariableDomain
add_digits zero num_states repr vars d = (repr, vars, d)
add_digits (suc fuel) num_states repr vars d =
    let rest =
      add_digits fuel num_states (repr * 2) (vars ++ pos (next_var d).0 ∷ []) (next_var d).1 in
    if ltb repr num_states then rest else (repr, vars, d)

-- The constructor. `numStates` rounds are enough for its loop.
pub binary_at_most_one : List ℤ → ℕ → VariableDomain → BinaryAtMostOne × VariableDomain
unfolding add_digits
binary_at_most_one states num_states d =
    let (repr, vars, d') = add_digits num_states num_states 1 [] d in
    (
      record {
        states = states;
        num_states = num_states;
        num_repr_states = repr;
        bin_num_vars = vars;
      },
      d',
    )

-- `getClause`: digit `i` of `state`, negated or not, on the `i`-th helper variable.
pub get_clause : ℕ → Bool → List ℤ → Clause
get_clause state sign [] = []
get_clause state sign (v ∷ vs) =
    (if xor (not sign) (state % 2 == 1) then v else neg v) ∷ get_clause (state / 2) sign vs

-- The clauses of one state: it implies each digit, and the digits imply it.
pub state_clauses : List ℤ → ℕ → ℤ → List Clause
unfolding get_clause
state_clauses vars state l =
    let digit_vars = get_clause state false vars in
    map (λ d. neg l ∷ neg d ∷ []) digit_vars ++ (digit_vars ++ l ∷ []) ∷ []

-- The `for` loop over the states, from `state` on.
pub all_state_clauses : List ℤ → ℕ → List ℤ → List Clause
unfolding state_clauses
all_state_clauses vars state [] = []
all_state_clauses vars state (l ∷ ls) =
    state_clauses vars state l ++ all_state_clauses vars (suc state) ls

-- The `while` loop that forbids blocks of unused numbers below `first_forbidden`. The first
-- argument is `blockSize + 1`.
pub forbid_blocks : List ℤ → ℕ → ℕ → ℕ → List Clause
unfolding get_clause
forbid_blocks vars num_states zero first_forbidden = []
forbid_blocks vars num_states (suc block_size) first_forbidden =
    let block = 2 ^ block_size in
    let next = first_forbidden - block in
    let taken =
      take (length vars - block_size) (reverse (get_clause next false vars))
      ∷ forbid_blocks vars num_states block_size next in
    let skipped = forbid_blocks vars num_states block_size first_forbidden in
    if first_forbidden - num_states == 0
    then []
    else if leb block (first_forbidden - num_states)
    then taken
    else skipped

pub encode : BinaryAtMostOne → List Clause
unfolding all_state_clauses forbid_blocks
encode b =
    if leb b.num_states 1
    then []
    else all_state_clauses b.bin_num_vars 0 b.states
      ++ forbid_blocks b.bin_num_vars b.num_states (suc (length b.bin_num_vars)) b.num_repr_states
