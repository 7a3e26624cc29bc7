-- ===== src/Sat/BinaryAmo/Examples.antt =====
-- Three states over two digits, and the theorems at them (the sizes of src/test/test_binary_amo.cpp
-- are larger, the shape is the same).
use lilotane_smt_csp.Prelude.{
  ℕ, ◌≤◌, ◌<◌, ◌≡◌, refl, ◌⊎◌, true, false, List, [], ◌∷◌, some, ℤ, pos, negsuc, ◌==◌, ltb, ◌||◌,
  ◌&&◌, get_elem?, xor, arith,
}
use lilotane_smt_csp.Sat.Clauses.{Assignment, holds, cnf_holds}
use lilotane_smt_csp.Sat.VariableDomain.{VariableDomain}
use lilotane_smt_csp.Sat.BinaryAmo.{binary_at_most_one, encode}
use lilotane_smt_csp.Sat.BinaryAmo.Digits.{value, NonZero}
use lilotane_smt_csp.Sat.BinaryAmo.Correct.{
  marks, encode-holds, encode-at_most_one, encode-some_state,
}
use lilotane_smt_csp.Sat.BinaryAmo.Complete.{encode_complete}

abbrev three : List ℤ
three = pos 1 ∷ pos 2 ∷ pos 3 ∷ []

abbrev from_four : VariableDomain
from_four = record { running_var_id = 4; locked = false }

three-NonZero : NonZero three
three-NonZero = (λ e. ground arith, (λ e. ground arith, (λ e. ground arith, tt)))

-- State 1, the variable 2, holds; the digits 4 and 5 spell it.
abbrev second : Assignment
second x = x == 2 || x == 4

encode-three :
    encode (binary_at_most_one three 3 from_four).0
    ≡ (negsuc 0 ∷ negsuc 3 ∷ [])
      ∷ (negsuc 0 ∷ negsuc 4 ∷ [])
      ∷ (pos 4 ∷ pos 5 ∷ pos 1 ∷ [])
      ∷ (negsuc 1 ∷ pos 4 ∷ [])
      ∷ (negsuc 1 ∷ negsuc 4 ∷ [])
      ∷ (negsuc 3 ∷ pos 5 ∷ pos 2 ∷ [])
      ∷ (negsuc 2 ∷ negsuc 3 ∷ [])
      ∷ (negsuc 2 ∷ pos 5 ∷ [])
      ∷ (pos 4 ∷ negsuc 4 ∷ pos 3 ∷ [])
      ∷ (negsuc 4 ∷ negsuc 3 ∷ [])
      ∷ []
unfolding encode binary_at_most_one xor
encode-three = refl

second_holds : cnf_holds second (encode (binary_at_most_one three 3 from_four).0) ≡ true
unfolding encode binary_at_most_one xor
second_holds = refl

encode-holds_example : cnf_holds second (encode (binary_at_most_one three 3 from_four).0) ≡ (
    ltb (value second (binary_at_most_one three 3 from_four).0.bin_num_vars) 3
    && marks second (value second (binary_at_most_one three 3 from_four).0.bin_num_vars) 0 three)
encode-holds_example =
    encode-holds second three 3 from_four (omega arith) (omega arith) three-NonZero (omega arith)

encode-at_most_one_example : ◌≡◌ {A = ℕ} 1 1
encode-at_most_one_example =
    encode-at_most_one second three 3 from_four (omega arith) (omega arith) three-NonZero
      (omega arith) second_holds 1 1 (pos 2) (pos 2) refl refl refl refl

encode-some_state_example :
    (i : ℕ) × (a : ℤ) × (get_elem? three i ≡ some a) × (holds second a ≡ true)
encode-some_state_example =
    encode-some_state second three 3 from_four (omega arith) refl three-NonZero (omega arith)
      second_holds

-- Before the helper variables are set.
abbrev third : Assignment
third x = x == 3

third-marks : marks third 2 0 three ≡ true
unfolding marks
third-marks = refl

encode_complete_example :
    (τ : Assignment) × ((x : ℕ)
      → (x < 4) ⊎ ((binary_at_most_one three 3 from_four).1.running_var_id ≤ x)
      → τ x ≡ third x)
    × (cnf_holds τ (encode (binary_at_most_one three 3 from_four).0) ≡ true)
encode_complete_example =
    encode_complete third three 3 2 from_four (omega arith) (omega arith) three-NonZero
      (omega arith) (omega arith) (omega arith) third-marks
