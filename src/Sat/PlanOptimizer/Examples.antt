-- ===== src/Sat/PlanOptimizer/Examples.antt =====
-- Two places for an action, of which one has to be taken (src/sat/plan_optimizer.cpp), with variables
-- that count the actions, and the pending assumption that the second one is.
use lilotane_smt_csp.Prelude.{
  ℕ, suc, ◌≤◌, ◌≡◌, refl, ◌⊎◌, inl, inr, true, [], ◌∷◌, ℤ, pos, negsuc, if◌then◌else◌, arith, some,
  Bool-cases, int_eq,
}
use lilotane_smt_csp.Sat.Clauses.{Assignment, holds}
use lilotane_smt_csp.Sat.EncodingStatistics.{new_statistics}
use lilotane_smt_csp.Sat.SatInterface.{SatInterface, new_interface}
use lilotane_smt_csp.Sat.SatInterface.Stream.{formula, read_numbers, read_number}
use lilotane_smt_csp.Sat.PlanOptimizer.{find_min_by_sat, transient}
use lilotane_smt_csp.Sat.PlanOptimizer.Probing.{IsClosed, clauses_hold}
use lilotane_smt_csp.Sat.PlanOptimizer.Rounds.{IsCounting, IsPlan}
use lilotane_smt_csp.Sat.PlanOptimizer.Minimum.{find_min_by_sat-IsShortest}
use lilotane_smt_csp.Sat.PlanOptimizer.Enumeration.{solver, model, solver-IsSolver}

abbrev var_map : ℕ → ℤ
var_map n = pos (suc n)

abbrev plan_length : Assignment → ℕ
plan_length σ = if σ 4 then (if σ 5 then 2 else 1) else (if σ 5 then 1 else 0)

abbrev counting_state : SatInterface
counting_state = record (new_interface new_statistics) {
  added =
      pos 4
      ∷ pos 5
      ∷ pos 0
      ∷ negsuc 3
      ∷ negsuc 4
      ∷ pos 3
      ∷ pos 0
      ∷ negsuc 3
      ∷ pos 5
      ∷ pos 2
      ∷ pos 0
      ∷ pos 4
      ∷ negsuc 4
      ∷ pos 2
      ∷ pos 0
      ∷ [];
  assumed = pos 5 ∷ [];
}

counts : IsCounting var_map plan_length 0 2 counting_state
unfolding formula read_numbers read_number new_interface
counts = record { counted = counted; bounded = λ σ h. bounded σ }
  where
    counted :
        (σ : Assignment)
        → clauses_hold σ counting_state ≡ true
        → holds σ (var_map (plan_length σ)) ≡ true
    counted σ h = elim (Bool-cases (σ 4)) [
      | inl first ↦ elim (Bool-cases (σ 5)) [
        | inl second ↦ rw (first, second) (ground (arith, h, first, second))
        | inr second ↦ rw (first, second) (ground (arith, h, first, second))
      ]
      | inr first ↦ elim (Bool-cases (σ 5)) [
        | inl second ↦ rw (first, second) (ground (arith, h, first, second))
        | inr second ↦ rw (first, second) (ground (arith, h, first, second))
      ]
    ]

    bounded : (σ : Assignment) → (0 ≤ plan_length σ) × (plan_length σ ≤ 2)
    bounded σ = elim (Bool-cases (σ 4)) [
      | inl first ↦ elim (Bool-cases (σ 5)) [
        | inl second ↦ rw (first, second) (omega arith, omega arith)
        | inr second ↦ rw (first, second) (omega arith, omega arith)
      ]
      | inr first ↦ elim (Bool-cases (σ 5)) [
        | inl second ↦ rw (first, second) (omega arith, omega arith)
        | inr second ↦ rw (first, second) (omega arith, omega arith)
      ]
    ]

counting_state-IsClosed : IsClosed counting_state
unfolding formula read_numbers read_number new_interface
counting_state-IsClosed = refl

find_min_by_sat-IsShortest_example :
    (r : ℕ) × (t : SatInterface) × (find_min_by_sat solver
        (λ added assumed. plan_length (model added assumed))
        var_map
        transient
        0
        2
        counting_state
      ≡ some (r, t))
    × (((r ≡ 2) ⊎ ((σ : Assignment) × (clauses_hold σ counting_state ≡ true) × (plan_length σ ≡ r)))
        × ((σ : Assignment) → IsPlan var_map plan_length 0 2 counting_state σ → r ≤ plan_length σ))
find_min_by_sat-IsShortest_example =
    find_min_by_sat-IsShortest solver model plan_length var_map transient 0 2 counting_state
      solver-IsSolver (λ n e. cc e) counts (omega arith) counting_state-IsClosed
