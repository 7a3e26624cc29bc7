-- ===== src/Sat/PlanOptimizer/Minimum.antt =====
-- The search (src/sat/plan_optimizer.cpp) ends with a shortest plan.
use lilotane_smt_csp.Prelude.{
  ℕ, zero, suc, ◌+◌, ◌≤◌, ◌<◌, ◌≡◌, ◌≢◌, refl, ◌∙◌, ◌⊎◌, inl, inr, true, List, ℤ, pos, int_eq, ◌==◌,
  ==_iff, arith, Bool-cases, some,
}
use lilotane_smt_csp.Sat.Clauses.{Assignment}
use lilotane_smt_csp.Sat.SatInterface.{SatInterface, solve}
use lilotane_smt_csp.Sat.PlanOptimizer.{
  ConstraintAddition, transient, permanent, probe, find_min, find_min_by_sat,
}
use lilotane_smt_csp.Sat.PlanOptimizer.Probing.{IsClosed, clauses_hold, top}
use lilotane_smt_csp.Sat.PlanOptimizer.Rounds.{
  IsSolver, IsCounting, IsPlan, Plan, decoded_length, IsRound, p-IsClosed, admitted, found_shorter,
  solved-IsRound,
}

module _ (solver : List ℤ → List ℤ → ℤ) (model : List ℤ → List ℤ → Assignment)
    (plan_length : Assignment → ℕ) (var_map : ℕ → ℤ) (decides : IsSolver solver model)
    (nonzero : (n : ℕ) → var_map n ≢ pos 0) (lower original : ℕ) (s : SatInterface)
    (counting : IsCounting var_map plan_length lower original s) where
  -- What is promised of the length that the search returns.
  abbrev pub IsShortest : ℕ → Type 0
  IsShortest r =
      ((r ≡ original) ⊎ ((σ : Assignment) × (clauses_hold σ s ≡ true) × (plan_length σ ≡ r)))
      × ((σ : Assignment)
          → Plan solver model plan_length var_map decides nonzero lower original s counting σ
          → r ≤ plan_length σ)

  abbrev Found : ConstraintAddition → ℕ → ℕ → ℕ → SatInterface → Type 0
  Found mode fuel current upper t =
      (r : ℕ) × (u : SatInterface) × (find_min solver
          (decoded_length solver model plan_length var_map decides nonzero lower original s
            counting)
          var_map mode fuel lower original upper current t
        ≡ some (r, u))
      × IsShortest r

  find_min-IsShortest :
      (fuel : ℕ) (mode : ConstraintAddition) (current upper : ℕ) (t : SatInterface)
      → IsRound solver model plan_length var_map decides nonzero lower original s counting mode
          current upper t
      → current < lower + fuel
      → lower ≤ current
      → (current ≡ original)
        ⊎ ((σ : Assignment) × (clauses_hold σ s ≡ true) × (plan_length σ ≡ current))
      → Found mode fuel current upper t
  unfolding find_min solve
  find_min-IsShortest zero mode current upper t round h l a = absurd (omega arith)
  find_min-IsShortest (suc fuel) mode current upper t round h l a =
      elim (Bool-cases (current == lower)) [
        | inl hit ↦ (
          current,
          t,
          ground (arith, hit),
          (
            a,
            λ σ plan.
                omega (arith, (==_iff current lower).0 hit, (counting.bounded σ plan.clauses).0),
          ),
        )
        | inr miss ↦ elim (decides.answers q.added q.assumed) [
          | inl sat ↦
              let μ = model q.added q.assumed in
              let shorter =
                found_shorter solver model plan_length var_map decides nonzero lower original s
                  counting mode current upper t round μ
                  (decides.sat q
                    (p-IsClosed solver model plan_length var_map decides nonzero lower original s
                      counting mode current upper t round)
                    sat) in
              let (r, u, e, best) =
                find_min-IsShortest fuel mode (plan_length μ) current (solve solver q).1
                  (solved-IsRound solver model plan_length var_map decides nonzero lower original s
                    counting mode current upper t round (plan_length μ) shorter.1)
                  (omega (arith, h, shorter.1)) (counting.bounded μ shorter.0).0
                  (inr (μ, shorter.0, refl)) in
              (r, u, ground (arith, sat, miss) ∙ e, best)
          | inr unsat ↦ (
            current,
            (solve solver q).1,
            ground (arith, unsat, miss),
            (
              a,
              λ σ plan.
                  let no =
                    decides.unsat q
                      (p-IsClosed solver model plan_length var_map decides nonzero lower original s
                        counting mode current upper t round)
                      unsat σ in
                  ground (
                    arith,
                    no,
                    admitted solver model plan_length var_map decides nonzero lower original s
                        counting mode current upper t round σ plan,
                  ),
            ),
          )
        ]
      ]
    where
      q : SatInterface
      q = probe var_map mode original current upper t

-- The search ends within as many rounds as the bound has lengths, for a solver that is not interrupted,
-- where no clause is open and the clauses count the plan's length: where they hold, with the pending
-- assumptions or without them, the variable of the plan's length holds, and that length is within the
-- bounds. Its result is the upper bound or the length of a plan under which the clauses hold, and no
-- plan that the search starts with, under whose assignment also the pending assumptions hold and no
-- other length's variable, is shorter; whether the excluded lengths are added as clauses or assumed.
pub find_min_by_sat-IsShortest :
    (solver : List ℤ → List ℤ → ℤ) (model : List ℤ → List ℤ → Assignment)
    (plan_length : Assignment → ℕ) (var_map : ℕ → ℤ) (mode : ConstraintAddition) (lower upper : ℕ)
    (s : SatInterface)
    → IsSolver solver model
    → ((n : ℕ) → var_map n ≢ pos 0)
    → IsCounting var_map plan_length lower upper s
    → lower ≤ upper
    → IsClosed s
    → (r : ℕ) × (t : SatInterface) × (find_min_by_sat solver
          (λ added assumed. plan_length (model added assumed))
          var_map
          mode
          lower
          upper
          s
        ≡ some (r, t))
      × (((r ≡ upper) ⊎ ((σ : Assignment) × (clauses_hold σ s ≡ true) × (plan_length σ ≡ r)))
          × ((σ : Assignment) → IsPlan var_map plan_length lower upper s σ → r ≤ plan_length σ))
unfolding find_min_by_sat
find_min_by_sat-IsShortest solver model plan_length var_map mode lower upper s decides nonzero
      counting ordered closed =
    find_min-IsShortest solver model plan_length var_map decides nonzero lower upper s counting
      (suc upper) mode upper upper s (round mode) (omega arith) ordered (inl refl)
  where
    nothing : (k : ConstraintAddition) (n : ℕ) {A : Type 0} → top k upper upper < n → n ≤ upper → A
    nothing transient n a b = absurd (omega arith)
    nothing permanent n a b = absurd (omega arith)

    round :
        (m : ConstraintAddition)
        → IsRound solver model plan_length var_map decides nonzero lower upper s counting m upper
            upper s
    round m = record {
      closed = closed;
      ordered = (omega arith, omega arith);
      sound = λ σ h. h;
      forbidden = λ σ h n a b. nothing m n a b;
      complete = λ σ plan h. ground (arith, plan.clauses, plan.assumptions);
    }
