-- ===== src/Sat/PlanOptimizer/Rounds.antt =====
-- What the rounds of the search (src/sat/plan_optimizer.cpp) keep, for a solver that answers as IPASIR
-- describes it and clauses that count the length of a plan.
use lilotane_smt_csp.Prelude.{
  ℕ, ◌≤◌, ◌<◌, ◌≡◌, ◌≢◌, ap, ◌⊎◌, true, false, ◌&&◌, List, ℤ, pos, neg, int_eq, ◌==◌, arith,
}
use lilotane_smt_csp.Sat.Clauses.{Assignment, holds, holds-neg}
use lilotane_smt_csp.Sat.SatInterface.{SatInterface, solve}
use lilotane_smt_csp.Sat.SatInterface.Stream.{formula}
use lilotane_smt_csp.Sat.PlanOptimizer.{ConstraintAddition, transient, permanent, probe}
use lilotane_smt_csp.Sat.PlanOptimizer.Probing.{
  IsClosed, clauses_hold, assumptions_hold, absent-each, absent-all, top, excluded, is_kept,
  kept-forbids, probe-IsClosed, probe-holds, probe-clauses_hold,
}

-- The solver, as IPASIR describes it, when it is not interrupted: it answers 10, and the clauses and the
-- assumptions hold in the model it gives, or 20, and no assignment makes them hold.
pub record IsSolver (solver : List ℤ → List ℤ → ℤ) (model : List ℤ → List ℤ → Assignment)
    : Type 0 where
  pub answers :
      (added assumed : List ℤ) → (solver added assumed ≡ pos 10) ⊎ (solver added assumed ≡ pos 20)
  pub sat :
      (s : SatInterface)
      → IsClosed s
      → solver s.added s.assumed ≡ pos 10
      → (clauses_hold (model s.added s.assumed) s && assumptions_hold (model s.added s.assumed) s)
        ≡ true
  pub unsat :
      (s : SatInterface)
      → IsClosed s
      → solver s.added s.assumed ≡ pos 20
      → (σ : Assignment) → (clauses_hold σ s && assumptions_hold σ s) ≡ false

module _ (var_map : ℕ → ℤ) (plan_length : Assignment → ℕ) (lower upper : ℕ) where
  -- The clauses count: where they hold, the plan is as long as one of the lengths that the variables
  -- admit says, and that is within the bounds.
  pub record IsCounting (s : SatInterface) : Type 0 where
    pub counted :
        (σ : Assignment) → clauses_hold σ s ≡ true → holds σ (var_map (plan_length σ)) ≡ true
    pub bounded :
        (σ : Assignment)
        → clauses_hold σ s ≡ true
        → (lower ≤ plan_length σ) × (plan_length σ ≤ upper)

  -- The assignment is a plan that the search starts with: the clauses and the pending assumptions
  -- hold, and no other length's variable does.
  pub record IsPlan (s : SatInterface) (σ : Assignment) : Type 0 where
    pub clauses : clauses_hold σ s ≡ true
    pub assumptions : assumptions_hold σ s ≡ true
    pub only : (n : ℕ) → n ≤ upper → (n == plan_length σ) ≡ false → holds σ (var_map n) ≡ false

module _ (solver : List ℤ → List ℤ → ℤ) (model : List ℤ → List ℤ → Assignment)
    (plan_length : Assignment → ℕ) (var_map : ℕ → ℤ) (decides : IsSolver solver model)
    (nonzero : (n : ℕ) → var_map n ≢ pos 0) (lower original : ℕ) (s : SatInterface)
    (counting : IsCounting var_map plan_length lower original s) where
  abbrev pub Plan : Assignment → Type 0
  Plan σ = IsPlan var_map plan_length lower original s σ

  abbrev pub decoded_length : List ℤ → List ℤ → ℕ
  decoded_length added assumed = plan_length (model added assumed)

  -- Between two rounds: the clauses are those from before, with the lengths above `top` excluded, and
  -- admit every shorter plan.
  pub record IsRound (mode : ConstraintAddition) (current upper : ℕ) (t : SatInterface)
      : Type 0 where
    pub closed : IsClosed t
    pub ordered : (current ≤ upper) × (upper ≤ original)
    pub sound : (σ : Assignment) → clauses_hold σ t ≡ true → clauses_hold σ s ≡ true
    pub forbidden :
        (σ : Assignment)
        → clauses_hold σ t ≡ true
        → (n : ℕ) → top mode original upper < n
        → n ≤ original
        → holds σ (neg (var_map n)) ≡ true
    pub complete :
        (σ : Assignment)
        → Plan σ
        → plan_length σ < current
        → (clauses_hold σ t && assumptions_hold σ t) ≡ true

  module _ (mode : ConstraintAddition) (current upper : ℕ) (t : SatInterface)
      (round : IsRound mode current upper t) where
    abbrev p : SatInterface
    p = probe var_map mode original current upper t

    pub p-IsClosed : IsClosed p
    p-IsClosed =
        probe-IsClosed var_map (λ n. true) nonzero mode original current upper t round.closed

    asked :
        (σ : Assignment)
        → (clauses_hold σ p && assumptions_hold σ p) ≡ (
            clauses_hold σ t
            && assumptions_hold σ t
            && excluded var_map σ nonzero mode original current upper)
    asked σ = probe-holds var_map σ nonzero mode original current upper t round.closed

    excluded-Plan :
        (σ : Assignment)
        → Plan σ
        → plan_length σ < current
        → excluded var_map σ nonzero mode original current upper ≡ true
    unfolding excluded
    excluded-Plan σ plan h = ground (
      arith,
      absent-all var_map σ current (top mode original upper)
          (λ n a b. off n (omega (arith, a, h)) (bound mode n b)),
      off current h (omega (arith, round.ordered)),
    )
      where
        off : (n : ℕ) → plan_length σ < n → n ≤ original → holds σ (neg (var_map n)) ≡ true
        off n a b =
            let other = plan.only n b (ground (arith, a)) in
            ground (arith, holds-neg σ (var_map n) (nonzero n), other)

        bound : (m : ConstraintAddition) (n : ℕ) → n ≤ top m original upper → n ≤ original
        bound transient n b = b
        bound permanent n b = omega (arith, b, round.ordered)

    -- A plan that is shorter is not excluded.
    pub admitted :
        (σ : Assignment)
        → Plan σ
        → plan_length σ < current
        → (clauses_hold σ p && assumptions_hold σ p) ≡ true
    admitted σ plan h = ground (arith, asked σ, round.complete σ plan h, excluded-Plan σ plan h)

    -- What the solver finds is shorter.
    pub found_shorter :
        (σ : Assignment)
        → (clauses_hold σ p && assumptions_hold σ p) ≡ true
        → (clauses_hold σ s ≡ true) × (plan_length σ < current)
    unfolding excluded
    found_shorter σ h =
        let on : clauses_hold σ t ≡ true = ground (arith, asked σ, h) in
        let clauses = round.sound σ on in
        let counted = counting.counted σ clauses in
        let negated = holds-neg σ (var_map (plan_length σ)) (nonzero (plan_length σ)) in
        let bounds = counting.bounded σ clauses in
        let out : excluded var_map σ nonzero mode original current upper ≡ true =
          ground (arith, asked σ, h) in
        (
          clauses,
          ground (
            arith,
            counted,
            negated,
            bounds.1,
            absent-each var_map σ current (top mode original upper) (plan_length σ),
            round.forbidden σ on (plan_length σ),
            out,
            this_one,
          ),
        )
      where
        this_one :
            plan_length σ ≡ current
            → holds σ (neg (var_map (plan_length σ))) ≡ holds σ (neg (var_map current))
        this_one e = ap (λ n. holds σ (neg (var_map n))) e

    abbrev solved : SatInterface
    solved = (solve solver p).1

    kept :
        (σ : Assignment)
        → clauses_hold σ solved
          ≡ (clauses_hold σ t && is_kept var_map σ nonzero mode original current upper)
    unfolding solve formula
    kept σ = probe-clauses_hold var_map σ nonzero mode original current upper t round.closed

    pub solved-IsRound : (shorter : ℕ) → shorter < current → IsRound mode shorter current solved
    unfolding solve formula is_kept
    solved-IsRound shorter less = record {
      closed = p-IsClosed;
      ordered = (omega arith, omega (arith, round.ordered));
      sound = λ σ h. round.sound σ (ground (arith, kept σ, h));
      forbidden = λ σ h.
          kept-forbids var_map σ nonzero mode original current upper (ground (arith, kept σ, h))
            (round.forbidden σ (ground (arith, kept σ, h)));
      complete =
          λ σ plan h. let on = admitted σ plan (omega (arith, h, less)) in ground (arith, on);
    }
