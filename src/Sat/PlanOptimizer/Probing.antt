-- ===== src/Sat/PlanOptimizer/Probing.antt =====
-- What the solver is asked in a round of the search (src/sat/plan_optimizer.cpp): the clauses and
-- assumptions from before, and that the plan has none of the lengths from the current one on.
use lilotane_smt_csp.Prelude.{
  ℕ, zero, suc, ◌≤◌, ◌<◌, ◌≡◌, ◌≢◌, refl, ap, ◌∙◌, Bool, true, not, ◌&&◌, [], ◌∷◌, ℤ, pos, negsuc,
  neg, if◌then◌else◌, ◌≟◌, int_eq, ltb, arith, Bool-cases, inl, inr, all, all-append,
}
use lilotane_smt_csp.Sat.Clauses.{Assignment, holds, clause_holds, cnf_holds}
use lilotane_smt_csp.Sat.SatInterface.{SatInterface, add_clause, assume}
use lilotane_smt_csp.Sat.SatInterface.Stream.{formula, formula-add_clause}
use lilotane_smt_csp.Sat.PlanOptimizer.{
  ConstraintAddition, transient, permanent, add_lit, forbid_above, probe,
}

-- No clause is open.
abbrev pub IsClosed : SatInterface → Type 0
IsClosed s = (formula s).1 ≡ []

-- The clauses that the solver was given hold.
abbrev pub clauses_hold : Assignment → SatInterface → Bool
clauses_hold σ s = cnf_holds σ (formula s).0

abbrev pub assumptions_hold : Assignment → SatInterface → Bool
assumptions_hold σ s = all (holds σ) s.assumed

neg_nonzero : (l : ℤ) → l ≢ pos 0 → not (neg l ≟ pos 0) ≡ true
neg_nonzero (pos zero) h = absurd (h refl)
neg_nonzero (pos (suc n)) h = refl
neg_nonzero (negsuc n) h = ground arith

module _ (σ : Assignment) (l : ℤ) (nonzero : l ≢ pos 0) where
  add_lit-IsClosed :
      (mode : ConstraintAddition) (s : SatInterface)
      → IsClosed s
      → IsClosed (add_lit mode (neg l) s)
  unfolding add_lit formula assume
  add_lit-IsClosed transient s c = c
  add_lit-IsClosed permanent s c =
      ap (λ r. r.1) (formula-add_clause (neg l ∷ []) s (ground (arith, neg_nonzero l nonzero)) c)

  add_lit-clauses_hold :
      (s : SatInterface)
      → IsClosed s
      → clauses_hold σ (add_lit permanent (neg l) s) ≡ (clauses_hold σ s && holds σ (neg l))
  unfolding add_lit
  add_lit-clauses_hold s c =
      ap (λ r. cnf_holds σ r.0)
        (formula-add_clause (neg l ∷ []) s (ground (arith, neg_nonzero l nonzero)) c)
      ∙ all-append (clause_holds σ) (formula s).0 ((neg l ∷ []) ∷ [])
      ∙ ground arith

  add_lit-holds :
      (mode : ConstraintAddition) (s : SatInterface)
      → IsClosed s
      → (clauses_hold σ (add_lit mode (neg l) s) && assumptions_hold σ (add_lit mode (neg l) s))
        ≡ (clauses_hold σ s && assumptions_hold σ s && holds σ (neg l))
  unfolding add_lit formula assume add_clause
  add_lit-holds transient s c = ground (arith, all-append (holds σ) s.assumed (neg l ∷ []))
  add_lit-holds permanent s c = ground (arith, add_lit-clauses_hold s c)

-- Where the loop of a round starts.
abbrev pub top : ConstraintAddition → ℕ → ℕ → ℕ
top transient original upper = original
top permanent original upper = upper

module _ (var_map : ℕ → ℤ) (σ : Assignment) where
  -- The lengths above `current`, up to `upper`, are excluded.
  pub absent : ℕ → ℕ → Bool
  absent current zero = true
  absent current (suc upper) =
      let rest = absent current upper in
      if ltb current (suc upper) then holds σ (neg (var_map (suc upper))) && rest else true

  pub absent-each :
      (current upper n : ℕ)
      → absent current upper ≡ true
      → current < n
      → n ≤ upper
      → holds σ (neg (var_map n)) ≡ true
  unfolding absent
  absent-each current zero n h a b = absurd (omega arith)
  absent-each current (suc upper) n h a b = ground (arith, h, absent-each current upper n, last)
    where
      last : n ≡ suc upper → holds σ (neg (var_map n)) ≡ holds σ (neg (var_map (suc upper)))
      last e = ap (λ m. holds σ (neg (var_map m))) e

  pub absent-all :
      (current upper : ℕ)
      → ((n : ℕ) → current < n → n ≤ upper → holds σ (neg (var_map n)) ≡ true)
      → absent current upper ≡ true
  unfolding absent
  absent-all current zero h = refl
  absent-all current (suc upper) h =
      ground (arith, absent-all current upper (λ n a b. h n a (omega (arith, b))), h (suc upper))

  module _ (nonzero : (n : ℕ) → var_map n ≢ pos 0) where
    forbid_above-IsClosed :
        (mode : ConstraintAddition) (current upper : ℕ) (s : SatInterface)
        → IsClosed s
        → IsClosed (forbid_above var_map mode current upper s)
    unfolding forbid_above
    forbid_above-IsClosed mode current zero s c = c
    forbid_above-IsClosed mode current (suc upper) s c =
        elim (Bool-cases (ltb current (suc upper))) [
          | inl more ↦ rw more (
              forbid_above-IsClosed mode current upper (add_lit mode (neg (var_map (suc upper))) s)
                (add_lit-IsClosed σ (var_map (suc upper)) (nonzero (suc upper)) mode s c))
          | inr done ↦ rw done c
        ]

    forbid_above-clauses_hold :
        (current upper : ℕ) (s : SatInterface)
        → IsClosed s
        → clauses_hold σ (forbid_above var_map permanent current upper s)
          ≡ (clauses_hold σ s && absent current upper)
    unfolding forbid_above absent
    forbid_above-clauses_hold current zero s c = ground arith
    forbid_above-clauses_hold current (suc upper) s c = ground (
      arith,
      forbid_above-clauses_hold current upper (add_lit permanent (neg (var_map (suc upper))) s)
          (add_lit-IsClosed σ (var_map (suc upper)) (nonzero (suc upper)) permanent s c),
      add_lit-clauses_hold σ (var_map (suc upper)) (nonzero (suc upper)) s c,
    )

    forbid_above-holds :
        (mode : ConstraintAddition) (current upper : ℕ) (s : SatInterface)
        → IsClosed s
        → let t = forbid_above var_map mode current upper s in
          (clauses_hold σ t && assumptions_hold σ t)
          ≡ (clauses_hold σ s && assumptions_hold σ s && absent current upper)
    unfolding forbid_above absent
    forbid_above-holds mode current zero s c = ground arith
    forbid_above-holds mode current (suc upper) s c = ground (
      arith,
      forbid_above-holds mode current upper (add_lit mode (neg (var_map (suc upper))) s)
          (add_lit-IsClosed σ (var_map (suc upper)) (nonzero (suc upper)) mode s c),
      add_lit-holds σ (var_map (suc upper)) (nonzero (suc upper)) mode s c,
    )

    forbid_above-added :
        (current upper : ℕ) (s : SatInterface)
        → (forbid_above var_map transient current upper s).added ≡ s.added
    unfolding forbid_above add_lit assume
    forbid_above-added current zero s = refl
    forbid_above-added current (suc upper) s =
        ground (
          arith,
          forbid_above-added current upper (add_lit transient (neg (var_map (suc upper))) s),
        )

    -- The current length and those above it are excluded.
    unfoldable pub excluded : ConstraintAddition → ℕ → ℕ → ℕ → Bool
    unfolding absent
    excluded mode original current upper =
        absent current (top mode original upper) && holds σ (neg (var_map current))

    pub probe-IsClosed :
        (mode : ConstraintAddition) (original current upper : ℕ) (s : SatInterface)
        → IsClosed s
        → IsClosed (probe var_map mode original current upper s)
    unfolding probe
    probe-IsClosed transient original current upper s c =
        add_lit-IsClosed σ (var_map current) (nonzero current) transient _
          (forbid_above-IsClosed transient current original s c)
    probe-IsClosed permanent original current upper s c =
        add_lit-IsClosed σ (var_map current) (nonzero current) permanent _
          (forbid_above-IsClosed permanent current upper s c)

    -- What the solver is asked.
    pub probe-holds :
        (mode : ConstraintAddition) (original current upper : ℕ) (s : SatInterface)
        → IsClosed s
        → let p = probe var_map mode original current upper s in
          (clauses_hold σ p && assumptions_hold σ p)
          ≡ (clauses_hold σ s && assumptions_hold σ s && excluded mode original current upper)
    unfolding probe excluded
    probe-holds transient original current upper s c = ground (
      arith,
      forbid_above-holds transient current original s c,
      add_lit-holds σ (var_map current) (nonzero current) transient
          (forbid_above var_map transient current original s)
          (forbid_above-IsClosed transient current original s c),
    )
    probe-holds permanent original current upper s c = ground (
      arith,
      forbid_above-holds permanent current upper s c,
      add_lit-holds σ (var_map current) (nonzero current) permanent
          (forbid_above var_map permanent current upper s)
          (forbid_above-IsClosed permanent current upper s c),
    )

    -- What is left of it after the solver's answer, when the assumptions are gone.
    unfoldable pub is_kept : ConstraintAddition → ℕ → ℕ → ℕ → Bool
    unfolding excluded
    is_kept transient original current upper = true
    is_kept permanent original current upper = excluded permanent original current upper

    pub probe-clauses_hold :
        (mode : ConstraintAddition) (original current upper : ℕ) (s : SatInterface)
        → IsClosed s
        → clauses_hold σ (probe var_map mode original current upper s)
          ≡ (clauses_hold σ s && is_kept mode original current upper)
    unfolding probe is_kept excluded add_lit assume formula
    probe-clauses_hold transient original current upper s c =
        ground (arith, forbid_above-added current original s)
    probe-clauses_hold permanent original current upper s c = ground (
      arith,
      forbid_above-clauses_hold current upper s c,
      add_lit-clauses_hold σ (var_map current) (nonzero current)
          (forbid_above var_map permanent current upper s)
          (forbid_above-IsClosed permanent current upper s c),
    )

    -- The lengths above the next round's start are excluded then.
    pub kept-forbids :
        (mode : ConstraintAddition) (original current upper : ℕ)
        → is_kept mode original current upper ≡ true
        → ((n : ℕ) → top mode original upper < n → n ≤ original → holds σ (neg (var_map n)) ≡ true)
        → (n : ℕ) → top mode original current < n
        → n ≤ original
        → holds σ (neg (var_map n)) ≡ true
    unfolding is_kept excluded
    kept-forbids transient original current upper k before n a b = absurd (omega arith)
    kept-forbids permanent original current upper k before n a b =
        ground (arith, k, absent-each current upper n, before n, a, b)
