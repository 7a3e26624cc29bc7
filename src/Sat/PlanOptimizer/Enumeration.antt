-- ===== src/Sat/PlanOptimizer/Enumeration.antt =====
-- A solver for the search of src/sat/plan_optimizer.cpp that tries every assignment: it decides as
-- IPASIR describes it.
use lilotane_smt_csp.Prelude.{
  ℕ, zero, suc, ◌≤◌, ◌<◌, ◌≡◌, refl, ap, ap₂, sym, ◌∙◌, inl, inr, Bool, true, false, ◌&&◌, List, [],
  ◌∷◌, ℤ, pos, negsuc, if◌then◌else◌, ◌==◌, ltb, all, any, arith, Option, none, some, Bool-cases,
  Option-cases,
}
use lilotane_smt_csp.Sat.Clauses.{Clause, Assignment, holds, cnf_holds}
use lilotane_smt_csp.Sat.SatInterface.Stream.{formula, read_numbers}
use lilotane_smt_csp.Sat.PlanOptimizer.Rounds.{IsSolver}

larger : ℕ → ℕ → ℕ
larger a b = if ltb a b then b else a

-- More than every variable.
literals_bound : List ℤ → ℕ
unfolding larger
literals_bound [] = 0
literals_bound (pos n ∷ ls) = larger (suc n) (literals_bound ls)
literals_bound (negsuc n ∷ ls) = larger (suc (suc n)) (literals_bound ls)

clauses_bound : List Clause → ℕ
unfolding larger literals_bound
clauses_bound [] = 0
clauses_bound (c ∷ cs) = larger (literals_bound c) (clauses_bound cs)

with_value : ℕ → Bool → Assignment → Assignment
with_value v b σ n = if n == v then b else σ n

-- The assignments of the variables below a bound, for one that meets the test.
try_all : ℕ → (Assignment → Bool) → Assignment → Option Assignment
unfolding with_value
try_all zero check σ = if check σ then some σ else none
try_all (suc v) check σ =
    let negative = try_all v check (with_value v false σ) in
    elim (try_all v check (with_value v true σ)) [ some τ ↦ some τ | none ↦ negative ]

all_hold : List ℤ → List ℤ → Assignment → Bool
all_hold added assumed σ = cnf_holds σ (read_numbers ([], []) added).0 && all (holds σ) assumed

found : List ℤ → List ℤ → Option Assignment
unfolding try_all larger clauses_bound all_hold
found added assumed =
    try_all (larger (clauses_bound (read_numbers ([], []) added).0) (literals_bound assumed))
      (all_hold added assumed) (λ n. false)

pub solver : List ℤ → List ℤ → ℤ
unfolding found
solver added assumed = elim (found added assumed) [ none ↦ pos 20 | some τ ↦ pos 10 ]

pub model : List ℤ → List ℤ → Assignment
unfolding found
model added assumed = elim (found added assumed) [ none ↦ λ n. false | some τ ↦ τ ]

module _ (σ τ : Assignment) (bound : ℕ) (agree : (n : ℕ) → n < bound → σ n ≡ τ n) where
  any-agrees : (ls : List ℤ) → literals_bound ls ≤ bound → any (holds σ) ls ≡ any (holds τ) ls
  unfolding literals_bound larger
  any-agrees [] h = refl
  any-agrees (pos n ∷ ls) h = ground (arith, any-agrees ls, agree n, h)
  any-agrees (negsuc n ∷ ls) h = ground (arith, any-agrees ls, agree (suc n), h)

  all-agrees : (ls : List ℤ) → literals_bound ls ≤ bound → all (holds σ) ls ≡ all (holds τ) ls
  unfolding literals_bound larger
  all-agrees [] h = refl
  all-agrees (pos n ∷ ls) h = ground (arith, all-agrees ls, agree n, h)
  all-agrees (negsuc n ∷ ls) h = ground (arith, all-agrees ls, agree (suc n), h)

  cnf-agrees : (cs : List Clause) → clauses_bound cs ≤ bound → cnf_holds σ cs ≡ cnf_holds τ cs
  unfolding clauses_bound larger
  cnf-agrees [] h = refl
  cnf-agrees (c ∷ cs) h = ground (arith, any-agrees c, cnf-agrees cs, h)

module _ (check : Assignment → Bool) where
  try_all_sound : (v : ℕ) (σ τ : Assignment) → try_all v check σ ≡ some τ → check τ ≡ true
  unfolding try_all
  try_all_sound zero σ τ h = elim (Bool-cases (check σ)) [
    | inl yes_σ ↦ let same : σ ≡ τ = ground arith in ap check (sym same) ∙ yes_σ
    | inr no_σ ↦ ground arith
  ]
  try_all_sound (suc v) σ τ h = elim (Option-cases (try_all v check (with_value v true σ))) [
    | inl nothing ↦ try_all_sound v (with_value v false σ) τ (ground arith)
    | inr (ρ, e) ↦ try_all_sound v (with_value v true σ) τ (ground arith)
  ]

  try_all_complete :
      (bound : ℕ)
      → ((σ τ : Assignment) → ((n : ℕ) → n < bound → σ n ≡ τ n) → check σ ≡ check τ)
      → (v : ℕ) (σ τ : Assignment) → ((n : ℕ) → v ≤ n → n < bound → σ n ≡ τ n)
      → try_all v check σ ≡ none
      → check τ ≡ false
  unfolding try_all with_value
  try_all_complete bound respects zero σ τ agree h =
      ground (arith, respects σ τ (λ n k. agree n (omega arith) k))
  try_all_complete bound respects (suc v) σ τ agree h =
      elim (Option-cases (try_all v check (with_value v true σ))) [
        | inr (ρ, e) ↦ ground arith
        | inl nothing ↦ elim (Bool-cases (τ v)) [
          | inl on ↦
              try_all_complete bound respects v (with_value v true σ) τ
                (λ n a b. ground (arith, agree n, here n true on)) nothing
          | inr off ↦
              try_all_complete bound respects v (with_value v false σ) τ
                (λ n a b. ground (arith, agree n, here n false off)) (ground arith)
        ]
      ]
    where
      here : (n : ℕ) (b : Bool) → τ v ≡ b → n ≡ v → τ n ≡ b
      here n b h e = ap τ e ∙ h

found-none :
    (added assumed : List ℤ) (τ : Assignment)
    → found added assumed ≡ none
    → all_hold added assumed τ ≡ false
unfolding found all_hold larger
found-none added assumed τ h =
    let cnf = (read_numbers ([], []) added).0 in
    let bound = larger (clauses_bound cnf) (literals_bound assumed) in
    try_all_complete (all_hold added assumed) bound
      (λ σ ρ agree.
        ap₂ ◌&&◌ (cnf-agrees σ ρ bound agree cnf (ground arith))
          (all-agrees σ ρ bound agree assumed (ground arith)))
      bound (λ n. false) τ (λ n a b. absurd (omega arith)) h

found-some :
    (added assumed : List ℤ) (τ : Assignment)
    → found added assumed ≡ some τ
    → all_hold added assumed τ ≡ true
unfolding found
found-some added assumed τ e =
    try_all_sound (all_hold added assumed)
      (larger (clauses_bound (read_numbers ([], []) added).0) (literals_bound assumed)) (λ n. false)
      τ e

pub solver-IsSolver : IsSolver solver model
unfolding solver model formula all_hold
solver-IsSolver = record {
  answers = λ added assumed. elim (Option-cases (found added assumed)) [
    | inl nothing ↦ inr (ground arith)
    | inr (τ, e) ↦ inl (ground arith)
  ];
  sat = λ s closed h. elim (Option-cases (found s.added s.assumed)) [
    | inl nothing ↦ let no : pos 20 ≡ pos 10 = rw (nothing, solver) at h in cc no
    | inr (τ, e) ↦ rw (e, model) (found-some s.added s.assumed τ e)
  ];
  unsat = λ s closed h σ. elim (Option-cases (found s.added s.assumed)) [
    | inl nothing ↦ found-none s.added s.assumed σ nothing
    | inr (τ, e) ↦ let no : pos 10 ≡ pos 20 = rw (e, solver) at h in cc no
  ];
}
