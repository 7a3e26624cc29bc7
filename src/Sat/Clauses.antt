-- ===== src/Sat/Clauses.antt =====
-- Clauses as the SAT interface takes them (src/sat/sat_interface.h), and what it means that an
-- assignment satisfies them. Literals are the solver's: a variable or its negation, never 0.
use lilotane_smt_csp.Prelude.{
  ℕ, zero, suc, ◌<◌, ◌≡◌, refl, ◌≢◌, Bool, not, List, [], ◌∷◌, map, ℤ, pos, negsuc, neg, any, all,
  arith,
}

abbrev pub Clause : Type 0
Clause = List ℤ

abbrev pub Assignment : Type 0
Assignment = ℕ → Bool

abbrev pub holds : Assignment → ℤ → Bool
holds σ (pos n) = σ n
holds σ (negsuc n) = not (σ (suc n))

abbrev pub clause_holds : Assignment → Clause → Bool
clause_holds σ = any (holds σ)

abbrev pub cnf_holds : Assignment → List Clause → Bool
cnf_holds σ = all (clause_holds σ)

pub holds-neg : (σ : Assignment) (l : ℤ) → l ≢ pos 0 → holds σ (neg l) ≡ not (holds σ l)
holds-neg σ (pos zero) h = absurd (h refl)
holds-neg σ (pos (suc n)) h = refl
holds-neg σ (negsuc n) h = ground arith

pub holds-neg_pos : (σ : Assignment) (v : ℕ) → 0 < v → holds σ (neg (pos v)) ≡ not (σ v)
holds-neg_pos σ zero h = absurd (omega arith)
holds-neg_pos σ (suc v) h = refl

-- Literals of variables.
module _ (σ : Assignment) {X : Type 0} (v : X → ℕ) where
  pub any-vars : (xs : List X) → any (holds σ) (map (λ x. pos (v x)) xs) ≡ any (λ x. σ (v x)) xs
  any-vars [] = refl
  any-vars (x ∷ xs) = ground (arith, any-vars xs)
