-- ===== src/Sat/BinaryAmo/Digits.antt =====
-- What a helper clause of `BinaryAtMostOne` says of the number that the digits spell.
use native.Mathlib.Nat.{pow-suc}
use lilotane_smt_csp.Prelude.{
  ℕ, ◌+◌, ◌*◌, ◌/◌, ◌%◌, ◌^◌, ◌<◌, ◌≡◌, ◌≢◌, Bool, true, false, not, ◌||◌, List, [], ◌∷◌, ◌++◌, map,
  ℤ, pos, neg, ◌==◌, xor, iff, if◌then◌else◌, length, arith, all-append, any-append,
}
use lilotane_smt_csp.Sat.Clauses.{Assignment, holds, clause_holds, cnf_holds, holds-neg}
use lilotane_smt_csp.Sat.BinaryAmo.{get_clause, state_clauses}

abbrev pub digit : Bool → ℕ
digit true = 1
digit false = 0

-- The number that the digits spell, the first digit the lowest.
unfoldable pub value : Assignment → List ℤ → ℕ
value σ [] = 0
value σ (v ∷ vs) = digit (holds σ v) + 2 * value σ vs

abbrev pub NonZero : List ℤ → Type 0
NonZero [] = Unit {0}
NonZero (v ∷ vs) = (v ≢ pos 0) × NonZero vs

pub value-lt : (σ : Assignment) (vs : List ℤ) → value σ vs < 2 ^ length vs
unfolding value
value-lt σ [] = omega arith
value-lt σ (v ∷ vs) = rw pow-suc (ground (arith, value-lt σ vs))

pub get_clause-holds :
    (σ : Assignment) (k : ℕ) (vs : List ℤ)
    → NonZero vs
    → k < 2 ^ length vs
    → clause_holds σ (get_clause k false vs) ≡ not (value σ vs == k)
unfolding value get_clause xor
get_clause-holds σ k [] nz h = ground arith
get_clause-holds σ k (v ∷ vs) nz h =
    ground (arith, holds-neg σ v nz.0, pow-suc 2 (length vs), get_clause-holds σ (k / 2) vs nz.1)

get_clause-NonZero :
    (k : ℕ) (sign : Bool) (vs : List ℤ) → NonZero vs → NonZero (get_clause k sign vs)
unfolding get_clause
get_clause-NonZero k sign [] nz = tt
get_clause-NonZero k sign (v ∷ vs) nz =
    (choice (xor (not sign) (k % 2 == 1)), get_clause-NonZero (k / 2) sign vs nz.1)
  where
    neg_ne : (l : ℤ) → l ≢ pos 0 → neg l ≢ pos 0
    neg_ne l h e = ground arith

    choice : (b : Bool) → (if b then v else neg v) ≢ pos 0
    choice true = nz.0
    choice false = neg_ne v nz.0

implies_all :
    (σ : Assignment) (l : ℤ) (ds : List ℤ)
    → l ≢ pos 0
    → NonZero ds
    → cnf_holds σ (map (λ d. neg l ∷ neg d ∷ []) ds) ≡ (not (holds σ l) || not (clause_holds σ ds))
implies_all σ l [] h nz = ground arith
implies_all σ l (d ∷ ds) h nz =
    ground (arith, holds-neg σ l h, holds-neg σ d nz.0, implies_all σ l ds h nz.1)

-- The clauses of one state: it holds exactly if the digits spell its number.
pub state_clauses-holds :
    (σ : Assignment) (k : ℕ) (l : ℤ) (vs : List ℤ)
    → NonZero vs
    → l ≢ pos 0
    → k < 2 ^ length vs
    → cnf_holds σ (state_clauses vs k l) ≡ iff (holds σ l) (value σ vs == k)
unfolding state_clauses
state_clauses-holds σ k l vs nz h lt =
    let digits = get_clause k false vs in
    ground (
      arith,
      all-append (clause_holds σ) (map (λ d. neg l ∷ neg d ∷ []) digits) ((digits ++ l ∷ []) ∷ []),
      any-append (holds σ) digits (l ∷ []),
      implies_all σ l digits h (get_clause-NonZero k false vs nz),
      get_clause-holds σ k vs nz lt,
    )
