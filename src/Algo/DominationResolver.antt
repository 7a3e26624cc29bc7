-- ===== src/Algo/DominationResolver.antt =====
-- The comparison of two operators (src/algo/domination_resolver.h and .cpp): `getDominationStatus`. Which
-- arguments are pseudo-constants, where they come from and their domains are the instance's, and
-- parameters. `eliminateDominatedOperations` is left out.
pub mod Mixed
mod Examples
use lilotane_smt_csp.Prelude.{
  ℕ, Bool, true, false, not, ◌&&◌, ◌||◌, List, [], ◌∷◌, ◌++◌, ℤ, Option, none, some, if◌then◌else◌,
  ltb, length, all, mem, Eq, ◌≟◌, int_eq, pair_eq, nat_eq,
}
use lilotane_smt_csp.Data.Substitution.{Substitution, assign, lt_int}
use lilotane_smt_csp.Data.Signature.{USignature}

pub data DominationStatus : Type 0 where
  dominating : DominationStatus
  dominated : DominationStatus
  different : DominationStatus
  equivalent : DominationStatus

pub record DominationResult : Type 0 where
  pub status : DominationStatus
  pub qconst_substitutions : Substitution

abbrev pub is_dominated : DominationStatus → Bool
is_dominated dominating = false
is_dominated dominated = true
is_dominated different = false
is_dominated equivalent = false

-- Sets without repetitions: `for (c : b) if (!a.count(c))`, and `==`.
pub includes : List ℤ → List ℤ → Bool
includes a b = all (λ c. mem c a) b

-- What the loop over the arguments has so far; the pairs of arguments with equal domains last.
pub record Comparison : Type 0 where
  pub status : DominationStatus
  pub substitutions : Substitution
  pub same_domain : List (ℤ × ℤ)

-- The state before the loop.
abbrev pub start : Comparison
start = record { status = equivalent; substitutions = []; same_domain = [] }

module _ (is_q : ℤ → Bool) (origin : ℤ → ℕ × ℕ) (domain_of : ℤ → List ℤ) where
  -- The domain of a pseudo-constant, or the constant alone.
  pub domain : ℤ → List ℤ
  domain arg = if is_q arg then domain_of arg else arg ∷ []

  -- The loop's body for two different arguments; `none` where the result is returned at once.
  pub compare_domains : ℤ → ℤ → Comparison → Option Comparison
  unfolding domain includes
  compare_domains arg other c =
      if ltb (length (domain other)) (length (domain arg))
      then (if is_dominated c.status || not (includes (domain arg) (domain other))
          then none
          else some
              (record c { status = dominating; substitutions = assign other arg c.substitutions }))
      else if ltb (length (domain arg)) (length (domain other))
      then (if is_dominated c.status || not (includes (domain other) (domain arg))
          then none
          else some
              (record c { status = dominated; substitutions = assign arg other c.substitutions }))
      else if not (includes (domain arg) (domain other) && includes (domain other) (domain arg))
      then none
      else some (record c { same_domain = c.same_domain ++ ((arg, other) ∷ []) })

  pub compare_arg : ℤ → ℤ → Comparison → Option Comparison
  unfolding compare_domains
  compare_arg arg other c =
      if arg ≟ other
      then some c
      else if not (is_q arg) && not (is_q other)
      then none
      else if is_q arg && (is_q other && not (origin arg ≟ origin other))
      then none
      else compare_domains arg other c

  -- The loop: the last state, and whether it was left by a return.
  pub compare_args : List ℤ → List ℤ → Comparison → Bool × Comparison
  unfolding compare_arg
  compare_args (arg ∷ args) (other ∷ others) c = elim (compare_arg arg other c) [
    | none ↦ (true, c)
    | some c' ↦ compare_args args others c'
  ]
  compare_args args others c = (false, c)

  -- The lexicographic tie break.
  pub tie_break : List ℤ → List ℤ → DominationStatus
  tie_break (arg ∷ args) (other ∷ others) =
      let rest = tie_break args others in
      if not (arg ≟ other) then (if lt_int arg other then dominated else dominating) else rest
  tie_break args others = equivalent

  pub tie_substitutions : Bool → List ℤ → List ℤ → Substitution → Substitution
  tie_substitutions lost (arg ∷ args) (other ∷ others) s = tie_substitutions lost args others (
      if is_q (if lost then other else arg)
      then (if lost then assign arg other s else assign other arg s)
      else s)
  tie_substitutions lost args others s = s

  pub same_substitutions : Bool → List (ℤ × ℤ) → Substitution → Substitution
  same_substitutions lost [] s = s
  same_substitutions lost ((arg, other) ∷ pairs) s =
      same_substitutions lost pairs (if lost then assign arg other s else assign other arg s)

  pub finish : USignature → USignature → Comparison → DominationResult
  unfolding tie_break tie_substitutions same_substitutions
  finish op other c = elim c.status [
    | equivalent ↦
        let status = tie_break op.args other.args in
        record {
          status = status;
          qconst_substitutions =
              tie_substitutions (is_dominated status) op.args other.args c.substitutions;
        }
    | dominating ↦ record {
      status = dominating;
      qconst_substitutions = same_substitutions false c.same_domain c.substitutions;
    }
    | dominated ↦ record {
      status = dominated;
      qconst_substitutions = same_substitutions true c.same_domain c.substitutions;
    }
    | different ↦ record {
      status = different;
      qconst_substitutions = same_substitutions false c.same_domain c.substitutions;
    }
  ]

  pub get_domination_status : USignature → USignature → DominationResult
  unfolding compare_args finish
  get_domination_status op other =
      let (returned, c) = compare_args op.args other.args start in
      if not (op.name_id ≟ other.name_id)
      then record { status = different; qconst_substitutions = [] }
      else if returned
      then record { status = different; qconst_substitutions = c.substitutions }
      else finish op other c
