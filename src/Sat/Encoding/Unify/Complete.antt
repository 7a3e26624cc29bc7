-- ===== src/Sat/Encoding/Unify/Complete.antt =====
-- When the clauses hold that the unification of two effects adds (src/sat/encoding.cpp): they only
-- define the literals of equalities.
use lilotane_smt_csp.Prelude.{
  ◌≡◌, refl, Bool, true, false, List, [], ◌∷◌, ◌++◌, ℤ, int_eq, ◌≟◌, mem, all-append, arith,
  Bool-cases, inl, inr,
}
use lilotane_smt_csp.Sat.Clauses.{Assignment, holds, clause_holds, cnf_holds}
use lilotane_smt_csp.Sat.Encoding.Emits.{Env}
use lilotane_smt_csp.Sat.Encoding.Equality.Emitted.{equality_clauses}
use lilotane_smt_csp.Sat.Encoding.Equality.Meaning.{IsReal, Chooses, equality_clauses-hold}
use lilotane_smt_csp.Sat.Encoding.Unify.Emitted.{
  unify_q_clauses, unify_arg_clauses, unify_args_clauses,
}

module _ (domain : ℤ → List ℤ) (qs : List ℤ) (ρ : Env) (σ : Assignment) (real : IsReal ρ)
    (chosen : ℤ → ℤ) (choice : (q : ℤ) → mem q qs ≡ true → Chooses domain ρ σ q (chosen q)) where
  -- The literals of equalities of two pseudo-constants hold exactly where the same constants are chosen.
  unfoldable pub Equates : Type 0
  Equates =
      (q r : ℤ)
      → mem q qs ≡ true
      → mem r qs ≡ true
      → q ≟ r ≡ false
      → holds σ (ρ.eq q r) ≡ (chosen q ≟ chosen r)

  module _ (equates : Equates) where
    unify_q_clauses-hold :
        (b b' : Bool) (x y : ℤ)
        → mem x qs ≡ b
        → mem y qs ≡ b'
        → x ≟ y ≡ false
        → cnf_holds σ (unify_q_clauses domain qs b b' x y ρ) ≡ true
    unfolding unify_q_clauses Equates
    unify_q_clauses-hold true true x y h h' other = ground (
      arith,
      all-append (clause_holds σ) (equality_clauses domain ρ x y ++ []) [],
      all-append (clause_holds σ) (equality_clauses domain ρ x y) [],
      equality_clauses-hold domain ρ σ real x y (chosen x) (chosen y) (choice x h) (choice y h'),
      equates x y h h' other,
    )
    unify_q_clauses-hold true false x y h h' other = ground arith
    unify_q_clauses-hold false true x y h h' other = ground arith
    unify_q_clauses-hold false false x y h h' other = refl

    unify_arg_clauses-hold : (x y : ℤ) → cnf_holds σ (unify_arg_clauses domain qs x y ρ) ≡ true
    unfolding unify_arg_clauses
    unify_arg_clauses-hold x y = elim (Bool-cases (x ≟ y)) [
      | inl same ↦ rw same refl
      | inr other ↦ rw other (unify_q_clauses-hold (mem x qs) (mem y qs) x y refl refl other)
    ]

    pub unify_args_clauses-hold :
        (xs ys : List ℤ) → cnf_holds σ (unify_args_clauses domain qs xs ys ρ) ≡ true
    unfolding unify_args_clauses
    unify_args_clauses-hold [] ys = refl
    unify_args_clauses-hold (x ∷ xs) [] = refl
    unify_args_clauses-hold (x ∷ xs) (y ∷ ys) = ground (
      arith,
      all-append (clause_holds σ) (unify_arg_clauses domain qs x y ρ)
          (unify_args_clauses domain qs xs ys ρ),
      unify_arg_clauses-hold x y,
      unify_args_clauses-hold xs ys,
    )
