-- ===== src/Sat/Encoding/Unify/Emitted.antt =====
-- The clauses and the literals of the unification of two effects (src/sat/encoding.cpp).
use lilotane_smt_csp.Prelude.{
  ap, Bool, true, false, not, List, [], ◌∷◌, ◌++◌, ℤ, int_eq, ◌≟◌, if◌then◌else◌, mem, ℕ, arith,
  ◌≤◌, length,
}
use lilotane_smt_csp.Sat.OrderedSets.{set_insert}
use lilotane_smt_csp.Sat.Clauses.{Clause}
use lilotane_smt_csp.Sat.Encoding.Emits.{Env, Does}
use lilotane_smt_csp.Sat.Encoding.Rules.{
  bind_rule, return_rule, var_subst_rule, if_rule, reads_known_rule,
}
use lilotane_smt_csp.Sat.Encoding.Equality.Emitted.{equality_clauses}
use lilotane_smt_csp.Sat.Encoding.Equality.Working.{working, equality_rule}
use lilotane_smt_csp.Sat.Encoding.Unify.{unify_q, unify_arg, unify_args}

module _ (domain : ℤ → List ℤ) (qs : List ℤ) where
  unfoldable pub unify_q_clauses : Bool → Bool → ℤ → ℤ → Env → List Clause
  unify_q_clauses true true x y ρ = (equality_clauses domain ρ x y ++ []) ++ []
  unify_q_clauses true false x y ρ = if not (mem y (domain x)) then [] else []
  unify_q_clauses false true x y ρ = if not (mem x (domain y)) then [] else []
  unify_q_clauses false false x y ρ = []

  unfoldable pub unify_q_value : Bool → Bool → ℤ → ℤ → Bool × List ℤ → Env → Bool × List ℤ
  unify_q_value true true x y (fits, s) ρ = (fits, set_insert (ρ.eq x y) s)
  unify_q_value true false x y (fits, s) ρ =
      if not (mem y (domain x)) then (false, s) else (fits, set_insert (ρ.sub x y) s)
  unify_q_value false true x y (fits, s) ρ =
      if not (mem x (domain y)) then (false, s) else (fits, set_insert (ρ.sub y x) s)
  unify_q_value false false x y (fits, s) ρ = (false, s)

  unfoldable pub unify_arg_clauses : ℤ → ℤ → Env → List Clause
  unfolding unify_q_clauses
  unify_arg_clauses x y ρ = if x ≟ y then [] else unify_q_clauses (mem x qs) (mem y qs) x y ρ

  unfoldable pub unify_arg_value : ℤ → ℤ → Bool × List ℤ → Env → Bool × List ℤ
  unfolding unify_q_value
  unify_arg_value x y acc ρ = if x ≟ y then acc else unify_q_value (mem x qs) (mem y qs) x y acc ρ

  unfoldable pub unify_args_clauses : List ℤ → List ℤ → Env → List Clause
  unfolding unify_arg_clauses
  unify_args_clauses [] ys ρ = []
  unify_args_clauses (x ∷ xs) [] ρ = []
  unify_args_clauses (x ∷ xs) (y ∷ ys) ρ = unify_arg_clauses x y ρ ++ unify_args_clauses xs ys ρ

  unfoldable pub unify_args_value : List ℤ → List ℤ → Bool × List ℤ → Env → Bool × List ℤ
  unfolding unify_arg_value
  unify_args_value [] ys acc ρ = acc
  unify_args_value (x ∷ xs) [] acc ρ = acc
  unify_args_value (x ∷ xs) (y ∷ ys) acc ρ = unify_args_value xs ys (unify_arg_value x y acc ρ) ρ

  module _ (fs : List ℕ) where
    unify_q_rule :
        (b b' : Bool) (x y : ℤ) (acc : Bool × List ℤ)
        → Does
            (working domain qs fs)
            (unify_q domain b b' x y acc)
            (unify_q_clauses b b' x y)
            (unify_q_value b b' x y acc)
    unfolding unify_q unify_q_clauses unify_q_value
    unify_q_rule true true x y (fits, s) =
        let d =
          bind_rule (equality_rule domain qs fs x y) (λ l. return_rule (fits, set_insert l s)) in
        d
    unify_q_rule true false x y (fits, s) =
        let d =
          if_rule (not (mem y (domain x))) (return_rule {C = working domain qs fs} (false, s))
            (bind_rule (var_subst_rule x y) (λ l. return_rule (fits, set_insert l s))) in
        d
    unify_q_rule false true x y (fits, s) =
        let d =
          if_rule (not (mem x (domain y))) (return_rule {C = working domain qs fs} (false, s))
            (bind_rule (var_subst_rule y x) (λ l. return_rule (fits, set_insert l s))) in
        d
    unify_q_rule false false x y (fits, s) = return_rule (false, s)

    unify_arg_rule :
        (x y : ℤ) (acc : Bool × List ℤ)
        → Does
            (working domain qs fs)
            (unify_arg domain x y acc)
            (unify_arg_clauses x y)
            (unify_arg_value x y acc)
    unfolding unify_arg unify_arg_clauses unify_arg_value
    unify_arg_rule x y acc =
        let d = if_rule (x ≟ y) (return_rule {C = working domain qs fs} acc) (
          reads_known_rule (λ s. mem x s.q_constants) (mem x qs) _
            (λ s g. ap (mem x) g.q_constants_are)
            (reads_known_rule (λ s. mem y s.q_constants) (mem y qs) _
              (λ s g. ap (mem y) g.q_constants_are)
              (unify_q_rule (mem x qs) (mem y qs) x y acc))) in
        d

    pub unify_args_rule :
        (xs ys : List ℤ) (acc : Bool × List ℤ)
        → length xs ≤ length ys
        → Does
            (working domain qs fs)
            (unify_args domain xs ys acc)
            (unify_args_clauses xs ys)
            (unify_args_value xs ys acc)
    unfolding unify_args unify_args_clauses unify_args_value
    unify_args_rule [] ys acc h = return_rule acc
    unify_args_rule (x ∷ xs) [] acc h = absurd (omega (arith, h))
    unify_args_rule (x ∷ xs) (y ∷ ys) acc h =
        let d =
          bind_rule (unify_arg_rule x y acc) (λ a. unify_args_rule xs ys a (omega (arith, h))) in
        d
