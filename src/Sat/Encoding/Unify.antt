-- ===== src/Sat/Encoding/Unify.antt =====
-- When the arguments of two effects are the same (src/sat/encoding.cpp): the inner loop of
-- `encodeActionEffects`.
pub mod Emitted
pub mod Meaning
pub mod Complete
use lilotane_smt_csp.Prelude.{
  Bool, true, false, not, List, [], ◌∷◌, ℤ, int_eq, ◌≟◌, if◌then◌else◌, mem, none,
}
use lilotane_smt_csp.Sat.OrderedSets.{set_insert}
use lilotane_smt_csp.Sat.Encoding.{Encoder, M, ◌>>=◌, ◌>>◌, return, var_subst, reads}
use lilotane_smt_csp.Sat.Encoding.Equality.{encode_q_const_equality}

module _ (domain : ℤ → List ℤ) where
  -- One argument that differs, with which of the two are pseudo-constants.
  unfoldable pub unify_q : Bool → Bool → ℤ → ℤ → Bool × List ℤ → M (Bool × List ℤ)
  unify_q true true eff_arg pos_arg (fits, s) = do
    l ← encode_q_const_equality domain eff_arg pos_arg
    return (fits, set_insert l s)
  unify_q true false eff_arg pos_arg (fits, s) =
      if not (mem pos_arg (domain eff_arg))
      then return (false, s)
      else (do l ← var_subst eff_arg pos_arg; return (fits, set_insert l s))
  unify_q false true eff_arg pos_arg (fits, s) =
      if not (mem eff_arg (domain pos_arg))
      then return (false, s)
      else (do l ← var_subst pos_arg eff_arg; return (fits, set_insert l s))
  unify_q false false eff_arg pos_arg (fits, s) = return (false, s)

  unfoldable pub unify_arg : ℤ → ℤ → Bool × List ℤ → M (Bool × List ℤ)
  unfolding unify_q
  unify_arg eff_arg pos_arg acc = if eff_arg ≟ pos_arg then return acc else do
    eff_is_q ← reads (λ s. mem eff_arg s.q_constants)
    pos_is_q ← reads (λ s. mem pos_arg s.q_constants)
    unify_q eff_is_q pos_is_q eff_arg pos_arg acc

  -- `fits`, and the literals; an argument out of range has no result.
  unfoldable pub unify_args : List ℤ → List ℤ → Bool × List ℤ → M (Bool × List ℤ)
  unfolding unify_arg
  unify_args [] ys acc = return acc
  unify_args (x ∷ xs) [] acc = λ s. none
  unify_args (x ∷ xs) (y ∷ ys) acc = unify_arg x y acc >>= unify_args xs ys
