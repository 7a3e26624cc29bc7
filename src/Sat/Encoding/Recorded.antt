-- ===== src/Sat/Encoding/Recorded.antt =====
-- The literals that a state of the encoding (src/sat/encoding.cpp) records, for examples.
use lilotane_smt_csp.Prelude.{
  ◌≡◌, ◌≢◌, refl, ap, sym, subst, true, List, [], ◌∷◌, ℤ, pos, negsuc, ℕ, zero, suc, ◌<◌, Option,
  none, some, All, mem, lookup, int_eq, pair_eq, Eq, ◌≟◌, ≟_sound, Bool-cases, inl, inr, arith,
}
use lilotane_smt_csp.Sat.VariableProvider.Run.{State, initial, variable_for, pair_for, of_equality}
use lilotane_smt_csp.Data.Signature.{usig_eq}
use lilotane_smt_csp.Sat.VariableProvider.{new_provider}
use lilotane_smt_csp.Sat.Encoding.{Encoder}
use lilotane_smt_csp.Sat.Encoding.Emits.{Env, Agrees}
use lilotane_smt_csp.Sat.Encoding.Equality.Meaning.{IsReal}
use lilotane_smt_csp.Sat.Encoding.Equality.Emitted.{Known, empty-Known}

abbrev pub recorded_literal : Option ℕ → ℤ
recorded_literal none = negsuc 0
recorded_literal (some v) = pos v

abbrev pub env_of : State → Env
env_of s = record {
  sub = λ q c. recorded_literal (variable_for (pair_for q c s) s.provider);
  eq = λ q r. recorded_literal (variable_for (of_equality (q, r)) s.provider);
}

pub env_of-Agrees : (s : State) → Agrees (env_of s) s
env_of-Agrees s = record {
  sub = λ q c v h. ap recorded_literal h;
  eq = λ q r v h. ap recorded_literal h;
}

recorded_literal-real : (o : Option ℕ) → o ≢ some 0 → recorded_literal o ≢ pos 0
recorded_literal-real none h e = cc e
recorded_literal-real (some zero) h e = h refl
recorded_literal-real (some (suc v)) h e = cc e

lookup-positive :
    {K : Type 0} ⦃e : Eq K⦄ (k : K) (t : List (K × ℕ)) → All (λ x. 0 < x.1) t → lookup k t ≢ some 0
unfolding lookup
lookup-positive k [] p = λ h. cc h
lookup-positive k ((k', v) ∷ t) p = elim (Bool-cases (k ≟ k')) [
  | inl same ↦ rw same (λ h. let z : v ≡ 0 = cc h in omega (arith, z, p.0))
  | inr other ↦ rw other (lookup-positive k t p.1)
]

-- No variable is 0.
abbrev pub AllPositive : State → Type 0
AllPositive s =
    All (λ x. 0 < x.1) s.provider.substitution_variables
    × All (λ x. 0 < x.1) s.provider.q_equality_variables

pub env_of-IsReal : (s : State) → AllPositive s → IsReal (env_of s)
unfolding variable_for pair_for
env_of-IsReal s p = record {
  sub = λ q c.
      recorded_literal-real (variable_for (pair_for q c s) s.provider)
        (lookup-positive _ s.provider.substitution_variables p.0);
  eq = λ q r.
      recorded_literal-real (variable_for (of_equality (q, r)) s.provider)
        (lookup-positive (q, r) s.provider.q_equality_variables p.1);
}

-- A property of the members of a list.
pub by_members : (P : ℤ → Type 0) (xs : List ℤ) → All P xs → (x : ℤ) → mem x xs ≡ true → P x
unfolding mem
by_members P [] h x m = cc m
by_members P (y ∷ xs) h x m = elim (Bool-cases (x ≟ y)) [
  | inl same ↦ subst P (sym (≟_sound x y same)) h.0
  | inr other ↦ by_members P xs h.1 x (rw other at m)
]

abbrev pub start : Encoder
start = record {
  vars = initial (pos 1) (pos 2);
  clauses = [];
  new_fact_vars = [];
  q_constants = [];
  new_q_constants = [];
  primitive_ops = [];
  nonprimitive_ops = [];
}

-- Nothing is recorded at the start.
pub start-Known : (domain : ℤ → List ℤ) → Known domain start
unfolding initial new_provider
start-Known domain = empty-Known domain start refl
