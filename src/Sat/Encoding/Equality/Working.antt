-- ===== src/Sat/Encoding/Equality/Working.antt =====
-- The states that the passes over a position go from (src/sat/encoding.cpp).
use lilotane_smt_csp.Prelude.{◌≡◌, ◌<◌, ◌∙◌, List, [], ◌++◌, ℤ, arith, ℕ, int_eq, pair_eq}
use lilotane_smt_csp.Sat.Encoding.{Encoder}
use lilotane_smt_csp.Sat.Encoding.Emits.{Change, Does, Does-weaken, Context}
use lilotane_smt_csp.Sat.Encoding.Equality.{encode_q_const_equality}
use lilotane_smt_csp.Sat.Encoding.Equality.Emitted.{
  Known, Known-Change, knowing, equality_clauses, encode_q_const_equality_rule,
}

module _ (domain : ℤ → List ℤ) where
  -- What the passes over a position go from: the recorded equalities are known, the sets that the
  -- pass only reads are given, and no variable is 0.
  pub record Working (q_constants : List ℤ) (new_fact_vars : List ℕ) (s : Encoder) : Type 0 where
    pub known : Known domain s
    pub q_constants_are : s.q_constants ≡ q_constants
    pub new_fact_vars_are : s.new_fact_vars ≡ new_fact_vars
    pub counting : 0 < s.vars.domain.running_var_id

  pub Working-Change :
      (qs : List ℤ) (fs : List ℕ) (s t : Encoder)
      → Change (equality_clauses domain) s t
      → Working qs fs s
      → Working qs fs t
  Working-Change qs fs s t c w = record {
    known = Known-Change domain s t c w.known;
    q_constants_are = c.q_constants ∙ w.q_constants_are;
    new_fact_vars_are = c.new_fact_vars ∙ w.new_fact_vars_are;
    counting = omega (arith, w.counting, c.grows.counter);
  }

  abbrev pub working : List ℤ → List ℕ → Context
  working qs fs = record {
    equality_clauses = equality_clauses domain;
    Good = Working qs fs;
    keep = Working-Change qs fs;
  }

  pub equality_rule :
      (qs : List ℤ) (fs : List ℕ) (q r : ℤ)
      → Does
          (working qs fs)
          (encode_q_const_equality domain q r)
          (λ ρ. equality_clauses domain ρ q r ++ [])
          (λ ρ. ρ.eq q r)
  equality_rule qs fs q r =
      let d =
        Does-weaken {C = knowing domain} (Working qs fs) (Working-Change qs fs) (λ s w. w.known)
          (encode_q_const_equality_rule domain q r) in
      d
