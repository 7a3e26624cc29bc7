-- ===== src/Sat/Encoding/AtMostOne/Ensured.antt =====
-- The at-most-one constraints as steps of the encoding (src/sat/encoding.cpp).
use lilotane_smt_csp.Prelude.{
  refl, sym, ◌∙◌, List, [], ◌∷◌, ℤ, neg, ℕ, suc, leb, int_eq, length, arith, Bool-cases, inl, inr,
  &&-eq-true,
}
use lilotane_smt_csp.Sat.Clauses.{cnf_holds}
use lilotane_smt_csp.Sat.BinaryAmo.{binary_at_most_one, encode}
use lilotane_smt_csp.Sat.BinaryAmo.Correct.{binary_at_most_one-IsBuilt}
use lilotane_smt_csp.Sat.OrderedSets.{less}
use lilotane_smt_csp.Sat.Encoding.{Encoder}
use lilotane_smt_csp.Sat.Encoding.ConcatMap.{concat_map, concat_map-clauses}
use lilotane_smt_csp.Sat.Encoding.Emits.{Change, Change-trans, Does}
use lilotane_smt_csp.Sat.Encoding.Rules.{
  bind_rule, return_rule, add_clause_rule, for_each_rule, if_rule,
}
use lilotane_smt_csp.Sat.Encoding.Equality.Emitted.{equality_clauses}
use lilotane_smt_csp.Sat.Encoding.Equality.Working.{working, Working, Working-Change}
use lilotane_smt_csp.Sat.Encoding.Ensures.{Ensures, Secures, ensured, Ensures-if, Ensures-less}
use lilotane_smt_csp.Sat.Encoding.AtMostOne.{
  new_amo, binary_amo, forbid_both, naive_amo, naive_ordered, element_amo, substitution_amo,
}
use lilotane_smt_csp.Sat.Encoding.AtMostOne.Exclusive.{are_proper, excludes, binary-is_exclusive}
use lilotane_smt_csp.Sat.Encoding.AtMostOne.Naive.{
  ordered_clauses, naive_clauses, ordered-is_exclusive, naive-is_exclusive,
}

module _ (domain : ℤ → List ℤ) (qs : List ℤ) (fs : List ℕ) where
  naive_amo_rule :
      (ls : List ℤ) → Does (working domain qs fs) (naive_amo ls) (λ ρ. naive_clauses ls) (λ ρ. tt)
  unfolding naive_amo naive_clauses forbid_both
  naive_amo_rule [] = return_rule tt
  naive_amo_rule (l ∷ ls) =
      let d =
        bind_rule
          (for_each_rule {C = working domain qs fs} ls (λ k. add_clause_rule (neg l ∷ neg k ∷ [])))
          (λ _. naive_amo_rule ls) in
      d

  naive_ordered_rule :
      (ls : List ℤ)
      → Does
          (working domain qs fs)
          (naive_ordered ls)
          (λ ρ. concat_map (ordered_clauses ls) ls)
          (λ ρ. tt)
  unfolding naive_ordered ordered_clauses forbid_both
  naive_ordered_rule ls =
      let d = for_each_rule ls (λ l. for_each_rule ls (λ k.
        if_rule (less l k) (add_clause_rule {C = working domain qs fs} (neg l ∷ neg k ∷ []))
          (return_rule tt))) in
      d

  binary_amo-Secures :
      (ls : List ℤ) (s : Encoder)
      → Working domain qs fs s
      → Secures (working domain qs fs) (binary_amo ls) s (excludes ls) (λ ρ. tt)
  unfolding binary_amo new_amo excludes
  binary_amo-Secures ls s w =
      let b = (binary_at_most_one ls (suc (length ls)) s.vars.domain).0 in
      let d = (binary_at_most_one ls (suc (length ls)) s.vars.domain).1 in
      let s' = record s { vars = record s.vars { domain = d } } in
      let built = binary_at_most_one-IsBuilt ls (suc (length ls)) s.vars.domain in
      let counted : Change (equality_clauses domain) s s' = record {
        grows = record {
          name = refl;
          counter = omega (arith, built.fresh);
          sub = λ sig v h. h;
          eq = λ q r v h. h;
        };
        q_constants = refl;
        new_fact_vars = refl;
        implied = λ σ h. h;
        known = λ q r v h. inl h;
      } in
      let e =
        (for_each_rule {C = working domain qs fs} (encode b) add_clause_rule).from s'
          (Working-Change domain qs fs s s' counted w) in
      record {
        result = tt;
        after = e.after;
        runs = e.runs;
        change = Change-trans (equality_clauses domain) s s' e.after counted e.change;
        valued = λ ρ a. refl;
        secured = λ ρ σ real a h. elim (Bool-cases (are_proper ls)) [
          | inr improper ↦ ground (arith, improper)
          | inl proper ↦
              let both =
                (&&-eq-true (cnf_holds σ s.clauses)
                    (cnf_holds σ (concat_map (λ c. c ∷ []) (encode b)))).0
                  (sym (e.says ρ σ a) ∙ h) in
              let yes_ls =
                binary-is_exclusive σ ls s.vars.domain w.counting proper
                  (sym (concat_map-clauses σ (encode b)) ∙ both.1) in
              ground (arith, yes_ls)
        ];
      }

  -- Whichever constraint the number of literals selects: the literals exclude each other.
  pub element_amo-Ensures :
      (bamot : ℕ) (ls : List ℤ)
      → Ensures (working domain qs fs) (element_amo bamot ls) (excludes ls) (λ ρ. tt)
  unfolding element_amo excludes
  element_amo-Ensures bamot ls =
      let d =
        Ensures-if (leb bamot (length ls)) (λ many. record { from = binary_amo-Secures ls })
          (λ few.
            ensured (λ ρ. naive_clauses ls) (excludes ls)
              (λ ρ σ real h. ground (arith, naive-is_exclusive σ ls, h)) (naive_amo_rule ls)) in
      Ensures-less _ (excludes ls) (λ ρ σ real h. ground (arith, h)) d

  pub substitution_amo-Ensures :
      (bamot : ℕ) (ls : List ℤ)
      → Ensures (working domain qs fs) (substitution_amo bamot ls) (excludes ls) (λ ρ. tt)
  unfolding substitution_amo excludes
  substitution_amo-Ensures bamot ls =
      let d =
        Ensures-if (leb bamot (length ls)) (λ many. record { from = binary_amo-Secures ls })
          (λ few.
            ensured (λ ρ. concat_map (ordered_clauses ls) ls) (excludes ls)
              (λ ρ σ real h. ground (arith, ordered-is_exclusive σ ls ls, h))
              (naive_ordered_rule ls)) in
      Ensures-less _ (excludes ls) (λ ρ σ real h. ground (arith, h)) d
