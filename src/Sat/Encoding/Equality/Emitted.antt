-- ===== src/Sat/Encoding/Equality/Emitted.antt =====
-- The clauses of `encodeQConstEquality` (src/sat/encoding.cpp).
use lilotane_smt_csp.Prelude.{
  ◌≡◌, refl, ap, sym, ◌∙◌, true, false, ◌&&◌, List, [], ◌∷◌, ◌++◌, ℤ, pos, neg, some, none, ◌⊎◌,
  inl, inr, subst, arith, ℕ, Bool-cases, if◌then◌else◌, int_eq, pair_eq, ◌≟◌, lookup, lookup-put,
  has_key-cases, ≟_sound, ≟_refl,
}
use lilotane_smt_csp.Data.SubstitutionConstraint.{IntPair}
use lilotane_smt_csp.Sat.Clauses.{Clause, Assignment, cnf_holds}
use lilotane_smt_csp.Sat.VariableProvider.{
  VariableProvider, is_q_constant_equality_encoded, encode_q_constant_equality_var,
}
use lilotane_smt_csp.Sat.VariableProvider.Run.{
  State, known_equality, variable_for, of_equality, equate, ask,
}
use lilotane_smt_csp.Sat.Encoding.{Encoder, ◌>>◌, return, encode_equality_var, equality_var}
use lilotane_smt_csp.Sat.Encoding.ConcatMap.{concat_map}
use lilotane_smt_csp.Sat.Encoding.Emits.{
  Env, Agrees, Grows, Grows-refl, Emits-then, Agrees-Grows, Grows-trans, Change, Emits, Does,
  Context,
}
use lilotane_smt_csp.Sat.Encoding.Rules.{
  bind_rule, add_clause_rule, for_each_rule, var_subst_rule, reads_rule,
}
use lilotane_smt_csp.Sat.Encoding.Equality.{
  common, missing, equivalent, implies_equality, implies_inequality, relate, encode_equality,
  encode_q_const_equality,
}

unfoldable pub equivalent_clauses : ℤ → ℤ → ℤ → ℤ → Env → List Clause
equivalent_clauses eq q1 q2 c ρ =
    (neg eq ∷ ρ.sub q1 c ∷ neg (ρ.sub q2 c) ∷ [])
    ∷ (neg eq ∷ neg (ρ.sub q1 c) ∷ ρ.sub q2 c ∷ [])
    ∷ []

unfoldable pub implies_equality_clauses : ℤ → ℤ → ℤ → ℤ → Env → List Clause
implies_equality_clauses eq q1 q2 c ρ = (neg (ρ.sub q1 c) ∷ neg (ρ.sub q2 c) ∷ eq ∷ []) ∷ []

unfoldable pub implies_inequality_clauses : ℤ → ℤ → ℤ → Env → List Clause
implies_inequality_clauses eq q c ρ = (neg (ρ.sub q c) ∷ neg eq ∷ []) ∷ []

module _ (domain : ℤ → List ℤ) where
  unfoldable pub relate_clauses : ℤ → ℤ → ℤ → List ℤ → Env → List Clause
  relate_clauses eq q1 q2 [] ρ = (neg eq ∷ []) ∷ []
  relate_clauses eq q1 q2 (c ∷ cs) ρ =
      concat_map (λ d. equivalent_clauses eq q1 q2 d ρ) (c ∷ cs)
      ++ (concat_map (λ d. implies_equality_clauses eq q1 q2 d ρ) (c ∷ cs)
          ++ (concat_map (λ d. implies_inequality_clauses eq q1 d ρ)
                (missing (domain q1) (domain q2))
              ++ concat_map (λ d. implies_inequality_clauses eq q2 d ρ)
                  (missing (domain q2) (domain q1))))

  unfoldable pub equality_clauses : Env → ℤ → ℤ → List Clause
  equality_clauses ρ q r = relate_clauses (ρ.eq q r) q r (common (domain q) (domain r)) ρ

module _ {C : Context} where
  equivalent_rule :
      (eq q1 q2 c : ℤ) → Does C (equivalent eq q1 q2 c) (equivalent_clauses eq q1 q2 c) (λ ρ. tt)
  unfolding equivalent equivalent_clauses
  equivalent_rule eq q1 q2 c =
      let d = bind_rule (var_subst_rule {C = C} q1 c) (λ v1. bind_rule (var_subst_rule q2 c) (λ v2.
        bind_rule (add_clause_rule (neg eq ∷ v1 ∷ neg v2 ∷ []))
          (λ _. add_clause_rule (neg eq ∷ neg v1 ∷ v2 ∷ [])))) in
      d

  implies_equality_rule :
      (eq q1 q2 c : ℤ)
      → Does C (implies_equality eq q1 q2 c) (implies_equality_clauses eq q1 q2 c) (λ ρ. tt)
  unfolding implies_equality implies_equality_clauses
  implies_equality_rule eq q1 q2 c =
      let d = bind_rule (var_subst_rule {C = C} q1 c) (λ v1.
        bind_rule (var_subst_rule q2 c) (λ v2. add_clause_rule (neg v1 ∷ neg v2 ∷ eq ∷ []))) in
      d

  implies_inequality_rule :
      (eq q c : ℤ)
      → Does C (implies_inequality eq q c) (implies_inequality_clauses eq q c) (λ ρ. tt)
  unfolding implies_inequality implies_inequality_clauses
  implies_inequality_rule eq q c =
      let d = bind_rule (var_subst_rule {C = C} q c) (λ v. add_clause_rule (neg v ∷ neg eq ∷ [])) in
      d

  relate_rule :
      (domain : ℤ → List ℤ) (eq q1 q2 : ℤ) (cs : List ℤ)
      → Does C (relate domain eq q1 q2 cs) (relate_clauses domain eq q1 q2 cs) (λ ρ. tt)
  unfolding relate relate_clauses
  relate_rule domain eq q1 q2 [] = add_clause_rule (neg eq ∷ [])
  relate_rule domain eq q1 q2 (c ∷ cs) =
      let d = bind_rule (for_each_rule (c ∷ cs) (equivalent_rule eq q1 q2)) (λ _.
        bind_rule (for_each_rule (c ∷ cs) (implies_equality_rule eq q1 q2)) (λ _.
          bind_rule
            (for_each_rule (missing (domain q1) (domain q2)) (implies_inequality_rule eq q1))
            (λ _.
              for_each_rule (missing (domain q2) (domain q1)) (implies_inequality_rule eq q2)))) in
      d

module _ (domain : ℤ → List ℤ) where
  abbrev plain : Context
  plain = record {
    equality_clauses = equality_clauses domain;
    Good = λ s. Unit {0};
    keep = λ s t c g. g;
  }

  -- Every equality that is recorded has its clauses.
  pub Known : Encoder → Type 0
  Known s =
      (q r : ℤ) (v : ℕ)
      → variable_for (of_equality (q, r)) s.vars.provider ≡ some v
      → (ρ : Env) (σ : Assignment) → Agrees ρ s.vars
      → cnf_holds σ s.clauses ≡ true
      → cnf_holds σ (equality_clauses domain ρ q r) ≡ true

  pub empty-Known : (s : Encoder) → s.vars.provider.q_equality_variables ≡ [] → Known s
  unfolding Known variable_for lookup
  empty-Known s none_yet q r v h =
      let no : lookup {K = IntPair} {V = ℕ} (q, r) [] ≡ some v =
        subst (λ t. lookup (q, r) t ≡ some v) none_yet h in
      cc no

  -- Only the variables and the clauses matter.
  pub Known-settled :
      (s : Encoder) (qs new : List ℤ)
      → Known s
      → Known (record s { q_constants = qs; new_q_constants = new })
  unfolding Known
  Known-settled s qs new h = h

  pub Known-Change : (s t : Encoder) → Change (equality_clauses domain) s t → Known s → Known t
  unfolding Known
  Known-Change s t c known q r v h ρ σ g k = elim (c.known q r v h) [
    | inr new ↦ new ρ σ g k
    | inl old ↦ known q r v old ρ σ (Agrees-Grows ρ s.vars t.vars c.grows g) (c.implied σ k)
  ]

  abbrev pub knowing : Context
  knowing = record { equality_clauses = equality_clauses domain; Good = Known; keep = Known-Change }

  read-equate :
      (q r : ℤ) (p : IntPair) (s : State)
      → variable_for (of_equality p) (equate q r s).provider ≡ (
          if p ≟ (q, r)
          then some s.domain.running_var_id
          else variable_for (of_equality p) s.provider)
  unfolding equate variable_for encode_q_constant_equality_var
  read-equate q r p s = lookup-put p (q, r) s.domain.running_var_id s.provider.q_equality_variables

  same_equality :
      (q r : ℤ) (p : IntPair) (s : State)
      → p ≟ (q, r) ≡ true
      → variable_for (of_equality p) s.provider ≡ variable_for (of_equality (q, r)) s.provider
  same_equality q r p s h = ap (λ k. variable_for (of_equality k) s.provider) (≟_sound p (q, r) h)

  kept-equate :
      (q r : ℤ) (p : IntPair) (v : ℕ) (s : State)
      → variable_for (of_equality (q, r)) s.provider ≡ none
      → variable_for (of_equality p) s.provider ≡ some v
      → variable_for (of_equality p) (equate q r s).provider ≡ some v
  kept-equate q r p v s new h = ground (arith, read-equate q r p s, same_equality q r p s, new, h)

  recorded-equate :
      (q r : ℤ) (s : State)
      → variable_for (of_equality (q, r)) (equate q r s).provider ≡ some s.domain.running_var_id
  recorded-equate q r s = ground (arith, read-equate q r (q, r) s, ≟_refl {A = IntPair} (q, r))

  Grows-equate :
      (q r : ℤ) (s : State)
      → variable_for (of_equality (q, r)) s.provider ≡ none
      → Grows s (equate q r s)
  unfolding equate encode_q_constant_equality_var variable_for
  Grows-equate q r s new = record {
    name = refl;
    counter = omega arith;
    sub = λ sig v h. h;
    eq = λ q' r' v h. kept-equate q r (q', r') v s new h;
  }

  -- With a new equality, from a state in which nothing else has to be known.
  encode_equality-Emits :
      (q r : ℤ) (s : Encoder)
      → variable_for (of_equality (q, r)) s.vars.provider ≡ none
      → Emits
          (equality_clauses domain)
          (encode_equality domain q r)
          s
          (λ ρ. equality_clauses domain ρ q r)
          (λ ρ. tt)
  unfolding encode_equality encode_equality_var equality_clauses encode_q_constant_equality_var
  encode_equality-Emits q r s new = record {
    result = tt;
    after = e.after;
    runs = e.runs;
    change = record {
      grows =
          Grows-trans s.vars (equate q r s.vars) e.after.vars (Grows-equate q r s.vars new)
            e.change.grows;
      q_constants = e.change.q_constants;
      new_fact_vars = e.change.new_fact_vars;
      implied = e.change.implied;
      known = λ q' r' v h. elim (e.change.known q' r' v h) [
        | inr later ↦ inr later
        | inl first ↦ elim (Bool-cases (◌≟◌ {A = IntPair} (q', r') (q, r))) [
          | inr other ↦ inl (ground (arith, first, read-equate q r (q', r') s.vars))
          | inl same ↦ inr (λ ρ σ g k.
              subst (λ p. cnf_holds σ (equality_clauses domain ρ p.0 p.1) ≡ true)
                (sym (≟_sound {A = IntPair} (q', r') (q, r) same)) (holds ρ σ g k))
        ]
      ];
    };
    valued = λ ρ g. refl;
    says = λ ρ σ g. says ρ σ g;
  }
    where
      s' : Encoder
      s' = record s { vars = equate q r s.vars }

      eq : ℤ
      eq = pos (encode_q_constant_equality_var q r s.vars.provider s.vars.domain).0

      e :
          Emits
            (equality_clauses domain)
            (relate domain eq q r (common (domain q) (domain r)))
            s'
            (relate_clauses domain eq q r (common (domain q) (domain r)))
            (λ ρ. tt)
      e = (relate_rule {C = plain} domain eq q r (common (domain q) (domain r))).from s' tt

      named : (ρ : Env) → Agrees ρ e.after.vars → ρ.eq q r ≡ eq
      named ρ g =
          g.eq q r s.vars.domain.running_var_id
            (e.change.grows.eq q r s.vars.domain.running_var_id (recorded-equate q r s.vars))

      says :
          (ρ : Env) (σ : Assignment)
          → Agrees ρ e.after.vars
          → cnf_holds σ e.after.clauses
            ≡ (cnf_holds σ s.clauses && cnf_holds σ (equality_clauses domain ρ q r))
      says ρ σ g =
          e.says ρ σ g
          ∙ ap
              (λ l.
                cnf_holds σ s.clauses
                && cnf_holds σ (relate_clauses domain l q r (common (domain q) (domain r)) ρ))
              (sym (named ρ g))

      holds :
          (ρ : Env) (σ : Assignment)
          → Agrees ρ e.after.vars
          → cnf_holds σ e.after.clauses ≡ true
          → cnf_holds σ (equality_clauses domain ρ q r) ≡ true
      holds ρ σ g k = ground (arith, says ρ σ g, k)

  encode_equality-recorded :
      (q r : ℤ) (s : Encoder) (new : variable_for (of_equality (q, r)) s.vars.provider ≡ none)
      → variable_for (of_equality (q, r)) (encode_equality-Emits q r s new).after.vars.provider
        ≡ some s.vars.domain.running_var_id
  unfolding encode_equality-Emits encode_q_constant_equality_var
  encode_equality-recorded q r s new =
      let all_related =
        relate_rule {C = plain} domain (pos s.vars.domain.running_var_id) q r
          (common (domain q) (domain r)) in
      let e = all_related.from (record s { vars = equate q r s.vars }) tt in
      e.change.grows.eq q r s.vars.domain.running_var_id (recorded-equate q r s.vars)

  -- `getQConstantEqualityVar` of a recorded equality.
  equality_var-Emits :
      (q r : ℤ) (v : ℕ) (s : Encoder)
      → variable_for (of_equality (q, r)) s.vars.provider ≡ some v
      → Emits (equality_clauses domain) (equality_var q r) s (λ ρ. []) (λ ρ. ρ.eq q r)
  unfolding equality_var ask
  equality_var-Emits q r v s h = record {
    result = pos v;
    after = s;
    runs = rw (known_equality q r s.vars.provider v h) refl;
    change = record {
      grows = Grows-refl s.vars;
      q_constants = refl;
      new_fact_vars = refl;
      implied = λ σ k. k;
      known = λ q' r' w k. inl k;
    };
    valued = λ ρ g. sym (g.eq q r v h);
    says = λ ρ σ g. ground arith;
  }

  -- The equality is recorded before or afterwards.
  is_encoded-cases :
      (q r : ℤ) (vp : VariableProvider)
      → ((is_q_constant_equality_encoded q r vp ≡ false)
          × (variable_for (of_equality (q, r)) vp ≡ none))
        ⊎ ((is_q_constant_equality_encoded q r vp ≡ true)
            × (v : ℕ) × (variable_for (of_equality (q, r)) vp ≡ some v))
  unfolding is_q_constant_equality_encoded variable_for
  is_encoded-cases q r vp = has_key-cases (q, r) vp.q_equality_variables

  known-Emits :
      (q r : ℤ) (v : ℕ) (s : Encoder)
      → variable_for (of_equality (q, r)) s.vars.provider ≡ some v
      → Known s
      → Emits (equality_clauses domain) (return tt) s (λ ρ. equality_clauses domain ρ q r) (λ ρ. tt)
  unfolding Known
  known-Emits q r v s h known = record {
    result = tt;
    after = s;
    runs = refl;
    change = record {
      grows = Grows-refl s.vars;
      q_constants = refl;
      new_fact_vars = refl;
      implied = λ σ k. k;
      known = λ q' r' w k. inl k;
    };
    valued = λ ρ g. refl;
    says = λ ρ σ g. ground (arith, known q r v h ρ σ g);
  }

  encode_q_const_equality-Emits :
      (q r : ℤ) (s : Encoder)
      → Known s
      → Emits
          (equality_clauses domain)
          ((if is_q_constant_equality_encoded q r s.vars.provider
              then return tt
              else encode_equality domain q r)
            >> equality_var q r)
          s
          (λ ρ. equality_clauses domain ρ q r ++ [])
          (λ ρ. ρ.eq q r)
  unfolding known-Emits
  encode_q_const_equality-Emits q r s known = elim (is_encoded-cases q r s.vars.provider) [
    | inl (off, new) ↦
        let e = encode_equality-Emits q r s new in
        rw off (
          Emits-then (equality_clauses domain) (encode_equality domain q r) (λ _. equality_var q r)
            s (λ ρ. equality_clauses domain ρ q r) (λ ρ. tt) (λ _ ρ. []) (λ _ ρ. ρ.eq q r) e
            (equality_var-Emits q r s.vars.domain.running_var_id e.after
              (encode_equality-recorded q r s new)))
    | inr (on, v, h) ↦ rw on (
        Emits-then (equality_clauses domain) (return tt) (λ _. equality_var q r) s
          (λ ρ. equality_clauses domain ρ q r) (λ ρ. tt) (λ _ ρ. []) (λ _ ρ. ρ.eq q r)
          (known-Emits q r v s h known) (equality_var-Emits q r v s h))
  ]

  -- `encodeQConstEquality`, whether the equality is encoded already or not.
  pub encode_q_const_equality_rule :
      (q r : ℤ)
      → Does knowing
          (encode_q_const_equality domain q r)
          (λ ρ. equality_clauses domain ρ q r ++ [])
          (λ ρ. ρ.eq q r)
  unfolding encode_q_const_equality
  encode_q_const_equality_rule q r =
      reads_rule (λ s. is_q_constant_equality_encoded q r s.vars.provider)
        (λ known. (if known then return tt else encode_equality domain q r) >> equality_var q r)
        (encode_q_const_equality-Emits q r)
