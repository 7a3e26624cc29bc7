-- ===== src/Sat/Encoding/Rules.antt =====
-- The rules for what the steps of the encoding (src/sat/encoding.cpp) add.
use lilotane_smt_csp.Prelude.{
  ◌≡◌, refl, ap, sym, ◌∙◌, Bool, true, false, List, [], ◌∷◌, ◌++◌, map, ℤ, pos, some, subst, All,
  inl, all-append, arith, ℕ, if◌then◌else◌,
}
use lilotane_smt_csp.Data.Signature.{USignature}
use lilotane_smt_csp.Data.Position.{Position, VarType}
use lilotane_smt_csp.Data.Position.Variables.{get_variable}
use lilotane_smt_csp.Sat.Clauses.{Clause, clause_holds}
use lilotane_smt_csp.Sat.VariableProvider.Run.{variable_for, substitute}
use lilotane_smt_csp.Sat.VariableProvider.{var_substitution}
use lilotane_smt_csp.Sat.VariableProvider.Stable.{pair_again, recorded, name-substitute}
use lilotane_smt_csp.Sat.Encoding.ConcatMap.{concat_map}
use lilotane_smt_csp.Sat.Encoding.{
  Encoder, M, ◌>>=◌, return, for_each, literals, add_clause, var_subst, var_at, reads,
}
use lilotane_smt_csp.Sat.Encoding.Emits.{
  Env, Grows-refl, Grows-substitute, equality-substitute, Emits, Emits-then, Context, Does,
}

module _ {C : Context} where
  pub bind_rule :
      {A B : Type 0} {m : M A} {f : A → M B} {φ : Env → List Clause} {v : Env → A}
      {ψ : A → Env → List Clause} {w : A → Env → B}
      → Does C m φ v
      → ((a : A) → Does C (f a) (ψ a) (w a))
      → Does C (m >>= f) (λ ρ. φ ρ ++ ψ (v ρ) ρ) (λ ρ. w (v ρ) ρ)
  bind_rule {m = m} {f = f} {φ = φ} {v = v} {ψ = ψ} {w = w} dm df = record {
    from = λ s p.
        let e = dm.from s p in
        Emits-then C.equality_clauses m f s φ v ψ w e
          ((df e.result).from e.after (C.keep s e.after e.change p));
  }

  pub return_rule : {A : Type 0} (a : A) → Does C (return a) (λ ρ. []) (λ ρ. a)
  return_rule a = record {
    from = λ s p. record {
      result = a;
      after = s;
      runs = refl;
      change = record {
        grows = Grows-refl s.vars;
        q_constants = refl;
        new_fact_vars = refl;
        implied = λ σ h. h;
        known = λ q r v h. inl h;
      };
      valued = λ ρ g. refl;
      says = λ ρ σ g. ground arith;
    };
  }

  pub add_clause_rule : (c : Clause) → Does C (add_clause c) (λ ρ. c ∷ []) (λ ρ. tt)
  unfolding add_clause
  add_clause_rule c = record {
    from = λ s p. record {
      result = tt;
      after = record s { clauses = s.clauses ++ c ∷ [] };
      runs = refl;
      change = record {
        grows = Grows-refl s.vars;
        q_constants = refl;
        new_fact_vars = refl;
        implied = λ σ h. ground (arith, all-append (clause_holds σ) s.clauses (c ∷ []));
        known = λ q r v h. inl h;
      };
      valued = λ ρ g. refl;
      says = λ ρ σ g. all-append (clause_holds σ) s.clauses (c ∷ []);
    };
  }

  pub for_each_all_rule :
      {X : Type 0} (body : X → M (Unit {0})) (φ : X → Env → List Clause) (xs : List X)
      → All (λ x. Does C (body x) (φ x) (λ ρ. tt)) xs
      → Does C (for_each xs body) (λ ρ. concat_map (λ x. φ x ρ) xs) (λ ρ. tt)
  unfolding for_each concat_map
  for_each_all_rule body φ [] each = return_rule tt
  for_each_all_rule body φ (x ∷ xs) each =
      let rest = for_each_all_rule body φ xs each.1 in let d = bind_rule each.0 (λ _. rest) in d

  pub for_each_rule :
      {X : Type 0} {body : X → M (Unit {0})} {φ : X → Env → List Clause} (xs : List X)
      → ((x : X) → Does C (body x) (φ x) (λ ρ. tt))
      → Does C (for_each xs body) (λ ρ. concat_map (λ x. φ x ρ) xs) (λ ρ. tt)
  unfolding for_each concat_map
  for_each_rule [] each = return_rule tt
  for_each_rule (x ∷ xs) each =
      let rest = for_each_rule xs each in let d = bind_rule (each x) (λ _. rest) in d

  pub var_subst_rule : (q c : ℤ) → Does C (var_subst q c) (λ ρ. []) (λ ρ. ρ.sub q c)
  unfolding var_subst
  var_subst_rule q c = record {
    from = λ s p. record {
      result = pos (var_substitution q c s.vars.provider s.vars.domain).0;
      after = record s { vars = substitute q c s.vars };
      runs = refl;
      change = record {
        grows = Grows-substitute q c s.vars;
        q_constants = refl;
        new_fact_vars = refl;
        implied = λ σ h. h;
        known = λ q' r v h. inl (sym (equality-substitute q c q' r s.vars) ∙ h);
      };
      valued = λ ρ g. sym (
          g.sub q c (var_substitution q c s.vars.provider s.vars.domain).0 (
            ap (λ p. variable_for p (substitute q c s.vars).provider)
              (sym (
                pair_again q c q c s.vars (substitute q c s.vars) (name-substitute q c s.vars) refl
                  refl))
            ∙ recorded q c s.vars));
      says = λ ρ σ g. ground arith;
    };
  }

  -- One literal for each element, where no clause is added on the way.
  pub literals_rule :
      {X : Type 0} (body : X → M ℤ) (value : X → Env → ℤ) (xs : List X)
      → All (λ x. Does C (body x) (λ ρ. []) (value x)) xs
      → Does C (literals xs body) (λ ρ. []) (λ ρ. map (λ x. value x ρ) xs)
  unfolding literals
  literals_rule body value [] each = return_rule []
  literals_rule body value (x ∷ xs) each =
      let rest = literals_rule body value xs each.1 in
      let d = bind_rule each.0 (λ l. bind_rule rest (λ ls. return_rule (l ∷ ls))) in d

  pub reads_rule :
      {A B : Type 0} (f : Encoder → A) (k : A → M B) {ψ : Env → List Clause} {w : Env → B}
      → ((s : Encoder) → C.Good s → Emits C.equality_clauses (k (f s)) s ψ w)
      → Does C (reads f >>= k) ψ w
  unfolding reads
  reads_rule f k h = record {
    from = λ s p.
        let e = h s p in
        record {
          result = e.result;
          after = e.after;
          runs = e.runs;
          change = e.change;
          valued = e.valued;
          says = e.says;
        };
  }

  -- What a test asks, where every good state has the same answer.
  pub reads_known_rule :
      {A B : Type 0} (f : Encoder → A) (a : A) (k : A → M B) {ψ : Env → List Clause} {w : Env → B}
      → ((s : Encoder) → C.Good s → f s ≡ a)
      → Does C (k a) ψ w
      → Does C (reads f >>= k) ψ w
  reads_known_rule f a k {ψ = ψ} {w = w} h d =
      reads_rule f k
        (λ s g. subst (λ b. Emits C.equality_clauses (k b) s ψ w) (sym (h s g)) (d.from s g))

  pub var_at_rule :
      (type : VarType) (p : Position) (sig : USignature) (v : ℕ)
      → get_variable type sig p ≡ some v
      → Does C (var_at type p sig) (λ ρ. []) (λ ρ. pos v)
  unfolding var_at
  var_at_rule type p sig v h = record {
    from = λ s g. record {
      result = pos v;
      after = s;
      runs = rw (h, var_at) refl;
      change = record {
        grows = Grows-refl s.vars;
        q_constants = refl;
        new_fact_vars = refl;
        implied = λ σ k. k;
        known = λ q r w k. inl k;
      };
      valued = λ ρ a. refl;
      says = λ ρ σ a. ground arith;
    };
  }

  -- The variables of signatures, where the position has them.
  pub vars_at_rule :
      (type : VarType) (p : Position) (v : USignature → ℕ) (sigs : List USignature)
      → All (λ c. get_variable type c p ≡ some (v c)) sigs
      → Does C (literals sigs (var_at type p)) (λ ρ. []) (λ ρ. map (λ c. pos (v c)) sigs)
  vars_at_rule type p v sigs h = literals_rule (var_at type p) (λ c ρ. pos (v c)) sigs (each sigs h)
    where
      each :
          (cs : List USignature)
          → All (λ c. get_variable type c p ≡ some (v c)) cs
          → All (λ c. Does C (var_at type p c) (λ ρ. []) (λ ρ. pos (v c))) cs
      each [] h = tt
      each (c ∷ cs) h = (var_at_rule type p c (v c) h.0, each cs h.1)

  pub if_rule :
      {A : Type 0} (b : Bool) {m m' : M A} {φ φ' : Env → List Clause} {v v' : Env → A}
      → Does C m φ v
      → Does C m' φ' v'
      → Does C (if b then m else m') (λ ρ. if b then φ ρ else φ' ρ) (λ ρ. if b then v ρ else v' ρ)
  if_rule true d d' = d
  if_rule false d d' = d'

  -- The branches may use the test's value.
  pub if_cases_rule :
      {A : Type 0} (b : Bool) {m m' : M A} {φ φ' : Env → List Clause} {v v' : Env → A}
      → (b ≡ true → Does C m φ v)
      → (b ≡ false → Does C m' φ' v')
      → Does C (if b then m else m') (λ ρ. if b then φ ρ else φ' ρ) (λ ρ. if b then v ρ else v' ρ)
  if_cases_rule true d d' = d refl
  if_cases_rule false d d' = d' refl
