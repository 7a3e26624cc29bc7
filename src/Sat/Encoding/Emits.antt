-- ===== src/Sat/Encoding/Emits.antt =====
-- What a step of the encoding (src/sat/encoding.cpp) adds: its clauses, read by the variables of the
-- state after it or of any later one.
use lilotane_smt_csp.Prelude.{
  ◌≡◌, refl, ap, sym, ◌∙◌, true, ◌&&◌, List, ◌++◌, ℤ, pos, some, none, subst, ap₂, ◌≤◌, ◌⊎◌, inl,
  inr, all-append, arith, ℕ, Option-cases,
}
use lilotane_smt_csp.Data.Signature.{USignature}
use lilotane_smt_csp.Sat.Clauses.{Clause, Assignment, clause_holds, cnf_holds}
use lilotane_smt_csp.Sat.VariableProvider.Run.{
  State, variable_for, pair_for, of_substitution, of_equality, substitute, with_substitution,
  known_substitution, new_substitution,
}
use lilotane_smt_csp.Sat.VariableProvider.{sig_substitute, skip_variable}
use lilotane_smt_csp.Sat.VariableProvider.Stable.{pair_again, kept-substitute, name-substitute}
use lilotane_smt_csp.Sat.Encoding.{Encoder, M, ◌>>=◌}

-- The literals of substitutions and of equalities.
pub record Env : Type 0 where
  pub sub : ℤ → ℤ → ℤ
  pub eq : ℤ → ℤ → ℤ

pub record Agrees (ρ : Env) (s : State) : Type 0 where
  pub sub :
      (q c : ℤ) (v : ℕ) → variable_for (pair_for q c s) s.provider ≡ some v → ρ.sub q c ≡ pos v
  pub eq :
      (q r : ℤ) (v : ℕ) → variable_for (of_equality (q, r)) s.provider ≡ some v → ρ.eq q r ≡ pos v

-- Recorded variables stay.
pub record Grows (s t : State) : Type 0 where
  pub name : t.provider.substitute_name_id ≡ s.provider.substitute_name_id
  pub counter : s.domain.running_var_id ≤ t.domain.running_var_id
  pub sub :
      (sig : USignature) (v : ℕ)
      → variable_for (of_substitution sig) s.provider ≡ some v
      → variable_for (of_substitution sig) t.provider ≡ some v
  pub eq :
      (q r : ℤ) (v : ℕ)
      → variable_for (of_equality (q, r)) s.provider ≡ some v
      → variable_for (of_equality (q, r)) t.provider ≡ some v

pub Grows-refl : (s : State) → Grows s s
Grows-refl s = record { name = refl; counter = omega arith; sub = λ sig v h. h; eq = λ q r v h. h }

pub Grows-trans : (s t u : State) → Grows s t → Grows t u → Grows s u
Grows-trans s t u a b = record {
  name = b.name ∙ a.name;
  counter = omega (arith, a.counter, b.counter);
  sub = λ sig v h. b.sub sig v (a.sub sig v h);
  eq = λ q r v h. b.eq q r v (a.eq q r v h);
}

pub Agrees-Grows : (ρ : Env) (s t : State) → Grows s t → Agrees ρ t → Agrees ρ s
unfolding pair_for
Agrees-Grows ρ s t g a = record {
  sub = λ q c v h. a.sub q c v (
      ap (λ p. variable_for p t.provider) (sym (pair_again q c q c s t g.name refl refl))
      ∙ g.sub (sig_substitute q c s.provider) v h);
  eq = λ q r v h. a.eq q r v (g.eq q r v h);
}

pub equality-substitute :
    (q c q' r : ℤ) (s : State)
    → variable_for (of_equality (q', r)) (substitute q c s).provider
      ≡ variable_for (of_equality (q', r)) s.provider
unfolding substitute variable_for with_substitution
equality-substitute q c q' r s = elim (Option-cases (variable_for (pair_for q c s) s.provider)) [
  | inr (v, h) ↦ rw (known_substitution q c s v h) refl
  | inl h ↦ rw (new_substitution q c s h) refl
]

counter-substitute :
    (q c : ℤ) (s : State) → s.domain.running_var_id ≤ (substitute q c s).domain.running_var_id
unfolding substitute skip_variable
counter-substitute q c s = elim (Option-cases (variable_for (pair_for q c s) s.provider)) [
  | inr (v, h) ↦ rw (known_substitution q c s v h) (omega arith)
  | inl h ↦ rw (new_substitution q c s h) (omega arith)
]

pub Grows-substitute : (q c : ℤ) (s : State) → Grows s (substitute q c s)
Grows-substitute q c s = record {
  name = name-substitute q c s;
  counter = counter-substitute q c s;
  sub = λ sig v h. kept-substitute sig v q c s h;
  eq = λ q' r v h. equality-substitute q c q' r s ∙ h;
}

-- The clauses that relate an equality's variable to the substitutions are a parameter here.
module _ (equality_clauses : Env → ℤ → ℤ → List Clause) where
  -- From `s` to `t` variables and clauses stay, the sets that a pass only reads are the same, and a
  -- new equality has its clauses.
  pub record Change (s t : Encoder) : Type 0 where
    pub grows : Grows s.vars t.vars
    pub q_constants : t.q_constants ≡ s.q_constants
    pub new_fact_vars : t.new_fact_vars ≡ s.new_fact_vars
    pub implied : (σ : Assignment) → cnf_holds σ t.clauses ≡ true → cnf_holds σ s.clauses ≡ true
    pub known :
        (q r : ℤ) (v : ℕ)
        → variable_for (of_equality (q, r)) t.vars.provider ≡ some v
        → (variable_for (of_equality (q, r)) s.vars.provider ≡ some v)
          ⊎ ((ρ : Env) (σ : Assignment)
              → Agrees ρ t.vars
              → cnf_holds σ t.clauses ≡ true
              → cnf_holds σ (equality_clauses ρ q r) ≡ true)

  pub Change-trans : (s t u : Encoder) → Change s t → Change t u → Change s u
  Change-trans s t u a b = record {
    grows = Grows-trans s.vars t.vars u.vars a.grows b.grows;
    q_constants = b.q_constants ∙ a.q_constants;
    new_fact_vars = b.new_fact_vars ∙ a.new_fact_vars;
    implied = λ σ h. a.implied σ (b.implied σ h);
    known = λ q r v h. elim (b.known q r v h) [
      | inr new ↦ inr new
      | inl old ↦ elim (a.known q r v old) [
        | inl older ↦ inl older
        | inr holds ↦
            inr (λ ρ σ g k. holds ρ σ (Agrees-Grows ρ t.vars u.vars b.grows g) (b.implied σ k))
      ]
    ];
  }

  -- The step returns, and its clauses are those of `spec`.
  pub record Emits {A : Type 0} (m : M A) (s : Encoder) (spec : Env → List Clause) (value : Env → A)
      : Type 0 where
    pub result : A
    pub after : Encoder
    pub runs : m s ≡ some (result, after)
    pub change : Change s after
    pub valued : (ρ : Env) → Agrees ρ after.vars → result ≡ value ρ
    pub says :
        (ρ : Env) (σ : Assignment)
        → Agrees ρ after.vars
        → cnf_holds σ after.clauses ≡ (cnf_holds σ s.clauses && cnf_holds σ (spec ρ))

  pub Emits-then :
      {A B : Type 0} (m : M A) (f : A → M B) (s : Encoder) (φ : Env → List Clause) (v : Env → A)
      (ψ : A → Env → List Clause) (w : A → Env → B) (e : Emits m s φ v)
      → Emits (f e.result) e.after (ψ e.result) (w e.result)
      → Emits (m >>= f) s (λ ρ. φ ρ ++ ψ (v ρ) ρ) (λ ρ. w (v ρ) ρ)
  Emits-then m f s φ v ψ w e k = record {
    result = k.result;
    after = k.after;
    runs = rw (e.runs, ◌>>=◌) k.runs;
    change = Change-trans s e.after k.after e.change k.change;
    valued = λ ρ g. k.valued ρ g ∙ ap (λ a. w a ρ) (e.valued ρ (earlier ρ g));
    says = λ ρ σ g. ground (
      arith,
      k.says ρ σ g,
      e.says ρ σ (earlier ρ g),
      ap (λ a. cnf_holds σ (ψ a ρ)) (e.valued ρ (earlier ρ g)),
      all-append (clause_holds σ) (φ ρ) (ψ (v ρ) ρ),
    );
  }
    where
      earlier : (ρ : Env) → Agrees ρ k.after.vars → Agrees ρ e.after.vars
      earlier ρ g = Agrees-Grows ρ e.after.vars k.after.vars k.change.grows g

-- What the rules below are relative to: the clauses of equalities, and a property of the state that
-- every change keeps.
pub record Context : Type 1 where
  pub equality_clauses : Env → ℤ → ℤ → List Clause
  pub Good : Encoder → Type 0
  pub keep : (s t : Encoder) → Change equality_clauses s t → Good s → Good t

-- From every good state the step returns, with the clauses and the result that are given.
pub record Does (C : Context) {A : Type 0} (m : M A) (spec : Env → List Clause) (value : Env → A)
    : Type 0 where
  pub from : (s : Encoder) → C.Good s → Emits C.equality_clauses m s spec value

-- A step does the same from better states.
pub Does-weaken :
    {C : Context} (Good : Encoder → Type 0)
    (keep : (s t : Encoder) → Change C.equality_clauses s t → Good s → Good t)
    (better : (s : Encoder) → Good s → C.Good s) {A : Type 0} {m : M A} {φ : Env → List Clause}
    {v : Env → A}
    → Does C m φ v
    → Does (record { equality_clauses = C.equality_clauses; Good = Good; keep = keep }) m φ v
Does-weaken Good keep better d = record { from = λ s g. d.from s (better s g) }

-- The state that a step leaves; the state before, where it returns nothing.
abbrev pub state_after : {A : Type 0} → M A → Encoder → Encoder
state_after m s = elim (m s) [ none ↦ s | some (a, t) ↦ t ]

pub Does-says :
    (C : Context) {A : Type 0} (m : M A) (spec : Env → List Clause) (value : Env → A)
    (d : Does C m spec value) (s : Encoder) (g : C.Good s) (ρ : Env) (σ : Assignment)
    → Agrees ρ (state_after m s).vars
    → (m s ≡ some (value ρ, state_after m s))
      × (cnf_holds σ (state_after m s).clauses ≡ (cnf_holds σ s.clauses && cnf_holds σ (spec ρ)))
Does-says C m spec value d s g ρ σ a =
    let e = d.from s g in
    let after : state_after m s ≡ e.after = rw (e.runs, state_after) refl in
    let agrees : Agrees ρ e.after.vars = subst (λ t. Agrees ρ t.vars) after a in
    (
      e.runs ∙ ap₂ (λ x t. some (x, t)) (e.valued ρ agrees) (sym after),
      ap (λ t. cnf_holds σ t.clauses) after ∙ e.says ρ σ agrees,
    )
