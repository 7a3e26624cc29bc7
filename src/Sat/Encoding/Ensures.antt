-- ===== src/Sat/Encoding/Ensures.antt =====
-- What holds under the clauses of a step of the encoding (src/sat/encoding.cpp), where they may have
-- helper variables and only what they imply is stated.
use lilotane_smt_csp.Prelude.{
  ◌≡◌, refl, ap, sym, ◌∙◌, Bool, true, false, ◌&&◌, List, [], ◌∷◌, map, ℤ, pos, ℕ, some, all, All,
  arith, if◌then◌else◌, &&-eq-true,
}
use lilotane_smt_csp.Data.Signature.{USignature}
use lilotane_smt_csp.Data.Position.{Position, VarType}
use lilotane_smt_csp.Data.Position.Variables.{get_variable}
use lilotane_smt_csp.Sat.Clauses.{Clause, Assignment, cnf_holds}
use lilotane_smt_csp.Sat.Encoding.{Encoder, M, ◌>>=◌, return, for_each, literals, reads, var_at}
use lilotane_smt_csp.Sat.Encoding.Emits.{
  Env, Agrees, Agrees-Grows, Change, Change-trans, Context, Does,
}
use lilotane_smt_csp.Sat.Encoding.Rules.{return_rule}
use lilotane_smt_csp.Sat.Encoding.Equality.Meaning.{IsReal}

-- From the state `s` the step returns, and under its clauses `ψ` holds.
pub record Secures (C : Context) {A : Type 0} (m : M A) (s : Encoder) (ψ : Env → Assignment → Bool)
    (value : Env → A) : Type 0 where
  pub result : A
  pub after : Encoder
  pub runs : m s ≡ some (result, after)
  pub change : Change C.equality_clauses s after
  pub valued : (ρ : Env) → Agrees ρ after.vars → result ≡ value ρ
  pub secured :
      (ρ : Env) (σ : Assignment)
      → IsReal ρ
      → Agrees ρ after.vars
      → cnf_holds σ after.clauses ≡ true
      → ψ ρ σ ≡ true

pub record Ensures (C : Context) {A : Type 0} (m : M A) (ψ : Env → Assignment → Bool)
    (value : Env → A) : Type 0 where
  pub from : (s : Encoder) → C.Good s → Secures C m s ψ value

module _ {C : Context} where
  -- From the clauses themselves.
  pub ensured :
      {A : Type 0} {m : M A} (φ : Env → List Clause) {v : Env → A} (ψ : Env → Assignment → Bool)
      → ((ρ : Env) (σ : Assignment) → IsReal ρ → cnf_holds σ (φ ρ) ≡ true → ψ ρ σ ≡ true)
      → Does C m φ v
      → Ensures C m ψ v
  ensured φ ψ implies d = record {
    from = λ s g.
        let e = d.from s g in
        record {
          result = e.result;
          after = e.after;
          runs = e.runs;
          change = e.change;
          valued = e.valued;
          secured = λ ρ σ real a h.
              implies ρ σ real
                ((&&-eq-true (cnf_holds σ s.clauses) (cnf_holds σ (φ ρ))).0
                  (sym (e.says ρ σ a) ∙ h)).1;
        };
  }

  pub Ensures-bind :
      {A B : Type 0} {m : M A} {f : A → M B} {ψ : Env → Assignment → Bool} {v : Env → A}
      {χ : A → Env → Assignment → Bool} {w : A → Env → B}
      → Ensures C m ψ v
      → ((a : A) → Ensures C (f a) (χ a) (w a))
      → Ensures C (m >>= f) (λ ρ σ. ψ ρ σ && χ (v ρ) ρ σ) (λ ρ. w (v ρ) ρ)
  Ensures-bind {m = m} {f = f} {ψ = ψ} {v = v} {χ = χ} {w = w} dm df = record {
    from = λ s g.
        let e = dm.from s g in
        let k = (df e.result).from e.after (C.keep s e.after e.change g) in
        record {
          result = k.result;
          after = k.after;
          runs = rw (e.runs, ◌>>=◌) k.runs;
          change = Change-trans C.equality_clauses s e.after k.after e.change k.change;
          valued = λ ρ a.
              k.valued ρ a
              ∙ ap (λ x. w x ρ)
                  (e.valued ρ (Agrees-Grows ρ e.after.vars k.after.vars k.change.grows a));
          secured = λ ρ σ real a h.
              let earlier = Agrees-Grows ρ e.after.vars k.after.vars k.change.grows a in
              ground (
                arith,
                e.secured ρ σ real earlier (k.change.implied σ h),
                k.secured ρ σ real a h,
                ap (λ x. χ x ρ σ) (e.valued ρ earlier),
              );
        };
  }

  -- A weaker statement.
  pub Ensures-less :
      {A : Type 0} {m : M A} (ψ : Env → Assignment → Bool) {v : Env → A}
      (χ : Env → Assignment → Bool)
      → ((ρ : Env) (σ : Assignment) → IsReal ρ → ψ ρ σ ≡ true → χ ρ σ ≡ true)
      → Ensures C m ψ v
      → Ensures C m χ v
  Ensures-less ψ χ weaker d = record {
    from = λ s g.
        let e = d.from s g in
        record {
          result = e.result;
          after = e.after;
          runs = e.runs;
          change = e.change;
          valued = e.valued;
          secured = λ ρ σ real a h. weaker ρ σ real (e.secured ρ σ real a h);
        };
  }

  pub Ensures-return : {A : Type 0} (a : A) → Ensures C (return a) (λ ρ σ. true) (λ ρ. a)
  Ensures-return a = ensured (λ ρ. []) (λ ρ σ. true) (λ ρ σ real h. refl) (return_rule a)

  pub Ensures-for_each :
      {X : Type 0} (body : X → M (Unit {0})) (ψ : X → Env → Assignment → Bool) (xs : List X)
      → All (λ x. Ensures C (body x) (ψ x) (λ ρ. tt)) xs
      → Ensures C (for_each xs body) (λ ρ σ. all (λ x. ψ x ρ σ) xs) (λ ρ. tt)
  unfolding for_each
  Ensures-for_each body ψ [] each = Ensures-return tt
  Ensures-for_each body ψ (x ∷ xs) each =
      let rest = Ensures-for_each body ψ xs each.1 in let d = Ensures-bind each.0 (λ _. rest) in d

  pub Ensures-literals :
      {X : Type 0} (body : X → M ℤ) (ψ : X → Env → Assignment → Bool) (value : X → Env → ℤ)
      (xs : List X)
      → All (λ x. Ensures C (body x) (ψ x) (value x)) xs
      → Ensures C (literals xs body) (λ ρ σ. all (λ x. ψ x ρ σ) xs) (λ ρ. map (λ x. value x ρ) xs)
  unfolding literals
  Ensures-literals body ψ value [] each = Ensures-return []
  Ensures-literals body ψ value (x ∷ xs) each =
      let rest = Ensures-literals body ψ value xs each.1 in
      let d = Ensures-bind each.0 (λ l. Ensures-bind rest (λ ls. Ensures-return (l ∷ ls))) in
      Ensures-less (λ ρ σ. ψ x ρ σ && (all (λ y. ψ y ρ σ) xs && true))
        (λ ρ σ. all (λ y. ψ y ρ σ) (x ∷ xs)) (λ ρ σ real h. ground (arith, h)) d

  pub Ensures-if :
      {A : Type 0} (b : Bool) {m m' : M A} {ψ ψ' : Env → Assignment → Bool} {v v' : Env → A}
      → (b ≡ true → Ensures C m ψ v)
      → (b ≡ false → Ensures C m' ψ' v')
      → Ensures C
          (if b then m else m')
          (λ ρ σ. if b then ψ ρ σ else ψ' ρ σ)
          (λ ρ. if b then v ρ else v' ρ)
  Ensures-if true d d' = d refl
  Ensures-if false d d' = d' refl

  -- Branches that ensure the same.
  pub Ensures-cases :
      {A : Type 0} (b : Bool) {m m' : M A} {ψ : Env → Assignment → Bool} {v : Env → A}
      → (b ≡ true → Ensures C m ψ v)
      → (b ≡ false → Ensures C m' ψ v)
      → Ensures C (if b then m else m') ψ v
  Ensures-cases true d d' = d refl
  Ensures-cases false d d' = d' refl

  -- What a test asks, where every good state has the same answer.
  pub Ensures-reads :
      {A B : Type 0} (f : Encoder → A) (a : A) (k : A → M B) {ψ : Env → Assignment → Bool}
      {w : Env → B}
      → ((s : Encoder) → C.Good s → f s ≡ a)
      → Ensures C (k a) ψ w
      → Ensures C (reads f >>= k) ψ w
  unfolding reads
  Ensures-reads f a k h d = record {
    from = λ s g.
        let e = d.from s g in
        record {
          result = e.result;
          after = e.after;
          runs = ap (λ b. k b s) (h s g) ∙ e.runs;
          change = e.change;
          valued = e.valued;
          secured = e.secured;
        };
  }

  -- A variable that the position has.
  pub Ensures-var_at :
      {B : Type 0} (type : VarType) (p : Position) (sig : USignature) (v : ℕ) (f : ℤ → M B)
      {ψ : Env → Assignment → Bool} {w : Env → B}
      → get_variable type sig p ≡ some v
      → Ensures C (f (pos v)) ψ w
      → Ensures C (var_at type p sig >>= f) ψ w
  unfolding var_at
  Ensures-var_at type p sig v f h d = record {
    from = λ s g.
        let e = d.from s g in
        record {
          result = e.result;
          after = e.after;
          runs = rw (h, var_at) e.runs;
          change = e.change;
          valued = e.valued;
          secured = e.secured;
        };
  }

-- What follows a step that returns.
pub bind_runs :
    {A B : Type 0} (m : M A) (f : A → M B) (s t : Encoder) (a : A)
    → m s ≡ some (a, t)
    → (m >>= f) s ≡ f a t
bind_runs m f s t a h = rw (h, ◌>>=◌) refl
