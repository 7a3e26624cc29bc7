-- ===== src/Sat/VariableProvider/Distinct.antt =====
-- The variables of substitutions and of equalities (src/sat/variable_provider.h) are distinct.
use lilotane_smt_csp.Prelude.{
  ℕ, suc, ◌<◌, ◌≡◌, refl, ap, sym, ◌∙◌, ◌⊎◌, inl, inr, ℤ, pos, List, none, some, ◌≟◌, ≟_sound,
  lookup, put, Eq, int_eq, pair_eq, arith, lookup-put, Option-cases, Bool-cases,
}
use lilotane_smt_csp.Data.Signature.{USignature, usig_eq}
use lilotane_smt_csp.Sat.VariableProvider.{
  new_provider, sig_substitute, encode_q_constant_equality_var, skip_variable,
}
use lilotane_smt_csp.Sat.VariableProvider.Run.{
  Purpose, variable_for, State, substitute, equate, ask, skip, Step, Later, initial, pair_for,
  known_substitution, with_substitution, new_substitution, known_equality, new_equality,
  of_substitution, of_equality, substituted, equated, asked, skipped, now, then_step,
}

-- All variables are below the counter, and no variable has two purposes; 0 is no variable, and no
-- substitution has it.
pub record IsDistinct (s : State) : Type 0 where
  pub positive : 0 < s.domain.running_var_id
  pub below :
      (p : Purpose) (v : ℕ) → variable_for p s.provider ≡ some v → v < s.domain.running_var_id
  pub used :
      (sig : USignature) (v : ℕ) → variable_for (of_substitution sig) s.provider ≡ some v → 0 < v
  pub distinct :
      (p p' : Purpose) (v : ℕ)
      → 0 < v
      → variable_for p s.provider ≡ some v
      → variable_for p' s.provider ≡ some v
      → p ≡ p'

-- What a table has after a write.
read-put :
    {K : Type 0} ⦃e : Eq K⦄ (q k : K) (v w : ℕ) (t : List (K × ℕ))
    → lookup q (put k v t) ≡ some w
    → ((q ≡ k) × (w ≡ v)) ⊎ (lookup q t ≡ some w)
read-put q k v w t h = elim (Bool-cases (q ≟ k)) [
  | inl same ↦ inl (≟_sound q k same, ground (arith, lookup-put q k v t))
  | inr other ↦ inr (ground (arith, lookup-put q k v t))
]

-- What `t` has, `s` has too, but for a new variable, or 0, of one purpose.
record IsWrite (s t : State) (target : Purpose) : Type 0 where
  counter :
      (s.domain.running_var_id ≡ t.domain.running_var_id)
      ⊎ (suc s.domain.running_var_id ≡ t.domain.running_var_id)
  read :
      (p : Purpose) (v : ℕ)
      → variable_for p t.provider ≡ some v
      → (variable_for p s.provider ≡ some v)
        ⊎ ((p ≡ target) × (v ≡ s.domain.running_var_id) × (v < t.domain.running_var_id))
        ⊎ ((p ≡ target) × (v ≡ 0) × ((sig : USignature) → ¬ (p ≡ of_substitution sig)))

IsDistinct-write :
    (s t : State) (target : Purpose) → IsWrite s t target → IsDistinct s → IsDistinct t
IsDistinct-write s t target w f = record {
  positive = omega (arith, w.counter, f.positive);
  below = λ p v h. elim (w.read p v h) [
    | inl old ↦ omega (arith, w.counter, f.below p v old)
    | inr (inl (a, b, c)) ↦ c
    | inr (inr (a, b, c)) ↦ omega (arith, w.counter, f.positive, b)
  ];
  used = λ sig v h. elim (w.read (of_substitution sig) v h) [
    | inl old ↦ f.used sig v old
    | inr (inl (a, b, c)) ↦ omega (arith, f.positive, b)
    | inr (inr (a, b, c)) ↦ absurd (c sig refl)
  ];
  distinct = λ p p' v k h h'. elim (w.read p v h) [
    | inl old ↦ elim (w.read p' v h') [
      | inl old' ↦ f.distinct p p' v k old old'
      | inr (inl (a, b, c)) ↦ absurd (omega (arith, f.below p v old, b))
      | inr (inr (a, b, c)) ↦ absurd (omega (arith, k, b))
    ]
    | inr (inl (a, b, c)) ↦ elim (w.read p' v h') [
      | inl old' ↦ absurd (omega (arith, f.below p' v old', b))
      | inr (inl (a', b', c')) ↦ a ∙ sym a'
      | inr (inr (a', b', c')) ↦ absurd (omega (arith, k, b'))
    ]
    | inr (inr (a, b, c)) ↦ absurd (omega (arith, k, b))
  ];
}

with_substitution-IsWrite :
    (sig : USignature) (s : State)
    → IsWrite s
        (record {
          provider = with_substitution sig s.domain.running_var_id s.provider;
          domain = skip_variable s.domain;
        })
        (of_substitution sig)
unfolding with_substitution skip_variable variable_for
with_substitution-IsWrite sig s = record { counter = inr refl; read = read }
  where
    read :
        (p : Purpose) (v : ℕ)
        → variable_for p (with_substitution sig s.domain.running_var_id s.provider) ≡ some v
        → (variable_for p s.provider ≡ some v)
          ⊎ ((p ≡ of_substitution sig)
              × (v ≡ s.domain.running_var_id)
              × (v < (skip_variable s.domain).running_var_id))
          ⊎ ((p ≡ of_substitution sig)
              × (v ≡ 0)
              × ((sig : USignature) → ¬ (p ≡ of_substitution sig)))
    read (of_equality pair) v h = inl h
    read (of_substitution other) v h =
        elim (read-put other sig s.domain.running_var_id v s.provider.substitution_variables h) [
          | inr old ↦ inl old
          | inl (a, b) ↦ inr (inl (ap of_substitution a, b, omega (arith, b)))
        ]

substitute-IsWrite : (q c : ℤ) (s : State) → IsWrite s (substitute q c s) (pair_for q c s)
unfolding substitute pair_for
substitute-IsWrite q c s = elim (Option-cases (variable_for (pair_for q c s) s.provider)) [
  | inr (v, h) ↦
      rw (known_substitution q c s v h) (record { counter = inl refl; read = λ p w k. inl k })
  | inl h ↦
      rw (new_substitution q c s h) (with_substitution-IsWrite (sig_substitute q c s.provider) s)
]

equate-IsWrite : (q r : ℤ) (s : State) → IsWrite s (equate q r s) (of_equality (q, r))
unfolding equate encode_q_constant_equality_var variable_for
equate-IsWrite q r s = record { counter = inr refl; read = read }
  where
    read :
        (p : Purpose) (v : ℕ)
        → variable_for p (equate q r s).provider ≡ some v
        → (variable_for p s.provider ≡ some v)
          ⊎ ((p ≡ of_equality (q, r))
              × (v ≡ s.domain.running_var_id)
              × (v < (equate q r s).domain.running_var_id))
          ⊎ ((p ≡ of_equality (q, r))
              × (v ≡ 0)
              × ((sig : USignature) → ¬ (p ≡ of_substitution sig)))
    read (of_substitution sig) v h = inl h
    read (of_equality pair) v h =
        elim (read-put pair (q, r) s.domain.running_var_id v s.provider.q_equality_variables h) [
          | inr old ↦ inl old
          | inl (a, b) ↦ inr (inl (ap of_equality a, b, omega (arith, b)))
        ]

skip-IsWrite : (s : State) (p : Purpose) → IsWrite s (skip s) p
unfolding skip skip_variable
skip-IsWrite s p = record { counter = inr refl; read = λ p' v h. inl h }

with_zero-IsWrite :
    (q r : ℤ) (s : State)
    → IsWrite s
        (record s {
          provider = record s.provider {
            q_equality_variables = put (q, r) 0 s.provider.q_equality_variables;
          };
        })
        (of_equality (q, r))
unfolding variable_for
with_zero-IsWrite q r s = record { counter = inl refl; read = read }
  where
    read :
        (p : Purpose) (v : ℕ)
        → variable_for p (record s.provider {
          q_equality_variables = put (q, r) 0 s.provider.q_equality_variables;
        })
          ≡ some v
        → (variable_for p s.provider ≡ some v)
          ⊎ ((p ≡ of_equality (q, r))
              × (v ≡ s.domain.running_var_id)
              × (v < s.domain.running_var_id))
          ⊎ ((p ≡ of_equality (q, r))
              × (v ≡ 0)
              × ((sig : USignature) → ¬ (p ≡ of_substitution sig)))
    read (of_substitution sig) v h = inl h
    read (of_equality pair) v h =
        elim (read-put pair (q, r) 0 v s.provider.q_equality_variables h) [
          | inr old ↦ inl old
          | inl (a, b) ↦ inr (inr (ap of_equality a, b, λ sig e. cc))
        ]

ask-IsWrite : (q r : ℤ) (s : State) → IsWrite s (ask q r s) (of_equality (q, r))
unfolding ask
ask-IsWrite q r s = elim (Option-cases (variable_for (of_equality (q, r)) s.provider)) [
  | inr (v, h) ↦
      rw (known_equality q r s.provider v h) (record { counter = inl refl; read = λ p w k. inl k })
  | inl h ↦ rw (new_equality q r s.provider h) (with_zero-IsWrite q r s)
]

IsDistinct-Step : (s t : State) → Step s t → IsDistinct s → IsDistinct t
IsDistinct-Step s _ (substituted q c) f =
    IsDistinct-write s (substitute q c s) (pair_for q c s) (substitute-IsWrite q c s) f
IsDistinct-Step s _ (equated q r) f =
    IsDistinct-write s (equate q r s) (of_equality (q, r)) (equate-IsWrite q r s) f
IsDistinct-Step s _ (asked q r) f =
    IsDistinct-write s (ask q r s) (of_equality (q, r)) (ask-IsWrite q r s) f
IsDistinct-Step s _ skipped f =
    IsDistinct-write s (skip s) (of_equality (pos 0, pos 0))
      (skip-IsWrite s (of_equality (pos 0, pos 0))) f

nothing_recorded :
    (primitive_id substitute_id : ℤ) (p : Purpose)
    → variable_for p (new_provider primitive_id substitute_id) ≡ none
unfolding new_provider variable_for lookup
nothing_recorded primitive_id substitute_id (of_substitution sig) = refl
nothing_recorded primitive_id substitute_id (of_equality pair) = refl

pub initial-IsDistinct :
    (primitive_id substitute_id : ℤ) → IsDistinct (initial primitive_id substitute_id)
unfolding initial
initial-IsDistinct primitive_id substitute_id = record {
  positive = omega arith;
  below = λ p v h. absurd (ground (arith, h, nothing_recorded primitive_id substitute_id p));
  used = λ sig v h.
      absurd (ground (arith, h, nothing_recorded primitive_id substitute_id (of_substitution sig)));
  distinct =
      λ p p' v k h h'. absurd (ground (arith, h, nothing_recorded primitive_id substitute_id p));
}

pub IsDistinct-Later : (s t : State) → IsDistinct s → Later s t → IsDistinct t
IsDistinct-Later s _ f now = f
IsDistinct-Later s _ f (then_step {t} {u} later step) =
    IsDistinct-Step t u step (IsDistinct-Later s t f later)
