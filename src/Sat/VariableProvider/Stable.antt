-- ===== src/Sat/VariableProvider/Stable.antt =====
-- What `varSubstitution` (src/sat/variable_provider.h) gives stays.
use lilotane_smt_csp.Prelude.{
  ℕ, ◌≡◌, ◌↔◌, refl, ap, sym, ◌∙◌, inl, inr, ℤ, some, ◌≟◌, ≟_refl, ≟_sound, arith, lookup-put,
  Option-cases, if◌then◌else◌, true,
}
use lilotane_smt_csp.Data.Signature.{USignature, usig_eq}
use lilotane_smt_csp.Sat.VariableProvider.{
  VariableProvider, var_substitution, sig_substitute, encode_q_constant_equality_var,
}
use lilotane_smt_csp.Sat.VariableProvider.Run.{
  of_substitution, of_equality, variable_for, State, substitute, equate, ask, skip, Step,
  substituted, equated, asked, skipped, Later, now, then_step, initial, pair_for,
  known_substitution, new_substitution, with_substitution, known_equality, new_equality,
}
use lilotane_smt_csp.Sat.VariableProvider.Distinct.{
  IsDistinct, initial-IsDistinct, IsDistinct-Later,
}

read-with_substitution :
    (sig other : USignature) (v : ℕ) (vp : VariableProvider)
    → variable_for (of_substitution other) (with_substitution sig v vp)
      ≡ (if other ≟ sig then some v else variable_for (of_substitution other) vp)
unfolding with_substitution variable_for
read-with_substitution sig other v vp = lookup-put other sig v vp.substitution_variables

written :
    (q c : ℤ) (s : State)
    → variable_for
        (pair_for q c s)
        (with_substitution (sig_substitute q c s.provider) s.domain.running_var_id s.provider)
      ≡ some s.domain.running_var_id
unfolding pair_for
written q c s = ground (
  arith,
  read-with_substitution (sig_substitute q c s.provider) (sig_substitute q c s.provider)
      s.domain.running_var_id s.provider,
  ≟_refl (sig_substitute q c s.provider),
)

pub recorded :
    (q c : ℤ) (s : State)
    → variable_for (pair_for q c s) (substitute q c s).provider
      ≡ some (var_substitution q c s.provider s.domain).0
unfolding substitute
recorded q c s = elim (Option-cases (variable_for (pair_for q c s) s.provider)) [
  | inr (v, h) ↦ rw (known_substitution q c s v h) h
  | inl h ↦ rw (new_substitution q c s h) (written q c s)
]

pub kept-substitute :
    (sig : USignature) (v : ℕ) (q c : ℤ) (s : State)
    → variable_for (of_substitution sig) s.provider ≡ some v
    → variable_for (of_substitution sig) (substitute q c s).provider ≡ some v
unfolding substitute pair_for
kept-substitute sig v q c s h = elim (Option-cases (variable_for (pair_for q c s) s.provider)) [
  | inr (w, k) ↦ rw (known_substitution q c s w k) h
  | inl k ↦ rw (new_substitution q c s k) (
      ground (
        arith,
        h,
        k,
        read-with_substitution (sig_substitute q c s.provider) sig s.domain.running_var_id
            s.provider,
        same,
      ))
]
  where
    same :
        sig ≟ sig_substitute q c s.provider ≡ true
        → variable_for (of_substitution sig) s.provider
          ≡ variable_for (of_substitution (sig_substitute q c s.provider)) s.provider
    same e =
        ap (λ x. variable_for (of_substitution x) s.provider)
          (≟_sound sig (sig_substitute q c s.provider) e)

pub name-substitute :
    (q c : ℤ) (s : State)
    → (substitute q c s).provider.substitute_name_id ≡ s.provider.substitute_name_id
unfolding substitute with_substitution
name-substitute q c s = elim (Option-cases (variable_for (pair_for q c s) s.provider)) [
  | inr (v, h) ↦ rw (known_substitution q c s v h) refl
  | inl h ↦ rw (new_substitution q c s h) refl
]

-- What a step keeps.
record IsKept (s t : State) : Type 0 where
  kept :
      (sig : USignature) (v : ℕ)
      → variable_for (of_substitution sig) s.provider ≡ some v
      → variable_for (of_substitution sig) t.provider ≡ some v
  name : t.provider.substitute_name_id ≡ s.provider.substitute_name_id

IsKept-ask : (q r : ℤ) (s : State) → IsKept s (ask q r s)
unfolding ask variable_for
IsKept-ask q r s = elim (Option-cases (variable_for (of_equality (q, r)) s.provider)) [
  | inr (v, h) ↦
      rw (known_equality q r s.provider v h) (record { kept = λ sig w k. k; name = refl })
  | inl h ↦ rw (new_equality q r s.provider h) (record { kept = λ sig w k. k; name = refl })
]

IsKept-Step : (s t : State) → Step s t → IsKept s t
unfolding equate skip encode_q_constant_equality_var variable_for
IsKept-Step s _ (substituted q c) = record {
  kept = λ sig v. kept-substitute sig v q c s;
  name = name-substitute q c s;
}
IsKept-Step s _ (equated q r) = record { kept = λ sig v h. h; name = refl }
IsKept-Step s _ (asked q r) = IsKept-ask q r s
IsKept-Step s _ skipped = record { kept = λ sig v h. h; name = refl }

IsKept-trans : (s t u : State) → IsKept s t → IsKept t u → IsKept s u
IsKept-trans s t u a b = record {
  kept = λ sig v h. b.kept sig v (a.kept sig v h);
  name = b.name ∙ a.name;
}

IsKept-Later : (s t : State) → Later s t → IsKept s t
IsKept-Later s _ now = record { kept = λ sig v h. h; name = refl }
IsKept-Later s _ (then_step {t} {u} later step) =
    IsKept-trans s t u (IsKept-Later s t later) (IsKept-Step t u step)

same_pair : (q c q' c' : ℤ) (s t : State) → pair_for q c s ≡ pair_for q' c' t → (q ≡ q') × (c ≡ c')
unfolding pair_for sig_substitute
same_pair q c q' c' s t h = (cc, cc)

pub pair_again :
    (q c q' c' : ℤ) (s t : State)
    → t.provider.substitute_name_id ≡ s.provider.substitute_name_id
    → q ≡ q'
    → c ≡ c'
    → pair_for q c s ≡ pair_for q' c' t
unfolding pair_for sig_substitute
pair_again q c q' c' s t name h k = cc

some_injective : (v w : ℕ) → some v ≡ some w → v ≡ w
some_injective v w h = cc

-- Let `varSubstitution` give a variable for two constants at some time after the construction, and
-- again for two constants at any later time, with any operations before and between: the
-- variables are the same exactly if the constants are.
pub var_substitution-Later :
    (primitive_id substitute_id q c q' c' : ℤ) (s t : State)
    → Later (initial primitive_id substitute_id) s
    → Later (substitute q c s) t
    → ((var_substitution q c s.provider s.domain).0
        ≡ (var_substitution q' c' t.provider t.domain).0)
      ↔ ((q ≡ q') × (c ≡ c'))
unfolding pair_for
var_substitution-Later primitive_id substitute_id q c q' c' s t before between = (only_if, if_same)
  where
    v : ℕ
    v = (var_substitution q c s.provider s.domain).0

    v' : ℕ
    v' = (var_substitution q' c' t.provider t.domain).0

    step' : Step t (substitute q' c' t)
    step' = substituted q' c'

    distinct_then : IsDistinct (substitute q' c' t)
    distinct_then =
        IsDistinct-Later (substitute q c s) (substitute q' c' t)
          (IsDistinct-Later (initial primitive_id substitute_id) (substitute q c s)
            (initial-IsDistinct primitive_id substitute_id) (then_step before (substituted q c)))
          (then_step between step')

    kept_then : IsKept (substitute q c s) (substitute q' c' t)
    kept_then = IsKept-Later (substitute q c s) (substitute q' c' t) (then_step between step')

    first : variable_for (pair_for q c s) (substitute q' c' t).provider ≡ some v
    first = kept_then.kept (sig_substitute q c s.provider) v (recorded q c s)

    second : variable_for (pair_for q' c' t) (substitute q' c' t).provider ≡ some v'
    second = recorded q' c' t

    only_if : v ≡ v' → (q ≡ q') × (c ≡ c')
    only_if h = same_pair q c q' c' s t (
        distinct_then.distinct (pair_for q c s) (pair_for q' c' t) v
          (distinct_then.used (sig_substitute q c s.provider) v first) first
          (second ∙ ap some (sym h)))

    same : q ≡ q' → c ≡ c' → pair_for q c s ≡ pair_for q' c' t
    same =
        pair_again q c q' c' s t
          ((IsKept-Later (substitute q c s) t between).name ∙ name-substitute q c s)

    some_v : q ≡ q' → c ≡ c' → some v ≡ some v'
    some_v h k =
        sym first ∙ ap (λ p. variable_for p (substitute q' c' t).provider) (same h k) ∙ second

    if_same : (q ≡ q') × (c ≡ c') → v ≡ v'
    if_same (h, k) = some_injective v v' (some_v h k)
