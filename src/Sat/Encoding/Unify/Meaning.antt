-- ===== src/Sat/Encoding/Unify/Meaning.antt =====
-- What the literals of the unification of two effects say (src/sat/encoding.cpp).
use lilotane_smt_csp.Prelude.{
  ◌≡◌, ◌≢◌, pos, refl, ap, sym, ◌∙◌, Bool, true, false, not, ◌&&◌, List, [], ◌∷◌, ◌++◌, ℤ, int_eq,
  ◌≟◌, ≟_sound, ≟_refl, ≟_sym, if◌then◌else◌, mem, all, all-append, arith, Bool-cases, inl, inr,
  &&-eq-true,
}
use lilotane_smt_csp.Sat.OrderedSets.{all-set_insert}
use lilotane_smt_csp.Sat.Clauses.{Assignment, holds, clause_holds, cnf_holds}
use lilotane_smt_csp.Sat.Encoding.Emits.{Env}
use lilotane_smt_csp.Sat.Encoding.Equality.Emitted.{equality_clauses}
use lilotane_smt_csp.Sat.Encoding.Equality.Meaning.{IsReal, Chooses, equality_clauses-hold}
use lilotane_smt_csp.Sat.Encoding.Unify.Emitted.{
  unify_q_clauses, unify_q_value, unify_arg_clauses, unify_arg_value, unify_args_clauses,
  unify_args_value,
}

-- The literal is not 0.
unfoldable pub nonzero : ℤ → Bool
nonzero l = not (l ≟ pos 0)

not_zero : (l : ℤ) → l ≢ pos 0 → nonzero l ≡ true
unfolding nonzero
not_zero l h = elim (Bool-cases (l ≟ pos 0)) [
  | inl zero_l ↦ absurd (h (≟_sound l (pos 0) zero_l))
  | inr other ↦ rw other refl
]

module _ (domain : ℤ → List ℤ) (qs : List ℤ) (ρ : Env) (σ : Assignment) (real : IsReal ρ)
    (chosen : ℤ → ℤ) (choice : (q : ℤ) → mem q qs ≡ true → Chooses domain ρ σ q (chosen q)) where
  -- The constant that an argument stands for.
  pub argument_value : ℤ → ℤ
  argument_value x = if mem x qs then chosen x else x

  -- The arguments stand for the same constants.
  pub same_arguments : List ℤ → List ℤ → Bool
  unfolding argument_value
  same_arguments [] ys = true
  same_arguments (x ∷ xs) [] = true
  same_arguments (x ∷ xs) (y ∷ ys) = argument_value x ≟ argument_value y && same_arguments xs ys

  abbrev pub is_unified : Bool × List ℤ → Bool
  is_unified u = u.0 && all (holds σ) u.1

  unify_q-same :
      (b b' : Bool) (x y : ℤ) (acc : Bool × List ℤ)
      → mem x qs ≡ b
      → mem y qs ≡ b'
      → x ≟ y ≡ false
      → cnf_holds σ (unify_q_clauses domain qs b b' x y ρ) ≡ true
      → is_unified (unify_q_value domain qs b b' x y acc ρ)
        ≡ (is_unified acc && argument_value x ≟ argument_value y)
  unfolding unify_q_clauses unify_q_value argument_value
  unify_q-same true true x y (fits, s) h h' other k =
      rw (h, h')
        (ground (
          arith,
          all-append (clause_holds σ) (equality_clauses domain ρ x y ++ []) [],
          all-append (clause_holds σ) (equality_clauses domain ρ x y) [],
          equality_clauses-hold domain ρ σ real x y (chosen x) (chosen y) (choice x h)
              (choice y h'),
          all-set_insert (holds σ) (ρ.eq x y) s,
          k,
        ))
  unify_q-same true false x y (fits, s) h h' other k = elim (Bool-cases (mem y (domain x))) [
    | inl m ↦
        rw (h, h', m)
          (ground (
            arith,
            all-set_insert (holds σ) (ρ.sub x y) s,
            (choice x h).just y m,
            ≟_sym y (chosen x),
          ))
    | inr m ↦
        let apart : chosen x ≟ y ≡ true → mem y (domain x) ≡ true =
          λ e. ap (λ z. mem z (domain x)) (sym (≟_sound (chosen x) y e)) ∙ (choice x h).within in
        rw (h, h', m) (ground (arith, apart, m))
  ]
  unify_q-same false true x y (fits, s) h h' other k = elim (Bool-cases (mem x (domain y))) [
    | inl m ↦
        rw (h, h', m)
          (ground (arith, all-set_insert (holds σ) (ρ.sub y x) s, (choice y h').just x m))
    | inr m ↦
        let apart : x ≟ chosen y ≡ true → mem x (domain y) ≡ true =
          λ e. ap (λ z. mem z (domain y)) (≟_sound x (chosen y) e) ∙ (choice y h').within in
        rw (h, h', m) (ground (arith, apart, m))
  ]
  unify_q-same false false x y (fits, s) h h' other k = rw (h, h', other) (ground arith)

  unify_arg-same :
      (x y : ℤ) (acc : Bool × List ℤ)
      → cnf_holds σ (unify_arg_clauses domain qs x y ρ) ≡ true
      → is_unified (unify_arg_value domain qs x y acc ρ)
        ≡ (is_unified acc && argument_value x ≟ argument_value y)
  unfolding unify_arg_clauses unify_arg_value
  unify_arg-same x y acc k = elim (Bool-cases (x ≟ y)) [
    | inl same ↦
        let values : argument_value x ≟ argument_value y ≡ true =
          ap (λ z. argument_value x ≟ argument_value z) (sym (≟_sound x y same))
          ∙ ≟_refl (argument_value x) in
        rw same (ground (arith, values))
    | inr other ↦
        rw other (unify_q-same (mem x qs) (mem y qs) x y acc refl refl other (rw other at k))
  ]

  -- If the clauses hold, then the literals hold, where the arguments fit, exactly if the arguments
  -- stand for the same constants.
  pub unify_args-same :
      (xs ys : List ℤ) (acc : Bool × List ℤ)
      → cnf_holds σ (unify_args_clauses domain qs xs ys ρ) ≡ true
      → is_unified (unify_args_value domain qs xs ys acc ρ)
        ≡ (is_unified acc && same_arguments xs ys)
  unfolding unify_args_clauses unify_args_value same_arguments
  unify_args-same [] ys acc k = ground arith
  unify_args-same (x ∷ xs) [] acc k = ground arith
  unify_args-same (x ∷ xs) (y ∷ ys) acc k =
      let both =
        (&&-eq-true (cnf_holds σ (unify_arg_clauses domain qs x y ρ))
            (cnf_holds σ (unify_args_clauses domain qs xs ys ρ))).0
          (sym (
              all-append (clause_holds σ) (unify_arg_clauses domain qs x y ρ)
                (unify_args_clauses domain qs xs ys ρ))
            ∙ k) in
      ground (
        arith,
        unify_args-same xs ys (unify_arg_value domain qs x y acc ρ) both.1,
        unify_arg-same x y acc both.0,
      )

  unify_q-nonzero :
      (b b' : Bool) (x y : ℤ) (acc : Bool × List ℤ)
      → all nonzero acc.1 ≡ true
      → all nonzero (unify_q_value domain qs b b' x y acc ρ).1 ≡ true
  unfolding unify_q_value
  unify_q-nonzero true true x y (fits, s) h =
      ground (arith, all-set_insert nonzero (ρ.eq x y) s, not_zero (ρ.eq x y) (real.eq x y), h)
  unify_q-nonzero true false x y (fits, s) h = elim (Bool-cases (mem y (domain x))) [
    | inr m ↦ rw m h
    | inl m ↦ rw m (
        ground
          (arith, all-set_insert nonzero (ρ.sub x y) s, not_zero (ρ.sub x y) (real.sub x y), h))
  ]
  unify_q-nonzero false true x y (fits, s) h = elim (Bool-cases (mem x (domain y))) [
    | inr m ↦ rw m h
    | inl m ↦ rw m (
        ground
          (arith, all-set_insert nonzero (ρ.sub y x) s, not_zero (ρ.sub y x) (real.sub y x), h))
  ]
  unify_q-nonzero false false x y (fits, s) h = h

  unify_arg-nonzero :
      (x y : ℤ) (acc : Bool × List ℤ)
      → all nonzero acc.1 ≡ true
      → all nonzero (unify_arg_value domain qs x y acc ρ).1 ≡ true
  unfolding unify_arg_value
  unify_arg-nonzero x y acc h = elim (Bool-cases (x ≟ y)) [
    | inl same ↦ rw same h
    | inr other ↦ rw other (unify_q-nonzero (mem x qs) (mem y qs) x y acc h)
  ]

  pub unify_args-nonzero :
      (xs ys : List ℤ) (acc : Bool × List ℤ)
      → all nonzero acc.1 ≡ true
      → all nonzero (unify_args_value domain qs xs ys acc ρ).1 ≡ true
  unfolding unify_args_value
  unify_args-nonzero [] ys acc h = h
  unify_args-nonzero (x ∷ xs) [] acc h = h
  unify_args-nonzero (x ∷ xs) (y ∷ ys) acc h =
      unify_args-nonzero xs ys (unify_arg_value domain qs x y acc ρ) (unify_arg-nonzero x y acc h)
