-- ===== src/Algo/DominationResolver/Mixed.antt =====
-- Operators that differ in two arguments (src/algo/domination_resolver.cpp).
use lilotane_smt_csp.Prelude.{
  ℕ, ◌<◌, ◌≡◌, refl, Bool, true, false, List, [], ◌∷◌, ℤ, none, some, if◌then◌else◌, length, ◌≟◌,
  int_eq, pair_eq, nat_eq, arith, ≟_refl,
}
use lilotane_smt_csp.Data.Substitution.{assign}
use lilotane_smt_csp.Algo.DominationResolver.{
  dominating, dominated, different, Comparison, start, is_dominated, includes, domain,
  compare_domains, compare_arg, compare_args, finish, get_domination_status,
}

module _ (is_q : ℤ → Bool) (origin : ℤ → ℕ × ℕ) (domain_of : ℤ → List ℤ) where
  -- Two different pseudo-constants of one position, the second one's domain a proper part.
  pub record IsWider (a b : ℤ) : Type 0 where
    pub pseudo : (is_q a ≡ true) × (is_q b ≡ true)
    pub unequal : a ≟ b ≡ false
    pub same_origin : origin a ≟ origin b ≡ true
    pub larger : length (domain_of b) < length (domain_of a)
    pub contains_all : includes (domain_of a) (domain_of b) ≡ true

  compare_arg-wider :
      (a b : ℤ) (c : Comparison)
      → IsWider a b
      → is_dominated c.status ≡ false
      → compare_arg is_q origin domain_of a b c
        ≡ some (record c { status = dominating; substitutions = assign b a c.substitutions })
  unfolding compare_arg compare_domains domain
  compare_arg-wider a b c w h =
      ground (arith, w.pseudo, w.unequal, w.same_origin, w.larger, w.contains_all, h)

  compare_arg-narrower :
      (a b : ℤ) (c : Comparison)
      → IsWider b a
      → compare_arg is_q origin domain_of a b c ≡ (
          if is_dominated c.status
          then none
          else some (record c { status = dominated; substitutions = assign a b c.substitutions }))
  unfolding compare_arg compare_domains domain
  compare_arg-narrower a b c w = ground (
    arith,
    w.pseudo,
    w.unequal,
    w.same_origin,
    w.larger,
    w.contains_all,
    int_eq.beq_iff a b,
    int_eq.beq_iff b a,
    pair_eq.beq_iff (origin a) (origin b),
    pair_eq.beq_iff (origin b) (origin a),
  )

  -- Operators of one name with two arguments each. Where the first argument of the one is wider than
  -- the other's and the second narrower, the result is that it is dominated, although neither operator's
  -- domains contain the other's; and where both of its arguments are narrower, so that it is dominated,
  -- the result is that the operators are different.
  pub get_domination_status-mixed :
      (name a1 a2 b1 b2 c1 : ℤ)
      → IsWider a1 b1
      → IsWider b2 a2
      → IsWider c1 a1
      → ((get_domination_status is_q origin domain_of
            (record { name_id = name; args = a1 ∷ a2 ∷ [] })
            (record { name_id = name; args = b1 ∷ b2 ∷ [] })).status
          ≡ dominated)
        × ((get_domination_status is_q origin domain_of
              (record { name_id = name; args = a1 ∷ a2 ∷ [] })
              (record { name_id = name; args = c1 ∷ b2 ∷ [] })).status
            ≡ different)
  unfolding get_domination_status compare_args finish
  get_domination_status-mixed name a1 a2 b1 b2 c1 u v w = (
    ground (
      arith,
      ≟_refl name,
      compare_arg-wider a1 b1 start u refl,
      compare_arg-narrower a2 b2
          (record { status = dominating; substitutions = assign b1 a1 []; same_domain = [] }) v,
    ),
    ground (
      arith,
      ≟_refl name,
      compare_arg-narrower a1 c1 start w,
      compare_arg-narrower a2 b2
          (record { status = dominated; substitutions = assign a1 c1 []; same_domain = [] }) v,
    ),
  )
