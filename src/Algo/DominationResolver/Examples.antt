-- ===== src/Algo/DominationResolver/Examples.antt =====
-- Pseudo-constants 11 and 13 with two constants each, 12 and 14 with one (src/algo/domination_resolver.cpp).
use lilotane_smt_csp.Prelude.{
  ℕ, ◌≡◌, refl, Bool, false, List, [], ◌∷◌, ℤ, pos, negsuc, ◌==◌, ltb, if◌then◌else◌, arith, mem,
  int_eq,
}
use lilotane_smt_csp.Algo.DominationResolver.{includes, dominated, different, get_domination_status}
use lilotane_smt_csp.Algo.DominationResolver.Mixed.{IsWider, get_domination_status-mixed}

abbrev is_q : ℤ → Bool
is_q (pos n) = ltb 10 n
is_q (negsuc n) = false

abbrev origin : ℤ → ℕ × ℕ
origin q = (0, 0)

abbrev domain_of : ℤ → List ℤ
domain_of (pos n) =
    if n == 11
    then pos 1 ∷ pos 2 ∷ []
    else if n == 13
    then pos 1 ∷ pos 2 ∷ []
    else if n == 15
    then pos 1 ∷ pos 2 ∷ pos 3 ∷ []
    else pos 1 ∷ []
domain_of (negsuc n) = []

-- 15 has three constants.
eleven-IsWider : IsWider is_q origin domain_of (pos 11) (pos 12)
unfolding includes mem
eleven-IsWider = record {
  pseudo = (refl, refl);
  unequal = refl;
  same_origin = refl;
  larger = omega arith;
  contains_all = refl;
}

fifteen-IsWider : IsWider is_q origin domain_of (pos 15) (pos 11)
unfolding includes mem
fifteen-IsWider = record {
  pseudo = (refl, refl);
  unequal = refl;
  same_origin = refl;
  larger = omega arith;
  contains_all = refl;
}

thirteen-IsWider : IsWider is_q origin domain_of (pos 13) (pos 14)
unfolding includes mem
thirteen-IsWider = record {
  pseudo = (refl, refl);
  unequal = refl;
  same_origin = refl;
  larger = omega arith;
  contains_all = refl;
}

get_domination_status-mixed_example :
    ((get_domination_status is_q origin domain_of
        (record { name_id = pos 9; args = pos 11 ∷ pos 14 ∷ [] })
        (record { name_id = pos 9; args = pos 12 ∷ pos 13 ∷ [] })).status
      ≡ dominated)
    × ((get_domination_status is_q origin domain_of
          (record { name_id = pos 9; args = pos 11 ∷ pos 14 ∷ [] })
          (record { name_id = pos 9; args = pos 15 ∷ pos 13 ∷ [] })).status
        ≡ different)
get_domination_status-mixed_example =
    get_domination_status-mixed is_q origin domain_of (pos 9) (pos 11) (pos 14) (pos 12) (pos 13)
      (pos 15) eleven-IsWider thirteen-IsWider fifteen-IsWider
