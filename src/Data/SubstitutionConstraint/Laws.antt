-- ===== src/Data/SubstitutionConstraint/Laws.antt =====
-- What a constraint's operations (src/data/substitution_constraint.h) make of the substitutions that
-- it admits.
use lilotane_smt_csp.Prelude.{
  ◌≡◌, refl, sym, ◌↔◌, true, not, ◌&&◌, List, [], ◌∷◌, ℤ, ◌≟◌, list_beq_iff, int_eq, pair_eq, arith,
  Bool-cases, inl, inr, ==ℤ_iff,
}
use lilotane_smt_csp.Sat.LiteralTree.{contains}
use lilotane_smt_csp.Sat.LiteralTree.Paths.{IsWf}
use lilotane_smt_csp.Sat.LiteralTree.Combine.{contains-merge, contains-intersect}
use lilotane_smt_csp.Data.SubstitutionConstraint.{
  Polarity, IntPair, SubstitutionConstraint, fix_polarity, keep_valid, keep_invalid, is_valid,
  can_merge, same_polarity, merge_constraint, involves_superset_of, involved_from, drop_until,
  is_nil,
}

-- The trees of a constraint have one child to a key.
pub record IsWfConstraint (c : SubstitutionConstraint) : Type 0 where
  pub valid_wf : IsWf c.valid_substitutions
  pub invalid_wf : IsWf c.invalid_substitutions

-- Where `canMerge` allows it, the merged constraint admits exactly the substitutions of the same
-- pseudo-constants that both constraints admit.
pub is_valid-merge_constraint :
    (other c : SubstitutionConstraint) (sub : List IntPair)
    → IsWfConstraint other
    → can_merge other c ≡ true
    → is_valid sub true (merge_constraint other c)
      ≡ (is_valid sub true c && is_valid sub true other)
unfolding is_valid merge_constraint can_merge same_polarity
is_valid-merge_constraint other c sub wf h = ground (
  arith,
  contains-merge sub c.invalid_substitutions other.invalid_substitutions wf.invalid_wf,
  contains-intersect sub c.valid_substitutions other.valid_substitutions,
)

-- `fixPolarity`, of whatever polarity, of a constraint whose two trees say opposite things of a
-- substitution: it is admitted exactly if it is in the tree of valid ones.
pub is_valid-fix_polarity :
    (p : Polarity) (c : SubstitutionConstraint) (sub : List IntPair)
    → contains sub c.invalid_substitutions ≡ not (contains sub c.valid_substitutions)
    → is_valid sub true (fix_polarity p c) ≡ contains sub c.valid_substitutions
unfolding is_valid fix_polarity keep_valid keep_invalid
is_valid-fix_polarity p c sub h = ground arith

-- The query's elements are found in the list from left to right; a found element may serve again for
-- the next one.
pub data IsWithin : List ℤ → List ℤ → Type 0 where
  done : {xs : List ℤ} → IsWithin [] xs
  found : {q : ℤ} {qs xs : List ℤ} → IsWithin qs (q ∷ xs) → IsWithin (q ∷ qs) (q ∷ xs)
  skip : {x : ℤ} {qs xs : List ℤ} → IsWithin qs xs → IsWithin qs (x ∷ xs)

drop_until-weaken :
    (qs : List ℤ) (q : ℤ) (xs : List ℤ)
    → ((x : ℤ) (ys : List ℤ) → involved_from qs ys ≡ true → involved_from qs (x ∷ ys) ≡ true)
    → involved_from qs (drop_until q xs) ≡ true
    → involved_from qs xs ≡ true
unfolding drop_until
drop_until-weaken qs q [] weaken h = h
drop_until-weaken qs q (x ∷ xs) weaken h =
    ground (arith, drop_until-weaken qs q xs weaken, weaken x xs)

involved_from-weaken :
    (qs : List ℤ) (x : ℤ) (xs : List ℤ)
    → involved_from qs xs ≡ true
    → involved_from qs (x ∷ xs) ≡ true
unfolding involved_from drop_until is_nil
involved_from-weaken [] x xs h = refl
involved_from-weaken (q ∷ qs) x xs h =
    ground
      (arith, drop_until-weaken qs q xs (involved_from-weaken qs), involved_from-weaken qs x xs)

IsWithin-involved_from : {qs xs : List ℤ} → IsWithin qs xs → involved_from qs xs ≡ true
unfolding involved_from drop_until is_nil
IsWithin-involved_from done = refl
IsWithin-involved_from (found {q = q} w) = ground (arith, IsWithin-involved_from w, ==ℤ_iff q q)
IsWithin-involved_from (skip {x = x} {qs = qs} {xs = xs} w) =
    involved_from-weaken qs x xs (IsWithin-involved_from w)

involved_from-IsWithin : (qs xs : List ℤ) → involved_from qs xs ≡ true → IsWithin qs xs
unfolding involved_from drop_until is_nil
involved_from-IsWithin [] xs h = done
involved_from-IsWithin (q ∷ qs) [] h = cc
involved_from-IsWithin (q ∷ qs) (x ∷ xs) h = elim (Bool-cases (x ≟ q)) [
  | inl hit ↦
      rw (sym ((==ℤ_iff x q).0 hit)) (found (involved_from-IsWithin qs (x ∷ xs) (ground arith)))
  | inr miss ↦ skip (involved_from-IsWithin (q ∷ qs) xs (ground arith))
]

-- `involvesSupersetOf` holds exactly if the query's pseudo-constants are found among the involved ones
-- in their order, where one involved pseudo-constant may serve several equal neighbours.
pub involves_superset_of-iff_IsWithin :
    (qs : List ℤ) (c : SubstitutionConstraint)
    → (involves_superset_of qs c ≡ true) ↔ IsWithin qs c.involved_q_consts
unfolding involves_superset_of
involves_superset_of-iff_IsWithin qs c =
    (involved_from-IsWithin qs c.involved_q_consts, λ w. IsWithin-involved_from w)

-- Merging keeps what `canMerge` reads.
pub can_merge-merge_constraint :
    (x y c : SubstitutionConstraint)
    → (can_merge x (merge_constraint y c) ≡ can_merge x c)
      × (can_merge (merge_constraint y c) x ≡ can_merge c x)
unfolding can_merge merge_constraint same_polarity
can_merge-merge_constraint x y c = (ground arith, ground arith)

pub involved-merge_constraint :
    (y c : SubstitutionConstraint) → (merge_constraint y c).involved_q_consts ≡ c.involved_q_consts
unfolding merge_constraint
involved-merge_constraint y c = ground arith

pub can_merge-involved :
    (y c : SubstitutionConstraint)
    → can_merge y c ≡ true
    → y.involved_q_consts ≡ c.involved_q_consts
unfolding can_merge
can_merge-involved y c h = ground (arith, list_beq_iff c.involved_q_consts y.involved_q_consts)
