-- ===== src/Algo/Planner/MergeConstraints/Correct.antt =====
-- What the merging of constraints (src/algo/planner.cpp) keeps and reaches.
use lilotane_smt_csp.Prelude.{
  ℕ, zero, suc, ◌≤◌, ◌≡◌, refl, ap, ◌∙◌, Bool, true, false, not, ◌&&◌, ◌||◌, List, [], ◌∷◌, length,
  all, All, arith, ℤ, list_beq, int_eq, Bool-cases, inl, inr,
}
use lilotane_smt_csp.Data.SubstitutionConstraint.{
  SubstitutionConstraint, IntPair, can_merge, merge_constraint, is_valid,
}
use lilotane_smt_csp.Data.SubstitutionConstraint.Laws.{
  IsWfConstraint, is_valid-merge_constraint, can_merge-merge_constraint, involved-merge_constraint,
  can_merge-involved,
}
use lilotane_smt_csp.Algo.Planner.MergeConstraints.{
  last_first, merge_into, merge_from, merge_constraints,
}

-- The constraint does not exclude the substitution of these pseudo-constants.
pub admits_one : List ℤ → List IntPair → SubstitutionConstraint → Bool
admits_one qs sub c = not (list_beq c.involved_q_consts qs) || is_valid sub true c

pub admits : List ℤ → List IntPair → List SubstitutionConstraint → Bool
unfolding admits_one
admits qs sub cs = all (admits_one qs sub) cs

admits_one-merge :
    (qs : List ℤ) (sub : List IntPair) (x c : SubstitutionConstraint)
    → IsWfConstraint x
    → can_merge x c ≡ true
    → admits_one qs sub (merge_constraint x c) ≡ (admits_one qs sub c && admits_one qs sub x)
unfolding admits_one
admits_one-merge qs sub x c w h = ground (
  arith,
  is_valid-merge_constraint x c sub w h,
  ap (λ q. list_beq q qs) (involved-merge_constraint x c),
  ap (λ q. list_beq q qs) (can_merge-involved x c h),
)

all-last_first :
    (p : SubstitutionConstraint → Bool) (xs : List SubstitutionConstraint)
    → all p (last_first xs) ≡ all p xs
unfolding last_first
all-last_first p [] = refl
all-last_first p (x ∷ []) = refl
all-last_first p (x ∷ y ∷ ys) = ground (arith, all-last_first p (y ∷ ys))

All-last_first :
    (xs : List SubstitutionConstraint) → All IsWfConstraint xs → All IsWfConstraint (last_first xs)
unfolding last_first
All-last_first [] w = tt
All-last_first (x ∷ []) w = w
All-last_first (x ∷ y ∷ ys) w = go (last_first (y ∷ ys)) (All-last_first (y ∷ ys) w.1)
  where
    go :
        (zs : List SubstitutionConstraint)
        → All IsWfConstraint zs
        → All IsWfConstraint (elim zs [ [] ↦ x ∷ [] | l ∷ rest ↦ l ∷ x ∷ rest ])
    go [] v = (w.0, tt)
    go (l ∷ rest) v = (v.0, (w.0, v.1))

length-last_first : (xs : List SubstitutionConstraint) → length (last_first xs) ≡ length xs
unfolding last_first
length-last_first [] = refl
length-last_first (x ∷ []) = refl
length-last_first (x ∷ y ∷ ys) = ground (arith, length-last_first (y ∷ ys))

-- What one run of the inner loop makes of the constraint and of those behind it.
record IsMergedInto (fuel : ℕ) (c : SubstitutionConstraint) (xs : List SubstitutionConstraint)
    (r : SubstitutionConstraint × List SubstitutionConstraint) : Type 0 where
  same_admitted :
      (qs : List ℤ) (sub : List IntPair)
      → (admits_one qs sub r.0 && all (admits_one qs sub) r.1)
        ≡ (admits_one qs sub c && all (admits_one qs sub) xs)
  still_wf : All IsWfConstraint r.1
  no_longer : length r.1 ≤ length xs
  same_key :
      (y : SubstitutionConstraint)
      → (can_merge y r.0 ≡ can_merge y c) × (can_merge r.0 y ≡ can_merge c y)
  kept : (p : SubstitutionConstraint → Bool) → all p xs ≡ true → all p r.1 ≡ true
  exhausted : length xs ≤ fuel → all (λ y. not (can_merge y c)) r.1 ≡ true

merged-IsMergedInto :
    (fuel : ℕ) (c x : SubstitutionConstraint) (xs : List SubstitutionConstraint)
    (r : SubstitutionConstraint × List SubstitutionConstraint)
    → can_merge x c ≡ true
    → IsWfConstraint x
    → IsMergedInto fuel (merge_constraint x c) (last_first xs) r
    → IsMergedInto (suc fuel) c (x ∷ xs) r
merged-IsMergedInto fuel c x xs r h w m = record {
  same_admitted = λ qs sub. ground (
    arith,
    m.same_admitted qs sub,
    admits_one-merge qs sub x c w h,
    all-last_first (admits_one qs sub) xs,
  );
  still_wf = m.still_wf;
  no_longer = omega (arith, m.no_longer, length-last_first xs);
  same_key = λ y. (
    (m.same_key y).0 ∙ (can_merge-merge_constraint y x c).0,
    (m.same_key y).1 ∙ (can_merge-merge_constraint y x c).1,
  );
  kept = λ p k. m.kept p (all-last_first p xs ∙ ground arith);
  exhausted = λ b. all-key r.1 (m.exhausted (omega (arith, length-last_first xs)));
}
  where
    all-key :
        (ys : List SubstitutionConstraint)
        → all (λ y. not (can_merge y (merge_constraint x c))) ys ≡ true
        → all (λ y. not (can_merge y c)) ys ≡ true
    all-key [] k = refl
    all-key (y ∷ ys) k = ground (arith, can_merge-merge_constraint y x c, all-key ys)

passed-IsMergedInto :
    (fuel : ℕ) (c x : SubstitutionConstraint) (xs : List SubstitutionConstraint)
    (r : SubstitutionConstraint × List SubstitutionConstraint)
    → can_merge x c ≡ false
    → IsWfConstraint x
    → IsMergedInto fuel c xs r
    → IsMergedInto (suc fuel) c (x ∷ xs) (r.0, x ∷ r.1)
passed-IsMergedInto fuel c x xs r h w m = record {
  same_admitted = λ qs sub. ground (arith, m.same_admitted qs sub);
  still_wf = (w, m.still_wf);
  no_longer = omega (arith, m.no_longer);
  same_key = m.same_key;
  kept = λ p k. ground (arith, m.kept p);
  exhausted = λ b. ground (arith, m.exhausted (omega (arith, b)), h);
}

merge_into-IsMergedInto :
    (fuel : ℕ) (c : SubstitutionConstraint) (xs : List SubstitutionConstraint)
    → All IsWfConstraint xs
    → IsMergedInto fuel c xs (merge_into fuel c xs)
unfolding merge_into
merge_into-IsMergedInto zero c [] w = unmerged
  where
    unmerged : IsMergedInto zero c [] (c, [])
    unmerged = record {
      same_admitted = λ qs sub. refl;
      still_wf = tt;
      no_longer = omega arith;
      same_key = λ y. (refl, refl);
      kept = λ p k. refl;
      exhausted = λ b. refl;
    }
merge_into-IsMergedInto zero c (x ∷ xs) w = record {
  same_admitted = λ qs sub. refl;
  still_wf = w;
  no_longer = omega arith;
  same_key = λ y. (refl, refl);
  kept = λ p k. k;
  exhausted = λ b. absurd (omega arith);
}
merge_into-IsMergedInto (suc fuel) c [] w = record {
  same_admitted = λ qs sub. refl;
  still_wf = tt;
  no_longer = omega arith;
  same_key = λ y. (refl, refl);
  kept = λ p k. refl;
  exhausted = λ b. refl;
}
merge_into-IsMergedInto (suc fuel) c (x ∷ xs) w = elim (Bool-cases (can_merge x c)) [
  | inl hit ↦ rw hit (
      merged-IsMergedInto fuel c x xs (merge_into fuel (merge_constraint x c) (last_first xs)) hit
        w.0
        (merge_into-IsMergedInto fuel (merge_constraint x c) (last_first xs)
          (All-last_first xs w.1)))
  | inr miss ↦ rw miss (
      passed-IsMergedInto fuel c x xs (merge_into fuel c xs) miss w.0
        (merge_into-IsMergedInto fuel c xs w.1))
]

-- The outer loop: the same substitutions are admitted.
merge_from-admits :
    (fuel : ℕ) (cs : List SubstitutionConstraint) (qs : List ℤ) (sub : List IntPair)
    → All IsWfConstraint cs
    → all (admits_one qs sub) (merge_from fuel cs) ≡ all (admits_one qs sub) cs
unfolding merge_from
merge_from-admits zero cs qs sub w = refl
merge_from-admits (suc fuel) [] qs sub w = refl
merge_from-admits (suc fuel) (c ∷ cs) qs sub w =
    ap (λ b. admits_one qs sub (merge_into (length cs) c cs).0 && b)
      (merge_from-admits fuel (merge_into (length cs) c cs).1 qs sub m.still_wf)
    ∙ m.same_admitted qs sub
  where
    m : IsMergedInto (length cs) c cs (merge_into (length cs) c cs)
    m = merge_into-IsMergedInto (length cs) c cs w.1

-- The merged constraints of an operator admit exactly the substitutions of the same pseudo-constants
-- that all of the constraints admit.
pub merge_constraints-admits :
    (cs : List SubstitutionConstraint) (qs : List ℤ) (sub : List IntPair)
    → All IsWfConstraint cs
    → admits qs sub (merge_constraints cs) ≡ admits qs sub cs
unfolding merge_constraints admits
merge_constraints-admits cs qs sub w = merge_from-admits (length cs) cs qs sub w

-- No constraint of the list can be merged into one before it.
pub IsMerged : List SubstitutionConstraint → Type 0
IsMerged [] = Unit
IsMerged (c ∷ cs) = (all (λ y. not (can_merge y c)) cs ≡ true) × IsMerged cs

merge_from-avoids :
    (fuel : ℕ) (cs : List SubstitutionConstraint) (c : SubstitutionConstraint)
    → All IsWfConstraint cs
    → all (λ y. not (can_merge y c)) cs ≡ true
    → all (λ y. not (can_merge y c)) (merge_from fuel cs) ≡ true
unfolding merge_from
merge_from-avoids zero cs c w h = h
merge_from-avoids (suc fuel) [] c w h = refl
merge_from-avoids (suc fuel) (d ∷ cs) c w h = ground (
  arith,
  (m.same_key c).1,
  m.kept (λ y. not (can_merge y c)),
  merge_from-avoids fuel (merge_into (length cs) d cs).1 c m.still_wf,
)
  where
    m : IsMergedInto (length cs) d cs (merge_into (length cs) d cs)
    m = merge_into-IsMergedInto (length cs) d cs w.1

all-same_key :
    (c d : SubstitutionConstraint) (ys : List SubstitutionConstraint)
    → ((y : SubstitutionConstraint) → can_merge y d ≡ can_merge y c)
    → all (λ y. not (can_merge y c)) ys ≡ true
    → all (λ y. not (can_merge y d)) ys ≡ true
all-same_key c d [] key h = refl
all-same_key c d (y ∷ ys) key h = ground (arith, key y, all-same_key c d ys key)

merge_from-IsMerged :
    (fuel : ℕ) (cs : List SubstitutionConstraint)
    → All IsWfConstraint cs
    → length cs ≤ fuel
    → IsMerged (merge_from fuel cs)
unfolding merge_from IsMerged
merge_from-IsMerged zero [] w b = tt
merge_from-IsMerged zero (c ∷ cs) w b = absurd (omega arith)
merge_from-IsMerged (suc fuel) [] w b = tt
merge_from-IsMerged (suc fuel) (c ∷ cs) w b = (
  merge_from-avoids fuel (merge_into (length cs) c cs).1 (merge_into (length cs) c cs).0 m.still_wf
      (all-same_key c (merge_into (length cs) c cs).0 (merge_into (length cs) c cs).1
        (λ y. (m.same_key y).0) (m.exhausted (omega arith))),
  merge_from-IsMerged fuel (merge_into (length cs) c cs).1 m.still_wf (omega (arith, m.no_longer)),
)
  where
    m : IsMergedInto (length cs) c cs (merge_into (length cs) c cs)
    m = merge_into-IsMergedInto (length cs) c cs w.1

-- The merging goes as far as it can: of the merged constraints no two can be merged, so that the
-- rounds that the loops are given are enough.
pub merge_constraints-IsMerged :
    (cs : List SubstitutionConstraint) → All IsWfConstraint cs → IsMerged (merge_constraints cs)
unfolding merge_constraints
merge_constraints-IsMerged cs w = merge_from-IsMerged (length cs) cs w (omega arith)
