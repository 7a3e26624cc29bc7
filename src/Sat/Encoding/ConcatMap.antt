-- ===== src/Sat/Encoding/ConcatMap.antt =====
-- The clauses that a loop of the encoding (src/sat/encoding.cpp) adds for the elements of a list.
use lilotane_smt_csp.Prelude.{
  ◌≡◌, refl, ap, sym, ◌∙◌, &&-eq-true, Bool, true, false, List, [], ◌∷◌, ◌++◌, ℤ, All, all,
  all-append, arith, mem, int_eq, ◌≟◌, ≟_sound, ≟_refl,
}
use lilotane_smt_csp.Sat.Clauses.{Clause, Assignment, clause_holds, cnf_holds}

unfoldable pub concat_map : {X : Type 0} → (X → List Clause) → List X → List Clause
concat_map f [] = []
concat_map f (x ∷ xs) = f x ++ concat_map f xs

-- Clauses of the elements of a list.
module _ (σ : Assignment) (f : ℤ → List Clause) where
  pub concat_map-hold :
      (xs : List ℤ)
      → ((x : ℤ) → mem x xs ≡ true → cnf_holds σ (f x) ≡ true)
      → cnf_holds σ (concat_map f xs) ≡ true
  unfolding concat_map mem
  concat_map-hold [] h = refl
  concat_map-hold (x ∷ xs) h = ground (
    arith,
    all-append (clause_holds σ) (f x) (concat_map f xs),
    h x (ground (arith, ≟_refl x)),
    concat_map-hold xs (λ y m. h y (ground (arith))),
  )

  pub concat_map-fail :
      (xs : List ℤ) (x : ℤ)
      → mem x xs ≡ true
      → cnf_holds σ (f x) ≡ false
      → cnf_holds σ (concat_map f xs) ≡ false
  unfolding concat_map mem
  concat_map-fail [] x m h = cc
  concat_map-fail (y ∷ xs) x m h =
      ground
        (arith, all-append (clause_holds σ) (f y) (concat_map f xs), concat_map-fail xs x, same)
    where
      same : x ≟ y ≡ true → cnf_holds σ (f x) ≡ cnf_holds σ (f y)
      same e = ap (λ z. cnf_holds σ (f z)) (≟_sound x y e)

-- Clauses of the elements of a list, each of which says `says`.
pub concat_map-says :
    {X : Type 0} (σ : Assignment) (f : X → List Clause) (says : X → Bool) (xs : List X)
    → All (λ x. cnf_holds σ (f x) ≡ says x) xs
    → cnf_holds σ (concat_map f xs) ≡ all says xs
unfolding concat_map
concat_map-says σ f says [] h = refl
concat_map-says σ f says (x ∷ xs) h = ground (
  arith,
  all-append (clause_holds σ) (f x) (concat_map f xs),
  h.0,
  concat_map-says σ f says xs h.1,
)

-- Clauses of the elements of a list, which imply `says` of each.
pub concat_map-implies :
    {X : Type 0} (σ : Assignment) (f : X → List Clause) (says : X → Bool) (xs : List X)
    → ((x : X) → cnf_holds σ (f x) ≡ true → says x ≡ true)
    → cnf_holds σ (concat_map f xs) ≡ true
    → all says xs ≡ true
unfolding concat_map
concat_map-implies σ f says [] each h = refl
concat_map-implies σ f says (x ∷ xs) each h =
    let both =
      (&&-eq-true (cnf_holds σ (f x)) (cnf_holds σ (concat_map f xs))).0
        (sym (all-append (clause_holds σ) (f x) (concat_map f xs)) ∙ h) in
    ground (arith, each x both.0, concat_map-implies σ f says xs each both.1)

-- Clauses one by one.
pub concat_map-clauses :
    (σ : Assignment) (cs : List Clause) → cnf_holds σ (concat_map (λ c. c ∷ []) cs) ≡ cnf_holds σ cs
unfolding concat_map
concat_map-clauses σ [] = refl
concat_map-clauses σ (c ∷ cs) = ground (arith, concat_map-clauses σ cs)
