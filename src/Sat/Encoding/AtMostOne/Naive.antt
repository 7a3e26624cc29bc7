-- ===== src/Sat/Encoding/AtMostOne/Naive.antt =====
-- What the clauses of the naive at-most-one constraints imply (src/sat/encoding.cpp).
use lilotane_smt_csp.Prelude.{
  ◌≡◌, refl, ap, sym, ◌∙◌, true, false, not, ◌&&◌, ◌||◌, List, [], ◌∷◌, ◌++◌, ℤ, pos, negsuc, neg,
  ◌≟◌, ≟_sound, ≟_refl, int_eq, if◌then◌else◌, all, all-append, arith, Bool-cases, inl, inr,
  &&-eq-true, mem,
}
use lilotane_smt_csp.Sat.Clauses.{Clause, Assignment, holds, clause_holds, cnf_holds}
use lilotane_smt_csp.Sat.OrderedSets.{less}
use lilotane_smt_csp.Sat.Encoding.ConcatMap.{concat_map, concat_map-fail}
use lilotane_smt_csp.Sat.Encoding.AtMostOne.Exclusive.{
  are_proper, is_exclusive, proper-neg, naive-exclusive,
}

less_total : (l k : ℤ) → l ≟ k ≡ false → less l k ≡ false → less k l ≡ true
unfolding less
less_total (pos a) (pos b) h g = ground (arith, h, g)
less_total (pos a) (negsuc b) h g = refl
less_total (negsuc a) (pos b) h g = cc g
less_total (negsuc a) (negsuc b) h g = ground (arith, h, g)

unfoldable pub ordered_clauses : List ℤ → ℤ → List Clause
ordered_clauses ls l = concat_map (λ k. if less l k then (neg l ∷ neg k ∷ []) ∷ [] else []) ls

unfoldable pub naive_clauses : List ℤ → List Clause
naive_clauses [] = []
naive_clauses (l ∷ ls) = concat_map (λ k. (neg l ∷ neg k ∷ []) ∷ []) ls ++ naive_clauses ls

module _ (σ : Assignment) where
  clauses_of :
      (f : ℤ → List Clause) (xs : List ℤ) (x : ℤ)
      → mem x xs ≡ true
      → cnf_holds σ (concat_map f xs) ≡ true
      → cnf_holds σ (f x) ≡ true
  clauses_of f xs x m h = elim (Bool-cases (cnf_holds σ (f x))) [
    | inl yes_x ↦ yes_x
    | inr no_x ↦ let bad = concat_map-fail σ f xs x m no_x in ground (arith, bad, h)
  ]

  mem-proper : (x : ℤ) (ls : List ℤ) → are_proper ls ≡ true → mem x ls ≡ true → x ≟ pos 0 ≡ false
  unfolding are_proper mem
  mem-proper x [] p m = cc m
  mem-proper x (l ∷ ls) p m = elim (Bool-cases (x ≟ l)) [
    | inl same ↦ ground (arith, p, ap (λ z. z ≟ pos 0) (≟_sound x l same))
    | inr other ↦ mem-proper x ls (ground (arith, p)) (ground (arith, m, other))
  ]

  ordered-apart :
      (ls : List ℤ) (l k : ℤ)
      → are_proper ls ≡ true
      → cnf_holds σ (concat_map (ordered_clauses ls) ls) ≡ true
      → mem l ls ≡ true
      → mem k ls ≡ true
      → less l k ≡ true
      → holds σ l && holds σ k ≡ false
  unfolding ordered_clauses
  ordered-apart ls l k p h ml mk lt =
      let those_of_l = clauses_of (ordered_clauses ls) ls l ml h in
      let pair =
        clauses_of (λ m. if less l m then (neg l ∷ neg m ∷ []) ∷ [] else []) ls k mk those_of_l in
      let forbidden : cnf_holds σ ((neg l ∷ neg k ∷ []) ∷ []) ≡ true = rw lt at pair in
      ground (
        arith,
        forbidden,
        proper-neg σ l (mem-proper l ls p ml),
        proper-neg σ k (mem-proper k ls p mk),
      )

  apart-besides :
      (all_of : List ℤ) (l : ℤ) (ls : List ℤ)
      → are_proper all_of ≡ true
      → cnf_holds σ (concat_map (ordered_clauses all_of) all_of) ≡ true
      → mem l all_of ≡ true
      → ((x : ℤ) → mem x ls ≡ true → mem x all_of ≡ true)
      → all (λ k. l ≟ k || not (holds σ l && holds σ k)) ls ≡ true
  unfolding mem
  apart-besides all_of l [] p h m among = refl
  apart-besides all_of l (k ∷ ls) p h m among =
      let mk = among k (ground (arith, ≟_refl k)) in
      ground (
        arith,
        apart-besides all_of l ls p h m (λ x n. among x (ground (arith, n))),
        ordered-apart all_of l k p h m mk,
        ordered-apart all_of k l p h mk m,
        less_total l k,
      )

  pub ordered-is_exclusive :
      (all_of ls : List ℤ)
      → are_proper all_of ≡ true
      → cnf_holds σ (concat_map (ordered_clauses all_of) all_of) ≡ true
      → ((x : ℤ) → mem x ls ≡ true → mem x all_of ≡ true)
      → is_exclusive σ ls ≡ true
  unfolding is_exclusive mem
  ordered-is_exclusive all_of [] p h among = refl
  ordered-is_exclusive all_of (l ∷ ls) p h among =
      let behind : (x : ℤ) → mem x ls ≡ true → mem x all_of ≡ true =
        λ x n. among x (ground (arith, n)) in
      ground (
        arith,
        apart-besides all_of l ls p h (among l (ground (arith, ≟_refl l))) behind,
        ordered-is_exclusive all_of ls p h behind,
      )

  pub naive-is_exclusive :
      (ls : List ℤ)
      → are_proper ls ≡ true
      → cnf_holds σ (naive_clauses ls) ≡ true
      → is_exclusive σ ls ≡ true
  unfolding is_exclusive naive_clauses are_proper
  naive-is_exclusive [] p h = refl
  naive-is_exclusive (l ∷ ls) p h =
      let proper = (&&-eq-true (not (l ≟ pos 0)) (are_proper ls)).0 p in
      let first = concat_map (λ k. (neg l ∷ neg k ∷ []) ∷ []) ls in
      let both =
        (&&-eq-true (cnf_holds σ first) (cnf_holds σ (naive_clauses ls))).0
          (sym (all-append (clause_holds σ) first (naive_clauses ls)) ∙ h) in
      ground (
        arith,
        naive-exclusive σ l ls (ground (arith, proper.0)) proper.1 both.0,
        naive-is_exclusive ls proper.1 both.1,
      )
