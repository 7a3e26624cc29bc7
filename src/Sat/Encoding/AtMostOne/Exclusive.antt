-- ===== src/Sat/Encoding/AtMostOne/Exclusive.antt =====
-- What the at-most-one constraints imply (src/sat/encoding.cpp).
use lilotane_smt_csp.Prelude.{
  ◌≡◌, refl, ap, ◌∙◌, Bool, true, false, not, ◌&&◌, ◌||◌, List, [], ◌∷◌, ℤ, pos, negsuc, neg, ℕ,
  zero, suc, ◌<◌, ◌==◌, ◌≟◌, ≟_refl, int_eq, length, all, arith, Bool-cases, inl, inr, &&-eq-true,
}
use lilotane_smt_csp.Sat.Clauses.{Assignment, holds, cnf_holds}
use lilotane_smt_csp.Sat.VariableDomain.{VariableDomain}
use lilotane_smt_csp.Sat.BinaryAmo.{binary_at_most_one, encode}
use lilotane_smt_csp.Sat.BinaryAmo.Digits.{NonZero, value}
use lilotane_smt_csp.Sat.BinaryAmo.Correct.{marks, encode-holds}
use lilotane_smt_csp.Sat.Encoding.ConcatMap.{concat_map}
use lilotane_smt_csp.Sat.Encoding.Emits.{Env}

-- No literal is 0.
unfoldable pub are_proper : List ℤ → Bool
are_proper = all (λ l. not (l ≟ pos 0))

-- Two literals that hold are the same.
unfoldable pub is_exclusive : Assignment → List ℤ → Bool
is_exclusive σ [] = true
is_exclusive σ (l ∷ ls) = all (λ k. l ≟ k || not (holds σ l && holds σ k)) ls && is_exclusive σ ls

-- If the literals are proper, then they exclude each other.
unfoldable pub excludes : List ℤ → Env → Assignment → Bool
unfolding is_exclusive are_proper
excludes ls ρ σ = not (are_proper ls) || is_exclusive σ ls

pub proper-neg : (σ : Assignment) (l : ℤ) → l ≟ pos 0 ≡ false → holds σ (neg l) ≡ not (holds σ l)
proper-neg σ (pos zero) h = cc h
proper-neg σ (pos (suc n)) h = refl
proper-neg σ (negsuc n) h = ground arith

are_proper-NonZero : (ls : List ℤ) → are_proper ls ≡ true → NonZero ls
unfolding are_proper
are_proper-NonZero [] h = tt
are_proper-NonZero (l ∷ ls) h =
    let both = (&&-eq-true (not (l ≟ pos 0)) (are_proper ls)).0 h in
    (
      λ e.
          let same : l ≟ pos 0 ≡ true = ap (λ x. x ≟ pos 0) e ∙ ≟_refl (pos 0) in
          ground (arith, same, both.0),
      are_proper-NonZero ls both.1,
    )

module _ (σ : Assignment) where
  -- Behind the number that the helper variables spell no state holds.
  none_behind :
      (v k : ℕ) (l : ℤ) (ls : List ℤ)
      → v < k
      → marks σ v k ls ≡ true
      → all (λ m. l ≟ m || not (holds σ l && holds σ m)) ls ≡ true
  unfolding marks
  none_behind v k l [] lt h = refl
  none_behind v k l (m ∷ ls) lt h =
      ground (arith, none_behind v (suc k) l ls (omega (arith, lt)), h, lt)

  none_besides :
      (l : ℤ) (ls : List ℤ)
      → holds σ l ≡ false
      → all (λ m. l ≟ m || not (holds σ l && holds σ m)) ls ≡ true
  none_besides l [] h = refl
  none_besides l (m ∷ ls) h = ground (arith, none_besides l ls h, h)

  marks-is_exclusive : (v k : ℕ) (ls : List ℤ) → marks σ v k ls ≡ true → is_exclusive σ ls ≡ true
  unfolding marks is_exclusive
  marks-is_exclusive v k [] h = refl
  marks-is_exclusive v k (l ∷ ls) h = elim (Bool-cases (holds σ l)) [
    | inr off ↦ ground (arith, none_besides l ls off, marks-is_exclusive v (suc k) ls, h)
    | inl on ↦
        let here : v == k ≡ true = ground (arith, h, on) in
        ground (
          arith,
          none_behind v (suc k) l ls (ground (arith, here)),
          marks-is_exclusive v (suc k) ls,
          h,
        )
  ]

  pub binary-is_exclusive :
      (ls : List ℤ) (d : VariableDomain)
      → 0 < d.running_var_id
      → are_proper ls ≡ true
      → cnf_holds σ (encode (binary_at_most_one ls (suc (length ls)) d).0) ≡ true
      → is_exclusive σ ls ≡ true
  unfolding is_exclusive
  binary-is_exclusive [] d p h k = refl
  binary-is_exclusive (l ∷ ls) d p h k =
      let says =
        encode-holds σ (l ∷ ls) (suc (length (l ∷ ls))) d (omega arith) (omega arith)
          (are_proper-NonZero (l ∷ ls) h) p in
      marks-is_exclusive
        (value σ (binary_at_most_one (l ∷ ls) (suc (length (l ∷ ls))) d).0.bin_num_vars) 0 (l ∷ ls)
        (ground (arith, says, k))

  pub naive-exclusive :
      (l : ℤ) (ls : List ℤ)
      → l ≟ pos 0 ≡ false
      → are_proper ls ≡ true
      → cnf_holds σ (concat_map (λ k. (neg l ∷ neg k ∷ []) ∷ []) ls) ≡ true
      → all (λ k. l ≟ k || not (holds σ l && holds σ k)) ls ≡ true
  unfolding concat_map are_proper
  naive-exclusive l [] h p k = refl
  naive-exclusive l (m ∷ ls) h p k =
      let both = (&&-eq-true (not (m ≟ pos 0)) (are_proper ls)).0 p in
      let proper : m ≟ pos 0 ≡ false = ground (arith, both.0) in
      ground (arith, naive-exclusive l ls h both.1, proper-neg σ l h, proper-neg σ m proper, k)
