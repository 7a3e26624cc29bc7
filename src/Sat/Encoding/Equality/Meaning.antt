-- ===== src/Sat/Encoding/Equality/Meaning.antt =====
-- What the clauses of `encodeQConstEquality` (src/sat/encoding.cpp) say.
use lilotane_smt_csp.Prelude.{
  ◌≡◌, ◌≢◌, refl, ap, ◌∙◌, some, Bool, true, false, not, ◌&&◌, ◌||◌, iff, List, [], ◌∷◌, ◌++◌, ℤ,
  pos, neg, all-append, arith, mem, int_eq, ◌≟◌, ≟_sound, ≟_refl, Bool-cases, inl, inr, ◌⊎◌,
}
use lilotane_smt_csp.Sat.Clauses.{Assignment, holds, clause_holds, cnf_holds, holds-neg}
use lilotane_smt_csp.Sat.Encoding.{Encoder}
use lilotane_smt_csp.Sat.Encoding.Emits.{Env, Agrees, Does-says, state_after}
use lilotane_smt_csp.Sat.Encoding.ConcatMap.{concat_map, concat_map-hold, concat_map-fail}
use lilotane_smt_csp.Sat.Encoding.Equality.{common, missing, encode_q_const_equality}
use lilotane_smt_csp.Sat.Encoding.Equality.Emitted.{
  equivalent_clauses, implies_equality_clauses, implies_inequality_clauses, relate_clauses,
  equality_clauses, Known, knowing, encode_q_const_equality_rule,
}

pub mem-common : (x : ℤ) (xs ys : List ℤ) → mem x (common xs ys) ≡ (mem x xs && mem x ys)
unfolding common mem
mem-common x [] ys = refl
mem-common x (y ∷ xs) ys = ground (arith, mem-common x xs ys, same)
  where
    same : x ≟ y ≡ true → mem x ys ≡ mem y ys
    same h = ap (λ z. mem z ys) (≟_sound x y h)

pub mem-missing : (x : ℤ) (xs ys : List ℤ) → mem x (missing xs ys) ≡ (mem x xs && not (mem x ys))
unfolding missing mem
mem-missing x [] ys = refl
mem-missing x (y ∷ xs) ys = ground (arith, mem-missing x xs ys, same)
  where
    same : x ≟ y ≡ true → mem x ys ≡ mem y ys
    same h = ap (λ z. mem z ys) (≟_sound x y h)

-- No literal is 0.
pub record IsReal (ρ : Env) : Type 0 where
  pub sub : (q c : ℤ) → ρ.sub q c ≢ pos 0
  pub eq : (q r : ℤ) → ρ.eq q r ≢ pos 0

module _ (domain : ℤ → List ℤ) (ρ : Env) (σ : Assignment) where
  -- Of the substitutions of `q` by its domain, just that by `c` holds, which is in the domain.
  pub record Chooses (q c : ℤ) : Type 0 where
    pub within : mem c (domain q) ≡ true
    pub just : (x : ℤ) → mem x (domain q) ≡ true → holds σ (ρ.sub q x) ≡ x ≟ c

  module _ (real : IsReal ρ) (q1 q2 c1 c2 : ℤ) (first : Chooses q1 c1)
      (second : Chooses q2 c2) where
    e : Bool
    e = holds σ (ρ.eq q1 q2)

    not_equal : holds σ (neg (ρ.eq q1 q2)) ≡ not (holds σ (ρ.eq q1 q2))
    not_equal = holds-neg σ (ρ.eq q1 q2) (real.eq q1 q2)

    equivalent-holds :
        (x : ℤ)
        → mem x (domain q1) ≡ true
        → mem x (domain q2) ≡ true
        → cnf_holds σ (equivalent_clauses (ρ.eq q1 q2) q1 q2 x ρ)
          ≡ (not (holds σ (ρ.eq q1 q2)) || iff (x ≟ c1) (x ≟ c2))
    unfolding equivalent_clauses
    equivalent-holds x m n = ground (
      arith,
      not_equal,
      holds-neg σ (ρ.sub q1 x) (real.sub q1 x),
      holds-neg σ (ρ.sub q2 x) (real.sub q2 x),
      first.just x m,
      second.just x n,
    )

    implies_equality-holds :
        (x : ℤ)
        → mem x (domain q1) ≡ true
        → mem x (domain q2) ≡ true
        → cnf_holds σ (implies_equality_clauses (ρ.eq q1 q2) q1 q2 x ρ)
          ≡ (not (x ≟ c1) || (not (x ≟ c2) || holds σ (ρ.eq q1 q2)))
    unfolding implies_equality_clauses
    implies_equality-holds x m n = ground (
      arith,
      holds-neg σ (ρ.sub q1 x) (real.sub q1 x),
      holds-neg σ (ρ.sub q2 x) (real.sub q2 x),
      first.just x m,
      second.just x n,
    )

    implies_inequality-holds :
        (q c x : ℤ)
        → Chooses q c
        → mem x (domain q) ≡ true
        → cnf_holds σ (implies_inequality_clauses (ρ.eq q1 q2) q x ρ)
          ≡ (not (x ≟ c) || not (holds σ (ρ.eq q1 q2)))
    unfolding implies_inequality_clauses
    implies_inequality-holds q c x choice m =
        ground (arith, not_equal, holds-neg σ (ρ.sub q x) (real.sub q x), choice.just x m)

    -- The groups of clauses, where the equality's variable has the right value and where not.
    module _ (g : List ℤ)
        (both : (x : ℤ) → mem x g ≡ (mem x (domain q1) && mem x (domain q2))) where
      all_hold :
          holds σ (ρ.eq q1 q2) ≡ (c1 ≟ c2)
          → (cnf_holds σ (concat_map (λ d. equivalent_clauses (ρ.eq q1 q2) q1 q2 d ρ) g) ≡ true)
            × (cnf_holds σ (concat_map (λ d. implies_equality_clauses (ρ.eq q1 q2) q1 q2 d ρ) g)
                ≡ true)
            × (cnf_holds σ (
                  concat_map
                    (λ d. implies_inequality_clauses (ρ.eq q1 q2) q1 d ρ)
                    (missing (domain q1) (domain q2)))
                ≡ true)
            × (cnf_holds σ (
                  concat_map
                    (λ d. implies_inequality_clauses (ρ.eq q1 q2) q2 d ρ)
                    (missing (domain q2) (domain q1)))
                ≡ true)
      all_hold h = (
        concat_map-hold σ (λ d. equivalent_clauses (ρ.eq q1 q2) q1 q2 d ρ) g
            (λ x m. ground (arith, equivalent-holds x, both x, h, to_second x)),
        concat_map-hold σ (λ d. implies_equality_clauses (ρ.eq q1 q2) q1 q2 d ρ) g
            (λ x m. ground (arith, implies_equality-holds x, both x, h, to_second x)),
        concat_map-hold σ (λ d. implies_inequality_clauses (ρ.eq q1 q2) q1 d ρ)
            (missing (domain q1) (domain q2))
            (λ x m. ground (
              arith,
              implies_inequality-holds q1 c1 x first,
              mem-missing x (domain q1) (domain q2),
              h,
              to_second x,
              second_member x,
            )),
        concat_map-hold σ (λ d. implies_inequality_clauses (ρ.eq q1 q2) q2 d ρ)
            (missing (domain q2) (domain q1))
            (λ x m. ground (
              arith,
              implies_inequality-holds q2 c2 x second,
              mem-missing x (domain q2) (domain q1),
              h,
              to_first x,
              first_member x,
            )),
      )
        where
          to_second : (x : ℤ) → x ≟ c1 ≡ true → (x ≟ c2) ≡ (c1 ≟ c2)
          to_second x k = ap (λ z. z ≟ c2) (≟_sound x c1 k)

          to_first : (x : ℤ) → x ≟ c2 ≡ true → (c1 ≟ x) ≡ (c1 ≟ c2)
          to_first x k = ap (λ z. c1 ≟ z) (≟_sound x c2 k)

          second_member : (x : ℤ) → x ≟ c2 ≡ true → mem x (domain q2) ≡ true
          second_member x k = ap (λ z. mem z (domain q2)) (≟_sound x c2 k) ∙ second.within

          first_member : (x : ℤ) → x ≟ c1 ≡ true → mem x (domain q1) ≡ true
          first_member x k = ap (λ z. mem z (domain q1)) (≟_sound x c1 k) ∙ first.within

      some_fails :
          holds σ (ρ.eq q1 q2) ≡ not (c1 ≟ c2)
          → (cnf_holds σ (concat_map (λ d. equivalent_clauses (ρ.eq q1 q2) q1 q2 d ρ) g) ≡ false)
            ⊎ ((cnf_holds σ (concat_map (λ d. implies_equality_clauses (ρ.eq q1 q2) q1 q2 d ρ) g)
                  ≡ false)
                ⊎ (cnf_holds σ (
                      concat_map
                        (λ d. implies_inequality_clauses (ρ.eq q1 q2) q1 d ρ)
                        (missing (domain q1) (domain q2)))
                    ≡ false))
      some_fails h = elim (Bool-cases (c1 ≟ c2)) [
        | inl same ↦ inr (
            inl (
              concat_map-fail σ (λ d. implies_equality_clauses (ρ.eq q1 q2) q1 q2 d ρ) g c1
                (ground (arith, both c1, first.within, in_second same))
                (ground
                  (arith, implies_equality-holds c1 first.within (in_second same), ≟_refl c1, h))))
        | inr other ↦ elim (Bool-cases (mem c1 (domain q2))) [
          | inl shared ↦ inl (
              concat_map-fail σ (λ d. equivalent_clauses (ρ.eq q1 q2) q1 q2 d ρ) g c1
                (ground (arith, both c1, first.within))
                (ground (arith, equivalent-holds c1 first.within shared, ≟_refl c1, h)))
          | inr alone ↦ inr (
              inr (
                concat_map-fail σ (λ d. implies_inequality_clauses (ρ.eq q1 q2) q1 d ρ)
                  (missing (domain q1) (domain q2)) c1
                  (ground (arith, mem-missing c1 (domain q1) (domain q2), first.within))
                  (ground
                    (arith, implies_inequality-holds q1 c1 c1 first first.within, ≟_refl c1, h))))
        ]
      ]
        where
          in_second : c1 ≟ c2 ≡ true → mem c1 (domain q2) ≡ true
          in_second k = ap (λ z. mem z (domain q2)) (≟_sound c1 c2 k) ∙ second.within

    relate-holds :
        (g : List ℤ) (both : (x : ℤ) → mem x g ≡ (mem x (domain q1) && mem x (domain q2)))
        → cnf_holds σ (relate_clauses domain (ρ.eq q1 q2) q1 q2 g ρ)
          ≡ iff (holds σ (ρ.eq q1 q2)) (c1 ≟ c2)
    unfolding relate_clauses mem
    relate-holds [] both = ground (arith, not_equal, both c1, first.within, in_second)
      where
        in_second : c1 ≟ c2 ≡ true → mem c1 (domain q2) ≡ true
        in_second k = ap (λ z. mem z (domain q2)) (≟_sound c1 c2 k) ∙ second.within
    relate-holds (c ∷ cs) both = ground (
      arith,
      all-append (clause_holds σ)
          (concat_map (λ d. equivalent_clauses (ρ.eq q1 q2) q1 q2 d ρ) (c ∷ cs))
          (concat_map (λ d. implies_equality_clauses (ρ.eq q1 q2) q1 q2 d ρ) (c ∷ cs)
            ++ (concat_map (λ d. implies_inequality_clauses (ρ.eq q1 q2) q1 d ρ)
                  (missing (domain q1) (domain q2))
                ++ concat_map (λ d. implies_inequality_clauses (ρ.eq q1 q2) q2 d ρ)
                    (missing (domain q2) (domain q1)))),
      all-append (clause_holds σ)
          (concat_map (λ d. implies_equality_clauses (ρ.eq q1 q2) q1 q2 d ρ) (c ∷ cs))
          (concat_map (λ d. implies_inequality_clauses (ρ.eq q1 q2) q1 d ρ)
              (missing (domain q1) (domain q2))
            ++ concat_map (λ d. implies_inequality_clauses (ρ.eq q1 q2) q2 d ρ)
                (missing (domain q2) (domain q1))),
      all-append (clause_holds σ)
          (concat_map (λ d. implies_inequality_clauses (ρ.eq q1 q2) q1 d ρ)
            (missing (domain q1) (domain q2)))
          (concat_map (λ d. implies_inequality_clauses (ρ.eq q1 q2) q2 d ρ)
            (missing (domain q2) (domain q1))),
      all_hold (c ∷ cs) both,
      some_fails (c ∷ cs) both,
    )

    pub equality_clauses-hold :
        cnf_holds σ (equality_clauses domain ρ q1 q2) ≡ iff (holds σ (ρ.eq q1 q2)) (c1 ≟ c2)
    unfolding equality_clauses
    equality_clauses-hold =
        relate-holds (common (domain q1) (domain q2)) (λ x. mem-common x (domain q1) (domain q2))

-- `encodeQConstEquality` returns, from a state in which every recorded equality has its clauses; and
-- its clauses say that the literal that it gives holds exactly if the two pseudo-constants take the
-- same constant, for an assignment under which each of them takes one constant of its domain.
pub encode_q_const_equality-holds :
    (domain : ℤ → List ℤ) (q1 q2 c1 c2 : ℤ) (s : Encoder) (ρ : Env) (σ : Assignment)
    → Known domain s
    → Agrees ρ (state_after (encode_q_const_equality domain q1 q2) s).vars
    → IsReal ρ
    → Chooses domain ρ σ q1 c1
    → Chooses domain ρ σ q2 c2
    → let t = state_after (encode_q_const_equality domain q1 q2) s in
      (encode_q_const_equality domain q1 q2 s ≡ some (ρ.eq q1 q2, t))
      × (cnf_holds σ t.clauses ≡ (cnf_holds σ s.clauses && iff (holds σ (ρ.eq q1 q2)) (c1 ≟ c2)))
encode_q_const_equality-holds domain q1 q2 c1 c2 s ρ σ known agrees real first second =
    let says =
      Does-says (knowing domain) (encode_q_const_equality domain q1 q2)
        (λ ρ'. equality_clauses domain ρ' q1 q2 ++ []) (λ ρ'. ρ'.eq q1 q2)
        (encode_q_const_equality_rule domain q1 q2) s known ρ σ agrees in
    (
      says.0,
      ground (
        arith,
        says.1,
        all-append (clause_holds σ) (equality_clauses domain ρ q1 q2) [],
        equality_clauses-hold domain ρ σ real q1 q2 c1 c2 first second,
      ),
    )
