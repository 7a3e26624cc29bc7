-- ===== src/Sat/Encoding/QConstraints/Meaning.antt =====
-- What the clauses of `encodeQConstraints` (src/sat/encoding.cpp) say.
use lilotane_smt_csp.Prelude.{
  ◌≡◌, refl, ◌∙◌, ◌↔◌, Bool, true, false, not, ◌&&◌, ◌||◌, List, [], ◌∷◌, ◌++◌, map, ℤ, pos, negsuc,
  neg, some, ℕ, zero, suc, All_of, any, all, all-append, arith, if◌then◌else◌, ◌==◌, lookup,
  or_default, Bool-cases, inl, inr, ◌<◌, int_eq, pair_eq,
}
use lilotane_smt_csp.Data.Signature.{USignature, usig_eq, TypeConstraint}
use lilotane_smt_csp.Data.SubstitutionConstraint.{
  SubstitutionConstraint, Polarity, undecided, any_valid, no_invalid, IntPair, get_encoding,
  same_polarity, flip_pair, keep_pair,
}
use lilotane_smt_csp.Data.Position.{Position, clear_substitutions, op}
use lilotane_smt_csp.Data.Position.Variables.{get_variable_or_zero}
use lilotane_smt_csp.Sat.Clauses.{
  Assignment, holds, clause_holds, cnf_holds, holds-neg, holds-neg_pos,
}
use lilotane_smt_csp.Sat.LiteralTree.{contains}
use lilotane_smt_csp.Sat.LiteralTree.Paths.{IsWf, HasLiterals}
use lilotane_smt_csp.Sat.LiteralTree.Encode.{IsExclusive, PathHolds, encode-iff_PathHolds}
use lilotane_smt_csp.Sat.LiteralTree.Negation.{encode_negation-iff_no_path}
use lilotane_smt_csp.Sat.Encoding.{Encoder}
use lilotane_smt_csp.Sat.Encoding.ConcatMap.{concat_map, concat_map-says}
use lilotane_smt_csp.Sat.Encoding.Emits.{Env, Agrees, Does-says, state_after}
use lilotane_smt_csp.Sat.Encoding.Equality.Emitted.{Known, knowing}
use lilotane_smt_csp.Sat.Encoding.Equality.Meaning.{IsReal}
use lilotane_smt_csp.Sat.Encoding.QConstraints.{signed, encode_q_constraints}
use lilotane_smt_csp.Sat.Encoding.QConstraints.Emitted.{
  type_clauses, all_type_clauses, pair_of, constraint_clauses, op_clauses, q_constraint_clauses,
  HaveVariables, encode_q_constraints_rule,
}

all_guarded :
    {X : Type 0} (b : Bool) (f : X → Bool) (xs : List X) → all (λ x. b || f x) xs ≡ (b || all f xs)
all_guarded b f [] = ground arith
all_guarded b f (x ∷ xs) = ground (arith, all_guarded b f xs)

any-map :
    {X : Type 0} (σ : Assignment) (f : X → ℤ) (xs : List X)
    → any (holds σ) (map f xs) ≡ any (λ x. holds σ (f x)) xs
any-map σ f [] = refl
any-map σ f (x ∷ xs) = ground (arith, any-map σ f xs)

-- The number of a pseudo-constant; 0 where there is none.
abbrev pub of_positive : ℤ → ℕ
of_positive (pos n) = n
of_positive (negsuc n) = 0

module _ (ρ : Env) (σ : Assignment) where
  -- The pseudo-constant takes the constant.
  pub takes : ℤ → ℤ → Bool
  takes q x = holds σ (ρ.sub q x)

  -- If the operator occurs, then its argument has, or has not, one of the constants.
  pub type_holds : ℕ → TypeConstraint → Bool
  unfolding takes
  type_holds var c =
      not (σ var)
      || (if c.sign
          then any (takes c.qconstant) c.constants
          else not (any (takes c.qconstant) c.constants))

  pub type_constraints_hold : Position → USignature × List TypeConstraint → Bool
  unfolding type_holds
  type_constraints_hold new (sig, cs) =
      let var = get_variable_or_zero op sig new in var == 0 || all (type_holds var) cs

  -- The clauses of a restriction, without the operator.
  unfoldable pub restriction_holds : SubstitutionConstraint → Bool
  restriction_holds c = all (any (λ p. holds σ (pair_of c.polarity ρ p))) (get_encoding undecided c)

  -- The pair's literal in the clauses of valid substitutions.
  pub pair_taken : IntPair → Bool
  pair_taken p = holds σ (pair_of any_valid ρ p)

  -- For a pseudo-constant, that it takes the constant.
  pair_taken-takes : (q x : ℤ) → 0 < of_positive q → pair_taken (q, x) ≡ takes q x
  unfolding pair_taken takes pair_of signed same_polarity
  pair_taken-takes (pos n) x h = refl
  pair_taken-takes (negsuc n) x h = absurd (omega arith)

  -- A restriction that the polarity selects: some path of the valid tree is taken, or no path of the
  -- invalid tree.
  pub Allows : SubstitutionConstraint → Polarity → Type 0
  Allows c any_valid = PathHolds pair_taken c.valid_substitutions
  Allows c no_invalid =
      (p : List IntPair) → contains p c.invalid_substitutions ≡ true → all pair_taken p ≡ false
  Allows c undecided = Unit

  module _ (real : IsReal ρ) where
    not_all :
        (var : ℕ) (q : ℤ) (cs : List ℤ)
        → 0 < var
        → cnf_holds σ (concat_map (λ x. (neg (pos var) ∷ neg (ρ.sub q x) ∷ []) ∷ []) cs)
          ≡ (not (σ var) || not (any (takes q) cs))
    unfolding concat_map takes
    not_all var q [] p = ground arith
    not_all var q (x ∷ cs) p =
        ground
          (arith, holds-neg_pos σ var p, holds-neg σ (ρ.sub q x) (real.sub q x), not_all var q cs p)

    type_clauses-hold :
        (var : ℕ) (c : TypeConstraint)
        → 0 < var
        → cnf_holds σ (type_clauses (pos var) c ρ) ≡ type_holds var c
    unfolding type_clauses type_holds takes
    type_clauses-hold var c p = elim (Bool-cases c.sign) [
      | inl good ↦
          rw good (ground (arith, holds-neg_pos σ var p, any-map σ (ρ.sub c.qconstant) c.constants))
      | inr bad ↦ rw bad (not_all var c.qconstant c.constants p)
    ]

    all_type_clauses-hold :
        (new : Position) (x : USignature × List TypeConstraint)
        → cnf_holds σ (all_type_clauses new x ρ) ≡ type_constraints_hold new x
    unfolding all_type_clauses type_constraints_hold
    all_type_clauses-hold new (sig, cs) = elim (Bool-cases (get_variable_or_zero op sig new == 0)) [
      | inl absent ↦ rw absent refl
      | inr present ↦ rw present (
          concat_map-says σ (λ c. type_clauses (pos (get_variable_or_zero op sig new)) c ρ)
            (type_holds (get_variable_or_zero op sig new)) cs
            (All_of (λ c. type_clauses-hold (get_variable_or_zero op sig new) c (ground arith)) cs))
    ]

    constraint_clauses-hold :
        (var : ℕ) (c : SubstitutionConstraint)
        → 0 < var
        → cnf_holds σ (constraint_clauses (pos var) c ρ) ≡ (not (σ var) || restriction_holds c)
    unfolding constraint_clauses restriction_holds
    constraint_clauses-hold var c p =
        concat_map-says σ (λ cls. (neg (pos var) ∷ map (pair_of c.polarity ρ) cls) ∷ [])
          (λ cls. not (σ var) || any (λ x. holds σ (pair_of c.polarity ρ x)) cls)
          (get_encoding undecided c)
          (All_of
            (λ cls. ground (arith, holds-neg_pos σ var p, any-map σ (pair_of c.polarity ρ) cls))
            (get_encoding undecided c))
        ∙ all_guarded (not (σ var)) (any (λ x. holds σ (pair_of c.polarity ρ x)))
            (get_encoding undecided c)

    module _ (new : Position) (new_var : USignature → ℕ)
        (positive : (sig : USignature) → 0 < new_var sig) where
      -- If the operator occurs, then its restrictions hold.
      pub op_restricted : USignature → Bool
      op_restricted sig =
          not (σ (new_var sig))
          || all restriction_holds (or_default [] (lookup sig new.substitution_constraints))

      pub q_constraints_hold : Bool
      unfolding op_restricted
      q_constraints_hold =
          all (type_constraints_hold new) new.q_constants_type_constraints
          && (all op_restricted new.actions && all op_restricted new.reductions)

      op_clauses-hold :
          (sig : USignature) → cnf_holds σ (op_clauses new new_var sig ρ) ≡ op_restricted sig
      unfolding op_clauses op_restricted
      op_clauses-hold sig =
          let cs = or_default [] (lookup sig new.substitution_constraints) in
          concat_map-says σ (λ c. constraint_clauses (pos (new_var sig)) c ρ)
            (λ c. not (σ (new_var sig)) || restriction_holds c) cs
            (All_of (λ c. constraint_clauses-hold (new_var sig) c (positive sig)) cs)
          ∙ all_guarded (not (σ (new_var sig))) restriction_holds cs

      q_constraint_clauses-hold :
          cnf_holds σ (q_constraint_clauses new new_var ρ) ≡ q_constraints_hold
      unfolding q_constraint_clauses q_constraints_hold
      q_constraint_clauses-hold =
          let types = concat_map (λ x. all_type_clauses new x ρ) new.q_constants_type_constraints in
          let actions = concat_map (λ sig. op_clauses new new_var sig ρ) new.actions in
          let reductions = concat_map (λ sig. op_clauses new new_var sig ρ) new.reductions in
          ground (
            arith,
            all-append (clause_holds σ) types (actions ++ (reductions ++ [])),
            all-append (clause_holds σ) actions (reductions ++ []),
            all-append (clause_holds σ) reductions [],
            concat_map-says σ (λ x. all_type_clauses new x ρ) (type_constraints_hold new)
                new.q_constants_type_constraints
                (All_of (all_type_clauses-hold new) new.q_constants_type_constraints),
            concat_map-says σ (λ sig. op_clauses new new_var sig ρ) op_restricted new.actions
                (All_of op_clauses-hold new.actions),
            concat_map-says σ (λ sig. op_clauses new new_var sig ρ) op_restricted new.reductions
                (All_of op_clauses-hold new.reductions),
          )

      -- `encodeQConstraints` returns where every operator of the position has its variable, the
      -- position then has no restrictions left, and its clauses say: if an operator occurs, then its
      -- pseudo-constants take one of the good constants of its type constraints and none of the bad
      -- ones, and all its restrictions of substitutions hold.
      pub encode_q_constraints-hold :
          (domain : ℤ → List ℤ) (s : Encoder)
          → Known domain s
          → Agrees ρ (state_after (encode_q_constraints new) s).vars
          → HaveVariables new new_var new.actions
          → HaveVariables new new_var new.reductions
          → let t = state_after (encode_q_constraints new) s in
            (encode_q_constraints new s ≡ some (clear_substitutions new, t))
            × (cnf_holds σ t.clauses ≡ (cnf_holds σ s.clauses && q_constraints_hold))
      encode_q_constraints-hold domain s known agrees wanted wanted' =
          let says =
            Does-says (knowing domain) (encode_q_constraints new)
              (λ ρ'. q_constraint_clauses new new_var ρ') (λ _. clear_substitutions new)
              (encode_q_constraints_rule new new_var wanted wanted') s known ρ σ agrees in
          (says.0, ground (arith, says.1, q_constraint_clauses-hold))

    -- A pair of a pseudo-constant and a constant.
    abbrev pub IsPair : IntPair → Type 0
    IsPair p = 0 < of_positive p.0

    flip_pair-pair_taken : (p : IntPair) → IsPair p → pair_taken (flip_pair p) ≡ not (pair_taken p)
    unfolding pair_taken pair_of signed flip_pair same_polarity
    flip_pair-pair_taken (pos zero, c) h = absurd (omega arith)
    flip_pair-pair_taken (pos (suc n), c) h =
        holds-neg σ (ρ.sub (pos (suc n)) c) (real.sub (pos (suc n)) c)
    flip_pair-pair_taken (negsuc n, c) h = absurd (omega arith)

    keep_pair-pair_taken :
        (p : IntPair) → IsPair p → holds σ (pair_of no_invalid ρ (keep_pair p)) ≡ not (pair_taken p)
    unfolding pair_taken pair_of signed keep_pair same_polarity
    keep_pair-pair_taken (pos zero, c) h = absurd (omega arith)
    keep_pair-pair_taken (pos (suc n), c) h =
        holds-neg σ (ρ.sub (pos (suc n)) c) (real.sub (pos (suc n)) c)
    keep_pair-pair_taken (negsuc n, c) h = absurd (omega arith)

    -- What the trees of a restriction have.
    pub record IsTidy (c : SubstitutionConstraint) : Type 0 where
      pub valid_pairs : HasLiterals IsPair c.valid_substitutions
      pub valid_IsWf : IsWf c.valid_substitutions
      pub exclusive : IsExclusive pair_taken c.valid_substitutions
      pub invalid_pairs : HasLiterals IsPair c.invalid_substitutions
      pub invalid_IsWf : IsWf c.invalid_substitutions
      pub inner : contains [] c.invalid_substitutions ≡ false

    -- The clauses of a restriction whose polarity is fixed, without the operator's literal: they hold
    -- exactly if the pseudo-constants take some path of the tree of valid substitutions, or no path of
    -- the tree of invalid ones.
    pub restriction_holds-iff_Allows :
        (c : SubstitutionConstraint)
        → IsTidy c
        → same_polarity c.polarity undecided ≡ false
        → (restriction_holds c ≡ true) ↔ Allows c c.polarity
    unfolding restriction_holds get_encoding Allows pair_taken same_polarity
    restriction_holds-iff_Allows c tidy fixed = by_polarity c.polarity refl
      where
        by_polarity : (p : Polarity) → c.polarity ≡ p → (restriction_holds c ≡ true) ↔ Allows c p
        by_polarity undecided h =
            let no : same_polarity undecided undecided ≡ false = rw h at fixed in cc no
        by_polarity any_valid h =
            let says =
              encode-iff_PathHolds pair_taken flip_pair IsPair flip_pair-pair_taken []
                c.valid_substitutions tt tidy.valid_pairs tidy.valid_IsWf tidy.exclusive in
            rw h (λ k. elim (says.0 k) [ inl off ↦ cc off | inr path ↦ path ], λ k. says.1 (inr k))
        by_polarity no_invalid h = rw h (
            encode_negation-iff_no_path pair_taken keep_pair (λ p. holds σ (pair_of no_invalid ρ p))
              IsPair keep_pair-pair_taken c.invalid_substitutions tidy.invalid_pairs
              tidy.invalid_IsWf tidy.inner)
