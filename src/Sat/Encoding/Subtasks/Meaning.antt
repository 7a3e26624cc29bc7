-- ===== src/Sat/Encoding/Subtasks/Meaning.antt =====
-- What the clauses of `encodeSubtaskRelationships` (src/sat/encoding.cpp) say.
use lilotane_smt_csp.Prelude.{
  ◌≡◌, refl, Bool, true, false, not, ◌&&◌, ◌||◌, iff, List, [], ◌∷◌, ◌++◌, ℤ, pos, neg, some, ℕ,
  All, any, all, all-append, arith, if◌then◌else◌, ◌==◌, lookup, or_default, mem, int_eq, ◌≟◌,
  ≟_sym, All_of, Bool-cases, inl, inr, ◌<◌,
}
use lilotane_smt_csp.Data.Signature.{USignature, usig_eq}
use lilotane_smt_csp.Data.Substitution.{Entry, Substitution}
use lilotane_smt_csp.Data.Position.{Position, USigSet, op}
use lilotane_smt_csp.Data.Position.Variables.{get_variable_or_zero}
use lilotane_smt_csp.Sat.Clauses.{
  Assignment, holds, clause_holds, cnf_holds, holds-neg_pos, any-vars,
}
use lilotane_smt_csp.Sat.Encoding.{Encoder}
use lilotane_smt_csp.Sat.Encoding.ConcatMap.{concat_map, concat_map-says}
use lilotane_smt_csp.Sat.Encoding.Emits.{Env, Agrees, Does-says, state_after}
use lilotane_smt_csp.Sat.Encoding.Equality.Emitted.{Known, knowing, equality_clauses}
use lilotane_smt_csp.Sat.Encoding.Equality.Meaning.{IsReal, Chooses, equality_clauses-hold}
use lilotane_smt_csp.Sat.Encoding.Subtasks.{only_blank, encode_subtask_relationships}
use lilotane_smt_csp.Sat.Encoding.Subtasks.Emitted.{
  restrict_clauses, child_clauses, expansion_clauses, predecessor_clauses, relation_clauses,
  HasVariables, HaveVariables, encode_subtask_relationships_rule,
}

module _ (domain : ℤ → List ℤ) (is_q_constant : ℤ → Bool) (ρ : Env) (σ : Assignment)
    (real : IsReal ρ) (chosen : ℤ → ℤ)
    (choice : (q : ℤ) → is_q_constant q ≡ true → Chooses domain ρ σ q (chosen q)) where
  -- The constant that an argument stands for.
  pub value_of : ℤ → ℤ
  value_of x = if is_q_constant x then chosen x else x

  -- The pseudo-constant of an entry takes a constant from its domain.
  abbrev pub Fits : Entry → Type 0
  Fits e =
      (is_q_constant e.second ≡ true)
      × (is_q_constant e.first ≡ false → mem e.first (domain e.second) ≡ true)

  -- The variable of an equality that is asked for has the right value.
  pub equality_right : Entry → Bool
  equality_right e =
      not (is_q_constant e.first)
      || iff (holds σ (ρ.eq e.second e.first)) (chosen e.second ≟ chosen e.first)

  pub entry_holds : ℕ → ℕ → Entry → Bool
  unfolding value_of equality_right
  entry_holds parent child e =
      equality_right e && (not (σ parent) || (not (σ child) || chosen e.second ≟ value_of e.first))

  restrict_clauses-hold :
      (parent child : ℕ) (e : Entry)
      → 0 < parent
      → 0 < child
      → Fits e
      → cnf_holds σ (restrict_clauses domain is_q_constant (pos parent) (pos child) e ρ)
        ≡ entry_holds parent child e
  unfolding restrict_clauses entry_holds
  restrict_clauses-hold parent child e p c f = elim (Bool-cases (is_q_constant e.first)) [
    | inr ground_src ↦ rw ground_src (
        ground (
          arith,
          holds-neg_pos σ parent p,
          holds-neg_pos σ child c,
          (choice e.second f.0).just e.first (f.1 ground_src),
          ≟_sym e.first (chosen e.second),
        ))
    | inl q ↦ rw q (
        ground (
          arith,
          holds-neg_pos σ parent p,
          holds-neg_pos σ child c,
          all-append (clause_holds σ) (equality_clauses domain ρ e.second e.first) [],
          all-append (clause_holds σ) (equality_clauses domain ρ e.second e.first ++ [])
              ((neg (pos parent) ∷ neg (pos child) ∷ ρ.eq e.second e.first ∷ []) ∷ []),
          equality_clauses-hold domain ρ σ real e.second e.first (chosen e.second) (chosen e.first)
              (choice e.second f.0) (choice e.first q),
        ))
  ]

  module _ (new : Position) where
    -- The entries of a child that has a variable.
    pub child_holds : ℕ → USignature × Substitution → Bool
    unfolding entry_holds
    child_holds parent (child, s) =
        let var = get_variable_or_zero op child new in
        var == 0 || all (λ e. entry_holds parent var e) s

    child_clauses-hold :
        (parent : ℕ) (x : USignature × Substitution)
        → 0 < parent
        → All Fits x.1
        → cnf_holds σ (child_clauses domain is_q_constant new (pos parent) x ρ)
          ≡ child_holds parent x
    unfolding child_clauses child_holds
    child_clauses-hold parent (child, s) p f =
        elim (Bool-cases (get_variable_or_zero op child new == 0)) [
          | inl absent ↦ rw absent refl
          | inr present ↦ rw present (
              concat_map-says σ
                (λ e.
                  restrict_clauses domain is_q_constant (pos parent)
                    (pos (get_variable_or_zero op child new)) e ρ)
                (λ e. entry_holds parent (get_variable_or_zero op child new) e) s
                (each s (ground arith) f))
        ]
      where
        each :
            (es : Substitution)
            → 0 < get_variable_or_zero op child new
            → All Fits es
            → All
                (λ e.
                  cnf_holds σ (
                    restrict_clauses domain is_q_constant
                      (pos parent)
                      (pos (get_variable_or_zero op child new))
                      e
                      ρ)
                  ≡ entry_holds parent (get_variable_or_zero op child new) e)
                es
        each [] c f = tt
        each (e ∷ es) c f = (
          restrict_clauses-hold parent (get_variable_or_zero op child new) e p c f.0,
          each es c f.1,
        )

    module _ (above : Position) (above_var new_var : USignature → ℕ)
        (positive : (sig : USignature) → (0 < above_var sig) × (0 < new_var sig))
        (fits : (parent : USignature)
          → All
              (λ x. All Fits x.1)
              (or_default [] (lookup parent new.expansion_substitutions))) where
      -- If the parent occurs, then one of its children does; and the entries of the children hold.
      pub expansion_holds : USignature × USigSet → Bool
      unfolding child_holds
      expansion_holds (parent, children) =
          (not (σ (above_var parent)) || any (λ c. σ (new_var c)) children)
          && all (child_holds (above_var parent))
              (or_default [] (lookup parent new.expansion_substitutions))

      -- If the child occurs, then one of its parents does.
      pub predecessor_holds : USignature × USigSet → Bool
      predecessor_holds (child, parents) =
          not (σ (new_var child)) || any (λ q. σ (above_var q)) parents

      pub relations_hold : Bool → Bool
      unfolding expansion_holds predecessor_holds
      relations_hold use_predecessors =
          all expansion_holds new.expansions
          && (not use_predecessors || all predecessor_holds new.predecessors)

      expansion_clauses-hold :
          (x : USignature × USigSet)
          → cnf_holds σ (expansion_clauses domain is_q_constant above new above_var new_var x ρ)
            ≡ expansion_holds x
      unfolding expansion_clauses expansion_holds
      expansion_clauses-hold (parent, children) = ground (
        arith,
        holds-neg_pos σ (above_var parent) (positive parent).0,
        any-vars σ new_var children,
        concat_map-says σ (λ x. child_clauses domain is_q_constant new (pos (above_var parent)) x ρ)
            (child_holds (above_var parent))
            (or_default [] (lookup parent new.expansion_substitutions))
            (each (or_default [] (lookup parent new.expansion_substitutions)) (fits parent)),
      )
        where
          each :
              (xs : List (USignature × Substitution))
              → All (λ x. All Fits x.1) xs
              → All
                  (λ x.
                    cnf_holds σ
                      (child_clauses domain is_q_constant new (pos (above_var parent)) x ρ)
                    ≡ child_holds (above_var parent) x)
                  xs
          each [] f = tt
          each (x ∷ xs) f =
              (child_clauses-hold (above_var parent) x (positive parent).0 f.0, each xs f.1)

      predecessor_clauses-hold :
          (x : USignature × USigSet)
          → cnf_holds σ (predecessor_clauses domain is_q_constant above new above_var new_var x ρ)
            ≡ predecessor_holds x
      unfolding predecessor_clauses predecessor_holds
      predecessor_clauses-hold (child, parents) =
          ground (
            arith,
            holds-neg_pos σ (new_var child) (positive child).1,
            any-vars σ above_var parents,
          )

      relation_clauses-hold :
          (use_predecessors : Bool)
          → cnf_holds σ
              (relation_clauses domain is_q_constant above new above_var new_var use_predecessors ρ)
            ≡ relations_hold use_predecessors
      unfolding relation_clauses relations_hold
      relation_clauses-hold use_predecessors = ground (
        arith,
        all-append (clause_holds σ)
            (concat_map
              (λ x. expansion_clauses domain is_q_constant above new above_var new_var x ρ)
              new.expansions)
            (if use_predecessors
              then concat_map
                  (λ x. predecessor_clauses domain is_q_constant above new above_var new_var x ρ)
                  new.predecessors
              else []),
        concat_map-says σ
            (λ x. expansion_clauses domain is_q_constant above new above_var new_var x ρ)
            expansion_holds new.expansions (All_of expansion_clauses-hold new.expansions),
        concat_map-says σ
            (λ x. predecessor_clauses domain is_q_constant above new above_var new_var x ρ)
            predecessor_holds new.predecessors (All_of predecessor_clauses-hold new.predecessors),
      )

      -- `encodeSubtaskRelationships` returns where the operators in the tables have their variables,
      -- and then its clauses say: if a parent occurs, one of its children does, and the
      -- pseudo-constants of a child take the values of the arguments that they stand for; with the
      -- option `p`, if a child occurs, one of its parents does; and the variables of equalities are
      -- right. For a position with the blank action only they say nothing.
      pub encode_subtask_relationships-holds :
          (use_predecessors : Bool) (blank : USignature) (s : Encoder)
          → Known domain s
          → Agrees ρ
              (state_after
                (encode_subtask_relationships domain is_q_constant use_predecessors blank above new)
                s).vars
          → All (HasVariables domain is_q_constant above new above_var new_var) new.expansions
          → All (HaveVariables domain is_q_constant above new above_var new_var) new.predecessors
          → let m =
              encode_subtask_relationships domain is_q_constant use_predecessors blank above new in
            (m s ≡ some (tt, state_after m s))
            × (cnf_holds σ (state_after m s).clauses ≡ (
                cnf_holds σ s.clauses && (only_blank blank new || relations_hold use_predecessors)))
      encode_subtask_relationships-holds use_predecessors blank s known agrees wanted wanted' =
          let says =
            Does-says (knowing domain)
              (encode_subtask_relationships domain is_q_constant use_predecessors blank above new)
              (λ ρ'.
                if only_blank blank new
                then []
                else relation_clauses domain is_q_constant above new above_var new_var
                    use_predecessors ρ')
              (λ _. tt)
              (encode_subtask_relationships_rule domain is_q_constant above new above_var new_var
                wanted wanted' use_predecessors blank)
              s known ρ σ agrees in
          (says.0, ground (arith, says.1, relation_clauses-hold use_predecessors))
