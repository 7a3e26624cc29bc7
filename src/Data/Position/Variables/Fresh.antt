-- ===== src/Data/Position/Variables/Fresh.antt =====
-- The variables that `Position::encode` (src/data/position.h) gives out.
use lilotane_smt_csp.Prelude.{
  ℕ, suc, ◌<◌, ◌≡◌, refl, ap₂, sym, ◌∙◌, ◌⊎◌, inl, inr, Bool, true, false, none, some, ◌≟◌, ≟_refl,
  arith, lookup-put, Option-cases, if◌then◌else◌, Bool-cases,
}
use lilotane_smt_csp.Sat.VariableDomain.{VariableDomain}
use lilotane_smt_csp.Data.Signature.{USignature, usig_eq, usig_beq_iff}
use lilotane_smt_csp.Data.Position.{Position, VarType, fact, op}
use lilotane_smt_csp.Data.Position.Variables.{
  variable_table, set_variable_table, encode, get_variable,
}

-- All variables of the position are below the counter, and no two signatures, of operators or of
-- facts, share one.
pub record IsFresh (p : Position) (d : VariableDomain) : Type 0 where
  pub below :
      (type : VarType) (sig : USignature) (var : ℕ)
      → get_variable type sig p ≡ some var
      → var < d.running_var_id
  pub distinct :
      (type type' : VarType) (sig sig' : USignature) (var : ℕ)
      → get_variable type sig p ≡ some var
      → get_variable type' sig' p ≡ some var
      → (type ≡ type') × (sig ≡ sig')

abbrev same_type : VarType → VarType → Bool
same_type op op = true
same_type op fact = false
same_type fact fact = true
same_type fact op = false

-- The tables after `encode`.
get_variable-encode :
    (type type' : VarType) (sig sig' : USignature) (p : Position) (d : VariableDomain)
    → get_variable type sig p ≡ none
    → get_variable type' sig' ((encode type sig p d).1) ≡ (
        if same_type type' type
        then (if sig' ≟ sig then some d.running_var_id else get_variable type' sig' p)
        else get_variable type' sig' p)
unfolding get_variable encode variable_table set_variable_table
get_variable-encode op op sig sig' p d h =
    rw (h, encode) (lookup-put sig' sig d.running_var_id p.op_variables)
get_variable-encode op fact sig sig' p d h = rw (h, encode) refl
get_variable-encode fact fact sig sig' p d h =
    rw (h, encode) (lookup-put sig' sig d.running_var_id p.fact_variables)
get_variable-encode fact op sig sig' p d h = rw (h, encode) refl

counter-encode :
    (type : VarType) (sig : USignature) (p : Position) (d : VariableDomain)
    → get_variable type sig p ≡ none
    → ((encode type sig p d).0 ≡ d.running_var_id)
      × ((encode type sig p d).2.running_var_id ≡ suc d.running_var_id)
unfolding get_variable encode variable_table
counter-encode type sig p d h = rw (h, encode) (refl, refl)

unchanged-encode :
    (type : VarType) (sig : USignature) (var : ℕ) (p : Position) (d : VariableDomain)
    → get_variable type sig p ≡ some var
    → encode type sig p d ≡ (var, p, d)
unfolding get_variable encode variable_table
unchanged-encode type sig var p d h = rw (h, encode) refl

-- What `encode` promises of the variable, the position and the counter that it gives back.
pub record IsEncoded (type : VarType) (sig : USignature) (p : Position)
    (r : ℕ × Position × VariableDomain) : Type 0 where
  pub recorded : get_variable type sig r.1 ≡ some r.0
  pub kept :
      (type' : VarType) (sig' : USignature) (var : ℕ)
      → get_variable type' sig' p ≡ some var
      → get_variable type' sig' r.1 ≡ some var
  pub fresh : IsFresh r.1 r.2

same_type_iff : (a b : VarType) → same_type a b ≡ true → a ≡ b
same_type_iff op op h = refl
same_type_iff op fact h = cc
same_type_iff fact fact h = refl
same_type_iff fact op h = cc

-- A variable after `encode` is the new one or was there before.
read-encode :
    (type t : VarType) (sig s : USignature) (p : Position) (d : VariableDomain) (v : ℕ)
    → get_variable type sig p ≡ none
    → get_variable t s (encode type sig p d).1 ≡ some v
    → ((type ≡ t) × (sig ≡ s) × (v ≡ d.running_var_id)) ⊎ (get_variable t s p ≡ some v)
read-encode type t sig s p d v h k = elim (Bool-cases (same_type t type)) [
  | inr other ↦ inr (ground (arith, get_variable-encode type t sig s p d h))
  | inl same ↦ elim (Bool-cases (s ≟ sig)) [
    | inr miss ↦ inr (ground (arith, get_variable-encode type t sig s p d h))
    | inl hit ↦ inl (
      sym (same_type_iff t type same),
      sym ((usig_beq_iff s sig).0 hit),
      ground (arith, get_variable-encode type t sig s p d h),
    )
  ]
]

kept-encode :
    (type t : VarType) (sig s : USignature) (p : Position) (d : VariableDomain) (v : ℕ)
    → get_variable type sig p ≡ none
    → get_variable t s p ≡ some v
    → get_variable t s (encode type sig p d).1 ≡ some v
kept-encode type t sig s p d v h k = ground (arith, get_variable-encode type t sig s p d h, clash)
  where
    clash : same_type t type ≡ true → s ≟ sig ≡ true → get_variable t s p ≡ none
    clash a b =
        ap₂ (λ x y. get_variable x y p) (same_type_iff t type a) ((usig_beq_iff s sig).0 b) ∙ h

same_type_refl : (t : VarType) → same_type t t ≡ true
same_type_refl op = refl
same_type_refl fact = refl

recorded-encode :
    (type : VarType) (sig : USignature) (p : Position) (d : VariableDomain)
    → get_variable type sig p ≡ none
    → get_variable type sig (encode type sig p d).1 ≡ some (encode type sig p d).0
recorded-encode type sig p d h = ground (
  arith,
  get_variable-encode type type sig sig p d h,
  same_type_refl type,
  ≟_refl sig,
  counter-encode type sig p d h,
)

IsFresh-encode :
    (type : VarType) (sig : USignature) (p : Position) (d : VariableDomain)
    → IsFresh p d
    → get_variable type sig p ≡ none
    → IsFresh (encode type sig p d).1 (encode type sig p d).2
IsFresh-encode type sig p d f h = record { below = below; distinct = distinct }
  where
    counter : (encode type sig p d).2.running_var_id ≡ suc d.running_var_id
    counter = (counter-encode type sig p d h).1

    below :
        (t : VarType) (s : USignature) (v : ℕ)
        → get_variable t s (encode type sig p d).1 ≡ some v
        → v < (encode type sig p d).2.running_var_id
    below t s v k = elim (read-encode type t sig s p d v h k) [
      | inl (a, b, c) ↦ omega (arith, counter, c)
      | inr old ↦ omega (arith, counter, f.below t s v old)
    ]

    distinct :
        (t t' : VarType) (s s' : USignature) (v : ℕ)
        → get_variable t s (encode type sig p d).1 ≡ some v
        → get_variable t' s' (encode type sig p d).1 ≡ some v
        → (t ≡ t') × (s ≡ s')
    distinct t t' s s' v k k' = elim (read-encode type t sig s p d v h k) [
      | inl (a, b, c) ↦ elim (read-encode type t' sig s' p d v h k') [
        | inl (a', b', c') ↦ (sym a ∙ a', sym b ∙ b')
        | inr old ↦ ground (arith, c, f.below t' s' v old)
      ]
      | inr old ↦ elim (read-encode type t' sig s' p d v h k') [
        | inl (a', b', c') ↦ ground (arith, c', f.below t s v old)
        | inr old' ↦ f.distinct t t' s s' v old old'
      ]
    ]

-- `encode` in a position whose variables are distinct and below the counter: the variable is recorded
-- for the signature, the recorded variables stay, and all variables are distinct and below the counter
-- again.
pub encode-IsEncoded :
    (type : VarType) (sig : USignature) (p : Position) (d : VariableDomain)
    → IsFresh p d
    → IsEncoded type sig p (encode type sig p d)
encode-IsEncoded type sig p d f = elim (Option-cases (get_variable type sig p)) [
  | inr (var, h) ↦
      rw (unchanged-encode type sig var p d h)
        (record { recorded = h; kept = λ t s v k. k; fresh = f })
  | inl h ↦ record {
    recorded = recorded-encode type sig p d h;
    kept = λ t s v k. kept-encode type t sig s p d v h k;
    fresh = IsFresh-encode type sig p d f h;
  }
]
