-- ===== src/Sat/Encoding/Effects.antt =====
-- The effects of the actions to the left (src/sat/encoding.cpp): `encodeActionEffects`. The option `tc`,
-- which actions are repetitions, the table of operators and the domains are parameters.
pub mod Emitted
pub mod Trees
pub mod Meaning
pub mod Exact
mod Examples
use lilotane_smt_csp.Prelude.{
  ℕ, Bool, true, false, not, ◌&&◌, ◌||◌, List, [], ◌∷◌, ◌++◌, ℤ, pos, neg, int_eq, ◌≟◌,
  if◌then◌else◌, Option, none, some, mem,
}
use lilotane_smt_csp.Data.Signature.{USignature, Signature}
use lilotane_smt_csp.Data.HtnOp.{HtnOp}
use lilotane_smt_csp.Data.OpTable.{OpTable, get_action}
use lilotane_smt_csp.Data.Position.{Position, fact, op}
use lilotane_smt_csp.Sat.VariableProvider.{is_encoded}
use lilotane_smt_csp.Sat.LiteralTree.{Node, new_node, insert, encode}
use lilotane_smt_csp.Sat.Clauses.{Clause}
use lilotane_smt_csp.Sat.OrderedSets.{sets_insert}
use lilotane_smt_csp.Sat.Dnf2Cnf.{get_cnf}
use lilotane_smt_csp.Sat.Encoding.{
  Encoder, M, ◌>>=◌, ◌>>◌, return, for_each, literals, add_clause, var_at,
}
use lilotane_smt_csp.Sat.Encoding.Unify.{unify_args}

-- A result, or the error of `at` or of an index out of range.
unfoldable pub of_option : {A : Type 0} → Option A → M A
of_option none s = none
of_option (some a) s = some (a, s)

-- `(negated ? -1 : 1) * var`
unfoldable pub with_sign : Bool → ℤ → ℤ
with_sign negated l = if negated then neg l else l

pub insert_sets : List (List ℤ) → Node ℤ → Node ℤ
insert_sets [] t = t
insert_sets (s ∷ sets) t = insert_sets sets (insert s t)

pub is_empty : List ℤ → Bool
is_empty [] = true
is_empty (l ∷ s) = false

-- Each conjunction with a 0 behind it.
pub flat_dnf : List (List ℤ) → List ℤ
flat_dnf [] = []
flat_dnf (s ∷ sets) = s ++ pos 0 ∷ flat_dnf sets

module _ (domain : ℤ → List ℤ) (is_repetition : ℤ → Bool) (tree_conversion : Bool) (table : OpTable)
    (new : Position) where
  -- Whether the effect `p` may undo the deletion `eff`.
  pub is_candidate : Signature → Signature → Bool
  is_candidate eff p =
      not p.negated && (p.usig.name_id ≟ eff.usig.name_id && is_encoded fact new p.usig)

  -- The loop over the positive effects: whether one of them unifies unconditionally, and the sets of
  -- literals under which one of them does.
  pub unifiers : Signature → List Signature → List (List ℤ) → M (Bool × List (List ℤ))
  unfolding is_candidate is_empty
  unifiers eff [] dnf = return (false, dnf)
  unifiers eff (p ∷ ps) dnf =
      if is_candidate eff p
      then (do
        (fits, s) ← unify_args domain eff.usig.args p.usig.args (true, [])
        if fits
            then (if is_empty s then return (true, dnf) else unifiers eff ps (sets_insert s dnf))
            else unifiers eff ps dnf)
      else unifiers eff ps dnf

  -- "Negative effect which only holds in certain cases"
  pub conditional : ℤ → Signature → List (List ℤ) → M (Unit {0})
  unfolding insert_sets flat_dnf
  conditional a eff dnf =
      if tree_conversion
      then (do
        f ← var_at fact new eff.usig
        for_each (encode neg (a ∷ f ∷ []) (insert_sets dnf new_node)) add_clause)
      else do
        cnf ← of_option (get_cnf (flat_dnf dnf))
        for_each cnf (λ cls. do f ← var_at fact new eff.usig; add_clause (neg a ∷ neg f ∷ cls))

  pub enforce : ℤ → Signature → M (Unit {0})
  unfolding with_sign
  enforce a eff = do f ← var_at fact new eff.usig; add_clause (neg a ∷ with_sign eff.negated f ∷ [])

  pub decided : ℤ → Signature → Bool × List (List ℤ) → M (Unit {0})
  unfolding conditional enforce
  decided a eff (true, dnf) = return tt
  decided a eff (false, []) = enforce a eff
  decided a eff (false, s ∷ dnf) = conditional a eff (s ∷ dnf)

  pub effect : ℤ → List Signature → Signature → M (Unit {0})
  unfolding unifiers decided
  effect a effects eff =
      if is_encoded fact new eff.usig
      then (if eff.negated then unifiers eff effects [] else return (false, [])) >>= decided a eff
      else return tt

  pub action_effects : Position → USignature → M (Unit {0})
  unfolding effect of_option
  action_effects left sig = if is_repetition sig.name_id then return tt else do
    a ← var_at op left sig
    action ← of_option (get_action sig table)
    for_each action.effects (effect a action.effects)

  pub encode_action_effects : Position → M (Unit {0})
  unfolding action_effects
  encode_action_effects left = for_each left.actions (action_effects left)
