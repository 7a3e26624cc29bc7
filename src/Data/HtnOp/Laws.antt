-- ===== src/Data/HtnOp/Laws.antt =====
-- What an operator's operations (src/data/htn_op.cpp) and those of a fact frame
-- (src/data/fact_frame.h) make of its sets, by membership: the order of a hash set is not fixed.
use lilotane_smt_csp.Prelude.{
  ◌≡◌, refl, ap, Bool, true, false, not, ◌&&◌, ◌||◌, List, [], ◌∷◌, mem, insert_new, erase_all,
  mem-insert_new, mem-erase_all, any, mem_as_any, any-congr, any-insert_new, ◌≟◌, arith,
}
use lilotane_smt_csp.Data.Substitution.{Substitution, concatenate}
use lilotane_smt_csp.Data.Substitution.Order.{IsKept}
use lilotane_smt_csp.Data.Signature.{
  Signature, sig_substitute, sig_beq_iff, sig_eq, to_signature, sig_substitute-concatenate,
  map-image-concatenate, usig_substitute-concatenate,
}
use lilotane_smt_csp.Data.HtnOp.{
  HtnOp, FactFrame, is_inconsistent, inconsistent_effects, erase_each, remove_inconsistent_effects,
  add_substituted, substitute, frame_substitute,
}

mem-erase_each :
    (x : Signature) (sigs effects : List Signature)
    → mem x (erase_each sigs effects) ≡ (not (mem x sigs) && mem x effects)
unfolding erase_each mem
mem-erase_each x [] effects = refl
mem-erase_each x (sig ∷ sigs) effects =
    ground (arith, mem-erase_each x sigs (erase_all sig effects), mem-erase_all x sig effects)

mem-inconsistent_effects :
    (x : Signature) (effects sigs : List Signature)
    → mem x (inconsistent_effects effects sigs) ≡ (mem x sigs && is_inconsistent effects x)
unfolding inconsistent_effects mem
mem-inconsistent_effects x effects [] = refl
mem-inconsistent_effects x effects (sig ∷ sigs) = ground (
  arith,
  mem-inconsistent_effects x effects sigs,
  mem-insert_new x sig (inconsistent_effects effects sigs),
  same,
)
  where
    same : x ≟ sig ≡ true → is_inconsistent effects x ≡ is_inconsistent effects sig
    same h = ap (is_inconsistent effects) ((sig_beq_iff x sig).0 h)

-- After `remove_inconsistent_effects` the effects are exactly those effects that are positive or
-- whose positive form is no effect.
pub mem-remove_inconsistent_effects :
    (op : HtnOp) (x : Signature)
    → mem x (remove_inconsistent_effects op).effects
      ≡ (mem x op.effects && not (x.negated && mem (to_signature x.usig false) op.effects))
unfolding remove_inconsistent_effects is_inconsistent
mem-remove_inconsistent_effects op x = ground (
  arith,
  mem-erase_each x (inconsistent_effects op.effects op.effects) op.effects,
  mem-inconsistent_effects x op.effects op.effects,
)

pub any-add_substituted :
    (p : Signature → Bool) (s : Substitution) (sigs set : List Signature)
    → any p (add_substituted s sigs set) ≡ (any (λ y. p (sig_substitute s y)) sigs || any p set)
unfolding add_substituted
any-add_substituted p s [] set = refl
any-add_substituted p s (sig ∷ sigs) set = ground (
  arith,
  any-add_substituted p s sigs (insert_new (sig_substitute s sig) set),
  any-insert_new p (sig_substitute s sig) set,
)

-- The two passes and the one pass give sets with the same members.
pub mem-add_substituted-concatenate :
    (first second : Substitution) (sigs : List Signature) (x : Signature)
    → IsKept first
    → mem x (add_substituted (concatenate first second) sigs [])
      ≡ mem x (add_substituted second (add_substituted first sigs []) [])
mem-add_substituted-concatenate first second sigs x k = ground (
  arith,
  mem_as_any x (add_substituted (concatenate first second) sigs []),
  mem_as_any x (add_substituted second (add_substituted first sigs []) []),
  any-add_substituted (λ y. x ≟ y) (concatenate first second) sigs [],
  any-add_substituted (λ y. x ≟ y) second (add_substituted first sigs []) [],
  any-add_substituted (λ y. x ≟ sig_substitute second y) first sigs [],
  any-congr (λ y. x ≟ sig_substitute (concatenate first second) y)
      (λ y. x ≟ sig_substitute second (sig_substitute first y)) sigs
      (λ y. ap (λ z. x ≟ z) (sig_substitute-concatenate first second y k)),
)

-- Two operators that differ at most in the order in which their sets are walked.
pub record IsSameOp (a b : HtnOp) : Type 0 where
  pub same_id : a.id ≡ b.id
  pub same_args : a.args ≡ b.args
  pub same_preconditions : (x : Signature) → mem x a.preconditions ≡ mem x b.preconditions
  pub same_extra : (x : Signature) → mem x a.extra_preconditions ≡ mem x b.extra_preconditions
  pub same_effects : (x : Signature) → mem x a.effects ≡ mem x b.effects

-- Where the first substitution is a list that `operator[]` can build, to substitute in an operator by
-- `concatenate` is to substitute by the first and then by the second, up to the order of the sets.
pub substitute-concatenate :
    (first second : Substitution) (op : HtnOp)
    → IsKept first
    → IsSameOp (substitute (concatenate first second) op) (substitute second (substitute first op))
unfolding substitute
substitute-concatenate first second op k = record {
  same_id = refl;
  same_args = map-image-concatenate first second op.args k;
  same_preconditions = λ x. mem-add_substituted-concatenate first second op.preconditions x k;
  same_extra = λ x. mem-add_substituted-concatenate first second op.extra_preconditions x k;
  same_effects = λ x. mem-add_substituted-concatenate first second op.effects x k;
}

-- Two fact frames that differ at most in the order in which their sets are walked.
pub record IsSameFrame (a b : FactFrame) : Type 0 where
  pub same_sig : a.sig ≡ b.sig
  pub same_preconditions : (x : Signature) → mem x a.preconditions ≡ mem x b.preconditions
  pub same_effects : (x : Signature) → mem x a.effects ≡ mem x b.effects

-- The same for a fact frame.
pub frame_substitute-concatenate :
    (first second : Substitution) (f : FactFrame)
    → IsKept first
    → IsSameFrame
        (frame_substitute (concatenate first second) f)
        (frame_substitute second (frame_substitute first f))
unfolding frame_substitute
frame_substitute-concatenate first second f k = record {
  same_sig = usig_substitute-concatenate first second f.sig k;
  same_preconditions = λ x. mem-add_substituted-concatenate first second f.preconditions x k;
  same_effects = λ x. mem-add_substituted-concatenate first second f.effects x k;
}
