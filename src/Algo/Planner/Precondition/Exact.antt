-- ===== src/Algo/Planner/Precondition/Exact.antt =====
-- The constraint of a precondition (src/algo/planner.cpp) is exact on the decodings of the fact,
-- whichever polarity was sampled.
use lilotane_smt_csp.Prelude.{
  ◌≡◌, refl, ap, ◌∙◌, Bool, true, not, ◌&&◌, ◌||◌, List, [], ◌∷◌, ℤ, arith, mem, list_beq,
  list_beq_iff, list_eq, int_eq, pair_eq,
}
use lilotane_smt_csp.Sat.LiteralTree.{contains}
use lilotane_smt_csp.Sat.LiteralTree.Contains.{contains-insert, contains-new_node}
use lilotane_smt_csp.Data.SubstitutionConstraint.{
  Polarity, undecided, any_valid, no_invalid, IntPair, SubstitutionConstraint, new_constraint,
  add_valid, add_invalid, fix_polarity, keep_valid, keep_invalid, same_polarity, is_valid,
}
use lilotane_smt_csp.Data.SubstitutionConstraint.Laws.{is_valid-fix_polarity}
use lilotane_smt_csp.Algo.Planner.Precondition.{
  add_decoding, add_decodings, precondition_constraint,
}

valid-add_decodings :
    (polarity : Polarity) (reachable : List IntPair → Bool) (paths : List (List IntPair))
    (c : SubstitutionConstraint) (q : List IntPair)
    → contains q (add_decodings polarity reachable paths c).valid_substitutions ≡ (
        (not (same_polarity polarity no_invalid) && mem q paths && reachable q)
        || contains q c.valid_substitutions)
unfolding add_decodings add_decoding add_valid add_invalid mem
valid-add_decodings polarity reachable [] c q = ground arith
valid-add_decodings polarity reachable (path ∷ paths) c q = ground (
  arith,
  valid-add_decodings polarity reachable paths (add_decoding polarity (reachable path) path c) q,
  contains-insert q path c.valid_substitutions,
  same,
)
  where
    same : list_beq q path ≡ true → reachable q ≡ reachable path
    same h = ap reachable ((list_beq_iff q path).0 h)

invalid-add_decodings :
    (polarity : Polarity) (reachable : List IntPair → Bool) (paths : List (List IntPair))
    (c : SubstitutionConstraint) (q : List IntPair)
    → contains q (add_decodings polarity reachable paths c).invalid_substitutions ≡ (
        (not (same_polarity polarity any_valid) && mem q paths && not (reachable q))
        || contains q c.invalid_substitutions)
unfolding add_decodings add_decoding add_valid add_invalid mem
invalid-add_decodings polarity reachable [] c q = ground arith
invalid-add_decodings polarity reachable (path ∷ paths) c q = ground (
  arith,
  invalid-add_decodings polarity reachable paths (add_decoding polarity (reachable path) path c) q,
  contains-insert q path c.invalid_substitutions,
  same,
)
  where
    same : list_beq q path ≡ true → reachable q ≡ reachable path
    same h = ap reachable ((list_beq_iff q path).0 h)

polarity-add_decodings :
    (polarity : Polarity) (reachable : List IntPair → Bool) (paths : List (List IntPair))
    (c : SubstitutionConstraint)
    → (add_decodings polarity reachable paths c).polarity ≡ c.polarity
unfolding add_decodings add_decoding add_valid add_invalid
polarity-add_decodings polarity reachable [] c = refl
polarity-add_decodings polarity reachable (path ∷ paths) c =
    polarity-add_decodings polarity reachable paths (add_decoding polarity (reachable path) path c)
    ∙ ground arith

is_valid-any_valid :
    (c : SubstitutionConstraint) (q : List IntPair)
    → c.polarity ≡ any_valid
    → is_valid q true c ≡ contains q c.valid_substitutions
unfolding is_valid
is_valid-any_valid c q h = rw (h, is_valid) refl

is_valid-no_invalid :
    (c : SubstitutionConstraint) (q : List IntPair)
    → c.polarity ≡ no_invalid
    → is_valid q true c ≡ not (contains q c.invalid_substitutions)
unfolding is_valid
is_valid-no_invalid c q h = rw (h, is_valid) refl

-- A decoding of the precondition is admitted by the constraint exactly if it can hold: with a sampled
-- polarity, where only one of the two trees is filled, and without.
pub is_valid-precondition_constraint :
    (involved : List ℤ) (polarity : Polarity) (reachable : List IntPair → Bool)
    (paths : List (List IntPair)) (q : List IntPair)
    → mem q paths ≡ true
    → is_valid q true (precondition_constraint involved polarity reachable paths) ≡ reachable q
unfolding precondition_constraint same_polarity new_constraint fix_polarity keep_valid keep_invalid
    is_valid
is_valid-precondition_constraint involved undecided reachable paths q h =
    is_valid-fix_polarity undecided
      (add_decodings undecided reachable paths (new_constraint involved)) q
      (ground (arith, valid, invalid))
    ∙ ground (arith, valid)
  where
    valid :
        contains q
          (add_decodings undecided reachable paths (new_constraint involved)).valid_substitutions
        ≡ reachable q
    valid = ground (
      arith,
      valid-add_decodings undecided reachable paths (new_constraint involved) q,
      contains-new_node q,
    )

    invalid :
        contains q
          (add_decodings undecided reachable paths (new_constraint involved)).invalid_substitutions
        ≡ not (reachable q)
    invalid = ground (
      arith,
      invalid-add_decodings undecided reachable paths (new_constraint involved) q,
      contains-new_node q,
    )
is_valid-precondition_constraint involved any_valid reachable paths q h =
    is_valid-any_valid
      (add_decodings any_valid reachable paths (keep_valid (new_constraint involved))) q
      (polarity-add_decodings any_valid reachable paths (keep_valid (new_constraint involved)))
    ∙ ground (
      arith,
      valid-add_decodings any_valid reachable paths (keep_valid (new_constraint involved)) q,
      contains-new_node q,
    )
is_valid-precondition_constraint involved no_invalid reachable paths q h =
    is_valid-no_invalid
      (add_decodings no_invalid reachable paths (keep_invalid (new_constraint involved))) q
      (polarity-add_decodings no_invalid reachable paths (keep_invalid (new_constraint involved)))
    ∙ ground (
      arith,
      invalid-add_decodings no_invalid reachable paths (keep_invalid (new_constraint involved)) q,
      contains-new_node q,
    )
