-- ===== src/Data/Position/Expansions.antt =====
-- Parents and children (src/data/position.cpp): `_expansions` maps an operator of the layer above to
-- its possible children here, `_predecessors` a child to its possible parents.
pub mod Inverse
use lilotane_smt_csp.Prelude.{
  ◌≡◌, refl, ap, ◌∙◌, sym, Bool, true, false, not, ◌&&◌, ◌||◌, List, [], ◌∷◌, Option, none, some,
  if◌then◌else◌, mem, insert_new, erase_all, lookup, put, update, remove, map_values, or_default,
  map_option, Eq, ◌≟◌, arith, Option-cases, inl, inr, mem-insert_new, mem-erase_all, lookup-update,
  lookup-remove, lookup-map_values, lookup-put, ≟_refl, ≟_sound,
}
use lilotane_smt_csp.Data.Substitution.{Substitution}
use lilotane_smt_csp.Data.Signature.{USignature, usig_eq, usig_beq, usig_beq_iff}
use lilotane_smt_csp.Data.Position.{Position, USigSet, USigSetMap, new_position}

unfoldable pub add_expansion : USignature → USignature → Position → Position
add_expansion parent child p = record p {
  expansions = update parent [] (insert_new child) p.expansions;
  predecessors = update child [] (insert_new parent) p.predecessors;
}

pub add_expansion_substitution : USignature → USignature → Substitution → Position → Position
add_expansion_substitution parent child s p = record p {
  expansion_substitutions = update parent [] (put child s) p.expansion_substitutions;
}

pub remove_action_occurrence : USignature → Position → Position
remove_action_occurrence action p = record p {
  actions = erase_all action p.actions;
  expansions = map_values (erase_all action) p.expansions;
  predecessors = remove action p.predecessors;
}

pub remove_reduction_occurrence : USignature → Position → Position
remove_reduction_occurrence reduction p = record p {
  reductions = erase_all reduction p.reductions;
  expansions = map_values (erase_all reduction) p.expansions;
  predecessors = remove reduction p.predecessors;
}

-- The loop of `replaceOperation` over the former parents.
pub adopt : List USignature → USignature → Substitution → Position → Position
unfolding add_expansion add_expansion_substitution
adopt [] to s p = p
adopt (parent ∷ parents) to s p =
    adopt parents to s (add_expansion_substitution parent to s (add_expansion parent to p))

-- `replaceOperation`; `at` throws where `from` has no entry among the predecessors.
pub replace_operation : USignature → USignature → Substitution → Position → Option Position
unfolding adopt remove_action_occurrence remove_reduction_occurrence
replace_operation from to s p = elim (lookup from p.predecessors) [
  | none ↦ none
  | some parents ↦
      some (adopt parents to s (remove_reduction_occurrence from (remove_action_occurrence from p)))
]

-- `getPredecessors().at(child).erase(parent)`, as the pruning of an operator above does it
-- (src/algo/retroactive_pruning.cpp); `at` throws where the child has no entry.
unfoldable pub erase_predecessor : USignature → USignature → Position → Option Position
erase_predecessor parent child p = elim (lookup child p.predecessors) [
  | none ↦ none
  | some parents ↦
      some (record p { predecessors = put child (erase_all parent parents) p.predecessors })
]

-- The elements of the set under the key; none if there is no set.
pub is_member : USignature → USignature → USigSetMap → Bool
is_member x k t = mem x (or_default [] (lookup k t))

pub is_child : USignature → USignature → Position → Bool
unfolding is_member
is_child child parent p = is_member child parent p.expansions

pub is_parent : USignature → USignature → Position → Bool
unfolding is_member
is_parent parent child p = is_member parent child p.predecessors

-- The two tables say the same.
pub IsInverse : Position → Type 0
IsInverse p = (parent child : USignature) → is_child child parent p ≡ is_parent parent child p

pub is_member-empty : (x k : USignature) → is_member x k [] ≡ false
unfolding is_member lookup mem
is_member-empty x k = refl

pub is_member-update :
    (x k y j : USignature) (t : USigSetMap)
    → is_member x k (update j [] (insert_new y) t) ≡ ((k ≟ j && x ≟ y) || is_member x k t)
unfolding is_member
is_member-update x k y j t = ground (
  arith,
  ap (λ o. mem x (or_default [] o)) (lookup-update k j [] (insert_new y) t),
  mem-insert_new x y (or_default [] (lookup j t)),
  same,
)
  where
    same : k ≟ j ≡ true → lookup k t ≡ lookup j t
    same h = ap (λ i. lookup i t) ((usig_beq_iff k j).0 h)

is_member-remove :
    (x k j : USignature) (t : USigSetMap)
    → is_member x k (remove j t) ≡ (not (k ≟ j) && is_member x k t)
unfolding is_member mem
is_member-remove x k j t = ground (arith, ap (λ o. mem x (or_default [] o)) (lookup-remove k j t))

is_member-map_values :
    (x k y : USignature) (t : USigSetMap)
    → is_member x k (map_values (erase_all y) t) ≡ (not (x ≟ y) && is_member x k t)
unfolding is_member mem
is_member-map_values x k y t =
    ap (λ o. mem x (or_default [] o)) (lookup-map_values k (erase_all y) t) ∙ erased (lookup k t)
  where
    erased :
        (o : Option USigSet)
        → mem x (or_default [] (map_option (erase_all y) o))
          ≡ (not (x ≟ y) && mem x (or_default [] o))
    erased none = ground arith
    erased (some set) = mem-erase_all x y set

pub is_child-add_expansion :
    (c q parent child : USignature) (p : Position)
    → is_child c q (add_expansion parent child p) ≡ ((q ≟ parent && c ≟ child) || is_child c q p)
unfolding is_child add_expansion
is_child-add_expansion c q parent child p = is_member-update c q child parent p.expansions

pub is_parent-add_expansion :
    (q c parent child : USignature) (p : Position)
    → is_parent q c (add_expansion parent child p) ≡ ((c ≟ child && q ≟ parent) || is_parent q c p)
unfolding is_parent add_expansion
is_parent-add_expansion q c parent child p = is_member-update q c parent child p.predecessors

pub is_child-remove_action_occurrence :
    (c q a : USignature) (p : Position)
    → is_child c q (remove_action_occurrence a p) ≡ (not (c ≟ a) && is_child c q p)
unfolding is_child remove_action_occurrence
is_child-remove_action_occurrence c q a p = is_member-map_values c q a p.expansions

pub is_parent-remove_action_occurrence :
    (q c a : USignature) (p : Position)
    → is_parent q c (remove_action_occurrence a p) ≡ (not (c ≟ a) && is_parent q c p)
unfolding is_parent remove_action_occurrence
is_parent-remove_action_occurrence q c a p = is_member-remove q c a p.predecessors

pub is_child-remove_reduction_occurrence :
    (c q a : USignature) (p : Position)
    → is_child c q (remove_reduction_occurrence a p) ≡ (not (c ≟ a) && is_child c q p)
unfolding is_child remove_reduction_occurrence
is_child-remove_reduction_occurrence c q a p = is_member-map_values c q a p.expansions

pub is_parent-remove_reduction_occurrence :
    (q c a : USignature) (p : Position)
    → is_parent q c (remove_reduction_occurrence a p) ≡ (not (c ≟ a) && is_parent q c p)
unfolding is_parent remove_reduction_occurrence
is_parent-remove_reduction_occurrence q c a p = is_member-remove q c a p.predecessors

-- The loop adds the child `to` to every one of the parents.
pub is_child-adopt :
    (c q : USignature) (parents : List USignature) (to : USignature) (s : Substitution)
    (p : Position)
    → is_child c q (adopt parents to s p) ≡ ((c ≟ to && mem q parents) || is_child c q p)
unfolding adopt mem is_child
is_child-adopt c q [] to s p = ground arith
is_child-adopt c q (parent ∷ parents) to s p = ground (
  arith,
  is_child-adopt c q parents to s
      (add_expansion_substitution parent to s (add_expansion parent to p)),
  is_child-add_expansion c q parent to p,
)

pub is_parent-adopt :
    (q c : USignature) (parents : List USignature) (to : USignature) (s : Substitution)
    (p : Position)
    → is_parent q c (adopt parents to s p) ≡ ((c ≟ to && mem q parents) || is_parent q c p)
unfolding adopt mem is_parent
is_parent-adopt q c [] to s p = ground arith
is_parent-adopt q c (parent ∷ parents) to s p = ground (
  arith,
  is_parent-adopt q c parents to s
      (add_expansion_substitution parent to s (add_expansion parent to p)),
  is_parent-add_expansion q c parent to p,
)

-- The erased parent is none of the child's any more; what is the child of what does not change.
pub is_child-erase_predecessor :
    (c q parent child : USignature) (p r : Position)
    → erase_predecessor parent child p ≡ some r
    → is_child c q r ≡ is_child c q p
unfolding erase_predecessor is_child
is_child-erase_predecessor c q parent child p r h =
    elim (Option-cases (lookup child p.predecessors)) [
      | inl missing ↦ ground arith
      | inr (parents, there) ↦ ground arith
    ]

pub is_parent-erase_predecessor :
    (q c parent child : USignature) (p r : Position)
    → erase_predecessor parent child p ≡ some r
    → is_parent q c r ≡ (not (c ≟ child && q ≟ parent) && is_parent q c p)
unfolding erase_predecessor is_parent is_member
is_parent-erase_predecessor q c parent child p r h =
    elim (Option-cases (lookup child p.predecessors)) [
      | inl missing ↦ ground arith
      | inr (parents, there) ↦
          let t = put child (erase_all parent parents) p.predecessors in
          let same : record p { predecessors = t } ≡ r = ground arith in
          rw (sym same) (
            ground (
              arith,
              ap (λ o. mem q (or_default [] o))
                  (lookup-put c child (erase_all parent parents) p.predecessors),
              mem-erase_all q parent parents,
              ap (λ o. mem q (or_default [] o)) there,
              other,
            ))
    ]
  where
    other :
        c ≟ child ≡ true
        → mem q (or_default [] (lookup c p.predecessors))
          ≡ mem q (or_default [] (lookup child p.predecessors))
    other e = ap (λ i. mem q (or_default [] (lookup i p.predecessors))) ((usig_beq_iff c child).0 e)
