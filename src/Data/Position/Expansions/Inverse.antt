-- ===== src/Data/Position/Expansions/Inverse.antt =====
-- What the operations on parents and children (src/data/position.cpp) keep.
use lilotane_smt_csp.Prelude.{
  ◌≡◌, refl, ap, sym, not, Bool, true, false, ◌&&◌, ◌||◌, [], some, mem, lookup, or_default, ◌≟◌,
  arith, Option-cases, inl, inr,
}
use lilotane_smt_csp.Data.Substitution.{Substitution}
use lilotane_smt_csp.Data.Signature.{USignature, usig_eq}
use lilotane_smt_csp.Data.Position.{Position, USigSet, new_position}
use lilotane_smt_csp.Data.Position.Expansions.{
  add_expansion, remove_action_occurrence, remove_reduction_occurrence, adopt, replace_operation,
  erase_predecessor, is_child-erase_predecessor, is_parent-erase_predecessor, is_member, is_child,
  is_parent, IsInverse, is_child-add_expansion, is_parent-add_expansion,
  is_child-remove_action_occurrence, is_parent-remove_action_occurrence,
  is_child-remove_reduction_occurrence, is_parent-remove_reduction_occurrence, is_child-adopt,
  is_parent-adopt,
}

-- What changes the two tables, and whether it erases a parent alone.
pub data Change : Bool → Position → Position → Type 0 where
  added : (parent child : USignature) (p : Position) → Change false p (add_expansion parent child p)
  action_removed : (a : USignature) (p : Position) → Change false p (remove_action_occurrence a p)
  reduction_removed :
      (r : USignature) (p : Position) → Change false p (remove_reduction_occurrence r p)
  replaced :
      (from to : USignature) (s : Substitution) (p q : Position)
      → replace_operation from to s p ≡ some q
      → Change false p q
  predecessor_erased :
      (parent child : USignature) (p q : Position)
      → erase_predecessor parent child p ≡ some q
      → Change true p q

-- What is reached from the new position by these changes, and whether a parent was erased alone.
pub data Reached : Bool → Position → Type 0 where
  start : Reached false new_position
  change : {b e : Bool} {p q : Position} → Reached b p → Change e p q → Reached (b || e) q

-- Children and parents after `replace_operation`.
replaced_tables :
    (from to : USignature) (s : Substitution) (p q : Position)
    → replace_operation from to s p ≡ some q
    → (parent child : USignature)
    → (is_child child parent q ≡ (
        (child ≟ to && is_parent parent from p) || (not (child ≟ from) && is_child child parent p)))
      × (is_parent parent child q ≡ (
          (child ≟ to && is_parent parent from p)
          || (not (child ≟ from) && is_parent parent child p)))
unfolding replace_operation is_child is_parent is_member
replaced_tables from to s p q h parent child = elim (Option-cases (lookup from p.predecessors)) [
  | inl missing ↦ ground arith
  | inr (parents, there) ↦
      rw (sym (same parents there)) (children parents there, parents_of parents there)
]
  where
    removed : Position
    removed = remove_reduction_occurrence from (remove_action_occurrence from p)

    same :
        (parents : USigSet)
        → lookup from p.predecessors ≡ some parents
        → adopt parents to s removed ≡ q
    same parents there = ground arith

    children :
        (parents : USigSet)
        → lookup from p.predecessors ≡ some parents
        → is_child child parent (adopt parents to s removed) ≡ (
            (child ≟ to && is_parent parent from p)
            || (not (child ≟ from) && is_child child parent p))
    children parents there = ground (
      arith,
      is_child-adopt child parent parents to s removed,
      is_child-remove_reduction_occurrence child parent from (remove_action_occurrence from p),
      is_child-remove_action_occurrence child parent from p,
      ap (λ o. mem parent (or_default [] o)) there,
    )

    parents_of :
        (parents : USigSet)
        → lookup from p.predecessors ≡ some parents
        → is_parent parent child (adopt parents to s removed) ≡ (
            (child ≟ to && is_parent parent from p)
            || (not (child ≟ from) && is_parent parent child p))
    parents_of parents there = ground (
      arith,
      is_parent-adopt parent child parents to s removed,
      is_parent-remove_reduction_occurrence parent child from (remove_action_occurrence from p),
      is_parent-remove_action_occurrence parent child from p,
      ap (λ o. mem parent (or_default [] o)) there,
    )

-- Where the replaced operator has an entry among the predecessors, `replaceOperation` returns; then the
-- children of a parent are its former ones but for the replaced operator, and the new operator if the
-- replaced one was its child by the table of predecessors; and the parents change alike.
pub replace_operation-tables :
    (from to : USignature) (s : Substitution) (p : Position) (parents : USigSet)
    → lookup from p.predecessors ≡ some parents
    → (q : Position) × (replace_operation from to s p ≡ some q)
      × ((parent child : USignature)
          → (is_child child parent q ≡ (
              (child ≟ to && is_parent parent from p)
              || (not (child ≟ from) && is_child child parent p)))
            × (is_parent parent child q ≡ (
                (child ≟ to && is_parent parent from p)
                || (not (child ≟ from) && is_parent parent child p))))
unfolding replace_operation
replace_operation-tables from to s p parents h = (q, returns, replaced_tables from to s p q returns)
  where
    q : Position
    q = adopt parents to s (remove_reduction_occurrence from (remove_action_occurrence from p))

    returns : replace_operation from to s p ≡ some q
    returns = ground arith

-- Every parent by the one table is a parent by the other one.
IsWithin : Position → Type 0
IsWithin p =
    (parent child : USignature) → (not (is_parent parent child p) || is_child child parent p) ≡ true

Change-IsInverse :
    {e : Bool} {p q : Position} → Change e p q → e ≡ false → IsInverse p → IsInverse q
unfolding IsInverse
Change-IsInverse (added u v p) h inv parent child = ground (
  arith,
  is_child-add_expansion child parent u v p,
  is_parent-add_expansion parent child u v p,
  inv parent child,
)
Change-IsInverse (action_removed a p) h inv parent child = ground (
  arith,
  is_child-remove_action_occurrence child parent a p,
  is_parent-remove_action_occurrence parent child a p,
  inv parent child,
)
Change-IsInverse (reduction_removed a p) h inv parent child = ground (
  arith,
  is_child-remove_reduction_occurrence child parent a p,
  is_parent-remove_reduction_occurrence parent child a p,
  inv parent child,
)
Change-IsInverse (replaced from to s p q k) h inv parent child =
    ground (arith, replaced_tables from to s p q k parent child, inv parent child)
Change-IsInverse (predecessor_erased u v p q k) h inv parent child = cc h

Change-IsWithin : {e : Bool} {p q : Position} → Change e p q → IsWithin p → IsWithin q
unfolding IsWithin
Change-IsWithin (added u v p) within parent child = ground (
  arith,
  is_child-add_expansion child parent u v p,
  is_parent-add_expansion parent child u v p,
  within parent child,
)
Change-IsWithin (action_removed a p) within parent child = ground (
  arith,
  is_child-remove_action_occurrence child parent a p,
  is_parent-remove_action_occurrence parent child a p,
  within parent child,
)
Change-IsWithin (reduction_removed a p) within parent child = ground (
  arith,
  is_child-remove_reduction_occurrence child parent a p,
  is_parent-remove_reduction_occurrence parent child a p,
  within parent child,
)
Change-IsWithin (replaced from to s p q k) within parent child =
    ground (arith, replaced_tables from to s p q k parent child, within parent child)
Change-IsWithin (predecessor_erased u v p q k) within parent child = ground (
  arith,
  is_child-erase_predecessor child parent u v p q k,
  is_parent-erase_predecessor parent child u v p q k,
  within parent child,
)

Reached-IsWithin : {b : Bool} {p : Position} → Reached b p → IsWithin p
unfolding IsWithin is_child is_parent is_member new_position lookup mem
Reached-IsWithin start = λ parent child. refl
Reached-IsWithin (change r c) = Change-IsWithin c (Reached-IsWithin r)

never_erased : {b : Bool} {p : Position} → Reached b p → b ≡ false → IsInverse p
unfolding IsInverse is_child is_parent is_member new_position lookup mem
never_erased start h = λ parent child. refl
never_erased (change {b} {e} r c) h =
    Change-IsInverse c (ground (arith, h)) (never_erased r (ground (arith, h)))

-- What the two tables have in common: all, or, where a parent was erased alone, the parents by the
-- table of predecessors.
pub AreConsistent : Bool → Position → Type 0
unfolding IsInverse IsWithin
AreConsistent false p = IsInverse p
AreConsistent true p = IsWithin p

-- In every position that is reached from the new one by `addExpansion`, `removeActionOccurrence`,
-- `removeReductionOccurrence`, `replaceOperation` and the pruning's erasure of one parent: while no
-- parent was erased that way, an operator is a child of another one exactly if that one is its
-- parent; afterwards, it is still a child of each of its parents.
pub Reached-AreConsistent : {b : Bool} {p : Position} → Reached b p → AreConsistent b p
unfolding AreConsistent
Reached-AreConsistent {b = false} r = never_erased r refl
Reached-AreConsistent {b = true} r = Reached-IsWithin r
