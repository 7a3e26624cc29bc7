-- ===== src/Sat/LiteralTree/Contains.antt =====
-- `insert` and `contains`: the tree is a set of sequences.
use lilotane_smt_csp.Prelude.{
  ◌≡◌, refl, Bool, false, ◌||◌, List, [], ◌∷◌, Eq, ◌≟◌, Option-cases, Bool-cases, inl, inr,
  list_beq, ≟_sound, ap, ◌∙◌,
}
use lilotane_smt_csp.Sat.LiteralTree.{Node, Children, node, new_node, find, insert, contains}
use lilotane_smt_csp.Sat.LiteralTree.Lookup.{find_or_new, find-alter}

module _ {ℓ} {T : Type ℓ} ⦃e : Eq T⦄ where
  pub contains-new_node : (q : List T) → contains q new_node ≡ false
  unfolding contains find
  contains-new_node [] = refl
  contains-new_node (x ∷ q) = refl

  contains-find_or_new :
      (x : T) (q : List T) (v : Bool) (cs : Children T)
      → contains q (find_or_new x cs) ≡ contains (x ∷ q) (node v cs)
  unfolding contains find_or_new
  contains-find_or_new x q v cs = elim (Option-cases (find x cs)) [
    | inl e ↦ rw (e, find_or_new) (contains-new_node q)
    | inr (c, e) ↦ rw (e, find_or_new)
  ]

  -- After `insert`, the tree contains the new sequence and what it contained before, and nothing
  -- else.
  pub contains-insert :
      (q p : List T) (t : Node T) → contains q (insert p t) ≡ (list_beq q p || contains q t)
  unfolding contains insert
  contains-insert [] [] (node v cs) = refl
  contains-insert (x ∷ q) [] (node v cs) = refl
  contains-insert [] (y ∷ p) (node v cs) = refl
  contains-insert (x ∷ q) (y ∷ p) (node v cs) =
      rw (find-alter x y (insert p) cs) (elim (Bool-cases (x ≟ y)) [
        | inr miss ↦ rw miss
        | inl hit ↦
            rw (hit, ≟_sound x y hit)
              (contains-insert q p (find_or_new y cs)
                ∙ ap (λ b. list_beq q p || b) (contains-find_or_new y q v cs))
      ])
