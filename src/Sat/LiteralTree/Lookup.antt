-- ===== src/Sat/LiteralTree/Lookup.antt =====
-- Children found after the writes of `insert` and `merge`.
use lilotane_smt_csp.Prelude.{◌≡◌, refl, true, false, none, some, if◌then◌else◌, arith, Eq, ◌≟◌}
use lilotane_smt_csp.Sat.LiteralTree.{Node, Children, nil, cons, new_node, find, alter}

module _ {ℓ} {T : Type ℓ} ⦃e : Eq T⦄ where
  unfoldable pub find_or_new : T → Children T → Node T
  unfolding find
  find_or_new x cs = elim (find x cs) [ none ↦ new_node | some c ↦ c ]

  pub ≟_trans_ne : (a b c : T) → a ≟ b ≡ true → a ≟ c ≡ false → b ≟ c ≡ false
  ≟_trans_ne a b c p q = ground (arith, e.beq_iff a b, e.beq_iff a c, e.beq_iff b c)

  pub find-alter :
      (q x : T) (f : Node T → Node T) (cs : Children T)
      → find q (alter x f cs) ≡ (if q ≟ x then some (f (find_or_new x cs)) else find q cs)
  unfolding find alter find_or_new
  find-alter q x f nil = refl
  find-alter q x f (cons y c cs) =
      ground (arith, e.beq_iff q x, e.beq_iff q y, e.beq_iff x y, find-alter q x f cs)
