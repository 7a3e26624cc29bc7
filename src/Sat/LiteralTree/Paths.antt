-- ===== src/Sat/LiteralTree/Paths.antt =====
-- Well-formed trees: a node has one child to a key, as a hash map does.
use lilotane_smt_csp.Prelude.{
  ◌≡◌, refl, All, subst, ◌∙◌, List, [], ◌∷◌, none, some, arith, Eq, ◌≟◌, ≟_refl, Option-cases,
  Bool-cases, inl, inr,
}
use lilotane_smt_csp.Sat.LiteralTree.{
  Node, Children, node, nil, cons, new_node, find, alter, insert,
}
use lilotane_smt_csp.Sat.LiteralTree.Lookup.{find_or_new, find-alter}

-- `c` is the child under `x`.
pub data Child {ℓ} {T : Type ℓ} (x : T) (c : Node T) : Children T → Type ℓ where
  here : {cs : Children T} → Child x c (cons x c cs)
  there : {k : T} {d : Node T} {cs : Children T} → Child x c cs → Child x c (cons k d cs)

-- Every key of the tree is a literal (not 0, for numbers).
module _ {ℓ} {T : Type ℓ} (IsLiteral : T → Type 0) where
  unfoldable mutual
    pub HasLiterals : Node T → Type 0
    HasLiterals (node v cs) = HaveLiterals cs

    pub HaveLiterals : Children T → Type 0
    HaveLiterals nil = Unit
    HaveLiterals (cons k c cs) = IsLiteral k × HasLiterals c × HaveLiterals cs

module _ {ℓ} {T : Type ℓ} ⦃e : Eq T⦄ where
  unfoldable mutual
    pub IsWf : Node T → Type ℓ
    IsWf (node v cs) = AreWf cs

    pub AreWf : Children T → Type ℓ
    AreWf nil = Unit
    AreWf (cons k c cs) = (find k cs ≡ none) × IsWf c × AreWf cs

  pub find-IsWf : (x : T) (cs : Children T) {c : Node T} → AreWf cs → find x cs ≡ some c → IsWf c
  unfolding IsWf find
  find-IsWf x nil w h = cc
  find-IsWf x (cons k d cs) {c = c} w h = elim (Bool-cases (x ≟ k)) [
    | inl hit ↦ subst IsWf ((let same : d ≡ c = ground arith in same)) w.1
    | inr miss ↦ find-IsWf x cs w.2 (ground arith)
  ]

  find_or_new-IsWf : (x : T) (cs : Children T) → AreWf cs → IsWf (find_or_new x cs)
  unfolding IsWf find_or_new
  find_or_new-IsWf x cs w = elim (Option-cases (find x cs)) [
    | inl missing ↦ rw (missing, find_or_new) tt
    | inr (c, found) ↦ rw (found, find_or_new) (find-IsWf x cs w found)
  ]

  alter-AreWf :
      (x : T) (f : Node T → Node T) (cs : Children T)
      → AreWf cs
      → ((c : Node T) → IsWf c → IsWf (f c))
      → AreWf (alter x f cs)
  unfolding IsWf alter find
  alter-AreWf x f nil w keep = (refl, keep new_node tt, tt)
  alter-AreWf x f (cons k c cs) w keep = elim (Bool-cases (x ≟ k)) [
    | inl hit ↦ rw hit (w.0, keep c w.1, w.2)
    | inr miss ↦ rw miss (
      find-alter k x f cs ∙ ground (arith, e.beq_iff x k, e.beq_iff k x, w.0),
      w.1,
      alter-AreWf x f cs w.2 keep,
    )
  ]

  -- `insert` keeps one child to a key.
  pub insert-IsWf : (p : List T) (t : Node T) → IsWf t → IsWf (insert p t)
  unfolding IsWf insert
  insert-IsWf [] (node v cs) w = w
  insert-IsWf (x ∷ p) (node v cs) w = alter-AreWf x (insert p) cs w (insert-IsWf p)

  pub Child-find :
      {x : T} {c : Node T} {cs : Children T} → AreWf cs → Child x c cs → find x cs ≡ some c
  unfolding IsWf find
  Child-find {x} w here = rw (≟_refl x)
  Child-find {x} w (there {k = k} {cs = cs} h) =
      let rest = Child-find {cs = cs} w.2 h in ground (arith, rest, w.0, e.beq_iff x k)

-- `insert` of literals.
module _ {ℓ} {T : Type ℓ} ⦃e : Eq T⦄ (IsLiteral : T → Type 0) where
  alter-HaveLiterals :
      (x : T) (f : Node T → Node T) (cs : Children T)
      → IsLiteral x
      → HaveLiterals IsLiteral cs
      → ((c : Node T) → HasLiterals IsLiteral c → HasLiterals IsLiteral (f c))
      → HaveLiterals IsLiteral (alter x f cs)
  unfolding HasLiterals alter
  alter-HaveLiterals x f nil l h keep = (l, keep new_node tt, tt)
  alter-HaveLiterals x f (cons k c cs) l h keep = elim (Bool-cases (x ≟ k)) [
    | inl hit ↦ rw hit (h.0, keep c h.1, h.2)
    | inr miss ↦ rw miss (h.0, h.1, alter-HaveLiterals x f cs l h.2 keep)
  ]

  pub insert-HasLiterals :
      (p : List T) (t : Node T)
      → All IsLiteral p
      → HasLiterals IsLiteral t
      → HasLiterals IsLiteral (insert p t)
  unfolding HasLiterals insert
  insert-HasLiterals [] (node v cs) l h = h
  insert-HasLiterals (x ∷ p) (node v cs) l h =
      alter-HaveLiterals x (insert p) cs l.0 h (λ c. insert-HasLiterals p c l.1)
