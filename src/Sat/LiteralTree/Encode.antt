-- ===== src/Sat/LiteralTree/Encode.antt =====
-- What the clauses of `encode` say, and their number and length (`getSizeOfEncoding`).
use lilotane_smt_csp.Prelude.{
  ◌≡◌, refl, ◌∙◌, Bool, true, false, not, ◌&&◌, ◌||◌, List, [], ◌∷◌, ◌++◌, map, some, none, arith,
  Eq, any, all, All, All-append, any-append, all-append, &&-eq-true, inl, inr, ◌⊎◌, ◌↔◌, subst, ◌≟◌,
  ||_true_right, Bool-cases, Option-cases,
}
use lilotane_smt_csp.Sat.LiteralTree.{
  Node, Children, node, nil, cons, find, contains, at_child, keys, encode, encode_children,
}
use lilotane_smt_csp.Sat.LiteralTree.Paths.{
  IsWf, AreWf, HasLiterals, HaveLiterals, Child, here, there, Child-find,
}

module _ {ℓ} {T : Type ℓ} (flip : T → T) (holds : T → Bool) (IsLiteral : T → Type 0)
    (flips : (x : T) → IsLiteral x → holds (flip x) ≡ not (holds x)) where
  any-flip : (path : List T) → All IsLiteral path → any holds (map flip path) ≡ not (all holds path)
  any-flip [] l = refl
  any-flip (x ∷ path) l = ground (arith, flips x l.0, any-flip path l.1)

module _ {ℓ} {T : Type ℓ} (holds : T → Bool) where
  -- A valid leaf, or some child's literal holds, and below each child whose literal holds the same.
  unfoldable mutual
    pub leads_on : Node T → Bool
    leads_on (node true cs) = true
    leads_on (node false cs) = any holds (keys cs) && all_lead_on cs

    pub all_lead_on : Children T → Bool
    all_lead_on nil = true
    all_lead_on (cons k c cs) = (not (holds k) || leads_on c) && all_lead_on cs

module _ {ℓ} {T : Type ℓ} (flip : T → T) (holds : T → Bool) (IsLiteral : T → Type 0)
    (flips : (x : T) → IsLiteral x → holds (flip x) ≡ not (holds x)) where
  all-snoc : (path : List T) (k : T) → all holds (path ++ k ∷ []) ≡ (all holds path && holds k)
  all-snoc path k = all-append holds path (k ∷ []) ∙ ground arith

  mutual
    unfolding encode leads_on HasLiterals

    encode-leads_on :
        (path : List T) (t : Node T)
        → All IsLiteral path
        → HasLiterals IsLiteral t
        → all (any holds) (encode flip path t) ≡ (not (all holds path) || leads_on holds t)
    encode-leads_on path (node true cs) l m = ground arith
    encode-leads_on path (node false cs) l m = ground (
      arith,
      all-append (any holds) (encode_children flip path cs) ((map flip path ++ keys cs) ∷ []),
      any-append holds (map flip path) (keys cs),
      any-flip flip holds IsLiteral flips path l,
      encode_children-leads_on path cs l m,
    )

    encode_children-leads_on :
        (path : List T) (cs : Children T)
        → All IsLiteral path
        → HaveLiterals IsLiteral cs
        → all (any holds) (encode_children flip path cs)
          ≡ (not (all holds path) || all_lead_on holds cs)
    encode_children-leads_on path nil l m = ground arith
    encode_children-leads_on path (cons k c cs) l m = ground (
      arith,
      all-append (any holds) (encode flip (path ++ k ∷ []) c) (encode_children flip path cs),
      all-snoc path k,
      encode-leads_on (path ++ k ∷ []) c (All-append IsLiteral path (k ∷ []) l (m.0, tt)) m.1,
      encode_children-leads_on path cs l m.2,
    )

module _ {ℓ} {T : Type ℓ} (holds : T → Bool) where
  -- Of the literals that lead on from one node, at most one holds.
  unfoldable mutual
    pub IsExclusive : Node T → Type 0
    IsExclusive (node v cs) = AreExclusive cs

    pub AreExclusive : Children T → Type 0
    AreExclusive nil = Unit
    AreExclusive (cons k c cs) =
        (holds k ≡ true → any holds (keys cs) ≡ false) × IsExclusive c × AreExclusive cs

module _ {ℓ} {T : Type ℓ} ⦃e : Eq T⦄ (holds : T → Bool) where
  pub record PathHolds (t : Node T) : Type ℓ where
    pub path : List T
    pub member : contains path t ≡ true
    pub true_on : all holds path ≡ true

  pub leaf-PathHolds : (cs : Children T) → PathHolds (node true cs)
  unfolding contains
  leaf-PathHolds cs = record { path = []; member = refl; true_on = refl }

  pub Child-PathHolds :
      (x : T) (c : Node T) (v : Bool) (cs : Children T)
      → AreWf cs
      → Child x c cs
      → holds x ≡ true
      → PathHolds c
      → PathHolds (node v cs)
  unfolding contains
  Child-PathHolds x c v cs w child h p = record {
    path = x ∷ p.path;
    member = rw (Child-find w child) p.member;
    true_on = rw (h, p.true_on);
  }

  mutual
    unfolding leads_on IsWf keys

    leads_on-PathHolds : (t : Node T) → IsWf t → leads_on holds t ≡ true → PathHolds t
    leads_on-PathHolds (node true cs) w h = leaf-PathHolds cs
    leads_on-PathHolds (node false cs) w h =
        let both = (&&-eq-true (any holds (keys cs)) (all_lead_on holds cs)).0 h in
        all_lead_on-PathHolds cs cs w (λ x c k. k) w both.0 both.1

    all_lead_on-PathHolds :
        (cs siblings : Children T)
        → AreWf siblings
        → ((x : T) (c : Node T) → Child x c cs → Child x c siblings)
        → AreWf cs
        → any holds (keys cs) ≡ true
        → all_lead_on holds cs ≡ true
        → PathHolds (node false siblings)
    all_lead_on-PathHolds nil siblings ws among w some_child h = cc
    all_lead_on-PathHolds (cons k c cs) siblings ws among w some_child h =
        let both = (&&-eq-true (not (holds k) || leads_on holds c) (all_lead_on holds cs)).0 h in
        elim (Bool-cases (holds k)) [
          | inl yes_k ↦
              Child-PathHolds k c false siblings ws (among k c here) yes_k
                (leads_on-PathHolds c w.1 (ground (arith, both)))
          | inr no_k ↦
              all_lead_on-PathHolds cs siblings ws (λ x d k'. among x d (there k')) w.2
                (ground arith) both.1
        ]

  none_hold : (cs : Children T) → any holds (keys cs) ≡ false → all_lead_on holds cs ≡ true
  unfolding leads_on keys
  none_hold nil h = refl
  none_hold (cons k c cs) h = ground (arith, none_hold cs)

  find-leads_on :
      (x : T) (cs : Children T) {c : Node T}
      → find x cs ≡ some c
      → holds x ≡ true
      → leads_on holds c ≡ true
      → AreExclusive holds cs
      → (any holds (keys cs) ≡ true) × (all_lead_on holds cs ≡ true)
  unfolding leads_on keys find IsExclusive
  find-leads_on x nil f h g ex = cc
  find-leads_on x (cons k d cs) {c = c} f h g ex = elim (Bool-cases (x ≟ k)) [
    | inl hit ↦
        let same : d ≡ c = ground arith in
        let holds_k : holds k ≡ true = ground (arith, e.beq_iff x k) in
        rw (same, holds_k, g) (refl, none_hold cs (ex.0 holds_k))
    | inr miss ↦
        let rest = find-leads_on x cs {c = c} (ground arith) h g ex.2 in
        let other : holds k ≡ false = ground (arith, ex.0) in
        rw (other, rest.0, rest.1) (refl, refl)
  ]

  find-IsExclusive :
      (x : T) (cs : Children T) {c : Node T}
      → find x cs ≡ some c
      → AreExclusive holds cs
      → IsExclusive holds c
  unfolding find IsExclusive
  find-IsExclusive x nil f ex = cc
  find-IsExclusive x (cons k d cs) {c = c} f ex = elim (Bool-cases (x ≟ k)) [
    | inl hit ↦ subst (IsExclusive holds) (let same : d ≡ c = ground arith in same) ex.1
    | inr miss ↦ find-IsExclusive x cs {c = c} (ground arith) ex.2
  ]

  path-leads_on :
      (p : List T) (t : Node T)
      → IsExclusive holds t
      → contains p t ≡ true
      → all holds p ≡ true
      → leads_on holds t ≡ true
  unfolding contains leads_on IsExclusive
  path-leads_on [] (node true cs) ex h a = refl
  path-leads_on [] (node false cs) ex h a = cc
  path-leads_on (x ∷ p) (node true cs) ex h a = refl
  path-leads_on (x ∷ p) (node false cs) ex h a = elim (Option-cases (find x cs)) [
    | inl missing ↦ let stuck : at_child (contains p) none ≡ true = rw missing at h in cc stuck
    | inr (c, found) ↦
        let both = (&&-eq-true (holds x) (all holds p)).0 a in
        let below = path-leads_on p c (find-IsExclusive x cs found ex) (rw found at h) both.1 in
        let r = find-leads_on x cs found both.0 below ex in rw (r.0, r.1)
  ]

  -- Whatever the assignment: if the clauses and the head literals hold, then some path is true.
  pub encode-PathHolds :
      (flip : T → T) (IsLiteral : T → Type 0)
      → ((x : T) → IsLiteral x → holds (flip x) ≡ not (holds x))
      → (head : List T) (t : Node T) → All IsLiteral head
      → HasLiterals IsLiteral t
      → IsWf t
      → all (any holds) (encode flip head t) ≡ true
      → all holds head ≡ true
      → PathHolds t
  encode-PathHolds flip IsLiteral flips head t l m w h on =
      let says = encode-leads_on flip holds IsLiteral flips head t l m in
      leads_on-PathHolds t w (ground (arith, says))

  -- The clauses of `encode`, for a tree with one child to a key, under an assignment that makes at
  -- most one literal true of those that lead on from a node, where `flip` negates literals: they hold
  -- exactly if a head literal is false or all literals of some path of the tree are true.
  pub encode-iff_PathHolds :
      (flip : T → T) (IsLiteral : T → Type 0)
      → ((x : T) → IsLiteral x → holds (flip x) ≡ not (holds x))
      → (head : List T) (t : Node T) → All IsLiteral head
      → HasLiterals IsLiteral t
      → IsWf t
      → IsExclusive holds t
      → (all (any holds) (encode flip head t) ≡ true) ↔ ((all holds head ≡ false) ⊎ PathHolds t)
  encode-iff_PathHolds flip IsLiteral flips head t l m w ex =
      let says = encode-leads_on flip holds IsLiteral flips head t l m in
      (
        λ h. elim (Bool-cases (all holds head)) [
          | inr off ↦ inl off
          | inl on ↦ inr (encode-PathHolds flip IsLiteral flips head t l m w h on)
        ],
        λ h. elim h [
          | inl off ↦ rw (says, off)
          | inr p ↦
              rw (says, path-leads_on p.path t ex p.member p.true_on)
                (||_true_right (not (all holds head)))
        ],
      )
