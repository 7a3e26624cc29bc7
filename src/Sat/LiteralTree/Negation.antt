-- ===== src/Sat/LiteralTree/Negation.antt =====
-- What the clauses of `encodeNegation` say.
use mathlib.Core.Bool.{false≢true}
use lilotane_smt_csp.Prelude.{
  sym, ◌≡◌, refl, ◌∙◌, Bool, true, false, not, ◌&&◌, ◌||◌, List, [], ◌∷◌, ◌++◌, map, some, none,
  arith, Eq, ◌≟◌, any, all, All, All-append, any-append, all-append, &&-eq-true, inl, inr, ◌↔◌,
  Bool-cases, Option-cases,
}
use lilotane_smt_csp.Sat.LiteralTree.{
  Node, Children, node, nil, cons, find, contains, at_child, valid_leaf, encode_negation,
  leaf_clauses, inner_clauses,
}
use lilotane_smt_csp.Sat.LiteralTree.Paths.{
  IsWf, AreWf, HasLiterals, HaveLiterals, Child, here, there,
}
use lilotane_smt_csp.Sat.LiteralTree.Encode.{PathHolds, leaf-PathHolds, Child-PathHolds}

module _ {ℓ} {T : Type ℓ} (lit : T → Bool) where
  -- No path from the node to a valid leaf has only true literals.
  unfoldable mutual
    pub avoids : Node T → Bool
    avoids (node true cs) = false
    avoids (node false cs) = all_avoid cs

    pub all_avoid : Children T → Bool
    all_avoid nil = true
    all_avoid (cons k c cs) = (not (lit k) || avoids c) && all_avoid cs

-- `lit` is the truth of a literal on a path, `holds` that of a literal in a clause.
module _ {ℓ} {T : Type ℓ} (flip : T → T) (holds lit : T → Bool) (IsLiteral : T → Type 0)
    (flips : (x : T) → IsLiteral x → holds (flip x) ≡ not (lit x)) where
  any-flip : (path : List T) → All IsLiteral path → any holds (map flip path) ≡ not (all lit path)
  any-flip [] l = refl
  any-flip (x ∷ path) l = ground (arith, flips x l.0, any-flip path l.1)

  all-snoc : (path : List T) (k : T) → all lit (path ++ k ∷ []) ≡ (all lit path && lit k)
  all-snoc path k = all-append lit path (k ∷ []) ∙ ground arith

  leaf_holds :
      (path : List T) (k : T)
      → All IsLiteral path
      → IsLiteral k
      → any holds (map flip path ++ flip k ∷ []) ≡ (not (all lit path) || not (lit k))
  leaf_holds path k l h =
      ground (arith, any-append holds (map flip path) (flip k ∷ []), any-flip path l, flips k h)

  mutual
    unfolding encode_negation leaf_clauses avoids HasLiterals

    encode_negation-avoids :
        (path : List T) (t : Node T)
        → All IsLiteral path
        → HasLiterals IsLiteral t
        → valid_leaf t ≡ false
        → all (any holds) (encode_negation flip path t) ≡ (not (all lit path) || avoids lit t)
    encode_negation-avoids path (node true cs) l m h = cc
    encode_negation-avoids path (node false cs) l m h =
        all-append (any holds) (leaf_clauses flip path cs) (inner_clauses flip path cs)
        ∙ children-avoid path cs l m

    children-avoid :
        (path : List T) (cs : Children T)
        → All IsLiteral path
        → HaveLiterals IsLiteral cs
        → (all (any holds) (leaf_clauses flip path cs)
            && all (any holds) (inner_clauses flip path cs))
          ≡ (not (all lit path) || all_avoid lit cs)
    children-avoid path nil l m = ground arith
    children-avoid path (cons k (node true ds) cs) l m =
        ground (arith, leaf_holds path k l m.0, children-avoid path cs l m.2)
    children-avoid path (cons k (node false ds) cs) l m = ground (
      arith,
      all-append (any holds) (encode_negation flip (path ++ k ∷ []) (node false ds))
          (inner_clauses flip path cs),
      all-snoc path k,
      encode_negation-avoids (path ++ k ∷ []) (node false ds)
          (All-append IsLiteral path (k ∷ []) l (m.0, tt)) m.1 refl,
      children-avoid path cs l m.2,
    )

module _ {ℓ} {T : Type ℓ} ⦃e : Eq T⦄ (lit : T → Bool) where
  mutual
    unfolding avoids IsWf

    not_avoids-PathHolds : (t : Node T) → IsWf t → avoids lit t ≡ false → PathHolds lit t
    not_avoids-PathHolds (node true cs) w h = leaf-PathHolds lit cs
    not_avoids-PathHolds (node false cs) w h = not_all_avoid-PathHolds cs cs w (λ x c k. k) w h

    not_all_avoid-PathHolds :
        (cs siblings : Children T)
        → AreWf siblings
        → ((x : T) (c : Node T) → Child x c cs → Child x c siblings)
        → AreWf cs
        → all_avoid lit cs ≡ false
        → PathHolds lit (node false siblings)
    not_all_avoid-PathHolds nil siblings ws among w h = absurd (false≢true (sym h))
    not_all_avoid-PathHolds (cons k c cs) siblings ws among w h =
        elim (Bool-cases (not (lit k) || avoids lit c)) [
          | inr hit ↦
              Child-PathHolds lit k c false siblings ws (among k c here) (ground arith)
                (not_avoids-PathHolds c w.1 (ground arith))
          | inl pass ↦
              not_all_avoid-PathHolds cs siblings ws (λ x d k'. among x d (there k')) w.2
                (ground arith)
        ]

  find-all_avoid :
      (x : T) (cs : Children T) {c : Node T}
      → find x cs ≡ some c
      → lit x ≡ true
      → avoids lit c ≡ false
      → all_avoid lit cs ≡ false
  unfolding find avoids
  find-all_avoid x nil f h g = cc
  find-all_avoid x (cons k d cs) {c = c} f h g = elim (Bool-cases (x ≟ k)) [
    | inl hit ↦
        let same : d ≡ c = ground arith in
        let lit_k : lit k ≡ true = ground (arith, e.beq_iff x k) in rw (same, lit_k, g)
    | inr miss ↦ let rest = find-all_avoid x cs {c = c} (ground arith) h g in ground (arith, rest)
  ]

  path-avoids :
      (p : List T) (t : Node T) → contains p t ≡ true → all lit p ≡ true → avoids lit t ≡ false
  unfolding contains avoids
  path-avoids p (node true cs) h a = refl
  path-avoids [] (node false cs) h a = cc
  path-avoids (x ∷ p) (node false cs) h a = elim (Option-cases (find x cs)) [
    | inl missing ↦ let stuck : at_child (contains p) none ≡ true = rw missing at h in cc stuck
    | inr (c, found) ↦
        let both = (&&-eq-true (lit x) (all lit p)).0 a in
        find-all_avoid x cs found both.0 (path-avoids p c (rw found at h) both.1)
  ]

  -- The clauses of `encodeNegation` without head literals, for a tree with one child to a key that
  -- does not contain the empty sequence, where `flip` negates literals: they hold exactly if on every path of the tree some literal is false.
  pub encode_negation-iff_no_path :
      (flip : T → T) (holds : T → Bool) (IsLiteral : T → Type 0)
      → ((x : T) → IsLiteral x → holds (flip x) ≡ not (lit x))
      → (t : Node T) → HasLiterals IsLiteral t
      → IsWf t
      → contains [] t ≡ false
      → (all (any holds) (encode_negation flip [] t) ≡ true)
        ↔ ((p : List T) → contains p t ≡ true → all lit p ≡ false)
  unfolding contains
  encode_negation-iff_no_path flip holds IsLiteral flips (node true cs) m w h = cc
  encode_negation-iff_no_path flip holds IsLiteral flips (node false cs) m w h =
      let says =
        encode_negation-avoids flip holds lit IsLiteral flips [] (node false cs) tt m refl in
      (
        λ c p in_tree. elim (Bool-cases (all lit p)) [
          | inr off ↦ off
          | inl on ↦ let hit = path-avoids p (node false cs) in_tree on in ground (arith, says, hit)
        ],
        λ never. elim (Bool-cases (avoids lit (node false cs))) [
          | inl ok ↦ ground (arith, says)
          | inr bad ↦
              let q = not_avoids-PathHolds (node false cs) w bad in
              let off = never q.path q.member in
              let on = q.true_on in absurd (false≢true (sym off ∙ on))
        ],
      )
