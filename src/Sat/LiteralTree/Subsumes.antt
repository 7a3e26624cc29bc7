-- ===== src/Sat/LiteralTree/Subsumes.antt =====
-- `subsumes`: the tree has a path of which the given literals are a subsequence.
use lilotane_smt_csp.Prelude.{
  ◌≡◌, refl, Bool, true, false, List, [], ◌∷◌, none, some, arith, Eq, ◌≟◌, inl, inr, Option-cases,
  Bool-cases, ||-eq-true, ||_true_right, ◌↔◌, subst,
}
use lilotane_smt_csp.Sat.LiteralTree.{
  Node, Children, node, nil, cons, find, contains, at_child, has_leaf, has_leaf_child, search_step,
  search_children, subsumes,
}
use lilotane_smt_csp.Sat.LiteralTree.Paths.{IsWf, AreWf, find-IsWf, Child, here, there, Child-find}

-- `p` is `l` with some literals left out.
pub data IsSubsequence {ℓ} {T : Type ℓ} : List T → List T → Type ℓ where
  end : IsSubsequence [] []
  keep : (x : T) {p l : List T} → IsSubsequence p l → IsSubsequence (x ∷ p) (x ∷ l)
  skip : (x : T) {p l : List T} → IsSubsequence p l → IsSubsequence p (x ∷ l)

pub IsSubsequence-nil {ℓ} : {T : Type ℓ} (l : List T) → IsSubsequence [] l
IsSubsequence-nil [] = end
IsSubsequence-nil (x ∷ l) = skip x (IsSubsequence-nil l)

module _ {ℓ} {T : Type ℓ} ⦃e : Eq T⦄ where
  -- The tree has a path that the literals are a subsequence of.
  pub record Covers (l : List T) (t : Node T) : Type ℓ where
    pub path : List T
    pub member : contains path t ≡ true
    pub part : IsSubsequence l path

  Covers-Child :
      {l : List T} {x : T} {c : Node T} {v : Bool} {cs : Children T}
      → AreWf cs
      → Child x c cs
      → Covers l c
      → Covers l (node v cs)
  unfolding contains
  Covers-Child {x = x} w child h = record {
    path = x ∷ h.path;
    member = rw (Child-find w child) h.member;
    part = skip x h.part;
  }

  Covers-leaf : (cs : Children T) → Covers [] (node true cs)
  unfolding contains
  Covers-leaf cs = record { path = []; member = refl; part = end }

  mutual
    unfolding has_leaf IsWf

    has_leaf-Covers : (t : Node T) → IsWf t → has_leaf t ≡ true → Covers [] t
    has_leaf-Covers (node true cs) w h = Covers-leaf cs
    has_leaf-Covers (node false cs) w h = has_leaf_child-Covers cs false cs w (λ x c k. k) w h

    -- For a part of the children of a node.
    has_leaf_child-Covers :
        (cs : Children T) (v : Bool) (siblings : Children T)
        → AreWf siblings
        → ((x : T) (c : Node T) → Child x c cs → Child x c siblings)
        → AreWf cs
        → has_leaf_child cs ≡ true
        → Covers [] (node v siblings)
    has_leaf_child-Covers nil v siblings ws among w h = cc
    has_leaf_child-Covers (cons k c cs) v siblings ws among w h =
        elim ((||-eq-true (has_leaf c) (has_leaf_child cs)).0 h) [
          | inl hit ↦ Covers-Child ws (among k c here) (has_leaf-Covers c w.1 hit)
          | inr later ↦
              has_leaf_child-Covers cs v siblings ws (λ x d k'. among x d (there k')) w.2 later
        ]

  Covers-step :
      (x : T) (l : List T) (v : Bool) (cs : Children T) (c : Node T)
      → find x cs ≡ some c
      → Covers l c
      → Covers (x ∷ l) (node v cs)
  unfolding contains
  Covers-step x l v cs c found h = record {
    path = x ∷ h.path;
    member = rw found h.member;
    part = keep x h.part;
  }

  module _ (x : T) (l : List T) (below : Node T → Bool)
      (sound : (t : Node T) → IsWf t → below t ≡ true → Covers l t) where
    at_child-Covers :
        (v : Bool) (cs : Children T)
        → AreWf cs
        → at_child below (find x cs) ≡ true
        → Covers (x ∷ l) (node v cs)
    at_child-Covers v cs w h = elim (Option-cases (find x cs)) [
      | inl missing ↦ let stuck : at_child below none ≡ true = rw missing at h in cc stuck
      | inr (c, found) ↦
          Covers-step x l v cs c found (sound c (find-IsWf x cs w found) (rw found at h))
    ]

    mutual
      unfolding search_step IsWf

      search_step-Covers : (t : Node T) → IsWf t → search_step x below t ≡ true → Covers (x ∷ l) t
      search_step-Covers (node v cs) w h =
          elim ((||-eq-true (at_child below (find x cs)) (search_children x below cs)).0 h) [
            | inl next ↦ at_child-Covers v cs w next
            | inr deeper ↦ search_children-Covers cs v cs w (λ y c k. k) w deeper
          ]

      search_children-Covers :
          (cs : Children T) (v : Bool) (siblings : Children T)
          → AreWf siblings
          → ((y : T) (c : Node T) → Child y c cs → Child y c siblings)
          → AreWf cs
          → search_children x below cs ≡ true
          → Covers (x ∷ l) (node v siblings)
      search_children-Covers nil v siblings ws among w h = cc
      search_children-Covers (cons k c cs) v siblings ws among w h =
          elim ((||-eq-true (search_step x below c) (search_children x below cs)).0 h) [
            | inl hit ↦ Covers-Child ws (among k c here) (search_step-Covers c w.1 hit)
            | inr later ↦
                search_children-Covers cs v siblings ws (λ y d k'. among y d (there k')) w.2 later
          ]

  subsumes-Covers : (l : List T) (t : Node T) → IsWf t → subsumes l t ≡ true → Covers l t
  unfolding subsumes
  subsumes-Covers [] t w h = has_leaf-Covers t w h
  subsumes-Covers (x ∷ l) t w h = search_step-Covers x l (subsumes l) (subsumes-Covers l) t w h

  has_leaf_child-find :
      (x : T) (cs : Children T) {c : Node T}
      → find x cs ≡ some c
      → has_leaf c ≡ true
      → has_leaf_child cs ≡ true
  unfolding find has_leaf
  has_leaf_child-find x nil f h = cc
  has_leaf_child-find x (cons k d cs) {c = c} f h = elim (Bool-cases (x ≟ k)) [
    | inl hit ↦ let same : d ≡ c = ground arith in rw (same, h)
    | inr miss ↦
        let rest = has_leaf_child-find x cs {c = c} (ground arith) h in
        rw rest (||_true_right (has_leaf d))
  ]

  has_leaf-contains : (p : List T) (t : Node T) → contains p t ≡ true → has_leaf t ≡ true
  unfolding contains has_leaf
  has_leaf-contains [] (node v cs) h = rw h
  has_leaf-contains (x ∷ p) (node v cs) h = elim (Option-cases (find x cs)) [
    | inl missing ↦ let stuck : at_child (contains p) none ≡ true = rw missing at h in cc stuck
    | inr (c, found) ↦
        rw (has_leaf_child-find x cs found (has_leaf-contains p c (rw found at h)))
          (||_true_right v)
  ]

  search_children-find :
      (x : T) (below : Node T → Bool) (y : T) (cs : Children T) {c : Node T}
      → find y cs ≡ some c
      → search_step x below c ≡ true
      → search_children x below cs ≡ true
  unfolding find search_step
  search_children-find x below y nil f h = cc
  search_children-find x below y (cons k d cs) {c = c} f h = elim (Bool-cases (y ≟ k)) [
    | inl hit ↦ let same : d ≡ c = ground arith in rw (same, h)
    | inr miss ↦
        rw (search_children-find x below y cs {c = c} (ground arith) h)
          (||_true_right (search_step x below d))
  ]

  search_step_complete :
      (x : T) (l : List T) (below : Node T → Bool)
      → ((p : List T) (t : Node T) → IsSubsequence l p → contains p t ≡ true → below t ≡ true)
      → (q : List T) (p : List T) (t : Node T) → q ≡ x ∷ l
      → IsSubsequence q p
      → contains p t ≡ true
      → search_step x below t ≡ true
  unfolding contains search_step
  search_step_complete x l below done q p t e end h = cc
  search_step_complete x l below done q p (node v cs) e (keep y {p = q'} {l = p'} s) h =
      let head : y ≡ x = ground arith in
      let rest : q' ≡ l = ground arith in
      elim (Option-cases (find y cs)) [
        | inl missing ↦ let stuck : at_child (contains p') none ≡ true = rw missing at h in cc stuck
        | inr (c, found) ↦
            rw (← head, found, done p' c (subst (λ z. IsSubsequence z p') rest s) (rw found at h))
      ]
  search_step_complete x l below done q p (node v cs) e (skip y {l = p'} s) h =
      elim (Option-cases (find y cs)) [
        | inl missing ↦ let stuck : at_child (contains p') none ≡ true = rw missing at h in cc stuck
        | inr (c, found) ↦
            rw
              (search_children-find x below y cs found
                (search_step_complete x l below done q p' c e s (rw found at h)))
              (||_true_right (at_child below (find x cs)))
      ]

  subsumes_complete :
      (l p : List T) (t : Node T) → IsSubsequence l p → contains p t ≡ true → subsumes l t ≡ true
  unfolding subsumes
  subsumes_complete [] p t s h = has_leaf-contains p t h
  subsumes_complete (x ∷ l) p t s h =
      search_step_complete x l (subsumes l) (λ p' t' s' h'. subsumes_complete l p' t' s' h') (x ∷ l)
        p t refl s h

  -- In a tree with one child to a key, `subsumes` is true exactly if the tree has a path of which
  -- the literals are a subsequence.
  pub subsumes-iff_Covers : (l : List T) (t : Node T) → IsWf t → (subsumes l t ≡ true) ↔ Covers l t
  subsumes-iff_Covers l t w =
      (subsumes-Covers l t w, λ h. subsumes_complete l h.path t h.part h.member)
