-- ===== src/Sat/LiteralTree/Combine.antt =====
-- `merge` unites the sets of sequences of two trees, and `intersect` intersects them.
use lilotane_smt_csp.Prelude.{
  ◌≡◌, refl, ap, ◌∙◌, ◌&&◌, ◌||◌, List, [], ◌∷◌, Option, none, some, arith, Eq, ◌≟◌, ≟_sound,
  ≟_refl, if◌then◌else◌, inl, inr, Bool-cases, Option-cases,
}
use lilotane_smt_csp.Sat.LiteralTree.{
  Node, Children, node, nil, cons, find, contains, at_child, merge_at, merge, merge_children,
  intersect, intersect_children,
}
use lilotane_smt_csp.Sat.LiteralTree.Paths.{IsWf, AreWf, find-IsWf}

module _ {ℓ} {T : Type ℓ} ⦃e : Eq T⦄ where
  -- What stands under a key after `merge`, from what stood there in both trees.
  abbrev merged : (Node T → Node T → Node T) → Option (Node T) → Option (Node T) → Option (Node T)
  merged f a none = a
  merged f none (some d) = some d
  merged f (some c) (some d) = some (f c d)

  abbrev common : (Node T → Node T → Node T) → Option (Node T) → Option (Node T) → Option (Node T)
  common f none b = none
  common f (some c) none = none
  common f (some c) (some d) = some (f c d)

  find-merge_at :
      (q k : T) (d : Node T) (f : Node T → Node T → Node T) (cs : Children T)
      → find q (merge_at k d (λ c. f c d) cs)
        ≡ (if q ≟ k then merged f (find k cs) (some d) else find q cs)
  unfolding find merge_at
  find-merge_at q k d f nil = refl
  find-merge_at q k d f (cons y c cs) =
      ground (arith, e.beq_iff q k, e.beq_iff q y, e.beq_iff k y, find-merge_at q k d f cs)

  find-merge_children :
      (q : T) (cs ds : Children T)
      → AreWf ds
      → find q (merge_children cs ds) ≡ merged merge (find q cs) (find q ds)
  unfolding merge find IsWf
  find-merge_children q cs nil w = refl
  find-merge_children q cs (cons k d ds) w =
      let next = merge_at k d (λ c. merge c d) cs in
      find-merge_children q next ds w.2
      ∙ rw (find-merge_at q k d merge cs) (elim (Bool-cases (q ≟ k)) [
        | inr miss ↦ rw miss
        | inl hit ↦ rw (hit, ≟_sound q k hit, w.0)
      ])

  -- The tree after `merge` contains what one of the two trees contained.
  pub contains-merge :
      (p : List T) (a b : Node T) → IsWf b → contains p (merge a b) ≡ (contains p a || contains p b)
  unfolding contains merge IsWf
  contains-merge [] (node v cs) (node w ds) wf = refl
  contains-merge (x ∷ p) (node v cs) (node w ds) wf =
      ap (at_child (contains p)) (find-merge_children x cs ds wf)
      ∙ below (find x cs) (find x ds) (λ d h. find-IsWf x ds wf h) (λ c d. contains-merge p c d)
    where
      below :
          (a b : Option (Node T))
          → ((d : Node T) → b ≡ some d → IsWf d)
          → ((c d : Node T) → IsWf d → contains p (merge c d) ≡ (contains p c || contains p d))
          → at_child (contains p) (merged merge a b)
            ≡ (at_child (contains p) a || at_child (contains p) b)
      below none none wf' ih = refl
      below none (some d) wf' ih = refl
      below (some c) none wf' ih = ground arith
      below (some c) (some d) wf' ih = ih c d (wf' d refl)

  find-intersect_children :
      (q : T) (cs ds : Children T)
      → find q (intersect_children cs ds) ≡ common intersect (find q cs) (find q ds)
  unfolding intersect find
  find-intersect_children q nil ds = refl
  find-intersect_children q (cons k c cs) ds = elim (Option-cases (find k ds)) [
    | inl absent ↦ elim (Bool-cases (q ≟ k)) [
      | inr miss ↦ rw (absent, miss) (find-intersect_children q cs ds)
      | inl hit ↦
          let same = ≟_sound q k hit in
          rw (absent, same, ≟_refl k)
            (rw same at (find-intersect_children q cs ds) ∙ rw absent (none_common (find k cs)))
    ]
    | inr (d, found) ↦ elim (Bool-cases (q ≟ k)) [
      | inr miss ↦ rw (found, miss) (find-intersect_children q cs ds)
      | inl hit ↦ rw (found, hit, ≟_sound q k hit, found)
    ]
  ]
    where
      none_common : (a : Option (Node T)) → common intersect a none ≡ none
      none_common none = refl
      none_common (some c') = refl

  -- The tree after `intersect` contains what both trees contained.
  pub contains-intersect :
      (p : List T) (a b : Node T) → contains p (intersect a b) ≡ (contains p a && contains p b)
  unfolding contains intersect
  contains-intersect [] (node v cs) (node w ds) = refl
  contains-intersect (x ∷ p) (node v cs) (node w ds) =
      ap (at_child (contains p)) (find-intersect_children x cs ds)
      ∙ below (find x cs) (find x ds) (λ c d. contains-intersect p c d)
    where
      below :
          (a b : Option (Node T))
          → ((c d : Node T) → contains p (intersect c d) ≡ (contains p c && contains p d))
          → at_child (contains p) (common intersect a b)
            ≡ (at_child (contains p) a && at_child (contains p) b)
      below none b ih = refl
      below (some c) none ih = ground arith
      below (some c) (some d) ih = ih c d
