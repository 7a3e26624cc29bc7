-- ===== src/Sat/LiteralTree/SubPath.antt =====
-- `hasPathSubsumedBy`. Its comment promises a path of the tree that is a sub-path of the literals; it
-- finds only those that end with the last literal, since it looks at `validLeaf` only once all
-- literals are used up.
use lilotane_smt_csp.Prelude.{
  ◌≡◌, refl, Bool, true, false, ◌||◌, List, [], ◌∷◌, ◌++◌, none, some, arith, Eq, ◌≟◌, inl, inr,
  ◌↔◌, any, Option-cases, Bool-cases, ||-eq-true, ||_true_right,
}
use lilotane_smt_csp.Sat.LiteralTree.{
  Node, Children, node, find, contains, at_child, has_path_subsumed_by, has_later,
}

-- `p` is `l` with some literals before the last one left out.
pub data KeepsLast {ℓ} {T : Type ℓ} : List T → List T → Type ℓ where
  end : KeepsLast [] []
  keep : (x : T) {p l : List T} → KeepsLast p l → KeepsLast (x ∷ p) (x ∷ l)
  skip : (x y : T) {p l : List T} → KeepsLast p (y ∷ l) → KeepsLast p (x ∷ y ∷ l)

module _ {ℓ} {T : Type ℓ} ⦃e : Eq T⦄ where
  -- A path of the tree that is the literals without some that stand before the last.
  pub record EndsIn (l : List T) (t : Node T) : Type ℓ where
    pub path : List T
    pub member : contains path t ≡ true
    pub part : KeepsLast path l

  EndsIn-next :
      (x : T) (l : List T) (v : Bool) (cs : Children T) (c : Node T)
      → find x cs ≡ some c
      → EndsIn l c
      → EndsIn (x ∷ l) (node v cs)
  unfolding contains
  EndsIn-next x l v cs c found h = record {
    path = x ∷ h.path;
    member = rw found h.member;
    part = keep x h.part;
  }

  EndsIn-skip : (x y : T) (l : List T) (t : Node T) → EndsIn (y ∷ l) t → EndsIn (x ∷ y ∷ l) t
  EndsIn-skip x y l t h = record { path = h.path; member = h.member; part = skip x y h.part }

  -- `has_later` runs the search from each later literal on.
  has_later-cons :
      (x : T) (l : List T) (t : Node T)
      → has_later (x ∷ l) t ≡ (has_path_subsumed_by (x ∷ l) t || has_later l t)
  unfolding has_path_subsumed_by
  has_later-cons x l (node v cs) = refl

  has_path_subsumed_by-cons :
      (x : T) (l : List T) (v : Bool) (cs : Children T)
      → has_path_subsumed_by (x ∷ l) (node v cs)
        ≡ (at_child (has_path_subsumed_by l) (find x cs) || has_later l (node v cs))
  unfolding has_path_subsumed_by
  has_path_subsumed_by-cons x l v cs = refl

  nil-EndsIn : (t : Node T) → has_path_subsumed_by [] t ≡ true → EndsIn [] t
  unfolding has_path_subsumed_by contains
  nil-EndsIn (node v cs) h = record { path = []; member = h; part = end }

  no_later : (t : Node T) → has_later [] t ≡ false
  unfolding has_path_subsumed_by
  no_later t = refl

  module _ (x : T) (l : List T)
      (whole : (t : Node T) → has_path_subsumed_by l t ≡ true → EndsIn l t)
      (later : (t : Node T) → has_later l t ≡ true → EndsIn (x ∷ l) t) where
    direct-EndsIn :
        (v : Bool) (cs : Children T)
        → at_child (has_path_subsumed_by l) (find x cs) ≡ true
        → EndsIn (x ∷ l) (node v cs)
    direct-EndsIn v cs h = elim (Option-cases (find x cs)) [
      | inl missing ↦
          let stuck : at_child (has_path_subsumed_by l) none ≡ true = rw missing at h in cc stuck
      | inr (c, found) ↦ EndsIn-next x l v cs c found (whole c (rw found at h))
    ]

    cons-EndsIn : (t : Node T) → has_path_subsumed_by (x ∷ l) t ≡ true → EndsIn (x ∷ l) t
    cons-EndsIn (node v cs) h =
        elim ((||-eq-true (at_child (has_path_subsumed_by l) (find x cs))
            (has_later l (node v cs))).0
          (rw has_path_subsumed_by-cons at h)) [
            | inl direct ↦ direct-EndsIn v cs direct
            | inr rest ↦ later (node v cs) rest
          ]

  sound :
      (l : List T)
      → ((t : Node T) → has_path_subsumed_by l t ≡ true → EndsIn l t)
        × ((x : T) (t : Node T) → has_later l t ≡ true → EndsIn (x ∷ l) t)
  sound [] = (nil-EndsIn, λ x t h. let stuck = no_later t in cc stuck)
  sound (y ∷ l) =
      let (whole, later) = sound l in
      let here = cons-EndsIn y l whole (later y) in
      (
        here,
        λ x t h.
            elim ((||-eq-true (has_path_subsumed_by (y ∷ l) t) (has_later l t)).0
              (rw has_later-cons at h)) [
                | inl found ↦ EndsIn-skip x y l t (here t found)
                | inr rest ↦ EndsIn-skip x y l t (later y t rest)
              ],
      )

  complete :
      (p l : List T) (t : Node T)
      → KeepsLast p l
      → contains p t ≡ true
      → has_path_subsumed_by l t ≡ true
  unfolding contains
  complete p l (node v cs) end h = unfold has_path_subsumed_by in h
  complete p l (node v cs) (keep x {p = q} {l = r} s) h = elim (Option-cases (find x cs)) [
    | inl missing ↦ let stuck : at_child (contains q) none ≡ true = rw missing at h in cc stuck
    | inr (c, found) ↦
        rw (has_path_subsumed_by-cons x r v cs, found, complete q r c s (rw found at h))
  ]
  complete p l (node v cs) (skip x y {l = r} s) h =
      rw
        (
          has_path_subsumed_by-cons x (y ∷ r) v cs,
          has_later-cons y r (node v cs),
          complete p (y ∷ r) (node v cs) s h,
        )
        (||_true_right (at_child (has_path_subsumed_by (y ∷ r)) (find x cs)))

  -- `hasPathSubsumedBy` is true exactly if the tree has a path that is the literals without some of
  -- those before the last literal.
  pub has_path_subsumed_by-iff_EndsIn :
      (l : List T) (t : Node T) → (has_path_subsumed_by l t ≡ true) ↔ EndsIn l t
  has_path_subsumed_by-iff_EndsIn l t = ((sound l).0 t, λ h. complete h.path l t h.part h.member)

  KeepsLast-last :
      (p l q : List T) (z : T) → q ≡ l ++ z ∷ [] → KeepsLast p q → any (λ x. x ≟ z) p ≡ true
  KeepsLast-last p [] q z eq end = cc
  KeepsLast-last p (y ∷ l) q z eq end = cc
  KeepsLast-last p [] q z eq (keep x s) = ground (arith, e.beq_iff x z)
  KeepsLast-last p (y ∷ l) q z eq (keep x {p = p'} {l = l'} s) =
      rw (KeepsLast-last p' l l' z (ground arith) s) (||_true_right (x ≟ z))
  KeepsLast-last p [] q z eq (skip x y s) = cc
  KeepsLast-last p (w ∷ l) q z eq (skip x y {l = l'} s) =
      KeepsLast-last p l (y ∷ l') z (ground arith) s

  -- `hasPathSubsumedBy` is false for all literals whose last one is on no path of the tree, whatever
  -- paths the tree has among the literals before it.
  pub has_path_subsumed_by-misses :
      (l : List T) (z : T) (t : Node T)
      → ((p : List T) → contains p t ≡ true → any (λ x. x ≟ z) p ≡ false)
      → has_path_subsumed_by (l ++ z ∷ []) t ≡ false
  has_path_subsumed_by-misses l z t absent =
      elim (Bool-cases (has_path_subsumed_by (l ++ z ∷ []) t)) [
        | inr never ↦ never
        | inl found ↦
            let h = (has_path_subsumed_by-iff_EndsIn (l ++ z ∷ []) t).0 found in
            let there = KeepsLast-last h.path l (l ++ z ∷ []) z refl h.part in
            let missing = absent h.path h.member in cc (there, missing)
      ]
