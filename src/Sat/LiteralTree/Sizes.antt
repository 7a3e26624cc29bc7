-- ===== src/Sat/LiteralTree/Sizes.antt =====
-- `getSizeOfEncoding` and `getSizeOfNegationEncoding` predict the clauses and literals that `encode`
-- and `encodeNegation` yield.
use lilotane_smt_csp.Prelude.{
  ℕ, suc, ◌+◌, ◌*◌, ◌≡◌, refl, ap, true, false, List, [], ◌∷◌, ◌++◌, map, arith, length,
  length-append,
}
use lilotane_smt_csp.Sat.LiteralTree.{
  Node, Children, node, nil, cons, keys, size, encode, encode_children, encode_negation,
  leaf_clauses, inner_clauses, get_size_of_encoding, sum_sizes, get_size_of_negation_encoding,
  sum_negation_sizes,
}

-- The number of literals of a set of clauses.
abbrev pub total_length {ℓ} : {T : Type ℓ} → List (List T) → ℕ
total_length [] = 0
total_length (c ∷ cs) = length c + total_length cs

module _ {ℓ} {T : Type ℓ} where
  total_length-append :
      (xs ys : List (List T)) → total_length (xs ++ ys) ≡ total_length xs + total_length ys
  total_length-append [] ys = omega arith
  total_length-append (x ∷ xs) ys = omega (arith, total_length-append xs ys)

  length-keys : (cs : Children T) → length (keys cs) ≡ size cs
  unfolding keys size
  length-keys nil = refl
  length-keys (cons k c cs) = ap suc (length-keys cs)

module _ {ℓ} {T : Type ℓ} (flip : T → T) where
  length-flip : (path : List T) → length (map flip path) ≡ length path
  length-flip [] = refl
  length-flip (x ∷ path) = ap suc (length-flip path)

  mutual
    unfolding encode get_size_of_encoding

    encode-size :
        (path : List T) (t : Node T)
        → (length (encode flip path t) ≡ (get_size_of_encoding t).0)
          × (total_length (encode flip path t)
              ≡ (get_size_of_encoding t).1 + length path * (get_size_of_encoding t).0)
    encode-size path (node true cs) = (refl, omega arith)
    encode-size path (node false cs) =
        let own = (map flip path ++ keys cs) ∷ [] in
        let kids = encode_children flip path cs in
        let rest = encode_children-size path 1 (size cs) cs in
        (
          omega (arith, length-append kids own, rest),
          omega (
            arith,
            total_length-append kids own,
            length-append (map flip path) (keys cs),
            length-flip path,
            length-keys cs,
            rest,
          ),
        )

    encode_children-size :
        (path : List T) (a b : ℕ) (cs : Children T)
        → (length (encode_children flip path cs) + a ≡ (sum_sizes (a, b) cs).0)
          × (total_length (encode_children flip path cs) + b + length path * a
              ≡ (sum_sizes (a, b) cs).1 + length path * (sum_sizes (a, b) cs).0)
    encode_children-size path a b nil = (omega arith, omega arith)
    encode_children-size path a b (cons k c cs) =
        let s = get_size_of_encoding c in
        let first = encode flip (path ++ k ∷ []) c in
        let kids = encode_children flip path cs in
        let here = encode-size (path ++ k ∷ []) c in
        let rest = encode_children-size path (a + s.0) (b + (s.1 + s.0)) cs in
        let len = length-append path (k ∷ []) in
        (
          omega (arith, length-append first kids, here, rest),
          omega (arith, total_length-append first kids, ap (λ n. n * s.0) len, here, rest),
        )

  -- `getSizeOfEncoding`: the number of clauses of `encode` is the first part; the number of their
  -- literals is the second, and for each clause as many more as there are head literals.
  pub length-encode :
      (head : List T) (t : Node T)
      → (length (encode flip head t) ≡ (get_size_of_encoding t).0)
        × (total_length (encode flip head t)
            ≡ (get_size_of_encoding t).1 + length head * (get_size_of_encoding t).0)
  length-encode head t = encode-size head t

  mutual
    unfolding encode_negation leaf_clauses get_size_of_negation_encoding

    encode_negation-size :
        (path : List T) (t : Node T)
        → (length (encode_negation flip path t) ≡ (get_size_of_negation_encoding t).0)
          × (total_length (encode_negation flip path t)
              ≡ (get_size_of_negation_encoding t).1
                + length path * (get_size_of_negation_encoding t).0)
    encode_negation-size path (node true cs) = (refl, omega arith)
    encode_negation-size path (node false cs) =
        let leaves = leaf_clauses flip path cs in
        let inner = inner_clauses flip path cs in
        let rest = negation_children-size path 0 0 cs in
        (
          omega (arith, length-append leaves inner, rest),
          omega (arith, total_length-append leaves inner, rest),
        )

    negation_children-size :
        (path : List T) (a b : ℕ) (cs : Children T)
        → (length (leaf_clauses flip path cs) + length (inner_clauses flip path cs) + a
            ≡ (sum_negation_sizes (a, b) cs).0)
          × (total_length (leaf_clauses flip path cs)
                + total_length (inner_clauses flip path cs)
                + b
                + length path * a
              ≡ (sum_negation_sizes (a, b) cs).1 + length path * (sum_negation_sizes (a, b) cs).0)
    negation_children-size path a b nil = (omega arith, omega arith)
    negation_children-size path a b (cons k (node true ds) cs) =
        let rest = negation_children-size path (a + 1) (b + 1) cs in
        (
          omega (arith, rest),
          omega (arith, rest, length-append (map flip path) (flip k ∷ []), length-flip path),
        )
    negation_children-size path a b (cons k (node false ds) cs) =
        let s = get_size_of_negation_encoding (node false ds) in
        let first = encode_negation flip (path ++ k ∷ []) (node false ds) in
        let inner = inner_clauses flip path cs in
        let here = encode_negation-size (path ++ k ∷ []) (node false ds) in
        let rest = negation_children-size path (a + s.0) (b + (s.1 + s.0)) cs in
        let len = length-append path (k ∷ []) in
        (
          omega (arith, length-append first inner, here, rest),
          omega (arith, total_length-append first inner, ap (λ n. n * s.0) len, here, rest),
        )

  -- `getSizeOfNegationEncoding`: the number of clauses of `encodeNegation` is the first part; the number
  -- of their literals is the second, and for each clause as many more as there are head literals.
  pub length-encode_negation :
      (head : List T) (t : Node T)
      → (length (encode_negation flip head t) ≡ (get_size_of_negation_encoding t).0)
        × (total_length (encode_negation flip head t)
            ≡ (get_size_of_negation_encoding t).1
              + length head * (get_size_of_negation_encoding t).0)
  length-encode_negation head t = encode_negation-size head t
