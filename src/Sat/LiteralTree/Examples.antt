-- ===== src/Sat/LiteralTree/Examples.antt =====
-- A tree of three sequences, and the theorems at it.
use lilotane_smt_csp.Prelude.{
  ◌+◌, ◌*◌, ◌≡◌, refl, ◌≢◌, true, false, ◌&&◌, ◌||◌, List, [], ◌∷◌, ◌⊎◌, ◌↔◌, ℤ, pos, neg, any, all,
  length, ◌≟◌, list_beq, list_beq_iff, ◌==◌, arith, int_eq,
}
use lilotane_smt_csp.Sat.Clauses.{Assignment, holds, holds-neg}
use lilotane_smt_csp.Sat.LiteralTree.{
  Node, new_node, insert, contains, subsumes, has_path_subsumed_by, encode, encode_negation, merge,
  intersect, get_size_of_encoding, get_size_of_negation_encoding, keys,
}
use lilotane_smt_csp.Sat.LiteralTree.Contains.{contains-insert, contains-new_node}
use lilotane_smt_csp.Sat.LiteralTree.Paths.{IsWf, HasLiterals, insert-IsWf}
use lilotane_smt_csp.Sat.LiteralTree.Subsumes.{Covers, subsumes-iff_Covers}
use lilotane_smt_csp.Sat.LiteralTree.SubPath.{
  has_path_subsumed_by-misses, has_path_subsumed_by-iff_EndsIn, EndsIn,
}
use lilotane_smt_csp.Sat.LiteralTree.Encode.{IsExclusive, PathHolds, encode-iff_PathHolds}
use lilotane_smt_csp.Sat.LiteralTree.Negation.{encode_negation-iff_no_path}
use lilotane_smt_csp.Sat.LiteralTree.Sizes.{total_length, length-encode, length-encode_negation}
use lilotane_smt_csp.Sat.LiteralTree.Combine.{contains-merge, contains-intersect}

abbrev sequence : List ℤ
sequence = pos 1 ∷ pos 3 ∷ []

one_path : Node ℤ
one_path = insert sequence new_node

sample : Node ℤ
unfolding one_path
sample = insert (pos 1 ∷ pos 4 ∷ []) (insert (pos 2 ∷ []) one_path)

one_path-IsWf : IsWf one_path
unfolding one_path IsWf
one_path-IsWf = insert-IsWf sequence new_node tt

sample-IsWf : IsWf sample
unfolding sample
sample-IsWf =
    insert-IsWf (pos 1 ∷ pos 4 ∷ []) (insert (pos 2 ∷ []) one_path)
      (insert-IsWf (pos 2 ∷ []) one_path one_path-IsWf)

abbrev IsLiteral : ℤ → Type 0
IsLiteral l = l ≢ pos 0

-- The variables 1 and 4 are true.
abbrev chosen : Assignment
chosen x = x == 1 || x == 4

sample-HasLiterals : HasLiterals IsLiteral sample
unfolding sample insert HasLiterals
sample-HasLiterals = (
  λ e. ground arith,
  (λ e. ground arith, tt, (λ e. ground arith, tt, tt)),
  (λ e. ground arith, tt, tt),
)

sample-IsExclusive : IsExclusive (holds chosen) sample
unfolding sample insert IsExclusive keys
sample-IsExclusive = (λ h. refl, (λ h. cc, tt, (λ h. refl, tt, tt)), (λ h. refl, tt, tt))

contains-insert_example :
    contains sequence (insert (pos 2 ∷ []) one_path)
    ≡ (list_beq sequence (pos 2 ∷ []) || contains sequence one_path)
contains-insert_example = contains-insert sequence (pos 2 ∷ []) one_path

subsumes-iff_Covers_example : (subsumes (pos 3 ∷ []) sample ≡ true) ↔ Covers (pos 3 ∷ []) sample
subsumes-iff_Covers_example = subsumes-iff_Covers (pos 3 ∷ []) sample sample-IsWf

has_path_subsumed_by-iff_EndsIn_example :
    (has_path_subsumed_by (pos 5 ∷ pos 2 ∷ []) sample ≡ true) ↔ EndsIn (pos 5 ∷ pos 2 ∷ []) sample
has_path_subsumed_by-iff_EndsIn_example =
    has_path_subsumed_by-iff_EndsIn (pos 5 ∷ pos 2 ∷ []) sample

only_sequence : (p : List ℤ) → contains p one_path ≡ true → any (λ x. x ≟ pos 7) p ≡ false
unfolding one_path
only_sequence p h =
    let same : list_beq p sequence ≡ true =
      ground (arith, contains-insert p sequence new_node, contains-new_node p) in
    rw ((list_beq_iff p sequence).0 same)

-- The path 1, 3 of the tree is a sub-path of 1, 3, 7, and is not found.
has_path_subsumed_by-misses_example :
    has_path_subsumed_by (pos 1 ∷ pos 3 ∷ pos 7 ∷ []) one_path ≡ false
has_path_subsumed_by-misses_example =
    has_path_subsumed_by-misses sequence (pos 7) one_path only_sequence

encode-iff_PathHolds_example :
    (all (any (holds chosen)) (encode neg (pos 4 ∷ []) sample) ≡ true)
    ↔ ((all (holds chosen) (pos 4 ∷ []) ≡ false) ⊎ PathHolds (holds chosen) sample)
encode-iff_PathHolds_example =
    encode-iff_PathHolds (holds chosen) neg IsLiteral (holds-neg chosen) (pos 4 ∷ []) sample
      (λ e. ground arith, tt) sample-HasLiterals sample-IsWf sample-IsExclusive

sample_has_no_empty : contains [] sample ≡ false
unfolding sample insert contains
sample_has_no_empty = refl

encode_negation-iff_no_path_example :
    (all (any (holds chosen)) (encode_negation neg [] sample) ≡ true)
    ↔ ((p : List ℤ) → contains p sample ≡ true → all (holds chosen) p ≡ false)
encode_negation-iff_no_path_example =
    encode_negation-iff_no_path (holds chosen) neg (holds chosen) IsLiteral (holds-neg chosen)
      sample sample-HasLiterals sample-IsWf sample_has_no_empty

length-encode_example :
    (length (encode neg (pos 9 ∷ []) sample) ≡ (get_size_of_encoding sample).0)
    × (total_length (encode neg (pos 9 ∷ []) sample)
        ≡ (get_size_of_encoding sample).1 + length (pos 9 ∷ []) * (get_size_of_encoding sample).0)
length-encode_example = length-encode neg (pos 9 ∷ []) sample

length-encode_negation_example :
    (length (encode_negation neg [] sample) ≡ (get_size_of_negation_encoding sample).0)
    × (total_length (encode_negation neg [] sample)
        ≡ (get_size_of_negation_encoding sample).1
          + length {A = ℤ} [] * (get_size_of_negation_encoding sample).0)
length-encode_negation_example = length-encode_negation neg [] sample

contains-merge_example :
    contains sequence (merge sample one_path)
    ≡ (contains sequence sample || contains sequence one_path)
contains-merge_example = contains-merge sequence sample one_path one_path-IsWf

contains-intersect_example :
    contains sequence (intersect sample one_path)
    ≡ (contains sequence sample && contains sequence one_path)
contains-intersect_example = contains-intersect sequence sample one_path
