-- ===== src/Data/SubstitutionConstraint.antt =====
-- Restrictions of the substitutions of pseudo-constants (src/data/substitution_constraint.h). A literal
-- of the trees is a pair of a pseudo-constant and a constant; copies and moves copy every field.
-- `getSortedSubstitutedArgIndices` is left out: it reads the domains of the problem's instance.
pub mod Laws
mod Examples
use lilotane_smt_csp.Prelude.{
  ℕ, ◌+◌, Bool, true, false, not, ◌&&◌, List, [], ◌∷◌, map, ℤ, neg, if◌then◌else◌, ltb, ◌≟◌,
  list_beq, int_eq, pair_eq, get_or, pos,
}
use lilotane_smt_csp.Sat.LiteralTree.{
  Node, new_node, insert, contains, subsumes, has_path_subsumed_by, encode, encode_negation, merge,
  intersect, get_size_of_encoding, get_size_of_negation_encoding,
}

pub data Polarity : Type 0 where
  undecided : Polarity
  any_valid : Polarity
  no_invalid : Polarity

abbrev pub IntPair : Type 0
IntPair = ℤ × ℤ

pub record SubstitutionConstraint : Type 0 where
  pub involved_q_consts : List ℤ
  pub valid_substitutions : Node IntPair
  pub invalid_substitutions : Node IntPair
  pub polarity : Polarity

unfoldable pub new_constraint : List ℤ → SubstitutionConstraint
new_constraint involved = record {
  involved_q_consts = involved;
  valid_substitutions = new_node;
  invalid_substitutions = new_node;
  polarity = undecided;
}

unfoldable pub add_valid : List IntPair → SubstitutionConstraint → SubstitutionConstraint
add_valid vals c = record c { valid_substitutions = insert vals c.valid_substitutions }

unfoldable pub add_invalid : List IntPair → SubstitutionConstraint → SubstitutionConstraint
add_invalid vals c = record c { invalid_substitutions = insert vals c.invalid_substitutions }

unfoldable pub keep_valid : SubstitutionConstraint → SubstitutionConstraint
keep_valid c = record c { invalid_substitutions = new_node; polarity = any_valid }

unfoldable pub keep_invalid : SubstitutionConstraint → SubstitutionConstraint
keep_invalid c = record c { valid_substitutions = new_node; polarity = no_invalid }

-- `getSizeOfEncoding` and `getSizeOfNegationEncoding` of a tree: the numbers of literals.
unfoldable pub fix_polarity : Polarity → SubstitutionConstraint → SubstitutionConstraint
unfolding keep_valid keep_invalid
fix_polarity any_valid c = keep_valid c
fix_polarity no_invalid c = keep_invalid c
fix_polarity undecided c =
    let neg_size = (get_size_of_negation_encoding c.invalid_substitutions).1 in
    let pos_size = (get_size_of_encoding c.valid_substitutions).1 in
    if ltb pos_size neg_size then keep_valid c else keep_invalid c

-- The inner loop of `involvesSupersetOf`: the involved pseudo-constants from index `j` on that are
-- left when `q` is found, itself included.
pub drop_until : ℤ → List ℤ → List ℤ
drop_until q [] = []
drop_until q (x ∷ xs) = if x ≟ q then x ∷ xs else drop_until q xs

pub is_nil : List ℤ → Bool
is_nil [] = true
is_nil (x ∷ xs) = false

pub involved_from : List ℤ → List ℤ → Bool
unfolding drop_until is_nil
involved_from [] involved = true
involved_from (q ∷ qs) involved =
    let rest = involved_from qs (drop_until q involved) in
    if is_nil (drop_until q involved) then false else rest

pub involves_superset_of : List ℤ → SubstitutionConstraint → Bool
unfolding involved_from
involves_superset_of qs c = involved_from qs c.involved_q_consts

unfoldable pub is_valid : List IntPair → Bool → SubstitutionConstraint → Bool
is_valid sub same_reference c = elim c.polarity [
  | any_valid ↦
      if same_reference
      then contains sub c.valid_substitutions
      else subsumes sub c.valid_substitutions
  | undecided ↦
      if same_reference
      then not (contains sub c.invalid_substitutions)
      else not (has_path_subsumed_by sub c.invalid_substitutions)
  | no_invalid ↦
      if same_reference
      then not (contains sub c.invalid_substitutions)
      else not (has_path_subsumed_by sub c.invalid_substitutions)
]

unfoldable pub same_polarity : Polarity → Polarity → Bool
same_polarity undecided undecided = true
same_polarity undecided q = false
same_polarity any_valid any_valid = true
same_polarity any_valid q = false
same_polarity no_invalid no_invalid = true
same_polarity no_invalid q = false

pub can_merge : SubstitutionConstraint → SubstitutionConstraint → Bool
unfolding same_polarity
can_merge other c =
    if not (same_polarity c.polarity other.polarity)
    then false
    else if same_polarity c.polarity undecided
    then false
    else list_beq c.involved_q_consts other.involved_q_consts

-- `merge`
pub merge_constraint : SubstitutionConstraint → SubstitutionConstraint → SubstitutionConstraint
merge_constraint other c = elim c.polarity [
  | any_valid ↦ record c {
    valid_substitutions = intersect c.valid_substitutions other.valid_substitutions;
  }
  | no_invalid ↦ record c {
    invalid_substitutions = merge c.invalid_substitutions other.invalid_substitutions;
  }
  | undecided ↦ c
]

-- A pair of the wrong sign, in the clauses of `encode`; those of `encodeNegation` keep their pairs
-- as they are, and the reader of the clauses adds the sign.
unfoldable pub flip_pair : IntPair → IntPair
flip_pair (q, c) = (neg q, c)

unfoldable pub keep_pair : IntPair → IntPair
keep_pair p = p

unfoldable pub get_encoding : Polarity → SubstitutionConstraint → List (List IntPair)
unfolding flip_pair keep_pair
get_encoding any_valid c = encode flip_pair [] c.valid_substitutions
get_encoding no_invalid c = encode_negation keep_pair [] c.invalid_substitutions
get_encoding undecided c = elim c.polarity [
  | any_valid ↦ encode flip_pair [] c.valid_substitutions
  | undecided ↦ encode_negation keep_pair [] c.invalid_substitutions
  | no_invalid ↦ encode_negation keep_pair [] c.invalid_substitutions
]

pub get_encoded_size : SubstitutionConstraint → ℕ
get_encoded_size c =
    (get_size_of_encoding c.valid_substitutions).1
    + (get_size_of_negation_encoding c.invalid_substitutions).1

-- `decodingToPath`; the indices are those of arguments.
pub decoding_to_path : List ℤ → List ℤ → List ℕ → List IntPair
decoding_to_path q_args dec_args [] = []
decoding_to_path q_args dec_args (i ∷ indices) =
    (get_or q_args i (pos 0), get_or dec_args i (pos 0)) ∷ decoding_to_path q_args dec_args indices
