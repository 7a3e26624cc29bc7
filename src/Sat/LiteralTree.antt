-- ===== src/Sat/LiteralTree.antt =====
-- The prefix tree of literal sequences (src/sat/literal_tree.h). A hash map of children is a list of
-- keys with their nodes, in the order in which the map would be walked: the theorems hold for every
-- order. Nodes are owned by their parent, so that a tree is a value; `operator=` and the
-- constructors copy or move it.
pub mod Lookup
pub mod Contains
pub mod Paths
pub mod Subsumes
pub mod SubPath
pub mod Encode
pub mod Negation
pub mod Sizes
pub mod Combine
mod Examples
use lilotane_smt_csp.Prelude.{
  ℕ, zero, suc, ◌+◌, Bool, true, false, not, ◌&&◌, ◌||◌, List, [], ◌∷◌, ◌++◌, map, Option, none,
  some, if◌then◌else◌, Eq, ◌≟◌, length,
}

mutual
  pub data Node {ℓ} (T : Type ℓ) : Type ℓ where
    node : Bool → Children T → Node T

  pub data Children {ℓ} (T : Type ℓ) : Type ℓ where
    nil : Children T
    cons : T → Node T → Children T → Children T

-- `new Node()`, and the root of an empty tree.
abbrev pub new_node {ℓ} : {T : Type ℓ} → Node T
new_node = node false nil

abbrev pub valid_leaf {ℓ} : {T : Type ℓ} → Node T → Bool
valid_leaf (node v cs) = v

abbrev pub children {ℓ} : {T : Type ℓ} → Node T → Children T
children (node v cs) = cs

-- `it != children.end() && ... it->second ...`
abbrev pub at_child {ℓ} : {T : Type ℓ} → (Node T → Bool) → Option (Node T) → Bool
at_child f none = false
at_child f (some c) = f c

-- `LiteralTree::empty`.
abbrev pub is_empty {ℓ} : {T : Type ℓ} → Node T → Bool
is_empty (node v nil) = not v
is_empty (node v (cons k c cs)) = false

module _ {ℓ} {T : Type ℓ} ⦃e : Eq T⦄ where
  -- `children.find(key)`
  unfoldable pub find : T → Children T → Option (Node T)
  find x nil = none
  find x (cons y c cs) = if x ≟ y then some c else find x cs

  -- The child under the key, a new node if there is none, replaced by what `f` makes of it.
  unfoldable pub alter : T → (Node T → Node T) → Children T → Children T
  alter x f nil = cons x (f new_node) nil
  alter x f (cons y c cs) = if x ≟ y then cons y (f c) cs else cons y c (alter x f cs)

  unfoldable pub insert : List T → Node T → Node T
  unfolding alter
  insert [] (node v cs) = node true cs
  insert (x ∷ xs) (node v cs) = node v (alter x (insert xs) cs)

  unfoldable pub contains : List T → Node T → Bool
  contains [] (node v cs) = v
  contains (x ∷ xs) (node v cs) = at_child (contains xs) (find x cs)

  -- `hasPathSubsumedBy`: the loop over the later positions calls the function itself, which is
  -- written out in `has_later` (its test and its own loop).
  mutual
    pub has_path_subsumed_by : List T → Node T → Bool
    has_path_subsumed_by [] (node v cs) = v
    has_path_subsumed_by (x ∷ xs) (node v cs) =
        at_child (has_path_subsumed_by xs) (find x cs) || has_later xs (node v cs)

    pub has_later : List T → Node T → Bool
    has_later [] t = false
    has_later (x ∷ xs) (node v cs) =
        (at_child (has_path_subsumed_by xs) (find x cs) || has_later xs (node v cs))
        || has_later xs (node v cs)

module _ {ℓ} {T : Type ℓ} where
  -- `subsumes` with no literal left: some node below is a valid leaf.
  mutual
    pub has_leaf : Node T → Bool
    has_leaf (node v cs) = v || has_leaf_child cs

    pub has_leaf_child : Children T → Bool
    has_leaf_child nil = false
    has_leaf_child (cons k c cs) = has_leaf c || has_leaf_child cs

module _ {ℓ} {T : Type ℓ} ⦃e : Eq T⦄ where
  -- `subsumes` with a literal left: `below` is the call for the remaining literals.
  mutual
    pub search_step : T → (Node T → Bool) → Node T → Bool
    search_step x below (node v cs) = at_child below (find x cs) || search_children x below cs

    pub search_children : T → (Node T → Bool) → Children T → Bool
    search_children x below nil = false
    search_children x below (cons k c cs) = search_step x below c || search_children x below cs

  pub subsumes : List T → Node T → Bool
  unfolding has_leaf search_step
  subsumes [] t = has_leaf t
  subsumes (x ∷ xs) t = search_step x (subsumes xs) t

-- The encodings. `flip` is what the code makes of a literal of the path in a clause: its negation if
-- literals are numbers. For pairs of numbers `encode` negates the first, and `encodeNegation` leaves
-- the pair as it is.
module _ {ℓ} {T : Type ℓ} where
  unfoldable pub keys : Children T → List T
  keys nil = []
  keys (cons k c cs) = k ∷ keys cs

  pub size : Children T → ℕ
  size nil = 0
  size (cons k c cs) = suc (size cs)

  module _ (flip : T → T) where
    -- A node's clause says: if the path to the node holds, then one of the children does.
    unfoldable mutual
      pub encode : List T → Node T → List (List T)
      encode path (node true cs) = []
      encode path (node false cs) = encode_children path cs ++ (map flip path ++ keys cs) ∷ []

      pub encode_children : List T → Children T → List (List T)
      encode_children path nil = []
      encode_children path (cons k c cs) = encode (path ++ k ∷ []) c ++ encode_children path cs

    -- The first loop of `encodeNegation`: the children that are valid leaves.
    pub leaf_clauses : List T → Children T → List (List T)
    leaf_clauses path nil = []
    leaf_clauses path (cons k c cs) =
        if valid_leaf c
        then (map flip path ++ flip k ∷ []) ∷ leaf_clauses path cs
        else leaf_clauses path cs

    mutual
      unfolding leaf_clauses

      pub encode_negation : List T → Node T → List (List T)
      encode_negation path (node true cs) = []
      encode_negation path (node false cs) = leaf_clauses path cs ++ inner_clauses path cs

      -- The second loop: the children that are not.
      pub inner_clauses : List T → Children T → List (List T)
      inner_clauses path nil = []
      inner_clauses path (cons k c cs) =
          if valid_leaf c
          then inner_clauses path cs
          else encode_negation (path ++ k ∷ []) c ++ inner_clauses path cs

  -- `getSizeOfEncoding` of a node: the numbers of clauses and of literals.
  mutual
    unfolding size

    pub get_size_of_encoding : Node T → ℕ × ℕ
    get_size_of_encoding (node true cs) = (0, 0)
    get_size_of_encoding (node false cs) = sum_sizes (1, size cs) cs

    pub sum_sizes : ℕ × ℕ → Children T → ℕ × ℕ
    sum_sizes acc nil = acc
    sum_sizes (cls, lits) (cons k c cs) =
        let (child_cls, child_lits) = get_size_of_encoding c in
        sum_sizes (cls + child_cls, lits + (child_lits + child_cls)) cs

  mutual
    pub get_size_of_negation_encoding : Node T → ℕ × ℕ
    get_size_of_negation_encoding (node true cs) = (0, 0)
    get_size_of_negation_encoding (node false cs) = sum_negation_sizes (0, 0) cs

    pub sum_negation_sizes : ℕ × ℕ → Children T → ℕ × ℕ
    sum_negation_sizes acc nil = acc
    sum_negation_sizes (cls, lits) (cons k c cs) =
        let (child_cls, child_lits) = get_size_of_negation_encoding c in
        if valid_leaf c
        then sum_negation_sizes (cls + 1, lits + 1) cs
        else sum_negation_sizes (cls + child_cls, lits + (child_lits + child_cls)) cs

module _ {ℓ} {T : Type ℓ} ⦃e : Eq T⦄ where
  -- `merge` for one child of the other tree: taken over, or merged into the child under its key.
  pub merge_at : T → Node T → (Node T → Node T) → Children T → Children T
  merge_at k d f nil = cons k d nil
  merge_at k d f (cons y c cs) = if k ≟ y then cons y (f c) cs else cons y c (merge_at k d f cs)

  -- `intersect` for one child: removed, or intersected with the other tree's child under its key.
  abbrev pub keep_common : T → (Node T → Node T) → Option (Node T) → Children T → Children T
  keep_common k f none rest = rest
  keep_common k f (some d) rest = cons k (f d) rest

  -- The stack of node pairs becomes recursion: the pairs are of disjoint subtrees.
  mutual
    unfolding merge_at

    pub merge : Node T → Node T → Node T
    merge (node v cs) (node w ds) = node (v || w) (merge_children cs ds)

    pub merge_children : Children T → Children T → Children T
    merge_children cs nil = cs
    merge_children cs (cons k d ds) = merge_children (merge_at k d (λ c. merge c d) cs) ds

  mutual
    unfolding find

    pub intersect : Node T → Node T → Node T
    intersect (node v cs) (node w ds) = node (v && w) (intersect_children cs ds)

    pub intersect_children : Children T → Children T → Children T
    intersect_children nil ds = nil
    intersect_children (cons k c cs) ds =
        keep_common k (intersect c) (find k ds) (intersect_children cs ds)

module _ {ℓ κ} {T : Type ℓ} {U : Type κ} ⦃e : Eq U⦄ (f : T → U) where
  -- `newNode->children[map(lit)] = child->convert(map)`, child by child.
  mutual
    unfolding alter

    pub convert : Node T → Node U
    convert (node v cs) = node v (convert_children nil cs)

    pub convert_children : Children U → Children T → Children U
    convert_children out nil = out
    convert_children out (cons k c cs) = convert_children (alter (f k) (λ _. convert c) out) cs
