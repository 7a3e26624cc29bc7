-- ===== src/Sat/Dnf2Cnf.antt =====
-- The conversion of a formula in disjunctive normal form (src/sat/dnf2cnf.h), a vector in which a 0
-- ends each conjunction. An index is the rest of the vector from there on; reading past the end has no
-- result.
use lilotane_smt_csp.Prelude.{
  ℕ, zero, suc, ◌*◌, List, [], ◌∷◌, ℤ, pos, Option, none, some, int_eq, ◌≟◌, if◌then◌else◌, ◌==◌,
}
use lilotane_smt_csp.Sat.OrderedSets.{set_insert, sets_insert}

-- `size` after the first loop: the number of combinations.
pub num_combinations : ℕ → ℕ → List ℤ → ℕ
num_combinations size cls_size [] = size
num_combinations size cls_size (l ∷ ls) =
    if l ≟ pos 0
    then num_combinations (size * cls_size) 0 ls
    else num_combinations size (suc cls_size) ls

-- The vector from `clsStarts[x]` on, and from `clsStarts[x] + counter[x]` on.
abbrev pub Cursor : Type 0
Cursor = List ℤ × List ℤ

pub cls_starts : ℕ → List ℤ → List Cursor
cls_starts cls_size [] = []
cls_starts cls_size (l ∷ ls) =
    if l ≟ pos 0
    then cls_starts 0 ls
    else if cls_size == 0
    then (l ∷ ls, l ∷ ls) ∷ cls_starts (suc cls_size) ls
    else cls_starts (suc cls_size) ls

-- "Assemble the combination"
pub combination : List Cursor → List ℤ → Option (List ℤ)
combination [] cls = some cls
combination ((start, []) ∷ cs) cls = none
combination ((start, l ∷ ls) ∷ cs) cls = combination cs (set_insert l cls)

pub data Next : Type 0 where
  finished : Next
  next : List Cursor → Next
  outside : Next

pub behind : Cursor → Next → Next
behind c finished = finished
behind c (next cs) = next (c ∷ cs)
behind c outside = outside

-- "Increment exponential counter"
pub increment : List Cursor → Next
unfolding behind
increment [] = finished
increment ((start, l ∷ n ∷ ls) ∷ cs) =
    let carried = behind ((start, start)) (increment cs) in
    if n ≟ pos 0 then carried else next ((start, n ∷ ls) ∷ cs)
increment (c ∷ cs) = outside

pub combine : ℕ → List Cursor → List (List ℤ) → Option (List (List ℤ))
unfolding combination increment
combine zero cs cnf = none
combine (suc rounds) cs cnf = elim (combination cs []) [
  | none ↦ none
  | some cls ↦ elim (increment cs) [
    | finished ↦ some (sets_insert cls cnf)
    | outside ↦ none
    | next cs' ↦ combine rounds cs' (sets_insert cls cnf)
  ]
]

-- `getCnf`
pub get_cnf : List ℤ → Option (List (List ℤ))
unfolding combine cls_starts num_combinations
get_cnf [] = some []
get_cnf (l ∷ ls) = combine (num_combinations 1 0 (l ∷ ls)) (cls_starts 0 (l ∷ ls)) []
