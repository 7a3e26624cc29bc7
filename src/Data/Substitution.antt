-- ===== src/Data/Substitution.antt =====
-- Substitutions (src/data/substitution.h and .cpp): a singly linked list of entries. A reference that
-- `operator[]` returns is written through at once by its callers, so that reading for writing is the
-- function `assign`.
pub mod Lookup
pub mod Order
pub mod Compose
mod Examples
use lilotane_smt_csp.Prelude.{
  ℕ, suc, Bool, true, false, not, ◌&&◌, List, [], ◌∷◌, ◌++◌, Option, none, some, ℤ, pos, negsuc,
  ltb, if◌then◌else◌, Eq, ◌≟◌, int_eq, length,
}

pub record Entry : Type 0 where
  pub first : ℤ
  pub second : ℤ

abbrev pub Substitution : Type 0
Substitution = List Entry

-- `<` of `int`.
abbrev pub lt_int : ℤ → ℤ → Bool
lt_int (pos a) (pos b) = ltb a b
lt_int (pos a) (negsuc b) = false
lt_int (negsuc a) (pos b) = true
lt_int (negsuc a) (negsuc b) = ltb b a

-- `find`, and with it `at` and `count`: the first entry of the key.
pub find : ℤ → Substitution → Option ℤ
find key [] = none
find key (e ∷ s) = if e.first ≟ key then some e.second else find key s

pub count : ℤ → Substitution → Bool
unfolding find
count key s = elim (find key s) [ none ↦ false | some v ↦ true ]

-- What the callers make of an argument: `it != s.end() ? it->second : arg`.
pub image : Substitution → ℤ → ℤ
unfolding find
image s arg = elim (find arg s) [ none ↦ arg | some v ↦ v ]

-- The scan of `operator[]` from the entry `e` on, with the entries behind it: the entry of the key is
-- overwritten, and a new one is put behind the first entry whose successor has a larger key.
pub assign_from : ℤ → ℤ → Entry → Substitution → Substitution
assign_from key val e [] =
    if e.first ≟ key
    then record e { second = val } ∷ []
    else e ∷ record { first = key; second = val } ∷ []
assign_from key val e (next ∷ s) =
    if e.first ≟ key
    then record e { second = val } ∷ next ∷ s
    else if lt_int key next.first
    then e ∷ record { first = key; second = val } ∷ next ∷ s
    else e ∷ assign_from key val next s

-- `s[key] = val`.
pub assign : ℤ → ℤ → Substitution → Substitution
unfolding assign_from
assign key val [] = record { first = key; second = val } ∷ []
assign key val (e ∷ s) = assign_from key val e s

-- The constructor from two argument lists of one length (its assertion): pairs that differ are added.
pub from_args : List ℤ → List ℤ → Substitution → Substitution
unfolding assign
from_args (a ∷ src) (b ∷ dest) s = from_args src dest (if a ≟ b then s else assign a b s)
from_args src dest s = s

pub substitution : List ℤ → List ℤ → Substitution
unfolding from_args
substitution src dest = from_args src dest []

-- `concatenate`, its first loop and its second.
pub through : Substitution → Substitution → Substitution → Substitution
unfolding assign image
through second [] s = s
through second (e ∷ first) s = through second first (assign e.first (image second e.second) s)

pub add_missing : Substitution → Substitution → Substitution
unfolding assign count
add_missing [] s = s
add_missing (e ∷ second) s =
    add_missing second (if count e.first s then s else assign e.first e.second s)

pub concatenate : Substitution → Substitution → Substitution
unfolding through add_missing
concatenate first second = add_missing second (through second first [])

-- `getAll`: one pass over the substitutions so far; those that already map `a` elsewhere are kept,
-- and get an overwritten copy at the end.
pub branch : ℤ → ℤ → List Substitution → List Substitution × List Substitution
unfolding find assign
branch a b [] = ([], [])
branch a b (s ∷ ss) =
    let (kept, added) = branch a b ss in
    let overwritten = assign a b s in
    elim (find a s) [
      | none ↦ (overwritten ∷ kept, added)
      | some v ↦ if v ≟ b then (overwritten ∷ kept, added) else (s ∷ kept, overwritten ∷ added)
    ]

pub all_from : List ℤ → List ℤ → List Substitution → List Substitution
unfolding branch
all_from (a ∷ src) (b ∷ dest) ss =
    let (kept, added) = branch a b ss in all_from src dest (if a ≟ b then ss else kept ++ added)
all_from src dest ss = ss

pub get_all : List ℤ → List ℤ → List Substitution
unfolding all_from
get_all src dest = all_from src dest ([] ∷ [])
