-- ===== src/Algo/ArgIterator.antt =====
-- The iterator over all argument combinations (src/algo/arg_iterator.h and .cpp): a counter with one
-- digit to an argument, the first one fastest. Sizes do not overflow.
pub mod Product
mod Examples
use lilotane_smt_csp.Prelude.{
  ℕ, zero, suc, ◌+◌, ◌*◌, Bool, true, false, not, ◌&&◌, List, [], ◌∷◌, map, ℤ, pos, negsuc,
  if◌then◌else◌, ◌==◌, length, get_or, Option, none, some,
}
use lilotane_smt_csp.Data.Signature.{USignature}

pub record It : Type 0 where
  pub counter : List ℕ
  pub counter_number : ℕ
  pub usig : USignature

-- `front()`; a list of eligible arguments is not empty, by an assertion.
pub front : List ℤ → ℤ
front xs = get_or xs 0 (pos 0)

-- The constructor of `It`.
pub new_it : ℤ → List (List ℤ) → It
unfolding front
new_it sig_id eligible = record {
  counter = map (λ xs. 0) eligible;
  counter_number = 0;
  usig = record { name_id = sig_id; args = map front eligible };
}

-- The loop of `operator++`, over the digits and the arguments.
pub advance : List (List ℤ) → List ℕ → List ℤ → List ℕ × List ℤ
unfolding front
advance (xs ∷ eligible) (c ∷ counter) (a ∷ args) =
    let (counter', args') = advance eligible counter args in
    if suc c == length xs
    then (0 ∷ counter', front xs ∷ args')
    else (suc c ∷ counter, get_or xs (suc c) (pos 0) ∷ args)
advance eligible counter args = (counter, args)

-- `operator++`
pub next : List (List ℤ) → It → It
unfolding advance
next eligible it =
    let (counter, args) = advance eligible it.counter it.usig.args in
    record {
      counter = counter;
      counter_number = it.counter_number + 1;
      usig = record { name_id = it.usig.name_id; args = args };
    }

-- `numChoices`
pub count_choices : ℕ → List (List ℤ) → ℕ
count_choices n [] = n
count_choices n (xs ∷ eligible) = count_choices (n * length xs) eligible

pub num_choices : List (List ℤ) → ℕ
unfolding count_choices
num_choices [] = 0
num_choices (xs ∷ eligible) = count_choices 1 (xs ∷ eligible)

-- A loop `for (sig : iterator)`, on the rounds that may be left: the signatures that it sees.
pub visit : List (List ℤ) → ℕ → ℕ → It → List USignature
unfolding next
visit eligible end zero it = []
visit eligible end (suc fuel) it =
    let rest = visit eligible end fuel (next eligible it) in
    if it.counter_number == end then [] else it.usig ∷ rest

pub all_signatures : ℤ → List (List ℤ) → List USignature
unfolding visit new_it num_choices
all_signatures sig_id eligible =
    visit eligible (num_choices eligible) (suc (num_choices eligible)) (new_it sig_id eligible)

-- `getFullInstantiation`, for the sorts of the signature: the lists of eligible arguments, or none if
-- a variable has no eligible constant. The instance's answers are parameters.
module _ (is_variable is_q_constant : ℤ → Bool) (is_positive : ℤ → Bool)
    (constants_of_sort : ℤ → List ℤ) where
  pub ground_constants : List ℤ → List ℤ
  ground_constants [] = []
  ground_constants (c ∷ cs) =
      if is_q_constant c then ground_constants cs else c ∷ ground_constants cs

  pub eligible_args : List ℤ → List ℤ → Option (List (List ℤ))
  unfolding ground_constants
  eligible_args (sort ∷ sorts) (arg ∷ args) =
      let rest = eligible_args sorts args in
      if is_positive arg && is_variable arg
      then elim (ground_constants (constants_of_sort sort)) [
        | [] ↦ none
        | c ∷ cs ↦ elim rest [ none ↦ none | some r ↦ some ((c ∷ cs) ∷ r) ]
      ]
      else elim rest [ none ↦ none | some r ↦ some ((arg ∷ []) ∷ r) ]
  eligible_args sorts args = some []

  pub full_instantiation : List ℤ → USignature → List USignature
  unfolding eligible_args
  full_instantiation sorts sig = elim (eligible_args sorts sig.args) [
    | none ↦ all_signatures sig.name_id []
    | some eligible ↦ all_signatures sig.name_id eligible
  ]
