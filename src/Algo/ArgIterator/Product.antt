-- ===== src/Algo/ArgIterator/Product.antt =====
-- The iterator's loop (src/algo/arg_iterator.h) sees every combination of eligible arguments once, and
-- nothing else.
use lilotane_smt_csp.Prelude.{
  ℕ, zero, suc, ◌+◌, ◌*◌, ◌<◌, ◌≡◌, refl, ap, ◌∙◌, true, List, [], ◌∷◌, ◌++◌, map, ℤ, pos, length,
  get_or, arith, all, ltb, drop,
}
use native.Mathlib.Nat.{mul_assoc}
use lilotane_smt_csp.Algo.ArgIterator.{
  It, front, new_it, advance, next, count_choices, num_choices, visit, all_signatures,
}

-- Every list of arguments of `argss`, with every element of `xs` before it.
pub expand : List ℤ → List (List ℤ) → List (List ℤ)
expand xs [] = []
expand xs (args ∷ argss) = map (λ x. x ∷ args) xs ++ expand xs argss

-- All combinations, the first argument changing fastest.
pub product : List (List ℤ) → List (List ℤ)
unfolding expand
product [] = [] ∷ []
product (xs ∷ eligible) = expand xs (product eligible)

-- The arguments that `k` rounds see.
rounds : List (List ℤ) → ℕ → List ℕ → List ℤ → List (List ℤ)
unfolding advance
rounds eligible zero counter args = []
rounds eligible (suc k) counter args =
    args ∷ rounds eligible k (advance eligible counter args).0 (advance eligible counter args).1

drop-get_or :
    (xs : List ℤ) (c : ℕ) → c < length xs → drop c xs ≡ get_or xs c (pos 0) ∷ drop (suc c) xs
drop-get_or [] c h = absurd (omega arith)
drop-get_or (x ∷ xs) zero h = refl
drop-get_or (x ∷ xs) (suc c) h = drop-get_or xs c (omega arith)

drop-all : (xs : List ℤ) (c : ℕ) → c ≡ length xs → drop c xs ≡ []
drop-all [] zero h = refl
drop-all [] (suc c) h = absurd (omega arith)
drop-all (x ∷ xs) zero h = absurd (omega arith)
drop-all (x ∷ xs) (suc c) h = drop-all xs c (omega arith)

advance-wraps :
    (xs : List ℤ) (eligible : List (List ℤ)) (c : ℕ) (a : ℤ) (counter : List ℕ) (args : List ℤ)
    → suc c ≡ length xs
    → advance (xs ∷ eligible) (c ∷ counter) (a ∷ args)
      ≡ (0 ∷ (advance eligible counter args).0, front xs ∷ (advance eligible counter args).1)
unfolding advance
advance-wraps xs eligible c a counter args h = ground arith

advance-steps :
    (xs : List ℤ) (eligible : List (List ℤ)) (c : ℕ) (a : ℤ) (counter : List ℕ) (args : List ℤ)
    → suc c < length xs
    → advance (xs ∷ eligible) (c ∷ counter) (a ∷ args)
      ≡ (suc c ∷ counter, get_or xs (suc c) (pos 0) ∷ args)
unfolding advance
advance-steps xs eligible c a counter args h = ground arith

-- The rounds until the first digit is 0 again.
rounds-row :
    (xs : List ℤ) (eligible : List (List ℤ)) (r n c k : ℕ) (counter : List ℕ) (args : List ℤ)
    → c + suc r ≡ length xs
    → n ≡ suc r + k
    → rounds (xs ∷ eligible) n (c ∷ counter) (get_or xs c (pos 0) ∷ args)
      ≡ map (λ x. x ∷ args) (drop c xs)
        ++ rounds
            (xs ∷ eligible)
            k
            (0 ∷ (advance eligible counter args).0)
            (front xs ∷ (advance eligible counter args).1)
unfolding rounds
rounds-row xs eligible r zero c k counter args h hn = absurd (omega arith)
rounds-row xs eligible zero (suc n) c k counter args h hn =
    rw (drop-get_or xs c (omega arith), drop-all xs (suc c) (omega arith), same)
      (ap (λ t. (get_or xs c (pos 0) ∷ args) ∷ t) wrapped)
  where
    same : n ≡ k
    same = omega arith

    wrapped :
        rounds
          (xs ∷ eligible)
          k
          (advance (xs ∷ eligible) (c ∷ counter) (get_or xs c (pos 0) ∷ args)).0
          (advance (xs ∷ eligible) (c ∷ counter) (get_or xs c (pos 0) ∷ args)).1
        ≡ rounds
            (xs ∷ eligible)
            k
            (0 ∷ (advance eligible counter args).0)
            (front xs ∷ (advance eligible counter args).1)
    wrapped =
        ap (λ p. rounds (xs ∷ eligible) k p.0 p.1)
          (advance-wraps xs eligible c (get_or xs c (pos 0)) counter args (omega arith))
rounds-row xs eligible (suc r) (suc n) c k counter args h hn = rw (drop-get_or xs c (omega arith)) (
    ap (λ t. (get_or xs c (pos 0) ∷ args) ∷ t)
      (ap (λ p. rounds (xs ∷ eligible) n p.0 p.1)
          (advance-steps xs eligible c (get_or xs c (pos 0)) counter args (omega arith))
        ∙ rounds-row xs eligible r n (suc c) k counter args (omega arith) (omega arith)))

-- A whole number of turns of the first digit.
rounds-expand :
    (xs : List ℤ) (eligible : List (List ℤ)) (m n : ℕ) (counter : List ℕ) (args : List ℤ)
    → 0 < length xs
    → n ≡ length xs * m
    → rounds (xs ∷ eligible) n (0 ∷ counter) (front xs ∷ args)
      ≡ expand xs (rounds eligible m counter args)
unfolding rounds expand front
rounds-expand xs eligible zero n counter args h hn =
    rw (let none_left : n ≡ 0 = omega arith in none_left) refl
rounds-expand [] eligible (suc m) n counter args h hn = absurd (omega arith)
rounds-expand (x ∷ xs) eligible (suc m) n counter args h hn =
    rounds-row (x ∷ xs) eligible (length xs) n 0 (length (x ∷ xs) * m) counter args (omega arith)
      (omega arith)
    ∙ ap (λ t. map (λ y. y ∷ args) (x ∷ xs) ++ t)
        (rounds-expand (x ∷ xs) eligible m (length (x ∷ xs) * m) (advance eligible counter args).0
          (advance eligible counter args).1 h refl)

size_of : List (List ℤ) → ℕ
size_of [] = 1
size_of (xs ∷ eligible) = length xs * size_of eligible

rounds-product :
    (eligible : List (List ℤ))
    → all (λ xs. ltb 0 (length xs)) eligible ≡ true
    → rounds eligible (size_of eligible) (map (λ xs. 0) eligible) (map front eligible)
      ≡ product eligible
unfolding product size_of rounds
rounds-product [] h = refl
rounds-product (xs ∷ eligible) h =
    rounds-expand xs eligible (size_of eligible) (length xs * size_of eligible)
      (map (λ ys. 0) eligible) (map front eligible) (ground arith) refl
    ∙ ap (expand xs) (rounds-product eligible (ground arith))

count_choices_lem :
    (n : ℕ) (eligible : List (List ℤ)) → count_choices n eligible ≡ n * size_of eligible
unfolding count_choices size_of
count_choices_lem n [] = omega arith
count_choices_lem n (xs ∷ eligible) =
    count_choices_lem (n * length xs) eligible ∙ mul_assoc n (length xs) (size_of eligible)

num_choices_lem :
    (xs : List ℤ) (eligible : List (List ℤ)) → num_choices (xs ∷ eligible) ≡ size_of (xs ∷ eligible)
unfolding num_choices
num_choices_lem xs eligible = omega (arith, count_choices_lem 1 (xs ∷ eligible))

visit-rounds :
    (eligible : List (List ℤ)) (end k fuel : ℕ) (it : It)
    → it.counter_number + k ≡ end
    → k < fuel
    → visit eligible end fuel it
      ≡ map
          (λ args. record { name_id = it.usig.name_id; args = args })
          (rounds eligible k it.counter it.usig.args)
unfolding visit rounds next
visit-rounds eligible end k zero it h b = absurd (omega arith)
visit-rounds eligible end zero (suc fuel) it h b = ground arith
visit-rounds eligible end (suc k) (suc fuel) it h b =
    ground (arith, visit-rounds eligible end k fuel (next eligible it))

-- The loop over an iterator whose arguments all have an eligible value sees every combination once,
-- the first argument changing fastest, and then ends: the rounds are enough. Without arguments it
-- sees none.
pub all_signatures-product :
    (sig_id : ℤ) (eligible : List (List ℤ))
    → all (λ xs. ltb 0 (length xs)) eligible ≡ true
    → all_signatures sig_id eligible
      ≡ map
          (λ args. record { name_id = sig_id; args = args })
          (elim eligible [ [] ↦ [] | xs ∷ rest ↦ product (xs ∷ rest) ])
unfolding all_signatures new_it visit num_choices
all_signatures-product sig_id [] h = refl
all_signatures-product sig_id (xs ∷ eligible) h =
    visit-rounds (xs ∷ eligible) (num_choices (xs ∷ eligible)) (num_choices (xs ∷ eligible))
      (suc (num_choices (xs ∷ eligible))) (new_it sig_id (xs ∷ eligible)) (omega arith)
      (omega arith)
    ∙ ap (map (λ args. record { name_id = sig_id; args = args })) (
        ap
          (λ n.
            rounds (xs ∷ eligible) n (map (λ ys. 0) (xs ∷ eligible)) (map front (xs ∷ eligible)))
          (num_choices_lem xs eligible)
        ∙ rounds-product (xs ∷ eligible) h)
