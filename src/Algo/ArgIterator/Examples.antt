-- ===== src/Algo/ArgIterator/Examples.antt =====
-- Two arguments with two and three eligible constants (src/algo/arg_iterator.h).
use lilotane_smt_csp.Prelude.{◌≡◌, refl, List, [], ◌∷◌, map, ℤ, pos}
use lilotane_smt_csp.Algo.ArgIterator.{all_signatures}
use lilotane_smt_csp.Algo.ArgIterator.Product.{product, all_signatures-product}

abbrev eligible : List (List ℤ)
eligible = (pos 1 ∷ pos 2 ∷ []) ∷ (pos 3 ∷ pos 4 ∷ pos 5 ∷ []) ∷ []

all_signatures-product_example :
    all_signatures (pos 9) eligible
    ≡ map (λ args. record { name_id = pos 9; args = args }) (product eligible)
all_signatures-product_example = all_signatures-product (pos 9) eligible refl
