-- ===== src/Data/Substitution/Examples.antt =====
-- The theorems on substitutions at small ones.
use lilotane_smt_csp.Prelude.{◌≡◌, refl, ◌≢◌, [], ◌∷◌, map, ℤ, pos, negsuc, if◌then◌else◌, int_eq}
use lilotane_smt_csp.Data.Substitution.{
  Substitution, find, image, assign, substitution, concatenate, get_all,
}
use lilotane_smt_csp.Data.Substitution.Order.{IsKept, empty, assign-IsKept, assign-order_matters}
use lilotane_smt_csp.Data.Substitution.Compose.{
  among, image-concatenate, image-substitution, get_all-substitution,
}

five : Substitution
five = assign (pos 5) (pos 50) []

five-IsKept : IsKept five
unfolding five
five-IsKept = assign-IsKept (pos 5) (pos 50) [] empty

-- The entry of the smaller key stands behind the first one.
smaller_key_second :
    assign (pos 3) (pos 30) five
    ≡ record { first = pos 5; second = pos 50 } ∷ record { first = pos 3; second = pos 30 } ∷ []
unfolding five assign
smaller_key_second = refl

assign-order_matters_example :
    ((q : ℤ)
      → find q (assign (pos 3) (pos 30) (assign (pos 5) (pos 50) []))
        ≡ find q (assign (pos 5) (pos 50) (assign (pos 3) (pos 30) [])))
    × (assign (pos 3) (pos 30) (assign (pos 5) (pos 50) [])
        ≢ assign (pos 5) (pos 50) (assign (pos 3) (pos 30) []))
assign-order_matters_example = assign-order_matters (pos 3) (pos 5) (pos 30) (pos 50) refl

image-concatenate_example :
    image (concatenate five (assign (pos 50) (pos 7) [])) (pos 5)
    ≡ image (assign (pos 50) (pos 7) []) (image five (pos 5))
image-concatenate_example = image-concatenate five (assign (pos 50) (pos 7) []) (pos 5) five-IsKept

abbrev opposite_of : ℤ → ℤ
opposite_of (pos n) = negsuc n
opposite_of (negsuc n) = pos n

image-substitution_example :
    image (substitution (pos 1 ∷ pos 2 ∷ []) (map opposite_of (pos 1 ∷ pos 2 ∷ []))) (pos 2)
    ≡ (if among (pos 2) (pos 1 ∷ pos 2 ∷ []) then negsuc 2 else pos 2)
image-substitution_example = image-substitution opposite_of (pos 1 ∷ pos 2 ∷ []) (pos 2)

get_all-substitution_example :
    get_all (pos 1 ∷ pos 1 ∷ []) (map opposite_of (pos 1 ∷ pos 1 ∷ []))
    ≡ substitution (pos 1 ∷ pos 1 ∷ []) (map opposite_of (pos 1 ∷ pos 1 ∷ [])) ∷ []
get_all-substitution_example = get_all-substitution opposite_of (pos 1 ∷ pos 1 ∷ [])
